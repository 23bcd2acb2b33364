-- ===== src/Ipc/Attempts.antt =====
-- `IpcSend`, attempt by attempt: what a call may come to while other tasks use the port.
use novium_os.Prelude.{ℕ, ◌≡◌, ◌≢◌, true, false, Option, none, some, ◌==◌, [], ◌∷◌, ◌++◌}
use novium_os.Sched.{Scheduler, lock_irq, unlock_irq}
use novium_os.Ipc.{IpcStatus, ipc_ok, IpcWait}
use novium_os.Ipc.Park.{Others, ipc_park}
use novium_os.Ipc.Rounds.{ipc_park_keeps}
use novium_os.Ipc.Sync.{Called}
use novium_os.Ipc.Message.{IpcMessage, IpcPort, port_capacity, for_room}
use novium_os.Ipc.Ports.{signed}
use novium_os.Ipc.Fifo.{messages}

module _ (others : Others IpcPort) (message : IpcMessage) where
  -- The attempts of a call: each one that finds the port full parks, and the next one is made with the
  -- port and the scheduler as they are when the caller has been woken.
  pub data Tries : IpcPort → Scheduler → IpcPort → Scheduler → Type 0 where
    last : {p : IpcPort} {t : Scheduler} → Tries p t p t
    waited :
        {p : IpcPort} {t : Scheduler} {q : IpcPort} {u : Scheduler} (fuel : ℕ)
        (o : IpcStatus × IpcPort × Scheduler)
        → (p.count == port_capacity) ≡ true
        → ipc_park for_room others fuel p (unlock_irq t.irqs_enabled (lock_irq t)) ≡ some o
        → o.0 ≡ ipc_ok
        → Tries o.1 o.2 q u
        → Tries p t q u

  -- What may become of the port while the call waits: only what other tasks do to it, and changes of the
  -- queue of the senders.
  pub data Drifts (port : IpcPort) : IpcPort → Type 0 where
    untouched : Drifts port port
    requeued : (w : IpcWait) {p : IpcPort} → Drifts port p → Drifts port (record p { senders = w })
    shared : (t : Scheduler) {p : IpcPort} → Drifts port p → Drifts port (others.meanwhile p t)

  Drifts-trans : {p : IpcPort} {q : IpcPort} {r : IpcPort} → Drifts p q → Drifts q r → Drifts p r
  Drifts-trans d untouched = d
  Drifts-trans d (requeued w e) = requeued w (Drifts-trans d e)
  Drifts-trans d (shared t e) = shared t (Drifts-trans d e)

  pub ipc_park-Drifts :
      (fuel : ℕ) (port : IpcPort) (s : Scheduler) (o : IpcStatus × IpcPort × Scheduler)
      → ipc_park for_room others fuel port s ≡ some o
      → Drifts port o.1
  ipc_park-Drifts fuel port s o e =
      ipc_park_keeps for_room others (Drifts port) (λ w p d. requeued w d) (λ p t d. shared t d)
        fuel port s o untouched e

  -- The last attempt found room, and put the message, signed by the task that runs then, behind the
  -- messages of the port as it found them.
  pub record Sent (port : IpcPort) (s : Scheduler) (r : Called IpcPort) : Type 0 where
    pub found : IpcPort
    pub at : Scheduler
    pub tried : Tries port s found at
    pub drifted : Drifts port found
    pub room : (found.count == port_capacity) ≡ false
    pub after : IpcPort
    pub returned : r.1 ≡ some after
    pub stands : messages after ≡ messages found ++ signed at message ∷ []

  -- The call put nothing into the port.
  abbrev pub Unsent : IpcPort → Called IpcPort → Type 0
  Unsent port r = (p : IpcPort) × (r.1 ≡ some p) × Drifts port p

  pub Sends : IpcPort → Scheduler → Option (Called IpcPort) → Type 0
  Sends port s none = Unit {0}
  Sends port s (some r) = (r.0 ≡ ipc_ok → Sent port s r) × (r.0 ≢ ipc_ok → Unsent port r)

  pub Sends-none : (port : IpcPort) (s : Scheduler) → Sends port s none
  unfolding Sends
  Sends-none port s = tt

  pub Sends-some :
      (port : IpcPort) (s : Scheduler) (r : Called IpcPort)
      → (r.0 ≡ ipc_ok → Sent port s r)
      → (r.0 ≢ ipc_ok → Unsent port r)
      → Sends port s (some r)
  unfolding Sends
  Sends-some port s r h k = (h, k)

  pub Sends-parked :
      (port : IpcPort) (s : Scheduler) (fuel : ℕ) (o : IpcStatus × IpcPort × Scheduler)
      (x : Option (Called IpcPort))
      → (port.count == port_capacity) ≡ true
      → ipc_park for_room others fuel port (unlock_irq s.irqs_enabled (lock_irq s)) ≡ some o
      → o.0 ≡ ipc_ok
      → Sends o.1 o.2 x
      → Sends port s x
  unfolding Sends
  Sends-parked port s fuel o none full e ok h = tt
  Sends-parked port s fuel o (some r) full e ok h =
      let drift = ipc_park-Drifts fuel port (unlock_irq s.irqs_enabled (lock_irq s)) o e in
      (
        λ k.
            let z = h.0 k in
            record {
              found = z.found;
              at = z.at;
              tried = waited fuel o full e ok z.tried;
              drifted = Drifts-trans drift z.drifted;
              room = z.room;
              after = z.after;
              returned = z.returned;
              stands = z.stands;
            },
        λ k. let (p, back, d) = h.1 k in (p, back, Drifts-trans drift d),
      )
