-- ===== src/Ipc/Sending.antt =====
-- `IpcSend` as a whole: what success means, whatever the other tasks do meanwhile.
use novium_os.Prelude.{
  ℕ, zero, suc, ◌<◌, ◌≡◌, refl, ap, Bool, true, false, Option, none, some, arith, inl, inr, ◌∙◌,
  Bool-cases, ◌==◌, [], ◌∷◌, ◌++◌,
}
use novium_os.Sched.{Scheduler, lock_irq, unlock_irq}
use novium_os.Ipc.{IpcStatus, ipc_ok, err_full, IpcWait, ipc_self_id, ipc_wake_one}
use novium_os.Ipc.Park.{Others, ipc_park}
use novium_os.Ipc.Rounds.{ipc_park_keeps}
use novium_os.Ipc.Sync.{Called, is_ok}
use novium_os.Ipc.Message.{
  IpcMessage, IpcPort, port_capacity, port_push, is_sendable, ipc_port_is_created, ipc_try_send,
  for_room, send_loop, ipc_send,
}
use novium_os.Ipc.Attempts.{
  Sent, untouched, last, Drifts, Sends, Sends-none, Sends-some, Sends-parked, ipc_park-Drifts,
}
use novium_os.Ipc.Ports.{signed, self_under_lock}
use novium_os.Ipc.Fifo.{messages, InBounds, messages-port_push}

is_ok-ipc_ok : (status : IpcStatus) → is_ok status ≡ true → status ≡ ipc_ok
is_ok-ipc_ok ipc_ok e = refl
is_ok-ipc_ok status e = ground arith

full_send :
    (port : IpcPort) (message : IpcMessage) (s : Scheduler)
    → is_sendable (some port) (some message) ≡ true
    → (port.count == port_capacity) ≡ true
    → ipc_try_send (some port) (some message) s
      ≡ (err_full, some port, unlock_irq s.irqs_enabled (lock_irq s))
unfolding ipc_try_send
full_send port message s ok full = rw (ok, full) refl

sent_port : IpcPort → IpcMessage → Scheduler → IpcPort
sent_port port message s = record (port_push (ipc_self_id (lock_irq s)) message port) {
  receivers = (ipc_wake_one port.receivers (unlock_irq s.irqs_enabled (lock_irq s))).0;
}

messages-sent_port :
    (port : IpcPort) (message : IpcMessage) (s : Scheduler)
    → InBounds port
    → (port.count == port_capacity) ≡ false
    → messages (sent_port port message s) ≡ messages port ++ signed s message ∷ []
unfolding sent_port port_push
messages-sent_port port message s v room =
    let below : port.count < port_capacity = ground (arith, v.count_fits) in
    (messages-port_push (ipc_self_id (lock_irq s)) message port v below).0
    ∙ ap (λ i. messages port ++ record message { sender = i } ∷ []) (self_under_lock s)

sent : IpcPort → IpcMessage → Scheduler → Called IpcPort
sent port message s =
    let woken = ipc_wake_one port.receivers (unlock_irq s.irqs_enabled (lock_irq s)) in
    (ipc_ok, some (sent_port port message s), woken.1)

room_send :
    (port : IpcPort) (message : IpcMessage) (s : Scheduler)
    → is_sendable (some port) (some message) ≡ true
    → (port.count == port_capacity) ≡ false
    → ipc_try_send (some port) (some message) s ≡ sent port message s
unfolding ipc_try_send sent sent_port
room_send port message s ok room = rw (ok, room) refl

-- What the other tasks have to keep of the port while a sender waits.
abbrev pub Usable : IpcMessage → IpcPort → Type 0
Usable message port = (is_sendable (some port) (some message) ≡ true) × InBounds port

module _ (others : Others IpcPort) (message : IpcMessage) where
  sent-Sent :
      (port : IpcPort) (s : Scheduler)
      → InBounds port
      → (port.count == port_capacity) ≡ false
      → Sent others message port s (sent port message s)
  unfolding sent
  sent-Sent port s v room = record {
    found = port;
    at = s;
    tried = last;
    drifted = untouched;
    room = room;
    after = sent_port port message s;
    returned = refl;
    stands = messages-sent_port port message s v room;
  }

  after_park :
      (fuel : ℕ) (port : IpcPort) (s : Scheduler) (o : Option (IpcStatus × IpcPort × Scheduler))
      → ((p : IpcStatus × IpcPort × Scheduler)
          → o ≡ some p
          → (p.0 ≡ ipc_ok → Sends others message port s (send_loop others fuel message p.1 p.2))
            × Drifts others message port p.1)
      → Sends others message port s (elim o as (λ _. Option (Called IpcPort)) [
        | none ↦ none
        | some parked ↦ elim (is_ok parked.0) as (λ _. Option (Called IpcPort)) [
          | true ↦ send_loop others fuel message parked.1 parked.2
          | false ↦ some (parked.0, some parked.1, parked.2)
        ]
      ])
  after_park fuel port s none later = Sends-none others message port s
  after_park fuel port s (some p) later = by_status (is_ok p.0) refl
    where
      by_status :
          (b : Bool)
          → is_ok p.0 ≡ b
          → Sends others message port s (elim b as (λ _. Option (Called IpcPort)) [
            | true ↦ send_loop others fuel message p.1 p.2
            | false ↦ some (p.0, some p.1, p.2)
          ])
      by_status true e = (later p refl).0 (is_ok-ipc_ok p.0 e)
      by_status false e =
          Sends-some others message port s (p.0, some p.1, p.2)
            (λ k. absurd (ground (arith, e, ap is_ok k))) (λ k. (p.1, refl, (later p refl).1))

  module _
      (keep : (p : IpcPort) (t : Scheduler)
        → Usable message p
        → Usable message (others.meanwhile p t)) where
    queue_keeps :
        (w : IpcWait) (p : IpcPort) → Usable message p → Usable message (record p { senders = w })
    unfolding is_sendable ipc_port_is_created
    queue_keeps w p u = (u.0, record { head_inside = u.1.head_inside; count_fits = u.1.count_fits })

    parked_keeps :
        (fuel : ℕ) (port : IpcPort) (s : Scheduler) (p : IpcStatus × IpcPort × Scheduler)
        → Usable message port
        → ipc_park for_room others fuel port s ≡ some p
        → Usable message p.1
    parked_keeps fuel port s p u e =
        ipc_park_keeps for_room others (Usable message) queue_keeps keep fuel port s p u e

    send_loop-Sends :
        (fuel : ℕ) (port : IpcPort) (s : Scheduler)
        → Usable message port
        → Sends others message port s (send_loop others fuel message port s)
    unfolding send_loop sent
    send_loop-Sends zero port s u = Sends-none others message port s
    send_loop-Sends (suc fuel) port s u = elim (Bool-cases (port.count == port_capacity)) [
      | inr room ↦
          rw (room_send port message s u.0 room, send_loop)
            (Sends-some others message port s (sent port message s) (λ _. sent-Sent port s u.1 room)
              (λ k. absurd (k refl)))
      | inl full ↦
          let t = unlock_irq s.irqs_enabled (lock_irq s) in
          rw (full_send port message s u.0 full, send_loop)
            (after_park fuel port s (ipc_park for_room others (suc fuel) port t) (λ p e. (
              λ ok.
                  Sends-parked others message port s (suc fuel) p
                    (send_loop others fuel message p.1 p.2) full e ok
                    (send_loop-Sends fuel p.1 p.2 (parked_keeps (suc fuel) port t p u e)),
              ipc_park-Drifts others message (suc fuel) port t p e,
            )))
    ]

    sends_now :
        (fuel : ℕ) (port : IpcPort) (s : Scheduler)
        → Usable message port
        → (port.count == port_capacity) ≡ false
        → send_loop others (suc fuel) message port s ≡ some (sent port message s)
    unfolding send_loop sent
    sends_now fuel port s u room = rw (room_send port message s u.0 room, send_loop) refl

    -- `IpcSend` of a message that is not too long to a created port with sound indices, which the other
    -- tasks keep so: with room in the port it returns success at once, with the message, signed by the
    -- caller, behind those that were queued. Whenever it returns success, its attempts before the last
    -- found the port full and parked, and the last put the message, signed by the task that runs then,
    -- behind the messages that it found. Till then, and when it returns another status, nothing but the
    -- other tasks and the queue of the senders has changed the port.
    pub ipc_send_lem :
        (fuel : ℕ) (port : IpcPort) (s : Scheduler)
        → Usable message port
        → ((port.count == port_capacity) ≡ false
            → (p : IpcPort) × (t : Scheduler) × (ipc_send others
                  (suc fuel)
                  (some port)
                  (some message)
                  s
                ≡ some (ipc_ok, some p, t))
              × (messages p ≡ messages port ++ signed s message ∷ []))
          × Sends others message port s (ipc_send others fuel (some port) (some message) s)
    unfolding ipc_send sent
    ipc_send_lem fuel port s u = (
      λ room. (
        sent_port port message s,
        (ipc_wake_one port.receivers (unlock_irq s.irqs_enabled (lock_irq s))).1,
        rw u.0 (sends_now fuel port s u room),
        messages-sent_port port message s u.1 room,
      ),
      rw (u.0, ipc_send) (send_loop-Sends fuel port s u),
    )
