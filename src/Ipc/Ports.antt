-- ===== src/Ipc/Ports.antt =====
-- Sending to a port and receiving from it, against a bounded list of messages.
use novium_os.Prelude.{
  ◌+◌, ◌≤◌, ◌<◌, ◌≡◌, refl, sym, ap, ◌∙◌, true, false, ◌&&◌, ◌==◌, leb, List, [], ◌∷◌, ◌++◌, some,
  arith, length,
}
use novium_os.Sched.{Scheduler, lock_irq, unlock_irq}
use novium_os.Ipc.{ipc_ok, err_invalid, err_full, err_empty, err_busy, ipc_self_id, ipc_wake_one}
use novium_os.Ipc.Indices
use novium_os.Ipc.Waking.{ipc_wake_one-IsValid, no_waiters-IsValid}
use novium_os.Ipc.Sync.{Called}
use novium_os.Ipc.Message.{
  IpcMessage, IpcPort, port_capacity, port_magic, message_words, port_push, port_pop, port_reset,
  is_sendable, ipc_port_is_created, ipc_try_send, ipc_try_receive, ipc_port_create,
  ipc_port_destroy,
}
use novium_os.Ipc.Fifo.{messages, length-window, InBounds, messages-port_push, messages-port_pop}

-- A created port between calls.
pub record IsOpen (port : IpcPort) : Type 0 where
  pub created : (port.magic == port_magic) ≡ true
  pub bounds : InBounds port
  pub senders_valid : Indices.IsValid port.senders
  pub receivers_valid : Indices.IsValid port.receivers

-- The message as the receiver will see it.
abbrev pub signed : Scheduler → IpcMessage → IpcMessage
signed s message = record message { sender = ipc_self_id s }

pub self_under_lock : (s : Scheduler) → ipc_self_id (lock_irq s) ≡ ipc_self_id s
unfolding ipc_self_id lock_irq
self_under_lock s = refl

-- The call returned success and left an open port with these messages.
pub Leaves : List IpcMessage → Called IpcPort → Type 0
Leaves ms r = (p : IpcPort) × (r.0 ≡ ipc_ok) × (r.1 ≡ some p) × (messages p ≡ ms) × IsOpen p

module _ {port : IpcPort} (v : IsOpen port) (message : IpcMessage) (s : Scheduler) where
  sent : IpcPort
  sent = record (port_push (ipc_self_id (lock_irq s)) message port) {
    receivers = (ipc_wake_one port.receivers (unlock_irq s.irqs_enabled (lock_irq s))).0;
  }

  sent-IsOpen :
      port.count < port_capacity
      → (messages sent ≡ messages port ++ signed s message ∷ []) × IsOpen sent
  unfolding sent port_push
  sent-IsOpen room =
      let r = messages-port_push (ipc_self_id (lock_irq s)) message port v.bounds room in
      (
        r.0 ∙ ap (λ i. messages port ++ record message { sender = i } ∷ []) (self_under_lock s),
        record {
          created = v.created;
          bounds = record { head_inside = r.1.head_inside; count_fits = r.1.count_fits };
          senders_valid = v.senders_valid;
          receivers_valid =
              ipc_wake_one-IsValid (unlock_irq s.irqs_enabled (lock_irq s)) v.receivers_valid;
        },
      )

  -- `IpcTrySend` on an open port: a message that is too long is refused and a full port reports
  -- that, both leaving the port as it is. Otherwise the message, with the caller's id, goes behind
  -- those that are queued, and the port stays open.
  pub ipc_try_send_lem :
      let r = ipc_try_send (some port) (some message) s in
      (message_words < message.length → (r.0 ≡ err_invalid) × (r.1 ≡ some port))
      × (message.length ≤ message_words
          → length (messages port) ≡ port_capacity
          → (r.0 ≡ err_full) × (r.1 ≡ some port))
      × (message.length ≤ message_words
          → length (messages port) < port_capacity
          → Leaves (messages port ++ signed s message ∷ []) r)
  unfolding ipc_try_send is_sendable ipc_port_is_created Leaves sent
  ipc_try_send_lem =
      let size = length-window port.slots port.head 0 port.count in
      (
        λ long. ground (arith, v.created),
        λ fits full. ground (arith, v.created, size),
        λ fits room.
            let ok : (port.magic == port_magic && leb message.length message_words) ≡ true =
              ground (arith, v.created) in
            let space : (port.count == port_capacity) ≡ false = ground (arith, size) in
            let after = sent-IsOpen (omega (arith, size)) in
            rw (ok, space) (sent, refl, refl, after.0, after.1),
      )

module _ {port : IpcPort} (v : IsOpen port) (out : IpcMessage) (s : Scheduler) where
  received : IpcPort
  received = record (port_pop port).1 {
    senders = (ipc_wake_one port.senders (unlock_irq s.irqs_enabled (lock_irq s))).0;
  }

  received-IsOpen :
      0 < port.count → (messages port ≡ (port_pop port).0 ∷ messages received) × IsOpen received
  unfolding received port_pop
  received-IsOpen queued =
      let r = messages-port_pop port v.bounds queued in
      (
        r.0,
        record {
          created = v.created;
          bounds = record { head_inside = r.1.head_inside; count_fits = r.1.count_fits };
          senders_valid =
              ipc_wake_one-IsValid (unlock_irq s.irqs_enabled (lock_irq s)) v.senders_valid;
          receivers_valid = v.receivers_valid;
        },
      )

  -- `IpcTryReceive` on an open port: an empty port reports that and `out` is left alone. Otherwise
  -- the oldest message is written to `out` and leaves the port, which stays open.
  pub ipc_try_receive_lem :
      let r = ipc_try_receive (some port) (some out) s in
      (messages port ≡ [] → (r.status ≡ err_empty) × (r.port ≡ some port) × (r.out ≡ some out))
      × ((m : IpcMessage) (ms : List IpcMessage)
          → messages port ≡ m ∷ ms
          → (r.out ≡ some m) × Leaves ms (r.status, r.port, r.scheduler))
  unfolding ipc_try_receive ipc_port_is_created Leaves received
  ipc_try_receive_lem =
      let size = length-window port.slots port.head 0 port.count in
      (
        λ e. ground (arith, v.created, size),
        λ m ms e.
            let nonempty : (port.count == 0) ≡ false = ground (arith, size) in
            let after = received-IsOpen (ground arith) in
            let same : (port_pop port).0 ∷ messages received ≡ m ∷ ms = sym after.0 ∙ e in
            rw (v.created, nonempty)
              (ground (arith, same), (received, refl, refl, ground (arith, same), after.1)),
      )

-- `IpcPortCreate` refuses a port in use and leaves it; any other memory becomes an open port without
-- messages or waiters.
ipc_port_create_lem :
    (port : IpcPort) (s : Scheduler)
    → let r = ipc_port_create (some port) s in
      ((port.magic == port_magic) ≡ true → (r.0 ≡ err_invalid) × (r.1 ≡ some port))
      × ((port.magic == port_magic) ≡ false → Leaves [] r)
unfolding ipc_port_create Leaves port_reset
ipc_port_create_lem port s = (
  λ e. ground arith,
  λ e. rw e (
    port_reset (record port { magic = port_magic }),
    refl,
    refl,
    refl,
    record {
      created = refl;
      bounds = record { head_inside = omega arith; count_fits = omega arith };
      senders_valid = no_waiters-IsValid;
      receivers_valid = no_waiters-IsValid;
    },
  ),
)

-- `IpcPortDestroy` of an open port is refused while a task waits on it, and the port stays as it is.
-- Otherwise the port is no longer created, so that every later send and receive is refused.
pub ipc_port_destroy_lem :
    (port : IpcPort) (s : Scheduler)
    → (port.magic == port_magic) ≡ true
    → let r = ipc_port_destroy (some port) s in
      (0 < port.senders.count + port.receivers.count → (r.0 ≡ err_busy) × (r.1 ≡ some port))
      × (port.senders.count + port.receivers.count ≡ 0
          → (r.0 ≡ ipc_ok)
            × (ipc_port_is_created r.1 ≡ false)
            × ((m : IpcMessage) → (ipc_try_send r.1 (some m) s).0 ≡ err_invalid)
            × ((m : IpcMessage) → (ipc_try_receive r.1 (some m) s).status ≡ err_invalid))
unfolding ipc_port_destroy ipc_port_is_created ipc_try_send ipc_try_receive is_sendable port_reset
ipc_port_destroy_lem port s e = (
  λ busy. ground arith,
  λ quiet.
      let senders : (port.senders.count == 0) ≡ true = ground arith in
      let receivers : (port.receivers.count == 0) ≡ true = ground arith in
      rw (e, senders, receivers) (refl, refl, λ m. refl, λ m. refl),
)
