-- ===== src/Ipc/Message.antt =====
-- ipc/message.c: message ports. A null pointer is `none`, and `Slots` and `Data` (`words`) are functions of the
-- index.
use novium_os.Prelude.{
  ℕ, zero, suc, ◌+◌, ◌-◌, ◌%◌, ◌^◌, Bool, true, false, not, ◌&&◌, ◌||◌, Option, none, some, ltb,
  leb, ◌==◌, if◌then◌else◌, update,
}
use novium_os.Sched.{Scheduler, lock_irq, unlock_irq}
use novium_os.Ipc.{
  IpcStatus, ipc_ok, err_invalid, err_full, err_empty, err_busy, IpcWait, no_waiters, ipc_self_id,
  ipc_wake_one,
}
use novium_os.Ipc.Park.{Waitable, Others, ipc_park}
use novium_os.Ipc.Sync.{Called, is_ok, is_empty}

abbrev pub message_words : ℕ
message_words = 8

abbrev pub port_capacity : ℕ
port_capacity = 16

abbrev pub port_magic : ℕ
port_magic = 0x504f5254

pub record IpcMessage : Type 0 where
  pub length : ℕ
  pub sender : ℕ
  pub words : ℕ → ℕ

pub record IpcPort : Type 0 where
  pub magic : ℕ
  pub head : ℕ
  pub count : ℕ
  pub slots : ℕ → IpcMessage
  pub senders : IpcWait
  pub receivers : IpcWait

-- `PortReset`, which leaves the data words of the slots.
unfoldable pub port_reset : IpcPort → IpcPort
port_reset port = record port {
  head = 0;
  count = 0;
  senders = no_waiters;
  receivers = no_waiters;
  slots = λ i. record { length = 0; sender = 0; words = (port.slots i).words };
}

unfoldable pub ipc_port_is_created : Option IpcPort → Bool
ipc_port_is_created none = false
ipc_port_is_created (some port) = port.magic == port_magic

unfoldable pub ipc_port_create : Option IpcPort → Scheduler → Called IpcPort
ipc_port_create none s = (err_invalid, none, s)
ipc_port_create (some port) s0 =
    let s = unlock_irq s0.irqs_enabled (lock_irq s0) in
    if port.magic == port_magic
    then (err_invalid, some port, s)
    else (ipc_ok, some (port_reset (record port { magic = port_magic })), s)

unfoldable pub ipc_port_destroy : Option IpcPort → Scheduler → Called IpcPort
ipc_port_destroy none s = (err_invalid, none, s)
ipc_port_destroy (some port) s0 =
    let s = unlock_irq s0.irqs_enabled (lock_irq s0) in
    if not (port.magic == port_magic)
    then (err_invalid, some port, s0)
    else if not (port.senders.count == 0) || not (port.receivers.count == 0)
    then (err_busy, some port, s)
    else (ipc_ok, some (record (port_reset port) { magic = 0 }), s)

unfoldable pub ipc_port_queued : Option IpcPort → ℕ
ipc_port_queued none = 0
ipc_port_queued (some port) = if not (port.magic == port_magic) then 0 else port.count

-- `PortHasRoom` and `PortHasMessage`, with the wait queues of the senders and the receivers.
abbrev pub for_room : Waitable IpcPort
for_room = record {
  queue = λ port. port.senders;
  set_queue = λ w port. record port { senders = w };
  is_ready = λ port. ltb port.count port_capacity;
}

abbrev pub for_message : Waitable IpcPort
for_message = record {
  queue = λ port. port.receivers;
  set_queue = λ w port. record port { receivers = w };
  is_ready = λ port. ltb 0 port.count;
}

-- `PortPush` for a caller with the id `self`.
unfoldable pub port_push : ℕ → IpcMessage → IpcPort → IpcPort
port_push self message port =
    let tail = (port.head + port.count) % 2 ^ 32 % port_capacity in
    record port {
      slots = update port.slots tail (record message { sender = self });
      count = (port.count + 1) % 2 ^ 32;
    }

-- `PortPop`
unfoldable pub port_pop : IpcPort → IpcMessage × IpcPort
port_pop port = (
  port.slots port.head,
  record port { head = (port.head + 1) % 2 ^ 32 % port_capacity; count = port.count - 1 },
)

-- The arguments that a send refuses at once.
unfoldable pub is_sendable : Option IpcPort → Option IpcMessage → Bool
is_sendable port none = false
is_sendable port (some message) = ipc_port_is_created port && leb message.length message_words

unfoldable pub ipc_try_send : Option IpcPort → Option IpcMessage → Scheduler → Called IpcPort
ipc_try_send none message s = (err_invalid, none, s)
ipc_try_send (some port) none s = (err_invalid, some port, s)
ipc_try_send (some port) (some message) s0 =
    let s = unlock_irq s0.irqs_enabled (lock_irq s0) in
    let woken = ipc_wake_one port.receivers s in
    if not (is_sendable (some port) (some message))
    then (err_invalid, some port, s0)
    else if port.count == port_capacity
    then (err_full, some port, s)
    else (
      ipc_ok,
      some (record (port_push (ipc_self_id (lock_irq s0)) message port) { receivers = woken.0 }),
      woken.1,
    )

abbrev pub is_full : IpcStatus → Bool
is_full err_full = true
is_full _ = false

module _ (others : Others IpcPort) where
  -- The loop of `IpcSend`: no result if the caller still waits after `fuel` rounds.
  unfoldable pub send_loop : ℕ → IpcMessage → IpcPort → Scheduler → Option (Called IpcPort)
  send_loop zero message port s = none
  send_loop (suc fuel) message port s =
      let tried = ipc_try_send (some port) (some message) s in
      if not (is_full tried.0)
      then some tried
      else elim (ipc_park for_room others (suc fuel) port tried.2)
          as (λ _. Option (Called IpcPort)) [
            | none ↦ none
            | some parked ↦ elim (is_ok parked.0) as (λ _. Option (Called IpcPort)) [
              | true ↦ send_loop fuel message parked.1 parked.2
              | false ↦ some (parked.0, some parked.1, parked.2)
            ]
          ]

  unfoldable pub ipc_send :
      ℕ → Option IpcPort → Option IpcMessage → Scheduler → Option (Called IpcPort)
  ipc_send fuel port none s = some (err_invalid, port, s)
  ipc_send fuel none (some message) s = some (err_invalid, none, s)
  ipc_send fuel (some port) (some message) s =
      let rest = send_loop fuel message port s in
      if not (is_sendable (some port) (some message))
      then some (err_invalid, some port, s)
      else rest

-- What a receive returns, the message at `out` and the rest.
pub record Received : Type 0 where
  pub status : IpcStatus
  pub port : Option IpcPort
  pub out : Option IpcMessage
  pub scheduler : Scheduler

unfoldable pub ipc_try_receive : Option IpcPort → Option IpcMessage → Scheduler → Received
ipc_try_receive none out s = record { status = err_invalid; port = none; out = out; scheduler = s }
ipc_try_receive (some port) none s = record {
  status = err_invalid;
  port = some port;
  out = none;
  scheduler = s;
}
ipc_try_receive (some port) (some out) s0 =
    let s = unlock_irq s0.irqs_enabled (lock_irq s0) in
    let woken = ipc_wake_one port.senders s in
    if not (ipc_port_is_created (some port))
    then record { status = err_invalid; port = some port; out = some out; scheduler = s0 }
    else if port.count == 0
    then record { status = err_empty; port = some port; out = some out; scheduler = s }
    else record {
      status = ipc_ok;
      port = some (record (port_pop port).1 { senders = woken.0 });
      out = some (port_pop port).0;
      scheduler = woken.1;
    }

module _ (others : Others IpcPort) where
  -- The loop of `IpcReceive`: no result if the caller still waits after `fuel` rounds.
  unfoldable pub receive_loop : ℕ → IpcMessage → IpcPort → Scheduler → Option Received
  receive_loop zero out port s = none
  receive_loop (suc fuel) out port s =
      let tried = ipc_try_receive (some port) (some out) s in
      if not (is_empty tried.status)
      then some tried
      else elim (ipc_park for_message others (suc fuel) port tried.scheduler)
          as (λ _. Option Received) [
            | none ↦ none
            | some parked ↦ elim (is_ok parked.0) as (λ _. Option Received) [
              | true ↦ receive_loop fuel out parked.1 parked.2
              | false ↦ some (record {
                status = parked.0;
                port = some parked.1;
                out = some out;
                scheduler = parked.2;
              })
            ]
          ]

  unfoldable pub ipc_receive : ℕ → Option IpcPort → Option IpcMessage → Scheduler → Option Received
  ipc_receive fuel port none s =
      some (record { status = err_invalid; port = port; out = none; scheduler = s })
  ipc_receive fuel none (some out) s =
      some (record { status = err_invalid; port = none; out = some out; scheduler = s })
  ipc_receive fuel (some port) (some out) s =
      let rest = receive_loop fuel out port s in
      if not (ipc_port_is_created (some port))
      then some (record { status = err_invalid; port = some port; out = some out; scheduler = s })
      else rest
