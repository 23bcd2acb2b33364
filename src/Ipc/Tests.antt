-- ===== src/Ipc/Tests.antt =====
-- The theorems on wait queues, semaphores, mutexes and ports at work on concrete objects.
use novium_os.Prelude.{
  ◌+◌, ◌%◌, ◌^◌, ◌≤◌, ◌<◌, ◌≡◌, ◌≢◌, refl, true, false, if◌then◌else◌, none, some, arith, inr, ◌⊎◌,
  ◌==◌, List, [], ◌∷◌, ◌++◌, length,
}
use novium_os.Sched.{Scheduler, lock_irq, unlock_irq}
use novium_os.Sched.Runs.{blank}
use novium_os.Ipc.{
  IpcStatus, ipc_ok, err_invalid, err_full, err_empty, err_busy, err_owner, wait_is_live,
  wait_take_live, IpcWait, no_waiters, wait_add, find_id,
}
use novium_os.Ipc.Indices
use novium_os.Ipc.Waking.{TakesLive, wait_take_live_lem, no_waiters-IsValid}
use novium_os.Ipc.Park.{Others, park_round, park_loop}
use novium_os.Ipc.Sync.{
  IpcSemaphore, IpcMutex, Called, for_mutex, mutex_held_by_caller, mutex_lock, mutex_unlock,
  sem_post,
}
use novium_os.Ipc.Permits.{IsSound, Counts, sem_post_lem}
use novium_os.Ipc.Ownership.{Passed, mutex_unlock_lem, locked_parks}
use novium_os.Ipc.Locking.{mutex_lock_lem}
use novium_os.Ipc.Message.{
  IpcMessage, IpcPort, port_magic, port_capacity, ipc_try_send, ipc_try_receive, ipc_port_destroy,
  ipc_port_is_created, message_words,
}
use novium_os.Ipc.Attempts.{Sends}
use novium_os.Ipc.Sending.{Usable, ipc_send_lem}
use novium_os.Ipc.Message.{is_sendable, ipc_send, send_loop, port_pop}
use novium_os.Sched.{sched_find, find_from}
use novium_os.Sched.Wait.{sched_block}
use novium_os.Ipc.{ipc_self_id, first_live, wait_remove}
use novium_os.Ipc.Park.{ipc_park}
use novium_os.Ipc.Fifo.{messages, InBounds}
use novium_os.Ipc.Ports.{
  IsOpen, Leaves, signed, ipc_try_send_lem, ipc_try_receive_lem, ipc_port_destroy_lem,
}

-- Tasks 3 and 5 wait.
abbrev two_waiters : IpcWait
two_waiters = record { ids = λ i. if i == 0 then 3 else if i == 1 then 5 else 0; count = 2 }

two_waiters-IsValid : Indices.IsValid two_waiters
two_waiters-IsValid = record {
  fits = omega arith;
  distinct = λ i j h k e. ground arith;
  not_0 = λ i h. ground arith;
}

-- Task 7 is alive, and the tasks 3 and 5 around it have been killed.
abbrev one_alive : IpcWait
one_alive = record {
  ids = λ i. if i == 0 then 3 else if i == 1 then 7 else if i == 2 then 5 else 0;
  count = 3;
}

one_alive-IsValid : Indices.IsValid one_alive
one_alive-IsValid = record {
  fits = omega arith;
  distinct = λ i j h k e. ground arith;
  not_0 = λ i h. ground arith;
}

keeps_stale_entries :
    let r = wait_take_live blank one_alive in
    (r.0 ≡ 7) × (r.1.count ≡ 2) × (r.1.ids 0 ≡ 3) × (r.1.ids 1 ≡ 5)
unfolding wait_take_live first_live wait_is_live wait_remove sched_find find_from find_id
keeps_stale_entries = (refl, refl, refl, refl)

wait_take_live_lem_example :
    TakesLive (wait_is_live blank) one_alive (wait_take_live blank one_alive)
wait_take_live_lem_example = wait_take_live_lem blank one_alive-IsValid

abbrev one_message : IpcMessage
one_message = record { length = 2; sender = 0; words = λ i. i }

-- A port whose two messages lie in the last slot and the first.
abbrev wrapped_port : IpcPort
wrapped_port = record {
  magic = port_magic;
  head = 15;
  count = 2;
  slots = λ i. record { length = 1; sender = i; words = λ j. 0 };
  senders = no_waiters;
  receivers = two_waiters;
}

wrapped_port-InBounds : InBounds wrapped_port
wrapped_port-InBounds = record { head_inside = omega arith; count_fits = omega arith }

wrapped_port-IsOpen : IsOpen wrapped_port
wrapped_port-IsOpen = record {
  created = refl;
  bounds = wrapped_port-InBounds;
  senders_valid = no_waiters-IsValid;
  receivers_valid = two_waiters-IsValid;
}

ipc_try_send_lem_example :
    let r = ipc_try_send (some wrapped_port) (some one_message) blank in
    (message_words < one_message.length → (r.0 ≡ err_invalid) × (r.1 ≡ some wrapped_port))
    × (one_message.length ≤ message_words
        → length (messages wrapped_port) ≡ port_capacity
        → (r.0 ≡ err_full) × (r.1 ≡ some wrapped_port))
    × (one_message.length ≤ message_words
        → length (messages wrapped_port) < port_capacity
        → Leaves (messages wrapped_port ++ signed blank one_message ∷ []) r)
ipc_try_send_lem_example = ipc_try_send_lem wrapped_port-IsOpen one_message blank

ipc_try_receive_lem_example :
    let r = ipc_try_receive (some wrapped_port) (some one_message) blank in
    (messages wrapped_port ≡ []
      → (r.status ≡ err_empty) × (r.port ≡ some wrapped_port) × (r.out ≡ some one_message))
    × ((m : IpcMessage) (ms : List IpcMessage)
        → messages wrapped_port ≡ m ∷ ms
        → (r.out ≡ some m) × Leaves ms (r.status, r.port, r.scheduler))
ipc_try_receive_lem_example = ipc_try_receive_lem wrapped_port-IsOpen one_message blank

ipc_port_destroy_lem_example :
    let r = ipc_port_destroy (some wrapped_port) blank in
    (0 < 0 + 2 → (r.0 ≡ err_busy) × (r.1 ≡ some wrapped_port))
    × (0 + 2 ≡ 0
        → (r.0 ≡ ipc_ok)
          × (ipc_port_is_created r.1 ≡ false)
          × ((m : IpcMessage) → (ipc_try_send r.1 (some m) blank).0 ≡ err_invalid)
          × ((m : IpcMessage) → (ipc_try_receive r.1 (some m) blank).status ≡ err_invalid))
ipc_port_destroy_lem_example = ipc_port_destroy_lem wrapped_port blank refl

abbrev used_up : IpcSemaphore
used_up = record { count = 0; limit = 1; wait = no_waiters }

used_up-IsSound : IsSound used_up
used_up-IsSound = record {
  bounded = inr (omega arith);
  word = omega arith;
  queue = no_waiters-IsValid;
}

sem_post_lem_example :
    let r = sem_post (some used_up) blank in
    (used_up.limit ≢ 0 → used_up.count ≡ used_up.limit → (r.0 ≡ err_full) × (r.1 ≡ some used_up))
    × (((used_up.limit ≡ 0) ⊎ (used_up.count < used_up.limit))
        → used_up.limit < 2 ^ 32
        → Counts used_up ((0 + 1) % 2 ^ 32) r)
sem_post_lem_example = sem_post_lem used_up-IsSound blank

-- Sixteen tasks wait for a mutex that task 9 holds.
abbrev busy_mutex : IpcMutex
busy_mutex = record { locked = true; owner = 9; wait = record { ids = λ i. i + 1; count = 16 } }

abbrev idle_others : Others IpcMutex
idle_others = record { resume = λ a p t s. s; meanwhile = λ a s. a }

no_room :
    park_loop for_mutex idle_others 1 40 busy_mutex blank
    ≡ some (err_full, busy_mutex, unlock_irq true (lock_irq blank))
unfolding park_loop park_round wait_add
no_room = refl

abbrev turned_away : IpcStatus × IpcMutex × Scheduler
turned_away = (err_full, busy_mutex, unlock_irq true (lock_irq blank))

locked_parks_example : turned_away.0 ≡ err_full
locked_parks_example =
    locked_parks idle_others 40 1 busy_mutex blank
      (err_full, busy_mutex, unlock_irq true (lock_irq blank)) (λ m t h. h) refl no_room

abbrev held_mutex : IpcMutex
held_mutex = record { locked = true; owner = 0; wait = two_waiters }

mutex_unlock_lem_example :
    let r = mutex_unlock (some held_mutex) blank in
    (mutex_held_by_caller (some held_mutex) blank ≡ false
      → (r.0 ≡ err_owner) × (r.1 ≡ some held_mutex))
    × (mutex_held_by_caller (some held_mutex) blank ≡ true
        → (mutex' : IpcMutex) × (r.0 ≡ ipc_ok)
          × (r.1 ≡ some mutex')
          × Passed blank held_mutex mutex')
mutex_unlock_lem_example = mutex_unlock_lem held_mutex blank two_waiters-IsValid

mutex_lock_lem_example :
    (held_mutex.locked ≡ false
      → (r : Called IpcMutex) × (mutex_lock idle_others 3 (some held_mutex) blank ≡ some r)
        × (r.0 ≡ ipc_ok)
        × (mutex_held_by_caller r.1 r.2 ≡ true))
    × (mutex_held_by_caller (some held_mutex) blank ≡ true
        → mutex_lock idle_others 2 (some held_mutex) blank
          ≡ some (err_owner, some held_mutex, blank))
    × ((r : Called IpcMutex)
        → mutex_lock idle_others 2 (some held_mutex) blank ≡ some r
        → r.0 ≡ ipc_ok
        → mutex_held_by_caller r.1 r.2 ≡ true)
mutex_lock_lem_example = mutex_lock_lem idle_others 2 held_mutex blank

-- Task 7 sends to a full port, and while it waits another task takes the oldest message.
abbrev full_port : IpcPort
full_port = record wrapped_port { count = 16 }

full_port-InBounds : InBounds full_port
full_port-InBounds = record { head_inside = omega arith; count_fits = omega arith }

abbrev receiving : Others IpcPort
receiving = record { resume = λ a p t s. s; meanwhile = λ a s. (port_pop a).1 }

abbrev task_7 : Scheduler
task_7 = record blank { current_task = some 0 }

waits_for_room :
    (ipc_send receiving 1 (some full_port) (some one_message) task_7 ≡ none)
    × ((elim (ipc_send receiving 3 (some full_port) (some one_message) task_7) as (λ _. IpcStatus) [
      | none ↦ err_invalid
      | some r ↦ r.0
    ])
        ≡ ipc_ok)
unfolding ipc_send is_sendable ipc_port_is_created send_loop ipc_try_send ipc_park ipc_self_id
    park_loop park_round wait_add find_id port_pop sched_block wait_remove lock_irq unlock_irq
waits_for_room = (refl, refl)

receiving_keeps :
    (p : IpcPort) (t : Scheduler)
    → Usable one_message p
    → Usable one_message (receiving.meanwhile p t)
unfolding port_pop is_sendable ipc_port_is_created
receiving_keeps p t u =
    (u.0, record { head_inside = omega arith; count_fits = omega (arith, u.1.count_fits) })

full_sendable : is_sendable (some full_port) (some one_message) ≡ true
unfolding is_sendable ipc_port_is_created
full_sendable = refl

ipc_send_lem_example :
    ((full_port.count == port_capacity) ≡ false
      → (p : IpcPort) × (t : Scheduler) × (ipc_send receiving 4
            (some full_port)
            (some one_message)
            task_7
          ≡ some (ipc_ok, some p, t))
        × (messages p ≡ messages full_port ++ signed task_7 one_message ∷ []))
    × Sends receiving one_message full_port task_7
        (ipc_send receiving 3 (some full_port) (some one_message) task_7)
ipc_send_lem_example =
    ipc_send_lem receiving one_message receiving_keeps 3 full_port task_7
      (full_sendable, full_port-InBounds)
