-- ===== src/Ipc/Fifo.antt =====
-- A message port against the list of its messages.
use novium_os.Prelude.{
  ℕ, zero, suc, ◌+◌, ◌-◌, ◌%◌, ◌^◌, ◌≤◌, ◌<◌, ◌≡◌, refl, sym, ap, ◌∙◌, subst, false, ◌==◌, List, [],
  ◌∷◌, ◌++◌, arith, length, update,
}
use novium_os.Ipc.Message.{IpcMessage, IpcPort, port_capacity, port_push, port_pop}

-- The messages of `n` slots from offset `k` on.
abbrev pub window : (ℕ → IpcMessage) → ℕ → ℕ → ℕ → List IpcMessage
window slots head k zero = []
window slots head k (suc n) = slots ((head + k) % port_capacity) ∷ window slots head (k + 1) n

-- The messages of a port, oldest first.
abbrev pub messages : IpcPort → List IpcMessage
messages port = window port.slots port.head 0 port.count

-- The ring's indices are within bounds.
pub record InBounds (port : IpcPort) : Type 0 where
  pub head_inside : port.head < port_capacity
  pub count_fits : port.count ≤ port_capacity

pub length-window : (slots : ℕ → IpcMessage) (head k n : ℕ) → length (window slots head k n) ≡ n
length-window slots head k zero = refl
length-window slots head k (suc n) = ground (arith, length-window slots head (k + 1) n)

window-update :
    (slots : ℕ → IpcMessage) (head k n tail : ℕ) (m : IpcMessage)
    → k + n < port_capacity
    → (head + (k + n)) % port_capacity ≡ tail
    → window (update slots tail m) head k (suc n) ≡ window slots head k n ++ m ∷ []
window-update slots head k zero tail m h e = ground arith
window-update slots head k (suc n) tail m h e =
    let apart : (tail == (head + k) % port_capacity) ≡ false = ground arith in
    rw apart (
      ap (λ (xs : List IpcMessage). slots ((head + k) % port_capacity) ∷ xs)
        (window-update slots head (k + 1) n tail m (omega arith)
          (ap (λ i. (head + i) % port_capacity) (omega arith) ∙ e)))

window_shift :
    (slots : ℕ → IpcMessage) (head k n : ℕ)
    → window slots head (k + 1) n ≡ window slots ((head + 1) % port_capacity) k n
window_shift slots head k zero = refl
window_shift slots head k (suc n) =
    let here : (head + (k + 1)) % port_capacity ≡ ((head + 1) % port_capacity + k) % port_capacity =
      omega arith in
    rw here (
      ap (λ (xs : List IpcMessage). slots (((head + 1) % port_capacity + k) % port_capacity) ∷ xs)
        (window_shift slots head (k + 1) n))

-- `PortPush` below the capacity appends the message with its sender to the messages.
pub messages-port_push :
    (self : ℕ) (message : IpcMessage) (port : IpcPort)
    → InBounds port
    → port.count < port_capacity
    → (messages (port_push self message port)
        ≡ messages port ++ record message { sender = self } ∷ [])
      × InBounds (port_push self message port)
unfolding port_push
messages-port_push self message port v room =
    let tail : (port.head + (0 + port.count)) % port_capacity
        ≡ (port.head + port.count) % 2 ^ 32 % port_capacity =
      omega (arith, v.head_inside) in
    let grown : (port.count + 1) % 2 ^ 32 ≡ suc port.count = omega arith in
    (
      subst
          (λ n.
            window
              (update port.slots ((port.head + port.count) % 2 ^ 32 % port_capacity)
                (record message { sender = self }))
              port.head 0 n
            ≡ messages port ++ record message { sender = self } ∷ [])
          (sym grown)
          (window-update port.slots port.head 0 port.count
            ((port.head + port.count) % 2 ^ 32 % port_capacity) (record message { sender = self })
            (omega arith) tail),
      record { head_inside = v.head_inside; count_fits = omega arith },
    )

pop_window :
    (slots : ℕ → IpcMessage) (head n : ℕ)
    → head < port_capacity
    → window slots head 0 (suc n)
      ≡ slots head ∷ window slots ((head + 1) % 2 ^ 32 % port_capacity) 0 n
pop_window slots head n h =
    let first : (head + 0) % port_capacity ≡ head = omega arith in
    let second : (head + 1) % 2 ^ 32 % port_capacity ≡ (head + 1) % port_capacity = omega arith in
    rw (first, second)
      (ap (λ (xs : List IpcMessage). slots head ∷ xs) (window_shift slots head 0 n))

-- `PortPop` of a port that holds messages takes off the oldest one.
pub messages-port_pop :
    (port : IpcPort)
    → InBounds port
    → 0 < port.count
    → (messages port ≡ (port_pop port).0 ∷ messages (port_pop port).1) × InBounds (port_pop port).1
unfolding port_pop
messages-port_pop port v some_queued =
    let whole : suc (port.count - 1) ≡ port.count = omega arith in
    (
      subst
          (λ n.
            window port.slots port.head 0 n
            ≡ port.slots port.head
              ∷ window port.slots ((port.head + 1) % 2 ^ 32 % port_capacity) 0 (port.count - 1))
          whole (pop_window port.slots port.head (port.count - 1) v.head_inside),
      record {
        head_inside = omega (arith, v.head_inside);
        count_fits = omega (arith, v.count_fits);
      },
    )
