-- ===== src/Startup/Shell.antt =====
-- `shell_task` of init/main.c: what is typed is echoed. A round takes at most one scancode, so that
-- interrupts of the keyboard come between any two; the loop of `keyboard_getchar` is part of it. It gives
-- no negative key, so that the branch for one is left out.
use novium_os.Prelude.{
  ℕ, refl, sym, subst, true, false, Bool, ◌==◌, if◌then◌else◌, Option, none, some, if_cases,
}
use novium_os.Keyboard.{Keyboard, keyboard_callback, keyboard_pop, decode}
use novium_os.Keyboard.Queue.{InBounds, Popped, keyboard_callback_lem, keyboard_pop_lem}
use novium_os.Console.{Console, console_putchar, console_prompt}
use novium_os.Console.Screen.{IsValid, Safe, Safe-trans}
use novium_os.Console.Cursor.{console_putchar-Safe, console_prompt-Safe}

pub record Shell : Type 0 where
  pub keyboard : Keyboard
  pub console : Console

-- The echo of a key.
unfoldable pub echo : ℕ → Console → Console
unfolding console_putchar console_prompt
echo key s =
    let written = console_putchar key (record s { console_line_echo = true }) in
    let done = record written { console_line_echo = false } in
    if key == 0x0A then console_prompt done else done

-- A round: a scancode is taken off the ring, if one waits, and the key that it stands for is echoed.
unfoldable pub shell_round : Shell → Shell
unfolding keyboard_pop decode echo
shell_round s =
    let (popped, k) = keyboard_pop s.keyboard in
    elim popped as (λ _. Shell) [
      | none ↦ record s { keyboard = k }
      | some sc ↦
          let (key, shift) = decode k.shift_held sc in
          let left = record s { keyboard = record k { shift_held = shift } } in
          elim key as (λ _. Shell) [
            | none ↦ left
            | some c ↦ record left { console = echo c s.console }
          ]
    ]

-- What the shell and the keyboard's interrupt can make of a state, in any order.
pub data Runs (s : Shell) : Shell → Type 0 where
  started : Runs s s
  interrupted :
      (t : Shell) (sc : ℕ)
      → Runs s t
      → Runs s (record t { keyboard = keyboard_callback sc t.keyboard })
  looped : (t : Shell) → Runs s t → Runs s (shell_round t)

-- Sound, with nothing behind the page changed since `s`.
pub record SafeShell (s t : Shell) : Type 0 where
  pub keyboard : InBounds t.keyboard
  pub console : Safe s.console t.console

echo-Safe : (key : ℕ) (s : Console) → IsValid s → Safe s (echo key s)
unfolding echo
echo-Safe key s v =
    let on = record s { console_line_echo = true } in
    let w : IsValid on = record {
      inside = v.inside;
      behind_prompt = v.behind_prompt;
      shown = v.shown;
    } in
    let r : Safe on (console_putchar key on) = console_putchar-Safe key on w in
    let done = record (console_putchar key on) { console_line_echo = false } in
    let a : Safe s done =
      (record { inside = r.0.inside; behind_prompt = r.0.behind_prompt; shown = r.0.shown }, r.1) in
    if_cases (Safe s) (key == 0x0A) (console_prompt done) done
      (λ line. Safe-trans s done (console_prompt done) a (console_prompt-Safe done a.0))
      (λ within. a)

decoded-SafeShell :
    (s t : Shell) (k : Keyboard) (r : Option ℕ × Bool)
    → InBounds k
    → SafeShell s t
    → SafeShell s (elim r.0 as (λ _. Shell) [
      | none ↦ record t { keyboard = record k { shift_held = r.1 } }
      | some c ↦ record t { keyboard = record k { shift_held = r.1 }; console = echo c t.console }
    ])
decoded-SafeShell s t k (none, shift) v h = record {
  keyboard = record { head_inside = v.head_inside; tail_inside = v.tail_inside };
  console = h.console;
}
decoded-SafeShell s t k (some c, shift) v h = record {
  keyboard = record { head_inside = v.head_inside; tail_inside = v.tail_inside };
  console =
      Safe-trans s.console t.console (echo c t.console) h.console
        (echo-Safe c t.console h.console.0);
}

Popped-SafeShell :
    (s t : Shell) (r : Option ℕ × Keyboard)
    → SafeShell s t
    → Popped t.keyboard r
    → SafeShell s (elim r.0 as (λ _. Shell) [
      | none ↦ record t { keyboard = r.1 }
      | some sc ↦ elim (decode r.1.shift_held sc).0 as (λ _. Shell) [
        | none ↦ record t { keyboard = record (r.1) { shift_held = (decode r.1.shift_held sc).1 } }
        | some c ↦ record t {
          keyboard = record (r.1) { shift_held = (decode r.1.shift_held sc).1 };
          console = echo c t.console;
        }
      ]
    ])
Popped-SafeShell s t (none, k) h p = record {
  keyboard = subst InBounds (sym p.1) h.keyboard;
  console = h.console;
}
Popped-SafeShell s t (some sc, k) h p = decoded-SafeShell s t k (decode k.shift_held sc) p.2 h

shell_round-SafeShell : (s t : Shell) → SafeShell s t → SafeShell s (shell_round t)
unfolding shell_round
shell_round-SafeShell s t h =
    Popped-SafeShell s t (keyboard_pop t.keyboard) h (keyboard_pop_lem t.keyboard h.keyboard)

-- In every state that the shell and the interrupts of the keyboard reach, in any order, from one
-- whose indices are in bounds and whose console is valid, the indices are in bounds, the cursor is
-- on the page, not before the prompt, and where the hardware shows it, and nothing behind the page
-- of text has changed.
pub Runs-SafeShell :
    (s t : Shell) → InBounds s.keyboard → IsValid s.console → Runs s t → SafeShell s t
Runs-SafeShell s t v w started = record { keyboard = v; console = (w, λ i h. refl) }
Runs-SafeShell s t v w (interrupted t' sc r) =
    let h = Runs-SafeShell s t' v w r in
    record { keyboard = (keyboard_callback_lem sc t'.keyboard h.keyboard).1; console = h.console }
Runs-SafeShell s t v w (looped t' r) = shell_round-SafeShell s t' (Runs-SafeShell s t' v w r)
