-- ===== src/Library.antt =====
-- The library functions of lib/string.c on a memory of bytes, and the number printing of lib/stdio.c.
-- Regions do not reach past the last address, so sums of pointers are written without a wrap.
pub mod Copying
pub mod Strings
pub mod Numbers
pub mod Tests
use novium_os.Prelude.{
  ℕ, zero, suc, ◌+◌, ◌-◌, ◌/◌, ◌%◌, Bool, not, ◌&&◌, ltb, ◌==◌, if◌then◌else◌, Option, none, some,
  List, [], ◌∷◌, get_or, update,
}

abbrev pub Memory : Type 0
Memory = ℕ → ℕ

-- The loop of `memset`, with `len` bytes left.
unfoldable pub memset : Memory → ℕ → ℕ → ℕ → Memory
memset m s c zero = m
memset m s c (suc len) = memset (update m s (c % 256)) (s + 1) c len

-- The loop that copies upwards: of `memcpy`, and of `memmove` to a lower address.
unfoldable pub copy_up : Memory → ℕ → ℕ → ℕ → Memory
copy_up m d s zero = m
copy_up m d s (suc len) = copy_up (update m d (m s)) (d + 1) (s + 1) len

-- The loop of `memmove` that copies downwards from the end.
unfoldable pub copy_down : Memory → ℕ → ℕ → ℕ → Memory
copy_down m d s zero = m
copy_down m d s (suc len) = copy_down (update m (d + len) (m (s + len))) d s len

unfoldable pub memmove : Memory → ℕ → ℕ → ℕ → Memory
unfolding copy_up copy_down
memmove m dest src len =
    if ltb dest src
    then copy_up m dest src len
    else if ltb src dest
    then copy_down m dest src len
    else m

unfoldable pub memcpy : Memory → ℕ → ℕ → ℕ → Memory
unfolding copy_up
memcpy m dest src len = copy_up m dest src len

-- The loop of `strlen` from `len`, with fuel for its rounds.
unfoldable pub strlen_from : ℕ → Memory → ℕ → ℕ → Option ℕ
strlen_from zero m str len = none
strlen_from (suc fuel) m str len =
    let rest = strlen_from fuel m str (len + 1) in if m (str + len) == 0 then some len else rest

unfoldable pub strlen : ℕ → Memory → ℕ → Option ℕ
unfolding strlen_from
strlen fuel m str = strlen_from fuel m str 0

-- The two bytes whose difference `strcmp` returns, with fuel for the rounds of its loop.
unfoldable pub strcmp : ℕ → Memory → ℕ → ℕ → Option (ℕ × ℕ)
strcmp zero m s1 s2 = none
strcmp (suc fuel) m s1 s2 =
    let rest = strcmp fuel m (s1 + 1) (s2 + 1) in
    if not (m s1 == 0) && (m s1 == m s2) then rest else some (m s1, m s2)

-- `buf` of `print_u32` when its first loop is done, the last digit first, with fuel for the rounds.
unfoldable pub buf_digits : ℕ → ℕ → ℕ → List ℕ
buf_digits zero value base = []
buf_digits (suc fuel) value base =
    let rest = buf_digits fuel (value / base) base in
    value % base ∷ (if value / base == 0 then [] else rest)
