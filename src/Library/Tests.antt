-- ===== src/Library/Tests.antt =====
-- The library functions at concrete inputs.
use novium_os.Prelude.{◌≡◌, refl, ◌==◌, if◌then◌else◌, some, [], ◌∷◌}
use novium_os.Library.{Memory, memmove, strlen, copy_down, strlen_from, strcmp, buf_digits}
use novium_os.Library.Copying.{copied, memmove_lem}

-- Byte `i` is `i`, but "ab" stands at 100 and "ac" at 200.
abbrev bytes : Memory
bytes i =
    if i == 100
    then 97
    else if i == 101
    then 98
    else if i == 102
    then 0
    else if i == 200
    then 97
    else if i == 201
    then 99
    else if i == 202
    then 0
    else i

-- The regions overlap, and the higher bytes are copied first.
moves_up : (memmove bytes 12 10 4 12 ≡ 10) × (memmove bytes 12 10 4 15 ≡ 13)
unfolding memmove copy_down
moves_up = (refl, refl)

counts_two : strlen 3 bytes 100 ≡ some 2
unfolding strlen strlen_from
counts_two = refl

digits_of_305 : buf_digits 32 305 10 ≡ 5 ∷ 0 ∷ 3 ∷ []
unfolding buf_digits
digits_of_305 = refl

memmove_lem_example : memmove bytes 12 10 4 15 ≡ copied bytes 12 10 4 15
memmove_lem_example = memmove_lem bytes 12 10 4 15

compares : strcmp 3 bytes 100 200 ≡ some (98, 99)
unfolding strcmp
compares = refl
