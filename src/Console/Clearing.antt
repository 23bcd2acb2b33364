-- ===== src/Console/Clearing.antt =====
-- `console_clear`, from any state of the console.
use novium_os.Prelude.{
  ℕ, zero, suc, ◌+◌, ◌*◌, ◌%◌, ◌≡◌, refl, ltb, leb, ◌==◌, ◌&&◌, if◌then◌else◌, arith, update,
}
use novium_os.Library.{Memory, memset}
use novium_os.Library.Copying.{memset_lem}
use novium_os.Console.{
  Console, console_attribute, console_set_cursor, update_hardware_cursor, set_attributes,
  console_clear,
}
use novium_os.Console.Screen.{IsValid}

set_attributes_lem :
    (n i : ℕ) (m : Memory) (j : ℕ)
    → set_attributes n i m j
      ≡ (if leb (i * 2) j && ltb j ((i + n) * 2) && (j % 2 == 1) then console_attribute else m j)
unfolding set_attributes
set_attributes_lem zero i m j = ground arith
set_attributes_lem (suc n) i m j =
    ground (arith, set_attributes_lem n (i + 1) (update m (i * 2 + 1) console_attribute) j)

blank_page :
    (m : Memory) (j : ℕ)
    → set_attributes 2000 0 (memset m 0 0x20 4000) j
      ≡ (if ltb j 4000 then (if j % 2 == 0 then 0x20 else console_attribute) else m j)
blank_page m j =
    ground (arith, set_attributes_lem 2000 0 (memset m 0 0x20 4000) j, memset_lem m 0 0x20 4000 j)

-- `console_clear` makes any console valid: every cell of the page is a blank in light grey on black, no
-- byte behind the page changes, and the cursor and the prompt are at its start.
console_clear_lem :
    (s : Console)
    → ((j : ℕ)
        → (console_clear s).video_memory j ≡ (
            if ltb j 4000
            then (if j % 2 == 0 then 0x20 else console_attribute)
            else s.video_memory j))
      × ((console_clear s).cursor ≡ 0)
      × ((console_clear s).user_cmdline_start ≡ 0)
      × IsValid (console_clear s)
unfolding console_clear console_set_cursor update_hardware_cursor
console_clear_lem s = (
  blank_page s.video_memory,
  refl,
  refl,
  record { inside = omega arith; behind_prompt = omega arith; shown = refl },
)
