-- ===== src/Paging/Translation.antt =====
-- How the processor translates an address by the tables, and when the directory is in order.
use Prim.Native.Nat.{bit_or}
use novium_os.Prelude.{
  ℕ, ◌+◌, ◌-◌, ◌*◌, ◌/◌, ◌%◌, ◌^◌, ◌≤◌, ◌<◌, ◌≡◌, ◌∙◌, ap, ◌==◌, if◌then◌else◌, Option, none, some,
  arith, true,
}
use novium_os.Prelude.Bits.{bit_or-low}
use novium_os.Paging.{Paging, directory_entry, page_base}

-- The tables start on a page and end below 4 GiB.
pub record IsPlaced (tables_base : ℕ) : Type 0 where
  pub on_page : tables_base % 4096 ≡ 0
  pub below : tables_base + 1024 * 4096 ≤ 2 ^ 32

-- Every entry of the directory leads to its own table.
abbrev pub IsValid : ℕ → Paging → Type 0
IsValid tables_base s = (d : ℕ) → d < 1024 → s.page_directory d ≡ directory_entry tables_base d

-- The physical address under an entry of a table whose present bit is set.
abbrev pub entry_address : ℕ → ℕ → Option ℕ
entry_address entry address =
    if entry % 2 == 1 then some (entry / 4096 * 4096 + address % 4096) else none

-- The physical address of a virtual one: through the directory to a table and its entry.
abbrev pub translate : ℕ → Paging → ℕ → Option ℕ
translate tables_base s address =
    let entry = s.page_directory (address / 2 ^ 22) in
    let table = (entry / 4096 * 4096 - tables_base) / 4096 in
    if entry % 2 == 1
    then entry_address (s.page_tables table (address / 2 ^ 12 % 1024)) address
    else none

directory_entry_lem :
    (tables_base d : ℕ)
    → IsPlaced tables_base
    → d < 1024
    → directory_entry tables_base d ≡ tables_base + d * 4096 + 3
directory_entry_lem tables_base d p h =
    let base : page_base ((tables_base + d * 4096) % 2 ^ 32) ≡ (tables_base / 4096 + d) * 2 ^ 12 =
      omega (arith, p) in
    ap (λ n. bit_or n 3) base
    ∙ bit_or-low 12 (tables_base / 4096 + d) 3 (omega arith)
    ∙ omega (arith, p)

-- With the directory in order, an address comes to what its own entry says.
pub translate_lem :
    (tables_base : ℕ) (s : Paging) (address : ℕ)
    → IsPlaced tables_base
    → IsValid tables_base s
    → address < 2 ^ 32
    → translate tables_base s address
      ≡ entry_address (s.page_tables (address / 2 ^ 22) (address / 2 ^ 12 % 1024)) address
translate_lem tables_base s address p v h =
    let d = address / 2 ^ 22 in
    let entry : s.page_directory d ≡ tables_base + d * 4096 + 3 =
      v d (omega arith) ∙ directory_entry_lem tables_base d p (omega arith) in
    let present : ((tables_base + d * 4096 + 3) % 2 == 1) ≡ true = ground (arith, p) in
    let back : ((tables_base + d * 4096 + 3) / 4096 * 4096 - tables_base) / 4096 ≡ d =
      omega (arith, p) in
    rw (entry, present, back)
