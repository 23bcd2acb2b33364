-- ===== src/Paging.antt =====
-- The page tables of mm/paging.c. `PageTables` stands at the address `tables_base`, which the linker
-- chooses; `invlpg`, CR3 and CR0 are the processor's.
pub mod Translation
pub mod Mapping
pub mod Identity
pub mod Tests
use novium_os.Prelude.{ℕ, zero, suc, ◌+◌, ◌*◌, ◌/◌, ◌%◌, ◌^◌, Bool, true, false, update}
use Prim.Native.Nat.{bit_or}

abbrev pub page_table_entries : ℕ
page_table_entries = 1024

-- `PAGING_PRESENT | PAGING_WRITABLE`
abbrev pub page_directory_flags : ℕ
page_directory_flags = 3

pub record Paging : Type 0 where
  pub page_directory : ℕ → ℕ
  pub page_tables : ℕ → ℕ → ℕ
  pub paging_enabled : Bool

unfoldable pub page_directory_index : ℕ → ℕ
page_directory_index address = address / 2 ^ 22

unfoldable pub page_table_index : ℕ → ℕ
page_table_index address = address / 2 ^ 12 % 1024

-- `address & ~(PAGING_PAGE_SIZE - 1u)`
abbrev pub page_base : ℕ → ℕ
page_base address = address / 4096 * 4096

-- The inner loop of `PagingInit`, from entry `t` on, with `n` entries left.
unfoldable pub fill_table : ℕ → ℕ → ℕ → (ℕ → ℕ) → ℕ → ℕ
fill_table zero d t table = table
fill_table (suc n) d t table =
    let address = bit_or (d * 2 ^ 22) (t * 2 ^ 12) in
    fill_table n d (t + 1) (update table t (bit_or address page_directory_flags))

module _ (tables_base : ℕ) where
  -- The entry of the directory for a table.
  abbrev pub directory_entry : ℕ → ℕ
  directory_entry index =
      bit_or (page_base ((tables_base + index * 4096) % 2 ^ 32)) page_directory_flags

  unfoldable pub paging_map : ℕ → ℕ → ℕ → Paging → Paging
  unfolding page_directory_index page_table_index
  paging_map virtual_address physical_address flags s =
      let page = page_base virtual_address in
      let frame = page_base physical_address in
      let d = page_directory_index page in
      let t = page_table_index page in
      record s {
        page_directory = update s.page_directory d (directory_entry d);
        page_tables = update s.page_tables d (update (s.page_tables d) t (bit_or frame flags));
      }

  -- The outer loop, from table `d` on, with `n` tables left.
  unfoldable pub fill_tables : ℕ → ℕ → Paging → Paging
  unfolding fill_table
  fill_tables zero d s = s
  fill_tables (suc n) d s = fill_tables n (d + 1) (record s {
    page_directory = update s.page_directory d (directory_entry d);
    page_tables = update s.page_tables d (fill_table page_table_entries d 0 (s.page_tables d));
  })

  unfoldable pub paging_init : Paging → Paging
  unfolding fill_tables
  paging_init s = record (fill_tables page_table_entries 0 s) { paging_enabled = true }

unfoldable pub paging_unmap : ℕ → Paging → Paging
unfolding page_directory_index page_table_index
paging_unmap virtual_address s =
    let page = page_base virtual_address in
    let d = page_directory_index page in
    let t = page_table_index page in
    record s { page_tables = update s.page_tables d (update (s.page_tables d) t 0) }

unfoldable pub paging_is_enabled : Paging → Bool
paging_is_enabled s = s.paging_enabled
