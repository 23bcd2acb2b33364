-- ===== src/Paging/Tests.antt =====
-- The page tables at concrete inputs.
use novium_os.Prelude.{false, ℕ, ◌+◌, ◌≡◌, refl, true, some, arith}
use novium_os.Paging.{Paging, paging_map, paging_init, paging_is_enabled}
use novium_os.Paging.Translation.{IsPlaced, IsValid, translate}
use novium_os.Paging.Mapping.{paging_map_lem}
use novium_os.Paging.Identity.{paging_init_lem}

abbrev tables_base : ℕ
tables_base = 0x200000

placed : IsPlaced tables_base
placed = record { on_page = refl; below = omega arith }

abbrev raw : Paging
raw = record { page_directory = λ _. 0; page_tables = λ d t. d + t; paging_enabled = false }

paging_init_lem_example :
    (translate tables_base (paging_init tables_base raw) 0xB8123 ≡ some 0xB8123)
    × IsValid tables_base (paging_init tables_base raw)
    × (paging_is_enabled (paging_init tables_base raw) ≡ true)
paging_init_lem_example = paging_init_lem tables_base raw 0xB8123 placed (omega arith)

-- Video memory at 3 GiB.
paging_map_lem_example :
    (translate tables_base
        (paging_map tables_base 0xC0000010 0xB8000 3 (paging_init tables_base raw))
        0xC0000ABC
      ≡ some 0xB8ABC)
    × IsValid tables_base
        (paging_map tables_base 0xC0000010 0xB8000 3 (paging_init tables_base raw))
paging_map_lem_example =
    paging_map_lem tables_base placed (paging_init tables_base raw) paging_init_lem_example.1
      0xC0000010 0xB8000 3 0xC0000ABC (omega arith) (omega arith) refl
