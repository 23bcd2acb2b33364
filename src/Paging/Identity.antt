-- ===== src/Paging/Identity.antt =====
-- `PagingInit` maps every address to itself.
use Prim.Native.Nat.{bit_or}
use novium_os.Prelude.{
  ℕ, zero, suc, ◌+◌, ◌*◌, ◌/◌, ◌%◌, ◌^◌, ◌<◌, ◌≡◌, refl, Bool, ◌∙◌, ap, inl, inr, true, false, ◌==◌,
  ltb, leb, ◌&&◌, if◌then◌else◌, some, arith, Bool-cases, update, if_true,
}
use novium_os.Prelude.Bits.{bit_or-low}
use novium_os.Paging.{
  Paging, directory_entry, page_table_entries, fill_table, fill_tables, paging_init,
  paging_is_enabled,
}
use novium_os.Paging.Translation.{IsPlaced, IsValid, translate, translate_lem, entry_address}

-- The entry that the loops write for a page.
abbrev identity_entry : ℕ → ℕ → ℕ
identity_entry d t = bit_or (bit_or (d * 2 ^ 22) (t * 2 ^ 12)) 3

identity_entry_lem : (d t : ℕ) → t < 1024 → identity_entry d t ≡ (d * 1024 + t) * 4096 + 3
identity_entry_lem d t h =
    let page : bit_or (d * 2 ^ 22) (t * 2 ^ 12) ≡ (d * 1024 + t) * 2 ^ 12 =
      bit_or-low 22 d (t * 2 ^ 12) (omega arith) ∙ omega arith in
    ap (λ n. bit_or n 3) page ∙ bit_or-low 12 (d * 1024 + t) 3 (omega arith)

fill_table_lem :
    (n d t : ℕ) (table : ℕ → ℕ) (j : ℕ)
    → fill_table n d t table j ≡ (if leb t j && ltb j (t + n) then identity_entry d j else table j)
unfolding fill_table
fill_table_lem zero d t table j =
    let off : (leb t j && ltb j (t + 0)) ≡ false = ground arith in rw off
fill_table_lem (suc n) d t table j =
    fill_table_lem n d (t + 1) (update table t (identity_entry d t)) j
    ∙ elim (Bool-cases (t == j)) [
      | inl here ↦
          let later : (leb (t + 1) j && ltb j (t + 1 + n)) ≡ false = ground arith in
          let now : (leb t j && ltb j (t + suc n)) ≡ true = ground arith in
          rw (later, now, here) (ap (λ k. identity_entry d k) (ground arith))
      | inr off ↦
          let same : (leb (t + 1) j && ltb j (t + 1 + n)) ≡ (leb t j && ltb j (t + suc n)) =
            ground arith in
          rw (same, off)
    ]

abbrev within : ℕ → ℕ → ℕ → Bool
within d n i = leb d i && ltb i (d + n)

module _ (base : ℕ) where
  -- One round of the outer loop.
  abbrev filled : ℕ → Paging → Paging
  filled d s = record s {
    page_directory = update s.page_directory d (directory_entry base d);
    page_tables = update s.page_tables d (fill_table page_table_entries d 0 (s.page_tables d));
  }

  filled_directory :
      (n d : ℕ) (s : Paging) (i : ℕ)
      → (fill_tables base n d s).page_directory i
        ≡ (if within d n i then directory_entry base i else s.page_directory i)
  unfolding fill_tables
  filled_directory zero d s i = let off : within d 0 i ≡ false = ground arith in rw off
  filled_directory (suc n) d s i =
      filled_directory n (d + 1) (filled d s) i ∙ elim (Bool-cases (d == i)) [
        | inl here ↦
            let later : within (d + 1) n i ≡ false = ground arith in
            let now : within d (suc n) i ≡ true = ground arith in
            rw (later, now, here) (ap (λ k. directory_entry base k) (ground arith))
        | inr off ↦
            let same : within (d + 1) n i ≡ within d (suc n) i = ground arith in rw (same, off)
      ]

  filled_row :
      (d : ℕ) (s : Paging) (i j : ℕ)
      → j < 1024
      → (filled d s).page_tables i j ≡ (if d == i then identity_entry i j else s.page_tables i j)
  filled_row d s i j h = elim (Bool-cases (d == i)) [
    | inl here ↦
        let inside : (leb 0 j && ltb j (0 + 1024)) ≡ true = ground arith in
        let same : identity_entry d j ≡ identity_entry i j =
          ap (λ k. identity_entry k j) (ground arith) in
        rw here (
          fill_table_lem page_table_entries d 0 (s.page_tables d) j
          ∙ if_true (leb 0 j && ltb j (0 + 1024)) _ _ inside
          ∙ same)
    | inr off ↦ rw off
  ]

  filled_tables :
      (n d : ℕ) (s : Paging) (i j : ℕ)
      → j < 1024
      → (fill_tables base n d s).page_tables i j
        ≡ (if within d n i then identity_entry i j else s.page_tables i j)
  unfolding fill_tables
  filled_tables zero d s i j h = let off : within d 0 i ≡ false = ground arith in rw off
  filled_tables (suc n) d s i j h =
      filled_tables n (d + 1) (filled d s) i j h
      ∙ ap (λ k. if within (d + 1) n i then identity_entry i j else k) (filled_row d s i j h)
      ∙ elim (Bool-cases (d == i)) [
        | inl here ↦
            let now : within d (suc n) i ≡ true = ground arith in
            let later : within (d + 1) n i ≡ false = ground arith in rw (here, now, later)
        | inr off ↦
            let same : within (d + 1) n i ≡ within d (suc n) i = ground arith in rw (same, off)
      ]

  init-IsValid : (s : Paging) → IsValid base (paging_init base s)
  unfolding paging_init
  init-IsValid s d h =
      let on : within 0 1024 d ≡ true = ground arith in
      filled_directory 1024 0 s d ∙ if_true (within 0 1024 d) _ _ on

  init_entry :
      (s : Paging) (a : ℕ)
      → a < 2 ^ 32
      → (paging_init base s).page_tables (a / 2 ^ 22) (a / 2 ^ 12 % 1024) ≡ a / 4096 * 4096 + 3
  unfolding paging_init
  init_entry s a h =
      let on : within 0 1024 (a / 2 ^ 22) ≡ true = ground arith in
      filled_tables 1024 0 s (a / 2 ^ 22) (a / 2 ^ 12 % 1024) (omega arith)
      ∙ if_true (within 0 1024 (a / 2 ^ 22)) _ _ on
      ∙ identity_entry_lem (a / 2 ^ 22) (a / 2 ^ 12 % 1024) (omega arith)
      ∙ omega arith

  init_enabled : (s : Paging) → paging_is_enabled (paging_init base s) ≡ true
  unfolding paging_init paging_is_enabled
  init_enabled s = refl

  -- With the tables where they may stand, after `PagingInit` paging is on, the directory is in
  -- order, and every address of 32 bits translates to itself, whatever was in the tables.
  pub paging_init_lem :
      (s : Paging) (a : ℕ)
      → IsPlaced base
      → a < 2 ^ 32
      → (translate base (paging_init base s) a ≡ some a)
        × IsValid base (paging_init base s)
        × (paging_is_enabled (paging_init base s) ≡ true)
  paging_init_lem s a p h =
      let on : ((a / 4096 * 4096 + 3) % 2 == 1) ≡ true = ground arith in
      let same : (a / 4096 * 4096 + 3) / 4096 * 4096 + a % 4096 ≡ a = omega arith in
      (
        translate_lem base (paging_init base s) a p (init-IsValid s) h
            ∙ ap (λ e. entry_address e a) (init_entry s a h)
            ∙ if_true ((a / 4096 * 4096 + 3) % 2 == 1) _ _ on
            ∙ ap some same,
        init-IsValid s,
        init_enabled s,
      )
