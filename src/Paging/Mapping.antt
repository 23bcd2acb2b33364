-- ===== src/Paging/Mapping.antt =====
-- `PagingMap` and `PagingUnmap` against the translation.
use Prim.Native.Nat.{bit_or}
use novium_os.Prelude.{
  ℕ, ◌+◌, ◌*◌, ◌/◌, ◌%◌, ◌^◌, ◌<◌, ◌≡◌, sym, ◌∙◌, ap, inl, inr, true, ◌==◌, ◌&&◌, if◌then◌else◌,
  none, some, arith, Bool-cases, update,
}
use novium_os.Prelude.Bits.{bit_or-low}
use novium_os.Paging.{
  Paging, directory_entry, page_base, page_directory_index, page_table_index, paging_map,
  paging_unmap,
}
use novium_os.Paging.Translation.{IsPlaced, IsValid, translate, translate_lem, entry_address}

-- A write to the entry of `v` is seen at the entries of its page alone.
entry_written :
    (m : ℕ → ℕ → ℕ) (d t e d' t' : ℕ)
    → update m d (update (m d) t e) d' t' ≡ (if d == d' && (t == t') then e else m d' t')
entry_written m d t e d' t' = elim (Bool-cases (d == d')) [
  | inl here ↦
      let same : d ≡ d' = ground arith in
      let row : m d t' ≡ m d' t' = ap (λ k. m k t') same in ground (arith, row)
  | inr off ↦ rw off
]

same_page :
    (v a : ℕ)
    → (page_directory_index (page_base v) == a / 2 ^ 22
        && (page_table_index (page_base v) == a / 2 ^ 12 % 1024))
      ≡ (v / 4096 == a / 4096)
unfolding page_directory_index page_table_index
same_page v a = ground arith

module _ (base : ℕ) (p : IsPlaced base) (s : Paging) (w : IsValid base s) where
  paging_map-IsValid : (v q flags : ℕ) → IsValid base (paging_map base v q flags s)
  unfolding paging_map
  paging_map-IsValid v q flags d h = elim (Bool-cases (page_directory_index (page_base v) == d)) [
    | inl e ↦ rw e (ap (λ k. directory_entry base k) (ground arith))
    | inr e ↦ rw e (w d h)
  ]

  paging_unmap-IsValid : (v : ℕ) → IsValid base (paging_unmap v s)
  unfolding paging_unmap
  paging_unmap-IsValid v d h = w d h

  mapped_entry :
      (v q flags a : ℕ)
      → (paging_map base v q flags s).page_tables (a / 2 ^ 22) (a / 2 ^ 12 % 1024) ≡ (
          if v / 4096 == a / 4096
          then bit_or (page_base q) flags
          else s.page_tables (a / 2 ^ 22) (a / 2 ^ 12 % 1024))
  unfolding paging_map
  mapped_entry v q flags a =
      entry_written s.page_tables (page_directory_index (page_base v))
        (page_table_index (page_base v)) (bit_or (page_base q) flags) (a / 2 ^ 22)
        (a / 2 ^ 12 % 1024)
      ∙ ap
          (λ b.
            if b
            then bit_or (page_base q) flags
            else s.page_tables (a / 2 ^ 22) (a / 2 ^ 12 % 1024))
          (same_page v a)

  unmapped_entry :
      (v a : ℕ)
      → (paging_unmap v s).page_tables (a / 2 ^ 22) (a / 2 ^ 12 % 1024)
        ≡ (if v / 4096 == a / 4096 then 0 else s.page_tables (a / 2 ^ 22) (a / 2 ^ 12 % 1024))
  unfolding paging_unmap
  unmapped_entry v a =
      entry_written s.page_tables (page_directory_index (page_base v))
        (page_table_index (page_base v)) 0 (a / 2 ^ 22) (a / 2 ^ 12 % 1024)
      ∙ ap (λ b. if b then 0 else s.page_tables (a / 2 ^ 22) (a / 2 ^ 12 % 1024)) (same_page v a)

  -- With the tables where they may stand and the directory in order, `PagingMap` with flags below
  -- 4096 that hold the present bit translates the page of `v` to the page of `q` and leaves every
  -- other page of 32-bit addresses as it was; the directory stays in order.
  pub paging_map_lem :
      (v q flags a : ℕ)
      → a < 2 ^ 32
      → flags < 4096
      → flags % 2 ≡ 1
      → (translate base (paging_map base v q flags s) a ≡ (
          if v / 4096 == a / 4096 then some (q / 4096 * 4096 + a % 4096) else translate base s a))
        × IsValid base (paging_map base v q flags s)
  paging_map_lem v q flags a small low present =
      let s' = paging_map base v q flags s in
      let now = translate_lem base s' a p (paging_map-IsValid v q flags) small in
      let was = translate_lem base s a p w small in
      let entry : bit_or (page_base q) flags ≡ q / 4096 * 4096 + flags =
        bit_or-low 12 (q / 4096) flags low in
      (
        now
            ∙ ap (λ e. entry_address e a) (mapped_entry v q flags a)
            ∙ (elim (Bool-cases (v / 4096 == a / 4096)) [
              | inl here ↦
                  let on : ((q / 4096 * 4096 + flags) % 2 == 1) ≡ true = ground (arith, present) in
                  let frame : (q / 4096 * 4096 + flags) / 4096 * 4096 ≡ q / 4096 * 4096 =
                    omega (arith, low) in
                  rw (here, entry, on, frame)
              | inr off ↦ rw off (sym was)
            ]),
        paging_map-IsValid v q flags,
      )

  -- `PagingUnmap` takes the translation of the page of `v` away and leaves every other page as it was.
  paging_unmap_lem :
      (v a : ℕ)
      → a < 2 ^ 32
      → (translate base (paging_unmap v s) a
          ≡ (if v / 4096 == a / 4096 then none else translate base s a))
        × IsValid base (paging_unmap v s)
  paging_unmap_lem v a small =
      let now = translate_lem base (paging_unmap v s) a p (paging_unmap-IsValid v) small in
      let was = translate_lem base s a p w small in
      (
        now
            ∙ ap (λ e. entry_address e a) (unmapped_entry v a)
            ∙ (elim (Bool-cases (v / 4096 == a / 4096)) [
              | inl here ↦ rw here
              | inr off ↦ rw off (sym was)
            ]),
        paging_unmap-IsValid v,
      )
