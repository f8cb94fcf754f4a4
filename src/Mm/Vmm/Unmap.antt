-- ===== src/Mm/Vmm/Unmap.antt =====
-- `vmm_unmap_page` and `vmm_virt_to_phys`, at an address that has a page.
use miyabi.Base.{
  ℕ, ◌+◌, ◌%◌, bit_or, ◌<◌, ◌≡◌, ◌≢◌, refl, arith, false, Option, some, List, [], ◌∷◌, ◌==◌, length,
  sym, ap, ◌∙◌, inl, inr, Bool-cases, u64,
}
use miyabi.Base.Bits.{bit_or_page}
use miyabi.Mm.Vmm.{
  PageSource, Vmm, is_present, frame_of, cell, table_index, next_table, vmm_unmap_page,
  vmm_virt_to_phys, vmm_map_page,
}
use miyabi.Mm.Vmm.Walk.{
  absent, large, page, leaf, via, is_large, entry_of, walk, walk-Leads, indices, NotLarge, Leads,
}
use miyabi.Mm.Vmm.Tree.{Took-none, PageLaws, IsTable, IsMapped}
use miyabi.Mm.Vmm.Map.{
  path, IsIndices, written, written-Leads, written-IsMapped, written-leaf, written_walks,
}
use miyabi.Mm.Vmm.Map.Page.{Mapped, page_entry, vmm_map_page-Mapped}
use miyabi.Mm.Vmm.Ensure.Table.{Returns, Returns-map}

-- The first entry on the way to a page leads to a table.
page-Leads :
    (hhdm_offset : ℕ) (m : ℕ → ℕ) (t i j : ℕ) (is : List ℕ) (e : ℕ)
    → walk hhdm_offset m t (i ∷ j ∷ is) ≡ page e
    → Leads hhdm_offset m t i (frame_of (entry_of hhdm_offset m t i))
unfolding walk
page-Leads hhdm_offset m t i j is e q =
    elim (Bool-cases (is_present (entry_of hhdm_offset m t i))) [
      | inr no_entry ↦ absurd (not_absent (rw (via, no_entry) at q))
      | inl present ↦ elim (Bool-cases (is_large (entry_of hhdm_offset m t i))) [
        | inl big ↦ absurd (not_large (rw (via, present, big) at q))
        | inr small ↦ record { present = present; small = small; frame = refl }
      ]
    ]
  where
    not_absent : absent ≡ page e → ⊥
    not_absent h = cc

    not_large : {x : ℕ} → large x ≡ page e → ⊥
    not_large h = cc

leaf_page : (x e : ℕ) → leaf x ≡ page e → x ≡ e
leaf_page x e h = elim (Bool-cases (is_present x)) [
  | inr no_entry ↦ absurd (not_absent (rw (leaf, no_entry) at h))
  | inl present ↦ same (rw (leaf, present) at h)
]
  where
    not_absent : absent ≡ page e → ⊥
    not_absent q = cc

    same : page x ≡ page e → x ≡ e
    same q = cc

page_frame :
    (phys flags : ℕ) → phys % 4096 ≡ 0 → flags < 4096 → frame_of (page_entry phys flags) ≡ phys
page_frame phys flags aligned lt =
    let a = bit_or_page (frame_of phys) flags lt in
    let b = bit_or_page (bit_or (frame_of phys) flags) 1 (omega arith) in omega arith

module _ (f : PageSource) (hhdm_offset : ℕ) (laws : PageLaws f hhdm_offset) (root : ℕ)
    (place : ℕ → Option (List ℕ)) (v : Vmm f hhdm_offset)
    (m : IsMapped f hhdm_offset laws root place v) (virt e : ℕ)
    (q : walk hhdm_offset v.memory root (indices virt) ≡ page e) where
  abbrev i3 : ℕ
  i3 = table_index virt 39

  abbrev i2 : ℕ
  i2 = table_index virt 30

  abbrev i1 : ℕ
  i1 = table_index virt 21

  abbrev i0 : ℕ
  i0 = table_index virt 12

  -- The tables on the way.
  abbrev pdpt : ℕ
  pdpt = frame_of (entry_of hhdm_offset v.memory root i3)

  abbrev pd : ℕ
  pd = frame_of (entry_of hhdm_offset v.memory pdpt i2)

  abbrev pt : ℕ
  pt = frame_of (entry_of hhdm_offset v.memory pd i1)

  first : Leads hhdm_offset v.memory root i3 pdpt
  first = page-Leads hhdm_offset v.memory root i3 i2 (i1 ∷ i0 ∷ []) e q

  q_pdpt : walk hhdm_offset v.memory pdpt (i2 ∷ i1 ∷ i0 ∷ []) ≡ page e
  q_pdpt = sym (walk-Leads hhdm_offset v.memory root i3 pdpt i2 (i1 ∷ i0 ∷ []) first) ∙ q

  second : Leads hhdm_offset v.memory pdpt i2 pd
  second = page-Leads hhdm_offset v.memory pdpt i2 i1 (i0 ∷ []) e q_pdpt

  q_pd : walk hhdm_offset v.memory pd (i1 ∷ i0 ∷ []) ≡ page e
  q_pd = sym (walk-Leads hhdm_offset v.memory pdpt i2 pd i1 (i0 ∷ []) second) ∙ q_pdpt

  third : Leads hhdm_offset v.memory pd i1 pt
  third = page-Leads hhdm_offset v.memory pd i1 i0 [] e q_pd

  q_pt : walk hhdm_offset v.memory pt (i0 ∷ []) ≡ page e
  q_pt = sym (walk-Leads hhdm_offset v.memory pd i1 pt i0 [] third) ∙ q_pd

  at_pdpt : place pdpt ≡ some (i3 ∷ [])
  at_pdpt =
      m.tree.child root [] i3 m.tree.at_root (omega arith) (omega arith) first.present first.small

  at_pd : place pd ≡ some (i2 ∷ i3 ∷ [])
  at_pd =
      m.tree.child pdpt (i3 ∷ []) i2 at_pdpt (omega arith) (omega arith) second.present second.small

  at_pt : place pt ≡ some (i1 ∷ i2 ∷ i3 ∷ [])
  at_pt =
      m.tree.child pd (i2 ∷ i3 ∷ []) i1 at_pd (omega arith) (omega arith) third.present third.small

  not_null : (t : ℕ) → IsTable hhdm_offset t → (u64 (t + hhdm_offset) == 0) ≡ false
  not_null t is = let a = is.reached in let b = is.some_address in ground arith

  -- The entry of the page is the one that the code reads.
  last_entry : entry_of hhdm_offset v.memory pt i0 ≡ e
  unfolding walk
  last_entry = leaf_page (entry_of hhdm_offset v.memory pt i0) e q_pt

  -- The tables that the code goes through are those on the way.
  next_pdpt : next_table f hhdm_offset v.pml4 i3 v ≡ u64 (pdpt + hhdm_offset)
  unfolding next_table
  next_pdpt = ap (λ x. u64 (frame_of (v.memory (cell x i3)) + hhdm_offset)) m.pml4

  next_pd : next_table f hhdm_offset (u64 (pdpt + hhdm_offset)) i2 v ≡ u64 (pd + hhdm_offset)
  unfolding next_table
  next_pd = refl

  next_pt : next_table f hhdm_offset (u64 (pd + hhdm_offset)) i1 v ≡ u64 (pt + hhdm_offset)
  unfolding next_table
  next_pt = refl

  some_pdpt : (u64 (pdpt + hhdm_offset) == 0) ≡ false
  some_pdpt = not_null pdpt (m.tree.table pdpt (i3 ∷ []) at_pdpt)

  some_pd : (u64 (pd + hhdm_offset) == 0) ≡ false
  some_pd = not_null pd (m.tree.table pd (i2 ∷ i3 ∷ []) at_pd)

  some_pt : (u64 (pt + hhdm_offset) == 0) ≡ false
  some_pt = not_null pt (m.tree.table pt (i1 ∷ i2 ∷ i3 ∷ []) at_pt)

  pub vmm_virt_to_phys-page : vmm_virt_to_phys f hhdm_offset virt v ≡ frame_of e
  unfolding vmm_virt_to_phys
  vmm_virt_to_phys-page =
      rw (next_pdpt, next_pd, next_pt, some_pdpt, some_pd, some_pt)
        (ap (λ x. frame_of x) last_entry)

  abbrev unmapped : ℕ → ℕ
  unmapped =
      written f hhdm_offset laws root place v m pt (i1 ∷ i2 ∷ i3 ∷ []) i0 at_pt refl (omega arith) 0

  stays :
      (u : ℕ) (r : List ℕ) (j w : ℕ)
      → place u ≡ some r
      → length r < 3
      → j < 512
      → Leads hhdm_offset v.memory u j w
      → Leads hhdm_offset unmapped u j w
  stays =
      written-Leads f hhdm_offset laws root place v m pt (i1 ∷ i2 ∷ i3 ∷ []) i0 at_pt refl
        (omega arith) 0

  now_absent : walk hhdm_offset unmapped root (indices virt) ≡ absent
  now_absent =
      walk-Leads hhdm_offset unmapped root i3 pdpt i2 (i1 ∷ i0 ∷ [])
        (stays root [] i3 pdpt m.tree.at_root (omega arith) (omega arith) first)
      ∙ walk-Leads hhdm_offset unmapped pdpt i2 pd i1 (i0 ∷ [])
          (stays pdpt (i3 ∷ []) i2 pd at_pdpt (omega arith) (omega arith) second)
      ∙ walk-Leads hhdm_offset unmapped pd i1 pt i0 []
          (stays pd (i2 ∷ i3 ∷ []) i1 pt at_pd (omega arith) (omega arith) third)
      ∙ written-leaf f hhdm_offset laws root place v m pt (i1 ∷ i2 ∷ i3 ∷ []) i0 at_pt refl
          (omega arith) 0

  other_pages :
      (js : List ℕ)
      → IsIndices js
      → js ≢ indices virt
      → walk hhdm_offset unmapped root js ≡ walk hhdm_offset v.memory root js
  unfolding path
  other_pages js four ne =
      written_walks f hhdm_offset laws root place v m pt (i1 ∷ i2 ∷ i3 ∷ []) i0 at_pt refl
        (omega arith) 0 root [] js m.tree.at_root (omega (arith, four.four)) four.small ne

  -- Where the page tables are a tree and the address has a page, `vmm_unmap_page` leaves a tree in
  -- which the address has no page, and every other address is translated as before.
  pub vmm_unmap_page-Mapped :
      Mapped f hhdm_offset laws root v (indices virt) absent (vmm_unmap_page f hhdm_offset virt v)
  unfolding vmm_unmap_page
  vmm_unmap_page-Mapped =
      rw (next_pdpt, next_pd, next_pt, some_pdpt, some_pd, some_pt)
        (record {
          place' = place;
          mapped =
              written-IsMapped f hhdm_offset laws root place v m pt (i1 ∷ i2 ∷ i3 ∷ []) i0 at_pt
                refl (omega arith) 0;
          turns = record { turned = now_absent; others = other_pages };
          took = Took-none f v.frames 3;
        })

-- Where the page tables are a tree, an address that is in no large page and is mapped by
-- `vmm_map_page`, with flags below the page number, to a page-aligned address `phys` is given back as
-- `phys` by `vmm_virt_to_phys`, unless `vmm_map_page` halts since one of the next three calls of the
-- page allocator finds no page.
pub vmm_virt_to_phys-vmm_map_page :
    (f : PageSource) (hhdm_offset : ℕ) (laws : PageLaws f hhdm_offset) (root : ℕ)
    (place : ℕ → Option (List ℕ)) (v : Vmm f hhdm_offset)
    → IsMapped f hhdm_offset laws root place v
    → (virt phys flags : ℕ) → NotLarge (walk hhdm_offset v.memory root (indices virt))
    → phys % 4096 ≡ 0
    → flags < 4096
    → Returns f v.frames 3
        (λ v'. vmm_virt_to_phys f hhdm_offset virt v' ≡ phys)
        (vmm_map_page f hhdm_offset virt phys flags v)
vmm_virt_to_phys-vmm_map_page f hhdm_offset laws root place v m virt phys flags n aligned lt =
    Returns-map f v.frames 3 (vmm_map_page f hhdm_offset virt phys flags v)
      (λ v' s.
        vmm_virt_to_phys-page f hhdm_offset laws root s.place' v' s.mapped virt
          (page_entry phys flags) s.turns.turned
        ∙ page_frame phys flags aligned lt)
      (vmm_map_page-Mapped f hhdm_offset laws root place v m virt phys flags n)
