-- ===== src/Mm/Vmm/Map/Page.antt =====
-- `vmm_map_page`: the tree of tables stays one, and the address is translated to the page.
use miyabi.Base.{
  ℕ, ◌+◌, bit_or, ◌<◌, ◌≡◌, ◌≢◌, refl, arith, true, false, Option, some, List, [], ◌∷◌, ◌==◌,
  length, All, sym, ap, ◌∙◌, inl, inr, Bool-cases, u64, low_bits,
}
use mathlib.Core.Path.{subst}
use miyabi.Base.Bits.{bit_or_one}
use miyabi.Mm.Vmm.{
  PageSource, Vmm, is_present, frame_of, table_index, ensure_table, write_entry, vmm_map_page,
}
use miyabi.Mm.Vmm.Walk.{
  Translation, page, leaf, via, is_large, entry_of, walk, walk-Leads, indices, NotLarge, Leads,
}
use miyabi.Mm.Vmm.Tree.{Took, Took-trans, PageLaws, IsMapped}
use miyabi.Mm.Vmm.Ensure.{Ensured}
use miyabi.Mm.Vmm.Ensure.Table.{Returns, Returns-bind, ensure_table-Ensured}
use miyabi.Mm.Vmm.Map.{
  path, IsIndices, Turns, indices-IsIndices, written, written-Leads, written-IsMapped, written-leaf,
  written_walks,
}

-- (phys & ~0xFFF) | flags | PTE_PRESENT
abbrev pub page_entry : ℕ → ℕ → ℕ
page_entry phys flags = bit_or (bit_or (frame_of phys) flags) 1

pub leaf_present : (phys flags : ℕ) → leaf (page_entry phys flags) ≡ page (page_entry phys flags)
leaf_present phys flags =
    let b = bit_or_one (bit_or (frame_of phys) flags) in
    let s : low_bits (page_entry phys flags) 1 ≡ 1 = omega arith in
    let h : is_present (page_entry phys flags) ≡ true = ap (λ x. x == 1) s in rw (leaf, h)

-- An address in no large page has no large entry on its way.
pub small_entry :
    (hhdm_offset : ℕ) (m : ℕ → ℕ) (t i j : ℕ) (is : List ℕ)
    → NotLarge (walk hhdm_offset m t (i ∷ j ∷ is))
    → is_present (entry_of hhdm_offset m t i) ≡ true
    → is_large (entry_of hhdm_offset m t i) ≡ false
unfolding walk
small_entry hhdm_offset m t i j is n h = elim (Bool-cases (is_large (entry_of hhdm_offset m t i))) [
  | inr small ↦ small
  | inl big ↦ absurd (rw (via, h, big) at n)
]

module _ (f : PageSource) (hhdm_offset : ℕ) where
  module _ (laws : PageLaws f hhdm_offset) (root : ℕ) where
    -- The page tables are a tree, and only the address with the indices `is` is translated
    -- otherwise.
    pub record Mapped (v : Vmm f hhdm_offset) (is : List ℕ) (result : Translation)
        (v' : Vmm f hhdm_offset) : Type 0 where
      pub place' : ℕ → Option (List ℕ)
      pub mapped : IsMapped f hhdm_offset laws root place' v'
      pub turns : Turns hhdm_offset root v.memory v'.memory is result
      pub took : Took f v.frames v'.frames 3

    ensure_at :
        (place : ℕ → Option (List ℕ)) (v : Vmm f hhdm_offset)
        (m : IsMapped f hhdm_offset laws root place v) (table t : ℕ) (p : List ℕ) (i j : ℕ)
        (is : List ℕ)
        → table ≡ u64 (t + hhdm_offset)
        → place t ≡ some p
        → length p < 3
        → i < 512
        → NotLarge (walk hhdm_offset v.memory t (i ∷ j ∷ is))
        → Returns f {A = ℕ × Vmm f hhdm_offset} v.frames 1
            (λ r. Ensured f hhdm_offset laws root place v t p i r.0 r.1)
            (ensure_table f hhdm_offset table i v)
    ensure_at place v m table t p i j is e at short lt n =
        subst
          (λ x.
            Returns f {A = ℕ × Vmm f hhdm_offset} v.frames 1
              (λ r. Ensured f hhdm_offset laws root place v t p i r.0 r.1)
              (ensure_table f hhdm_offset x i v))
          (sym e)
          (ensure_table-Ensured f hhdm_offset laws root place v m t p i at short lt
            (small_entry hhdm_offset v.memory t i j is n))

    -- After an entry, the rest of the way is in no large page either.
    below_NotLarge :
        (place : ℕ → Option (List ℕ)) (v : Vmm f hhdm_offset) (t : ℕ) (p : List ℕ) (i j : ℕ)
        (is : List ℕ) (table : ℕ) (v' : Vmm f hhdm_offset)
        (s : Ensured f hhdm_offset laws root place v t p i table v')
        → place t ≡ some p
        → length p + length (i ∷ j ∷ is) ≡ 4
        → All (λ x. x < 512) (i ∷ j ∷ is)
        → NotLarge (walk hhdm_offset v.memory t (i ∷ j ∷ is))
        → NotLarge (walk hhdm_offset v'.memory s.frame (j ∷ is))
    below_NotLarge place v t p i j is table v' s at len small n =
        subst NotLarge
          (sym (s.walks t p (i ∷ j ∷ is) at len small)
            ∙ walk-Leads hhdm_offset v'.memory t i s.frame j is s.leads)
          n

    module _ (place : ℕ → Option (List ℕ)) (v : Vmm f hhdm_offset)
        (m : IsMapped f hhdm_offset laws root place v) (virt phys flags : ℕ)
        (n : NotLarge (walk hhdm_offset v.memory root (indices virt))) where
      abbrev i3 : ℕ
      i3 = table_index virt 39

      abbrev i2 : ℕ
      i2 = table_index virt 30

      abbrev i1 : ℕ
      i1 = table_index virt 21

      abbrev i0 : ℕ
      i0 = table_index virt 12

      module _ (a : ℕ × Vmm f hhdm_offset)
          (s : Ensured f hhdm_offset laws root place v root [] i3 a.0 a.1)
          (b : ℕ × Vmm f hhdm_offset)
          (s' : Ensured f hhdm_offset laws root s.place' a.1 s.frame (i3 ∷ []) i2 b.0 b.1)
          (c : ℕ × Vmm f hhdm_offset)
          (s'' : Ensured f hhdm_offset laws root s'.place' b.1 s'.frame
            (i2 ∷ i3 ∷ [])
            i1
            c.0
            c.1) where
        abbrev at_pt : s''.place' s''.frame ≡ some (i1 ∷ i2 ∷ i3 ∷ [])
        at_pt = s''.below

        abbrev last_memory : ℕ → ℕ
        last_memory =
            written f hhdm_offset laws root s''.place' c.1 s''.mapped s''.frame (i1 ∷ i2 ∷ i3 ∷ [])
              i0 at_pt refl (omega arith) (page_entry phys flags)

        stays :
            (u : ℕ) (r : List ℕ) (j w : ℕ)
            → s''.place' u ≡ some r
            → length r < 3
            → j < 512
            → Leads hhdm_offset c.1.memory u j w
            → Leads hhdm_offset last_memory u j w
        stays =
            written-Leads f hhdm_offset laws root s''.place' c.1 s''.mapped s''.frame
              (i1 ∷ i2 ∷ i3 ∷ []) i0 at_pt refl (omega arith) (page_entry phys flags)

        first : Leads hhdm_offset last_memory root i3 s.frame
        first = stays root [] i3 s.frame s''.mapped.tree.at_root (omega arith) (omega arith) (
            s''.kept root [] i3 s.frame s'.mapped.tree.at_root (omega arith)
              (s'.kept root [] i3 s.frame s.mapped.tree.at_root (omega arith) s.leads))

        second : Leads hhdm_offset last_memory s.frame i2 s'.frame
        second =
            stays s.frame (i3 ∷ []) i2 s'.frame
              (s''.keeps s.frame (i3 ∷ []) (s'.keeps s.frame (i3 ∷ []) s.below)) (omega arith)
              (omega arith)
              (s''.kept s.frame (i3 ∷ []) i2 s'.frame (s'.keeps s.frame (i3 ∷ []) s.below)
                (omega arith) s'.leads)

        third : Leads hhdm_offset last_memory s'.frame i1 s''.frame
        third =
            stays s'.frame (i2 ∷ i3 ∷ []) i1 s''.frame (s''.keeps s'.frame (i2 ∷ i3 ∷ []) s'.below)
              (omega arith) (omega arith) s''.leads

        turned_page :
            walk hhdm_offset last_memory root (indices virt) ≡ page (page_entry phys flags)
        turned_page =
            walk-Leads hhdm_offset last_memory root i3 s.frame i2 (i1 ∷ i0 ∷ []) first
            ∙ walk-Leads hhdm_offset last_memory s.frame i2 s'.frame i1 (i0 ∷ []) second
            ∙ walk-Leads hhdm_offset last_memory s'.frame i1 s''.frame i0 [] third
            ∙ written-leaf f hhdm_offset laws root s''.place' c.1 s''.mapped s''.frame
                (i1 ∷ i2 ∷ i3 ∷ []) i0 at_pt refl (omega arith) (page_entry phys flags)
            ∙ leaf_present phys flags

        other_pages :
            (js : List ℕ)
            → IsIndices js
            → js ≢ indices virt
            → walk hhdm_offset last_memory root js ≡ walk hhdm_offset v.memory root js
        unfolding path
        other_pages js four ne =
            let len : 0 + length js ≡ 4 = omega (arith, four.four) in
            written_walks f hhdm_offset laws root s''.place' c.1 s''.mapped s''.frame
              (i1 ∷ i2 ∷ i3 ∷ []) i0 at_pt refl (omega arith) (page_entry phys flags) root [] js
              s''.mapped.tree.at_root len four.small ne
            ∙ s''.walks root [] js s'.mapped.tree.at_root len four.small
            ∙ s'.walks root [] js s.mapped.tree.at_root len four.small
            ∙ s.walks root [] js m.tree.at_root len four.small

        write_entry-Mapped :
            Mapped v
              (indices virt)
              (page (page_entry phys flags))
              (write_entry f hhdm_offset c.0 i0 phys flags c.1)
        unfolding write_entry
        write_entry-Mapped = rw s''.pointer (record {
          place' = s''.place';
          mapped =
              written-IsMapped f hhdm_offset laws root s''.place' c.1 s''.mapped s''.frame
                (i1 ∷ i2 ∷ i3 ∷ []) i0 at_pt refl (omega arith) (page_entry phys flags);
          turns = record { turned = turned_page; others = other_pages };
          took =
              Took-trans f v.frames a.1.frames c.1.frames 1 2 s.took
                (Took-trans f a.1.frames b.1.frames c.1.frames 1 1 s'.took s''.took);
        })

      -- Where the page tables are a tree and the address is in no large page, `vmm_map_page` halts
      -- since one of the next three calls of the page allocator finds no page, or it returns after
      -- three calls at most, the page tables are a tree again, the address is translated to the page
      -- that was asked for with its flags, and every other address as before.
      pub vmm_map_page-Mapped :
          Returns f v.frames 3
            (Mapped v (indices virt) (page (page_entry phys flags)))
            (vmm_map_page f hhdm_offset virt phys flags v)
      unfolding vmm_map_page
      vmm_map_page-Mapped =
          Returns-bind f v.frames 1 2 (λ (x : ℕ × Vmm f hhdm_offset). x.1.frames) _ _ _ _
            (ensure_at place v m v.pml4 root [] i3 i2 (i1 ∷ i0 ∷ []) m.pml4 m.tree.at_root
              (omega arith) (omega arith) n)
            (λ a s. s.took)
            (λ a s.
              let small = (indices-IsIndices virt).small in
              let n' =
                below_NotLarge place v root [] i3 i2 (i1 ∷ i0 ∷ []) a.0 a.1 s m.tree.at_root refl
                  small n in
              Returns-bind f a.1.frames 1 1 (λ (x : ℕ × Vmm f hhdm_offset). x.1.frames) _ _ _ _
                (ensure_at s.place' a.1 s.mapped a.0 s.frame (i3 ∷ []) i2 i1 (i0 ∷ []) s.pointer
                  s.below (omega arith) (omega arith) n')
                (λ b s'. s'.took)
                (λ b s'.
                  let n'' =
                    below_NotLarge s.place' a.1 s.frame (i3 ∷ []) i2 i1 (i0 ∷ []) b.0 b.1 s' s.below
                      refl small.1 n' in
                  Returns-bind f b.1.frames 1 0 (λ (x : ℕ × Vmm f hhdm_offset). x.1.frames) _ _ _ _
                    (ensure_at s'.place' b.1 s'.mapped b.0 s'.frame (i2 ∷ i3 ∷ []) i1 i0 []
                      s'.pointer s'.below (omega arith) (omega arith) n'')
                    (λ c s''. s''.took) (λ c s''. write_entry-Mapped a s b s' c s'')))
