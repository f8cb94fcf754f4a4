-- ===== src/Mm/Vmm/User.antt =====
-- `vmm_create_user_pml4` and `vmm_switch_pml4`: a new address space with the upper half of the old one.
use miyabi.Base.{
  ℕ, ◌+◌, ◌≤◌, ◌<◌, ◌≡◌, ◌≢◌, ◌⊎◌, refl, arith, Bool, true, false, Option, some, List, [], ◌∷◌,
  ◌==◌, ltb, length, All, sym, ap, ◌∙◌, inl, inr, Bool-cases, u64, update, update_self, update_ne,
}
use mathlib.Core.Path.{subst}
use miyabi.Mm.Vmm.{
  PageSource, Vmm, is_present, frame_of, cell, clear_entries, copy_entries, vmm_create_user_pml4,
  vmm_switch_pml4,
}
use miyabi.Mm.Vmm.Walk.{absent, is_large, entry_of, walk}
use miyabi.Mm.Vmm.Tree.{
  PageLaws, IsTable, IsMapped, cells_apart, clear_entries_other, clear_entries_at,
}
use miyabi.Mm.Vmm.Ensure.Same.{via-cong, via-absent}
use miyabi.Mm.Vmm.Map.{IsIndices}
use miyabi.Mm.Vmm.Copied.{copy_entries_other, copy_entries_below, copy_entries_at, walk_kept}

module _ (f : PageSource) (hhdm_offset : ℕ) (laws : PageLaws f hhdm_offset) (root : ℕ)
    (place : ℕ → Option (List ℕ)) (v : Vmm f hhdm_offset)
    (m : IsMapped f hhdm_offset laws root place v) where
  -- The address space at `phys`: its page tables are a tree once it is switched to, its lower half
  -- is empty, its upper half is that of the old one, and the old one is as it was.
  pub record NewSpace (phys : ℕ) (v' : Vmm f hhdm_offset) : Type 0 where
    pub place' : ℕ → Option (List ℕ)
    pub mapped : IsMapped f hhdm_offset laws phys place' (vmm_switch_pml4 f hhdm_offset phys v')
    pub lower :
        (i : ℕ) (is : List ℕ)
        → IsIndices (i ∷ is)
        → i < 256
        → walk hhdm_offset v'.memory phys (i ∷ is) ≡ absent
    pub upper :
        (i : ℕ) (is : List ℕ)
        → IsIndices (i ∷ is)
        → 256 ≤ i
        → walk hhdm_offset v'.memory phys (i ∷ is) ≡ walk hhdm_offset v.memory root (i ∷ is)
    pub old :
        (is : List ℕ)
        → IsIndices is
        → walk hhdm_offset v'.memory root is ≡ walk hhdm_offset v.memory root is

  module _ (given : (f.alloc v.frames).0 ≢ 0) where
    abbrev new : ℕ
    new = (f.alloc v.frames).0

    abbrev table : ℕ
    table = u64 (new + hhdm_offset)

    abbrev cleared : ℕ → ℕ
    cleared = clear_entries 256 0 table v.memory

    abbrev copied : ℕ → ℕ
    copied = copy_entries 256 256 table (u64 (root + hhdm_offset)) cleared

    abbrev place_new : ℕ → Option (List ℕ)
    place_new = update place new (some [])

    is_free : laws.Free v.frames new
    is_free = laws.given v.frames given

    new-IsTable : IsTable hhdm_offset new
    new-IsTable = record {
      aligned = laws.aligned v.frames new is_free;
      reached = laws.reached v.frames new is_free;
      some_address = omega arith;
    }

    not_new : (u : ℕ) (r : List ℕ) → place u ≡ some r → new ≢ u
    not_new u r pu e = m.apart u r pu (subst (laws.Free v.frames) e is_free)

    cells_new :
        (u : ℕ) (r : List ℕ) (k j : ℕ)
        → place u ≡ some r
        → k < 512
        → j < 512
        → cell table k ≢ cell (u64 (u + hhdm_offset)) j
    cells_new u r k j pu lt lt' =
        cells_apart hhdm_offset new u k j new-IsTable (m.tree.table u r pu) lt lt'
          (inl (not_new u r pu))

    cleared_other :
        (u : ℕ) (r : List ℕ) (j : ℕ)
        → place u ≡ some r
        → j < 512
        → entry_of hhdm_offset cleared u j ≡ entry_of hhdm_offset v.memory u j
    cleared_other u r j pu lt =
        clear_entries_other 256 0 table v.memory (cell (u64 (u + hhdm_offset)) j)
          (λ k lt'. cells_new u r k j pu (omega arith) lt)

    copied_other :
        (u : ℕ) (r : List ℕ) (j : ℕ)
        → place u ≡ some r
        → j < 512
        → entry_of hhdm_offset copied u j ≡ entry_of hhdm_offset v.memory u j
    copied_other u r j pu lt =
        copy_entries_other 256 256 table (u64 (root + hhdm_offset)) cleared
          (cell (u64 (u + hhdm_offset)) j) (λ k lt'. cells_new u r k j pu (omega arith) lt)
        ∙ cleared_other u r j pu lt

    copied_low : (i : ℕ) → i < 256 → entry_of hhdm_offset copied new i ≡ 0
    copied_low i lt =
        copy_entries_below 256 256 table (u64 (root + hhdm_offset)) cleared i lt
        ∙ clear_entries_at 256 0 table v.memory i (omega arith) lt

    copied_high :
        (i : ℕ)
        → 256 ≤ i
        → i < 512
        → entry_of hhdm_offset copied new i ≡ entry_of hhdm_offset v.memory root i
    copied_high i lo hi =
        copy_entries_at 256 256 table (u64 (root + hhdm_offset)) cleared i
          (λ k lt. cells_new root [] k i m.tree.at_root (omega arith) hi) lo hi
        ∙ cleared_other root [] i m.tree.at_root hi

    zero_absent : (e : ℕ) → e ≡ 0 → is_present e ≡ false
    zero_absent e z = rw z

    kept_walk :
        (u : ℕ) (r is : List ℕ)
        → place u ≡ some r
        → length r + length is ≡ 4
        → All (λ x. x < 512) is
        → walk hhdm_offset copied u is ≡ walk hhdm_offset v.memory u is
    kept_walk = walk_kept hhdm_offset v.memory copied root place m.tree copied_other

    keeps_place : (u : ℕ) (r : List ℕ) → place u ≡ some r → place_new u ≡ some r
    keeps_place u r pu = update_ne place new (some []) u (not_new u r pu) ∙ pu

    place_cases :
        (u : ℕ) (r : List ℕ) → place_new u ≡ some r → ((u ≡ new) × (r ≡ [])) ⊎ (place u ≡ some r)
    place_cases u r pu = elim (Bool-cases (new == u)) [
      | inl same ↦
          let e : new ≡ u = ground arith in
          let q : some [] ≡ some r = sym (update_self place new (some [])) ∙ ap place_new e ∙ pu in
          inl (sym e, cc q)
      | inr apart ↦ inr (sym (update_ne place new (some []) u (ground arith)) ∙ pu)
    ]

    new_child :
        (i : ℕ)
        → i < 512
        → is_present (entry_of hhdm_offset copied new i) ≡ true
        → is_large (entry_of hhdm_offset copied new i) ≡ false
        → place_new (frame_of (entry_of hhdm_offset copied new i)) ≡ some (i ∷ [])
    new_child i lt a b = elim (Bool-cases (ltb i 256)) [
      | inl low ↦ absurd (differ a (zero_absent _ (copied_low i (ground arith))))
      | inr high ↦
          let e = copied_high i (ground arith) lt in
          rw e (
            keeps_place _ (i ∷ [])
              (m.tree.child root [] i m.tree.at_root (omega arith) lt (rw e at a) (rw e at b)))
    ]
      where
        differ : {x : Bool} → x ≡ true → x ≡ false → ⊥
        differ h k = cc

    copied_child :
        (u : ℕ) (r : List ℕ) (j : ℕ)
        → place_new u ≡ some r
        → length r < 3
        → j < 512
        → is_present (entry_of hhdm_offset copied u j) ≡ true
        → is_large (entry_of hhdm_offset copied u j) ≡ false
        → place_new (frame_of (entry_of hhdm_offset copied u j)) ≡ some (j ∷ r)
    copied_child u r j pu len lt a b = elim (place_cases u r pu) [
      | inl (e, q) ↦ rw (e, q) (new_child j lt (rw e at a) (rw e at b))
      | inr was ↦
          let e = copied_other u r j was lt in
          rw e (keeps_place _ (j ∷ r) (m.tree.child u r j was len lt (rw e at a) (rw e at b)))
    ]

    -- The walk from the new root, at its first entry.
    from_new :
        (i j : ℕ) (is : List ℕ)
        → 256 ≤ i
        → IsIndices (i ∷ j ∷ is)
        → walk hhdm_offset copied new (i ∷ j ∷ is) ≡ walk hhdm_offset v.memory root (i ∷ j ∷ is)
    unfolding walk
    from_new i j is high four = rw (copied_high i high four.small.0) (
        via-cong (entry_of hhdm_offset v.memory root i) _ _ (λ a b.
          kept_walk _ (i ∷ []) (j ∷ is)
            (m.tree.child root [] i m.tree.at_root (omega arith) four.small.0 a b)
            (omega (arith, four.four)) four.small.1))

    abbrev created : Vmm f hhdm_offset
    created = record v { memory = copied; frames = (f.alloc v.frames).1 }

    created-NewSpace : NewSpace new created
    unfolding walk vmm_switch_pml4
    created-NewSpace = record {
      place' = place_new;
      mapped = record {
        tree = record {
          at_root = update_self place new (some []);
          table = λ u r pu. elim (place_cases u r pu) [
            | inl (e, q) ↦ subst (IsTable hhdm_offset) (sym e) new-IsTable
            | inr was ↦ m.tree.table u r was
          ];
          child = copied_child;
        };
        pml4 =
            let a = new-IsTable.aligned in
            let e : frame_of new ≡ new = omega arith in ap (λ x. u64 (x + hhdm_offset)) e;
        apart = λ u r pu fr. elim (place_cases u r pu) [
          | inl (e, q) ↦ laws.not_given v.frames given (subst (laws.Free (f.alloc v.frames).1) e fr)
          | inr was ↦ m.apart u r was (laws.taken v.frames u fr)
        ];
      };
      lower = lower_half;
      upper = upper_half;
      old = λ is four. kept_walk root [] is m.tree.at_root (omega (arith, four.four)) four.small;
    }
      where
        lower_half :
            (i : ℕ) (is : List ℕ)
            → IsIndices (i ∷ is)
            → i < 256
            → walk hhdm_offset copied new (i ∷ is) ≡ absent
        lower_half i [] four lt = absurd (omega (arith, four.four))
        lower_half i (j ∷ is) four lt = via-absent _ _ (zero_absent _ (copied_low i lt))

        upper_half :
            (i : ℕ) (is : List ℕ)
            → IsIndices (i ∷ is)
            → 256 ≤ i
            → walk hhdm_offset copied new (i ∷ is) ≡ walk hhdm_offset v.memory root (i ∷ is)
        upper_half i [] four le = absurd (omega (arith, four.four))
        upper_half i (j ∷ is) four le = from_new i j is le four

  -- Where the page tables are a tree, `vmm_create_user_pml4` returns 0 and leaves the memory alone
  -- since the page allocator finds no page, or it returns the root of a new address space: once
  -- switched to, its page tables are a tree, its lower half has no page, its upper half is
  -- translated as in the old address space, and the old address space is translated as before.
  pub vmm_create_user_pml4-NewSpace :
      let r = vmm_create_user_pml4 f hhdm_offset v in
      (((f.alloc v.frames).0 ≡ 0) × (r.0 ≡ 0) × (r.1.memory ≡ v.memory)) ⊎ NewSpace r.0 r.1
  unfolding vmm_create_user_pml4
  vmm_create_user_pml4-NewSpace = elim (Bool-cases ((f.alloc v.frames).0 == 0)) [
    | inl out ↦ let e : (f.alloc v.frames).0 ≡ 0 = ground arith in rw out (inl (e, refl, refl))
    | inr given ↦ rw given (
        inr (
          subst
            (λ x. NewSpace (f.alloc v.frames).0 (record v {
              memory =
                  copy_entries 256 256 (u64 ((f.alloc v.frames).0 + hhdm_offset)) x
                    (clear_entries 256 0 (u64 ((f.alloc v.frames).0 + hhdm_offset)) v.memory);
              frames = (f.alloc v.frames).1;
            }))
            (sym m.pml4) (created-NewSpace (ground arith))))
  ]
