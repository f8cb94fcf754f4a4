-- ===== src/Mm/Vmm/Ensure/Made.antt =====
-- `ensure_table` where the entry is absent: a page is taken, cleared and linked.
use miyabi.Base.{
  ℕ, ◌+◌, bit_or, ◌<◌, ◌≡◌, ◌≢◌, ◌⊎◌, arith, Bool, true, false, Option, some, List, [], ◌∷◌, ◌==◌,
  length, update, update_self, update_ne, sym, ap, ◌∙◌, inl, inr, Bool-cases, u64,
}
use mathlib.Core.Path.{subst}
use miyabi.Mm.Vmm.{PageSource, Vmm, cell, is_present, frame_of, clear_entries}
use miyabi.Mm.Vmm.Walk.{Translation, absent, leaf, via, is_large, entry_of, walk, Leads, Leads-same}
use miyabi.Mm.Vmm.Tree.{
  Took-one, PageLaws, IsTable, IsMapped, cells_apart, clear_entries_other, clear_entries_at,
}
use miyabi.Mm.Vmm.Ensure.Same.{
  linked_present, linked_large, linked_frame, via-table, via-absent, walk-same,
}
use miyabi.Mm.Vmm.Ensure.{Ensured}

module _ (f : PageSource) (hhdm_offset : ℕ) (laws : PageLaws f hhdm_offset) (root : ℕ)
    (place : ℕ → Option (List ℕ)) (v : Vmm f hhdm_offset)
    (m : IsMapped f hhdm_offset laws root place v) (t : ℕ) (p : List ℕ) (i : ℕ)
    (at : place t ≡ some p) (short : length p < 3) (lt : i < 512)
    (no_entry : is_present (entry_of hhdm_offset v.memory t i) ≡ false)
    (given : (f.alloc v.frames).0 ≢ 0) where
  abbrev new : ℕ
  new = (f.alloc v.frames).0

  abbrev here : ℕ
  here = cell (u64 (t + hhdm_offset)) i

  abbrev cleared : ℕ → ℕ
  cleared = clear_entries 512 0 (u64 (new + hhdm_offset)) v.memory

  abbrev linked : ℕ → ℕ
  linked = update cleared here (bit_or new 7)

  abbrev place_new : ℕ → Option (List ℕ)
  place_new = update place new (some (i ∷ p))

  is_free : laws.Free v.frames new
  is_free = laws.given v.frames given

  new-IsTable : IsTable hhdm_offset new
  new-IsTable = record {
    aligned = laws.aligned v.frames new is_free;
    reached = laws.reached v.frames new is_free;
    some_address = omega arith;
  }

  not_new : (u : ℕ) (r : List ℕ) → place u ≡ some r → new ≢ u
  not_new u r pu e = m.apart u r pu (subst (laws.Free v.frames) e is_free)

  keeps_place : (u : ℕ) (r : List ℕ) → place u ≡ some r → place_new u ≡ some r
  keeps_place u r pu = update_ne place new (some (i ∷ p)) u (not_new u r pu) ∙ pu

  linked_here : entry_of hhdm_offset linked t i ≡ bit_or new 7
  linked_here = update_self cleared here (bit_or new 7)

  linked_other :
      (u : ℕ) (r : List ℕ) (j : ℕ)
      → place u ≡ some r
      → j < 512
      → (t ≢ u) ⊎ (i ≢ j)
      → entry_of hhdm_offset linked u j ≡ entry_of hhdm_offset v.memory u j
  linked_other u r j pu lt' ne =
      update_ne cleared here (bit_or new 7) (cell (u64 (u + hhdm_offset)) j)
        (cells_apart hhdm_offset t u i j (m.tree.table t p at) (m.tree.table u r pu) lt lt' ne)
      ∙ clear_entries_other 512 0 (u64 (new + hhdm_offset)) v.memory
          (cell (u64 (u + hhdm_offset)) j)
          (λ k small.
            cells_apart hhdm_offset new u k j new-IsTable (m.tree.table u r pu) small lt'
              (inl (not_new u r pu)))

  linked-new : (j : ℕ) → j < 512 → entry_of hhdm_offset linked new j ≡ 0
  linked-new j lt' =
      update_ne cleared here (bit_or new 7) (cell (u64 (new + hhdm_offset)) j) (
        cells_apart hhdm_offset t new i j (m.tree.table t p at) new-IsTable lt lt'
          (inl (λ e. not_new t p at (sym e))))
      ∙ clear_entries_at 512 0 (u64 (new + hhdm_offset)) v.memory j (omega arith) lt'

  zero_absent : (e : ℕ) → e ≡ 0 → is_present e ≡ false
  zero_absent e z = rw z

  -- The cleared page translates nothing.
  walk-new : (k : ℕ) (is : List ℕ) → k < 512 → walk hhdm_offset linked new (k ∷ is) ≡ absent
  unfolding walk
  walk-new k [] small = rw (leaf, zero_absent _ (linked-new k small))
  walk-new k (j ∷ is) small = via-absent _ _ (zero_absent _ (linked-new k small))

  place_cases :
      (u : ℕ) (r : List ℕ) → place_new u ≡ some r → ((u ≡ new) × (r ≡ i ∷ p)) ⊎ (place u ≡ some r)
  place_cases u r pu = elim (Bool-cases (new == u)) [
    | inl same ↦
        let e : new ≡ u = ground arith in
        let q : some (i ∷ p) ≡ some r =
          sym (update_self place new (some (i ∷ p))) ∙ ap place_new e ∙ pu in
        inl (sym e, cc q)
    | inr apart ↦ inr (sym (update_ne place new (some (i ∷ p)) u (ground arith)) ∙ pu)
  ]

  linked_child :
      (u : ℕ) (r : List ℕ) (j : ℕ)
      → place_new u ≡ some r
      → length r < 3
      → j < 512
      → is_present (entry_of hhdm_offset linked u j) ≡ true
      → is_large (entry_of hhdm_offset linked u j) ≡ false
      → place_new (frame_of (entry_of hhdm_offset linked u j)) ≡ some (j ∷ r)
  linked_child u r j pu len lt' a b = elim (place_cases u r pu) [
    | inl (e, q) ↦
        let z : is_present (entry_of hhdm_offset linked u j) ≡ false =
          zero_absent _ (ap (λ x. entry_of hhdm_offset linked x j) e ∙ linked-new j lt') in
        absurd (differ a z)
    | inr old ↦ elim (Bool-cases (t == u)) [
      | inr apart ↦ other old (inl (ground arith))
      | inl same ↦ elim (Bool-cases (i == j)) [
        | inr apart ↦ other old (inr (ground arith))
        | inl same' ↦ at_entry old (ground arith) (ground arith)
      ]
    ]
  ]
    where
      differ : {x : Bool} → x ≡ true → x ≡ false → ⊥
      differ h k = cc

      other :
          place u ≡ some r
          → (t ≢ u) ⊎ (i ≢ j)
          → place_new (frame_of (entry_of hhdm_offset linked u j)) ≡ some (j ∷ r)
      other old ne =
          let e = linked_other u r j old lt' ne in
          rw e (keeps_place _ (j ∷ r) (m.tree.child u r j old len lt' (rw e at a) (rw e at b)))

      at_entry :
          place u ≡ some r
          → t ≡ u
          → i ≡ j
          → place_new (frame_of (entry_of hhdm_offset linked u j)) ≡ some (j ∷ r)
      at_entry old e e' =
          let q : some p ≡ some r = sym at ∙ ap place e ∙ old in
          let q' : i ∷ p ≡ j ∷ r = cc (e', q) in
          ap place_new (
            ap (λ x. frame_of x)
              (sym (ap (λ x. entry_of hhdm_offset linked x j) e)
                ∙ sym (ap (λ x. entry_of hhdm_offset linked t x) e')
                ∙ linked_here)
            ∙ linked_frame new new-IsTable.aligned)
          ∙ update_self place new (some (i ∷ p))
          ∙ ap some q'

  linked_kept :
      (u : ℕ) (r : List ℕ) (j w : ℕ)
      → place u ≡ some r
      → j < 512
      → Leads hhdm_offset v.memory u j w
      → Leads hhdm_offset linked u j w
  linked_kept u r j w pu lt' l =
      Leads-same hhdm_offset v.memory linked u j w
        (linked_other u r j pu lt' (apart (Bool-cases (t == u)) (Bool-cases (i == j)))) l
    where
      absent_here : t ≡ u → i ≡ j → ⊥
      absent_here e e' =
          let q : is_present (entry_of hhdm_offset v.memory u j) ≡ false =
            rw (sym e, sym e') no_entry in
          let q' = l.present in cc

      apart :
          ((t == u) ≡ true) ⊎ ((t == u) ≡ false)
          → ((i == j) ≡ true) ⊎ ((i == j) ≡ false)
          → (t ≢ u) ⊎ (i ≢ j)
      apart (inr a) b = inl (ground arith)
      apart (inl a) (inr b) = inr (ground arith)
      apart (inl a) (inl b) = absurd (absent_here (ground arith) (ground arith))

  pub linked-Ensured :
      Ensured f hhdm_offset laws root place v t p i
        (u64 (frame_of (bit_or new 7) + hhdm_offset))
        (record v { memory = linked; frames = (f.alloc v.frames).1 })
  unfolding walk
  linked-Ensured = record {
    frame = new;
    place' = place_new;
    pointer = ap (λ x. u64 (x + hhdm_offset)) (linked_frame new new-IsTable.aligned);
    below = update_self place new (some (i ∷ p));
    keeps = keeps_place;
    mapped = record {
      tree = record {
        at_root = keeps_place root [] m.tree.at_root;
        table = λ u r pu. elim (place_cases u r pu) [
          | inl (e, q) ↦ subst (IsTable hhdm_offset) (sym e) new-IsTable
          | inr old ↦ m.tree.table u r old
        ];
        child = linked_child;
      };
      pml4 = m.pml4;
      apart = λ u r pu fr. elim (place_cases u r pu) [
        | inl (e, q) ↦ laws.not_given v.frames given (subst (laws.Free (f.alloc v.frames).1) e fr)
        | inr old ↦ m.apart u r old (laws.taken v.frames u fr)
      ];
    };
    walks =
        walk-same hhdm_offset v.memory linked root place m.tree t p i at short linked_other
          (λ k is all down.
            rw (linked_here, linked_frame new new-IsTable.aligned)
              (through _ ∙ walk-new k is all.0 ∙ sym (via-absent _ _ no_entry)));
    leads = record {
      present = ap (λ x. is_present x) linked_here ∙ linked_present new;
      small = ap (λ x. is_large x) linked_here ∙ linked_large new new-IsTable.aligned;
      frame = ap (λ x. frame_of x) linked_here ∙ linked_frame new new-IsTable.aligned;
    };
    took = Took-one f v.frames;
    kept = linked_kept;
  }
    where
      through : (x : Translation) → via (bit_or new 7) x ≡ x
      through x =
          via-table (bit_or new 7) x (linked_present new) (linked_large new new-IsTable.aligned)
