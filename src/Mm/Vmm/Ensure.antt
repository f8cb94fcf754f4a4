-- ===== src/Mm/Vmm/Ensure.antt =====
-- `ensure_table`: the table below an entry, found or made, and no address is translated otherwise.
pub mod Same
pub mod Made
pub mod Table
use miyabi.Base.{
  ℕ, zero, suc, ◌+◌, ◌-◌, ◌*◌, ◌/◌, ◌%◌, ◌^◌, bit_or, ◌≤◌, ◌<◌, ◌≡◌, ◌≢◌, ◌⊎◌, refl, arith, Bool,
  true, false, Option, none, some, List, [], ◌∷◌, ◌==◌, if◌then◌else◌, length, All, update,
  update_self, update_ne, sym, ap, ◌∙◌, inl, inr, Bool-cases, u64, low_bits,
}
use mathlib.Core.Path.{subst}
use miyabi.Base.Bits.{bit_or_six, bit_or_seven}
use miyabi.Base.Run.{Run, done, halted, stuck}
use miyabi.Mm.Vmm.{
  PageSource, Vmm, cell, is_present, frame_of, clear_entries, pte_table, pte_user_write,
  phys_to_virt, alloc_page_table, ensure_table,
}
use miyabi.Mm.Vmm.Walk.{
  Translation, absent, large, page, via, is_large, entry_of, walk, NotLarge, Leads, Leads-same,
}
use miyabi.Mm.Vmm.Tree.{
  Took, Took-none, PageLaws, IsTable, IsTree, IsMapped, cells_apart, clear_entries_other,
  clear_entries_at,
}
use miyabi.Mm.Vmm.Ensure.Same.{
  marked_present, marked_large, marked_frame, linked_present, linked_large, linked_frame, via-cong,
  via-table, via-absent, walk-same,
}

module _ (f : PageSource) (hhdm_offset : ℕ) (laws : PageLaws f hhdm_offset) (root : ℕ) where
  -- What `ensure_table` gives for the entry `i` of the table `t` at `p`: the table below, at its place
  -- in a tree that has all tables of the old one; every translation is as before, the entry
  -- leads to the table, and every other entry leads where it led.
  pub record Ensured (place : ℕ → Option (List ℕ)) (v : Vmm f hhdm_offset) (t : ℕ) (p : List ℕ)
      (i new_table : ℕ) (v' : Vmm f hhdm_offset) : Type 0 where
    pub frame : ℕ
    pub place' : ℕ → Option (List ℕ)
    pub pointer : new_table ≡ u64 (frame + hhdm_offset)
    pub below : place' frame ≡ some (i ∷ p)
    pub keeps : (u : ℕ) (r : List ℕ) → place u ≡ some r → place' u ≡ some r
    pub mapped : IsMapped f hhdm_offset laws root place' v'
    pub walks :
        (u : ℕ) (r is : List ℕ)
        → place u ≡ some r
        → length r + length is ≡ 4
        → All (λ x. x < 512) is
        → walk hhdm_offset v'.memory u is ≡ walk hhdm_offset v.memory u is
    pub leads : Leads hhdm_offset v'.memory t i frame
    pub took : Took f v.frames v'.frames 1
    pub kept :
        (u : ℕ) (r : List ℕ) (j w : ℕ)
        → place u ≡ some r
        → j < 512
        → Leads hhdm_offset v.memory u j w
        → Leads hhdm_offset v'.memory u j w

  module _ (place : ℕ → Option (List ℕ)) (v : Vmm f hhdm_offset)
      (m : IsMapped f hhdm_offset laws root place v) (t : ℕ) (p : List ℕ) (i : ℕ)
      (at : place t ≡ some p) (short : length p < 3) (lt : i < 512) where
    abbrev entry : ℕ
    entry = entry_of hhdm_offset v.memory t i

    abbrev here : ℕ
    here = cell (u64 (t + hhdm_offset)) i

    -- The entry is there: its marks change.
    abbrev marked : ℕ → ℕ
    marked = update v.memory here (bit_or entry 6)

    marked_here : entry_of hhdm_offset marked t i ≡ bit_or entry 6
    marked_here = update_self v.memory here (bit_or entry 6)

    marked_other :
        (u : ℕ) (r : List ℕ) (j : ℕ)
        → place u ≡ some r
        → j < 512
        → (t ≢ u) ⊎ (i ≢ j)
        → entry_of hhdm_offset marked u j ≡ entry_of hhdm_offset v.memory u j
    marked_other u r j pu lt' ne =
        update_ne v.memory here (bit_or entry 6) (cell (u64 (u + hhdm_offset)) j)
          (cells_apart hhdm_offset t u i j (m.tree.table t p at) (m.tree.table u r pu) lt lt' ne)

    marked_child :
        (u : ℕ) (r : List ℕ) (j : ℕ)
        → place u ≡ some r
        → length r < 3
        → j < 512
        → is_present (entry_of hhdm_offset marked u j) ≡ true
        → is_large (entry_of hhdm_offset marked u j) ≡ false
        → place (frame_of (entry_of hhdm_offset marked u j)) ≡ some (j ∷ r)
    marked_child u r j pu len lt' a b = elim (Bool-cases (t == u)) [
      | inr apart ↦ other (inl (ground arith))
      | inl same ↦ elim (Bool-cases (i == j)) [
        | inr apart ↦ other (inr (ground arith))
        | inl same' ↦ at_entry (ground arith) (ground arith)
      ]
    ]
      where
        other :
            (t ≢ u) ⊎ (i ≢ j) → place (frame_of (entry_of hhdm_offset marked u j)) ≡ some (j ∷ r)
        other ne =
            let e = marked_other u r j pu lt' ne in
            rw e (m.tree.child u r j pu len lt' (rw e at a) (rw e at b))

        same_entry :
            t ≡ u
            → i ≡ j
            → entry_of hhdm_offset marked u j ≡ bit_or (entry_of hhdm_offset v.memory u j) 6
        same_entry e e' = rw (sym e, sym e') marked_here

        at_entry : t ≡ u → i ≡ j → place (frame_of (entry_of hhdm_offset marked u j)) ≡ some (j ∷ r)
        at_entry e e' =
            let s = same_entry e e' in
            let old = entry_of hhdm_offset v.memory u j in
            ap place (ap (λ x. frame_of x) s ∙ marked_frame old)
            ∙ m.tree.child u r j pu len lt'
                (sym (marked_present old) ∙ sym (ap (λ x. is_present x) s) ∙ a)
                (sym (marked_large old) ∙ sym (ap (λ x. is_large x) s) ∙ b)

    marked_kept :
        (u : ℕ) (r : List ℕ) (j w : ℕ)
        → place u ≡ some r
        → j < 512
        → Leads hhdm_offset v.memory u j w
        → Leads hhdm_offset marked u j w
    marked_kept u r j w pu lt' l = elim (Bool-cases (t == u)) [
      | inr apart ↦
          Leads-same hhdm_offset v.memory marked u j w
            (marked_other u r j pu lt' (inl (ground arith))) l
      | inl same ↦ elim (Bool-cases (i == j)) [
        | inr apart ↦
            Leads-same hhdm_offset v.memory marked u j w
              (marked_other u r j pu lt' (inr (ground arith))) l
        | inl same' ↦ at_entry (ground arith) (ground arith)
      ]
    ]
      where
        same_entry :
            t ≡ u
            → i ≡ j
            → entry_of hhdm_offset marked u j ≡ bit_or (entry_of hhdm_offset v.memory u j) 6
        same_entry e e' = rw (sym e, sym e') marked_here

        at_entry : t ≡ u → i ≡ j → Leads hhdm_offset marked u j w
        at_entry e e' =
            let s = same_entry e e' in
            let old = entry_of hhdm_offset v.memory u j in
            record {
              present = ap (λ x. is_present x) s ∙ marked_present old ∙ l.present;
              small = ap (λ x. is_large x) s ∙ marked_large old ∙ l.small;
              frame = ap (λ x. frame_of x) s ∙ marked_frame old ∙ l.frame;
            }

    module _ (present : is_present entry ≡ true) (small : is_large entry ≡ false) where
      pub marked-Ensured :
          Ensured place v t p i
            (u64 (frame_of (bit_or entry 6) + hhdm_offset))
            (record v { memory = marked })
      unfolding walk
      marked-Ensured = record {
        frame = frame_of entry;
        place' = place;
        pointer = ap (λ x. u64 (x + hhdm_offset)) (marked_frame entry);
        below = m.tree.child t p i at short lt present small;
        keeps = λ u r pu. pu;
        mapped = record {
          tree = record { at_root = m.tree.at_root; table = m.tree.table; child = marked_child };
          pml4 = m.pml4;
          apart = m.apart;
        };
        walks =
            walk-same hhdm_offset v.memory marked root place m.tree t p i at short marked_other
              (λ k is all down.
                rw (marked_here, marked_frame entry)
                  (through _ ∙ down present small ∙ sym (via-table entry _ present small)));
        leads = record {
          present = ap (λ x. is_present x) marked_here ∙ marked_present entry ∙ present;
          small = ap (λ x. is_large x) marked_here ∙ marked_large entry ∙ small;
          frame = ap (λ x. frame_of x) marked_here ∙ marked_frame entry;
        };
        took = Took-none f v.frames 1;
        kept = marked_kept;
      }
        where
          through : (x : Translation) → via (bit_or entry 6) x ≡ x
          through x =
              via-table (bit_or entry 6) x (marked_present entry ∙ present)
                (marked_large entry ∙ small)
