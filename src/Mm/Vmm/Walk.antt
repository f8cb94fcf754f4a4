-- ===== src/Mm/Vmm/Walk.antt =====
-- What the processor finds in the page tables: the specification of src/mm/vmm.c. Tables are named by
-- their physical addresses, and the indices of an address are a list, the topmost first.
use miyabi.Base.{
  ℕ, ◌+◌, ◌/◌, ◌%◌, ◌≡◌, ap, ◌∙◌, Bool, true, false, List, [], ◌∷◌, ◌==◌, if◌then◌else◌, u64,
}
use miyabi.Mm.Vmm.{cell, is_present, frame_of, table_index}

-- An address has no page, is in a large page, or has a page, with the entry for it.
pub data Translation : Type 0 where
  absent : Translation
  large : ℕ → Translation
  page : ℕ → Translation

-- PTE_HUGE, which the processor reads in entries that lead to no table.
abbrev pub is_large : ℕ → Bool
is_large entry = entry / 128 % 2 == 1

-- The entry `i` of the table at the physical address `table`.
abbrev pub entry_of : ℕ → (ℕ → ℕ) → ℕ → ℕ → ℕ
entry_of hhdm_offset memory table i = memory (cell (u64 (table + hhdm_offset)) i)

-- What stands for an entry that is not the last, where `rest` is what its table gives.
abbrev pub via : ℕ → Translation → Translation
via entry rest = if is_present entry then (if is_large entry then large entry else rest) else absent

abbrev pub leaf : ℕ → Translation
leaf entry = if is_present entry then page entry else absent

unfoldable pub walk : ℕ → (ℕ → ℕ) → ℕ → List ℕ → Translation
walk hhdm_offset memory table [] = absent
walk hhdm_offset memory table (i ∷ []) = leaf (entry_of hhdm_offset memory table i)
walk hhdm_offset memory table (i ∷ j ∷ is) =
    via (entry_of hhdm_offset memory table i)
      (walk hhdm_offset memory (frame_of (entry_of hhdm_offset memory table i)) (j ∷ is))

-- The four indices of a virtual address.
abbrev pub indices : ℕ → List ℕ
indices virt =
    table_index virt 39 ∷ table_index virt 30 ∷ table_index virt 21 ∷ table_index virt 12 ∷ []

abbrev pub NotLarge : Translation → Type 0
NotLarge absent = Unit
NotLarge (large entry) = ⊥
NotLarge (page entry) = Unit

-- The entry `i` of the table `t` leads to the table `u`.
pub record Leads (hhdm_offset : ℕ) (memory : ℕ → ℕ) (t i u : ℕ) : Type 0 where
  pub present : is_present (entry_of hhdm_offset memory t i) ≡ true
  pub small : is_large (entry_of hhdm_offset memory t i) ≡ false
  pub frame : frame_of (entry_of hhdm_offset memory t i) ≡ u

pub walk-Leads :
    (hhdm_offset : ℕ) (memory : ℕ → ℕ) (t i u k : ℕ) (is : List ℕ)
    → Leads hhdm_offset memory t i u
    → walk hhdm_offset memory t (i ∷ k ∷ is) ≡ walk hhdm_offset memory u (k ∷ is)
unfolding walk
walk-Leads hhdm_offset memory t i u k is l =
    rw (via, l.present, l.small) (ap (λ w. walk hhdm_offset memory w (k ∷ is)) l.frame)

-- An entry with the same content leads where the other does.
pub Leads-same :
    (hhdm_offset : ℕ) (m m' : ℕ → ℕ) (t i u : ℕ)
    → entry_of hhdm_offset m' t i ≡ entry_of hhdm_offset m t i
    → Leads hhdm_offset m t i u
    → Leads hhdm_offset m' t i u
Leads-same hhdm_offset m m' t i u e l = record {
  present = ap (λ x. is_present x) e ∙ l.present;
  small = ap (λ x. is_large x) e ∙ l.small;
  frame = ap (λ x. frame_of x) e ∙ l.frame;
}
