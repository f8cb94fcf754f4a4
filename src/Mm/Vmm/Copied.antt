-- ===== src/Mm/Vmm/Copied.antt =====
-- The loop that copies entries of a table, and memory in which no entry of a table differs.
use miyabi.Base.{
  ℕ, zero, suc, ◌+◌, ◌≤◌, ◌<◌, ◌≡◌, ◌≢◌, refl, arith, Option, some, List, [], ◌∷◌, ◌==◌, length,
  All, sym, ◌∙◌, inl, inr, Bool-cases, update, update_self, update_ne,
}
use mathlib.Core.Path.{subst}
use miyabi.Mm.Vmm.{cell, copy_entries}
use miyabi.Mm.Vmm.Walk.{entry_of, walk}
use miyabi.Mm.Vmm.Tree.{IsTree}
use miyabi.Mm.Vmm.Ensure.Same.{via-cong}

pub copy_entries_other :
    (n from to source : ℕ) (memory : ℕ → ℕ) (a : ℕ)
    → ((k : ℕ) → k < from + n → cell to k ≢ a)
    → copy_entries n from to source memory a ≡ memory a
unfolding copy_entries
copy_entries_other zero from to source memory a h = refl
copy_entries_other (suc n) from to source memory a h =
    copy_entries_other n (from + 1) to source _ a (λ k lt. h k (omega arith))
    ∙ update_ne memory (cell to from) (memory (cell source from)) a (h from (omega arith))

-- Before the loop comes to it, an entry is left alone.
pub copy_entries_below :
    (n from to source : ℕ) (memory : ℕ → ℕ) (k : ℕ)
    → k < from
    → copy_entries n from to source memory (cell to k) ≡ memory (cell to k)
unfolding copy_entries
copy_entries_below zero from to source memory k lt = refl
copy_entries_below (suc n) from to source memory k lt =
    copy_entries_below n (from + 1) to source _ k (omega arith)
    ∙ update_ne memory (cell to from) (memory (cell source from)) (cell to k) (omega arith)

pub copy_entries_at :
    (n from to source : ℕ) (memory : ℕ → ℕ) (k : ℕ)
    → ((i : ℕ) → i < from + n → cell to i ≢ cell source k)
    → from ≤ k
    → k < from + n
    → copy_entries n from to source memory (cell to k) ≡ memory (cell source k)
unfolding copy_entries
copy_entries_at zero from to source memory k h lo hi = absurd (omega arith)
copy_entries_at (suc n) from to source memory k h lo hi = elim (Bool-cases (from == k)) [
  | inl here ↦
      let e : from ≡ k = ground arith in
      subst
        (λ x.
          copy_entries n (x + 1) to source (update memory (cell to x) (memory (cell source x)))
            (cell to k)
          ≡ memory (cell source k))
        (sym e)
        (copy_entries_below n (k + 1) to source _ k (omega arith)
          ∙ update_self memory (cell to k) (memory (cell source k)))
  | inr there ↦
      copy_entries_at n (from + 1) to source _ k (λ i lt. h i (omega arith)) (ground arith)
        (omega arith)
      ∙ update_ne memory (cell to from) (memory (cell source from)) (cell source k)
          (h from (omega arith))
]

-- Where no entry of a table changes, no translation does.
pub walk_kept :
    (hhdm_offset : ℕ) (m m' : ℕ → ℕ) (root : ℕ) (place : ℕ → Option (List ℕ))
    → IsTree hhdm_offset m root place
    → ((u : ℕ) (r : List ℕ) (j : ℕ)
        → place u ≡ some r
        → j < 512
        → entry_of hhdm_offset m' u j ≡ entry_of hhdm_offset m u j)
    → (u : ℕ) (r is : List ℕ) → place u ≡ some r
    → length r + length is ≡ 4
    → All (λ x. x < 512) is
    → walk hhdm_offset m' u is ≡ walk hhdm_offset m u is
unfolding walk
walk_kept hhdm_offset m m' root place tree same u r [] pu len small = refl
walk_kept hhdm_offset m m' root place tree same u r (j ∷ []) pu len small =
    rw (same u r j pu small.0)
walk_kept hhdm_offset m m' root place tree same u r (j ∷ k ∷ is) pu len small = next (λ w pw.
    walk_kept hhdm_offset m m' root place tree same w (j ∷ r) (k ∷ is) pw (omega arith) small.1)
  where
    next :
        ((w : ℕ)
          → place w ≡ some (j ∷ r)
          → walk hhdm_offset m' w (k ∷ is) ≡ walk hhdm_offset m w (k ∷ is))
        → walk hhdm_offset m' u (j ∷ k ∷ is) ≡ walk hhdm_offset m u (j ∷ k ∷ is)
    next below = rw (same u r j pu small.0) (
        via-cong (entry_of hhdm_offset m u j) _ _
          (λ a b. below _ (tree.child u r j pu (omega arith) small.0 a b)))
