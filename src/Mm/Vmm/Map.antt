-- ===== src/Mm/Vmm/Map.antt =====
-- The last step of `vmm_map_page` and of `vmm_unmap_page`: one entry of a table of the last level is
-- written, and only the addresses of its page are translated otherwise.
pub mod Page
use miyabi.Base.{
  ℕ, zero, suc, ◌+◌, ◌-◌, ◌*◌, ◌/◌, ◌%◌, ◌^◌, bit_or, ◌≤◌, ◌<◌, ◌≡◌, ◌≢◌, ◌⊎◌, refl, arith, Bool,
  true, false, Option, none, some, List, [], ◌∷◌, ◌==◌, if◌then◌else◌, length, All, update,
  update_self, update_ne, sym, ap, ◌∙◌, inl, inr, Bool-cases, u64, low_bits,
}
use mathlib.Core.Path.{subst}
use miyabi.Mm.Vmm.{PageSource, Vmm, cell, is_present, frame_of}
use miyabi.Mm.Vmm.Walk.{
  Translation, absent, large, page, leaf, via, is_large, entry_of, walk, walk-Leads, indices, Leads,
  Leads-same,
}
use miyabi.Mm.Vmm.Tree.{PageLaws, IsTable, IsTree, IsMapped, cells_apart}
use miyabi.Mm.Vmm.Ensure.Same.{via-cong}

-- The indices from the root: those of the table's place, and then `is`.
unfoldable pub path : List ℕ → List ℕ → List ℕ
path [] is = is
path (i ∷ r) is = path r (i ∷ is)

-- The four indices of an address.
pub record IsIndices (is : List ℕ) : Type 0 where
  pub four : length is ≡ 4
  pub small : All (λ x. x < 512) is

-- Only the address with the indices `is` is translated otherwise, and now by `result`.
pub record Turns (hhdm_offset root : ℕ) (m m' : ℕ → ℕ) (is : List ℕ) (result : Translation)
    : Type 0 where
  pub turned : walk hhdm_offset m' root is ≡ result
  pub others :
      (js : List ℕ)
      → IsIndices js
      → js ≢ is
      → walk hhdm_offset m' root js ≡ walk hhdm_offset m root js

pub indices-IsIndices : (virt : ℕ) → IsIndices (indices virt)
indices-IsIndices virt = record {
  four = refl;
  small = (omega arith, (omega arith, (omega arith, (omega arith, tt))));
}

module _ (f : PageSource) (hhdm_offset : ℕ) (laws : PageLaws f hhdm_offset) (root : ℕ)
    (place : ℕ → Option (List ℕ)) (v : Vmm f hhdm_offset)
    (m : IsMapped f hhdm_offset laws root place v) (pt : ℕ) (p : List ℕ) (i : ℕ)
    (at : place pt ≡ some p) (last : length p ≡ 3) (lt : i < 512) (e : ℕ) where
  abbrev pub written : ℕ → ℕ
  written = update v.memory (cell (u64 (pt + hhdm_offset)) i) e

  written_here : entry_of hhdm_offset written pt i ≡ e
  written_here = update_self v.memory (cell (u64 (pt + hhdm_offset)) i) e

  written_other :
      (u : ℕ) (r : List ℕ) (j : ℕ)
      → place u ≡ some r
      → j < 512
      → (pt ≢ u) ⊎ (i ≢ j)
      → entry_of hhdm_offset written u j ≡ entry_of hhdm_offset v.memory u j
  written_other u r j pu lt' ne =
      update_ne v.memory (cell (u64 (pt + hhdm_offset)) i) e (cell (u64 (u + hhdm_offset)) j)
        (cells_apart hhdm_offset pt u i j (m.tree.table pt p at) (m.tree.table u r pu) lt lt' ne)

  same_place : (u : ℕ) (r : List ℕ) → place u ≡ some r → pt ≡ u → p ≡ r
  same_place u r pu same = let q : some p ≡ some r = sym at ∙ ap place same ∙ pu in cc q

  upper : (u : ℕ) (r : List ℕ) → place u ≡ some r → length r < 3 → pt ≢ u
  upper u r pu len same = let q = ap length (same_place u r pu same) in omega (arith, q)

  written_upper :
      (u : ℕ) (r : List ℕ) (j : ℕ)
      → place u ≡ some r
      → length r < 3
      → j < 512
      → entry_of hhdm_offset written u j ≡ entry_of hhdm_offset v.memory u j
  written_upper u r j pu len lt' = written_other u r j pu lt' (inl (upper u r pu len))

  pub written-Leads :
      (u : ℕ) (r : List ℕ) (j w : ℕ)
      → place u ≡ some r
      → length r < 3
      → j < 512
      → Leads hhdm_offset v.memory u j w
      → Leads hhdm_offset written u j w
  written-Leads u r j w pu len lt' l =
      Leads-same hhdm_offset v.memory written u j w (written_upper u r j pu len lt') l

  pub written-IsMapped : IsMapped f hhdm_offset laws root place (record v { memory = written })
  written-IsMapped = record {
    tree = record {
      at_root = m.tree.at_root;
      table = m.tree.table;
      child = λ u r j pu len lt' a b.
          let s = written_upper u r j pu len lt' in
          rw s (m.tree.child u r j pu len lt' (rw s at a) (rw s at b));
    };
    pml4 = m.pml4;
    apart = m.apart;
  }

  pub written-leaf : walk hhdm_offset written pt (i ∷ []) ≡ leaf e
  unfolding walk
  written-leaf = ap (λ x. leaf x) written_here

  written_last :
      (u : ℕ) (r : List ℕ) (j : ℕ)
      → place u ≡ some r
      → j < 512
      → path r (j ∷ []) ≢ path p (i ∷ [])
      → walk hhdm_offset written u (j ∷ []) ≡ walk hhdm_offset v.memory u (j ∷ [])
  unfolding walk
  written_last u r j pu lt' ne =
      ap (λ x. leaf x)
        (written_other u r j pu lt' (apart (Bool-cases (pt == u)) (Bool-cases (i == j))))
    where
      same : pt ≡ u → i ≡ j → ⊥
      same a b = let q = same_place u r pu a in ne (rw (q, b))

      apart :
          ((pt == u) ≡ true) ⊎ ((pt == u) ≡ false)
          → ((i == j) ≡ true) ⊎ ((i == j) ≡ false)
          → (pt ≢ u) ⊎ (i ≢ j)
      apart (inr a) b = inl (ground arith)
      apart (inl a) (inr b) = inr (ground arith)
      apart (inl a) (inl b) = absurd (same (ground arith) (ground arith))

  pub written_walks :
      (u : ℕ) (r is : List ℕ)
      → place u ≡ some r
      → length r + length is ≡ 4
      → All (λ x. x < 512) is
      → path r is ≢ path p (i ∷ [])
      → walk hhdm_offset written u is ≡ walk hhdm_offset v.memory u is
  unfolding walk path
  written_walks u r [] pu len small ne = refl
  written_walks u r (j ∷ []) pu len small ne = written_last u r j pu small.0 ne
  written_walks u r (j ∷ k ∷ is) pu len small ne =
      next (λ w pw. written_walks w (j ∷ r) (k ∷ is) pw (omega arith) small.1 ne)
    where
      next :
          ((w : ℕ)
            → place w ≡ some (j ∷ r)
            → walk hhdm_offset written w (k ∷ is) ≡ walk hhdm_offset v.memory w (k ∷ is))
          → walk hhdm_offset written u (j ∷ k ∷ is) ≡ walk hhdm_offset v.memory u (j ∷ k ∷ is)
      next below = rw (written_upper u r j pu (omega arith) small.0) (
          via-cong (entry_of hhdm_offset v.memory u j) _ _
            (λ a b. below _ (m.tree.child u r j pu (omega arith) small.0 a b)))
