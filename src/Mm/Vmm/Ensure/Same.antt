-- ===== src/Mm/Vmm/Ensure/Same.antt =====
-- When a change of one entry above the last level leaves every translation as it is.
use miyabi.Base.{
  ℕ, ◌+◌, ◌%◌, ◌/◌, bit_or, ◌<◌, ◌≡◌, ◌≢◌, ◌⊎◌, refl, arith, true, false, Option, some, List, [],
  ◌∷◌, ◌==◌, length, All, sym, ap, ◌∙◌, inl, inr, Bool-cases, low_bits,
}
use mathlib.Core.Path.{subst}
use miyabi.Base.Bits.{bit_or_six, bit_or_seven}
use miyabi.Mm.Vmm.{is_present, frame_of}
use miyabi.Mm.Vmm.Walk.{Translation, absent, via, is_large, entry_of, walk}
use miyabi.Mm.Vmm.Tree.{IsTree}

-- `entry | PTE_USER | PTE_WRITE` leads where `entry` led.
pub marked_present : (e : ℕ) → is_present (bit_or e 6) ≡ is_present e
marked_present e =
    let b = bit_or_six e in
    let s : low_bits (bit_or e 6) 1 ≡ low_bits e 1 = omega arith in ap (λ x. x == 1) s

pub marked_large : (e : ℕ) → is_large (bit_or e 6) ≡ is_large e
marked_large e =
    let b = bit_or_six e in
    let s : bit_or e 6 / 128 % 2 ≡ e / 128 % 2 = omega arith in ap (λ x. x == 1) s

pub marked_frame : (e : ℕ) → frame_of (bit_or e 6) ≡ frame_of e
marked_frame e = let b = bit_or_six e in omega arith

-- `page | PTE_PRESENT | PTE_WRITE | PTE_USER` leads to the page.
pub linked_present : (e : ℕ) → is_present (bit_or e 7) ≡ true
linked_present e =
    let b = bit_or_seven e in
    let s : low_bits (bit_or e 7) 1 ≡ 1 = omega arith in ap (λ x. x == 1) s

pub linked_large : (e : ℕ) → e % 4096 ≡ 0 → is_large (bit_or e 7) ≡ false
linked_large e h =
    let b = bit_or_seven e in let s : bit_or e 7 / 128 % 2 ≡ 0 = omega arith in ap (λ x. x == 1) s

pub linked_frame : (e : ℕ) → e % 4096 ≡ 0 → frame_of (bit_or e 7) ≡ e
linked_frame e h = let b = bit_or_seven e in omega arith

pub via-cong :
    (e : ℕ) (a b : Translation)
    → (is_present e ≡ true → is_large e ≡ false → a ≡ b)
    → via e a ≡ via e b
via-cong e a b h = elim (Bool-cases (is_present e)) [
  | inr no_entry ↦ rw (via, no_entry)
  | inl some_entry ↦ elim (Bool-cases (is_large e)) [
    | inl big ↦ rw (via, some_entry, big)
    | inr small ↦ rw (via, some_entry, small) (h some_entry small)
  ]
]

pub via-table : (e : ℕ) (a : Translation) → is_present e ≡ true → is_large e ≡ false → via e a ≡ a
via-table e a h k = rw (via, h, k)

pub via-absent : (e : ℕ) (a : Translation) → is_present e ≡ false → via e a ≡ absent
via-absent e a h = rw (via, h)

module _ (hhdm_offset : ℕ) (m m' : ℕ → ℕ) (root : ℕ) (place : ℕ → Option (List ℕ))
    (tree : IsTree hhdm_offset m root place) (t : ℕ) (p : List ℕ) (i : ℕ) (at : place t ≡ some p)
    (short : length p < 3)
    (others : (u : ℕ) (r : List ℕ) (j : ℕ)
      → place u ≡ some r
      → j < 512
      → (t ≢ u) ⊎ (i ≢ j)
      → entry_of hhdm_offset m' u j ≡ entry_of hhdm_offset m u j)
    (here : (k : ℕ) (is : List ℕ)
      → All (λ x. x < 512) (k ∷ is)
      → (is_present (entry_of hhdm_offset m t i) ≡ true
          → is_large (entry_of hhdm_offset m t i) ≡ false
          → walk hhdm_offset m' (frame_of (entry_of hhdm_offset m t i)) (k ∷ is)
            ≡ walk hhdm_offset m (frame_of (entry_of hhdm_offset m t i)) (k ∷ is))
      → walk hhdm_offset m' t (i ∷ k ∷ is) ≡ walk hhdm_offset m t (i ∷ k ∷ is)) where
  same_leaf :
      (u : ℕ) (r : List ℕ) (j : ℕ)
      → place u ≡ some r
      → j < 512
      → length r ≡ 3
      → walk hhdm_offset m' u (j ∷ []) ≡ walk hhdm_offset m u (j ∷ [])
  unfolding walk
  same_leaf u r j pu lt len = rw (others u r j pu lt (inl apart))
    where
      apart : t ≢ u
      apart e =
          let same : some p ≡ some r = sym at ∙ ap place e ∙ pu in
          let q : p ≡ r = cc same in omega (arith, ap length q)

  pub walk-same :
      (u : ℕ) (r is : List ℕ)
      → place u ≡ some r
      → length r + length is ≡ 4
      → All (λ x. x < 512) is
      → walk hhdm_offset m' u is ≡ walk hhdm_offset m u is
  unfolding walk
  walk-same u r [] pu len small = refl
  walk-same u r (j ∷ []) pu len small = same_leaf u r j pu small.0 (omega arith)
  walk-same u r (j ∷ k ∷ is) pu len small =
      next (λ w pw. walk-same w (j ∷ r) (k ∷ is) pw (omega arith) small.1)
    where
      Below : Type 0
      Below =
          (w : ℕ)
          → place w ≡ some (j ∷ r)
          → walk hhdm_offset m' w (k ∷ is) ≡ walk hhdm_offset m w (k ∷ is)

      down :
          Below
          → is_present (entry_of hhdm_offset m u j) ≡ true
          → is_large (entry_of hhdm_offset m u j) ≡ false
          → walk hhdm_offset m' (frame_of (entry_of hhdm_offset m u j)) (k ∷ is)
            ≡ walk hhdm_offset m (frame_of (entry_of hhdm_offset m u j)) (k ∷ is)
      down below a b = below _ (tree.child u r j pu (omega arith) small.0 a b)

      aside :
          Below
          → (t ≢ u) ⊎ (i ≢ j)
          → walk hhdm_offset m' u (j ∷ k ∷ is) ≡ walk hhdm_offset m u (j ∷ k ∷ is)
      aside below ne =
          rw (others u r j pu small.0 ne) (via-cong (entry_of hhdm_offset m u j) _ _ (down below))

      next : Below → walk hhdm_offset m' u (j ∷ k ∷ is) ≡ walk hhdm_offset m u (j ∷ k ∷ is)
      next below = elim (Bool-cases (t == u)) [
        | inr apart ↦ aside below (inl (ground arith))
        | inl same ↦ elim (Bool-cases (i == j)) [
          | inr apart ↦ aside below (inr (ground arith))
          | inl same' ↦
              let e : t ≡ u = ground arith in
              let e' : i ≡ j = ground arith in
              subst (λ x. walk hhdm_offset m' x (j ∷ k ∷ is) ≡ walk hhdm_offset m x (j ∷ k ∷ is)) e
                (subst (λ x. walk hhdm_offset m' t (x ∷ k ∷ is) ≡ walk hhdm_offset m t (x ∷ k ∷ is))
                  e'
                  (here k is small.1 (
                    subst
                      (λ x.
                        is_present (entry_of hhdm_offset m t x) ≡ true
                        → is_large (entry_of hhdm_offset m t x) ≡ false
                        → walk hhdm_offset m' (frame_of (entry_of hhdm_offset m t x)) (k ∷ is)
                          ≡ walk hhdm_offset m (frame_of (entry_of hhdm_offset m t x)) (k ∷ is))
                      (sym e')
                      (subst
                        (λ x.
                          is_present (entry_of hhdm_offset m x j) ≡ true
                          → is_large (entry_of hhdm_offset m x j) ≡ false
                          → walk hhdm_offset m' (frame_of (entry_of hhdm_offset m x j)) (k ∷ is)
                            ≡ walk hhdm_offset m (frame_of (entry_of hhdm_offset m x j)) (k ∷ is))
                        (sym e) (down below)))))
        ]
      ]
