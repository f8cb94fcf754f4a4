-- ===== src/Mm/Pmm/Alloc.antt =====
-- `pmm_alloc`: first fit over the bitmap, and runs of calls.
use miyabi.Base.{
  ℕ, zero, suc, ◌+◌, ◌-◌, ◌*◌, ◌^◌, ◌≤◌, ◌<◌, ◌≡◌, ◌≢◌, ◌⊎◌, inl, inr, refl, arith, true, false,
  ◌||◌, none, some, List, [], ◌∷◌, ◌==◌, Option-cases, All,
}
use miyabi.Mm.Pmm.{Bitmap, Pmm, bitmap_test, find_free, pmm_alloc}
use miyabi.Mm.Pmm.Bitmap.{IsBytes, bitmap_set-IsBytes, test-set}

-- The bitmap holds bytes, and page addresses fit 64 bits.
pub record IsValid (s : Pmm) : Type 0 where
  pub bytes : IsBytes s.bitmap
  pub count : s.page_count ≤ 2 ^ 52

-- Page `p` is the lowest page that `s` has free from `i` on.
pub record IsFirstFree (bitmap : Bitmap) (i p : ℕ) : Type 0 where
  pub from : i ≤ p
  pub free : bitmap_test bitmap p ≡ false
  pub lowest : (q : ℕ) → i ≤ q → q < p → bitmap_test bitmap q ≡ true

module _ (bitmap : Bitmap) where
  find_free-bounds :
      (n i p : ℕ)
      → find_free n i bitmap ≡ some p
      → (i ≤ p) × (p < i + n) × (bitmap_test bitmap p ≡ false)
  unfolding find_free
  find_free-bounds zero i p e = cc
  find_free-bounds (suc n) i p e = ground (arith, find_free-bounds n (i + 1) p)

  find_free-lowest :
      (n i p q : ℕ) → find_free n i bitmap ≡ some p → i ≤ q → q < p → bitmap_test bitmap q ≡ true
  unfolding find_free
  find_free-lowest zero i p q e a b = cc
  find_free-lowest (suc n) i p q e a b =
      ground (arith, find_free-bounds n (i + 1) p, find_free-lowest n (i + 1) p q)

  find_free-none :
      (n i q : ℕ) → find_free n i bitmap ≡ none → i ≤ q → q < i + n → bitmap_test bitmap q ≡ true
  unfolding find_free
  find_free-none zero i q e a b = absurd (omega arith)
  find_free-none (suc n) i q e a b = ground (arith, find_free-none n (i + 1) q)

-- All that a call that finds page `p` does.
pub record Takes (s t : Pmm) (addr p : ℕ) : Type 0 where
  pub first : IsFirstFree s.bitmap 1 p
  pub inside : p < s.page_count
  pub address : addr ≡ p * 4096
  pub frame : t ≡ record s { bitmap = t.bitmap }
  pub pages : (q : ℕ) → bitmap_test t.bitmap q ≡ ((p == q) || bitmap_test s.bitmap q)

-- All that a call that finds none does: every page but page 0 is in use.
pub record Exhausted (s t : Pmm) (addr : ℕ) : Type 0 where
  pub null : addr ≡ 0
  pub frame : t ≡ s
  pub full : (q : ℕ) → 1 ≤ q → q < s.page_count → bitmap_test s.bitmap q ≡ true

abbrev pub Outcome : Pmm → ℕ × Pmm → Type 0
Outcome s (addr, t) = ((p : ℕ) × Takes s t addr p) ⊎ Exhausted s t addr

-- For a valid bitmap, `pmm_alloc` either returns NULL, changes nothing and every page from page 1
-- on is in use, or it returns the address of the lowest free page from page 1 on, which is below
-- `page_count`, marks that page used, and changes no other page and no other variable.
pub pmm_alloc_lem : (s : Pmm) → IsValid s → Outcome s (pmm_alloc s)
unfolding pmm_alloc
pmm_alloc_lem s v = elim (Option-cases (find_free (s.page_count - 1) 1 s.bitmap)) [
  | inl e ↦
      rw (e, pmm_alloc)
        (inr (record {
          null = refl;
          frame = refl;
          full = λ q a b. find_free-none s.bitmap (s.page_count - 1) 1 q e a (omega arith);
        }))
  | inr (p, e) ↦
      let b = find_free-bounds s.bitmap (s.page_count - 1) 1 p e in
      rw (e, pmm_alloc)
        (inl (
          p,
          record {
            first = record {
              from = b.0;
              free = b.2;
              lowest = λ q. find_free-lowest s.bitmap (s.page_count - 1) 1 p q e;
            };
            inside = omega (arith, b.0, b.1);
            address = omega (arith, b.1, v.count);
            frame = refl;
            pages = test-set v.bytes p;
          },
        ))
]

pub pmm_alloc-IsValid : {s : Pmm} → IsValid s → IsValid (pmm_alloc s).1
unfolding pmm_alloc
pmm_alloc-IsValid {s} v = elim (Option-cases (find_free (s.page_count - 1) 1 s.bitmap)) [
  | inl e ↦ rw (e, pmm_alloc) v
  | inr (p, e) ↦
      rw (e, pmm_alloc) (record { bytes = bitmap_set-IsBytes v.bytes p; count = v.count })
]

-- The addresses that `n` calls return.
unfoldable pub alloc_run : ℕ → Pmm → List ℕ
alloc_run zero s = []
alloc_run (suc n) s = let (addr, t) = pmm_alloc s in addr ∷ alloc_run n t

-- No address but NULL occurs twice.
abbrev pub Distinct : List ℕ → Type 0
Distinct [] = Unit
Distinct (a ∷ xs) = ((a ≡ 0) ⊎ All (λ b. b ≢ a) xs) × Distinct xs

alloc-avoids_step :
    (s : Pmm) (p : ℕ)
    → IsValid s
    → bitmap_test s.bitmap p ≡ true
    → 1 ≤ p
    → ((pmm_alloc s).0 ≢ p * 4096) × (bitmap_test (pmm_alloc s).1.bitmap p ≡ true)
alloc-avoids_step s p v used pos = elim (pmm_alloc_lem s v) [
  | inl (q, t) ↦ ground (arith, t.first.free, t.address, t.pages p)
  | inr full ↦ ground (arith, full.null, full.frame)
]

pub alloc_run-avoids :
    (n : ℕ) (s : Pmm) (p : ℕ)
    → IsValid s
    → bitmap_test s.bitmap p ≡ true
    → 1 ≤ p
    → All (λ b. b ≢ p * 4096) (alloc_run n s)
unfolding alloc_run
alloc_run-avoids zero s p v used pos = tt
alloc_run-avoids (suc n) s p v used pos =
    let step = alloc-avoids_step s p v used pos in
    (step.0, alloc_run-avoids n (pmm_alloc s).1 p (pmm_alloc-IsValid v) step.1 pos)

-- However often `pmm_alloc` is called on a valid bitmap, no page is handed out twice.
pub alloc_run-Distinct : (n : ℕ) (s : Pmm) → IsValid s → Distinct (alloc_run n s)
unfolding alloc_run
alloc_run-Distinct zero s v = tt
alloc_run-Distinct (suc n) s v =
    (first (pmm_alloc_lem s v), alloc_run-Distinct n (pmm_alloc s).1 (pmm_alloc-IsValid v))
  where
    first :
        Outcome s (pmm_alloc s)
        → ((pmm_alloc s).0 ≡ 0) ⊎ All (λ b. b ≢ (pmm_alloc s).0) (alloc_run n (pmm_alloc s).1)
    first (inr full) = inl full.null
    first (inl (p, t)) = inr (
        rw t.address (
          alloc_run-avoids n (pmm_alloc s).1 p (pmm_alloc-IsValid v) (ground (arith, t.pages p))
            t.first.from))
