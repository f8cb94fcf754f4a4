-- ===== src/Mm/Vmm/Frames.antt =====
-- The pages that src/mm/vmm.c takes are those of `pmm_alloc` of src/mm/pmm.c.
use miyabi.Base.{
  ℕ, ◌+◌, ◌*◌, ◌^◌, ◌≤◌, ◌<◌, ◌≡◌, ◌≢◌, arith, Bool, true, false, ◌==◌, ◌||◌, ap, sym, ◌∙◌, inl,
  inr,
}
use miyabi.Mm.Pmm.{Pmm, bitmap_test, pmm_alloc}
use miyabi.Mm.Pmm.Alloc.{IsValid, pmm_alloc_lem, pmm_alloc-IsValid}
use miyabi.Mm.Vmm.{PageSource}
use miyabi.Mm.Vmm.Tree.{PageLaws}

-- A valid bitmap, whose pages the direct map reaches.
pub record Pages (hhdm_offset : ℕ) : Type 0 where
  pub pmm : Pmm
  pub valid : IsValid pmm
  pub fits : pmm.page_count * 4096 + hhdm_offset ≤ 2 ^ 64

pub page_count_same : (s : Pmm) → IsValid s → (pmm_alloc s).1.page_count ≡ s.page_count
page_count_same s v = elim (pmm_alloc_lem s v) [
  | inl (p, t) ↦ ap (λ x. x.page_count) t.frame
  | inr t ↦ ap (λ x. x.page_count) t.frame
]

abbrev pub take_page : {hhdm_offset : ℕ} → Pages hhdm_offset → ℕ × Pages hhdm_offset
take_page {hhdm_offset} s = (
  (pmm_alloc s.pmm).0,
  record {
    pmm = (pmm_alloc s.pmm).1;
    valid = pmm_alloc-IsValid s.valid;
    fits = omega (arith, page_count_same s.pmm s.valid, s.fits);
  },
)

abbrev pub pmm_source : ℕ → PageSource
pmm_source hhdm_offset = record { State = Pages hhdm_offset; alloc = take_page }

-- The page of number `p`, other than page 0, is free.
pub record IsFree (s : Pmm) (a p : ℕ) : Type 0 where
  pub address : a ≡ p * 4096
  pub above : 1 ≤ p
  pub inside : p < s.page_count
  pub free : bitmap_test s.bitmap p ≡ false

abbrev pub FreePage : Pmm → ℕ → Type 0
FreePage s a = (p : ℕ) × IsFree s a p

module _ (s : Pmm) (v : IsValid s) where
  alloc_given : (pmm_alloc s).0 ≢ 0 → FreePage s (pmm_alloc s).0
  alloc_given ne = elim (pmm_alloc_lem s v) [
    | inr t ↦ absurd (ne t.null)
    | inl (p, t) ↦ (
      p,
      record { address = t.address; above = t.first.from; inside = t.inside; free = t.first.free },
    )
  ]

  -- A page that is free afterwards is another than the one taken.
  alloc_taken : (a : ℕ) → FreePage (pmm_alloc s).1 a → FreePage s a
  alloc_taken a (q, h) = elim (pmm_alloc_lem s v) [
    | inr t ↦ (
      q,
      record {
        address = h.address;
        above = h.above;
        inside = omega (arith, page_count_same s v, h.inside);
        free = ap (λ x. bitmap_test x.bitmap q) (sym t.frame) ∙ h.free;
      },
    )
    | inl (p, t) ↦ (
      q,
      record {
        address = h.address;
        above = h.above;
        inside = omega (arith, page_count_same s v, h.inside);
        free = second (p == q) _ (sym (t.pages q) ∙ h.free);
      },
    )
  ]
    where
      second : (a b : Bool) → (a || b) ≡ false → b ≡ false
      second false b e = e
      second true b e = absurd (ground arith)

  alloc_not_given : (pmm_alloc s).0 ≢ 0 → FreePage (pmm_alloc s).1 (pmm_alloc s).0 → ⊥
  alloc_not_given ne (q, h) = elim (pmm_alloc_lem s v) [
    | inr t ↦ ne t.null
    | inl (p, t) ↦
        let same : p ≡ q = omega (arith, t.address, h.address) in
        let used = t.pages q in let free = h.free in ground arith
  ]

pub pmm_source-laws : (hhdm_offset : ℕ) → PageLaws (pmm_source hhdm_offset) hhdm_offset
pmm_source-laws hhdm_offset = record {
  Free = λ s a. FreePage s.pmm a;
  given = λ s. alloc_given s.pmm s.valid;
  taken = λ s. alloc_taken s.pmm s.valid;
  not_given = λ s. alloc_not_given s.pmm s.valid;
  aligned = λ s a (p, h). omega (arith, h.address);
  reached = λ s a (p, h). omega (arith, h.address, h.inside, s.fits);
}

pub free_page :
    (hhdm_offset : ℕ) (s : Pages hhdm_offset) (a : ℕ)
    → (pmm_source-laws hhdm_offset).Free s a
    → FreePage s.pmm a
unfolding pmm_source-laws
free_page hhdm_offset s a h = h
