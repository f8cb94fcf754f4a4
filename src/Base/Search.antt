-- ===== src/Base/Search.antt =====
-- The loop that looks for the first entry of a table that passes a test.
use Prim.Native.Nat.{ℕ, zero, suc, ◌+◌, ◌≤◌, ◌<◌}
use mathlib.Core.Path.{◌≡◌, refl, sym}
use mathlib.Core.Logic.{◌⊎◌, inl, inr}
use mathlib.Core.Bool.{Bool, true, false}
use mathlib.Core.Option.{Option, none, some}
use native.Mathlib.Omega.{arith}
use miyabi.Base.Tests.{◌==◌, if◌then◌else◌, Bool-cases}

-- The first of the `n` entries from `i` on.
unfoldable pub first_from : ℕ → ℕ → (ℕ → Bool) → Option ℕ
first_from zero i test = none
first_from (suc n) i test = let rest = first_from n (i + 1) test in if test i then some i else rest

-- Entry `i` is the first of the `n` entries that passes the test.
pub record IsFirst (test : ℕ → Bool) (n i : ℕ) : Type 0 where
  pub within : i < n
  pub passes : test i ≡ true
  pub earlier : (j : ℕ) → j < i → test j ≡ false

first_from-cases :
    (n i : ℕ) (test : ℕ → Bool)
    → ((first_from n i test ≡ none) × ((j : ℕ) → i ≤ j → j < i + n → test j ≡ false))
      ⊎ ((k : ℕ) × (first_from n i test ≡ some k)
          × (i ≤ k)
          × (k < i + n)
          × (test k ≡ true)
          × ((j : ℕ) → i ≤ j → j < k → test j ≡ false))
unfolding first_from
first_from-cases zero i test = inl (refl, λ j lo hi. absurd (omega arith))
first_from-cases (suc n) i test = elim (Bool-cases (test i)) [
  | inl here ↦ inr (i, rw here, omega arith, omega arith, here, λ j lo hi. absurd (omega arith))
  | inr other ↦ elim (first_from-cases n (i + 1) test) [
    | inl (e, all) ↦ inl (
      rw (other, e),
      λ j lo hi. elim (Bool-cases (i == j)) [
        | inl same ↦ let s : i ≡ j = ground arith in rw (sym s) other
        | inr apart ↦ all j (ground arith) (omega arith)
      ],
    )
    | inr (k, e, lo, hi, passes, before) ↦ inr (
      k,
      rw (other, e),
      omega arith,
      omega arith,
      passes,
      λ j lo' hi'. elim (Bool-cases (i == j)) [
        | inl same ↦ let s : i ≡ j = ground arith in rw (sym s) other
        | inr apart ↦ before j (ground arith) hi'
      ],
    )
  ]
]

pub first_from_lem :
    (n : ℕ) (test : ℕ → Bool)
    → ((first_from n 0 test ≡ none) × ((j : ℕ) → j < n → test j ≡ false))
      ⊎ ((i : ℕ) × (first_from n 0 test ≡ some i) × IsFirst test n i)
first_from_lem n test = elim (first_from-cases n 0 test) [
  | inl (e, all) ↦ inl (e, λ j lt. all j (omega arith) (omega arith))
  | inr (k, e, lo, hi, passes, before) ↦ inr (
    k,
    e,
    record { within = omega arith; passes = passes; earlier = λ j lt. before j (omega arith) lt },
  )
]

-- What a search finds with one more entry behind the others.
abbrev pub or_else : Option ℕ → Bool → ℕ → Option ℕ
or_else (some k) b i = some k
or_else none b i = if b then some i else none

first_from-suc :
    (n i e : ℕ) (test more : ℕ → Bool)
    → e ≡ i + n
    → ((j : ℕ) → j < e → more j ≡ test j)
    → first_from (suc n) i more ≡ or_else (first_from n i test) (more e) e
unfolding first_from
first_from-suc zero i e test more at same = let t : e ≡ i = omega arith in rw t
first_from-suc (suc n) i e test more at same =
    let t : more i ≡ test i = same i (omega arith) in
    elim (Bool-cases (test i)) [
      | inl here ↦ rw (t, here)
      | inr other ↦ rw (t, other) (first_from-suc n (i + 1) e test more (omega arith) same)
    ]

pub first_from-extend :
    (n : ℕ) (test more : ℕ → Bool)
    → ((j : ℕ) → j < n → more j ≡ test j)
    → first_from (suc n) 0 more ≡ or_else (first_from n 0 test) (more n) n
first_from-extend n test more same = first_from-suc n 0 n test more (omega arith) same
