-- ===== src/Modules/Loader/Relocate/Value.antt =====
-- What a relocation makes of its place, by the formulas of the ABI for x86-64.
use miyabi.Base.{
  ℕ, ◌+◌, ◌-◌, ◌%◌, ◌^◌, ◌<◌, ◌≡◌, refl, arith, Bool, true, false, ◌||◌, ◌==◌, ltb, if◌then◌else◌,
  none, some, sym, ap, ◌∙◌, inl, inr, Bool-cases, u32, u64, sub64,
}
use mathlib.Core.Path.{subst}
use miyabi.Modules.Elf.{Memory, load, store, sh_addr, sh_size, r_offset, r_addend}
use miyabi.Modules.Elf.Bytes.{load-store}
use miyabi.Modules.Loader.Relocate.{patch}
use miyabi.Modules.Loader.Relocate.Bounds.{is_some, not_some}

-- `place` holds the relocation of type `t` of the value `s` with the addend `a` at the address `p`:
-- nothing for R_X86_64_NONE, S + A in 64 bits for R_X86_64_64, S + A - P in 32 bits for
-- R_X86_64_PC32 and R_X86_64_PLT32, S + A in 32 bits for R_X86_64_32 and R_X86_64_32S.
pub data Relocated (w w' : Memory) (s a p : ℕ) : ℕ → Type 0 where
  none_done : w' ≡ w → Relocated w w' s a p 0
  direct64 : load 8 w' p ≡ (s + a) % 2 ^ 64 → Relocated w w' s a p 1
  pc32 : (load 4 w' p + p) % 2 ^ 32 ≡ (s + a) % 2 ^ 32 → Relocated w w' s a p 2
  plt32 : (load 4 w' p + p) % 2 ^ 32 ≡ (s + a) % 2 ^ 32 → Relocated w w' s a p 4
  direct32 : load 4 w' p ≡ (s + a) % 2 ^ 32 → Relocated w w' s a p 10
  direct32s : load 4 w' p ≡ (s + a) % 2 ^ 32 → Relocated w w' s a p 11

module _ (w : Memory) (s a p : ℕ) where
  abbrev relative : ℕ
  relative = u32 (sub64 (u64 (s + a)) p)

  abbrev direct : ℕ
  direct = u32 (u64 (s + a))

  stored_relative : p < 2 ^ 64 → (load 4 (store 4 w p relative) p + p) % 2 ^ 32 ≡ (s + a) % 2 ^ 32
  stored_relative lt = let e = load-store 4 w p relative (omega arith) in omega (arith, e, lt)

  stored_direct : load 4 (store 4 w p direct) p ≡ (s + a) % 2 ^ 32
  stored_direct = let e = load-store 4 w p direct (omega arith) in omega (arith, e)

passed : {x w' : Memory} (b : Bool) → (if b then none else some x) ≡ some w' → x ≡ w'
passed true e = absurd (not_some e)
passed false e = is_some e

module _ (target rela s : ℕ) (w w' : Memory) where
  abbrev place : ℕ
  place = u64 (sh_addr w target + r_offset w rela)

  abbrev Outcome : ℕ → Type 0
  Outcome t = Relocated w w' s (r_addend w rela) place t

  abbrev too_long : ℕ → Bool
  too_long size =
      ltb (sh_size w target) (r_offset w rela) || ltb (sh_size w target - r_offset w rela) size

  known :
      (t n v : ℕ)
      → ((patch target rela t s w ≡ (if too_long n then none else some (store n w place v))))
      → patch target rela t s w ≡ some w'
      → store n w place v ≡ w'
  known t n v e q = passed (too_long n) (sym e ∙ q)

  at_type :
      (t k : ℕ)
      → (t == k) ≡ true
      → (patch target rela k s w ≡ some w' → Outcome k)
      → patch target rela t s w ≡ some w'
      → Outcome t
  at_type t k h go e =
      let same : t ≡ k = ground arith in
      subst Outcome (sym same) (go (subst (λ x. patch target rela x s w ≡ some w') same e))

  type_none : patch target rela 0 s w ≡ some w' → Outcome 0
  unfolding patch
  type_none e = none_done (sym (is_some e))

  type_64 : patch target rela 1 s w ≡ some w' → Outcome 1
  unfolding patch
  type_64 e = direct64 (
      ap (λ x. load 8 x place) (sym (known 1 8 (u64 (s + r_addend w rela)) refl e))
      ∙ load-store 8 w place (u64 (s + r_addend w rela)) (omega arith))

  type_pc32 : patch target rela 2 s w ≡ some w' → Outcome 2
  unfolding patch
  type_pc32 e = pc32 (
      ap (λ x. (load 4 x place + place) % 2 ^ 32)
        (sym (known 2 4 (relative w s (r_addend w rela) place) refl e))
      ∙ stored_relative w s (r_addend w rela) place (omega arith))

  type_plt32 : patch target rela 4 s w ≡ some w' → Outcome 4
  unfolding patch
  type_plt32 e = plt32 (
      ap (λ x. (load 4 x place + place) % 2 ^ 32)
        (sym (known 4 4 (relative w s (r_addend w rela) place) refl e))
      ∙ stored_relative w s (r_addend w rela) place (omega arith))

  type_32 : patch target rela 10 s w ≡ some w' → Outcome 10
  unfolding patch
  type_32 e = direct32 (
      ap (λ x. load 4 x place) (sym (known 10 4 (direct w s (r_addend w rela) place) refl e))
      ∙ stored_direct w s (r_addend w rela) place)

  type_32s : patch target rela 11 s w ≡ some w' → Outcome 11
  unfolding patch
  type_32s e = direct32s (
      ap (λ x. load 4 x place) (sym (known 11 4 (direct w s (r_addend w rela) place) refl e))
      ∙ stored_direct w s (r_addend w rela) place)

  -- All other types are refused.
  type_other :
      (t : ℕ)
      → (t == 0) ≡ false
      → (t == 1) ≡ false
      → (t == 2) ≡ false
      → (t == 4) ≡ false
      → (t == 10) ≡ false
      → (t == 11) ≡ false
      → patch target rela t s w ≡ some w'
      → ⊥
  unfolding patch
  type_other t a b c d e f q = refused (too_long 4) (rw (a, b, c, d, e, f) at q)
    where
      refused : {x : Memory} (long : Bool) → (if long then none else none) ≡ some x → ⊥
      refused true h = not_some h
      refused false h = not_some h

-- A relocation that `patch` accepts has its formula's value at its place, and its type is one of
-- the six that the code names.
pub patch-Relocated :
    (target rela t s : ℕ) (w w' : Memory)
    → patch target rela t s w ≡ some w'
    → Relocated w w' s (r_addend w rela) (u64 (sh_addr w target + r_offset w rela)) t
patch-Relocated target rela t s w w' e = elim (Bool-cases (t == 0)) [
  | inl h ↦ at_type target rela s w w' t 0 h (type_none target rela s w w') e
  | inr n0 ↦ elim (Bool-cases (t == 1)) [
    | inl h ↦ at_type target rela s w w' t 1 h (type_64 target rela s w w') e
    | inr n1 ↦ elim (Bool-cases (t == 2)) [
      | inl h ↦ at_type target rela s w w' t 2 h (type_pc32 target rela s w w') e
      | inr n2 ↦ elim (Bool-cases (t == 4)) [
        | inl h ↦ at_type target rela s w w' t 4 h (type_plt32 target rela s w w') e
        | inr n4 ↦ elim (Bool-cases (t == 10)) [
          | inl h ↦ at_type target rela s w w' t 10 h (type_32 target rela s w w') e
          | inr n10 ↦ elim (Bool-cases (t == 11)) [
            | inl h ↦ at_type target rela s w w' t 11 h (type_32s target rela s w w') e
            | inr n11 ↦ absurd (type_other target rela s w w' t n0 n1 n2 n4 n10 n11 e)
          ]
        ]
      ]
    ]
  ]
]
