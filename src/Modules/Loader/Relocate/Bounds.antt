-- ===== src/Modules/Loader/Relocate/Bounds.antt =====
-- Relocations write to sections that take memory, and nowhere else.
use miyabi.Base.{
  ℕ, ◌+◌, ◌-◌, ◌*◌, ◌^◌, ◌≤◌, ◌<◌, ◌≡◌, ◌⊎◌, arith, true, false, ◌||◌, ◌==◌, ltb, if◌then◌else◌,
  none, some, sym, inl, inr, Bool-cases, u32, u64, sub64, List,
}
use miyabi.Modules.Elf.{Memory, store, shdr, sh_addr, sh_size, is_alloc, r_offset, r_addend}
use miyabi.Modules.Ksym.{KernelSymbol}
use miyabi.Modules.Loader.Relocate.{File, patch}

pub is_some : {x : Memory} {y : Memory} → some x ≡ some y → x ≡ y
is_some e = cc

pub not_some : {y : Memory} → none ≡ some y → ⊥
not_some e = cc

-- A patch of `n` bytes, or none, inside the section.
pub record PatchedAt (target rela : ℕ) (w w' : Memory) : Type 0 where
  pub n : ℕ
  pub value : ℕ
  pub fits : r_offset w rela + n ≤ sh_size w target
  pub small : 0 < n
  pub result : w' ≡ store n w (u64 (sh_addr w target + r_offset w rela)) value

pub patch_cases :
    (target rela t v : ℕ) (w w' : Memory)
    → patch target rela t v w ≡ some w'
    → (w ≡ w') ⊎ PatchedAt target rela w w'
unfolding patch
patch_cases target rela t v w w' e = elim (Bool-cases (t == 0)) [
  | inl z ↦ inl (is_some (rw z at e))
  | inr z ↦ elim (Bool-cases (ltb size off || ltb (size - off) (if t == 1 then 8 else 4))) [
    | inl out ↦ absurd (not_some (rw (z, out) at e))
    | inr inside ↦ elim (Bool-cases (t == 1)) [
      | inl one ↦
          let q = rw one at inside in
          inr (record {
            n = 8;
            value = u64 (v + r_addend w rela);
            fits = sums 8 q;
            small = omega arith;
            result = sym (is_some (rw (z, one, q) at e));
          })
      | inr one ↦
          let q = rw one at inside in
          elim (Bool-cases (t == 2 || t == 4)) [
            | inl pc ↦ inr (record {
              n = 4;
              value = u32 (sub64 (u64 (v + r_addend w rela)) (u64 (sh_addr w target + off)));
              fits = sums 4 q;
              small = omega arith;
              result = sym (is_some (rw (z, one, q, pc) at e));
            })
            | inr pc ↦ elim (Bool-cases (t == 10 || t == 11)) [
              | inl abs ↦ inr (record {
                n = 4;
                value = u32 (u64 (v + r_addend w rela));
                fits = sums 4 q;
                small = omega arith;
                result = sym (is_some (rw (z, one, q, pc, abs) at e));
              })
              | inr abs ↦ absurd (not_some (rw (z, one, q, pc, abs) at e))
            ]
          ]
    ]
  ]
]
  where
    size : ℕ
    size = sh_size w target

    off : ℕ
    off = r_offset w rela

    sums : (n : ℕ) → (ltb size off || ltb (size - off) n) ≡ false → off + n ≤ size
    sums n h = ground arith

module _ (table : List KernelSymbol) (f : File) (m : Memory) where
  -- `a` is in no section that takes memory.
  abbrev pub Outside : ℕ → Type 0
  Outside a =
      (j : ℕ)
      → j < f.shnum
      → is_alloc m (shdr f.shdrs j) ≡ true
      → (a < sh_addr m (shdr f.shdrs j))
        ⊎ (sh_addr m (shdr f.shdrs j) + sh_size m (shdr f.shdrs j) ≤ a)

  -- The section headers are in no section that takes memory, and no section wraps around.
  pub record HeadersApart : Type 0 where
    pub apart : (a : ℕ) → f.shdrs ≤ a → a < f.shdrs + 64 * f.shnum → Outside a
    pub reached :
        (j : ℕ)
        → j < f.shnum
        → is_alloc m (shdr f.shdrs j) ≡ true
        → sh_addr m (shdr f.shdrs j) + sh_size m (shdr f.shdrs j) ≤ 2 ^ 64

  abbrev pub Kept : Memory → Type 0
  Kept w = (a : ℕ) → Outside a → w a ≡ m a
