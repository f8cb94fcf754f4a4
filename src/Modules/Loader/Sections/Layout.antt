-- ===== src/Modules/Loader/Sections/Layout.antt =====
-- Where the sections go: the offsets that both loops of `load_module` come to, and what the second
-- loop writes.
use miyabi.Base.{
  ℕ, zero, suc, ◌+◌, ◌^◌, ◌≤◌, ◌<◌, ◌≡◌, arith, Bool, true, false, not, ◌&&◌, ◌==◌, if◌then◌else◌,
  Option, none, some, inl, inr, Bool-cases, u64,
}
use miyabi.Modules.Elf.{Memory, shdr, sh_type, sh_size, sh_addralign, is_alloc, sht_nobits}
use miyabi.Modules.Loader.Sections.{align_offset, is_outside, measure}

-- The offset of a section after the offset `offset`, and the offset after it.
abbrev pub start_at : Memory → ℕ → ℕ → ℕ
start_at m s offset = align_offset offset (sh_addralign m s)

abbrev pub next_offset : Memory → ℕ → ℕ → ℕ
next_offset m s offset = if is_alloc m s then u64 (start_at m s offset + sh_size m s) else offset

-- The offset after `n` sections from section `i` on.
unfoldable pub offset_after : ℕ → ℕ → ℕ → Memory → ℕ → ℕ
offset_after zero i offset m shdrs = offset
offset_after (suc n) i offset m shdrs =
    offset_after n (i + 1) (next_offset m (shdr shdrs i) offset) m shdrs

-- No offset wraps around, and none is aligned downwards.
unfoldable pub Grows : ℕ → ℕ → ℕ → Memory → ℕ → Type 0
Grows zero i offset m shdrs = Unit
Grows (suc n) i offset m shdrs =
    (is_alloc m (shdr shdrs i) ≡ true
      → (offset ≤ start_at m (shdr shdrs i) offset)
        × (start_at m (shdr shdrs i) offset + sh_size m (shdr shdrs i) < 2 ^ 64))
    × Grows n (i + 1) (next_offset m (shdr shdrs i) offset) m shdrs

-- The sum of the first loop is the offset that the second one ends with.
pub measure-offset_after :
    (n i offset : ℕ) (m : Memory) (shdrs file_size total : ℕ)
    → measure n i offset m shdrs file_size ≡ some total
    → offset_after n i offset m shdrs ≡ total
unfolding measure offset_after
measure-offset_after zero i offset m shdrs file_size total e = cc
measure-offset_after (suc n) i offset m shdrs file_size total e =
    elim (Bool-cases (is_alloc m (shdr shdrs i))) [
      | inr skipped ↦
          rw (next_offset, skipped)
            (measure-offset_after n (i + 1) offset m shdrs file_size total (rw skipped at e))
      | inl alloc ↦
          rw (next_offset, alloc)
            (measure-offset_after n (i + 1)
              (u64 (start_at m (shdr shdrs i) offset + sh_size m (shdr shdrs i))) m shdrs file_size
              total
              (counted
                (not (sh_type m (shdr shdrs i) == sht_nobits)
                  && is_outside m (shdr shdrs i) file_size)
                (rw alloc at e)))
    ]
  where
    counted : {x : Option ℕ} (b : Bool) → (if b then none else x) ≡ some total → x ≡ some total
    counted true h = cc
    counted false h = h

next_grows :
    (m : Memory) (s offset : ℕ)
    → (is_alloc m s ≡ true
        → (offset ≤ start_at m s offset) × (start_at m s offset + sh_size m s < 2 ^ 64))
    → offset ≤ next_offset m s offset
next_grows m s offset h = elim (Bool-cases (is_alloc m s)) [
  | inr skipped ↦ rw (next_offset, skipped) (omega arith)
  | inl alloc ↦ rw (next_offset, alloc) (omega (arith, h alloc))
]

pub after_least :
    (n i offset : ℕ) (m : Memory) (shdrs : ℕ)
    → Grows n i offset m shdrs
    → offset ≤ offset_after n i offset m shdrs
unfolding Grows offset_after
after_least zero i offset m shdrs g = omega arith
after_least (suc n) i offset m shdrs g = omega (
  arith,
  next_grows m (shdr shdrs i) offset g.0,
  after_least n (i + 1) (next_offset m (shdr shdrs i) offset) m shdrs g.1,
)
