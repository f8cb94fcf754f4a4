-- ===== src/Modules/Loader/Sections/Measured.antt =====
-- The two loops of `load_module` on the sections together.
use miyabi.Base.{
  ℕ, zero, suc, ◌+◌, ◌-◌, ◌≤◌, ◌<◌, ◌≡◌, ◌≢◌, refl, arith, Bool, true, false, not, ◌&&◌, ◌||◌, ◌==◌,
  ltb, if◌then◌else◌, Option, none, some, sym, inl, inr, Bool-cases,
}
use mathlib.Core.Path.{subst}
use miyabi.Base.Run.{Ends}
use miyabi.Modules.Elf.{Memory, e_shnum, shdr, sh_type, sh_offset, sh_size, is_alloc, sht_nobits}
use miyabi.Modules.Loader.Sections.{is_outside, measure, place_sections}
use miyabi.Modules.Loader.Sections.Layout.{offset_after, Grows, measure-offset_after}
use miyabi.Modules.Loader.Sections.Step.{Image}
use miyabi.Modules.Loader.Sections.Placed.{Placed}
use miyabi.Modules.Loader.Sections.Loop.{place_sections-Placed}

-- A section that takes memory and has passed the first loop is in the file.
measure_inside :
    (n i offset : ℕ) (m : Memory) (shdrs file_size total : ℕ)
    → measure n i offset m shdrs file_size ≡ some total
    → (j : ℕ) → i ≤ j
    → j < i + n
    → is_alloc m (shdr shdrs j) ≡ true
    → sh_type m (shdr shdrs j) ≢ sht_nobits
    → sh_offset m (shdr shdrs j) + sh_size m (shdr shdrs j) ≤ file_size
unfolding measure
measure_inside zero i offset m shdrs file_size total e j lo hi alloc z = absurd (omega arith)
measure_inside (suc n) i offset m shdrs file_size total e j lo hi alloc z =
    go (λ o h lo'. measure_inside n (i + 1) o m shdrs file_size total h j lo' (omega arith) alloc z)
  where
    s : ℕ
    s = shdr shdrs i

    counted :
        {x : Option ℕ} (b : Bool)
        → (if b then none else x) ≡ some total
        → (b ≡ false) × (x ≡ some total)
    counted true h = cc
    counted false h = (refl, h)

    sums :
        (t o l : ℕ)
        → (not (t == 8) && (ltb file_size o || ltb (file_size - o) l)) ≡ false
        → t ≢ 8
        → o + l ≤ file_size
    sums t o l h ne = ground arith

    go :
        ((o : ℕ)
          → measure n (i + 1) o m shdrs file_size ≡ some total
          → i + 1 ≤ j
          → sh_offset m (shdr shdrs j) + sh_size m (shdr shdrs j) ≤ file_size)
        → sh_offset m (shdr shdrs j) + sh_size m (shdr shdrs j) ≤ file_size
    go later = elim (Bool-cases (i == j)) [
      | inl here ↦
          let same : i ≡ j = ground arith in
          let al : is_alloc m (shdr shdrs i) ≡ true =
            subst (λ x. is_alloc m (shdr shdrs x) ≡ true) (sym same) alloc in
          subst (λ x. sh_offset m (shdr shdrs x) + sh_size m (shdr shdrs x) ≤ file_size) same
            (sums (sh_type m (shdr shdrs i)) (sh_offset m (shdr shdrs i)) (sh_size m (shdr shdrs i))
              (counted
                (not (sh_type m (shdr shdrs i) == sht_nobits)
                  && is_outside m (shdr shdrs i) file_size)
                (rw al at e)).0
              (subst (λ x. sh_type m (shdr shdrs x) ≢ sht_nobits) (sym same) z))
      | inr there ↦ elim (Bool-cases (is_alloc m (shdr shdrs i))) [
        | inr skipped ↦ later offset (rw skipped at e) (ground arith)
        | inl al ↦
            later _
              (counted
                (not (sh_type m (shdr shdrs i) == sht_nobits)
                  && is_outside m (shdr shdrs i) file_size)
                (rw al at e)).1
              (ground arith)
      ]
    ]

-- Where the first loop of `load_module` accepts all sections that the header of the file counts and
-- sums up to the size of the memory of the module, that memory and the file lie apart, the section
-- headers lie in the file behind its own header, and no offset wraps around or is aligned downwards,
-- the second loop ends, given more rounds than there are sections, and its offsets end at the sum of
-- the first; it puts every section that takes memory at its offset, with its address in its header
-- and with zeros or its bytes from the file, but for such as lie in the address field of a header, and
-- it changes no byte outside the memory of the module and those fields.
pub place_sections-measure :
    (im : Image) (m : Memory) (fuel : ℕ)
    → im.shnum < fuel
    → e_shnum m im.file_buffer ≡ im.shnum
    → measure im.shnum 0 0 m im.shdrs im.file_size ≡ some im.total
    → Grows im.shnum 0 0 m im.shdrs
    → (offset_after im.shnum 0 0 m im.shdrs ≡ im.total)
      × Ends
          (Placed im m im.shnum 0 0 m)
          (place_sections fuel 0 0 im.shdrs im.file_buffer im.base m)
place_sections-measure im m fuel enough count e grows =
    let end = measure-offset_after im.shnum 0 0 m im.shdrs im.file_size im.total e in
    (
      end,
      place_sections-Placed im m im.shnum fuel 0 0 m enough (omega arith) count (λ a lo hi h. refl)
          grows (omega (arith, end))
          (λ j lt.
            measure_inside im.shnum 0 0 m im.shdrs im.file_size im.total e j (omega arith)
              (omega arith)),
    )
