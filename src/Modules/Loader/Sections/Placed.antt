-- ===== src/Modules/Loader/Sections/Placed.antt =====
-- The second loop of `load_module`: all sections that take memory get it.
use miyabi.Base.{ℕ, zero, suc, ◌+◌, ◌≤◌, ◌<◌, ◌≡◌, ◌≢◌, ◌⊎◌, arith, Bool, true, false, sym, ◌∙◌}
use mathlib.Core.Path.{subst}
use miyabi.Modules.Elf.{Memory, shdr, sh_type, sh_offset, sh_size, is_alloc, sht_nobits}
use miyabi.Modules.Elf.Bytes.{load_same}
use miyabi.Modules.Loader.Sections.Layout.{start_at, next_offset, offset_after}
use miyabi.Modules.Loader.Sections.Step.{Image, NotField, SameFile, Holds}

module _ (im : Image) (m : Memory) where
  -- The sections that have bytes in the file have them all there.
  abbrev pub InFile : Type 0
  InFile =
      (j : ℕ)
      → j < im.shnum
      → is_alloc m (shdr im.shdrs j) ≡ true
      → sh_type m (shdr im.shdrs j) ≢ sht_nobits
      → sh_offset m (shdr im.shdrs j) + sh_size m (shdr im.shdrs j) ≤ im.file_size

  pub record Placed (n i offset : ℕ) (w w' : Memory) : Type 0 where
    pub same : SameFile im m w'
    pub other :
        (a : ℕ)
        → NotField im i n a
        → (a < im.base + offset) ⊎ (im.base + offset_after n i offset m im.shdrs ≤ a)
        → w' a ≡ w a
    pub holds :
        (j k : ℕ)
        → j ≡ i + k
        → k < n
        → is_alloc m (shdr im.shdrs j) ≡ true
        → Holds im m w' j (start_at m (shdr im.shdrs j) (offset_after k i offset m im.shdrs))

  -- What leaves the field and the bytes of a section alone leaves the section where it is.
  pub Holds-kept :
      (w w' : Memory) (i start : ℕ)
      → Holds im m w i start
      → ((a : ℕ) → shdr im.shdrs i + 16 ≤ a → a < shdr im.shdrs i + 24 → w' a ≡ w a)
      → ((a : ℕ)
          → im.base + start ≤ a
          → a < im.base + start + sh_size m (shdr im.shdrs i)
          → w' a ≡ w a)
      → Holds im m w' i start
  Holds-kept w w' i start h field inside = record {
    addr = load_same 8 w w' (shdr im.shdrs i + 16) (λ b lo hi. field b lo (omega arith)) ∙ h.addr;
    zeros = λ z k small. inside _ (omega arith) (omega arith) ∙ h.zeros z k small;
    bytes = λ z k small out. inside _ (omega arith) (omega arith) ∙ h.bytes z k small out;
  }

  -- A section that takes no memory is passed over.
  pub skip-Placed :
      (n i offset : ℕ) (w w' : Memory)
      → is_alloc m (shdr im.shdrs i) ≡ false
      → Placed n (i + 1) offset w w'
      → Placed (suc n) i offset w w'
  unfolding offset_after
  skip-Placed n i offset w w' skipped p = record {
    same = p.same;
    other = λ a h out.
        p.other a (λ j lo hi. h j (omega arith) (omega arith))
          (subst (λ x. (a < im.base + offset) ⊎ (im.base + offset_after n (i + 1) x m im.shdrs ≤ a))
            (rw (next_offset, skipped)) out);
    holds = go;
  }
    where
      differ : {x : Bool} → x ≡ true → x ≡ false → ⊥
      differ a b = cc

      go :
          (j k : ℕ)
          → j ≡ i + k
          → k < suc n
          → is_alloc m (shdr im.shdrs j) ≡ true
          → Holds im m w' j (start_at m (shdr im.shdrs j) (offset_after k i offset m im.shdrs))
      go j zero f lt al =
          let same_section : j ≡ i = omega (arith, f) in
          absurd (differ (subst (λ x. is_alloc m (shdr im.shdrs x) ≡ true) same_section al) skipped)
      go j (suc k) f lt al =
          subst
            (λ x.
              Holds im m w' j (start_at m (shdr im.shdrs j) (offset_after k (i + 1) x m im.shdrs)))
            (sym (rw (next_offset, skipped))) (p.holds j k (omega (arith, f)) (omega arith) al)
