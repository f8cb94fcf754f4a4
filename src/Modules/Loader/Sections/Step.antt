-- ===== src/Modules/Loader/Sections/Step.antt =====
-- What the second loop of `load_module` does to one section.
use miyabi.Base.{
  ℕ, ◌+◌, ◌*◌, ◌^◌, ◌≤◌, ◌<◌, ◌≡◌, ◌≢◌, ◌⊎◌, refl, arith, true, false, ◌==◌, ap, ◌∙◌, inl, inr,
  Bool-cases, u64,
}
use miyabi.Cstring.{copy_from, set_from}
use miyabi.Cstring.Copy.{copy_from_before, copy_from_byte, set_from_out, set_from_byte}
use miyabi.Modules.Elf.{
  Memory, load, store, e_shnum, shdr, sh_type, sh_flags, sh_addr, sh_offset, sh_size, sh_addralign,
  sht_nobits,
}
use miyabi.Modules.Elf.Bytes.{store_other, load_same, load-store}
use miyabi.Modules.Loader.Sections.{place_section}

-- The file, with its section headers behind its header of 64 bytes, and the memory for the module,
-- which lie apart.
pub record Image : Type 0 where
  pub file_buffer : ℕ
  pub file_size : ℕ
  pub shdrs : ℕ
  pub shnum : ℕ
  pub base : ℕ
  pub total : ℕ
  pub from : file_buffer + 64 ≤ shdrs
  pub inside : shdrs + 64 * shnum ≤ file_buffer + file_size
  pub apart : (base + total ≤ file_buffer) ⊎ (file_buffer + file_size ≤ base)
  pub reached : base + total < 2 ^ 64

module _ (im : Image) where
  -- `a` is in the field `sh_addr` of none of the `n` sections from section `i` on.
  abbrev pub NotField : ℕ → ℕ → ℕ → Type 0
  NotField i n a =
      (j : ℕ) → i ≤ j → j < i + n → (a < shdr im.shdrs j + 16) ⊎ (shdr im.shdrs j + 24 ≤ a)

  -- The file is that of `m`, but for the fields `sh_addr`.
  abbrev pub SameFile : Memory → Memory → Type 0
  SameFile m w =
      (a : ℕ)
      → im.file_buffer ≤ a
      → a < im.file_buffer + im.file_size
      → NotField 0 im.shnum a
      → w a ≡ m a

  pub field_same :
      (m w : Memory) (i off len : ℕ)
      → SameFile m w
      → i < im.shnum
      → (off + len ≤ 16) ⊎ (24 ≤ off)
      → off + len ≤ 64
      → load len w (shdr im.shdrs i + off) ≡ load len m (shdr im.shdrs i + off)
  field_same m w i off len same lt h k =
      let a = im.from in
      let b = im.inside in
      load_same len m w (shdr im.shdrs i + off)
        (λ b lo hi. same b (omega arith) (omega arith) (λ j _ lt'. omega arith))

  -- The section header `i` says the same in both memories.
  pub record SameHeader (m w : Memory) (i : ℕ) : Type 0 where
    pub type : sh_type w (shdr im.shdrs i) ≡ sh_type m (shdr im.shdrs i)
    pub flags : sh_flags w (shdr im.shdrs i) ≡ sh_flags m (shdr im.shdrs i)
    pub offset : sh_offset w (shdr im.shdrs i) ≡ sh_offset m (shdr im.shdrs i)
    pub size : sh_size w (shdr im.shdrs i) ≡ sh_size m (shdr im.shdrs i)
    pub align : sh_addralign w (shdr im.shdrs i) ≡ sh_addralign m (shdr im.shdrs i)

  pub file-SameHeader : (m w : Memory) (i : ℕ) → SameFile m w → i < im.shnum → SameHeader m w i
  file-SameHeader m w i same lt = record {
    type = field_same m w i 4 4 same lt (omega arith) (omega arith);
    flags = field_same m w i 8 8 same lt (omega arith) (omega arith);
    offset = field_same m w i 24 8 same lt (omega arith) (omega arith);
    size = field_same m w i 32 8 same lt (omega arith) (omega arith);
    align = field_same m w i 48 8 same lt (omega arith) (omega arith);
  }

  -- The header of the file has its number of sections still.
  pub file_count :
      (m w : Memory)
      → SameFile m w
      → 0 < im.shnum
      → e_shnum w im.file_buffer ≡ e_shnum m im.file_buffer
  file_count m w same some_section =
      let a = im.from in
      let b = im.inside in
      load_same 2 m w (im.file_buffer + 60)
        (λ b lo hi. same b (omega arith) (omega arith) (λ j _ lt. omega arith))

  -- The section is at `start` in the memory of the module: its address is noted, and its bytes are
  -- those of the file or zeros.
  pub record Holds (m w : Memory) (i start : ℕ) : Type 0 where
    pub addr : sh_addr w (shdr im.shdrs i) ≡ im.base + start
    pub zeros :
        sh_type m (shdr im.shdrs i) ≡ sht_nobits
        → (k : ℕ) → k < sh_size m (shdr im.shdrs i)
        → w (im.base + start + k) ≡ 0
    pub bytes :
        sh_type m (shdr im.shdrs i) ≢ sht_nobits
        → (k : ℕ) → k < sh_size m (shdr im.shdrs i)
        → NotField 0 im.shnum (im.file_buffer + sh_offset m (shdr im.shdrs i) + k)
        → w (im.base + start + k) ≡ m (im.file_buffer + sh_offset m (shdr im.shdrs i) + k)

  module _ (m w : Memory) (i start : ℕ) (same : SameFile m w) (lt : i < im.shnum)
      (fits : start + sh_size m (shdr im.shdrs i) ≤ im.total)
      (in_file : sh_type m (shdr im.shdrs i) ≢ sht_nobits
        → sh_offset m (shdr im.shdrs i) + sh_size m (shdr im.shdrs i) ≤ im.file_size) where
    abbrev s : ℕ
    s = shdr im.shdrs i

    abbrev marked : Memory
    marked = store 8 w (s + 16) (u64 (im.base + start))

    marked_other : (a : ℕ) → NotField i 1 a → marked a ≡ w a
    marked_other a h =
        store_other 8 w (s + 16) _ a (let g = h i (omega arith) (omega arith) in omega arith)

    marked-SameFile : SameFile m marked
    marked-SameFile a lo hi h =
        marked_other a (λ j lo' hi'. h j (omega arith) (omega arith)) ∙ same a lo hi h

    header : SameHeader m marked i
    header = file-SameHeader m marked i marked-SameFile lt

    marked_addr : sh_addr marked s ≡ im.base + start
    marked_addr =
        let r = im.reached in
        load-store 8 w (s + 16) (u64 (im.base + start)) (omega arith) ∙ omega (arith, r, fits)

    abbrev placed : Memory
    placed = place_section s im.file_buffer (im.base + start) w

    -- The bytes that the loop writes.
    zeroed : sh_type m s ≡ sht_nobits → placed ≡ set_from (sh_size m s) 0 (im.base + start) 0 marked
    unfolding place_section
    zeroed z =
        let t : (sh_type marked s == sht_nobits) ≡ true = rw (header.type, z) refl in
        rw (t, header.size, marked_addr)

    copied :
        sh_type m s ≢ sht_nobits
        → placed
          ≡ copy_from (sh_size m s) 0 (im.base + start) (im.file_buffer + sh_offset m s) marked
    unfolding place_section
    copied z =
        let t : (sh_type marked s == sht_nobits) ≡ false = rw header.type (ground arith) in
        rw (t, header.size, header.offset, marked_addr)

    placed-marked :
        (a : ℕ) → (a < im.base + start) ⊎ (im.base + start + sh_size m s ≤ a) → placed a ≡ marked a
    placed-marked a out = elim (Bool-cases (sh_type m s == sht_nobits)) [
      | inl z ↦
          ap (λ x. x a) (zeroed (ground arith))
          ∙ set_from_out (sh_size m s) 0 (im.base + start) 0 marked a (omega arith)
      | inr z ↦
          ap (λ x. x a) (copied (ground arith))
          ∙ copy_from_before (sh_size m s) 0 (im.base + start) (im.file_buffer + sh_offset m s)
              marked a (omega arith)
    ]

    pub place_section_other :
        (a : ℕ)
        → NotField i 1 a
        → (a < im.base + start) ⊎ (im.base + start + sh_size m s ≤ a)
        → placed a ≡ w a
    place_section_other a h out = placed-marked a out ∙ marked_other a h

    pub place_section-Holds : Holds m placed i start
    place_section-Holds = record {
      addr =
          let a = im.from in
          let b = im.inside in
          let c = im.apart in
          load_same 8 marked placed (s + 16) (λ b lo hi. placed-marked b (omega arith))
          ∙ marked_addr;
      zeros = λ z k small.
          ap (λ x. x (im.base + start + k)) (zeroed z)
          ∙ set_from_byte (sh_size m s) 0 (im.base + start) 0 marked k (omega arith) (omega arith);
      bytes = λ z k small h.
          let c = im.apart in
          let d = in_file z in
          ap (λ x. x (im.base + start + k)) (copied z)
          ∙ copy_from_byte (sh_size m s) 0 (im.base + start) (im.file_buffer + sh_offset m s) marked
              k (omega arith) (omega arith) (omega arith)
          ∙ marked-SameFile (im.file_buffer + sh_offset m s + k) (omega arith) (omega arith) h;
    }
