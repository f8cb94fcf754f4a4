-- ===== src/Elf/Loader/Page.antt =====
-- What a page of a program holds.
use miyabi.Base.{
  ℕ, ◌+◌, ◌-◌, ◌^◌, ◌≤◌, ◌<◌, ◌≡◌, ◌⊎◌, arith, Bool, true, false, ltb, if◌then◌else◌, sym, ap, ◌∙◌,
  inl, inr, Bool-cases, u64,
}
use mathlib.Core.Path.{subst}
use miyabi.Cstring.{copy_from, set_from}
use miyabi.Cstring.Copy.{copy_from_before, copy_from_byte, set_from_out, set_from_byte}
use miyabi.Modules.Elf.{Memory}
use miyabi.Elf.Loader.{Segment, copy_start, copy_end, fill_page}

-- The page at the virtual address `curr`, reached at `virt_page`, is that of the segment: the bytes
-- of the file where the segment has them, zeros elsewhere, and nothing else changed.
pub record HoldsPage (elf_binary : ℕ) (s : Segment) (curr virt_page : ℕ) (m m' : Memory)
    : Type 0 where
  pub bytes :
      (b : ℕ)
      → b < 4096
      → s.vaddr ≤ curr + b
      → curr + b < s.vaddr + s.filesz
      → m' (virt_page + b) ≡ m (elf_binary + s.offset + (curr + b - s.vaddr))
  pub zeros :
      (b : ℕ)
      → b < 4096
      → (curr + b < s.vaddr) ⊎ (s.vaddr + s.filesz ≤ curr + b)
      → m' (virt_page + b) ≡ 0
  pub others : (a : ℕ) → (a < virt_page) ⊎ (virt_page + 4096 ≤ a) → m' a ≡ m a

module _ (elf_binary : ℕ) (s : Segment) (curr virt_page : ℕ) (m : Memory)
    (page_fits : curr + 4096 < 2 ^ 64) (segment_fits : s.vaddr + s.filesz < 2 ^ 64)
    (file_fits : s.offset + s.filesz < 2 ^ 64)
    (apart : (virt_page + 4096 ≤ elf_binary + s.offset)
      ⊎ (elf_binary + s.offset + s.filesz ≤ virt_page)) where
  abbrev start : ℕ
  start = copy_start s curr

  abbrev end : ℕ
  end = copy_end s curr

  abbrev cleared : Memory
  cleared = set_from 4096 0 virt_page 0 m

  abbrev copied : Memory
  copied =
      copy_from (end - start) 0 (virt_page + (start - curr))
        (elf_binary + u64 (s.offset + (start - s.vaddr))) cleared

  start_lem : (curr ≤ start) × (s.vaddr ≤ start) × ((start ≡ curr) ⊎ (start ≡ s.vaddr))
  start_lem = ground arith

  end_lem :
      (end ≤ curr + 4096)
      × (end ≤ s.vaddr + s.filesz)
      × ((end ≡ curr + 4096) ⊎ (end ≡ s.vaddr + s.filesz))
  end_lem = ground arith

  copied_other :
      (a : ℕ)
      → start < end
      → (a < virt_page + (start - curr)) ⊎ (virt_page + (end - curr) ≤ a)
      → copied a ≡ cleared a
  copied_other a lt out =
      let h = start_lem in
      copy_from_before (end - start) 0 (virt_page + (start - curr))
        (elf_binary + u64 (s.offset + (start - s.vaddr))) cleared a (omega (arith, h, out, lt))

  cleared_byte : (b : ℕ) → b < 4096 → cleared (virt_page + b) ≡ 0
  cleared_byte b lt = set_from_byte 4096 0 virt_page 0 m b (omega arith) lt

  cleared_out : (a : ℕ) → (a < virt_page) ⊎ (virt_page + 4096 ≤ a) → cleared a ≡ m a
  cleared_out a out = set_from_out 4096 0 virt_page 0 m a (omega arith)

  copied_byte :
      (b : ℕ)
      → start < end
      → start ≤ curr + b
      → curr + b < end
      → copied (virt_page + b) ≡ m (elf_binary + s.offset + (curr + b - s.vaddr))
  copied_byte b lt lo hi =
      let h = start_lem in
      let h' = end_lem in
      ap copied (here (omega (arith, h, lo)))
      ∙ copy_from_byte (end - start) 0 (virt_page + (start - curr))
          (elf_binary + u64 (s.offset + (start - s.vaddr))) cleared (curr + b - start)
          (omega (arith, h, h', apart, lt)) (omega arith) (omega (arith, lo, hi))
      ∙ ap cleared (source (omega (arith, h, lo)) (omega (arith, h, lo, hi, h')))
      ∙ cleared_out (elf_binary + s.offset + (curr + b - s.vaddr))
          (omega (arith, h, h', apart, lo, hi))
    where
      here :
          (curr ≤ start) × (start ≤ curr + b)
          → virt_page + b ≡ virt_page + (start - curr) + (curr + b - start)
      here h = omega (arith, h)

      source :
          (s.vaddr ≤ start) × (start ≤ curr + b)
          → curr + b < s.vaddr + s.filesz
          → elf_binary + u64 (s.offset + (start - s.vaddr)) + (curr + b - start)
            ≡ elf_binary + s.offset + (curr + b - s.vaddr)
      source h h' = omega (arith, h, h', file_fits)

  -- The code's choice between the page with its bytes and the cleared page.
  fill_page-cases :
      (chosen : Bool)
      → ltb start end ≡ chosen
      → fill_page elf_binary s curr virt_page m ≡ (if chosen then copied else cleared)
  unfolding fill_page
  fill_page-cases chosen e = ap (λ x. if x then copied else cleared) e

  copied-HoldsPage : start < end → HoldsPage elf_binary s curr virt_page m copied
  copied-HoldsPage lt =
      let h = start_lem in
      let h' = end_lem in
      record {
        bytes =
            λ b small lo hi. copied_byte b lt (omega (arith, h, lo)) (omega (arith, h', hi, small));
        zeros = λ b small out.
            copied_other (virt_page + b) lt (omega (arith, h, h', out, lt)) ∙ cleared_byte b small;
        others = λ a out. copied_other a lt (omega (arith, h, h', out, lt)) ∙ cleared_out a out;
      }

  cleared-HoldsPage : end ≤ start → HoldsPage elf_binary s curr virt_page m cleared
  cleared-HoldsPage le =
      let h = start_lem in
      let h' = end_lem in
      record {
        bytes = λ b small lo hi. absurd (omega (arith, h, h', lo, hi, small, le));
        zeros = λ b small out. cleared_byte b small;
        others = cleared_out;
      }

  -- Where no end of the page, of the segment or of its part of the file wraps around, and the page
  -- lies apart from that part of the file, the page holds the bytes of the file where the segment
  -- has them and zeros elsewhere, and nothing else changes.
  pub fill_page-HoldsPage :
      HoldsPage elf_binary s curr virt_page m (fill_page elf_binary s curr virt_page m)
  fill_page-HoldsPage = elim (Bool-cases (ltb start end)) [
    | inl some_bytes ↦
        subst (HoldsPage elf_binary s curr virt_page m) (sym (fill_page-cases true some_bytes))
          (copied-HoldsPage (less start end some_bytes))
    | inr no_bytes ↦
        subst (HoldsPage elf_binary s curr virt_page m) (sym (fill_page-cases false no_bytes))
          (cleared-HoldsPage (not_less start end no_bytes))
  ]
    where
      less : (a b : ℕ) → ltb a b ≡ true → a < b
      less a b h = ground arith

      not_less : (a b : ℕ) → ltb a b ≡ false → b ≤ a
      not_less a b h = ground arith
