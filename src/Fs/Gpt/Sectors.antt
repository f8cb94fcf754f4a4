-- ===== src/Fs/Gpt/Sectors.antt =====
-- What the walk of `gpt_parse` over the sectors of a partition table may come to, and what its loop over
-- the entries of one sector gives.
use miyabi.Base.{
  ℕ, zero, suc, ◌+◌, ◌*◌, ◌%◌, ◌^◌, ◌≤◌, ◌<◌, ◌≡◌, ◌≢◌, ◌⊎◌, arith, Option, none, some, ltb, inl,
  inr, Bool-cases, u32,
}
use mathlib.Core.Path.{subst}
use miyabi.Base.Run.{Run, done, halted}
use miyabi.Fs.Mbr.{Sector, read16, read32}
use miyabi.Fs.Gpt.{bytes_read, read64, gpt_signature, gpt_header, parse_sector}

-- A header that the walk starts from, by its bytes.
pub record IsGptHeader (s : Sector) : Type 0 where
  pub signature : read64 s 0 ≡ gpt_signature
  pub least_size : 92 ≤ read32 s 12
  pub most_size : read32 s 12 ≤ 512
  pub first_sector : read64 s 24 ≡ 1
  pub some_entries : read32 s 80 ≢ 0
  pub entry_size : read32 s 84 ≡ 128

-- The number that stands where a header has its number of entries.
abbrev pub count_of : Sector → ℕ
count_of s = read32 s 80

-- Where entry `i` would begin by the number that stands where a header has the size of an entry.
abbrev pub entry_at : Sector → ℕ → ℕ
entry_at s i = i * read32 s 84 % 2 ^ 32

-- What is read of the entry at `entry` is in the sector: the 48 bytes up to its last block, or, for an
-- unused entry, the 6 bytes that say so.
abbrev pub Fits : Sector → ℕ → Type 0
Fits s entry =
    (entry + 48 ≤ 512) ⊎ ((entry + 6 ≤ 512) × (read32 s entry ≡ 0) × (read16 s (entry + 4) ≡ 0))

-- Of the next four entries behind `parsed`, what is read of those below the sector's count is in it.
abbrev pub IsInside : Sector → ℕ → Type 0
IsInside s parsed = (i : ℕ) → i < 4 → parsed + i < count_of s → Fits s (entry_at s i)

-- What comes of the last sector of a walk, before which `parsed` entries were counted.
pub data Last (read : ℕ → Option Sector) (at parsed : ℕ) : Run ℕ → Type 0 where
  unreadable : read at ≡ none → Last read at parsed (done 0)
  completed :
      (s : Sector)
      → read at ≡ some s
      → count_of s ≤ parsed + 4
      → IsInside s parsed
      → Last read at parsed (done 1)
  outside :
      (s : Sector) (i : ℕ)
      → read at ≡ some s
      → i < 4
      → parsed + i < count_of s
      → ¬ Fits s (entry_at s i)
      → Last read at parsed halted

-- Sectors from `lba` on, each of whose counts is beyond the four entries counted for it, and a last.
pub record Walks (read : ℕ → Option Sector) (lba parsed : ℕ) (r : Run ℕ) : Type 0 where
  pub sectors : ℕ
  pub whole :
      (j : ℕ)
      → j < sectors
      → (s : Sector) × (read ((lba + j) % 2 ^ 32) ≡ some s)
        × (parsed + 4 * j + 4 < count_of s)
        × IsInside s (parsed + 4 * j)
  pub last : Last read ((lba + sectors) % 2 ^ 32) (parsed + 4 * sectors) r

-- The counts of the disk's sectors are numbers of 32 bits, and less than `limit` by 4 at least.
abbrev pub IsBounded : ℕ → (ℕ → Option Sector) → Type 0
IsBounded limit read =
    (lba : ℕ) (s : Sector) → read lba ≡ some s → (count_of s + 4 ≤ limit) × (count_of s < 2 ^ 32)

le-split : (i k : ℕ) → i ≤ k → (i ≡ k) ⊎ (i + 1 ≤ k)
le-split i k le = ground arith

-- What the loop gives from entry `i` on for `n` entries, where `base + i` were counted before: the
-- entries counted, below the sector's count just if that is beyond all of them; or one is outside.
pub data Counted (s : Sector) (base i n : ℕ) : Run ℕ → Type 0 where
  counted :
      (p : ℕ)
      → ((k : ℕ) → i ≤ k → k < i + n → base + k < count_of s → Fits s (entry_at s k))
      → (base + i + n < count_of s → p ≡ base + i + n)
      → (count_of s ≤ base + i + n → count_of s ≤ p)
      → Counted s base i n (done p)
  beyond :
      (k : ℕ)
      → k < i + n
      → base + k < count_of s
      → ¬ Fits s (entry_at s k)
      → Counted s base i n halted

Counted-suc :
    (s : Sector) (base i n : ℕ) (r : Run ℕ)
    → Fits s (entry_at s i)
    → Counted s base (i + 1) n r
    → Counted s base i (suc n) r
Counted-suc s base i n _ fits (counted p inside below past) =
    counted p
      (λ k lo hi lt. elim (le-split i k lo) [
        | inl e ↦ subst (λ x. Fits s (entry_at s x)) e fits
        | inr more ↦ inside k more (omega arith) lt
      ])
      (λ lt. omega (arith, below (omega arith))) (λ le. past (omega arith))
Counted-suc s base i n _ fits (beyond k hi lt out) = beyond k (omega arith) lt out

pub parse_sector-Counted :
    (n i base : ℕ) (s : Sector)
    → count_of s < 2 ^ 32
    → Counted s base i n (parse_sector n i (base + i) s)
unfolding parse_sector gpt_header bytes_read
parse_sector-Counted zero i base s small =
    counted (base + i) (λ k lo hi lt. absurd (omega arith)) (λ lt. omega arith) (λ le. omega arith)
parse_sector-Counted (suc n) i base s small = elim (Bool-cases (ltb (base + i) (count_of s))) [
  | inr past ↦ rw past (
      counted (base + i) (λ k lo hi lt. absurd (ground arith)) (λ lt. absurd (ground arith))
        (λ le. ground arith))
  | inl more ↦ elim (Bool-cases (ltb 512 (entry_at s i + bytes_read s (entry_at s i)))) [
    | inl out ↦ rw (more, out) (beyond i (omega arith) (ground arith) (λ f. ground (arith, f)))
    | inr fits ↦
        let next : u32 (base + i + 1) ≡ base + (i + 1) = ground arith in
        rw (more, fits, next)
          (Counted-suc s base i n _ (ground arith) (parse_sector-Counted n (i + 1) base s small))
  ]
]
