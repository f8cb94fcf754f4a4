-- ===== src/Fs/Gpt/Walk.antt =====
-- How the walk of `gpt_parse` ends, and which sectors it reads.
use miyabi.Base.{
  ℕ, zero, suc, ◌+◌, ◌*◌, ◌/◌, ◌%◌, ◌^◌, ◌≤◌, ◌<◌, ◌≡◌, refl, arith, true, false, Option, none,
  some, ltb, inl, inr, Option-cases, Bool-cases, u32, u64,
}
use mathlib.Core.Path.{subst}
use miyabi.Base.Run.{Run, done, halted, ◌>>=◌}
use miyabi.Fs.Mbr.{Sector}
use miyabi.Fs.Gpt.Sectors.{
  IsGptHeader, count_of, IsInside, Last, unreadable, completed, outside, Walks, IsBounded, Counted,
  counted, beyond, parse_sector-Counted,
}
use miyabi.Fs.Gpt.{read64, gpt_header, header_passes, parse_sector, parse_entries, gpt_parse}

parse_entries_stop :
    (n : ℕ) (read : ℕ → Option Sector) (lba parsed : ℕ) (buffer : Sector)
    → 0 < n
    → count_of buffer ≤ parsed
    → parse_entries n read 4 lba parsed buffer ≡ done 1
unfolding parse_entries gpt_header
parse_entries_stop zero read lba parsed buffer pos le = absurd (omega arith)
parse_entries_stop (suc n) read lba parsed buffer pos le =
    let stop : ltb parsed (count_of buffer) ≡ false = ground arith in rw stop refl

module _ (read : ℕ → Option Sector) (lba parsed : ℕ) where
  abbrev first : ℕ
  first = lba % 2 ^ 32

  ended : (r : Run ℕ) → Last read first parsed r → Walks read lba parsed r
  ended r x = record {
    sectors = 0;
    whole = λ j lt. absurd (omega arith);
    last =
        subst (λ p. Last read ((lba + 0) % 2 ^ 32) p r) (omega arith)
          (subst (λ a. Last read a parsed r) (omega arith) x);
  }

  onward :
      (s : Sector) (r : Run ℕ)
      → read first ≡ some s
      → parsed + 4 < count_of s
      → IsInside s parsed
      → Walks read (u64 (lba + 1)) (parsed + 4) r
      → Walks read lba parsed r
  onward s r reads more inside x = record {
    sectors = suc x.sectors;
    whole = whole;
    last =
        subst (λ p. Last read ((lba + suc x.sectors) % 2 ^ 32) p r) (omega arith)
          (subst (λ a. Last read a (parsed + 4 + 4 * x.sectors) r) (omega arith) x.last);
  }
    where
      Whole : ℕ → ℕ → Type 0
      Whole at before =
          (s : Sector) × (read at ≡ some s) × (before + 4 < count_of s) × IsInside s before

      whole : (j : ℕ) → j < suc x.sectors → Whole ((lba + j) % 2 ^ 32) (parsed + 4 * j)
      whole zero lt =
          subst (λ a. Whole a (parsed + 4 * 0)) (omega arith)
            (subst (λ p. Whole first p) (omega arith) (s, reads, more, inside))
      whole (suc j) lt =
          subst (λ a. Whole a (parsed + 4 * suc j)) (omega arith)
            (subst (λ p. Whole ((u64 (lba + 1) + j) % 2 ^ 32) p) (omega arith)
              (x.whole j (omega arith)))

  -- The walk from a sector that was read, after the loop over its entries.
  after_sector :
      (n : ℕ) (s : Sector) (r : Run ℕ)
      → 0 < n
      → read first ≡ some s
      → (parsed + 4 < count_of s
          → Walks read
              (u64 (lba + 1))
              (parsed + 4)
              (parse_entries n read 4 (u64 (lba + 1)) (parsed + 4) s))
      → Counted s parsed 0 4 r
      → Walks read lba parsed (r >>= λ p. parse_entries n read 4 (u64 (lba + 1)) p s)
  after_sector n s _ pos reads rest (beyond k hi lt out) =
      ended halted (outside s k reads (omega arith) lt out)
  after_sector n s _ pos reads rest (counted p inside below past) =
      let here : IsInside s parsed = λ i lt. inside i (omega arith) (omega arith) in
      elim (Bool-cases (ltb (parsed + 4) (count_of s))) [
        | inl more ↦
            let lt : parsed + 4 < count_of s = ground arith in
            let e : p ≡ parsed + 4 = omega (arith, below (omega arith)) in
            rw e (onward s _ reads lt here (rest lt))
        | inr no_more ↦
            let le : count_of s ≤ parsed + 4 = ground arith in
            rw (parse_entries_stop n read (u64 (lba + 1)) p s pos (past (omega arith)))
              (ended (done 1) (completed s reads le here))
      ]

parse_entries-Walks :
    (n : ℕ) (read : ℕ → Option Sector) (limit : ℕ) (bounded : IsBounded limit read) (lba parsed : ℕ)
    (buffer : Sector)
    → parsed < count_of buffer
    → count_of buffer + 4 ≤ limit
    → limit ≤ parsed + 4 * n
    → Walks read lba parsed (parse_entries n read 4 lba parsed buffer)
unfolding parse_entries gpt_header
parse_entries-Walks zero read limit bounded lba parsed buffer lt le fuel = absurd (omega arith)
parse_entries-Walks (suc n) read limit bounded lba parsed buffer lt le fuel =
    let more : ltb parsed (count_of buffer) ≡ true = ground arith in
    elim (Option-cases (read (u32 lba))) [
      | inl fails ↦ rw (more, fails) (ended read lba parsed (done 0) (unreadable fails))
      | inr (s, reads) ↦
          rw (more, reads)
            (after_sector read lba parsed n s (parse_sector 4 0 parsed s) (omega arith) reads
              (λ past.
                parse_entries-Walks n read limit bounded (u64 (lba + 1)) (parsed + 4) s past
                  (bounded _ s reads).0 (omega arith))
              (subst (λ p. Counted s parsed 0 4 (parse_sector 4 0 p s)) (omega arith)
                (parse_sector-Counted 4 0 parsed s (bounded _ s reads).1)))
    ]

header_passes_iff :
    (s : Sector)
    → (header_passes (gpt_header s) ≡ true → IsGptHeader s)
      × (IsGptHeader s → header_passes (gpt_header s) ≡ true)
unfolding gpt_header header_passes
header_passes_iff s = (
  (λ h. record {
    signature = ground arith;
    least_size = ground arith;
    most_size = ground arith;
    first_sector = ground arith;
    some_entries = ground arith;
    entry_size = ground arith;
  }),
  λ h.
      ground (
        arith, h.signature, h.least_size, h.most_size, h.first_sector, h.some_entries, h.entry_size,
      ),
)

-- `gpt_parse` ends, given so many rounds that four times them exceeds by at least 4 what stands in any
-- sector that can be read where a header has its number of entries, a number of 32 bits. It returns 0
-- if sector 1 cannot be read or does not hold a header of the signature, a size of 92 to 512, its own
-- sector number 1, at least one entry and entries of 128 bytes. Otherwise it reads sectors from that
-- of the entries on, one for every four entries. It goes on behind a sector just if the number that
-- stands in that same sector, where a header has its number of entries, is beyond four times the
-- sectors read by then. It returns 0 if a sector cannot be read, and 1 if it does not go on; and it
-- reads past the end of the buffer if the size that stands in the sector where a header has that of an
-- entry puts there what it reads of an entry below that number: the first 6 bytes of an unused entry,
-- and 48 of any other.
pub gpt_parse_lem :
    (n : ℕ) (read : ℕ → Option Sector)
    → IsBounded (4 * n) read
    → (read 1 ≡ none → gpt_parse n read ≡ done 0)
      × ((s : Sector) → read 1 ≡ some s → ¬ IsGptHeader s → gpt_parse n read ≡ done 0)
      × ((s : Sector)
          → read 1 ≡ some s
          → IsGptHeader s
          → Walks read (read64 s 72) 0 (gpt_parse n read))
unfolding gpt_parse gpt_header
gpt_parse_lem n read bounded = (
  (λ e. rw (gpt_parse, e)),
  (λ s e bad. elim (Bool-cases (header_passes (gpt_header s))) [
    | inl good ↦ absurd (bad ((header_passes_iff s).0 good))
    | inr fails ↦ rw (gpt_parse, e, fails)
  ]),
  λ s e h.
      let size : 512 / (gpt_header s).size_of_partition_entry ≡ 4 =
        unfold gpt_header in rw h.entry_size refl in
      rw (gpt_parse, e, (header_passes_iff s).1 h, size)
        (parse_entries-Walks n read (4 * n) bounded (gpt_header s).partition_entry_lba 0 s
          (omega (arith, h.some_entries)) (bounded 1 s e).0 (omega arith)),
)
