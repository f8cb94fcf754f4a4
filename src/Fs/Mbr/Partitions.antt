-- ===== src/Fs/Mbr/Partitions.antt =====
-- Which partitions `mbr_parse` registers.
use miyabi.Base.{
  ℕ, zero, suc, ◌+◌, ◌≡◌, ◌≢◌, ◌⊎◌, refl, arith, Bool, true, false, List, [], ◌∷◌, ◌==◌,
  if◌then◌else◌, ◌∙◌, inl, inr, Bool-cases,
}
use miyabi.Drivers.Block.{Devices, register_block_device}
use miyabi.Fs.Mbr.{Sector, read16, MbrEntry, partition, part_dev, parse_from, mbr_parse}

-- The entries with their indices.
abbrev pub Entries : Type 0
Entries = List (ℕ × MbrEntry)

abbrev pub entries : Sector → Entries
entries sector =
    (0, partition sector 0)
    ∷ (1, partition sector 1)
    ∷ (2, partition sector 2)
    ∷ (3, partition sector 3)
    ∷ []

-- The entries in front of the first of type 0xEE.
unfoldable pub before_gpt : Entries → Entries
before_gpt [] = []
before_gpt ((i, e) ∷ es) =
    let rest = before_gpt es in if e.partition_type == 238 then [] else (i, e) ∷ rest

unfoldable pub has_gpt : Entries → Bool
has_gpt [] = false
has_gpt ((i, e) ∷ es) = let rest = has_gpt es in if e.partition_type == 238 then true else rest

-- The entries in use.
unfoldable pub in_use : Entries → Entries
in_use [] = []
in_use ((i, e) ∷ es) = let rest = in_use es in if e.partition_type == 0 then rest else (i, e) ∷ rest

-- The devices with those of the entries registered in their order.
unfoldable pub register_all : ℕ → Entries → Devices → Devices
register_all read [] devices = devices
register_all read ((i, e) ∷ es) devices =
    register_all read es (register_block_device (part_dev read i e) devices).1

-- The entries from `i` on.
unfoldable pub entries_from : ℕ → ℕ → Sector → Entries
entries_from zero i sector = []
entries_from (suc n) i sector = (i, partition sector i) ∷ entries_from n (i + 1) sector

parse_from_lem :
    (read n i : ℕ) (sector : Sector) (devices : Devices)
    → parse_from read n i sector devices ≡ (
      register_all read (in_use (before_gpt (entries_from n i sector))) devices,
      has_gpt (entries_from n i sector),
    )
unfolding parse_from before_gpt has_gpt in_use register_all entries_from
parse_from_lem read zero i sector devices = refl
parse_from_lem read (suc n) i sector devices =
    elim (Bool-cases ((partition sector i).partition_type == 0)) [
      | inl unused ↦
          let other : ((partition sector i).partition_type == 238) ≡ false = ground arith in
          rw (parse_from, unused, other)
            (parse_from_lem read n (i + 1) sector devices ∙ rw (in_use, unused))
      | inr used ↦ elim (Bool-cases ((partition sector i).partition_type == 238)) [
        | inl gpt ↦ rw (parse_from, used, gpt)
        | inr other ↦
            rw (parse_from, used, other)
              (parse_from_lem read n (i + 1) sector _ ∙ rw (in_use, used))
      ]
    ]

-- Without the signature 0xAA55 `mbr_parse` registers nothing. With it, the entries before the first of
-- type 0xEE that are in use are registered in their order, and `gpt_parse` is called exactly where
-- there is an entry of that type.
pub mbr_parse_lem :
    (read : ℕ) (sector : Sector) (devices : Devices)
    → ((read16 sector 510 ≢ 43605) × (mbr_parse read sector devices ≡ (devices, false)))
      ⊎ ((read16 sector 510 ≡ 43605)
          × (mbr_parse read sector devices ≡ (
            register_all read (in_use (before_gpt (entries sector))) devices,
            has_gpt (entries sector),
          )))
unfolding mbr_parse entries_from
mbr_parse_lem read sector devices = elim (Bool-cases (read16 sector 510 == 43605)) [
  | inl signed ↦ inr (ground arith, rw (mbr_parse, signed) (parse_from_lem read 4 0 sector devices))
  | inr unsigned ↦ inl (ground arith, rw (mbr_parse, unsigned))
]
