-- ===== src/Fs/Gpt.antt =====
-- src/fs/part/gpt.c and gpt.h, the walk over a GUID partition table. What it prints is left out:
-- what remains is the checks and the reads. Every read goes to the one array `sector_buf`, the header
-- is a pointer into it. `ata_read_sector28` is an argument, none where it fails.
pub mod Sectors
pub mod Walk
use miyabi.Base.{
  ℕ, zero, suc, ◌+◌, ◌*◌, ◌/◌, ◌%◌, ◌^◌, Bool, true, false, not, ◌&&◌, ◌||◌, Option, none, some,
  leb, ltb, ◌==◌, if◌then◌else◌, u32, u64,
}
use miyabi.Base.Run.{Run, done, halted, stuck, ◌>>=◌}
use miyabi.Fs.Mbr.{Sector, read16, read32}

abbrev pub read64 : Sector → ℕ → ℕ
read64 sector at = read32 sector at + read32 sector (at + 4) * 2 ^ 32

-- The fields of `gpt_header_t` that the code reads.
pub record GptHeader : Type 0 where
  pub signature : ℕ
  pub header_size : ℕ
  pub my_lba : ℕ
  pub partition_entry_lba : ℕ
  pub num_partition_entries : ℕ
  pub size_of_partition_entry : ℕ

unfoldable pub gpt_header : Sector → GptHeader
gpt_header sector = record {
  signature = read64 sector 0;
  header_size = read32 sector 12;
  my_lba = read64 sector 24;
  partition_entry_lba = read64 sector 72;
  num_partition_entries = read32 sector 80;
  size_of_partition_entry = read32 sector 84;
}

abbrev pub gpt_signature : ℕ
gpt_signature = 6075990659671082565

-- `sizeof(gpt_entry_t)`
abbrev pub sizeof_gpt_entry : ℕ
sizeof_gpt_entry = 128

-- Both checks of the header.
unfoldable pub header_passes : GptHeader → Bool
header_passes h =
    if not (h.signature == gpt_signature)
    then false
    else not (
        ltb h.header_size 92
        || ltb 512 h.header_size
        || not (h.my_lba == 1)
        || h.num_partition_entries == 0
        || not (h.size_of_partition_entry == sizeof_gpt_entry)
        || not (512 % h.size_of_partition_entry == 0))

-- The bytes that the loop reads of the entry at `entry`: `time_low` and `time_mid` where both are 0, and
-- all up to the end of `ending_lba` where they are not.
unfoldable pub bytes_read : Sector → ℕ → ℕ
bytes_read buffer entry =
    if read32 buffer entry == 0 && read16 buffer (entry + 4) == 0 then 6 else 48

-- The loop over the entries of a sector from entry `i` on, both of whose branches count the entry.
-- `buffer` is the array `sector_buf`, which `header` points into: the number and the size of entries
-- that the loop reads are bytes of the sector that was read last. An entry may be read past the end of
-- the array, which C leaves open: the walk is then `halted`.
unfoldable pub parse_sector : ℕ → ℕ → ℕ → Sector → Run ℕ
unfolding gpt_header bytes_read
parse_sector zero i parsed_entries buffer = done parsed_entries
parse_sector (suc n) i parsed_entries buffer =
    let header = gpt_header buffer in
    let entry = u32 (i * header.size_of_partition_entry) in
    let rest = parse_sector n (i + 1) (u32 (parsed_entries + 1)) buffer in
    if ltb parsed_entries header.num_partition_entries
    then (if ltb 512 (entry + bytes_read buffer entry) then halted else rest)
    else done parsed_entries

-- The loop over the sectors, each of which is read into the buffer.
unfoldable pub parse_entries : ℕ → (ℕ → Option Sector) → ℕ → ℕ → ℕ → Sector → Run ℕ
unfolding parse_sector gpt_header
parse_entries zero read entries_per_sector entry_lba parsed_entries buffer = stuck
parse_entries (suc n) read entries_per_sector entry_lba parsed_entries buffer =
    let onward : Sector → Run ℕ = λ sector.
      parse_sector entries_per_sector 0 parsed_entries sector >>= λ parsed.
      parse_entries n read entries_per_sector (u64 (entry_lba + 1)) parsed sector in
    if ltb parsed_entries (gpt_header buffer).num_partition_entries
    then elim (read (u32 entry_lba)) [ none ↦ done 0 | some sector ↦ onward sector ]
    else done 1

-- `int gpt_parse(void)`
unfoldable pub gpt_parse : ℕ → (ℕ → Option Sector) → Run ℕ
unfolding gpt_header header_passes parse_entries
gpt_parse n read = elim (read 1) [
  | none ↦ done 0
  | some sector ↦
      let h = gpt_header sector in
      if header_passes h
      then parse_entries n read (512 / h.size_of_partition_entry) h.partition_entry_lba 0 sector
      else done 0
]
