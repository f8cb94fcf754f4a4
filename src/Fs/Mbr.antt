-- ===== src/Fs/Mbr.antt =====
-- src/fs/part/mbr.c and mbr.h, the partition table of the first sector. What it prints is left out.
-- A sector is its bytes by offset. `gpt_parse` only prints: a flag says whether it is called.
pub mod Partitions
use miyabi.Base.{
  ℕ, zero, suc, ◌+◌, ◌*◌, ◌^◌, Bool, true, false, not, List, [], ◌∷◌, ◌==◌, if◌then◌else◌,
}
use miyabi.Drivers.Block.{BlockDev, Devices, register_block_device}

abbrev pub Sector : Type 0
Sector = ℕ → ℕ

-- Numbers of two and four bytes, the lowest byte first.
abbrev pub read16 : Sector → ℕ → ℕ
read16 sector at = sector at + sector (at + 1) * 2 ^ 8

abbrev pub read32 : Sector → ℕ → ℕ
read32 sector at = read16 sector at + read16 sector (at + 2) * 2 ^ 16

-- `mbr_entry_t`, what the code reads of it.
pub record MbrEntry : Type 0 where
  pub partition_type : ℕ
  pub lba_start : ℕ
  pub sector_count : ℕ

-- `mbr->partitions[i]`
unfoldable pub partition : Sector → ℕ → MbrEntry
partition sector i = record {
  partition_type = sector (446 + 16 * i + 4);
  lba_start = read32 sector (446 + 16 * i + 8);
  sector_count = read32 sector (446 + 16 * i + 12);
}

-- `part_dev`, where `ata_block_read` is the address of that function.
unfoldable pub part_dev : ℕ → ℕ → MbrEntry → BlockDev
part_dev ata_block_read i entry = record {
  name = 115 ∷ 100 ∷ 97 ∷ (49 + i) ∷ [];
  sector_size = 512;
  total_sectors = entry.sector_count;
  start_lba = entry.lba_start;
  read = ata_block_read;
  write = 0;
  priv_data = 0;
}

-- The loop from entry `i` on, with `n` entries to go; the flag is the call of `gpt_parse`.
unfoldable pub parse_from : ℕ → ℕ → ℕ → Sector → Devices → Devices × Bool
unfolding partition part_dev
parse_from ata_block_read zero i sector devices = (devices, false)
parse_from ata_block_read (suc n) i sector devices =
    let entry = partition sector i in
    let skipped = parse_from ata_block_read n (i + 1) sector devices in
    let registered =
      parse_from ata_block_read n (i + 1) sector
        (register_block_device (part_dev ata_block_read i entry) devices).1 in
    if entry.partition_type == 0
    then skipped
    else (if entry.partition_type == 238 then (devices, true) else registered)

-- `void mbr_parse(const uint8_t *sector_buffer)`
unfoldable pub mbr_parse : ℕ → Sector → Devices → Devices × Bool
unfolding parse_from
mbr_parse ata_block_read sector devices =
    if read16 sector 510 == 43605
    then parse_from ata_block_read 4 0 sector devices
    else (devices, false)
