-- ===== src/Drivers/Tests.antt =====
-- The theorems on block devices at concrete inputs, and runs of the operations.
use miyabi.Base.{ℕ, ◌<◌, ◌≤◌, ◌≡◌, ◌⊎◌, refl, some, List, [], ◌∷◌}
use miyabi.Base.Int.{pos, negsuc}
use miyabi.Cstring.{same_text}
use miyabi.Drivers.Block.{
  BlockDev, Devices, Driver, max_block_devices, init_block_subsystem, register_block_device,
  get_block_device, block_read, block_write,
}
use miyabi.Base.Search.{or_else}
use miyabi.Drivers.Block.Table.{register_block_device_lem}

abbrev sda : List ℕ
sda = 115 ∷ 100 ∷ 97 ∷ []

abbrev sda1 : List ℕ
sda1 = 115 ∷ 100 ∷ 97 ∷ 49 ∷ []

abbrev disk : BlockDev
disk = record {
  name = sda;
  sector_size = 512;
  total_sectors = 1000;
  start_lba = 0;
  read = 7;
  write = 0;
  priv_data = 0;
}

abbrev part : BlockDev
part = record {
  name = sda1;
  sector_size = 512;
  total_sectors = 100;
  start_lba = 63;
  read = 7;
  write = 0;
  priv_data = 0;
}

abbrev one_disk : Devices
one_disk = record { block_devices = λ i. disk; num_block_devices = 1 }

register_block_device_lem_example :
    ((max_block_devices ≤ 1) × (register_block_device part one_disk ≡ (negsuc 0, one_disk)))
    ⊎ ((1 < max_block_devices)
        × ((register_block_device part one_disk).0 ≡ pos 1)
        × ((register_block_device part one_disk).1.block_devices 1 ≡ part)
        × ((name : List ℕ)
            → get_block_device name (register_block_device part one_disk).1
              ≡ or_else (get_block_device name one_disk) (same_text sda1 name) 1))
register_block_device_lem_example = register_block_device_lem part one_disk

-- A driver that notes the sector it is asked for.
abbrev note : Driver
note = record { State = ℕ; call = λ f dev lba count buf s. (pos 1, lba) }

-- The partition's sector 2 is the disk's sector 65; there is nothing to write with.
read_run : block_read note (some part) 2 1 0 0 ≡ (pos 1, 65)
unfolding block_read
read_run = refl

write_run : block_write note (some part) 2 1 0 0 ≡ (pos 0, 0)
unfolding block_write
write_run = refl

init_run : (init_block_subsystem one_disk).num_block_devices ≡ 0
unfolding init_block_subsystem
init_run = refl
