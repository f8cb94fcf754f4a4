-- ===== src/Drivers/Block.antt =====
-- src/drivers/storage/block.c and block.h, the table of block devices. A driver's functions are code
-- that the table calls through pointers: `Driver` is what it sees of them. Names are texts.
pub mod Table
use miyabi.Base.{
  ℕ, zero, suc, ◌+◌, Bool, true, false, Option, none, some, List, [], ◌∷◌, leb, ◌==◌, if◌then◌else◌,
  update, u64,
}
use miyabi.Base.Search.{first_from}
use miyabi.Base.Int.{ℤ, pos, negsuc}
use miyabi.Cstring.{same_text}

-- `block_dev_t`. The pointers `read` and `write` are addresses, 0 is NULL.
pub record BlockDev : Type 0 where
  pub name : List ℕ
  pub sector_size : ℕ
  pub total_sectors : ℕ
  pub start_lba : ℕ
  pub read : ℕ
  pub write : ℕ
  pub priv_data : ℕ

-- The static variables of the file.
pub record Devices : Type 0 where
  pub block_devices : ℕ → BlockDev
  pub num_block_devices : ℕ

abbrev pub max_block_devices : ℕ
max_block_devices = 16

-- The loop over all 16 entries: the first byte of the name becomes zero.
unfoldable pub clear_names : ℕ → (ℕ → BlockDev) → ℕ → BlockDev
clear_names zero devices = devices
clear_names (suc i) devices =
    let cleared = clear_names i devices in update cleared i (record (cleared i) { name = [] })

-- `void init_block_subsystem(void)`
unfoldable pub init_block_subsystem : Devices → Devices
unfolding clear_names
init_block_subsystem t = record t {
  num_block_devices = 0;
  block_devices = clear_names max_block_devices t.block_devices;
}

-- `int register_block_device(block_dev_t *dev)`
unfoldable pub register_block_device : BlockDev → Devices → ℤ × Devices
register_block_device dev t =
    let n = t.num_block_devices in
    if leb max_block_devices n then (negsuc 0, t) else (
      pos n,
      record t { block_devices = update t.block_devices n dev; num_block_devices = suc n },
    )

-- `block_dev_t *get_block_device(const char *name)`: the index of the entry, none for NULL.
unfoldable pub get_block_device : List ℕ → Devices → Option ℕ
get_block_device name t =
    first_from t.num_block_devices 0 (λ i. same_text (t.block_devices i).name name)

-- The functions behind the pointers: device, sector, count, buffer, and what they act on.
pub record Driver : Type 1 where
  pub State : Type 0
  pub call : ℕ → BlockDev → ℕ → ℕ → ℕ → State → ℤ × State

module _ (driver : Driver) where
  -- `int block_read(block_dev_t *dev, uint64_t lba, uint32_t count, void *buf)`
  unfoldable pub block_read : Option BlockDev → ℕ → ℕ → ℕ → driver.State → ℤ × driver.State
  block_read none lba count buf s = (pos 0, s)
  block_read (some dev) lba count buf s =
      if dev.read == 0
      then (pos 0, s)
      else driver.call dev.read dev (u64 (dev.start_lba + lba)) count buf s

  -- `int block_write(block_dev_t *dev, uint64_t lba, uint32_t count, const void *buf)`
  unfoldable pub block_write : Option BlockDev → ℕ → ℕ → ℕ → driver.State → ℤ × driver.State
  block_write none lba count buf s = (pos 0, s)
  block_write (some dev) lba count buf s =
      if dev.write == 0
      then (pos 0, s)
      else driver.call dev.write dev (u64 (dev.start_lba + lba)) count buf s
