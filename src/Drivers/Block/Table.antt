-- ===== src/Drivers/Block/Table.antt =====
-- The table of block devices: registration, and look-up by name.
use miyabi.Base.{
  ℕ, suc, ◌≤◌, ◌<◌, ◌≡◌, ◌⊎◌, arith, false, none, some, List, leb, update, update_self, update_ne,
  ap, ◌∙◌, inl, inr, Bool-cases,
}
use miyabi.Base.Search.{IsFirst, or_else, first_from_lem, first_from-extend}
use miyabi.Base.Int.{pos, negsuc}
use miyabi.Cstring.{same_text}
use miyabi.Drivers.Block.{
  BlockDev, Devices, max_block_devices, register_block_device, get_block_device,
}

-- `get_block_device` returns NULL exactly where no registered device has the name, and otherwise the
-- first registered device that has it.
pub get_block_device_lem :
    (name : List ℕ) (t : Devices)
    → ((get_block_device name t ≡ none)
        × ((j : ℕ) → j < t.num_block_devices → same_text (t.block_devices j).name name ≡ false))
      ⊎ ((i : ℕ) × (get_block_device name t ≡ some i)
          × IsFirst (λ j. same_text (t.block_devices j).name name) t.num_block_devices i)
unfolding get_block_device
get_block_device_lem name t =
    first_from_lem t.num_block_devices (λ i. same_text (t.block_devices i).name name)

get_block_device-update :
    (dev : BlockDev) (t : Devices) (name : List ℕ)
    → get_block_device name (record t {
      block_devices = update t.block_devices t.num_block_devices dev;
      num_block_devices = suc t.num_block_devices;
    })
      ≡ or_else (get_block_device name t) (same_text dev.name name) t.num_block_devices
unfolding get_block_device
get_block_device-update dev t name =
    first_from-extend t.num_block_devices (λ i. same_text (t.block_devices i).name name)
      (λ i. same_text (update t.block_devices t.num_block_devices dev i).name name)
      (λ j lt.
        ap (λ (d : BlockDev). same_text d.name name)
          (update_ne t.block_devices t.num_block_devices dev j (omega arith)))
    ∙ ap
        (λ (d : BlockDev).
          or_else (get_block_device name t) (same_text d.name name) t.num_block_devices)
        (update_self t.block_devices t.num_block_devices dev)

-- Where the table is full `register_block_device` returns -1 and changes nothing. Otherwise it
-- returns the number of devices so far, and a look-up of any name gives what it gave before, or, if
-- that was NULL and the new device has the name, the new device, which is stored there.
pub register_block_device_lem :
    (dev : BlockDev) (t : Devices)
    → ((max_block_devices ≤ t.num_block_devices) × (register_block_device dev t ≡ (negsuc 0, t)))
      ⊎ ((t.num_block_devices < max_block_devices)
          × ((register_block_device dev t).0 ≡ pos t.num_block_devices)
          × ((register_block_device dev t).1.block_devices t.num_block_devices ≡ dev)
          × ((name : List ℕ)
              → get_block_device name (register_block_device dev t).1
                ≡ or_else (get_block_device name t) (same_text dev.name name) t.num_block_devices))
unfolding register_block_device
register_block_device_lem dev t = elim (Bool-cases (leb 16 t.num_block_devices)) [
  | inl full ↦ inl (ground arith, rw full)
  | inr open_place ↦ inr (
    ground arith,
    rw open_place,
    rw open_place (update_self t.block_devices t.num_block_devices dev),
    λ name. rw open_place (get_block_device-update dev t name),
  )
]
