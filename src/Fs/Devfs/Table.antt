-- ===== src/Fs/Devfs/Table.antt =====
-- Registration of devices, and their look-up by name.
use miyabi.Base.{
  ℕ, suc, ◌≤◌, ◌<◌, ◌≡◌, ◌⊎◌, arith, some, List, leb, update, update_self, update_ne, ap, ◌∙◌, inl,
  inr, Bool-cases,
}
use miyabi.Base.Search.{or_else, first_from, first_from_lem, first_from-extend}
use miyabi.Cstring.{same_text}
use miyabi.Fs.Devfs.{Devfs, max_devfs_devices, devfs_finddir, devfs_register}

module _ (device : ℕ) (s : Devfs) (name : List ℕ) where
  abbrev more : ℕ → ℕ
  more = update s.devices s.device_count device

  extended :
      first_from (suc s.device_count) 0 (λ i. same_text (s.names (more i)) name)
      ≡ or_else
          (first_from s.device_count 0 (λ i. same_text (s.names (s.devices i)) name))
          (same_text (s.names device) name)
          s.device_count
  extended =
      first_from-extend s.device_count (λ i. same_text (s.names (s.devices i)) name)
        (λ i. same_text (s.names (more i)) name)
        (λ j lt.
          ap (λ d. same_text (s.names d) name)
            (update_ne s.devices s.device_count device j (omega arith)))
      ∙ ap
          (λ d.
            or_else (first_from s.device_count 0 (λ i. same_text (s.names (s.devices i)) name))
              (same_text (s.names d) name) s.device_count)
          (update_self s.devices s.device_count device)

  finddir-more :
      devfs_finddir name (record s { devices = more; device_count = suc s.device_count })
      ≡ or_else (devfs_finddir name s) (same_text (s.names device) name) device
  unfolding devfs_finddir
  finddir-more =
      elim (first_from_lem s.device_count (λ i. same_text (s.names (s.devices i)) name)) [
        | inl (e, all) ↦ elim (Bool-cases (same_text (s.names device) name)) [
          | inl named ↦
              rw (devfs_finddir, extended, e, named)
                (ap some (update_self s.devices s.device_count device))
          | inr other ↦ rw (devfs_finddir, extended, e, other)
        ]
        | inr (k, e, f) ↦
            rw (devfs_finddir, extended, e)
              (ap some (update_ne s.devices s.device_count device k (omega (arith, f.within))))
      ]

-- With 32 devices `devfs_register` changes nothing. Otherwise there is one device more, and a look-up
-- of any name gives the device that it gave before, or the new one where it gave none and the new one
-- has the name.
pub devfs_register_lem :
    (device : ℕ) (s : Devfs)
    → ((max_devfs_devices ≤ s.device_count) × (devfs_register device s ≡ s))
      ⊎ ((s.device_count < max_devfs_devices)
          × ((devfs_register device s).device_count ≡ suc s.device_count)
          × ((name : List ℕ)
              → devfs_finddir name (devfs_register device s)
                ≡ or_else (devfs_finddir name s) (same_text (s.names device) name) device))
unfolding devfs_register
devfs_register_lem device s = elim (Bool-cases (leb 32 s.device_count)) [
  | inl full ↦ inl (ground arith, rw full)
  | inr open_place ↦
      inr (ground arith, rw open_place, λ name. rw open_place (finddir-more device s name))
]
