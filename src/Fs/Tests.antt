-- ===== src/Fs/Tests.antt =====
-- The theorems on file systems at concrete inputs, and runs of the operations.
use miyabi.Base.{
  ℕ, ◌<◌, ◌≡◌, ◌≢◌, ◌⊎◌, refl, arith, false, none, some, List, [], ◌∷◌, ◌==◌, if◌then◌else◌,
  replicate, length,
}
use miyabi.Base.Int.{pos, negsuc}
use miyabi.Base.Run.{done}
use miyabi.Cstring.{compare_texts, same_text}
use miyabi.Base.Search.{first_from}
use miyabi.Drivers.Block.{Devices, get_block_device}
use miyabi.Fs.Fd.{FdTable, opened, max_open_files, fd_alloc, fd_get_node, fd_close}
use miyabi.Fs.Fd.Table.{Given, fd_alloc_lem, fd_close-fd_alloc}
use miyabi.Drivers.Block.{register_block_device}
use miyabi.Fs.Devfs.{Devfs, init_devfs}
use miyabi.Base.{◌<◌}
use miyabi.Base.{Option, Bool-cases, inl, inr}
use miyabi.Fs.Gpt.{read64, parse_sector, gpt_parse}
use miyabi.Fs.Gpt.Sectors.{IsGptHeader, Walks, IsBounded}
use miyabi.Fs.Gpt.Walk.{gpt_parse_lem}
use miyabi.Fs.Mbr.{Sector, read16, mbr_parse}
use miyabi.Fs.Mbr.Partitions.{entries, before_gpt, has_gpt, in_use, register_all, mbr_parse_lem}
use miyabi.Fs.Vfs.{
  Vfs, Callbacks, slash, vfs_mount, cross, vfs_get_node_by_path, vfs_open, vfs_read, vfs_close,
  vfs_mount_by_name,
}
use miyabi.Fs.Vfs.Descent.{Descends}
use miyabi.Fs.Vfs.Components.{IsName, components, join, components-join}
use miyabi.Fs.Vfs.Lookup.{descend, vfs_get_node_by_path_lem, vfs_get_node_by_path-join}

abbrev table : FdTable
table = opened 500 ∷ replicate 15 (opened 0)

fd_alloc_lem_example :
    ((fd_alloc 900 table ≡ (negsuc 0, table))
      × ((j : ℕ) → j < max_open_files → fd_get_node (pos j) table ≢ 0))
    ⊎ ((i : ℕ) × ((fd_alloc 900 table).0 ≡ pos i) × Given 900 table i (fd_alloc 900 table).1)
fd_alloc_lem_example = fd_alloc_lem 900 table refl

fd_close-fd_alloc_example :
    fd_get_node (pos 1) (fd_close (fd_alloc 900 table).0 (fd_alloc 900 table).1)
    ≡ fd_get_node (pos 1) table
fd_close-fd_alloc_example = fd_close-fd_alloc 900 table (pos 1) refl

-- Node 1 is the root, a directory; node 2 is mounted over node 3, the "d" of the root.
abbrev vfs : Vfs
vfs = record {
  fs_root = 1;
  fs_types_head = 10;
  nodes = λ a.
      if a == 3
      then record { flags = 66; length = 0; read = 0; open_ = 0; close = 0; finddir = 5; ptr = 2 }
      else record { flags = 2; length = 0; read = 0; open_ = 0; close = 0; finddir = 5; ptr = 0 };
  fs_types = λ a. record { name = 101 ∷ []; mount = 20; next = 0 };
}

-- The root has "d", and every other directory has "e", node 4.
abbrev calls : Callbacks
calls = record {
  finddir = λ f node name v. if node == 1 then 3 else (if node == 2 then 4 else 0);
  mount = λ f dev v. (2, v);
  open_ = λ f node flags v. v;
  read = λ f node buffer size offset v. (0, v);
  close = λ f node v. v;
}

-- "//d/e/"
abbrev path : List ℕ
path = 47 ∷ 47 ∷ 100 ∷ 47 ∷ 101 ∷ 47 ∷ []

vfs_get_node_by_path_lem_example :
    (47 ≡ slash
      → Descends calls vfs 1 (components path) (vfs_get_node_by_path calls 7 (some path) vfs))
    × (47 ≢ slash → vfs_get_node_by_path calls 7 (some path) vfs ≡ done 0)
    × (vfs_get_node_by_path calls 7 (some []) vfs ≡ done 0)
    × (vfs_get_node_by_path calls 7 none vfs ≡ done 0)
vfs_get_node_by_path_lem_example =
    vfs_get_node_by_path_lem calls 7 vfs 47 (47 ∷ 100 ∷ 47 ∷ 101 ∷ 47 ∷ []) (omega arith)

-- The mount point is crossed on the way.
lookup_run : vfs_get_node_by_path calls 7 (some path) vfs ≡ done 4
unfolding vfs_get_node_by_path
lookup_run = refl

two_names : (n : ℕ) → n ≢ slash → IsName (n ∷ [])
two_names n ne = ((λ e. cc), (ne, tt))

abbrev d_e : List (List ℕ)
d_e = (100 ∷ []) ∷ (101 ∷ []) ∷ []

short : length (join d_e) < 7
unfolding join
short = omega arith

vfs_get_node_by_path-join_example :
    vfs_get_node_by_path calls 7 (some (join d_e)) vfs ≡ descend calls vfs 1 d_e
vfs_get_node_by_path-join_example =
    vfs_get_node_by_path-join calls 7 vfs (100 ∷ []) ((101 ∷ []) ∷ [])
      (two_names 100 (omega arith), (two_names 101 (omega arith), tt)) short

components-join_example : components (join d_e) ≡ d_e
components-join_example =
    components-join d_e (two_names 100 (omega arith), (two_names 101 (omega arith), tt))

abbrev devices : Devices
devices = record {
  block_devices = λ i. record {
    name = 115 ∷ [];
    sector_size = 512;
    total_sectors = 1;
    start_lba = 0;
    read = 0;
    write = 0;
    priv_data = 0;
  };
  num_block_devices = 1;
}

-- Mounting on the root, on a path that does not exist, and by unknown names.
mount_run :
    vfs_mount_by_name calls 9 (115 ∷ []) (47 ∷ []) (101 ∷ []) devices vfs
    ≡ done (pos 0, vfs_mount 1 2 vfs)
unfolding vfs_mount_by_name first_from get_block_device same_text compare_texts
mount_run = refl

no_mountpoint_run :
    vfs_mount_by_name calls 9 (115 ∷ []) (120 ∷ []) (101 ∷ []) devices vfs ≡ done (negsuc 3, vfs)
unfolding vfs_mount_by_name first_from get_block_device same_text compare_texts
no_mountpoint_run = refl

no_type_run :
    vfs_mount_by_name calls 9 (115 ∷ []) (47 ∷ []) (102 ∷ []) devices vfs ≡ done (negsuc 1, vfs)
unfolding vfs_mount_by_name first_from get_block_device same_text compare_texts
no_type_run = refl

open_run : vfs_open calls 7 (some path) 0 vfs ≡ done (4, vfs)
unfolding vfs_open
open_run = refl

read_run : vfs_read calls 4 0 10 0 vfs ≡ (0, vfs)
unfolding vfs_read
read_run = refl

close_run : vfs_close calls 4 vfs ≡ vfs
unfolding vfs_close
close_run = refl

-- The root that is mounted over leads to the other root.
crossed_run : cross (vfs_mount 1 2 vfs) 1 ≡ 2
unfolding cross vfs_mount
crossed_run = refl

-- A signed sector whose second entry is a Linux partition.
abbrev sector : Sector
sector a =
    if a == 510
    then 85
    else (if a == 511 then 170 else (if a == 466 then 131 else (if a == 470 then 63 else 0)))

mbr_parse_lem_example :
    ((read16 sector 510 ≢ 43605) × (mbr_parse 7 sector devices ≡ (devices, false)))
    ⊎ ((read16 sector 510 ≡ 43605)
        × (mbr_parse 7 sector devices ≡ (
          register_all 7 (in_use (before_gpt (entries sector))) devices,
          has_gpt (entries sector),
        )))
mbr_parse_lem_example = mbr_parse_lem 7 sector devices

mbr_run : ((mbr_parse 7 sector devices).0.block_devices 1).start_lba ≡ 63
unfolding mbr_parse register_block_device
mbr_run = refl

-- The device 20 is "f".
abbrev devfs : Devfs
devfs = record {
  devfs_root = 0;
  devices = λ i. 0;
  device_count = 0;
  names = λ a. 102 ∷ [];
  flags = λ a. 0;
  finddir = λ a. 0;
}

devfs_run : (init_devfs 7 8 devfs).1.flags 7 ≡ 2
unfolding init_devfs
devfs_run = refl

-- A header of five entries from sector 2 on.
abbrev header : Sector
header a =
    if a == 0
    then 69
    else (if a == 1
        then 70
        else (if a == 2
            then 73
            else (if a == 3
                then 32
                else (if a == 4
                    then 80
                    else (if a == 5
                        then 65
                        else (if a == 6
                            then 82
                            else (if a == 7
                                then 84
                                else (if a == 12
                                    then 92
                                    else (if a == 24
                                        then 1
                                        else (if a == 72
                                            then 2
                                            else (if a == 80
                                                then 5
                                                else (if a == 84 then 128 else 0))))))))))))

-- Bytes of the name of an entry, which stand where the header has its number of entries.
abbrev named : Sector
named a = if a == 80 then 6 else 0

-- A disk of four sectors.
abbrev disk : ℕ → Option Sector
disk lba =
    if lba == 1
    then some header
    else (if lba == 2 then some named else (if lba == 3 then some sector else none))

same_sector : {s t : Sector} → some s ≡ some t → s ≡ t
same_sector e = cc

disk-IsBounded : IsBounded 12 disk
disk-IsBounded lba s e = elim (Bool-cases (lba == 1)) [
  | inl one ↦ rw (← same_sector (rw one at e)) (omega arith, omega arith)
  | inr more ↦ elim (Bool-cases (lba == 2)) [
    | inl two ↦ rw (← same_sector (rw (more, two) at e)) (omega arith, omega arith)
    | inr most ↦ elim (Bool-cases (lba == 3)) [
      | inl three ↦ rw (← same_sector (rw (more, most, three) at e)) (omega arith, omega arith)
      | inr no_sector ↦ absurd (nothing (rw (more, most, no_sector) at e))
    ]
  ]
]
  where
    nothing : none ≡ some s → ⊥
    nothing h = cc

header-IsGptHeader : IsGptHeader header
header-IsGptHeader = record {
  signature = refl;
  least_size = omega arith;
  most_size = omega arith;
  first_sector = refl;
  some_entries = omega arith;
  entry_size = refl;
}

gpt_parse_lem_example :
    (disk 1 ≡ none → gpt_parse 3 disk ≡ done 0)
    × ((s : Sector) → disk 1 ≡ some s → ¬ IsGptHeader s → gpt_parse 3 disk ≡ done 0)
    × ((s : Sector)
        → disk 1 ≡ some s
        → IsGptHeader s
        → Walks disk (read64 s 72) 0 (gpt_parse 3 disk))
gpt_parse_lem_example = gpt_parse_lem 3 disk disk-IsBounded

-- The header is one, and two sectors are read: the number in the first of them is 6.
gpt_walk : Walks disk (read64 header 72) 0 (gpt_parse 3 disk)
gpt_walk = (gpt_parse_lem 3 disk disk-IsBounded).2 header refl header-IsGptHeader

gpt_run : gpt_parse 3 disk ≡ done 1
unfolding gpt_parse parse_sector
gpt_run = refl
