-- ===== src/Fs/Devfs.antt =====
-- src/fs/devfs/devfs.c, the device file system. A node is its address, and the comparison of the file
-- is that of `strcmp`. What `kmalloc` returns is an argument.
pub mod Table
use miyabi.Base.{ℕ, suc, Option, none, some, List, [], ◌∷◌, leb, ◌==◌, if◌then◌else◌, update}
use miyabi.Base.Search.{first_from}
use miyabi.Cstring.{same_text}
use miyabi.Fs.Vfs.{fs_directory}

-- The static variables of the file, and the nodes' names, flags and `finddir`.
pub record Devfs : Type 0 where
  pub devfs_root : ℕ
  pub devices : ℕ → ℕ
  pub device_count : ℕ
  pub names : ℕ → List ℕ
  pub flags : ℕ → ℕ
  pub finddir : ℕ → ℕ

abbrev pub max_devfs_devices : ℕ
max_devfs_devices = 32

-- `static vfs_node_t *devfs_finddir(vfs_node_t *node, char *name)`; none is NULL.
unfoldable pub devfs_finddir : List ℕ → Devfs → Option ℕ
devfs_finddir name s =
    elim (first_from s.device_count 0 (λ i. same_text (s.names (s.devices i)) name)) [
      | none ↦ none
      | some i ↦ some (s.devices i)
    ]

-- `vfs_node_t *init_devfs(void)`, where `kmalloc` returns `root` and `devfs_finddir` has the address
-- `function`.
unfoldable pub init_devfs : ℕ → ℕ → Devfs → ℕ × Devfs
init_devfs root function s = (
  root,
  record s {
    devfs_root = root;
    names = update s.names root (100 ∷ 101 ∷ 118 ∷ []);
    flags = update s.flags root fs_directory;
    finddir = update s.finddir root function;
    devices = λ i. if leb max_devfs_devices i then s.devices i else 0;
  },
)

-- `void devfs_register(vfs_node_t *device)`
unfoldable pub devfs_register : ℕ → Devfs → Devfs
devfs_register device s = if leb max_devfs_devices s.device_count then s else record s {
  devices = update s.devices s.device_count device;
  device_count = suc s.device_count;
}
