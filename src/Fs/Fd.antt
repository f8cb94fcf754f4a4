-- ===== src/Fs/Fd.antt =====
-- src/fs/fd.c and src/include/fs/fd.h, the table of open files. A node is its address, 0 is NULL.
pub mod Table
use miyabi.Base.{
  ℕ, zero, suc, ◌+◌, Bool, true, false, Option, none, some, List, [], ◌∷◌, ltb, leb, ◌==◌,
  if◌then◌else◌, set, get_elem?, replicate,
}
use miyabi.Base.Int.{ℤ, pos, negsuc}

-- `file_descriptor_t`
pub record FileDescriptor : Type 0 where
  pub node : ℕ
  pub offset : ℕ
  pub flags : ℕ

-- `fd_table`
abbrev pub FdTable : Type 0
FdTable = List FileDescriptor

-- MAX_OPEN_FILES, VFS_FLAG_WRITE
abbrev pub max_open_files : ℕ
max_open_files = 16

abbrev pub vfs_flag_write : ℕ
vfs_flag_write = 2

abbrev pub opened : ℕ → FileDescriptor
opened node = record { node = node; offset = 0; flags = 0 }

-- `void init_fds(void)`, where `fb_node` is what the look-up of /dev/fb0 returns.
unfoldable pub init_fds : ℕ → FdTable
init_fds fb_node =
    let cleared = replicate max_open_files (opened 0) in
    let output : FileDescriptor = record { node = fb_node; offset = 0; flags = vfs_flag_write } in
    if fb_node == 0 then cleared else set (set cleared 1 output) 2 output

-- The loop of `fd_alloc`: the first descriptor without a node.
unfoldable pub first_unused : FdTable → Option ℕ
first_unused [] = none
first_unused (d ∷ ds) =
    if d.node == 0 then some 0 else elim (first_unused ds) [ none ↦ none | some i ↦ some (suc i) ]

-- `int fd_alloc(vfs_node_t *node)`
unfoldable pub fd_alloc : ℕ → FdTable → ℤ × FdTable
fd_alloc node table = elim (first_unused table) [
  | none ↦ (negsuc 0, table)
  | some i ↦ (pos i, set table i (opened node))
]

-- The entry at an index in range.
abbrev pub node_at : FdTable → ℕ → ℕ
node_at table i = elim (get_elem? table i) [ none ↦ 0 | some d ↦ d.node ]

-- `vfs_node_t *fd_get_node(int fd)`
unfoldable pub fd_get_node : ℤ → FdTable → ℕ
fd_get_node (pos i) table = if leb max_open_files i then 0 else node_at table i
fd_get_node (negsuc n) table = 0

-- `void fd_close(int fd)`
unfoldable pub fd_close : ℤ → FdTable → FdTable
fd_close (pos i) table = if leb max_open_files i then table else set table i (opened 0)
fd_close (negsuc n) table = table
