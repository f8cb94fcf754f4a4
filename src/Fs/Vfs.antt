-- ===== src/Fs/Vfs.antt =====
-- src/fs/vfs.c and src/include/fs/vfs.h, the tree of nodes and the list of file system types. A node
-- is an address of the store `nodes`, 0 is NULL. The functions behind the pointers of a node or of a
-- file system type are code of other files: `Callbacks` is what this file sees of them. A path is a
-- text. A token of 128 characters or more is written past the end of the array `token[128]`, which
-- C leaves open: the look-up is then `halted`. The loops take fuel.
pub mod Components
pub mod Descent
pub mod Lookup
pub mod Types
use miyabi.Base.{
  ℕ, zero, suc, ◌+◌, bit_and, bit_or, Bool, true, false, not, ◌&&◌, ◌||◌, Option, none, some, List,
  [], ◌∷◌, ◌++◌, leb, ltb, ◌==◌, if◌then◌else◌, update, length,
}
use miyabi.Base.Int.{ℤ, pos, negsuc}
use miyabi.Base.Run.{Run, done, halted, stuck, ◌>>=◌}
use miyabi.Cstring.{same_text}
use miyabi.Drivers.Block.{Devices, get_block_device}

-- What this file uses of `vfs_node_t`.
pub record Node : Type 0 where
  pub flags : ℕ
  pub length : ℕ
  pub read : ℕ
  pub open_ : ℕ
  pub close : ℕ
  pub finddir : ℕ
  pub ptr : ℕ

-- `vfs_fs_type_t`
pub record FsType : Type 0 where
  pub name : List ℕ
  pub mount : ℕ
  pub next : ℕ

abbrev pub fs_directory : ℕ
fs_directory = 2

abbrev pub fs_mountpoint : ℕ
fs_mountpoint = 64

abbrev pub slash : ℕ
slash = 47

abbrev pub token_size : ℕ
token_size = 128

-- The static variables of the file, the nodes and the file system types.
pub record Vfs : Type 0 where
  pub fs_root : ℕ
  pub fs_types_head : ℕ
  pub nodes : ℕ → Node
  pub fs_types : ℕ → FsType

-- `finddir f node name` is the call of `f` on `node`, and so on.
pub record Callbacks : Type 0 where
  pub finddir : ℕ → ℕ → List ℕ → Vfs → ℕ
  pub mount : ℕ → ℕ → Vfs → ℕ × Vfs
  pub open_ : ℕ → ℕ → ℕ → Vfs → Vfs
  pub read : ℕ → ℕ → ℕ → ℕ → ℕ → Vfs → ℕ × Vfs
  pub close : ℕ → ℕ → Vfs → Vfs

-- while (path[offset] == '/') offset++;
unfoldable pub skip_slashes : List ℕ → List ℕ
skip_slashes [] = []
skip_slashes (c ∷ cs) = let rest = skip_slashes cs in if c == slash then rest else c ∷ cs

-- The characters up to the next slash, and the rest of the path.
unfoldable pub read_token : List ℕ → List ℕ × List ℕ
read_token [] = ([], [])
read_token (c ∷ cs) =
    let (token, rest) = read_token cs in if c == slash then ([], c ∷ cs) else (c ∷ token, rest)

-- `static int get_next_token(const char *path, int offset, char *token)`, where the path begins at
-- the offset: none is -1, and the second part is the path from the offset that is returned.
unfoldable pub get_next_token : List ℕ → Option (List ℕ × List ℕ)
unfolding skip_slashes read_token
get_next_token path = elim (skip_slashes path) [ [] ↦ none | c ∷ cs ↦ some (read_token (c ∷ cs)) ]

-- `void vfs_mount(vfs_node_t *mountpoint, vfs_node_t *target)`
unfoldable pub vfs_mount : ℕ → ℕ → Vfs → Vfs
vfs_mount mountpoint target v =
    let node = v.nodes mountpoint in
    if mountpoint == 0 then v else record v {
      nodes =
          update v.nodes mountpoint
            (record node { flags = bit_or node.flags fs_mountpoint; ptr = target });
    }

abbrev pub is_mountpoint : Node → Bool
is_mountpoint node = not (bit_and node.flags fs_mountpoint == 0)

abbrev pub is_directory : Node → Bool
is_directory node = not (bit_and node.flags fs_directory == 0)

-- The node behind a mount point.
unfoldable pub cross : Vfs → ℕ → ℕ
cross v node = if not (node == 0) && is_mountpoint (v.nodes node) then (v.nodes node).ptr else node

module _ (callbacks : Callbacks) where
  -- One round of the loop of `vfs_get_node_by_path`, which returns NULL where the result is 0.
  unfoldable pub enter : Vfs → ℕ → List ℕ → ℕ
  unfolding cross
  enter v current_node token =
      let node = cross v current_node in
      if node == 0
      then 0
      else (if is_directory (v.nodes node) && not ((v.nodes node).finddir == 0)
          then callbacks.finddir (v.nodes node).finddir node token v
          else 0)

  -- The loop, and what comes behind it.
  unfoldable pub walk_path : ℕ → Vfs → List ℕ → ℕ → Run ℕ
  unfolding get_next_token enter cross
  walk_path zero v path current_node = stuck
  walk_path (suc n) v path current_node = elim (get_next_token path) [
    | none ↦ done (cross v current_node)
    | some (token, rest) ↦
        let node = enter v current_node token in
        let onward = walk_path n v rest node in
        if leb token_size (length token) then halted else (if node == 0 then done 0 else onward)
  ]

  -- `vfs_node_t *vfs_get_node_by_path(const char *path)`; none is NULL.
  unfoldable pub vfs_get_node_by_path : ℕ → Option (List ℕ) → Vfs → Run ℕ
  unfolding walk_path
  vfs_get_node_by_path n none v = done 0
  vfs_get_node_by_path n (some []) v = done 0
  vfs_get_node_by_path n (some (c ∷ cs)) v =
      if c == slash then walk_path n v (c ∷ cs) v.fs_root else done 0

  -- `vfs_node_t *vfs_open(const char *path, uint32_t flags)`
  unfoldable pub vfs_open : ℕ → Option (List ℕ) → ℕ → Vfs → Run (ℕ × Vfs)
  unfolding vfs_get_node_by_path
  vfs_open n path flags v = vfs_get_node_by_path n path v >>= λ node.
      if node == 0
      then done (0, v)
      else (if (v.nodes node).open_ == 0
          then done (node, v)
          else done (node, callbacks.open_ (v.nodes node).open_ node flags v))

  -- `uint64_t vfs_read(vfs_node_t *node, uint8_t *buffer, uint64_t size, uint64_t offset)`
  unfoldable pub vfs_read : ℕ → ℕ → ℕ → ℕ → Vfs → ℕ × Vfs
  vfs_read node buffer size offset v =
      if node == 0 || (v.nodes node).read == 0
      then (0, v)
      else callbacks.read (v.nodes node).read node buffer size offset v

  -- `void vfs_close(vfs_node_t *node)`
  unfoldable pub vfs_close : ℕ → Vfs → Vfs
  vfs_close node v =
      if node == 0 || (v.nodes node).close == 0
      then v
      else callbacks.close (v.nodes node).close node v

-- `void vfs_register_filesystem(vfs_fs_type_t *fs)`
unfoldable pub vfs_register_filesystem : ℕ → Vfs → Vfs
vfs_register_filesystem fs v = if fs == 0 then v else record v {
  fs_types = update v.fs_types fs (record (v.fs_types fs) { next = v.fs_types_head });
  fs_types_head = fs;
}

-- The loop of `vfs_find_filesystem`.
unfoldable pub find_type : ℕ → ℕ → List ℕ → (ℕ → FsType) → Run ℕ
find_type zero current name types = stuck
find_type (suc n) current name types =
    let rest = find_type n (types current).next name types in
    if current == 0
    then done 0
    else (if same_text (types current).name name then done current else rest)

-- `vfs_fs_type_t *vfs_find_filesystem(const char *name)`; none is NULL.
unfoldable pub vfs_find_filesystem : ℕ → Option (List ℕ) → Vfs → Run ℕ
unfolding find_type
vfs_find_filesystem n none v = done 0
vfs_find_filesystem n (some name) v = find_type n v.fs_types_head name v.fs_types

-- `int vfs_mount_by_name(const char *device_name, const char *mount_path, const char *fs_type_name)`
unfoldable pub vfs_mount_by_name :
    Callbacks → ℕ → List ℕ → List ℕ → List ℕ → Devices → Vfs → Run (ℤ × Vfs)
unfolding vfs_find_filesystem vfs_get_node_by_path vfs_mount
vfs_mount_by_name callbacks n device_name mount_path fs_type_name devices v =
    elim (get_block_device device_name devices) [
      | none ↦ done (negsuc 0, v)
      | some dev ↦ vfs_find_filesystem n (some fs_type_name) v >>= λ fs.
          if fs == 0
          then done (negsuc 1, v)
          else (let (root_node, v') = callbacks.mount (v.fs_types fs).mount dev v in
              let mounted = vfs_get_node_by_path callbacks n (some mount_path) v' >>= λ mountpoint.
              if mountpoint == 0
              then done (negsuc 3, v')
              else done (pos 0, vfs_mount mountpoint root_node v') in
              if root_node == 0 then done (negsuc 2, v') else mounted)
    ]
