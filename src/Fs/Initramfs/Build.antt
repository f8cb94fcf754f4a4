-- ===== src/Fs/Initramfs/Build.antt =====
-- src/fs/initramfs.c: the table of nodes is built from the archive. `archive` is the header at an
-- address; the texts of a header are lists. The loop on the headers takes fuel.
pub mod Table
mod Tests
use miyabi.Base.{
  ℕ, zero, suc, ◌+◌, ◌-◌, ◌*◌, ◌/◌, ◌%◌, ◌^◌, Bool, true, false, not, ◌&&◌, ◌||◌, Option, none,
  some, ◌++◌, take, length, List, [], ◌∷◌, leb, ltb, ◌==◌, if◌then◌else◌, u32, u64, update,
}
use miyabi.Base.Run.{Run, done, stuck, ◌>>=◌}
use miyabi.Base.Search.{first_from}
use miyabi.Fs.Vfs.{Node, fs_directory}
use miyabi.Fs.Initramfs.{Ramfs, oct2bin, sanitize_path, tar_match_name}

-- `struct tar_header`, in the fields that the code reads
pub record TarHeader : Type 0 where
  pub filename : List ℕ
  pub size : List ℕ
  pub typeflag : ℕ

abbrev pub max_ramfs_nodes : ℕ
max_ramfs_nodes = 128

abbrev pub fs_file : ℕ
fs_file = 1

-- A node all of whose bytes are 0.
abbrev pub zero_node : Node
zero_node = record { flags = 0; length = 0; read = 0; open_ = 0; close = 0; finddir = 0; ptr = 0 }

-- 'x', 'g', 'K' and 'L'
abbrev pub is_extension : ℕ → Bool
is_extension typeflag = typeflag == 120 || typeflag == 103 || typeflag == 75 || typeflag == 76

-- (uint64_t)header + 512 + (blocks * 512)
abbrev pub next_header : ℕ → ℕ → ℕ
next_header header size =
    let blocks = size / 512 + (if size % 512 == 0 then 0 else 1) in
    u64 (header + 512 + blocks * 512)

-- `kmalloc` of a node, over the state of the heap, and the addresses of `ramfs_finddir` and
-- `ramfs_read`.
pub record Heap : Type 1 where
  pub State : Type 0
  pub kmalloc : State → ℕ × State
  pub ramfs_finddir : ℕ
  pub ramfs_read : ℕ

module _ (k : Heap) where
  -- The static variables, the nodes that they refer to, and the heap.
  pub record Build : Type 0 where
    pub ramfs : Ramfs
    pub nodes : ℕ → Node
    pub heap : k.State

  -- The code returns early, or goes on.
  pub data Made : Type 0 where
    full : Build → Made
    made : Build → Made

  -- ramfs_nodes[ramfs_node_count++] = node;
  unfoldable pub add_node : ℕ → Node → List ℕ → Build → Build
  add_node address node name b = record b {
    ramfs = record (b.ramfs) {
      ramfs_nodes = update b.ramfs.ramfs_nodes b.ramfs.ramfs_node_count address;
      ramfs_node_count = b.ramfs.ramfs_node_count + 1;
      names = update b.ramfs.names address name;
    };
    nodes = update b.nodes address node;
  }

  -- A node is allocated and added, if there is room for it.
  unfoldable pub make_node : Node → List ℕ → Build → Made
  unfolding add_node
  make_node node name b =
      let (address, heap) = k.kmalloc b.heap in
      let allocated = record b { heap = heap } in
      if leb max_ramfs_nodes b.ramfs.ramfs_node_count
      then full b
      else (if address == 0 then full allocated else made (add_node address node name allocated))

  abbrev pub directory_node : Node
  directory_node = record zero_node { flags = fs_directory; finddir = k.ramfs_finddir }

  -- `found`
  unfoldable pub has_dir : List ℕ → Build → Bool
  has_dir dir_path b =
      elim (first_from b.ramfs.ramfs_node_count 0 (λ i.
        not (b.ramfs.ramfs_nodes i == 0)
        && tar_match_name (b.ramfs.names (b.ramfs.ramfs_nodes i)) dir_path)) [
          | none ↦ false
          | some i ↦ true
        ]

  -- The loop of `ensure_parent_dirs_exist`, with what is in `dir_path` so far.
  unfoldable pub ensure_from : List ℕ → List ℕ → Build → Build
  unfolding make_node has_dir
  ensure_from [] dir_path b = b
  ensure_from (c ∷ path) dir_path b =
      let skipped = ensure_from path (dir_path ++ c ∷ []) b in
      let added : Build = elim (make_node directory_node dir_path b) [
        | full b' ↦ b'
        | made b' ↦ ensure_from path (dir_path ++ c ∷ []) b'
      ] in
      if c == 47 && (not (has_dir dir_path b) && not (length dir_path == 0)) then added else skipped

  -- `static void ensure_parent_dirs_exist(const char *raw_path)`
  unfoldable pub ensure_parent_dirs_exist : List ℕ → Build → Build
  unfolding ensure_from sanitize_path
  ensure_parent_dirs_exist raw_path b = ensure_from (sanitize_path raw_path) [] b

  -- The node of an archive's entry.
  abbrev pub entry_node : ℕ → TarHeader → Node
  entry_node header h = if h.typeflag == 53 then directory_node else record zero_node {
    flags = fs_file;
    length = u32 (oct2bin h.size);
    read = k.ramfs_read;
    ptr = u64 (header + 512);
  }

  -- The loop of `init_initramfs`.
  unfoldable pub read_archive : ℕ → (ℕ → TarHeader) → ℕ → Build → Run Build
  unfolding ensure_parent_dirs_exist make_node oct2bin
  read_archive zero archive header b = stuck
  read_archive (suc n) archive header b =
      let h = archive header in
      let clean_filename = sanitize_path h.filename in
      let next = next_header header (oct2bin h.size) in
      let skipped = read_archive n archive next b in
      let added : Run Build =
        elim (make_node (entry_node header h) (take 99 clean_filename)
          (ensure_parent_dirs_exist clean_filename b)) [
            | full b' ↦ done b'
            | made b' ↦ read_archive n archive next b'
          ] in
      if length h.filename == 0
      then done b
      else (if is_extension h.typeflag then skipped else added)

  -- `vfs_node_t *init_initramfs(uint64_t ramfs_addr)`
  unfoldable pub init_initramfs : ℕ → (ℕ → TarHeader) → ℕ → Build → Run (ℕ × Build)
  unfolding read_archive
  init_initramfs n archive ramfs_addr b =
      let (root, heap) = k.kmalloc b.heap in
      let rooted = record b {
        ramfs = record (b.ramfs) { ramfs_root = root; names = update b.ramfs.names root (47 ∷ []) };
        nodes = update b.nodes root directory_node;
        heap = heap;
      } in
      let loaded = read_archive n archive ramfs_addr rooted in
      if root == 0
      then done (0, record b { ramfs = record (b.ramfs) { ramfs_root = 0 }; heap = heap })
      else (loaded >>= λ b'. done (root, b'))
