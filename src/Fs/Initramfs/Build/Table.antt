-- ===== src/Fs/Initramfs/Build/Table.antt =====
-- The table of nodes while it is built, and that the building ends.
use miyabi.Base.{
  ℕ, zero, suc, ◌+◌, ◌≤◌, ◌<◌, ◌≡◌, ◌≢◌, ◌⊎◌, refl, arith, Bool, true, false, not, ◌&&◌, List, [],
  ◌∷◌, ◌++◌, ◌==◌, leb, length, if◌then◌else◌, take, update, update_self, update_ne, sym, ap, ◌∙◌,
  inl, inr, Bool-cases,
}
use miyabi.Base.Run.{Run, done, halted, stuck, Ends, Ends-mono, ◌>>=◌}
use miyabi.Fs.Vfs.{Node}
use miyabi.Fs.Initramfs.{oct2bin, sanitize_path}
use miyabi.Fs.Initramfs.Build.{
  TarHeader, Heap, Build, Made, full, made, add_node, make_node, directory_node, entry_node,
  has_dir, ensure_from, ensure_parent_dirs_exist, read_archive, init_initramfs, next_header,
  is_extension,
}

-- The archive ends at the latest with the `n`-th header from `header` on.
unfoldable pub EndsWithin : ℕ → (ℕ → TarHeader) → ℕ → Type 0
EndsWithin zero archive header = ⊥
EndsWithin (suc n) archive header =
    (length (archive header).filename ≡ 0)
    ⊎ EndsWithin n archive (next_header header (oct2bin (archive header).size))

module _ (k : Heap) where
  -- The table does not overflow and has no NULL among its nodes.
  pub record IsTable (b : Build k) : Type 0 where
    pub bound : b.ramfs.ramfs_node_count ≤ 128
    pub nodes : (i : ℕ) → i < b.ramfs.ramfs_node_count → b.ramfs.ramfs_nodes i ≢ 0

  -- `b'` is a table with the entries of `b`, and perhaps more behind them; the root is the same.
  pub record Grown (b b' : Build k) : Type 0 where
    pub table : IsTable b'
    pub count : b.ramfs.ramfs_node_count ≤ b'.ramfs.ramfs_node_count
    pub same :
        (i : ℕ) → i < b.ramfs.ramfs_node_count → b'.ramfs.ramfs_nodes i ≡ b.ramfs.ramfs_nodes i
    pub root : b'.ramfs.ramfs_root ≡ b.ramfs.ramfs_root

  Grown-refl : (b : Build k) → IsTable b → Grown b b
  Grown-refl b t = record { table = t; count = omega arith; same = λ i lt. refl; root = refl }

  Grown-trans : (a b c : Build k) → Grown a b → Grown b c → Grown a c
  Grown-trans a b c g h =
      let le = g.count in
      record {
        table = h.table;
        count = omega (arith, g.count, h.count);
        same = λ i lt. h.same i (omega arith) ∙ g.same i lt;
        root = h.root ∙ g.root;
      }

  -- Of a step that may return early.
  abbrev pub GrownMade : Build k → Made k → Type 0
  GrownMade b (full b') = Grown b b'
  GrownMade b (made b') = Grown b b'

  make_node-Grown :
      (node : Node) (name : List ℕ) (b : Build k)
      → IsTable b
      → GrownMade b (make_node k node name b)
  unfolding make_node add_node
  make_node-Grown node name b t = elim (Bool-cases (leb 128 b.ramfs.ramfs_node_count)) [
    | inl no_room ↦ rw no_room (Grown-refl b t)
    | inr room ↦ elim (Bool-cases ((k.kmalloc b.heap).0 == 0)) [
      | inl out ↦
          rw (room, out)
            (record {
              table = record { bound = t.bound; nodes = t.nodes };
              count = omega arith;
              same = λ i lt. refl;
              root = refl;
            })
      | inr given ↦
          rw (room, given)
            (record {
              table = record {
                bound = below b.ramfs.ramfs_node_count room;
                nodes = some_node (k.kmalloc b.heap).0 (is_some (k.kmalloc b.heap).0 given);
              };
              count = omega arith;
              same = λ i lt.
                  update_ne b.ramfs.ramfs_nodes b.ramfs.ramfs_node_count (k.kmalloc b.heap).0 i
                    (omega arith);
              root = refl;
            })
    ]
  ]
    where
      below : (n : ℕ) → leb 128 n ≡ false → n + 1 ≤ 128
      below n h = ground arith

      is_some : (n : ℕ) → (n == 0) ≡ false → n ≢ 0
      is_some n h = ground arith

      some_node :
          (address : ℕ)
          → address ≢ 0
          → (i : ℕ) → i < b.ramfs.ramfs_node_count + 1
          → update b.ramfs.ramfs_nodes b.ramfs.ramfs_node_count address i ≢ 0
      some_node address ne i lt z = elim (Bool-cases (b.ramfs.ramfs_node_count == i)) [
        | inl last ↦
            let e : b.ramfs.ramfs_node_count ≡ i = ground arith in
            ne (
              sym (update_self b.ramfs.ramfs_nodes i address)
              ∙ ap (λ x. update b.ramfs.ramfs_nodes x address i) (sym e)
              ∙ z)
        | inr earlier ↦
            let ne' : b.ramfs.ramfs_node_count ≢ i = ground arith in
            t.nodes i (omega arith)
              (sym (update_ne b.ramfs.ramfs_nodes b.ramfs.ramfs_node_count address i ne') ∙ z)
      ]

  ensure_from-Grown :
      (path dir_path : List ℕ) (b : Build k) → IsTable b → Grown b (ensure_from k path dir_path b)
  unfolding ensure_from
  ensure_from-Grown [] dir_path b t = Grown-refl b t
  ensure_from-Grown (c ∷ path) dir_path b t =
      go (ensure_from-Grown path (dir_path ++ c ∷ []) b t)
        (λ b' t'. ensure_from-Grown path (dir_path ++ c ∷ []) b' t')
        (make_node k (directory_node k) dir_path b)
        (make_node-Grown (directory_node k) dir_path b t)
        (c == 47 && (not (has_dir k dir_path b) && not (length dir_path == 0)))
    where
      go :
          Grown b (ensure_from k path (dir_path ++ c ∷ []) b)
          → ((b' : Build k) → IsTable b' → Grown b' (ensure_from k path (dir_path ++ c ∷ []) b'))
          → (x : Made k) → GrownMade b x
          → (chosen : Bool)
          → Grown b (
              if chosen
              then elim x [ full b' ↦ b' | made b' ↦ ensure_from k path (dir_path ++ c ∷ []) b' ]
              else ensure_from k path (dir_path ++ c ∷ []) b)
      go skipped rest x g false = skipped
      go skipped rest (full b') g true = g
      go skipped rest (made b') g true = Grown-trans b b' _ g (rest b' g.table)

  ensure_parent_dirs_exist-Grown :
      (raw_path : List ℕ) (b : Build k)
      → IsTable b
      → Grown b (ensure_parent_dirs_exist k raw_path b)
  unfolding ensure_parent_dirs_exist
  ensure_parent_dirs_exist-Grown raw_path b t = ensure_from-Grown (sanitize_path raw_path) [] b t

  read_archive-Grown :
      (n : ℕ) (archive : ℕ → TarHeader) (header : ℕ) (b : Build k)
      → IsTable b
      → EndsWithin n archive header
      → Ends (Grown b) (read_archive k n archive header b)
  unfolding read_archive EndsWithin
  read_archive-Grown zero archive header b t e = absurd e
  read_archive-Grown (suc n) archive header b t e =
      elim (Bool-cases (length (archive header).filename == 0)) [
        | inl last ↦ rw last (Grown-refl b t)
        | inr entry ↦
            let more : EndsWithin n archive (next_header header (oct2bin (archive header).size)) =
              later (length (archive header).filename) entry e in
            rw entry (
              go
                (read_archive-Grown n archive (next_header header (oct2bin (archive header).size)) b
                  t more)
                (λ b' t'.
                  read_archive-Grown n archive (next_header header (oct2bin (archive header).size))
                    b' t' more)
                (make_node k (entry_node k header (archive header))
                  (take 99 (sanitize_path (archive header).filename)) (parents b))
                (make_node-Grown (entry_node k header (archive header))
                  (take 99 (sanitize_path (archive header).filename)) (parents b)
                  (parents_grown).table)
                (is_extension (archive header).typeflag))
      ]
    where
      parents : Build k → Build k
      parents b = ensure_parent_dirs_exist k (sanitize_path (archive header).filename) b

      later : {P : Type 0} (x : ℕ) → (x == 0) ≡ false → (x ≡ 0) ⊎ P → P
      later x h (inl z) = absurd (ground arith)
      later x h (inr p) = p

      parents_grown : Grown b (parents b)
      parents_grown = ensure_parent_dirs_exist-Grown (sanitize_path (archive header).filename) b t

      next : ℕ
      next = next_header header (oct2bin (archive header).size)

      go :
          Ends (Grown b) (read_archive k n archive next b)
          → ((b' : Build k) → IsTable b' → Ends (Grown b') (read_archive k n archive next b'))
          → (x : Made k) → GrownMade (parents b) x
          → (skips : Bool)
          → Ends (Grown b) (
              if skips
              then read_archive k n archive next b
              else elim x [ full b' ↦ done b' | made b' ↦ read_archive k n archive next b' ])
      go skipped rest x g true = skipped
      go skipped rest (full b') g false = Grown-trans b (parents b) b' parents_grown g
      go skipped rest (made b') g false =
          Ends-mono _
            (λ b'' h.
              Grown-trans b (parents b) b'' parents_grown (Grown-trans (parents b) b' b'' g h))
            (rest b' g.table)

  -- The table has room for its nodes, none of which is NULL, and starts with those of before.
  pub record Built (b : Build k) (r : ℕ × Build k) : Type 0 where
    pub table : IsTable r.1
    pub count : b.ramfs.ramfs_node_count ≤ r.1.ramfs.ramfs_node_count
    pub same :
        (i : ℕ) → i < b.ramfs.ramfs_node_count → r.1.ramfs.ramfs_nodes i ≡ b.ramfs.ramfs_nodes i
    pub root : r.1.ramfs.ramfs_root ≡ r.0

  -- Where the table of nodes does not overflow and has no NULL, and the archive ends within `n`
  -- headers, `init_initramfs` ends with as many rounds; however full the table and the heap get, the
  -- table does not overflow, has no NULL, and starts with its old nodes, and `ramfs_root` is what
  -- the function returns.
  pub init_initramfs-Built :
      (n : ℕ) (archive : ℕ → TarHeader) (ramfs_addr : ℕ) (b : Build k)
      → IsTable b
      → EndsWithin n archive ramfs_addr
      → Ends {A = ℕ × Build k} (Built b) (init_initramfs k n archive ramfs_addr b)
  unfolding init_initramfs
  init_initramfs-Built n archive ramfs_addr b t e = elim (Bool-cases ((k.kmalloc b.heap).0 == 0)) [
    | inl out ↦ rw out (record {
      table = record { bound = t.bound; nodes = t.nodes };
      count = omega arith;
      same = λ i lt. refl;
      root = refl;
    })
    | inr given ↦ rw given (
        finish (read_archive k n archive ramfs_addr rooted) (
          read_archive-Grown n archive ramfs_addr rooted
            (record { bound = t.bound; nodes = t.nodes }) e))
  ]
    where
      rooted : Build k
      rooted = record b {
        ramfs = record (b.ramfs) {
          ramfs_root = (k.kmalloc b.heap).0;
          names = update b.ramfs.names (k.kmalloc b.heap).0 (47 ∷ []);
        };
        nodes = update b.nodes (k.kmalloc b.heap).0 (directory_node k);
        heap = (k.kmalloc b.heap).1;
      }

      finish :
          (x : Run (Build k))
          → Ends (Grown rooted) x
          → Ends {A = ℕ × Build k} (Built b) (x >>= λ b'. done ((k.kmalloc b.heap).0, b'))
      finish (done b') g = record { table = g.table; count = g.count; same = g.same; root = g.root }
      finish halted g = absurd g
      finish stuck g = absurd g
