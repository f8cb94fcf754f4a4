-- ===== src/Fs/Fd/Table.antt =====
-- What `fd_alloc`, `fd_get_node`, `fd_close` and `init_fds` promise.
use miyabi.Base.{
  ℕ, zero, suc, ◌<◌, ◌≡◌, ◌≢◌, ◌⊎◌, refl, arith, Bool, true, false, ◌||◌, none, some, [], ◌∷◌, leb,
  ◌==◌, if◌then◌else◌, set, get_elem?, length, replicate, length-set, get_elem?-set_self,
  get_elem?-set_ne, ap, sym, ◌∙◌, inl, inr, Bool-cases,
}
use mathlib.Core.Path.{subst}
use miyabi.Base.Int.{ℤ, pos, negsuc}
use miyabi.Fs.Fd.{
  FileDescriptor, FdTable, opened, max_open_files, init_fds, first_unused, fd_alloc, node_at,
  fd_get_node, fd_close,
}

-- The first entry of the table without a node.
record Lowest (table : FdTable) (i : ℕ) : Type 0 where
  within : i < length table
  unused : node_at table i ≡ 0
  used_below : (j : ℕ) → j < i → node_at table j ≢ 0

AllUsed : FdTable → Type 0
AllUsed table = (j : ℕ) → j < length table → node_at table j ≢ 0

AllUsed-cons :
    (d : FileDescriptor) (ds : FdTable) → (d.node == 0) ≡ false → AllUsed ds → AllUsed (d ∷ ds)
unfolding AllUsed
AllUsed-cons d ds used all zero lt = ground arith
AllUsed-cons d ds used all (suc j) lt = all j (omega arith)

Lowest-cons :
    (d : FileDescriptor) (ds : FdTable) (i : ℕ)
    → (d.node == 0) ≡ false
    → Lowest ds i
    → Lowest (d ∷ ds) (suc i)
Lowest-cons d ds i used l = record {
  within = omega (arith, l.within);
  unused = l.unused;
  used_below = below;
}
  where
    below : (j : ℕ) → j < suc i → node_at (d ∷ ds) j ≢ 0
    below zero lt = ground arith
    below (suc j) lt = l.used_below j (omega arith)

first_unused_lem :
    (table : FdTable)
    → ((first_unused table ≡ none) × AllUsed table)
      ⊎ ((i : ℕ) × (first_unused table ≡ some i) × Lowest table i)
unfolding first_unused AllUsed
first_unused_lem [] = inl (refl, λ j lt. absurd (omega arith))
first_unused_lem (d ∷ ds) = elim (Bool-cases (d.node == 0)) [
  | inl free ↦ inr (
    0,
    rw free,
    record {
      within = omega arith;
      unused = ground arith;
      used_below = λ j lt. absurd (omega arith);
    },
  )
  | inr used ↦ elim (first_unused_lem ds) [
    | inl (e, all) ↦ inl (rw (used, e), AllUsed-cons d ds used all)
    | inr (i, e, l) ↦ inr (suc i, rw (used, e), Lowest-cons d ds i used l)
  ]
]

node_at-set_self :
    (table : FdTable) (i : ℕ) (d : FileDescriptor)
    → i < length table
    → node_at (set table i d) i ≡ d.node
node_at-set_self table i d lt = rw (node_at, get_elem?-set_self table i d lt)

node_at-set_ne :
    (table : FdTable) (i j : ℕ) (d : FileDescriptor)
    → i ≢ j
    → node_at (set table i d) j ≡ node_at table j
node_at-set_ne table i j d ne = rw (node_at, get_elem?-set_ne table i j d ne)

node_at-cleared : (table : FdTable) (i : ℕ) → node_at (set table i (opened 0)) i ≡ 0
node_at-cleared [] i = refl
node_at-cleared (d ∷ ds) zero = refl
node_at-cleared (d ∷ ds) (suc i) = node_at-cleared ds i

-- What `fd_alloc` gives when it gives the descriptor `i`.
pub record Given (node : ℕ) (table : FdTable) (i : ℕ) (t : FdTable) : Type 0 where
  pub within : i < max_open_files
  pub unused : fd_get_node (pos i) table ≡ 0
  pub used_below : (j : ℕ) → j < i → fd_get_node (pos j) table ≢ 0
  pub entry : get_elem? t i ≡ some (opened node)
  pub others : (j : ℕ) → j ≢ i → get_elem? t j ≡ get_elem? table j
  pub size : length t ≡ max_open_files

in_range :
    (i : ℕ) (table : FdTable) → i < max_open_files → fd_get_node (pos i) table ≡ node_at table i
unfolding fd_get_node
in_range i table lt = let t : leb 16 i ≡ false = ground arith in rw t

-- On a table of 16 entries `fd_alloc` returns -1 and changes nothing if every descriptor has a
-- node. Otherwise it returns the lowest descriptor without one, whose entry becomes the node, at
-- offset 0 and without flags, and no other entry changes.
pub fd_alloc_lem :
    (node : ℕ) (table : FdTable)
    → length table ≡ max_open_files
    → ((fd_alloc node table ≡ (negsuc 0, table))
        × ((j : ℕ) → j < max_open_files → fd_get_node (pos j) table ≢ 0))
      ⊎ ((i : ℕ) × ((fd_alloc node table).0 ≡ pos i) × Given node table i (fd_alloc node table).1)
unfolding fd_alloc AllUsed
fd_alloc_lem node table len = elim (first_unused_lem table) [
  | inl (e, all) ↦
      inl (rw (fd_alloc, e), λ j lt z. all j (omega arith) (sym (in_range j table lt) ∙ z))
  | inr (i, e, l) ↦
      let lt : i < 16 = omega (arith, l.within, len) in
      inr (
        i,
        rw (fd_alloc, e),
        rw (fd_alloc, e)
            (record {
              within = lt;
              unused = in_range i table lt ∙ l.unused;
              used_below =
                  λ j below z. l.used_below j below (sym (in_range j table (omega arith)) ∙ z);
              entry = get_elem?-set_self table i (opened node) l.within;
              others = λ j ne. get_elem?-set_ne table i j (opened node) (λ s. ne (sym s));
              size = length-set table i (opened node) ∙ len;
            }),
      )
]

-- After `fd_close` of any int the descriptor has no node, every other one has the node it had, and
-- the table keeps its size.
pub fd_close_lem :
    (fd : ℤ) (table : FdTable)
    → (fd_get_node fd (fd_close fd table) ≡ 0)
      × ((e : ℤ) → e ≢ fd → fd_get_node e (fd_close fd table) ≡ fd_get_node e table)
      × (length (fd_close fd table) ≡ length table)
unfolding fd_close fd_get_node
fd_close_lem (pos i) table = elim (Bool-cases (leb 16 i)) [
  | inl out ↦ (rw out, (λ e ne. rw out), rw out)
  | inr here ↦
      (rw here (node_at-cleared table i), others here, rw here (length-set table i (opened 0)))
]
  where
    others :
        leb 16 i ≡ false
        → (e : ℤ) → e ≢ pos i
        → fd_get_node e (fd_close (pos i) table) ≡ fd_get_node e table
    others here (negsuc n) ne = refl
    others here (pos j) ne = rw here (
        ap (λ x. if leb 16 j then 0 else x)
          (node_at-set_ne table i j (opened 0) (λ s. ne (ap pos (sym s)))))
fd_close_lem (negsuc n) table = (refl, (λ e ne. refl), refl)

-- On a table of 16 entries, closing what `fd_alloc` returned, be it a descriptor or -1, gives every
-- descriptor back the node it had before.
pub fd_close-fd_alloc :
    (node : ℕ) (table : FdTable) (e : ℤ)
    → length table ≡ max_open_files
    → fd_get_node e (fd_close (fd_alloc node table).0 (fd_alloc node table).1) ≡ fd_get_node e table
unfolding fd_alloc fd_close fd_get_node
fd_close-fd_alloc node table e len = elim (first_unused_lem table) [
  | inl (none_left, all) ↦ rw (fd_alloc, none_left)
  | inr (i, found, l) ↦
      let here : leb 16 i ≡ false = ground (arith, l.within, len) in
      rw (fd_alloc, found, here) (restored i (omega (arith, l.within, len)) l.unused e)
]
  where
    restored :
        (i : ℕ)
        → i < max_open_files
        → node_at table i ≡ 0
        → (e : ℤ)
        → fd_get_node e (set (set table i (opened node)) i (opened 0)) ≡ fd_get_node e table
    restored i lt unused (negsuc n) = refl
    restored i lt unused (pos j) = elim (Bool-cases (i == j)) [
      | inl same ↦
          let s : i ≡ j = ground arith in
          subst
            (λ k.
              (if leb 16 k then 0 else node_at (set (set table i (opened node)) i (opened 0)) k)
              ≡ (if leb 16 k then 0 else node_at table k))
            s
            (ap (λ x. if leb 16 i then 0 else x)
              (node_at-cleared (set table i (opened node)) i ∙ sym unused))
      | inr apart ↦
          let ne : i ≢ j = ground arith in
          ap (λ x. if leb 16 j then 0 else x)
            (node_at-set_ne (set table i (opened node)) i j (opened 0) ne
              ∙ node_at-set_ne table i j (opened node) ne)
    ]

node_at-replicate : (n j : ℕ) → node_at (replicate n (opened 0)) j ≡ 0
node_at-replicate zero j = refl
node_at-replicate (suc n) zero = refl
node_at-replicate (suc n) (suc j) = node_at-replicate n j

if_zero : (b : Bool) (n : ℕ) → n ≡ 0 → (if b then 0 else n) ≡ 0
if_zero true n e = refl
if_zero false n e = e

beyond :
    (j n m : ℕ)
    → m ≡ 0
    → m ≡ (if (suc (suc (suc j)) == 1) || (suc (suc (suc j)) == 2) then n else 0)
beyond j n m e =
    let a : (suc (suc (suc j)) == 1) ≡ false = ground arith in
    let b : (suc (suc (suc j)) == 2) ≡ false = ground arith in rw (a, b) e

cleared :
    (j : ℕ)
    → fd_get_node (pos j) (replicate 16 (opened 0)) ≡ (if (j == 1) || (j == 2) then 0 else 0)
unfolding fd_get_node
cleared zero = refl
cleared (suc zero) = refl
cleared (suc (suc zero)) = refl
cleared (suc (suc (suc j))) =
    beyond j 0 _ (if_zero (leb 16 (suc (suc (suc j)))) _ (node_at-replicate 13 j))

filled :
    (d : FileDescriptor) (j : ℕ)
    → fd_get_node (pos j) (set (set (replicate 16 (opened 0)) 1 d) 2 d)
      ≡ (if (j == 1) || (j == 2) then d.node else 0)
unfolding fd_get_node
filled d zero = refl
filled d (suc zero) = refl
filled d (suc (suc zero)) = refl
filled d (suc (suc (suc j))) =
    beyond j d.node _ (if_zero (leb 16 (suc (suc (suc j)))) _ (node_at-replicate 13 j))

-- After `init_fds` descriptors 1 and 2 have the node of /dev/fb0, where it exists, every other int
-- has none, and the table has 16 entries.
pub init_fds_lem :
    (fb_node : ℕ)
    → (length (init_fds fb_node) ≡ max_open_files)
      × ((j : ℕ)
          → fd_get_node (pos j) (init_fds fb_node) ≡ (if (j == 1) || (j == 2) then fb_node else 0))
      × ((n : ℕ) → fd_get_node (negsuc n) (init_fds fb_node) ≡ 0)
unfolding init_fds fd_get_node
init_fds_lem fb_node = elim (Bool-cases (fb_node == 0)) [
  | inl missing ↦ let z : fb_node ≡ 0 = ground arith in rw (missing, z) (refl, cleared, λ n. refl)
  | inr found ↦ rw found (refl, filled _, λ n. refl)
]
