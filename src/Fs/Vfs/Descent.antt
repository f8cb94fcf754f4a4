-- ===== src/Fs/Vfs/Descent.antt =====
-- What the look-up of a path promises, stated with the flags of the nodes, and that the code's steps
-- down the path do this.
use miyabi.Base.{
  ℕ, ◌≤◌, ◌<◌, ◌≡◌, ◌≢◌, refl, arith, not, ◌&&◌, List, [], ◌∷◌, ◌==◌, if◌then◌else◌, length, inl,
  inr, bit_and, Bool-cases,
}
use mathlib.Core.Path.{subst}
use miyabi.Base.Run.{Run, done, halted}
use miyabi.Fs.Vfs.{
  Callbacks, Vfs, fs_directory, fs_mountpoint, token_size, is_directory, cross, enter,
}

-- `m` stands behind `node`: the node mounted there, if one is, and `node` itself otherwise.
pub data Behind (v : Vfs) (node m : ℕ) : Type 0 where
  missing : node ≡ 0 → m ≡ 0 → Behind v node m
  mounted :
      node ≢ 0
      → bit_and (v.nodes node).flags fs_mountpoint ≢ 0
      → m ≡ (v.nodes node).ptr
      → Behind v node m
  plain : node ≢ 0 → bit_and (v.nodes node).flags fs_mountpoint ≡ 0 → m ≡ node → Behind v node m

-- A directory with a `finddir`.
pub record HasChildren (v : Vfs) (m : ℕ) : Type 0 where
  pub some_node : m ≢ 0
  pub directory : bit_and (v.nodes m).flags fs_directory ≢ 0
  pub callback : (v.nodes m).finddir ≢ 0

module _ (callbacks : Callbacks) (v : Vfs) where
  abbrev pub child_of : ℕ → List ℕ → ℕ
  child_of m name = callbacks.finddir (v.nodes m).finddir m name v

  -- The way down from a node along names, with its result.
  pub data Descends : ℕ → List (List ℕ) → Run ℕ → Type 0 where
    arrived : (node m : ℕ) → Behind v node m → Descends node [] (done m)
    overrun :
        (node : ℕ) (name : List ℕ) (names : List (List ℕ))
        → token_size ≤ length name
        → Descends node (name ∷ names) halted
    no_directory :
        (node m : ℕ) (name : List ℕ) (names : List (List ℕ))
        → length name < token_size
        → Behind v node m
        → ¬ HasChildren v m
        → Descends node (name ∷ names) (done 0)
    no_child :
        (node m : ℕ) (name : List ℕ) (names : List (List ℕ))
        → length name < token_size
        → Behind v node m
        → HasChildren v m
        → child_of m name ≡ 0
        → Descends node (name ∷ names) (done 0)
    down :
        (node m : ℕ) (name : List ℕ) (names : List (List ℕ)) (r : Run ℕ)
        → length name < token_size
        → Behind v node m
        → HasChildren v m
        → child_of m name ≢ 0
        → Descends (child_of m name) names r
        → Descends node (name ∷ names) r

pub cross-Behind : (v : Vfs) (node : ℕ) → Behind v node (cross v node)
unfolding cross
cross-Behind v node = elim (Bool-cases (node == 0)) [
  | inl none_there ↦ rw none_there (missing (ground arith) (ground arith))
  | inr there ↦ elim (Bool-cases (bit_and (v.nodes node).flags fs_mountpoint == 0)) [
    | inl no_flag ↦ rw (there, no_flag) (plain (ground arith) (ground arith) refl)
    | inr flag ↦ rw (there, flag) (mounted (ground arith) (ground arith) refl)
  ]
]

module _ (callbacks : Callbacks) (v : Vfs) where
  -- A round gives the child of what stands behind the node, or NULL where that has no children.
  pub data Entered (node : ℕ) (name : List ℕ) (child : ℕ) : Type 0 where
    childless : (m : ℕ) → Behind v node m → ¬ HasChildren v m → child ≡ 0 → Entered node name child
    asked :
        (m : ℕ)
        → Behind v node m
        → HasChildren v m
        → child ≡ child_of callbacks v m name
        → Entered node name child

  pub enter-Entered : (node : ℕ) (name : List ℕ) → Entered node name (enter callbacks v node name)
  unfolding enter
  enter-Entered node name =
      let m : ℕ = cross v node in
      let behind : Behind v node m = cross-Behind v node in
      elim (Bool-cases (m == 0)) [
        | inl null ↦ childless m behind (λ c. c.some_node (ground arith)) (rw null refl)
        | inr found ↦
            elim (Bool-cases (is_directory (v.nodes m) && not ((v.nodes m).finddir == 0))) [
              | inl both ↦
                  asked m behind
                    (record {
                      some_node = ground arith;
                      directory = ground arith;
                      callback = ground arith;
                    })
                    (rw (found, both) refl)
              | inr lacks ↦
                  childless m behind (λ c. ground (arith, c.directory, c.callback))
                    (rw (found, lacks) refl)
            ]
      ]

  -- A round and the way on from it, where the token has room.
  pub Descends-enter :
      (node : ℕ) (name : List ℕ) (names : List (List ℕ)) (child : ℕ) (r : Run ℕ)
      → length name < token_size
      → Entered node name child
      → Descends callbacks v child names r
      → Descends callbacks v node (name ∷ names) (if child == 0 then done 0 else r)
  Descends-enter node name names child r room (childless m b no_children e) d =
      rw e (no_directory node m name names room b no_children)
  Descends-enter node name names child r room (asked m b has e) d = elim (Bool-cases (child == 0)) [
    | inl null ↦ rw null (no_child node m name names room b has (ground arith))
    | inr found ↦ rw found (
        down node m name names r room b has (ground arith)
          (subst (λ x. Descends callbacks v x names r) e d))
  ]
