-- ===== src/Fs/Vfs/Lookup.antt =====
-- `vfs_get_node_by_path` as a descent along the components of the path.
use miyabi.Base.{
  ℕ, zero, suc, ◌<◌, ◌≡◌, ◌≢◌, true, false, Bool-cases, refl, arith, none, some, List, [], ◌∷◌, leb,
  ◌==◌, if◌then◌else◌, length, All, ap, ◌∙◌, inl, inr,
}
use miyabi.Base.Run.{Run, done, halted}
use miyabi.Fs.Vfs.{slash, token_size, Callbacks, Vfs, cross, enter, walk_path, vfs_get_node_by_path}
use miyabi.Fs.Vfs.Descent.{Descends, arrived, overrun, cross-Behind, enter-Entered, Descends-enter}
use miyabi.Fs.Vfs.Components.{components, get_next_token_lem, join, IsName, components-join}

module _ (callbacks : Callbacks) where
  -- From a node down along names; a name of 128 characters or more overruns the token.
  unfoldable pub descend : Vfs → ℕ → List (List ℕ) → Run ℕ
  descend v node [] = done (cross v node)
  descend v node (name ∷ names) =
      let next = enter callbacks v node name in
      let onward = descend v next names in
      if leb token_size (length name) then halted else (if next == 0 then done 0 else onward)

  walk_path-descend :
      (n : ℕ) (v : Vfs) (path : List ℕ) (node : ℕ)
      → length path < n
      → walk_path callbacks n v path node ≡ descend v node (components path)
  unfolding walk_path descend
  walk_path-descend zero v path node fuel = absurd (omega arith)
  walk_path-descend (suc n) v path node fuel = elim (get_next_token_lem path) [
    | inl (e, w) ↦ rw (walk_path, e, w)
    | inr (token, rest, e, t) ↦
        rw (walk_path, e, t.words)
          (ap
            (λ x.
              if leb token_size (length token)
              then halted
              else (if enter callbacks v node token == 0 then done 0 else x))
            (walk_path-descend n v rest (enter callbacks v node token) (omega (arith, t.shorter))))
  ]

  descend-Descends :
      (v : Vfs) (names : List (List ℕ)) (node : ℕ)
      → Descends callbacks v node names (descend v node names)
  unfolding descend
  descend-Descends v [] node = arrived node (cross v node) (cross-Behind v node)
  descend-Descends v (name ∷ names) node = elim (Bool-cases (leb token_size (length name))) [
    | inl long ↦ rw long (overrun node name names (ground arith))
    | inr fits ↦ rw fits (
        Descends-enter callbacks v node name names _ _ (ground arith)
          (enter-Entered callbacks v node name)
          (descend-Descends v names (enter callbacks v node name)))
  ]

  -- The look-up of a path ends, given more rounds than the path has characters. That of an absolute
  -- path goes down from the root along the path's components. At each it takes the node mounted on
  -- the node it has come to, if that is a mount point, and asks it for the child of this name: the
  -- result is NULL once there is no node, the node is no directory or has no `finddir`, or `finddir`
  -- gives NULL. Behind the last component the mount point is crossed as well. A component of 128
  -- characters or more that it comes to overruns the token. Any other path, and NULL, gives NULL.
  pub vfs_get_node_by_path_lem :
      (n : ℕ) (v : Vfs) (c : ℕ) (cs : List ℕ)
      → suc (length cs) < n
      → (c ≡ slash
          → Descends callbacks v v.fs_root
              (components (c ∷ cs))
              (vfs_get_node_by_path callbacks n (some (c ∷ cs)) v))
        × (c ≢ slash → vfs_get_node_by_path callbacks n (some (c ∷ cs)) v ≡ done 0)
        × (vfs_get_node_by_path callbacks n (some []) v ≡ done 0)
        × (vfs_get_node_by_path callbacks n none v ≡ done 0)
  unfolding vfs_get_node_by_path
  vfs_get_node_by_path_lem n v c cs fuel = (
    (λ e.
        let absolute : (c == slash) ≡ true = ground arith in
        rw (absolute, walk_path-descend n v (c ∷ cs) v.fs_root fuel)
          (descend-Descends v (components (c ∷ cs)) v.fs_root)),
    (λ e. let relative : (c == slash) ≡ false = ground arith in rw relative refl),
    refl,
    refl,
  )

  -- The look-up of a path written from names goes down along just these names.
  pub vfs_get_node_by_path-join :
      (n : ℕ) (v : Vfs) (name : List ℕ) (names : List (List ℕ))
      → All IsName (name ∷ names)
      → length (join (name ∷ names)) < n
      → vfs_get_node_by_path callbacks n (some (join (name ∷ names))) v
        ≡ descend v v.fs_root (name ∷ names)
  unfolding vfs_get_node_by_path join
  vfs_get_node_by_path-join n v name names h fuel =
      walk_path-descend n v (join (name ∷ names)) v.fs_root fuel
      ∙ ap (descend v v.fs_root) (components-join (name ∷ names) h)
