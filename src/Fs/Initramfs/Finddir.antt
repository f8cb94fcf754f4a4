-- ===== src/Fs/Initramfs/Finddir.antt =====
-- `ramfs_finddir`: a name in a directory is a node whose path is that of the directory and the name.
use miyabi.Base.{
  ℕ, zero, suc, ◌+◌, ◌-◌, ◌≤◌, ◌<◌, ◌≡◌, ◌≢◌, ◌⊎◌, ◌↔◌, refl, arith, Bool, true, false, not, ◌&&◌,
  Option, none, some, List, [], ◌∷◌, ◌++◌, ◌==◌, take, length, length-append, ap, inl, inr,
}
use mathlib.Core.List.{append_assoc}
use miyabi.Base.Search.{first_from_lem}
use miyabi.Fs.Initramfs.{
  Ramfs, sanitize_path, tar_match_name, ends_with_slash, directory_part, expected_path,
  ramfs_finddir,
}
use miyabi.Fs.Initramfs.Match.{SameName, tar_match_name_iff}

take_all : (n : ℕ) (xs : List ℕ) → length xs ≤ n → take n xs ≡ xs
take_all zero [] h = refl
take_all zero (x ∷ xs) h = absurd (omega arith)
take_all (suc n) [] h = refl
take_all (suc n) (x ∷ xs) h = ap (λ t. x ∷ t) (take_all n xs (omega arith))

length-some : (xs : List ℕ) → xs ≢ [] → (length xs == 0) ≡ false
length-some [] h = absurd (h refl)
length-some (x ∷ xs) h = ground arith

-- The path of a name in a directory, where it fits: that of the directory, a slash, and the name.
expected_path-child :
    (node : ℕ) (name : List ℕ) (s : Ramfs)
    → node ≢ s.ramfs_root
    → s.names node ≢ []
    → ends_with_slash (s.names node) ≡ false
    → length (s.names node) + length name < 255
    → expected_path node name s ≡ s.names node ++ 47 ∷ name
unfolding expected_path directory_part
expected_path-child node name s apart some_name no_slash fits =
    rw (expected_path, part) (rw room (append_assoc (s.names node) (47 ∷ []) name))
  where
    part : directory_part node s ≡ s.names node ++ 47 ∷ []
    part =
        let below : (node == s.ramfs_root) ≡ false = ground arith in
        rw (
          directory_part,
          below,
          take_all 255 (s.names node) (omega arith),
          length-some (s.names node) some_name,
          no_slash,
        )

    room : take (255 - length (s.names node ++ 47 ∷ [])) name ≡ name
    room = take_all _ name (omega (arith, length-append {0} (s.names node) (47 ∷ [])))

-- Node `k` of the table has a path that is taken for the given one.
pub record Matches (s : Ramfs) (path : List ℕ) (k : ℕ) : Type 0 where
  pub node : s.ramfs_nodes k ≢ 0
  pub same : SameName (sanitize_path (s.names (s.ramfs_nodes k))) (sanitize_path path)

Matches-iff :
    (s : Ramfs) (path : List ℕ) (k : ℕ)
    → ((not (s.ramfs_nodes k == 0) && tar_match_name (s.names (s.ramfs_nodes k)) path) ≡ true)
      ↔ Matches s path k
Matches-iff s path k =
    let i = tar_match_name_iff (s.names (s.ramfs_nodes k)) path in
    (
      (λ h. record { node = ground arith; same = i.0 (ground arith) }),
      λ m. let nz : (s.ramfs_nodes k == 0) ≡ false = ground (arith, m.node) in rw (nz, i.1 m.same),
    )

-- What `ramfs_finddir` gives for a path: the first node of the table that matches it.
pub record FirstMatch (s : Ramfs) (path : List ℕ) (found : Option ℕ) : Type 0 where
  pub index : ℕ
  pub within : index < s.ramfs_node_count
  pub found_lem : found ≡ some (s.ramfs_nodes index)
  pub matches : Matches s path index
  pub earlier : (j : ℕ) → j < index → Matches s path j → ⊥

finddir-path :
    (node : ℕ) (name path : List ℕ) (s : Ramfs)
    → expected_path node name s ≡ path
    → FirstMatch s path (ramfs_finddir node name s)
      ⊎ ((ramfs_finddir node name s ≡ none)
          × ((j : ℕ) → j < s.ramfs_node_count → Matches s path j → ⊥))
unfolding ramfs_finddir
finddir-path node name path s at = elim (first_from_lem s.ramfs_node_count test) [
  | inl (e, all) ↦ inr (
    rw (ramfs_finddir, at, e),
    λ j lt m. let a = all j lt in let b = (Matches-iff s path j).1 m in cc,
  )
  | inr (k, e, f) ↦ inl (record {
    index = k;
    within = f.within;
    found_lem = rw (ramfs_finddir, at, e);
    matches = (Matches-iff s path k).0 f.passes;
    earlier = λ j lt m. let a = f.earlier j lt in let b = (Matches-iff s path j).1 m in cc;
  })
]
  where
    test : ℕ → Bool
    test k = not (s.ramfs_nodes k == 0) && tar_match_name (s.names (s.ramfs_nodes k)) path

-- In a directory below the root, with a path that is not empty, ends in no slash and leaves room for
-- the name in 254 characters, `ramfs_finddir` gives the first node of the table whose path is taken for
-- that of the directory, a slash and the name, and NULL exactly where there is none.
pub ramfs_finddir_lem :
    (node : ℕ) (name : List ℕ) (s : Ramfs)
    → node ≢ s.ramfs_root
    → s.names node ≢ []
    → ends_with_slash (s.names node) ≡ false
    → length (s.names node) + length name < 255
    → FirstMatch s (s.names node ++ 47 ∷ name) (ramfs_finddir node name s)
      ⊎ ((ramfs_finddir node name s ≡ none)
          × ((j : ℕ) → j < s.ramfs_node_count → Matches s (s.names node ++ 47 ∷ name) j → ⊥))
ramfs_finddir_lem node name s apart some_name no_slash fits =
    finddir-path node name (s.names node ++ 47 ∷ name) s
      (expected_path-child node name s apart some_name no_slash fits)
