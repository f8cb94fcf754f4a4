-- ===== src/Fs/Vfs/Types.antt =====
-- The list of file system types: registration, and look-up by name.
use miyabi.Base.{
  ℕ, zero, suc, ◌<◌, ◌≡◌, ◌≢◌, refl, arith, Bool, true, false, some, List, [], ◌∷◌, ◌==◌,
  if◌then◌else◌, length, All, ap, sym, ◌∙◌, inl, inr, Bool-cases, update, update_self, update_ne,
}
use mathlib.Core.Path.{subst}
use miyabi.Base.Run.{Run, done}
use miyabi.Cstring.{same_text}
use miyabi.Fs.Vfs.{FsType, Vfs, vfs_register_filesystem, find_type, vfs_find_filesystem}

-- From `p` the `next` pointers lead through `l` to NULL.
abbrev pub Chain : (ℕ → FsType) → ℕ → List ℕ → Type 0
Chain types p [] = p ≡ 0
Chain types p (a ∷ l) = (p ≡ a) × (a ≢ 0) × Chain types (types a).next l

-- The first type of a list with the name, 0 if none has it.
unfoldable pub first_named : (ℕ → FsType) → List ℕ → List ℕ → ℕ
first_named types name [] = 0
first_named types name (a ∷ l) =
    if same_text (types a).name name then a else first_named types name l

find_type-first_named :
    (n p : ℕ) (name l : List ℕ) (types : ℕ → FsType)
    → Chain types p l
    → length l < n
    → find_type n p name types ≡ done (first_named types name l)
unfolding find_type first_named
find_type-first_named zero p name l types c fuel = absurd (omega arith)
find_type-first_named (suc n) p name [] types c fuel =
    let t : (p == 0) ≡ true = ground (arith, c) in rw t
find_type-first_named (suc n) p name (a ∷ l) types c fuel =
    let t : (a == 0) ≡ false = ground (arith, c.1) in
    elim (Bool-cases (same_text (types a).name name)) [
      | inl here ↦ rw (c.0, t, here)
      | inr other ↦
          rw (c.0, t, other) (find_type-first_named n (types a).next name l types c.2 (omega arith))
    ]

module _ (types : ℕ → FsType) (fs : ℕ) (d : FsType) where
  Chain-update :
      (p : ℕ) (l : List ℕ) → Chain types p l → All (λ a. a ≢ fs) l → Chain (update types fs d) p l
  Chain-update p [] c out = c
  Chain-update p (a ∷ l) c out =
      let same : update types fs d a ≡ types a = update_ne types fs d a (λ e. out.0 (sym e)) in
      (
        c.0,
        c.1,
        subst (λ t. Chain (update types fs d) t.next l) (sym same)
            (Chain-update (types a).next l c.2 out.1),
      )

  first_named-update :
      (name l : List ℕ)
      → All (λ a. a ≢ fs) l
      → first_named (update types fs d) name l ≡ first_named types name l
  unfolding first_named
  first_named-update name [] out = refl
  first_named-update name (a ∷ l) out =
      rw (update_ne types fs d a (λ e. out.0 (sym e)))
        (ap (λ x. if same_text (types a).name name then a else x) (first_named-update name l out.1))

  first_named-new :
      (name l : List ℕ)
      → All (λ a. a ≢ fs) l
      → first_named (update types fs d) name (fs ∷ l)
        ≡ (if same_text d.name name then fs else first_named types name l)
  unfolding first_named
  first_named-new name l out =
      rw (update_self types fs d)
        (ap (λ x. if same_text d.name name then fs else x) (first_named-update name l out))

done_if :
    (b : Bool) (x y : ℕ) (r : Run ℕ)
    → r ≡ done y
    → done (if b then x else y) ≡ (if b then done x else r)
done_if true x y r e = refl
done_if false x y r e = sym e

-- `vfs_find_filesystem` of a name ends, given more rounds than there are registered types, and
-- returns the first type of the list with that name, NULL if there is none.
pub vfs_find_filesystem_lem :
    (n : ℕ) (v : Vfs) (l name : List ℕ)
    → Chain v.fs_types v.fs_types_head l
    → length l < n
    → vfs_find_filesystem n (some name) v ≡ done (first_named v.fs_types name l)
unfolding vfs_find_filesystem
vfs_find_filesystem_lem n v l name c fuel =
    find_type-first_named n v.fs_types_head name l v.fs_types c fuel

-- Once a type that is not in the list is registered, the list begins with it, and a look-up gives
-- it for its own name and for every other name what it gave before.
pub vfs_register_filesystem_lem :
    (n fs : ℕ) (v : Vfs) (l name : List ℕ)
    → Chain v.fs_types v.fs_types_head l
    → fs ≢ 0
    → All (λ a. a ≢ fs) l
    → suc (length l) < n
    → Chain
        (vfs_register_filesystem fs v).fs_types
        (vfs_register_filesystem fs v).fs_types_head
        (fs ∷ l)
      × (vfs_find_filesystem n (some name) (vfs_register_filesystem fs v) ≡ (
          if same_text (v.fs_types fs).name name
          then done fs
          else vfs_find_filesystem n (some name) v))
unfolding vfs_register_filesystem
vfs_register_filesystem_lem n fs v l name c nz out fuel =
    subst
      (λ w.
        Chain w.fs_types w.fs_types_head (fs ∷ l)
        × (vfs_find_filesystem n (some name) w ≡ (
            if same_text (v.fs_types fs).name name
            then done fs
            else vfs_find_filesystem n (some name) v)))
      (sym registered) (chain, found)
  where
    open_ : (fs == 0) ≡ false
    open_ = ground arith

    d : FsType
    d = record (v.fs_types fs) { next = v.fs_types_head }

    registered :
        vfs_register_filesystem fs v
        ≡ record v { fs_types = update v.fs_types fs d; fs_types_head = fs }
    registered = rw (vfs_register_filesystem, open_)

    chain : Chain (update v.fs_types fs d) fs (fs ∷ l)
    chain = (
      refl,
      nz,
      subst (λ t. Chain (update v.fs_types fs d) t.next l) (sym (update_self v.fs_types fs d))
          (Chain-update v.fs_types fs d v.fs_types_head l c out),
    )

    found :
        vfs_find_filesystem n
          (some name)
          (record v { fs_types = update v.fs_types fs d; fs_types_head = fs })
        ≡ (if same_text (v.fs_types fs).name name
            then done fs
            else vfs_find_filesystem n (some name) v)
    found =
        vfs_find_filesystem_lem n
          (record v { fs_types = update v.fs_types fs d; fs_types_head = fs }) (fs ∷ l) name chain
          fuel
        ∙ ap done (first_named-new v.fs_types fs d name l out)
        ∙ done_if (same_text (v.fs_types fs).name name) fs (first_named v.fs_types name l)
            (vfs_find_filesystem n (some name) v)
            (vfs_find_filesystem_lem n v l name c (omega arith))
