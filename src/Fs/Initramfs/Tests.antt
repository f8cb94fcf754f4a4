-- ===== src/Fs/Initramfs/Tests.antt =====
-- The theorems on the archive at concrete inputs.
use miyabi.Base.{
  ℕ, ◌+◌, ◌<◌, ◌≤◌, ◌≡◌, ◌⊎◌, ◌↔◌, refl, false, none, some, ◌==◌, if◌then◌else◌, arith, true, [],
  ◌∷◌, ◌++◌, replicate, inl,
}
use miyabi.Cstring.{Memory}
use miyabi.Fs.Vfs.{Node}
use miyabi.Fs.Initramfs.{oct2bin, sanitize_path, tar_match_name, ramfs_read}
use miyabi.Base.Search.{first_from}
use miyabi.Fs.Initramfs.{Ramfs, ends_with_slash, ramfs_finddir}
use miyabi.Fs.Initramfs.Finddir.{FirstMatch, Matches, ramfs_finddir_lem}
use miyabi.Fs.Initramfs.Octal.{octal, digits, oct2bin-digits}
use miyabi.Fs.Initramfs.Match.{SameName, tar_match_name_iff}
use miyabi.Fs.Initramfs.Read.{available, ramfs_read_lem}

small : octal 0 (1 ∷ 7 ∷ []) < 18446744073709551616
unfolding octal
small = omega arith

-- Two spaces, "17" and a zero.
oct2bin-digits_example :
    oct2bin (replicate 2 32 ++ (digits (1 ∷ 7 ∷ []) ++ 0 ∷ [])) ≡ octal 0 (1 ∷ 7 ∷ [])
oct2bin-digits_example =
    oct2bin-digits 2 1 (7 ∷ []) (0 ∷ []) (omega arith, (omega arith, tt)) refl small

oct2bin_run : oct2bin (32 ∷ 32 ∷ 49 ∷ 55 ∷ 0 ∷ []) ≡ 15
unfolding oct2bin
oct2bin_run = refl

-- "./a/" and "a".
tar_match_name_iff_example :
    (tar_match_name (46 ∷ 47 ∷ 97 ∷ 47 ∷ []) (97 ∷ []) ≡ true)
    ↔ SameName (sanitize_path (46 ∷ 47 ∷ 97 ∷ 47 ∷ [])) (sanitize_path (97 ∷ []))
tar_match_name_iff_example = tar_match_name_iff (46 ∷ 47 ∷ 97 ∷ 47 ∷ []) (97 ∷ [])

match_run : tar_match_name (46 ∷ 47 ∷ 97 ∷ 47 ∷ []) (97 ∷ []) ≡ true
unfolding tar_match_name
match_run = refl

-- A file of 10 bytes at 1000.
abbrev files : ℕ → Node
files a = record { flags = 1; length = 10; read = 1; open_ = 0; close = 0; finddir = 0; ptr = 1000 }

abbrev memory : Memory
memory a = a

-- 8 bytes are asked for at offset 4, of which there are 6.
ramfs_read_lem_example :
    ((ramfs_read files 1 50 8 4 memory).0 ≡ available 10 8 4)
    × ((k : ℕ)
        → k < available 10 8 4
        → (ramfs_read files 1 50 8 4 memory).1 (50 + k) ≡ memory (1000 + 4 + k))
    × ((a : ℕ)
        → (a < 50) ⊎ (50 + available 10 8 4 ≤ a)
        → (ramfs_read files 1 50 8 4 memory).1 a ≡ memory a)
ramfs_read_lem_example =
    ramfs_read_lem files 1 50 8 4 memory (omega arith) (omega arith) (omega arith)
      (inl (omega arith))

-- A size that runs past 2 ^ 64 is not cut to the file.
wrapped_run : (ramfs_read files 1 50 18446744073709551612 4 memory).0 ≡ 18446744073709551612
unfolding ramfs_read
wrapped_run = refl

-- Node 1 is the root, 2 is "d", and 3 is "./d/e".
abbrev tree : Ramfs
tree = record {
  ramfs_nodes = λ k. if k == 0 then 2 else 3;
  ramfs_node_count = 2;
  ramfs_root = 1;
  names =
      λ a. if a == 2 then 100 ∷ [] else (if a == 3 then 46 ∷ 47 ∷ 100 ∷ 47 ∷ 101 ∷ [] else 47 ∷ []);
}

no_slash : ends_with_slash (100 ∷ []) ≡ false
unfolding ends_with_slash
no_slash = refl

ramfs_finddir_lem_example :
    FirstMatch tree (100 ∷ 47 ∷ 101 ∷ []) (ramfs_finddir 2 (101 ∷ []) tree)
    ⊎ ((ramfs_finddir 2 (101 ∷ []) tree ≡ none)
        × ((j : ℕ) → j < 2 → Matches tree (100 ∷ 47 ∷ 101 ∷ []) j → ⊥))
ramfs_finddir_lem_example =
    ramfs_finddir_lem 2 (101 ∷ []) tree (omega arith) (λ e. cc) no_slash (omega arith)

finddir_run : ramfs_finddir 2 (101 ∷ []) tree ≡ some 3
unfolding ramfs_finddir first_from tar_match_name
finddir_run = refl
