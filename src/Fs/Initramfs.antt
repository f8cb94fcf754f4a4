-- ===== src/Fs/Initramfs.antt =====
-- src/fs/initramfs.c: the reading of numbers and names of a tar archive, and of its files; how the table
-- of nodes is built is in Build. The texts and number fields are lists of characters; a file's data
-- is in memory.
pub mod Octal
pub mod Match
pub mod Read
pub mod Finddir
pub mod Build
mod Tests
use miyabi.Base.{
  ℕ, zero, suc, ◌+◌, ◌-◌, ◌*◌, Bool, true, false, not, ◌&&◌, Option, none, some, ◌++◌, take, length,
  ◌||◌, List, [], ◌∷◌, leb, ltb, ◌==◌, if◌then◌else◌, u64,
}
use miyabi.Base.Search.{first_from}
use miyabi.Cstring.{Memory, copy_from}
use miyabi.Fs.Vfs.{Node}

-- while (size > 0 && (*c == ' ' || *c == '\0')) over the `size` characters of the field.
unfoldable pub skip_blanks : List ℕ → List ℕ
skip_blanks [] = []
skip_blanks (c ∷ cs) = let rest = skip_blanks cs in if (c == 32) || (c == 0) then rest else c ∷ cs

-- while (size > 0 && *c >= '0' && *c <= '7')
unfoldable pub read_digits : ℕ → List ℕ → ℕ
read_digits n [] = n
read_digits n (c ∷ cs) =
    let rest = read_digits (u64 (n * 8 + (c - 48))) cs in if leb 48 c && leb c 55 then rest else n

-- `static uint64_t oct2bin(unsigned char *str, int size)`
unfoldable pub oct2bin : List ℕ → ℕ
unfolding skip_blanks read_digits
oct2bin field = read_digits 0 (skip_blanks field)

-- `static const char *sanitize_path(const char *path)`
unfoldable pub sanitize_path : List ℕ → List ℕ
sanitize_path [] = []
sanitize_path (c ∷ cs) =
    let rest = sanitize_path cs in if (c == 46) || (c == 47) then rest else c ∷ cs

-- The text is a slash.
unfoldable pub is_slash : List ℕ → Bool
is_slash [] = false
is_slash (c ∷ []) = c == 47
is_slash (c ∷ d ∷ cs) = false

-- The loop of `tar_match_name`, and what comes behind it.
unfoldable pub match_clean : List ℕ → List ℕ → Bool
unfolding is_slash
match_clean [] [] = true
match_clean [] (d ∷ ds) = is_slash (d ∷ ds)
match_clean (c ∷ cs) [] = is_slash (c ∷ cs)
match_clean (c ∷ cs) (d ∷ ds) = let rest = match_clean cs ds in if c == d then rest else false

-- `static int tar_match_name(const char *tar_name, const char *search_name)`
unfoldable pub tar_match_name : List ℕ → List ℕ → Bool
unfolding sanitize_path match_clean
tar_match_name tar_name search_name =
    match_clean (sanitize_path tar_name) (sanitize_path search_name)

-- `static uint64_t ramfs_read(vfs_node_t *node, uint8_t *buffer, uint64_t size, uint64_t offset)`;
-- the copy is the loop of `memcpy`.
unfoldable pub ramfs_read : (ℕ → Node) → ℕ → ℕ → ℕ → ℕ → Memory → ℕ × Memory
ramfs_read nodes node buffer size offset memory =
    let n = nodes node in
    let size' = if ltb n.length (u64 (offset + size)) then n.length - offset else size in
    if (node == 0) || (buffer == 0)
    then (0, memory)
    else (if leb n.length offset
        then (0, memory)
        else (size', copy_from size' 0 buffer (n.ptr + offset) memory))

-- The static variables of the file, and the nodes' names.
pub record Ramfs : Type 0 where
  pub ramfs_nodes : ℕ → ℕ
  pub ramfs_node_count : ℕ
  pub ramfs_root : ℕ
  pub names : ℕ → List ℕ

-- expected_path[i - 1] == '/', for what is written so far.
unfoldable pub ends_with_slash : List ℕ → Bool
ends_with_slash [] = false
ends_with_slash (c ∷ []) = c == 47
ends_with_slash (c ∷ d ∷ cs) = ends_with_slash (d ∷ cs)

-- The part of `expected_path` that the directory gives.
unfoldable pub directory_part : ℕ → Ramfs → List ℕ
unfolding ends_with_slash
directory_part node s =
    let path = take 255 (s.names node) in
    if node == s.ramfs_root
    then []
    else (if not (length path == 0) && not (ends_with_slash path) then path ++ 47 ∷ [] else path)

unfoldable pub expected_path : ℕ → List ℕ → Ramfs → List ℕ
unfolding directory_part
expected_path node name s =
    directory_part node s ++ take (255 - length (directory_part node s)) name

-- `static vfs_node_t *ramfs_finddir(vfs_node_t *node, char *name)`; none is NULL.
unfoldable pub ramfs_finddir : ℕ → List ℕ → Ramfs → Option ℕ
unfolding expected_path
ramfs_finddir node name s =
    let matches : ℕ → Bool = λ k.
      not (s.ramfs_nodes k == 0)
      && tar_match_name (s.names (s.ramfs_nodes k)) (expected_path node name s) in
    elim (first_from s.ramfs_node_count 0 matches) [ none ↦ none | some k ↦ some (s.ramfs_nodes k) ]
