-- ===== src/Cmdline.antt =====
-- src/cmdline.c and src/include/cmdline.h, the options of the boot command line. Texts are lists of
-- characters; `boot_modules` holds the first `boot_modules_count` entries of the array. The loop over
-- the arguments takes fuel.
pub mod Flag
pub mod Collect
mod Tests
use miyabi.Base.{
  ℕ, zero, suc, ◌+◌, Bool, true, false, ◌&&◌, ◌||◌, Option, none, some, List, [], ◌∷◌, ◌++◌, leb,
  ltb, ◌==◌, if◌then◌else◌, length, get_or, get_elem?, drop,
}
use miyabi.Base.Run.{Run, done, stuck, ◌>>=◌}

-- p[flag_len] == '\0' || p[flag_len] == ' '
unfoldable pub ends_argument : List ℕ → Bool
ends_argument [] = true
ends_argument (c ∷ cs) = c == 32

-- The flag stands at the front of the text, and an argument ends behind it.
unfoldable pub flag_matches : List ℕ → List ℕ → Bool
unfolding ends_argument
flag_matches [] p = ends_argument p
flag_matches (f ∷ fs) [] = false
flag_matches (f ∷ fs) (c ∷ cs) = let rest = flag_matches fs cs in if c == f then rest else false

-- `static bool check_flag(const char *cmdline, const char *flag)`
unfoldable pub check_flag : List ℕ → List ℕ → Bool
unfolding flag_matches
check_flag [] flag = false
check_flag (c ∷ cs) flag =
    let rest = check_flag cs flag in
    if (c == get_or flag 0 0) && flag_matches flag (c ∷ cs) then true else rest

-- "--MOD="
abbrev pub prefix : List ℕ
prefix = 45 ∷ 45 ∷ 77 ∷ 79 ∷ 68 ∷ 61 ∷ []

unfoldable pub starts_with : List ℕ → List ℕ → Bool
starts_with [] arg = true
starts_with (p ∷ ps) [] = false
starts_with (p ∷ ps) (c ∷ cs) = let rest = starts_with ps cs in if c == p then rest else false

-- `static int is_module_argument(const char *arg, size_t length)`
unfoldable pub is_module_argument : List ℕ → Bool
unfolding starts_with
is_module_argument arg = if leb (length arg) 6 then false else starts_with prefix arg

abbrev pub max_boot_modules : ℕ
max_boot_modules = 16

abbrev pub max_boot_module_path : ℕ
max_boot_module_path = 128

-- while (*arg == ' ') arg++;
unfoldable pub skip_spaces : List ℕ → List ℕ
skip_spaces [] = []
skip_spaces (c ∷ cs) = let rest = skip_spaces cs in if c == 32 then rest else c ∷ cs

-- The argument up to `end`, and what stands from there on.
unfoldable pub read_argument : List ℕ → List ℕ × List ℕ
read_argument [] = ([], [])
read_argument (c ∷ cs) =
    let (arg, rest) = read_argument cs in if c == 32 then ([], c ∷ cs) else (c ∷ arg, rest)

-- What `collect_boot_modules` does with one argument.
unfoldable pub add_module : List ℕ → List (List ℕ) → List (List ℕ)
unfolding is_module_argument
add_module arg boot_modules =
    let path = drop 6 arg in
    if is_module_argument arg && ltb (length boot_modules) max_boot_modules
    then (if ltb (length path) max_boot_module_path
        then boot_modules ++ path ∷ []
        else boot_modules)
    else boot_modules

-- `static void collect_boot_modules(const char *cmdline)`
unfoldable pub collect_boot_modules : ℕ → List ℕ → List (List ℕ) → Run (List (List ℕ))
unfolding skip_spaces read_argument add_module
collect_boot_modules zero arg boot_modules = stuck
collect_boot_modules (suc n) arg boot_modules = elim (skip_spaces arg) [
  | [] ↦ done boot_modules
  | c ∷ cs ↦
      let (word, rest) = read_argument (c ∷ cs) in
      collect_boot_modules n rest (add_module word boot_modules)
]

-- The variables of the file.
pub record Options : Type 0 where
  pub debug : Bool
  pub boot_modules : List (List ℕ)

-- "--debug"
abbrev pub debug_flag : List ℕ
debug_flag = 45 ∷ 45 ∷ 100 ∷ 101 ∷ 98 ∷ 117 ∷ 103 ∷ []

-- `void read_boot_cmdline(void)`; none is a missing response, or one without a command line.
unfoldable pub read_boot_cmdline : ℕ → Option (List ℕ) → Options → Run Options
unfolding check_flag collect_boot_modules
read_boot_cmdline n none s = done s
read_boot_cmdline n (some cmdline) s =
    collect_boot_modules n cmdline s.boot_modules >>= λ boot_modules. done (record {
      debug = if check_flag cmdline debug_flag then true else s.debug;
      boot_modules = boot_modules;
    })

-- `size_t boot_module_count(void)`
unfoldable pub boot_module_count : Options → ℕ
boot_module_count s = length s.boot_modules

-- `const char *boot_module_path(size_t index)`
unfoldable pub boot_module_path : ℕ → Options → Option (List ℕ)
unfolding boot_module_count
boot_module_path index s =
    if leb (boot_module_count s) index then none else get_elem? s.boot_modules index
