-- ===== src/Cmdline/Tests.antt =====
-- The theorems on the boot command line at concrete inputs, and runs of the operations.
use miyabi.Base.{
  ℕ, ◌≡◌, ◌↔◌, refl, arith, true, false, none, some, List, [], ◌∷◌, ◌++◌, if◌then◌else◌,
}
use miyabi.Base.Run.{done, Ends}
use miyabi.Cmdline.{
  check_flag, prefix, debug_flag, Options, read_boot_cmdline, boot_module_count, boot_module_path,
}
use miyabi.Cmdline.Flag.{FlagAt, check_flag_iff}
use miyabi.Cmdline.Collect.{Collected, read_boot_cmdline_lem}

-- "--debug --MOD=a"
abbrev cmdline : List ℕ
cmdline = debug_flag ++ 32 ∷ prefix ++ 97 ∷ []

abbrev start : Options
start = record { debug = false; boot_modules = [] }

check_flag_iff_example : (check_flag cmdline debug_flag ≡ true) ↔ FlagAt cmdline debug_flag
check_flag_iff_example = check_flag_iff 45 (45 ∷ 100 ∷ 101 ∷ 98 ∷ 117 ∷ 103 ∷ []) cmdline

read_boot_cmdline_lem_example :
    Ends {A = Options}
      (λ t.
        Collected [] t.boot_modules
        × (t.debug ≡ (if check_flag cmdline debug_flag then true else false)))
      (read_boot_cmdline 16 (some cmdline) start)
read_boot_cmdline_lem_example =
    read_boot_cmdline_lem 16 cmdline start (record { count = omega arith; paths = tt })
      (omega arith)

read_run :
    read_boot_cmdline 16 (some cmdline) start
    ≡ done (record { debug = true; boot_modules = (97 ∷ []) ∷ [] })
unfolding read_boot_cmdline
read_run = refl

-- The path of a module that ends with the flag turns debug output on.
inside_run : check_flag (prefix ++ debug_flag) debug_flag ≡ true
unfolding check_flag
inside_run = refl

path_run : boot_module_path 0 (record start { boot_modules = (97 ∷ []) ∷ [] }) ≡ some (97 ∷ [])
unfolding boot_module_path boot_module_count
path_run = refl

no_path_run : boot_module_path 1 (record start { boot_modules = (97 ∷ []) ∷ [] }) ≡ none
unfolding boot_module_path boot_module_count
no_path_run = refl
