-- ===== src/Modules/Tests.antt =====
-- The theorem on kernel symbols at a concrete table.
use miyabi.Base.{◌≡◌, ◌⊎◌, refl, false, List, [], ◌∷◌, All}
use miyabi.Cstring.{compare_texts, same_text}
use miyabi.Modules.Ksym.{KernelSymbol, FirstSymbol, ksym_lookup, ksym_lookup_lem}

abbrev symbols : List KernelSymbol
symbols = record { name = 97 ∷ []; addr = 4096 } ∷ record { name = 98 ∷ []; addr = 8192 } ∷ []

ksym_lookup_lem_example :
    ((f : FirstSymbol (98 ∷ []) symbols) × (ksym_lookup (98 ∷ []) symbols ≡ f.sym.addr))
    ⊎ ((ksym_lookup (98 ∷ []) symbols ≡ 0) × All (λ s. same_text s.name (98 ∷ []) ≡ false) symbols)
ksym_lookup_lem_example = ksym_lookup_lem (98 ∷ []) symbols

lookup_run : ksym_lookup (98 ∷ []) symbols ≡ 8192
unfolding ksym_lookup same_text compare_texts
lookup_run = refl
