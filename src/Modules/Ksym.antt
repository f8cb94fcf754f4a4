-- ===== src/Modules/Ksym.antt =====
-- src/modules/ksym.c, the table of exported kernel symbols, which the linker puts between
-- `__start_ksymtab` and `__stop_ksymtab`. The comparison of the file is that of `strcmp`.
use miyabi.Base.{
  ℕ, ◌≡◌, ◌⊎◌, refl, true, false, List, [], ◌∷◌, ◌++◌, if◌then◌else◌, All, inl, inr, ap, Bool-cases,
}
use miyabi.Cstring.{same_text}

-- `kernel_symbol_t`
pub record KernelSymbol : Type 0 where
  pub name : List ℕ
  pub addr : ℕ

-- `uint64_t ksym_lookup(const char *name)`
unfoldable pub ksym_lookup : List ℕ → List KernelSymbol → ℕ
ksym_lookup name [] = 0
ksym_lookup name (sym ∷ table) =
    let rest = ksym_lookup name table in if same_text sym.name name then sym.addr else rest

-- `sym` is the first symbol of the table with the name.
pub record FirstSymbol (name : List ℕ) (table : List KernelSymbol) : Type 0 where
  pub before : List KernelSymbol
  pub sym : KernelSymbol
  pub after : List KernelSymbol
  pub split : table ≡ before ++ sym ∷ after
  pub named : same_text sym.name name ≡ true
  pub earlier : All (λ s. same_text s.name name ≡ false) before

-- `ksym_lookup` gives the address of the first symbol of the table with the name, and 0 if no symbol
-- has it.
pub ksym_lookup_lem :
    (name : List ℕ) (table : List KernelSymbol)
    → ((f : FirstSymbol name table) × (ksym_lookup name table ≡ f.sym.addr))
      ⊎ ((ksym_lookup name table ≡ 0) × All (λ s. same_text s.name name ≡ false) table)
unfolding ksym_lookup
ksym_lookup_lem name [] = inr (refl, tt)
ksym_lookup_lem name (s ∷ table) = elim (Bool-cases (same_text s.name name)) [
  | inl here ↦ inl (
    record { before = []; sym = s; after = table; split = refl; named = here; earlier = tt },
    rw here,
  )
  | inr other ↦ elim (ksym_lookup_lem name table) [
    | inl (f, e) ↦ inl (
      record {
        before = s ∷ f.before;
        sym = f.sym;
        after = f.after;
        split = ap (λ t. s ∷ t) f.split;
        named = f.named;
        earlier = (other, f.earlier);
      },
      rw (other, e),
    )
    | inr (e, none) ↦ inr (rw (other, e), (other, none))
  ]
]
