-- ===== src/Modules/Loader/Relocate.antt =====
-- `load_module`: the symbol table is found, and the relocations are applied. `none` is a relocation
-- that the code refuses.
pub mod Bounds
pub mod Value
use miyabi.Base.{
  ℕ, zero, suc, ◌+◌, ◌-◌, ◌*◌, ◌/◌, ◌%◌, ◌^◌, Bool, true, false, not, ◌&&◌, ◌||◌, ◌==◌, ltb, leb,
  if◌then◌else◌, Option, none, some, u32, u64, sub64, shr, List, [], ◌∷◌,
}
use miyabi.Modules.Elf.{
  Memory, load, store, shdr, sh_type, sh_flags, sh_offset, sh_size, sh_addr, sh_link, sh_info,
  is_alloc, sht_symtab, sht_strtab, sht_rela, sym_size, st_name, st_shndx, st_value, shn_undef,
  shn_abs, rela_size, r_offset, r_info, r_addend,
}
use miyabi.Modules.Ksym.{KernelSymbol}
use miyabi.Modules.Loader.Sections.{is_outside}

-- The text at `a` is `text`, by the comparison of src/modules/ksym.c and of the loops on
-- "module_init" and "module_cleanup".
unfoldable pub has_name : List ℕ → Memory → ℕ → Bool
has_name [] memory a = memory a == 0
has_name (c ∷ text) memory a =
    let rest = has_name text memory (a + 1) in if memory a == c then rest else false

-- `ksym_lookup`, of the text at `a`
unfoldable pub lookup_at : List KernelSymbol → Memory → ℕ → ℕ
unfolding has_name
lookup_at [] memory a = 0
lookup_at (sym ∷ table) memory a =
    let rest = lookup_at table memory a in if has_name sym.name memory a then sym.addr else rest

-- `a >= b` of two `int`s, which are given by their 32 bits
abbrev pub int_ge : ℕ → ℕ → Bool
int_ge a b = leb (u32 (b + 2 ^ 31)) (u32 (a + 2 ^ 31))

-- An `int` as an index of 64 bits.
abbrev pub sign_extend : ℕ → ℕ
sign_extend x = if ltb x (2 ^ 31) then x else x + (2 ^ 64 - 2 ^ 32)

-- The rounds of `for (int j = 0; j < x; j++)`, where `x` is an `int`.
abbrev pub int_rounds : ℕ → ℕ
int_rounds x = if ltb x (2 ^ 31) then x else 0

-- The first section of type `SHT_SYMTAB`.
unfoldable pub find_symtab : ℕ → ℕ → ℕ → Memory → Option ℕ
find_symtab zero i shdrs memory = none
find_symtab (suc n) i shdrs memory =
    let rest = find_symtab n (i + 1) shdrs memory in
    if sh_type memory (shdr shdrs i) == sht_symtab then some (shdr shdrs i) else rest

-- The checks of the symbol table `symtab` and of its table of strings, which they give.
unfoldable pub find_strtab : ℕ → ℕ → ℕ → ℕ → Memory → Option ℕ
find_strtab symtab shnum shdrs file_size memory =
    let strtab = shdr shdrs (sh_link memory symtab) in
    if leb shnum (sh_link memory symtab) || is_outside memory symtab file_size
    then none
    else (if not (sh_type memory strtab == sht_strtab) || is_outside memory strtab file_size
        then none
        else some strtab)

-- What the loader knows of the file when it comes to the relocations.
pub record File : Type 0 where
  pub file_buffer : ℕ
  pub file_size : ℕ
  pub shnum : ℕ
  pub shdrs : ℕ
  pub symtab : ℕ
  pub strtab : ℕ
  pub syms : ℕ
  pub strings : ℕ

-- `sym_val`; `none` is a symbol that is unresolved or invalid.
unfoldable pub symbol_value : List KernelSymbol → File → ℕ → Memory → Option ℕ
unfolding lookup_at
symbol_value table f sym memory =
    let found = lookup_at table memory (f.strings + st_name memory sym) in
    let section = shdr f.shdrs (st_shndx memory sym) in
    if st_shndx memory sym == shn_undef
    then (if found == 0 then none else some found)
    else (if st_shndx memory sym == shn_abs
        then some (st_value memory sym)
        else (if leb f.shnum (st_shndx memory sym) || not (is_alloc memory section)
            then none
            else some (u64 (sh_addr memory section + st_value memory sym))))

-- The `switch` on the relocation's type, with the check of the bounds before it.
unfoldable pub patch : ℕ → ℕ → ℕ → ℕ → Memory → Option Memory
patch target rela rel_type sym_val memory =
    let patch_addr = u64 (sh_addr memory target + r_offset memory rela) in
    let patch_size = if rel_type == 1 then 8 else 4 in
    let value = u64 (sym_val + r_addend memory rela) in
    if not (rel_type == 0)
      && (ltb (sh_size memory target) (r_offset memory rela)
          || ltb (sh_size memory target - r_offset memory rela) patch_size)
    then none
    else (if rel_type == 0
        then some memory
        else (if rel_type == 1
            then some (store 8 memory patch_addr value)
            else (if rel_type == 2 || rel_type == 4
                then some (store 4 memory patch_addr (u32 (sub64 value patch_addr)))
                else (if rel_type == 10 || rel_type == 11
                    then some (store 4 memory patch_addr (u32 value))
                    else none))))

-- The body of the loop on the relocations of a section.
unfoldable pub apply_rela : List KernelSymbol → File → ℕ → ℕ → Memory → Option Memory
unfolding symbol_value patch
apply_rela table f target rela memory =
    let sym_idx = shr (r_info memory rela) 32 in
    let rel_type = u32 (r_info memory rela) in
    let num_syms = u32 (sh_size memory f.symtab / sym_size) in
    let sym = u64 (f.syms + sym_size * sign_extend sym_idx) in
    if int_ge sym_idx num_syms
    then none
    else (if leb (sh_size memory f.strtab) (st_name memory sym)
        then none
        else elim (symbol_value table f sym memory) [
          | none ↦ none
          | some sym_val ↦ patch target rela rel_type sym_val memory
        ])

unfoldable pub apply_relas : ℕ → List KernelSymbol → File → ℕ → ℕ → Memory → Option Memory
unfolding apply_rela
apply_relas zero table f target rela memory = some memory
apply_relas (suc n) table f target rela memory = elim (apply_rela table f target rela memory) [
  | none ↦ none
  | some memory' ↦ apply_relas n table f target (rela + rela_size) memory'
]

-- The body of the loop on the sections, for the section header `s`.
unfoldable pub relocate_section : List KernelSymbol → File → ℕ → Memory → Option Memory
unfolding apply_relas
relocate_section table f s memory =
    let target = shdr f.shdrs (sh_info memory s) in
    let relas = f.file_buffer + sh_offset memory s in
    let num_relas = int_rounds (u32 (sh_size memory s / rela_size)) in
    if not (sh_type memory s == sht_rela)
    then some memory
    else (if leb f.shnum (sh_info memory s)
          || is_outside memory s f.file_size
          || not (sh_size memory s % rela_size == 0)
        then none
        else (if not (is_alloc memory target)
            then some memory
            else apply_relas num_relas table f target relas memory))

unfoldable pub relocate_sections : ℕ → ℕ → List KernelSymbol → File → Memory → Option Memory
unfolding relocate_section
relocate_sections zero i table f memory = some memory
relocate_sections (suc n) i table f memory =
    elim (relocate_section table f (shdr f.shdrs i) memory) [
      | none ↦ none
      | some memory' ↦ relocate_sections n (i + 1) table f memory'
    ]
