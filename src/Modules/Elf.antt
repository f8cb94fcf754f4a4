-- ===== src/Modules/Elf.antt =====
-- include/elf/elf.h: the fields of the structures of a 64-bit ELF file, read from memory, least
-- byte first.
pub mod Bytes
use miyabi.Base.{ℕ, zero, suc, ◌+◌, ◌*◌, ◌/◌, ◌%◌, ◌^◌, Bool, ◌==◌, not, update, u8, shr, low_bits}

abbrev pub Memory : Type 0
Memory = ℕ → ℕ

-- The `n` bytes from `a` on as a number.
unfoldable pub load : ℕ → Memory → ℕ → ℕ
load zero memory a = 0
load (suc n) memory a = memory a + 256 * load n memory (a + 1)

-- The number `v` as the `n` bytes from `a` on.
unfoldable pub store : ℕ → Memory → ℕ → ℕ → Memory
store zero memory a v = memory
store (suc n) memory a v = store n (update memory a (u8 v)) (a + 1) (v / 256)

-- `Elf64_Ehdr`, at the address `ehdr`
abbrev pub ehdr_size : ℕ
ehdr_size = 64

abbrev pub e_ident : Memory → ℕ → ℕ → ℕ
e_ident memory ehdr i = memory (ehdr + i)

abbrev pub e_type : Memory → ℕ → ℕ
e_type memory ehdr = load 2 memory (ehdr + 16)

abbrev pub e_machine : Memory → ℕ → ℕ
e_machine memory ehdr = load 2 memory (ehdr + 18)

abbrev pub e_entry : Memory → ℕ → ℕ
e_entry memory ehdr = load 8 memory (ehdr + 24)

abbrev pub e_phoff : Memory → ℕ → ℕ
e_phoff memory ehdr = load 8 memory (ehdr + 32)

abbrev pub e_shoff : Memory → ℕ → ℕ
e_shoff memory ehdr = load 8 memory (ehdr + 40)

abbrev pub e_phnum : Memory → ℕ → ℕ
e_phnum memory ehdr = load 2 memory (ehdr + 56)

abbrev pub e_shentsize : Memory → ℕ → ℕ
e_shentsize memory ehdr = load 2 memory (ehdr + 58)

abbrev pub e_shnum : Memory → ℕ → ℕ
e_shnum memory ehdr = load 2 memory (ehdr + 60)

-- `Elf64_Shdr`, at the address `s`
abbrev pub shdr_size : ℕ
shdr_size = 64

-- `&shdrs[i]`
abbrev pub shdr : ℕ → ℕ → ℕ
shdr shdrs i = shdrs + shdr_size * i

abbrev pub sh_type : Memory → ℕ → ℕ
sh_type memory s = load 4 memory (s + 4)

abbrev pub sh_flags : Memory → ℕ → ℕ
sh_flags memory s = load 8 memory (s + 8)

abbrev pub sh_addr : Memory → ℕ → ℕ
sh_addr memory s = load 8 memory (s + 16)

abbrev pub sh_offset : Memory → ℕ → ℕ
sh_offset memory s = load 8 memory (s + 24)

abbrev pub sh_size : Memory → ℕ → ℕ
sh_size memory s = load 8 memory (s + 32)

abbrev pub sh_link : Memory → ℕ → ℕ
sh_link memory s = load 4 memory (s + 40)

abbrev pub sh_info : Memory → ℕ → ℕ
sh_info memory s = load 4 memory (s + 44)

abbrev pub sh_addralign : Memory → ℕ → ℕ
sh_addralign memory s = load 8 memory (s + 48)

-- The values of `sh_type` that the code names.
abbrev pub sht_symtab : ℕ
sht_symtab = 2

abbrev pub sht_strtab : ℕ
sht_strtab = 3

abbrev pub sht_rela : ℕ
sht_rela = 4

abbrev pub sht_nobits : ℕ
sht_nobits = 8

-- `sh_flags & SHF_ALLOC`
abbrev pub is_alloc : Memory → ℕ → Bool
is_alloc memory s = low_bits (shr (sh_flags memory s) 1) 1 == 1

-- `Elf64_Sym`, at the address `s`
abbrev pub sym_size : ℕ
sym_size = 24

abbrev pub st_name : Memory → ℕ → ℕ
st_name memory s = load 4 memory s

abbrev pub st_shndx : Memory → ℕ → ℕ
st_shndx memory s = load 2 memory (s + 6)

abbrev pub st_value : Memory → ℕ → ℕ
st_value memory s = load 8 memory (s + 8)

abbrev pub shn_undef : ℕ
shn_undef = 0

abbrev pub shn_abs : ℕ
shn_abs = 0xFFF1

-- `Elf64_Rela`, at the address `r`
abbrev pub rela_size : ℕ
rela_size = 24

abbrev pub r_offset : Memory → ℕ → ℕ
r_offset memory r = load 8 memory r

abbrev pub r_info : Memory → ℕ → ℕ
r_info memory r = load 8 memory (r + 8)

abbrev pub r_addend : Memory → ℕ → ℕ
r_addend memory r = load 8 memory (r + 16)

-- `Elf64_Phdr`, at the address `p`
abbrev pub phdr_size : ℕ
phdr_size = 56

abbrev pub p_type : Memory → ℕ → ℕ
p_type memory p = load 4 memory p

abbrev pub p_flags : Memory → ℕ → ℕ
p_flags memory p = load 4 memory (p + 4)

abbrev pub p_offset : Memory → ℕ → ℕ
p_offset memory p = load 8 memory (p + 8)

abbrev pub p_vaddr : Memory → ℕ → ℕ
p_vaddr memory p = load 8 memory (p + 16)

abbrev pub p_filesz : Memory → ℕ → ℕ
p_filesz memory p = load 8 memory (p + 32)

abbrev pub p_memsz : Memory → ℕ → ℕ
p_memsz memory p = load 8 memory (p + 40)

-- PT_LOAD
abbrev pub pt_load : ℕ
pt_load = 1

-- `p_flags & PF_W`
abbrev pub is_writable : Memory → ℕ → Bool
is_writable memory p = low_bits (shr (p_flags memory p) 1) 1 == 1
