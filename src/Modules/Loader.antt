-- ===== src/Modules/Loader.antt =====
-- src/modules/loader.c, the loader of kernel modules, which are relocatable ELF files. The file lies
-- in memory at `file_buffer`; pointers are addresses, and 0 is NULL.
pub mod Sections
pub mod Relocate
pub mod Load
mod Tests
use miyabi.Base.{
  ℕ, ◌+◌, ◌-◌, ◌*◌, ◌/◌, ◌^◌, Bool, true, false, not, ◌&&◌, ◌||◌, ◌==◌, ltb, leb, if◌then◌else◌,
}
use miyabi.Modules.Elf.{
  Memory, e_ident, e_machine, e_type, e_shentsize, e_shoff, e_shnum, ehdr_size, shdr_size, load,
}

-- `static int elf_validate(Elf64_Ehdr *ehdr, size_t file_size)`
unfoldable pub elf_validate : Memory → ℕ → ℕ → Bool
elf_validate memory ehdr file_size =
    if ltb file_size ehdr_size
    then false
    else (if not (e_ident memory ehdr 0 == 0x7F)
          || not (e_ident memory ehdr 1 == 69)
          || not (e_ident memory ehdr 2 == 76)
          || not (e_ident memory ehdr 3 == 70)
        then false
        else (if not (e_ident memory ehdr 4 == 2)
            then false
            else (if not (e_machine memory ehdr == 62)
                then false
                else (if not (e_type memory ehdr == 1)
                    then false
                    else (if not (e_shentsize memory ehdr == shdr_size)
                          || ltb file_size (e_shoff memory ehdr)
                          || ltb ((file_size - e_shoff memory ehdr) / shdr_size)
                              (e_shnum memory ehdr)
                        then false
                        else true)))))
