-- ===== src/Modules/Loader/Load.antt =====
-- `load_module` and `load_module_from_file`: the whole of the loader, over what it calls of the rest of
-- the kernel.
pub mod Release
use miyabi.Base.{
  ℕ, zero, suc, ◌+◌, ◌-◌, ◌*◌, ◌/◌, ◌%◌, ◌^◌, Bool, true, false, not, ◌&&◌, ◌||◌, ◌==◌, ltb, leb,
  if◌then◌else◌, Option, none, some, u32, u64, shr, low_bits, List, [], ◌∷◌, update,
}
use miyabi.Base.Run.{Run, done, halted, stuck, ◌>>=◌}
use miyabi.Modules.Elf.{
  Memory, load, store, shdr, sh_offset, sh_size, sh_addr, e_shoff, e_shnum, sym_size, st_name,
  st_shndx, st_value, shn_undef, shn_abs,
}
use miyabi.Modules.Ksym.{KernelSymbol}
use miyabi.Modules.Loader.{elf_validate}
use miyabi.Modules.Loader.Sections.{measure, place_sections}
use miyabi.Modules.Loader.Relocate.{
  has_name, int_rounds, find_symtab, find_strtab, File, relocate_sections,
}

-- `kernel_module_t`, at the address `mod`: the name, and then four words.
abbrev pub module_size : ℕ
module_size = 96

abbrev pub memory_base : ℕ → ℕ
memory_base kmod = kmod + 64

abbrev pub memory_size : ℕ → ℕ
memory_size kmod = kmod + 72

abbrev pub init : ℕ → ℕ
init kmod = kmod + 80

abbrev pub cleanup : ℕ → ℕ
cleanup kmod = kmod + 88

-- for (i = 0; i < 63 && name[i]; i++) { mod->name[i] = name[i]; mod->name[i + 1] = 0; }
unfoldable pub copy_name : ℕ → ℕ → ℕ → ℕ → Memory → Memory
copy_name zero i kmod name memory = memory
copy_name (suc n) i kmod name memory =
    let rest =
      copy_name n (i + 1) kmod name
        (update (update memory (kmod + i) (memory (name + i))) (kmod + i + 1) 0) in
    if memory (name + i) == 0 then memory else rest

-- "module_init" and "module_cleanup"
abbrev pub module_init : List ℕ
module_init = 109 ∷ 111 ∷ 100 ∷ 117 ∷ 108 ∷ 101 ∷ 95 ∷ 105 ∷ 110 ∷ 105 ∷ 116 ∷ []

abbrev pub module_cleanup : List ℕ
module_cleanup = 109 ∷ 111 ∷ 100 ∷ 117 ∷ 108 ∷ 101 ∷ 95 ∷ 99 ∷ 108 ∷ 101 ∷ 97 ∷ 110 ∷ 117 ∷ 112 ∷ []

-- The body of the loop on all symbols.
unfoldable pub note_symbol : File → ℕ → ℕ → Memory → Memory
unfolding has_name
note_symbol f kmod sym memory =
    let name = f.strings + st_name memory sym in
    let value = u64 (sh_addr memory (shdr f.shdrs (st_shndx memory sym)) + st_value memory sym) in
    if st_shndx memory sym == shn_undef
      || st_shndx memory sym == shn_abs
      || leb f.shnum (st_shndx memory sym)
    then memory
    else (if has_name module_init memory name
        then store 8 memory (init kmod) value
        else (if has_name module_cleanup memory name
            then store 8 memory (cleanup kmod) value
            else memory))

unfoldable pub note_symbols : ℕ → File → ℕ → ℕ → Memory → Memory
unfolding note_symbol
note_symbols zero f kmod sym memory = memory
note_symbols (suc n) f kmod sym memory =
    note_symbols n f kmod (sym + sym_size) (note_symbol f kmod sym memory)

-- What is written to the new `kernel_module_t`.
unfoldable pub fill_module : File → ℕ → ℕ → ℕ → ℕ → Memory → Memory
unfolding copy_name note_symbols
fill_module f name kmod module_memory total memory =
    let named = copy_name 63 0 kmod name memory in
    let based = store 8 named (memory_base kmod) module_memory in
    let sized = store 8 based (memory_size kmod) total in
    let empty = store 8 (store 8 sized (init kmod) 0) (cleanup kmod) 0 in
    note_symbols (int_rounds (u32 (sh_size empty f.symtab / sym_size))) f kmod f.syms empty

-- The heap, the table of kernel symbols, and the code of modules, which may change everything.
pub record Kernel : Type 1 where
  pub State : Type 0
  pub kmalloc : ℕ → State → Run (ℕ × State)
  pub kfree : ℕ → State → Run State
  pub symbols : List KernelSymbol
  pub call : ℕ → Memory × State → Run (Memory × State)

module _ (k : Kernel) where
  pub record Machine : Type 0 where
    pub memory : Memory
    pub state : k.State

  -- kfree(module_memory); return NULL;
  unfoldable pub discard : ℕ → Machine → Run (ℕ × Machine)
  discard module_memory m = k.kfree module_memory m.state >>= λ s. done (0, record m { state = s })

  -- `mod->init();`
  unfoldable pub run_init : ℕ → Machine → Run (ℕ × Machine)
  run_init kmod m =
      if load 8 m.memory (init kmod) == 0
      then done (kmod, m)
      else (k.call (load 8 m.memory (init kmod)) (m.memory, m.state) >>= λ r.
          done (kmod, record { memory = r.0; state = r.1 }))

  -- From the allocation of the `kernel_module_t` on.
  unfoldable pub create_module : File → ℕ → ℕ → ℕ → Machine → Run (ℕ × Machine)
  unfolding discard run_init fill_module
  create_module f name module_memory total m = k.kmalloc module_size m.state >>= λ r.
      let allocated = record m { state = r.1 } in
      if r.0 == 0
      then discard module_memory allocated
      else run_init r.0
          (record allocated { memory = fill_module f name r.0 module_memory total m.memory })

  -- From the search of the symbol table on. `shdrs` was computed before the sections were placed.
  unfoldable pub link_module : ℕ → ℕ → ℕ → ℕ → ℕ → ℕ → Machine → Run (ℕ × Machine)
  unfolding create_module discard
  link_module name file_buffer file_size shdrs module_memory total m =
      let shnum = e_shnum m.memory file_buffer in
      elim (find_symtab shnum 0 shdrs m.memory) [
        | none ↦ discard module_memory m
        | some symtab ↦ elim (find_strtab symtab shnum shdrs file_size m.memory) [
          | none ↦ discard module_memory m
          | some strtab ↦
              let f : File = record {
                file_buffer = file_buffer;
                file_size = file_size;
                shnum = shnum;
                shdrs = shdrs;
                symtab = symtab;
                strtab = strtab;
                syms = file_buffer + sh_offset m.memory symtab;
                strings = file_buffer + sh_offset m.memory strtab;
              } in
              elim (relocate_sections shnum 0 k.symbols f m.memory) [
                | none ↦ discard module_memory m
                | some memory' ↦
                    create_module f name module_memory total (record m { memory = memory' })
              ]
        ]
      ]

  -- The rounds of the loop that places the sections: `e_shnum` is a number of 16 bits.
  abbrev pub section_rounds : ℕ
  section_rounds = 2 ^ 16

  -- `kernel_module_t *load_module(const char *name, uint8_t *file_buffer, size_t file_size)`
  unfoldable pub load_module : ℕ → ℕ → ℕ → Machine → Run (ℕ × Machine)
  unfolding link_module
  load_module name file_buffer file_size m =
      let shnum = e_shnum m.memory file_buffer in
      let shdrs = file_buffer + e_shoff m.memory file_buffer in
      if name == 0 || file_buffer == 0
      then done (0, m)
      else (if not (elf_validate m.memory file_buffer file_size)
          then done (0, m)
          else elim (measure shnum 0 0 m.memory shdrs file_size) [
            | none ↦ done (0, m)
            | some total ↦ k.kmalloc total m.state >>= λ r.
                if r.0 == 0
                then done (0, record m { state = r.1 })
                else (place_sections section_rounds 0 0 shdrs file_buffer r.0 m.memory >>= λ placed.
                    link_module name file_buffer file_size shdrs r.0 total
                      (record { memory = placed; state = r.1 }))
          ])

  -- The file system, as `load_module_from_file` uses it: an open file has an address, flags and a
  -- length.
  pub record Files : Type 0 where
    pub vfs_open : ℕ → Machine → ℕ × Machine
    pub flags : ℕ → Machine → ℕ
    pub length : ℕ → Machine → ℕ
    pub vfs_read : ℕ → ℕ → ℕ → Machine → Machine
    pub vfs_close : ℕ → Machine → Machine

  -- What is done with the buffer that the file is read into.
  unfoldable pub load_buffer : Files → ℕ → ℕ → ℕ → ℕ → Machine → Run (ℕ × Machine)
  unfolding load_module
  load_buffer fs filepath mod_file file_buffer file_size m =
      load_module filepath file_buffer file_size (fs.vfs_read mod_file file_buffer file_size m)
      >>= λ r. (k.kfree file_buffer r.1.state >>= λ s. done (r.0, record r.1 { state = s }))

  -- `kernel_module_t *load_module_from_file(const char *filepath)`
  unfoldable pub load_module_from_file : Files → ℕ → Machine → Run (ℕ × Machine)
  unfolding load_buffer
  load_module_from_file fs filepath m =
      let (mod_file, opened) = fs.vfs_open filepath m in
      let file_size = fs.length mod_file opened in
      if mod_file == 0
      then done (0, opened)
      else (if low_bits (fs.flags mod_file opened) 1 == 0
          then done (0, opened)
          else (k.kmalloc file_size opened.state >>= λ b.
              let allocated = record opened { state = b.1 } in
              let loaded = load_buffer fs filepath mod_file b.0 file_size allocated in
              (if b.0 == 0 then done (0, allocated) else loaded) >>= λ r.
              done (r.0, fs.vfs_close mod_file r.1)))
