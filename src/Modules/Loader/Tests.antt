-- ===== src/Modules/Loader/Tests.antt =====
-- A small module is loaded, and the theorems on the loader at it.
use miyabi.Base.{
  ℕ, ◌+◌, ◌-◌, ◌*◌, ◌≡◌, refl, arith, true, false, some, List, [], ◌∷◌, ◌==◌, if◌then◌else◌, update,
  u64,
}
use miyabi.Base.Run.{done, Ends}
use miyabi.Cstring.{copy_from}
use miyabi.Modules.Elf.{Memory, load, store, sh_addr, r_offset, r_addend}
use miyabi.Modules.Loader.{elf_validate}
use miyabi.Modules.Loader.Sections.{align_offset, measure, place_section, place_sections}
use miyabi.Modules.Loader.Sections.Layout.{Grows, offset_after}
use miyabi.Modules.Loader.Sections.Step.{Image}
use miyabi.Modules.Loader.Sections.Placed.{Placed}
use miyabi.Modules.Loader.Sections.Measured.{place_sections-measure}
use miyabi.Modules.Loader.Relocate.{
  File, has_name, find_symtab, find_strtab, symbol_value, patch, apply_rela, apply_relas,
  relocate_section, relocate_sections,
}
use miyabi.Modules.Loader.Relocate.Value.{Relocated, patch-Relocated}
use miyabi.Modules.Loader.Load.{
  Kernel, Machine, copy_name, note_symbol, note_symbols, fill_module, discard, run_init,
  create_module, link_module, load_module,
}
use miyabi.Modules.Loader.Load.Release.{Released, load_module-Released}

-- Bytes at addresses, all others 0.
abbrev Cell : Type 0
Cell = ℕ × ℕ

bytes_at : List Cell → Memory
bytes_at [] a = 0
bytes_at (c ∷ cs) a = let rest = bytes_at cs a in if c.0 == a then c.1 else rest

-- A module at 4096 of 384 bytes: a section of eight bytes that takes memory, a table with one
-- absolute symbol, its strings, and one relocation of the section by 5 + 7.
abbrev file : Memory
file = bytes_at (
    (4096, 127)
    ∷ (4097, 69)
    ∷ (4098, 76)
    ∷ (4099, 70)
    ∷ (4100, 2)
    ∷ (4112, 1)
    ∷ (4114, 62)
    ∷ (4136, 64)
    ∷ (4154, 64)
    ∷ (4156, 4)
    ∷ (4164, 1)
    ∷ (4168, 2)
    ∷ (4184, 120)
    ∷ (4185, 1)
    ∷ (4192, 8)
    ∷ (4208, 8)
    ∷ (4228, 2)
    ∷ (4248, 64)
    ∷ (4249, 1)
    ∷ (4256, 24)
    ∷ (4264, 2)
    ∷ (4292, 3)
    ∷ (4312, 88)
    ∷ (4313, 1)
    ∷ (4320, 1)
    ∷ (4356, 4)
    ∷ (4376, 96)
    ∷ (4377, 1)
    ∷ (4384, 24)
    ∷ (4422, 0xF1)
    ∷ (4423, 0xFF)
    ∷ (4424, 5)
    ∷ (4456, 1)
    ∷ (4464, 7)
    ∷ (4472, 1)
    ∷ (4473, 2)
    ∷ (4474, 3)
    ∷ [])

abbrev image : Image
image = record {
  file_buffer = 4096;
  file_size = 384;
  shdrs = 4160;
  shnum = 4;
  base = 8192;
  total = 8;
  from = omega arith;
  inside = omega arith;
  apart = omega arith;
  reached = omega arith;
}

valid : elf_validate file 4096 384 ≡ true
unfolding elf_validate load bytes_at
valid = refl

sum : measure 4 0 0 file 4160 384 ≡ some 8
unfolding measure load bytes_at align_offset
sum = refl

file-Grows : Grows 4 0 0 file 4160
unfolding Grows load bytes_at align_offset
file-Grows = (
  (λ h. (omega arith, omega arith)),
  ((λ h. absurd (differ h)), ((λ h. absurd (differ h)), ((λ h. absurd (differ h)), tt))),
)
  where
    differ : false ≡ true → ⊥
    differ h = cc

four_sections : load 2 file 4156 ≡ 4
unfolding load bytes_at
four_sections = refl

place_sections-measure_example :
    (offset_after 4 0 0 file 4160 ≡ 8)
    × Ends (Placed image file 4 0 0 file) (place_sections 5 0 0 4160 4096 8192 file)
place_sections-measure_example =
    place_sections-measure image file 5 (omega arith) four_sections sum file-Grows

-- The first section is the only one that takes memory.
abbrev placed : Memory
placed = place_section 4160 4096 8192 file

placed_lem : place_sections 5 0 0 4160 4096 8192 file ≡ done placed
unfolding place_sections place_section align_offset copy_from load bytes_at store
placed_lem = refl

abbrev info : File
info = record {
  file_buffer = 4096;
  file_size = 384;
  shnum = 4;
  shdrs = 4160;
  symtab = 4224;
  strtab = 4288;
  syms = 4416;
  strings = 4440;
}

patched : patch 4160 4448 1 5 placed ≡ some (store 8 placed 8192 12)
unfolding patch place_sections place_section align_offset copy_from load bytes_at store
patched = refl

patch-Relocated_example :
    Relocated placed
      (store 8 placed 8192 12)
      5
      (r_addend placed 4448)
      (u64 (sh_addr placed 4160 + r_offset placed 4448))
      1
patch-Relocated_example = patch-Relocated 4160 4448 1 5 placed (store 8 placed 8192 12) patched

-- A heap that gives memory at 8192 and then at 12288, and counts what it has given.
abbrev kernel : Kernel
kernel = record {
  State = ℕ;
  kmalloc = λ n s. done (8192 + 4096 * s, s + 1);
  kfree = λ p s. done (s - 1);
  symbols = [];
  call = λ a m. done m;
}

-- The module is loaded: the relocation is done, and its address is that of the `kernel_module_t`.
loaded :
    Ends
      (λ r. (r.0 ≡ 12288) × (load 8 r.1.memory 8192 ≡ 12) × (load 8 r.1.memory 12352 ≡ 8192))
      (load_module kernel 4098 4096 384 (record { memory = file; state = 0 }))
unfolding load_module link_module create_module run_init fill_module copy_name note_symbols
    note_symbol has_name elf_validate measure find_symtab find_strtab relocate_sections
    relocate_section apply_relas apply_rela symbol_value patch place_sections place_section
    align_offset copy_from load bytes_at store
loaded = (refl, refl, refl)

-- With a relocation of type 9, which the loader does not know, it fails.
abbrev broken : Machine kernel
broken = record { memory = update file 4456 9; state = 0 }

refused :
    load_module kernel 4098 4096 384 broken
    ≡ done (0, record { memory = place_section 4160 4096 8192 (update file 4456 9); state = 0 })
unfolding load_module link_module discard elf_validate measure find_symtab find_strtab
    relocate_sections relocate_section apply_relas apply_rela symbol_value patch place_sections
    place_section align_offset copy_from load bytes_at store
refused = refl

load_module-Released_example : Released kernel 0 0
load_module-Released_example = load_module-Released kernel 4098 4096 384 broken _ refused
