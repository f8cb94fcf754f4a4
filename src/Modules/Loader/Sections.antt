-- ===== src/Modules/Loader/Sections.antt =====
-- `load_module`: the sections are measured and copied to the memory of the module. Only the loops'
-- counters are loop state; the header of the file and the table of section headers are read where the
-- code reads them, from memory.
pub mod Layout
pub mod Step
pub mod Placed
pub mod Loop
pub mod Measured
use miyabi.Base.{
  ℕ, zero, suc, ◌+◌, ◌-◌, ◌*◌, ◌^◌, bit_and, Bool, not, ◌&&◌, ◌||◌, ◌==◌, ltb, if◌then◌else◌,
  Option, none, some, u64, update,
}
use miyabi.Base.Run.{Run, done, stuck}
use miyabi.Cstring.{copy_from, set_from}
use miyabi.Modules.Elf.{
  Memory, load, store, e_shnum, shdr, sh_type, sh_addr, sh_offset, sh_size, sh_addralign, is_alloc,
  sht_nobits,
}

-- `sh_offset > file_size || sh_size > file_size - sh_offset`
abbrev pub is_outside : Memory → ℕ → ℕ → Bool
is_outside memory s file_size =
    ltb file_size (sh_offset memory s) || ltb (file_size - sh_offset memory s) (sh_size memory s)

-- if (align > 1) offset = (offset + align - 1) & ~(align - 1);
unfoldable pub align_offset : ℕ → ℕ → ℕ
align_offset offset align =
    if ltb 1 align then bit_and (u64 (offset + align - 1)) (2 ^ 64 - 1 - (align - 1)) else offset

-- The loop that adds up `total_memory_size`, from section `i` on, `n` sections before the end; `none`
-- is a section that is not in the file.
unfoldable pub measure : ℕ → ℕ → ℕ → Memory → ℕ → ℕ → Option ℕ
unfolding align_offset
measure zero i total memory shdrs file_size = some total
measure (suc n) i total memory shdrs file_size =
    let s = shdr shdrs i in
    let skipped = measure n (i + 1) total memory shdrs file_size in
    let counted =
      measure n (i + 1) (u64 (align_offset total (sh_addralign memory s) + sh_size memory s)) memory
        shdrs file_size in
    if is_alloc memory s
    then (if not (sh_type memory s == sht_nobits) && is_outside memory s file_size
        then none
        else counted)
    else skipped

-- What the loop that places the sections does to the section header `s`: its address is written,
-- and its contents are copied, or zeros.
unfoldable pub place_section : ℕ → ℕ → ℕ → Memory → Memory
unfolding copy_from set_from
place_section s file_buffer address memory =
    let marked = store 8 memory (s + 16) (u64 address) in
    let dst = sh_addr marked s in
    if sh_type marked s == sht_nobits
    then set_from (sh_size marked s) 0 dst 0 marked
    else copy_from (sh_size marked s) 0 dst (file_buffer + sh_offset marked s) marked

-- The loop that places the sections. Its condition reads the number of sections from the header of
-- the file in every round, and what a round writes may be there.
unfoldable pub place_sections : ℕ → ℕ → ℕ → ℕ → ℕ → ℕ → Memory → Run Memory
unfolding align_offset place_section
place_sections zero i offset shdrs file_buffer module_memory memory = stuck
place_sections (suc n) i offset shdrs file_buffer module_memory memory =
    let s = shdr shdrs i in
    let start = align_offset offset (sh_addralign memory s) in
    let skipped = place_sections n (i + 1) offset shdrs file_buffer module_memory memory in
    let memory' = place_section s file_buffer (module_memory + start) memory in
    let placed =
      place_sections n (i + 1) (u64 (start + sh_size memory' s)) shdrs file_buffer module_memory
        memory' in
    if ltb i (e_shnum memory file_buffer)
    then (if is_alloc memory s then placed else skipped)
    else done memory
