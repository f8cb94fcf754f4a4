-- ===== src/Elf/Loader.antt =====
-- src/elf/loader.c: the segments of an executable are copied to new pages, which are mapped at their
-- addresses. Memory is bytes here; the page tables are the state behind `Pager`, and the parameter
-- `user_pml4`, which the code does not use, is left out.
pub mod Page
use miyabi.Base.{
  ℕ, zero, suc, ◌+◌, ◌-◌, ◌*◌, ◌/◌, ◌%◌, ◌^◌, not, ◌||◌, ◌==◌, ltb, if◌then◌else◌, u64, low_bits,
  clear_low_bits,
}
use miyabi.Base.Run.{Run, done, ◌>>=◌}
use miyabi.Cstring.{copy_from, set_from}
use miyabi.Modules.Elf.{
  Memory, load, e_ident, e_machine, e_type, e_entry, e_phoff, e_phnum, phdr_size, p_type, p_offset,
  p_vaddr, p_filesz, p_memsz, pt_load, is_writable,
}

-- A segment, as the loop reads it.
pub record Segment : Type 0 where
  pub vaddr : ℕ
  pub memsz : ℕ
  pub filesz : ℕ
  pub offset : ℕ

unfoldable pub read_segment : Memory → ℕ → Segment
read_segment memory phdr = record {
  vaddr = p_vaddr memory phdr;
  memsz = p_memsz memory phdr;
  filesz = p_filesz memory phdr;
  offset = p_offset memory phdr;
}

-- if (copy_start < seg_start) copy_start = seg_start;
abbrev pub copy_start : Segment → ℕ → ℕ
copy_start s curr_page_vaddr = if ltb curr_page_vaddr s.vaddr then s.vaddr else curr_page_vaddr

-- if (copy_end > seg_end) copy_end = seg_end;
abbrev pub copy_end : Segment → ℕ → ℕ
copy_end s curr_page_vaddr =
    if ltb (u64 (s.vaddr + s.filesz)) (u64 (curr_page_vaddr + 4096))
    then u64 (s.vaddr + s.filesz)
    else u64 (curr_page_vaddr + 4096)

-- The page at `virt_page` is cleared, and what the file has of it is copied.
unfoldable pub fill_page : ℕ → Segment → ℕ → ℕ → Memory → Memory
fill_page elf_binary s curr_page_vaddr virt_page memory =
    let cleared = set_from 4096 0 virt_page 0 memory in
    let start = copy_start s curr_page_vaddr in
    let end = copy_end s curr_page_vaddr in
    if ltb start end
    then copy_from (end - start) 0 (virt_page + (start - curr_page_vaddr))
        (elf_binary + u64 (s.offset + (start - s.vaddr))) cleared
    else cleared

-- `pmm_alloc` and `vmm_map_page`, over the state that they change.
pub record Pager : Type 1 where
  pub State : Type 0
  pub pmm_alloc : State → ℕ × State
  pub vmm_map_page : ℕ → ℕ → ℕ → State → Run State

module _ (k : Pager) (hhdm_offset : ℕ) where
  pub record Machine : Type 0 where
    pub memory : Memory
    pub state : k.State

  -- The body of the loop on the pages of a segment, for page `p`.
  unfoldable pub load_page : ℕ → ℕ → Segment → ℕ → Machine → Run Machine
  unfolding fill_page
  load_page elf_binary phdr s p m =
      let (phys_frame, allocated) = k.pmm_alloc m.state in
      let curr = u64 (clear_low_bits s.vaddr 12 + p * 4096) in
      let flags = if is_writable m.memory phdr then 7 else 5 in
      k.vmm_map_page curr phys_frame flags allocated >>= λ mapped. done (record {
        memory = fill_page elf_binary s curr (u64 (phys_frame + hhdm_offset)) m.memory;
        state = mapped;
      })

  unfoldable pub load_pages : ℕ → ℕ → ℕ → ℕ → Segment → Machine → Run Machine
  unfolding load_page
  load_pages zero p elf_binary phdr s m = done m
  load_pages (suc n) p elf_binary phdr s m =
      load_page elf_binary phdr s p m >>= load_pages n (p + 1) elf_binary phdr s

  -- (memsz + page_offset + 0xFFF) / 0x1000
  abbrev pub num_pages : Segment → ℕ
  num_pages s = u64 (u64 (s.memsz + low_bits s.vaddr 12) + 4095) / 4096

  -- The loop on the program headers, of which `phdr` is the next.
  unfoldable pub load_segments : ℕ → ℕ → ℕ → Machine → Run Machine
  unfolding load_pages read_segment
  load_segments zero elf_binary phdr m = done m
  load_segments (suc n) elf_binary phdr m =
      let s = read_segment m.memory phdr in
      let loaded = load_pages (num_pages s) 0 elf_binary phdr s m in
      (if p_type m.memory phdr == pt_load then loaded else done m)
      >>= load_segments n elf_binary (phdr + phdr_size)

  -- `uint64_t elf_load(void *elf_binary, uint64_t user_pml4)`
  unfoldable pub elf_load : ℕ → Machine → Run (ℕ × Machine)
  unfolding load_segments
  elf_load elf_binary m =
      let w = m.memory in
      let phdr = elf_binary + e_phoff w elf_binary in
      if not (e_ident w elf_binary 0 == 0x7F)
        || not (e_ident w elf_binary 1 == 69)
        || not (e_ident w elf_binary 2 == 76)
        || not (e_ident w elf_binary 3 == 70)
      then done (0, m)
      else (if not (e_machine w elf_binary == 62) || not (e_type w elf_binary == 2)
          then done (0, m)
          else (load_segments (e_phnum w elf_binary) elf_binary phdr m >>= λ r.
              done (e_entry r.memory elf_binary, r)))
