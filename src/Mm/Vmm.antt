-- ===== src/Mm/Vmm.antt =====
-- src/mm/vmm.c and include/mm/vmm.h, the four levels of page tables. `memory` is the 64-bit word at a
-- virtual address; `PageSource` is what the file sees of `pmm_alloc`, and `hhdm_offset` an argument.
pub mod Walk
pub mod Tree
pub mod Ensure
pub mod Map
pub mod Range
pub mod Unmap
pub mod Copied
pub mod User
pub mod Frames
mod Tests
use miyabi.Base.{
  ℕ, zero, suc, ◌+◌, ◌-◌, ◌*◌, ◌/◌, ◌^◌, bit_or, Bool, true, false, ◌==◌, if◌then◌else◌, update,
  u64, shr, low_bits, clear_low_bits,
}
use miyabi.Base.Run.{Run, done, halted, stuck, ◌>>=◌}

-- `pmm_alloc`, over the state that it changes.
pub record PageSource : Type 1 where
  pub State : Type 0
  pub alloc : State → ℕ × State

-- PTE_PRESENT | PTE_WRITE | PTE_USER, and PTE_USER | PTE_WRITE
abbrev pub pte_table : ℕ
pte_table = 7

abbrev pub pte_user_write : ℕ
pte_user_write = 6

-- `entry & PTE_PRESENT`
abbrev pub is_present : ℕ → Bool
is_present entry = low_bits entry 1 == 1

-- `entry & ~0xFFF`
abbrev pub frame_of : ℕ → ℕ
frame_of entry = clear_low_bits entry 12

-- The address of `table[index]`.
abbrev pub cell : ℕ → ℕ → ℕ
cell table index = table + 8 * index

-- (virt >> k) & 0x1FF
abbrev pub table_index : ℕ → ℕ → ℕ
table_index virt k = low_bits (shr virt k) 9

-- for (i = from; i < from + n; i++) table[i] = 0;
unfoldable pub clear_entries : ℕ → ℕ → ℕ → (ℕ → ℕ) → ℕ → ℕ
clear_entries zero from table memory = memory
clear_entries (suc n) from table memory =
    clear_entries n (from + 1) table (update memory (cell table from) 0)

-- for (i = from; i < from + n; i++) to[i] = source[i];
unfoldable pub copy_entries : ℕ → ℕ → ℕ → ℕ → (ℕ → ℕ) → ℕ → ℕ
copy_entries zero from to source memory = memory
copy_entries (suc n) from to source memory =
    copy_entries n (from + 1) to source (update memory (cell to from) (memory (cell source from)))

-- (size + PAGE_SIZE - 1) / PAGE_SIZE
abbrev pub page_total : ℕ → ℕ
page_total size = u64 (size + 4095) / 4096

module _ (f : PageSource) (hhdm_offset : ℕ) where
  -- The static variable of the file, the register cr3, the memory, and the page allocator.
  pub record Vmm : Type 0 where
    pub pml4 : ℕ
    pub cr3 : ℕ
    pub memory : ℕ → ℕ
    pub frames : f.State

  -- `static inline uint64_t *phys_to_virt(uint64_t phys)`
  abbrev pub phys_to_virt : ℕ → ℕ
  phys_to_virt phys = u64 (phys + hhdm_offset)

  -- `static inline uint64_t alloc_page_table(void)`
  unfoldable pub alloc_page_table : Vmm → Run (ℕ × Vmm)
  alloc_page_table v =
      let (page, s) = f.alloc v.frames in
      if page == 0
      then halted
      else done
          (page, record v { memory = clear_entries 512 0 (phys_to_virt page) v.memory; frames = s })

  -- `static uint64_t *ensure_table(uint64_t *table, int index)`
  unfoldable pub ensure_table : ℕ → ℕ → Vmm → Run (ℕ × Vmm)
  unfolding alloc_page_table
  ensure_table table index v =
      let entry = v.memory (cell table index) in
      let marked = bit_or entry pte_user_write in
      if is_present entry
      then done (
        phys_to_virt (frame_of marked),
        record v { memory = update v.memory (cell table index) marked },
      )
      else (alloc_page_table v >>= λ r.
          let linked = bit_or r.0 pte_table in
          done (
            phys_to_virt (frame_of linked),
            record r.1 { memory = update r.1.memory (cell table index) linked },
          ))

  -- `pt[pti] = (phys & ~0xFFF) | flags | PTE_PRESENT;`
  unfoldable pub write_entry : ℕ → ℕ → ℕ → ℕ → Vmm → Vmm
  write_entry pt index phys flags v = record v {
    memory = update v.memory (cell pt index) (bit_or (bit_or (frame_of phys) flags) 1);
  }

  -- `void vmm_map_page(uint64_t virt, uint64_t phys, uint64_t flags)`
  unfoldable pub vmm_map_page : ℕ → ℕ → ℕ → Vmm → Run Vmm
  vmm_map_page virt phys flags v = ensure_table v.pml4 (table_index virt 39) v >>= λ pdpt.
      (ensure_table pdpt.0 (table_index virt 30) pdpt.1 >>= λ pd.
      (ensure_table pd.0 (table_index virt 21) pd.1 >>= λ pt.
      done (write_entry pt.0 (table_index virt 12) phys flags pt.1)))

  -- The table that an entry leads to, as `vmm_unmap_page` and `vmm_virt_to_phys` take it.
  unfoldable pub next_table : ℕ → ℕ → Vmm → ℕ
  next_table table index v = phys_to_virt (frame_of (v.memory (cell table index)))

  -- `void vmm_unmap_page(uint64_t virt)`
  unfoldable pub vmm_unmap_page : ℕ → Vmm → Vmm
  unfolding next_table
  vmm_unmap_page virt v =
      let pdpt = next_table v.pml4 (table_index virt 39) v in
      let pd = next_table pdpt (table_index virt 30) v in
      let pt = next_table pd (table_index virt 21) v in
      if pdpt == 0
      then v
      else (if pd == 0
          then v
          else (if pt == 0
              then v
              else record v { memory = update v.memory (cell pt (table_index virt 12)) 0 }))

  -- `uint64_t vmm_virt_to_phys(uint64_t virt)`
  unfoldable pub vmm_virt_to_phys : ℕ → Vmm → ℕ
  unfolding next_table
  vmm_virt_to_phys virt v =
      let pdpt = next_table v.pml4 (table_index virt 39) v in
      let pd = next_table pdpt (table_index virt 30) v in
      let pt = next_table pd (table_index virt 21) v in
      if pdpt == 0
      then 0
      else (if pd == 0
          then 0
          else (if pt == 0 then 0 else frame_of (v.memory (cell pt (table_index virt 12)))))

  -- `uint64_t vmm_create_user_pml4(void)`
  unfoldable pub vmm_create_user_pml4 : Vmm → ℕ × Vmm
  vmm_create_user_pml4 v =
      let (pml4_phys, s) = f.alloc v.frames in
      let new_pml4 = phys_to_virt pml4_phys in
      if pml4_phys == 0 then (0, record v { frames = s }) else (
        pml4_phys,
        record v {
          memory = copy_entries 256 256 new_pml4 v.pml4 (clear_entries 256 0 new_pml4 v.memory);
          frames = s;
        },
      )

  -- `void vmm_switch_pml4(uint64_t pml4_phys)`
  unfoldable pub vmm_switch_pml4 : ℕ → Vmm → Vmm
  vmm_switch_pml4 pml4_phys v = record v {
    pml4 = phys_to_virt (frame_of pml4_phys);
    cr3 = pml4_phys;
  }

  -- The loop of `vmm_map_range` from page `i` on, `n` pages before its end.
  unfoldable pub map_pages : ℕ → ℕ → ℕ → ℕ → ℕ → Vmm → Run Vmm
  map_pages zero i virt phys flags v = done v
  map_pages (suc n) i virt phys flags v =
      vmm_map_page (u64 (virt + i * 4096)) (u64 (phys + i * 4096)) flags v
      >>= map_pages n (i + 1) virt phys flags

  -- `void vmm_map_range(uint64_t virt, uint64_t phys, size_t size, uint64_t flags)`
  unfoldable pub vmm_map_range : ℕ → ℕ → ℕ → ℕ → Vmm → Run Vmm
  unfolding map_pages
  vmm_map_range virt phys size flags v = map_pages (page_total size) 0 virt phys flags v

  -- The loop of `vmm_unmap_range`.
  unfoldable pub unmap_pages : ℕ → ℕ → ℕ → Vmm → Vmm
  unmap_pages zero i virt v = v
  unmap_pages (suc n) i virt v =
      unmap_pages n (i + 1) virt (vmm_unmap_page (u64 (virt + i * 4096)) v)

  -- `void vmm_unmap_range(uint64_t virt, size_t size)`
  unfoldable pub vmm_unmap_range : ℕ → ℕ → Vmm → Vmm
  unfolding unmap_pages
  vmm_unmap_range virt size v = unmap_pages (page_total size) 0 virt v

  -- `void init_vmm(void)`
  unfoldable pub init_vmm : Vmm → Run Vmm
  init_vmm v =
      let pml4 = phys_to_virt (frame_of v.cr3) in
      if pml4 == 0 then halted else done (record v { pml4 = pml4 })
