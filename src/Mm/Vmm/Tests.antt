-- ===== src/Mm/Vmm/Tests.antt =====
-- Runs of the page tables at small inputs, and their theorems at them.
use miyabi.Base.{
  ℕ, zero, suc, ◌+◌, ◌*◌, ◌/◌, ◌%◌, ◌^◌, ◌≤◌, ◌<◌, ◌≡◌, ◌⊎◌, refl, arith, Option, none, some, List,
  [], ◌∷◌, ◌==◌, if◌then◌else◌, u64,
}
use miyabi.Mm.Pmm.{Pmm, bitmap_test}
use miyabi.Mm.Pmm.Alloc.{IsValid}
use miyabi.Mm.Vmm.{
  PageSource, Vmm, page_total, vmm_map_page, vmm_unmap_page, vmm_virt_to_phys, vmm_create_user_pml4,
  vmm_map_range,
}
use miyabi.Mm.Vmm.Walk.{absent, page, walk, indices, NotLarge}
use miyabi.Mm.Vmm.Tree.{PageLaws, IsTree, IsMapped}
use miyabi.Mm.Vmm.Ensure.Table.{Returns}
use miyabi.Mm.Vmm.Map.Page.{Mapped, page_entry, vmm_map_page-Mapped}
use miyabi.Mm.Vmm.Range.{MappedRange, vmm_map_range-MappedRange}
use miyabi.Mm.Vmm.Unmap.{vmm_unmap_page-Mapped, vmm_virt_to_phys-vmm_map_page}
use miyabi.Mm.Vmm.User.{NewSpace, vmm_create_user_pml4-NewSpace}
use miyabi.Mm.Vmm.Frames.{pmm_source, pmm_source-laws, free_page}

-- Thirty-two pages, of which the first five are in use.
abbrev pages : Pmm
pages = record {
  hhdm_offset = 2 ^ 47;
  bitmap = λ i. if i == 0 then 31 else 0;
  bitmap_phys = 0;
  page_count = 32;
  bitmap_bytes = 4;
  bitmap_pages = 1;
  kernel_start = 0;
  kernel_end = 0;
}

pages-IsValid : IsValid pages
pages-IsValid = record { bytes = record { byte = λ i. ground arith }; count = omega arith }

abbrev offset : ℕ
offset = 2 ^ 47

abbrev source : PageSource
source = pmm_source offset

abbrev laws : PageLaws source offset
laws = pmm_source-laws offset

abbrev root : ℕ
root = 4096

-- Address 0 has a page, at 2 ^ 20, by the tables in the pages 1 to 4.
abbrev tables : ℕ → ℕ
tables a =
    if a == 2 ^ 47 + 4096
    then 8199
    else (if a == 2 ^ 47 + 8192
        then 12295
        else (if a == 2 ^ 47 + 12288 then 16391 else (if a == 2 ^ 47 + 16384 then 1048579 else 0)))

abbrev place : ℕ → Option (List ℕ)
place t =
    if t == 4096
    then some []
    else (if t == 8192
        then some (0 ∷ [])
        else (if t == 12288
            then some (0 ∷ 0 ∷ [])
            else (if t == 16384 then some (0 ∷ 0 ∷ 0 ∷ []) else none)))

abbrev state : Vmm source offset
state = record {
  pml4 = 2 ^ 47 + 4096;
  cr3 = 4096;
  memory = tables;
  frames = record { pmm = pages; valid = pages-IsValid; fits = omega arith };
}

place_page : (t : ℕ) (p : List ℕ) → place t ≡ some p → (t % 4096 ≡ 0) × (4096 ≤ t) × (t ≤ 16384)
place_page t p e = ground arith

state-IsTree : IsTree offset tables root place
state-IsTree = record {
  at_root = refl;
  table = λ t p e.
      let h = place_page t p e in
      record {
        aligned = h.0;
        reached = omega (arith, h.1, h.2);
        some_address = omega (arith, h.1);
      };
  child = λ t p i e len lt a b. ground arith;
}

state-IsMapped : IsMapped source offset laws root place state
unfolding bitmap_test
state-IsMapped = record {
  tree = state-IsTree;
  pml4 = refl;
  apart = λ t p e fr.
      let (q, free) = free_page offset state.frames t fr in
      let h = place_page t p e in
      let a = free.address in
      let b = free.free in
      let s : (if q / 8 == 0 then 31 else 0) / 2 ^ (q % 8) % 2 ≡ 1 = used q (omega (arith, a, h)) in
      ground arith;
}
  where
    used : (q : ℕ) → q ≤ 4 → (if q / 8 == 0 then 31 else 0) / 2 ^ (q % 8) % 2 ≡ 1
    used zero le = refl
    used (suc zero) le = refl
    used (suc (suc zero)) le = refl
    used (suc (suc (suc zero))) le = refl
    used (suc (suc (suc (suc zero)))) le = refl
    used (suc (suc (suc (suc (suc q))))) le = absurd (omega arith)

zero_page : walk offset tables root (indices 0) ≡ page 1048579
unfolding walk
zero_page = refl

-- Address 2 ^ 39 has no table below the first.
high_absent : walk offset tables root (indices (2 ^ 39)) ≡ absent
unfolding walk
high_absent = refl

high_NotLarge : NotLarge (walk offset tables root (indices (2 ^ 39)))
unfolding walk
high_NotLarge = tt

vmm_map_page-Mapped_example :
    Returns source state.frames 3
      (Mapped source offset laws root state (indices (2 ^ 39)) (page (page_entry 1052672 6)))
      (vmm_map_page source offset (2 ^ 39) 1052672 6 state)
vmm_map_page-Mapped_example =
    vmm_map_page-Mapped source offset laws root place state state-IsMapped (2 ^ 39) 1052672 6
      high_NotLarge

vmm_virt_to_phys-vmm_map_page_example :
    Returns source state.frames 3
      (λ v'. vmm_virt_to_phys source offset (2 ^ 39) v' ≡ 1052672)
      (vmm_map_page source offset (2 ^ 39) 1052672 6 state)
vmm_virt_to_phys-vmm_map_page_example =
    vmm_virt_to_phys-vmm_map_page source offset laws root place state state-IsMapped (2 ^ 39)
      1052672 6 high_NotLarge refl (omega arith)

vmm_unmap_page-Mapped_example :
    Mapped source offset laws root state (indices 0) absent (vmm_unmap_page source offset 0 state)
vmm_unmap_page-Mapped_example =
    vmm_unmap_page-Mapped source offset laws root place state state-IsMapped 0 1048579 zero_page

range_NotLarge :
    (k : ℕ)
    → k < page_total 8000
    → NotLarge (walk offset tables root (indices (u64 (2 ^ 39 + k * 4096))))
unfolding walk
range_NotLarge zero lt = tt
range_NotLarge (suc zero) lt = tt
range_NotLarge (suc (suc k)) lt = absurd (omega arith)

vmm_map_range-MappedRange_example :
    Returns source state.frames 6
      (MappedRange source offset laws root (2 ^ 39) 1052672 6 0 2 state)
      (vmm_map_range source offset (2 ^ 39) 1052672 8000 6 state)
vmm_map_range-MappedRange_example =
    vmm_map_range-MappedRange source offset laws root (2 ^ 39) 1052672 6 8000 place state
      state-IsMapped (omega arith) range_NotLarge

vmm_create_user_pml4-NewSpace_example :
    let r = vmm_create_user_pml4 source offset state in
    (((source.alloc state.frames).0 ≡ 0) × (r.0 ≡ 0) × (r.1.memory ≡ tables))
    ⊎ NewSpace source offset laws root place state state-IsMapped r.0 r.1
vmm_create_user_pml4-NewSpace_example =
    vmm_create_user_pml4-NewSpace source offset laws root place state state-IsMapped
