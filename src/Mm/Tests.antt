-- ===== src/Mm/Tests.antt =====
-- Runs of the memory management at small inputs, and its theorems at them.
use miyabi.Base.{
  ℕ, ◌+◌, ◌*◌, ◌/◌, ◌^◌, ◌≡◌, inl, refl, arith, true, false, some, List, [], ◌∷◌, if◌then◌else◌,
  ◌==◌,
}
use miyabi.Base.Run.{◌>>=◌, Ends}
use miyabi.Mm.Pmm.{
  Pmm, Boot, MemmapEntry, usable, other, bitmap_test, pmm_alloc, bitmap_set, is_usable, region,
  region_overlaps_kernel, choose_base, count_pages, count_bitmap_pages, init_state, init_with,
  init_pmm,
}
use miyabi.Mm.Pmm.Alloc.{IsValid, Outcome, pmm_alloc_lem, alloc_run, Distinct, alloc_run-Distinct}
use miyabi.Mm.Pmm.Offered.{SomeAvailable}
use miyabi.Mm.Pmm.Init.{init_pmm-offered, init_pmm-bitmap_free}
use miyabi.Mm.Heap.{
  Frames, Heap, heap_start, align_up, walk, carve, after_walk, kmalloc_aligned, kmalloc, kfree,
}
use miyabi.Mm.Heap.Blocks.{Block, FirstFit, rounded}
use miyabi.Mm.Heap.Malloc.{IsHeap}
use miyabi.Mm.Heap.Free.{Freed, kfree-Freed}
use miyabi.Mm.Heap.RoundTrip.{kfree-kmalloc}
use miyabi.Mm.Heap.Safety.{Spared, kmalloc-Spared}

-- Sixteen pages, of which 0, 1 and 3 are in use.
abbrev pages : Pmm
pages = record {
  hhdm_offset = 0;
  bitmap = λ i. if i == 0 then 11 else 0;
  bitmap_phys = 0;
  page_count = 16;
  bitmap_bytes = 2;
  bitmap_pages = 1;
  kernel_start = 0;
  kernel_end = 0;
}

pages-IsValid : IsValid pages
pages-IsValid = record { bytes = record { byte = λ i. ground arith }; count = omega arith }

alloc_two : alloc_run 2 pages ≡ 8192 ∷ 16384 ∷ []
unfolding alloc_run pmm_alloc bitmap_test bitmap_set
alloc_two = refl

pmm_alloc_lem_example : Outcome pages (pmm_alloc pages)
pmm_alloc_lem_example = pmm_alloc_lem pages pages-IsValid

alloc_run-Distinct_example : Distinct (alloc_run 20 pages)
alloc_run-Distinct_example = alloc_run-Distinct 20 pages pages-IsValid

-- Eight pages of usable memory behind a page of other memory.
abbrev entries : List MemmapEntry
entries =
    record { base = 0; size = 4096; type = other }
    ∷ record { base = 4096; size = 32768; type = usable }
    ∷ []

abbrev boot : Boot
boot = record {
  memmap = some entries;
  hhdm = some 0;
  kernel_start = 2 ^ 63;
  kernel_end = 2 ^ 63 + 4096;
  ram = λ _. 0;
}

abbrev booted : Pmm
booted = init_state boot entries 0 4096

booted_lem : init_pmm boot ≡ some booted
unfolding init_pmm init_with choose_base region region_overlaps_kernel is_usable count_bitmap_pages
booted_lem = refl

booted_pages : (booted.page_count ≡ 9) × (booted.bitmap_pages ≡ 1)
unfolding init_state count_pages count_bitmap_pages
booted_pages = (refl, refl)

init_pmm-offered_example :
    (bitmap_test booted.bitmap 5 ≡ false → SomeAvailable boot 5 entries)
    × (SomeAvailable boot 5 entries → bitmap_test booted.bitmap 5 ≡ false)
init_pmm-offered_example =
    init_pmm-offered boot entries (record { byte = λ i. omega arith }) refl booted_lem 5
      (omega (arith, booted_pages))

init_pmm-bitmap_free_example : bitmap_test booted.bitmap (booted.bitmap_phys / 4096 + 0) ≡ false
init_pmm-bitmap_free_example =
    init_pmm-bitmap_free boot entries (record { byte = λ i. omega arith }) refl booted_lem 0
      (omega (arith, booted_pages))

-- Frames from a counter, and a map that is not looked at.
abbrev counter : Frames
counter = record { State = ℕ; alloc = λ n. (n * 4096, n + 1); map_page = λ virt phys flags n. n }

-- 4096 bytes: a block in use, a free one, a block in use.
abbrev blocks : List Block
blocks =
    record { size = 64; is_free = false }
    ∷ record { size = 1024; is_free = true }
    ∷ record { size = 2936; is_free = false }
    ∷ []

abbrev heap : Heap counter
heap = record {
  head = heap_start;
  heap_end = heap_start + 4096;
  cells = λ a.
      if a == heap_start
      then record { size = 64; is_free = false; next = heap_start + 88 }
      else (if a == heap_start + 88
          then record { size = 1024; is_free = true; next = heap_start + 1136 }
          else record { size = 2936; is_free = false; next = 0 });
  frames = 1;
}

heap-IsHeap : IsHeap counter heap blocks
heap-IsHeap = record {
  head = refl;
  some_block = omega arith;
  layout = (refl, (refl, (refl, refl)));
  room = omega arith;
}

first_fit : FirstFit (rounded 100) blocks
first_fit = record {
  pre = record { size = 64; is_free = false } ∷ [];
  block = record { size = 1024; is_free = true };
  post = record { size = 2936; is_free = false } ∷ [];
  split = refl;
  free = refl;
  enough = omega arith;
  none_before = (refl, tt);
}

kmalloc-Spared_example : Spared counter heap (rounded 100) heap_start 64 (kmalloc counter 100 heap)
kmalloc-Spared_example =
    kmalloc-Spared counter heap blocks 100 heap_start 64 heap-IsHeap (omega arith) (omega arith)
      (inl (refl, refl, refl))

kfree-Freed_example :
    Ends
      (Freed counter heap []
        (record { size = 64; is_free = false })
        (record { size = 1024; is_free = true } ∷ record { size = 2936; is_free = false } ∷ []))
      (kfree counter (heap_start + 0 + 24) heap)
kfree-Freed_example =
    kfree-Freed counter heap [] (record { size = 64; is_free = false })
      (record { size = 1024; is_free = true } ∷ record { size = 2936; is_free = false } ∷ [])
      heap-IsHeap

kfree-kmalloc_example :
    Ends (λ g. IsHeap counter g blocks) (kmalloc counter 100 heap >>= λ r. kfree counter r.0 r.1)
kfree-kmalloc_example =
    kfree-kmalloc counter heap blocks 100 heap-IsHeap (refl, (refl, tt)) (omega arith) (omega arith)
      first_fit

-- A request of 100 bytes gets 112, in the free block.
kmalloc_run :
    Ends
      (λ r. (r.0 ≡ heap_start + 112) × ((r.1.cells (heap_start + 88)).size ≡ 112))
      (kmalloc counter 100 heap)
unfolding kmalloc kmalloc_aligned walk after_walk carve align_up
kmalloc_run = (refl, refl)
