-- ===== src/Mm/Pmm.antt =====
-- src/mm/pmm.c, the bitmap of physical pages, and src/include/mm/pmm.h. The bitmap is the memory
-- behind the pointer `bitmap`, as a function of the index. A pointer result is an address, 0 is
-- NULL. The boot loader's answers are the record `Boot`; `none` is the halt of `init_pmm`.
pub mod Bitmap
pub mod Alloc
pub mod Offered
pub mod Init
use miyabi.Base.{
  ℕ, zero, suc, ◌+◌, ◌-◌, ◌*◌, ◌/◌, ◌^◌, bit_and, bit_or, Bool, true, false, not, ◌||◌, Option,
  none, some, List, [], ◌∷◌, ltb, leb, ◌==◌, if◌then◌else◌, update, u64, shr, low_bits,
  clear_low_bits,
}

abbrev pub Bitmap : Type 0
Bitmap = ℕ → ℕ

unfoldable pub align_down_4k : ℕ → ℕ
align_down_4k x = clear_low_bits x 12

unfoldable pub align_up_4k : ℕ → ℕ
align_up_4k x = clear_low_bits (u64 (x + 0xFFF)) 12

-- `1u << k` in a byte, and its complement.
unfoldable pub bitmap_set : Bitmap → ℕ → Bitmap
bitmap_set bitmap page =
    let i = shr page 3 in update bitmap i (bit_or (bitmap i) (2 ^ low_bits page 3))

unfoldable pub bitmap_clear : Bitmap → ℕ → Bitmap
bitmap_clear bitmap page =
    let i = shr page 3 in update bitmap i (bit_and (bitmap i) (255 - 2 ^ low_bits page 3))

unfoldable pub bitmap_test : Bitmap → ℕ → Bool
bitmap_test bitmap page = not (bit_and (bitmap (shr page 3)) (2 ^ low_bits page 3) == 0)

-- The file's static variables.
pub record Pmm : Type 0 where
  pub hhdm_offset : ℕ
  pub bitmap : Bitmap
  pub bitmap_phys : ℕ
  pub page_count : ℕ
  pub bitmap_bytes : ℕ
  pub bitmap_pages : ℕ
  pub kernel_start : ℕ
  pub kernel_end : ℕ

-- The scan of `pmm_alloc` from page `i` on, `n` pages before `page_count`.
unfoldable pub find_free : ℕ → ℕ → Bitmap → Option ℕ
find_free zero i bitmap = none
find_free (suc n) i bitmap =
    let rest = find_free n (i + 1) bitmap in if not (bitmap_test bitmap i) then some i else rest

-- `void *pmm_alloc(void)`
unfoldable pub pmm_alloc : Pmm → ℕ × Pmm
unfolding find_free
pmm_alloc s = elim (find_free (s.page_count - 1) 1 s.bitmap) [
  | none ↦ (0, s)
  | some i ↦ (u64 (i * 4096), record s { bitmap = bitmap_set s.bitmap i })
]

-- limine.h's types of memory that the code names, and all others.
pub data MemmapType : Type 0 where
  usable acpi_reclaimable bootloader_reclaimable other : MemmapType

pub record MemmapEntry : Type 0 where
  pub base : ℕ
  pub size : ℕ
  pub type : MemmapType

-- What the boot loader and the linker hand over: `ram` is the byte at a virtual address.
pub record Boot : Type 0 where
  pub memmap : Option (List MemmapEntry)
  pub hhdm : Option ℕ
  pub kernel_start : ℕ
  pub kernel_end : ℕ
  pub ram : ℕ → ℕ

unfoldable pub region_overlaps_kernel : Boot → ℕ → ℕ → Bool
region_overlaps_kernel b start end = not (leb end b.kernel_start || leb b.kernel_end start)

unfoldable pub is_usable : MemmapType → Bool
is_usable usable = true
is_usable _ = false

-- The types that the last loop frees.
unfoldable pub is_reclaimable : MemmapType → Bool
is_reclaimable usable = true
is_reclaimable acpi_reclaimable = true
is_reclaimable bootloader_reclaimable = true
is_reclaimable other = false

-- The page-aligned part of an entry, or `none` where the loops go on to the next entry.
unfoldable pub region : Boot → (MemmapType → Bool) → MemmapEntry → Option (ℕ × ℕ)
unfolding align_up_4k align_down_4k
region b wanted e =
    let start = align_up_4k e.base in
    let end = align_down_4k (u64 (e.base + e.size)) in
    if not (wanted e.type)
    then none
    else (if leb end start
        then none
        else (if region_overlaps_kernel b start end then none else some (start, end)))

-- The highest end of an entry.
unfoldable pub highest_end : ℕ → List MemmapEntry → ℕ
highest_end highest [] = highest
highest_end highest (e ∷ es) =
    let end = u64 (e.base + e.size) in highest_end (if ltb highest end then end else highest) es

-- The base of the first usable region with room for `bytes`.
unfoldable pub choose_base : Boot → ℕ → List MemmapEntry → Option ℕ
choose_base b bytes [] = none
choose_base b bytes (e ∷ es) =
    let rest = choose_base b bytes es in
    elim (region b is_usable e) [
      | none ↦ rest
      | some (start, end) ↦ if leb bytes (end - start) then some start else rest
    ]

-- for (i = 0; i < n; i++) bitmap[i] = 0xFF;
unfoldable pub fill : ℕ → Bitmap → Bitmap
fill zero bitmap = bitmap
fill (suc n) bitmap = update (fill n bitmap) n 0xFF

-- for (addr = start; addr < end; addr += 4096) bitmap_clear(addr / 4096); `start` and `end` are
-- page aligned, and `n` bounds the rounds.
unfoldable pub clear_from : ℕ → ℕ → ℕ → Bitmap → Bitmap
clear_from zero addr end bitmap = bitmap
clear_from (suc n) addr end bitmap =
    let rest = clear_from n (u64 (addr + 4096)) end (bitmap_clear bitmap (addr / 4096)) in
    if ltb addr end then rest else bitmap

unfoldable pub clear_region : Option (ℕ × ℕ) → Bitmap → Bitmap
clear_region none bitmap = bitmap
clear_region (some (start, end)) bitmap = clear_from ((end - start) / 4096) start end bitmap

-- A pass over the memory map that frees the regions of the types wanted.
unfoldable pub free_regions : Boot → (MemmapType → Bool) → List MemmapEntry → Bitmap → Bitmap
free_regions b wanted [] bitmap = bitmap
free_regions b wanted (e ∷ es) bitmap =
    free_regions b wanted es (clear_region (region b wanted e) bitmap)

-- for (i = 0; i < n; i++) bitmap_set(first + i);
unfoldable pub set_pages : ℕ → ℕ → Bitmap → Bitmap
set_pages zero first bitmap = bitmap
set_pages (suc n) first bitmap = set_pages n (first + 1) (bitmap_set bitmap first)

-- The bitmap that `init_pmm` leaves.
unfoldable pub init_bitmap : Boot → List MemmapEntry → ℕ → ℕ → ℕ → Bitmap → Bitmap
init_bitmap b es bytes pages phys raw =
    let filled = fill bytes raw in
    let freed = free_regions b is_usable es filled in
    let kept = bitmap_set (set_pages pages (phys / 4096) freed) 0 in
    free_regions b is_reclaimable es kept

-- The sizes that `init_pmm` computes from the memory map.
unfoldable pub count_pages : List MemmapEntry → ℕ
unfolding highest_end align_up_4k
count_pages es = align_up_4k (highest_end 0 es) / 4096

unfoldable pub count_bytes : List MemmapEntry → ℕ
unfolding count_pages
count_bytes es = u64 (count_pages es + 7) / 8

unfoldable pub count_bitmap_pages : List MemmapEntry → ℕ
unfolding count_bytes align_up_4k
count_bitmap_pages es = align_up_4k (count_bytes es) / 4096

-- The static variables after `init_pmm` has put the bitmap at `phys`.
unfoldable pub init_state : Boot → List MemmapEntry → ℕ → ℕ → Pmm
init_state b es hhdm phys = record {
  hhdm_offset = hhdm;
  bitmap =
      init_bitmap b es (count_bytes es) (count_bitmap_pages es) phys
        (λ i. b.ram (u64 (phys + hhdm + i)));
  bitmap_phys = phys;
  page_count = count_pages es;
  bitmap_bytes = count_bytes es;
  bitmap_pages = count_bitmap_pages es;
  kernel_start = b.kernel_start;
  kernel_end = b.kernel_end;
}

-- `init_pmm` once both answers are there.
unfoldable pub init_with : Boot → List MemmapEntry → ℕ → Option Pmm
init_with b es hhdm = elim (choose_base b (count_bitmap_pages es * 4096) es) [
  | none ↦ none
  | some phys ↦ some (init_state b es hhdm phys)
]

-- `void init_pmm(void)`
unfoldable pub init_pmm : Boot → Option Pmm
init_pmm b = elim b.memmap [
  | none ↦ none
  | some es ↦ elim b.hhdm [ none ↦ none | some hhdm ↦ init_with b es hhdm ]
]
