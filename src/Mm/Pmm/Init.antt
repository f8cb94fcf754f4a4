-- ===== src/Mm/Pmm/Init.antt =====
-- `init_pmm`: the bitmap that it leaves, page by page.
use miyabi.Base.{
  ℕ, zero, suc, ◌+◌, ◌-◌, ◌*◌, ◌/◌, ◌%◌, ◌^◌, ◌≤◌, ◌<◌, ◌≡◌, inl, inr, refl, arith, Bool, true,
  false, not, ◌&&◌, ◌||◌, Option, none, some, List, [], ◌∷◌, ◌==◌, ltb, leb, lt→ltb, holds_below,
  holds_below_sound, bit_and, Option-cases, u64,
}
use miyabi.Mm.Pmm.{
  Bitmap, Pmm, Boot, init_state, count_pages, count_bytes, count_bitmap_pages, MemmapEntry,
  MemmapType, bitmap_set, bitmap_clear, bitmap_test, region, is_usable, is_reclaimable, choose_base,
  fill, clear_from, clear_region, free_regions, set_pages, init_bitmap, init_with, init_pmm,
}
use miyabi.Mm.Pmm.Offered.{covers, offered, SomeAvailable, offered_iff}
use miyabi.Mm.Pmm.Alloc.{IsValid}
use miyabi.Mm.Pmm.Bitmap.{IsBytes, bitmap_set-IsBytes, bitmap_clear-IsBytes, test-set, test-clear}

-- A region is made of whole pages.
abbrev pub IsAligned : Option (ℕ × ℕ) → Type 0
IsAligned none = Unit
IsAligned (some (start, end)) =
    (start < end) × (end < 2 ^ 64) × (start % 4096 ≡ 0) × (end % 4096 ≡ 0)

region-IsAligned :
    (b : Boot) (wanted : MemmapType → Bool) (e : MemmapEntry) → IsAligned (region b wanted e)
unfolding region
region-IsAligned b wanted e = ground arith

-- A pass that clears the pages of `c` and leaves the others.
record Clears (c : ℕ → Bool) (old new : Bitmap) : Type 0 where
  bytes : IsBytes new
  pages : (q : ℕ) → bitmap_test new q ≡ (not (c q) && bitmap_test old q)

clear_from-Clears :
    (n addr end : ℕ) (old : Bitmap)
    → IsBytes old
    → addr % 4096 ≡ 0
    → addr + n * 4096 ≡ end
    → end < 2 ^ 64
    → Clears (covers (some (addr, end))) old (clear_from n addr end old)
unfolding clear_from
clear_from-Clears zero addr end old h al e lt = record { bytes = h; pages = λ q. ground arith }
clear_from-Clears (suc n) addr end old h al e lt =
    let rest =
      clear_from-Clears n (addr + 4096) end (bitmap_clear old (addr / 4096))
        (bitmap_clear-IsBytes h (addr / 4096)) (omega arith) (omega arith) lt in
    let next : u64 (addr + 4096) ≡ addr + 4096 = omega arith in
    rw (lt→ltb addr end (omega arith), next)
      (record {
        bytes = rest.bytes;
        pages = λ q. ground (arith, rest.pages q, test-clear h (addr / 4096) q);
      })

clear_region-Clears :
    (r : Option (ℕ × ℕ)) (old : Bitmap)
    → IsAligned r
    → IsBytes old
    → Clears (covers r) old (clear_region r old)
unfolding clear_region
clear_region-Clears none old al h = record { bytes = h; pages = λ q. refl }
clear_region-Clears (some (start, end)) old al h =
    clear_from-Clears ((end - start) / 4096) start end old h al.2 (omega arith) al.1

free_regions-Clears :
    (b : Boot) (wanted : MemmapType → Bool) (es : List MemmapEntry) (old : Bitmap)
    → IsBytes old
    → Clears (offered b wanted es) old (free_regions b wanted es old)
unfolding free_regions
free_regions-Clears b wanted [] old h = record { bytes = h; pages = λ q. refl }
free_regions-Clears b wanted (e ∷ es) old h =
    let one = clear_region-Clears (region b wanted e) old (region-IsAligned b wanted e) h in
    let rest = free_regions-Clears b wanted es (clear_region (region b wanted e) old) one.bytes in
    record { bytes = rest.bytes; pages = λ q. ground (arith, rest.pages q, one.pages q) }

-- A pass that sets some pages and leaves the others.
record Sets (c : ℕ → Bool) (old new : Bitmap) : Type 0 where
  bytes : IsBytes new
  pages : (q : ℕ) → bitmap_test new q ≡ (c q || bitmap_test old q)

set_pages-Sets :
    (n first : ℕ) (old : Bitmap)
    → IsBytes old
    → Sets (λ q. leb first q && ltb q (first + n)) old (set_pages n first old)
unfolding set_pages
set_pages-Sets zero first old h = record { bytes = h; pages = λ q. ground arith }
set_pages-Sets (suc n) first old h =
    let rest = set_pages-Sets n (first + 1) (bitmap_set old first) (bitmap_set-IsBytes h first) in
    record { bytes = rest.bytes; pages = λ q. ground (arith, rest.pages q, test-set h first q) }

fill_byte : (n : ℕ) (old : Bitmap) (i : ℕ) → i < n → fill n old i ≡ 0xFF
unfolding fill
fill_byte zero old i lt = absurd (omega arith)
fill_byte (suc n) old i lt = ground (arith, fill_byte n old i)

fill-IsBytes : (n : ℕ) (old : Bitmap) → IsBytes old → IsBytes (fill n old)
unfolding fill
fill-IsBytes zero old h = h
fill-IsBytes (suc n) old h = record { byte = λ i. ground (arith, (fill-IsBytes n old h).byte i) }

-- A full byte marks its eight pages.
full_byte : holds_below 8 (λ k. not (bit_and 0xFF (2 ^ k) == 0)) ≡ true
unfolding holds_below
full_byte = refl

test-fill : (n : ℕ) (old : Bitmap) (q : ℕ) → q / 8 < n → bitmap_test (fill n old) q ≡ true
unfolding bitmap_test
test-fill n old q lt =
    rw (fill_byte n old (q / 8) lt) (holds_below_sound 8 _ (q % 8) full_byte (omega arith))

-- Whatever is offered as usable is offered as reclaimable.
region-reclaimable :
    (b : Boot) (e : MemmapEntry) (page : ℕ)
    → covers (region b is_usable e) page ≡ true
    → covers (region b is_reclaimable e) page ≡ true
unfolding region is_usable is_reclaimable
region-reclaimable b e page h = ground arith

offered-reclaimable :
    (b : Boot) (es : List MemmapEntry) (page : ℕ)
    → offered b is_usable es page ≡ true
    → offered b is_reclaimable es page ≡ true
offered-reclaimable b [] page h = h
offered-reclaimable b (e ∷ es) page h =
    ground (arith, region-reclaimable b e page, offered-reclaimable b es page)

module _ (b : Boot) (es : List MemmapEntry) (bytes pages phys : ℕ) (raw : Bitmap)
    (h : IsBytes raw) where
  filled_Clears :
      Clears
        (offered b is_usable es)
        (fill bytes raw)
        (free_regions b is_usable es (fill bytes raw))
  filled_Clears = free_regions-Clears b is_usable es (fill bytes raw) (fill-IsBytes bytes raw h)

  kept_Sets :
      Sets
        (λ q. leb (phys / 4096) q && ltb q (phys / 4096 + pages))
        (free_regions b is_usable es (fill bytes raw))
        (set_pages pages (phys / 4096) (free_regions b is_usable es (fill bytes raw)))
  kept_Sets = set_pages-Sets pages (phys / 4096) _ filled_Clears.bytes

  init_bitmap-Clears :
      Clears
        (offered b is_reclaimable es)
        (bitmap_set
          (set_pages pages (phys / 4096) (free_regions b is_usable es (fill bytes raw)))
          0)
        (init_bitmap b es bytes pages phys raw)
  unfolding init_bitmap
  init_bitmap-Clears =
      free_regions-Clears b is_reclaimable es _ (bitmap_set-IsBytes kept_Sets.bytes 0)

  test-init_bitmap :
      (q : ℕ)
      → q / 8 < bytes
      → bitmap_test (init_bitmap b es bytes pages phys raw) q ≡ not (offered b is_reclaimable es q)
  test-init_bitmap q lt = ground (
    arith,
    init_bitmap-Clears.pages q,
    test-set kept_Sets.bytes 0 q,
    kept_Sets.pages q,
    filled_Clears.pages q,
    test-fill bytes raw q lt,
    offered-reclaimable b es q,
  )

choose_base-aligned :
    (b : Boot) (bytes : ℕ) (es : List MemmapEntry) (phys : ℕ)
    → choose_base b bytes es ≡ some phys
    → phys % 4096 ≡ 0
unfolding choose_base
choose_base-aligned b bytes [] phys e = cc
choose_base-aligned b bytes (x ∷ es) phys e =
    ground (arith, region-IsAligned b is_usable x, choose_base-aligned b bytes es phys)

choose_base-offered :
    (b : Boot) (bytes : ℕ) (es : List MemmapEntry) (phys q : ℕ)
    → choose_base b bytes es ≡ some phys
    → phys ≤ q * 4096
    → q * 4096 < phys + bytes
    → offered b is_usable es q ≡ true
unfolding choose_base
choose_base-offered b bytes [] phys q e lo hi = cc
choose_base-offered b bytes (x ∷ es) phys q e lo hi =
    ground (arith, choose_base-offered b bytes es phys q)

-- What a completed `init_pmm` has established.
record Started (b : Boot) (es : List MemmapEntry) (s : Pmm) : Type 0 where
  raw : Bitmap
  raw_bytes : IsBytes raw
  chosen : choose_base b (s.bitmap_pages * 4096) es ≡ some s.bitmap_phys
  bitmap : s.bitmap ≡ init_bitmap b es s.bitmap_bytes s.bitmap_pages s.bitmap_phys raw
  bytes : s.bitmap_bytes ≡ u64 (s.page_count + 7) / 8
  count : s.page_count ≤ 2 ^ 52

init_state-Started :
    (b : Boot) (es : List MemmapEntry) (hhdm phys : ℕ)
    → IsBytes b.ram
    → choose_base b (count_bitmap_pages es * 4096) es ≡ some phys
    → Started b es (init_state b es hhdm phys)
unfolding init_state
init_state-Started b es hhdm phys ram e = record {
  raw = λ i. b.ram (u64 (phys + hhdm + i));
  raw_bytes = record { byte = λ i. ram.byte (u64 (phys + hhdm + i)) };
  chosen = e;
  bitmap = refl;
  bytes = unfold count_bytes in refl;
  count = unfold count_pages in omega arith;
}

init_with-Started :
    (b : Boot) (es : List MemmapEntry) (hhdm : ℕ) (s : Pmm)
    → IsBytes b.ram
    → init_with b es hhdm ≡ some s
    → Started b es s
unfolding init_with
init_with-Started b es hhdm s ram up =
    elim (Option-cases (choose_base b (count_bitmap_pages es * 4096) es)) [
      | inl e ↦ cc e
      | inr (phys, e) ↦
          let same : init_state b es hhdm phys ≡ s = ground arith in
          rw (← same) (init_state-Started b es hhdm phys ram e)
    ]

module _ (b : Boot) (es : List MemmapEntry) (ram : IsBytes b.ram) (given : b.memmap ≡ some es)
    {s : Pmm} (up : init_pmm b ≡ some s) where
  started : Started b es s
  unfolding init_pmm
  started = elim (Option-cases b.hhdm) [
    | inl e ↦ ground arith
    | inr (hhdm, e) ↦ init_with-Started b es hhdm s ram (ground arith)
  ]

  test-offered :
      (page : ℕ)
      → page < s.page_count
      → bitmap_test s.bitmap page ≡ not (offered b is_reclaimable es page)
  test-offered page lt = rw started.bitmap (
      test-init_bitmap b es s.bitmap_bytes s.bitmap_pages s.bitmap_phys started.raw
        started.raw_bytes page (omega (arith, started.bytes, started.count)))

  -- After `init_pmm` a page below `page_count` is free exactly when some entry of the memory map is
  -- usable, or reclaimable from ACPI or from the boot loader, has the page among its whole pages, and
  -- has all of these below the start of the kernel's range or from its end on; sums of addresses are
  -- of 64 bits.
  pub init_pmm-offered :
      (page : ℕ)
      → page < s.page_count
      → (bitmap_test s.bitmap page ≡ false → SomeAvailable b page es)
        × (SomeAvailable b page es → bitmap_test s.bitmap page ≡ false)
  init_pmm-offered page lt = (
    (λ h. (offered_iff b page es).0 (ground (arith, test-offered page lt))),
    λ h. ground (arith, test-offered page lt, (offered_iff b page es).1 h),
  )

  -- After `init_pmm` every page that holds the bitmap itself is free.
  pub init_pmm-bitmap_free :
      (i : ℕ) → i < s.bitmap_pages → bitmap_test s.bitmap (s.bitmap_phys / 4096 + i) ≡ false
  init_pmm-bitmap_free i lt =
      let page : ℕ = s.bitmap_phys / 4096 + i in
      let al = choose_base-aligned b (s.bitmap_pages * 4096) es s.bitmap_phys started.chosen in
      let c =
        init_bitmap-Clears b es s.bitmap_bytes s.bitmap_pages s.bitmap_phys started.raw
          started.raw_bytes in
      rw started.bitmap (
        ground (
          arith,
          c.pages page,
          offered-reclaimable b es page,
          choose_base-offered b (s.bitmap_pages * 4096) es s.bitmap_phys page started.chosen,
        ))

  pub init_pmm-IsValid : IsValid s
  init_pmm-IsValid = record {
    bytes =
        rw started.bitmap
          (init_bitmap-Clears b es s.bitmap_bytes s.bitmap_pages s.bitmap_phys started.raw
            started.raw_bytes).bytes;
    count = started.count;
  }
