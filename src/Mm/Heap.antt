-- ===== src/Mm/Heap.antt =====
-- src/mm/heap.c, the kernel heap: a chain of block headers in virtual memory. A header is one cell
-- of the store `cells`, at the address of its block; a block's bytes follow its header. What the
-- heap calls of the page allocator and the page tables is the record `Frames`.
pub mod Blocks
pub mod Layout
pub mod Search
pub mod Extend
pub mod Malloc
pub mod Free
pub mod RoundTrip
pub mod Safety
use miyabi.Base.{
  ℕ, zero, suc, ◌+◌, ◌-◌, ◌*◌, ◌/◌, ◌^◌, Bool, true, false, not, ◌&&◌, Option, none, some, leb,
  ◌==◌, if◌then◌else◌, update, u64, sub64, clear_low_bits,
}
use miyabi.Base.Run.{Run, done, halted, stuck, ◌>>=◌}

-- `pmm_alloc` and `vmm_map_page`, over the state that they change.
pub record Frames : Type 1 where
  pub State : Type 0
  pub alloc : State → ℕ × State
  pub map_page : ℕ → ℕ → ℕ → State → State

-- `heap_block_t`; 0 is NULL.
pub record Header : Type 0 where
  pub size : ℕ
  pub is_free : Bool
  pub next : ℕ

abbrev pub Cells : Type 0
Cells = ℕ → Header

-- `sizeof(heap_block_t)`, HEAP_START, HEAP_INITIAL_SIZE and HEAP_PAGE_FLAGS.
abbrev pub header_size : ℕ
header_size = 24

abbrev pub heap_start : ℕ
heap_start = 0xFFFFFFFFC0000000

abbrev pub heap_initial_size : ℕ
heap_initial_size = 16 * 1024 * 1024

abbrev pub heap_page_flags : ℕ
heap_page_flags = 3

-- `align_up(x, 1 << k)`
unfoldable pub align_up : ℕ → ℕ → ℕ
align_up x k = clear_low_bits (u64 (x + (2 ^ k - 1))) k

-- What the walk of `kmalloc` ends with: a block that fits, or the last block.
pub data Walk : Type 0 where
  fit : ℕ → Walk
  full : ℕ → Walk

-- `while (current != NULL)` of `kmalloc`.
unfoldable pub walk : ℕ → Cells → ℕ → ℕ → ℕ → Run Walk
walk zero cells size last current = stuck
walk (suc n) cells size last current =
    let rest = walk n cells size current (cells current).next in
    if current == 0
    then done (full last)
    else (if (cells current).is_free && leb size (cells current).size
        then done (fit current)
        else rest)

-- Splits the block if what is left holds a header and 16 bytes, and takes it.
unfoldable pub carve : Cells → ℕ → ℕ → Cells
carve cells current size =
    let block = cells current in
    let new_block = u64 (current + header_size + size) in
    if leb (u64 (size + header_size + 16)) block.size
    then update
        (update cells new_block (record {
          size = sub64 (sub64 block.size size) header_size;
          is_free = true;
          next = block.next;
        }))
        current (record { size = size; is_free = false; next = new_block })
    else update cells current (record block { is_free = false })

-- The nested loops of `kfree`: a round merges the next block or goes on to it.
unfoldable pub sweep : ℕ → Cells → ℕ → Run Cells
sweep zero cells current = stuck
sweep (suc n) cells current =
    let block = cells current in
    let after = cells block.next in
    let merged =
      sweep n
        (update cells current (record block {
          size = u64 (block.size + (header_size + after.size));
          next = after.next;
        }))
        current in
    let onward = sweep n cells block.next in
    if current == 0
    then done cells
    else (if block.is_free && (not (block.next == 0) && after.is_free) then merged else onward)

module _ (f : Frames) where
  open f use {State, alloc, map_page}

  -- The file's static variables, the memory and the state of the callees.
  pub record Heap : Type 0 where
    pub head : ℕ
    pub heap_end : ℕ
    pub cells : Cells
    pub frames : State

  -- The loop of `heap_expand`, `n` pages before its end.
  unfoldable pub grow : ℕ → Heap → Run Heap
  grow zero h = done h
  grow (suc n) h =
      let (phys, s) = alloc h.frames in
      let rest = grow n (record h {
        heap_end = u64 (h.heap_end + 4096);
        frames = map_page h.heap_end phys heap_page_flags s;
      }) in
      if phys == 0 then halted else rest

  -- The header that `heap_expand` writes at the old end of the heap.
  unfoldable pub place_block : ℕ → ℕ → Heap → Run (ℕ × Heap)
  place_block start needed h =
      let block : Header = record { size = sub64 needed header_size; is_free = true; next = 0 } in
      done (start, record h { cells = update h.cells start block })

  -- `static heap_block_t *heap_expand(size_t bytes)`
  unfoldable pub heap_expand : ℕ → Heap → Run (ℕ × Heap)
  heap_expand bytes h =
      let needed = align_up bytes 12 in grow (needed / 4096) h >>= place_block h.heap_end needed

  -- `void init_heap(void)`
  unfoldable pub init_heap : Heap → Run Heap
  init_heap h = heap_expand heap_initial_size h >>= λ r. done (record r.1 { head = r.0 })

  -- More rounds than a chain below `heap_end` has blocks.
  abbrev pub rounds : Heap → ℕ
  rounds h = (h.heap_end - heap_start) / header_size + 2

  -- `last->next = new_block`, or the first block of an empty heap.
  unfoldable pub link : ℕ → ℕ → Heap → Heap
  link last new_block h =
      if not (last == 0)
      then record h { cells = update h.cells last (record (h.cells last) { next = new_block }) }
      else (if h.head == 0 then record h { head = new_block } else h)

  abbrev pub take_block : ℕ → ℕ → Heap → Run (ℕ × Heap)
  take_block current size h =
      done (u64 (current + header_size), record h { cells = carve h.cells current size })

  -- The block from `heap_expand` is linked behind the last one and taken.
  unfoldable pub append_block : ℕ → ℕ → ℕ × Heap → Run (ℕ × Heap)
  append_block size last (new_block, h) = take_block new_block size (link last new_block h)

  -- What follows the walk.
  unfoldable pub after_walk : ℕ → Heap → Walk → Run (ℕ × Heap)
  after_walk size h (fit current) = take_block current size h
  after_walk size h (full last) =
      heap_expand (u64 (size + header_size)) h >>= append_block size last

  unfoldable pub kmalloc_aligned : ℕ → Heap → Run (ℕ × Heap)
  kmalloc_aligned size h = walk (rounds h) h.cells size 0 h.head >>= after_walk size h

  -- `void *kmalloc(size_t size)`
  unfoldable pub kmalloc : ℕ → Heap → Run (ℕ × Heap)
  kmalloc size h = if size == 0 then done (0, h) else kmalloc_aligned (align_up size 4) h

  -- `void kfree(void *ptr)`
  unfoldable pub kfree : ℕ → Heap → Run Heap
  kfree ptr h =
      let block = sub64 ptr header_size in
      let marked = update h.cells block (record (h.cells block) { is_free = true }) in
      if ptr == 0
      then done h
      else (sweep (rounds h) marked h.head >>= λ cells. done (record h { cells = cells }))
