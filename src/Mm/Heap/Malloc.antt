-- ===== src/Mm/Heap/Malloc.antt =====
-- `init_heap` and `kmalloc` against the list of blocks.
use miyabi.Base.{
  ℕ, ◌+◌, ◌-◌, ◌*◌, ◌/◌, ◌^◌, ◌≤◌, ◌<◌, ◌≡◌, ◌⊎◌, refl, arith, true, false, List, [], ◌∷◌, ◌++◌,
  ◌==◌, update, u64, sym, ◌∙◌, inl, inr, length, All,
}
use mathlib.Core.Path.{subst}
use miyabi.Base.Run.{Run, done, halted, stuck, ◌>>=◌}
use miyabi.Mm.Heap.{
  Frames, Cells, Heap, Walk, fit, full, walk, heap_start, heap_initial_size, rounds, carve, link,
  heap_expand, align_up, init_heap, append_block, after_walk, kmalloc_aligned, kmalloc,
}
use miyabi.Mm.Heap.Blocks.{Block, extent, extent-append, fits, carved, FirstFit, rounded, paged}
use miyabi.Mm.Heap.Layout.{Layout, Layout-extent, link_to, carve-Layout}
use miyabi.Mm.Heap.Search.{
  search_blocks, walk-search_blocks, Ended, search_blocks-Ended, last_block,
}
use miyabi.Mm.Heap.Extend.{
  chained, chained-Layout, last_block-lt, NoFrame, Expanded, heap_expand-Expanded,
}

pub length-le-extent : (bs : List Block) → 24 * length bs ≤ extent bs
length-le-extent [] = omega arith
length-le-extent (b ∷ bs) = omega (arith, length-le-extent bs)

link_to-nonempty : (p : ℕ) (bs : List Block) → 0 < length bs → link_to p bs ≡ p
link_to-nonempty p [] h = absurd (omega arith)
link_to-nonempty p (b ∷ bs) h = refl

length-replaced :
    (pre : List Block) (size : ℕ) (b : Block) (post : List Block)
    → 0 < length (pre ++ (carved size b ++ post))
unfolding carved
length-replaced [] size b post = ground arith
length-replaced (x ∷ pre) size b post = omega arith

module _ (f : Frames) where
  -- The chain from `head` tiles the heap from its start to `heap_end` by the blocks.
  pub record IsHeap (h : Heap f) (bs : List Block) : Type 0 where
    pub head : h.head ≡ heap_start
    pub some_block : 0 < length bs
    pub layout : Layout h.cells heap_start bs h.heap_end
    pub room : h.heap_end < 2 ^ 64

  -- A block was found: the first that fits is split or taken whole, in place.
  pub record Reused (h : Heap f) (bs : List Block) (size ptr : ℕ) (g : Heap f) : Type 0 where
    pub at : FirstFit size bs
    pub address : ptr ≡ heap_start + extent at.pre + 24
    pub after : IsHeap g (at.pre ++ (carved size at.block ++ at.post))
    pub same_end : g.heap_end ≡ h.heap_end

  -- No block fits: the heap has grown by pages, and the block begins at the old end.
  pub record Appended (h : Heap f) (bs : List Block) (size ptr : ℕ) (g : Heap f) : Type 0 where
    pub no_fit : All (λ x. fits size x ≡ false) bs
    pub address : ptr ≡ h.heap_end + 24
    pub after :
        IsHeap g (bs ++ (carved size (record { size = paged size - 24; is_free = true }) ++ []))
    pub new_end : g.heap_end ≡ h.heap_end + paged size

  abbrev pub Allocated : Heap f → List Block → ℕ → Run (ℕ × Heap f) → Type 0
  Allocated h bs size (done (ptr, g)) = Reused h bs size ptr g ⊎ Appended h bs size ptr g
  Allocated h bs size halted = All (λ x. fits size x ≡ false) bs × NoFrame f (paged size) h
  Allocated h bs size stuck = ⊥

  reuse :
      (h : Heap f) (bs : List Block) (size : ℕ)
      → IsHeap h bs
      → (at : FirstFit size bs)
      → Reused h bs size
          (u64 (heap_start + extent at.pre + 24))
          (record h { cells = carve h.cells (heap_start + extent at.pre) size })
  reuse h bs size i at = record {
    at = at;
    address = omega (arith, extent-append at.pre (at.block ∷ at.post), total);
    after = record {
      head = i.head;
      some_block = length-replaced at.pre size at.block at.post;
      layout =
          carve-Layout h.cells heap_start size at.pre at.block at.post h.heap_end split
            (omega arith) at.enough i.room;
      room = i.room;
    };
    same_end = refl;
  }
    where
      split : Layout h.cells heap_start (at.pre ++ at.block ∷ at.post) h.heap_end
      split = subst (λ l. Layout h.cells heap_start l h.heap_end) at.split i.layout

      total : heap_start + extent (at.pre ++ at.block ∷ at.post) ≡ h.heap_end
      total = Layout-extent h.cells heap_start (at.pre ++ at.block ∷ at.post) h.heap_end split

  -- The state after `heap_expand` and the link to the new block, before it is split.
  record IsExtended (h g : Heap f) (bs : List Block) (needed : ℕ) : Type 0 where
    head : g.head ≡ heap_start
    new_end : g.heap_end ≡ h.heap_end + needed
    layout :
        Layout g.cells heap_start
          (bs ++ record { size = needed - 24; is_free = true } ∷ [])
          g.heap_end

  link-IsExtended :
      (h g : Heap f) (bs : List Block) (needed : ℕ)
      → IsHeap h bs
      → 24 ≤ needed
      → Expanded f needed h (done (h.heap_end, g))
      → IsExtended h (link f (last_block heap_start 0 bs) h.heap_end g) bs needed
  unfolding link
  link-IsExtended h g [] needed i pos x = absurd (omega (arith, i.some_block))
  link-IsExtended h g (b ∷ bs) needed i pos (p, e, c, d) = rw not_null (record {
    head = d ∙ i.head;
    new_end = e;
    layout =
        subst
          (λ x.
            Layout (update x last (record (x last) { next = h.heap_end })) heap_start blocks
              g.heap_end)
          (sym c) (subst (λ n. Layout now heap_start blocks n) stop grown);
  })
    where
      last : ℕ
      last = last_block heap_start 0 (b ∷ bs)

      not_null : (last == 0) ≡ false
      not_null = ground (arith, last_block-lt h.cells heap_start 0 b bs h.heap_end i.layout)

      stop : h.heap_end + 24 + (needed - 24) ≡ g.heap_end
      stop = omega arith

      now : Cells
      now = chained h.cells h.heap_end last (needed - 24)

      blocks : List Block
      blocks = b ∷ (bs ++ record { size = needed - 24; is_free = true } ∷ [])

      grown : Layout now heap_start blocks (h.heap_end + 24 + (needed - 24))
      grown = chained-Layout h.cells heap_start 0 (needed - 24) b bs h.heap_end i.layout

  append :
      (h g : Heap f) (bs : List Block) (size : ℕ)
      → IsHeap h bs
      → h.heap_end + paged size < 2 ^ 64
      → All (λ x. fits size x ≡ false) bs
      → IsExtended h g bs (paged size)
      → Appended h bs size
          (u64 (h.heap_end + 24))
          (record g { cells = carve g.cells h.heap_end size })
  append h g bs size i room no_fit x = record {
    no_fit = no_fit;
    address = omega arith;
    after = record {
      head = x.head;
      some_block = length-replaced bs size _ [];
      layout =
          subst
            (λ a.
              Layout (carve g.cells a size) heap_start
                (bs ++ (carved size (record { size = paged size - 24; is_free = true }) ++ []))
                g.heap_end)
            at
            (carve-Layout g.cells heap_start size bs _ [] g.heap_end x.layout (omega arith)
              (omega arith) (omega (arith, x.new_end)));
      room = omega (arith, x.new_end);
    };
    new_end = x.new_end;
  }
    where
      at : heap_start + extent bs ≡ h.heap_end
      at = Layout-extent h.cells heap_start bs h.heap_end i.layout

  append_block-Allocated :
      (h : Heap f) (bs : List Block) (size : ℕ)
      → IsHeap h bs
      → h.heap_end + paged size < 2 ^ 64
      → All (λ x. fits size x ≡ false) bs
      → (r : Run (ℕ × Heap f)) → Expanded f (paged size) h r
      → Allocated h bs size (r >>= append_block f size (last_block heap_start 0 bs))
  unfolding append_block
  append_block-Allocated h bs size i room no_fit (done (p, g)) (e, n, c, d) = rw e (
      inr (
        append h (link f (last_block heap_start 0 bs) h.heap_end g) bs size i room no_fit
          (link-IsExtended h g bs (paged size) i (omega arith) (refl, n, c, d))))
  append_block-Allocated h bs size i room no_fit halted x = (no_fit, x)
  append_block-Allocated h bs size i room no_fit stuck x = x

  after_walk-Allocated :
      (h : Heap f) (bs : List Block) (size : ℕ)
      → IsHeap h bs
      → h.heap_end + size + 24 + 4095 < 2 ^ 64
      → (w : Walk) → Ended size heap_start 0 bs w
      → Allocated h bs size (after_walk f size h w)
  unfolding after_walk
  after_walk-Allocated h bs size i room (fit a) (at, e) = rw e (inl (reuse h bs size i at))
  after_walk-Allocated h bs size i room (full a) (no_fit, e) =
      let small : u64 (size + 24) ≡ size + 24 = omega arith in
      rw (small, e)
        (append_block-Allocated h bs size i (omega arith) no_fit _
          (heap_expand-Expanded f (size + 24) h (omega arith) (omega arith)))

  pub kmalloc_aligned-Allocated :
      (h : Heap f) (bs : List Block) (size : ℕ)
      → IsHeap h bs
      → h.heap_end + size + 24 + 4095 < 2 ^ 64
      → Allocated h bs size (kmalloc_aligned f size h)
  unfolding kmalloc_aligned
  kmalloc_aligned-Allocated h bs size i room =
      rw found (after_walk-Allocated h bs size i room _ (search_blocks-Ended size heap_start 0 bs))
    where
      from : h.head ≡ link_to heap_start bs
      from = i.head ∙ sym (link_to-nonempty heap_start bs i.some_block)

      found : walk (rounds f h) h.cells size 0 h.head ≡ done (search_blocks size heap_start 0 bs)
      found = rw from (
          walk-search_blocks (rounds f h) h.cells size heap_start 0 bs h.heap_end i.layout
            (omega arith)
            (omega (
              arith,
              length-le-extent bs,
              Layout-extent h.cells heap_start bs h.heap_end i.layout,
            )))

  pub kmalloc-Allocated :
      (h : Heap f) (bs : List Block) (size : ℕ)
      → IsHeap h bs
      → 0 < size
      → h.heap_end + size + 15 + 24 + 4095 < 2 ^ 64
      → Allocated h bs (rounded size) (kmalloc f size h)
  unfolding kmalloc align_up
  kmalloc-Allocated h bs size i pos room =
      let nonzero : (size == 0) ≡ false = ground arith in
      let up : u64 (size + (2 ^ 4 - 1)) / 2 ^ 4 * 2 ^ 4 ≡ rounded size = omega arith in
      rw (nonzero, up) (kmalloc_aligned-Allocated h bs (rounded size) i (omega arith))

  -- What `init_heap` gives: one free block of the whole initial heap, or a halt as a page gets no frame.
  abbrev pub Initialised : Heap f → Run (Heap f) → Type 0
  Initialised h (done g) = IsHeap g (record { size = heap_initial_size - 24; is_free = true } ∷ [])
  Initialised h halted = NoFrame f heap_initial_size h
  Initialised h stuck = ⊥

  init_heap-Initialised : (h : Heap f) → h.heap_end ≡ heap_start → Initialised h (init_heap f h)
  unfolding init_heap
  init_heap-Initialised h start =
      finish (heap_expand f heap_initial_size h)
        (heap_expand-Expanded f heap_initial_size h (omega arith) (omega arith))
    where
      finish :
          (r : Run (ℕ × Heap f))
          → Expanded f heap_initial_size h r
          → Initialised h (r >>= λ r. done (record r.1 { head = r.0 }))
      finish (done (p, g)) (a, e, c, d) = record {
        head = a ∙ start;
        some_block = omega arith;
        layout = (ground arith, omega arith);
        room = omega arith;
      }
      finish halted x = x
      finish stuck x = x
