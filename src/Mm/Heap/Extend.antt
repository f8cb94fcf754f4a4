-- ===== src/Mm/Heap/Extend.antt =====
-- `heap_expand`, and the chain with the new block at its end.
use miyabi.Base.{
  ℕ, zero, suc, ◌+◌, ◌-◌, ◌*◌, ◌/◌, ◌^◌, ◌≤◌, ◌<◌, ◌≡◌, ◌≢◌, refl, arith, true, List, [], ◌∷◌, ◌++◌,
  ◌==◌, update, u64, sub64, ◌∙◌, Bool-cases, inl, inr,
}
use miyabi.Base.Run.{Run, done, halted, stuck, ◌>>=◌}
use miyabi.Mm.Heap.{Frames, Cells, Heap, grow, heap_expand, align_up, heap_page_flags, place_block}
use miyabi.Mm.Heap.Blocks.{Block}
use miyabi.Mm.Heap.Layout.{Layout}
use miyabi.Mm.Heap.Search.{last_block}

-- Header writes at `stop` and at the last block, in the order of the code.
abbrev pub chained : Cells → ℕ → ℕ → ℕ → Cells
chained cells stop last size =
    let c = update cells stop (record { size = size; is_free = true; next = 0 }) in
    update c last (record (c last) { next = stop })

-- The last block lies between the start and the stop.
pub last_block-lt :
    (cells : Cells) (p last : ℕ) (b : Block) (bs : List Block) (stop : ℕ)
    → Layout cells p (b ∷ bs) stop
    → (p ≤ last_block p last (b ∷ bs)) × (last_block p last (b ∷ bs) < stop)
last_block-lt cells p last b [] stop l = omega (arith, l.1)
last_block-lt cells p last b (c ∷ bs) stop l =
    omega (arith, last_block-lt cells (p + 24 + b.size) p c bs stop l.1)

chained_other :
    (cells : Cells) (stop last size q : ℕ)
    → q ≢ last
    → q ≢ stop
    → chained cells stop last size q ≡ cells q
chained_other cells stop last size q n m = ground arith

pub chained-Layout :
    (cells : Cells) (p last size : ℕ) (b : Block) (bs : List Block) (stop : ℕ)
    → Layout cells p (b ∷ bs) stop
    → Layout
        (chained cells stop (last_block p last (b ∷ bs)) size)
        p
        (b ∷ (bs ++ record { size = size; is_free = true } ∷ []))
        (stop + 24 + size)
chained-Layout cells p last size b [] stop l =
    (ground (arith, l.0, l.1), (ground (arith, l.0, l.1), omega (arith, l.1)))
chained-Layout cells p last size b (c ∷ bs) stop l =
    let at = last_block-lt cells (p + 24 + b.size) p c bs stop l.1 in
    (
      chained_other cells stop (last_block p last (b ∷ c ∷ bs)) size p (omega (arith, at))
            (omega (arith, at))
          ∙ l.0,
      chained-Layout cells (p + 24 + b.size) p size c bs stop l.1,
    )

module _ (f : Frames) where
  -- The frames after `k` pages were allocated and mapped from `heap_end` on.
  unfoldable pub mapped : ℕ → ℕ → f.State → f.State
  mapped zero heap_end s = s
  mapped (suc k) heap_end s =
      mapped k (u64 (heap_end + 4096))
        (f.map_page heap_end (f.alloc s).0 heap_page_flags (f.alloc s).1)

  -- Of the pages that `bytes` of growth take, the allocator gives one no frame, when it has given
  -- frames to all before it and these were mapped.
  pub record NoFrame (bytes : ℕ) (h : Heap f) : Type 0 where
    pub pages : ℕ
    pub within : pages * 4096 < bytes
    pub earlier : (j : ℕ) → j < pages → (f.alloc (mapped j h.heap_end h.frames)).0 ≢ 0
    pub none_left : (f.alloc (mapped pages h.heap_end h.frames)).0 ≡ 0

  -- What `n` pages of growth give: all mapped, or a halt since one of them gets no frame.
  abbrev pub Grown : ℕ → Heap f → Run (Heap f) → Type 0
  Grown n h (done g) =
      (g.heap_end ≡ h.heap_end + n * 4096) × (g.cells ≡ h.cells) × (g.head ≡ h.head)
  Grown n h halted = NoFrame (n * 4096) h
  Grown n h stuck = ⊥

  -- The state after the first page was mapped.
  abbrev one_page : Heap f → Heap f
  one_page h = record h {
    heap_end = u64 (h.heap_end + 4096);
    frames = f.map_page h.heap_end (f.alloc h.frames).0 heap_page_flags (f.alloc h.frames).1;
  }

  NoFrame-suc :
      (n : ℕ) (h : Heap f)
      → (f.alloc h.frames).0 ≢ 0
      → NoFrame (n * 4096) (one_page h)
      → NoFrame (suc n * 4096) h
  unfolding mapped
  NoFrame-suc n h found x = record {
    pages = suc x.pages;
    within = omega (arith, x.within);
    earlier = before;
    none_left = x.none_left;
  }
    where
      before : (j : ℕ) → j < suc x.pages → (f.alloc (mapped j h.heap_end h.frames)).0 ≢ 0
      before zero lt = found
      before (suc j) lt = x.earlier j (omega arith)

  grow-Grown : (n : ℕ) (h : Heap f) → h.heap_end + n * 4096 < 2 ^ 64 → Grown n h (grow f n h)
  unfolding grow mapped
  grow-Grown zero h room = (omega arith, refl, refl)
  grow-Grown (suc n) h room = elim (Bool-cases ((f.alloc h.frames).0 == 0)) [
    | inl null ↦ rw null (record {
      pages = 0;
      within = omega arith;
      earlier = λ j lt. absurd (omega arith);
      none_left = ground arith;
    })
    | inr found ↦ rw found (later (ground arith) (grow f n next) (grow-Grown n next (omega arith)))
  ]
    where
      next : Heap f
      next = one_page h

      later : (f.alloc h.frames).0 ≢ 0 → (r : Run (Heap f)) → Grown n next r → Grown (suc n) h r
      later found (done g) (e, c, d) = (omega (arith, e), c, d)
      later found halted x = NoFrame-suc n h found x
      later found stuck x = x

  -- What `heap_expand` gives: a free block of whole pages at the old end of the heap.
  abbrev pub Expanded : ℕ → Heap f → Run (ℕ × Heap f) → Type 0
  Expanded needed h (done (p, g)) =
      (p ≡ h.heap_end)
      × (g.heap_end ≡ h.heap_end + needed)
      × (g.cells
          ≡ update h.cells h.heap_end (record { size = needed - 24; is_free = true; next = 0 }))
      × (g.head ≡ h.head)
  Expanded needed h halted = NoFrame needed h
  Expanded needed h stuck = ⊥

  place_block-Expanded :
      (n : ℕ) (h : Heap f)
      → 1 ≤ n
      → n * 4096 < 2 ^ 64
      → (r : Run (Heap f)) → Grown n h r
      → Expanded (n * 4096) h (r >>= place_block f h.heap_end (n * 4096))
  unfolding place_block
  place_block-Expanded n h pos room (done g) (e, c, d) =
      let size : sub64 (n * 4096) 24 ≡ n * 4096 - 24 = omega arith in
      rw (size, c) (refl, e, refl, d)
  place_block-Expanded n h pos room halted x = x
  place_block-Expanded n h pos room stuck x = x

  pub heap_expand-Expanded :
      (bytes : ℕ) (h : Heap f)
      → 1 ≤ bytes
      → h.heap_end + bytes + 4095 < 2 ^ 64
      → Expanded ((bytes + 4095) / 4096 * 4096) h (heap_expand f bytes h)
  unfolding heap_expand align_up
  heap_expand-Expanded bytes h some room =
      let n : ℕ = (bytes + 4095) / 4096 in
      let size : u64 (bytes + (2 ^ 12 - 1)) / 2 ^ 12 * 2 ^ 12 ≡ n * 4096 = omega arith in
      let pages : n * 4096 / 4096 ≡ n = omega arith in
      rw (size, pages)
        (place_block-Expanded n h (omega arith) (omega arith) (grow f n h)
          (grow-Grown n h (omega arith)))
