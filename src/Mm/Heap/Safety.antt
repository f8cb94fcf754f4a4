-- ===== src/Mm/Heap/Safety.antt =====
-- Blocks in use across `kmalloc`.
use miyabi.Base.{
  ℕ, ◌+◌, ◌-◌, ◌^◌, ◌≤◌, ◌<◌, ◌≡◌, ◌⊎◌, arith, true, false, List, [], ◌∷◌, ◌++◌, sym, inl, inr,
}
use mathlib.Core.Path.{subst}
use miyabi.Base.Run.{Run, done, halted, stuck}
use miyabi.Mm.Heap.{Frames, Cells, Heap, heap_start, kmalloc}
use miyabi.Mm.Heap.Blocks.{Block, extent, carved, rounded, paged}
use miyabi.Mm.Heap.Layout.{Layout, Layout-extent}
use miyabi.Mm.Heap.Extend.{NoFrame}
use miyabi.Mm.Heap.Malloc.{IsHeap, Reused, Appended, Allocated, kmalloc-Allocated}

-- Among blocks that begin at `p`, one in use of `s` bytes begins at `a`.
abbrev pub UsedAt : ℕ → List Block → ℕ → ℕ → Type 0
UsedAt p [] a s = ⊥
UsedAt p (b ∷ bs) a s =
    ((a ≡ p) × (s ≡ b.size) × (b.is_free ≡ false)) ⊎ UsedAt (p + 24 + b.size) bs a s

UsedAt-bounds :
    (p : ℕ) (bs : List Block) (a s : ℕ) → UsedAt p bs a s → (p ≤ a) × (a + 24 + s ≤ p + extent bs)
UsedAt-bounds p (b ∷ bs) a s (inl (e, n, u)) = omega arith
UsedAt-bounds p (b ∷ bs) a s (inr u) = omega (arith, UsedAt-bounds (p + 24 + b.size) bs a s u)
UsedAt-bounds p [] a s u = absurd u

-- The header in memory says so.
UsedAt-cells :
    (cells : Cells) (p : ℕ) (bs : List Block) (stop a s : ℕ)
    → Layout cells p bs stop
    → UsedAt p bs a s
    → ((cells a).size ≡ s) × ((cells a).is_free ≡ false)
UsedAt-cells cells p [] stop a s l u = absurd u
UsedAt-cells cells p (b ∷ bs) stop a s l (inl (e, n, u)) = rw (e, l.0) (sym n, u)
UsedAt-cells cells p (b ∷ bs) stop a s l (inr u) =
    UsedAt-cells cells (p + 24 + b.size) bs stop a s l.1 u

UsedAt-behind :
    (p q : ℕ) (new post : List Block) (a s : ℕ)
    → q ≡ p + extent new
    → UsedAt q post a s
    → UsedAt p (new ++ post) a s
UsedAt-behind p q [] post a s e u = subst (λ x. UsedAt x post a s) (omega arith) u
UsedAt-behind p q (b ∷ new) post a s e u =
    inr (UsedAt-behind (p + 24 + b.size) q new post a s (omega arith) u)

-- The ranges of two blocks, headers included, do not meet.
abbrev Apart : ℕ → ℕ → ℕ → ℕ → Type 0
Apart a m b n = (a + m ≤ b) ⊎ (b + n ≤ a)

-- Putting blocks of the same extent for a free block keeps what is in use, apart from them.
UsedAt-splice :
    (p : ℕ) (pre : List Block) (b : Block) (new post : List Block) (a s : ℕ)
    → b.is_free ≡ true
    → extent new ≡ 24 + b.size
    → UsedAt p (pre ++ b ∷ post) a s
    → UsedAt p (pre ++ (new ++ post)) a s × Apart a (24 + s) (p + extent pre) (24 + b.size)
UsedAt-splice p [] b new post a s free same (inl (e, n, used)) = absurd (cc)
UsedAt-splice p [] b new post a s free same (inr u) = (
  UsedAt-behind p (p + 24 + b.size) new post a s (omega arith) u,
  inr (omega (arith, UsedAt-bounds (p + 24 + b.size) post a s u)),
)
UsedAt-splice p (x ∷ pre) b new post a s free same (inl (e, n, used)) =
    (inl (e, n, used), inl (omega arith))
UsedAt-splice p (x ∷ pre) b new post a s free same (inr u) =
    let (v, w) = UsedAt-splice (p + 24 + x.size) pre b new post a s free same u in
    (inr v, elim w [ inl k ↦ inl (omega arith) | inr k ↦ inr (omega arith) ])

UsedAt-append : (p : ℕ) (bs new : List Block) (a s : ℕ) → UsedAt p bs a s → UsedAt p (bs ++ new) a s
UsedAt-append p [] new a s u = absurd u
UsedAt-append p (b ∷ bs) new a s (inl e) = inl e
UsedAt-append p (b ∷ bs) new a s (inr u) = inr (UsedAt-append (p + 24 + b.size) bs new a s u)

extent-carved : (size : ℕ) (b : Block) → size ≤ b.size → extent (carved size b) ≡ 24 + b.size
unfolding carved
extent-carved size b h = ground arith

module _ (f : Frames) where
  -- A block of `s` bytes in use at `a` is so still, and a block of `size` bytes at `ptr` is apart.
  abbrev pub Spared : Heap f → ℕ → ℕ → ℕ → Run (ℕ × Heap f) → Type 0
  Spared h size a s (done (ptr, g)) =
      ((g.cells a).size ≡ s)
      × ((g.cells a).is_free ≡ false)
      × ((a + 24 + s + 24 ≤ ptr) ⊎ (ptr + size ≤ a))
  Spared h size a s halted = NoFrame f (paged size) h
  Spared h size a s stuck = ⊥

  Spared-Reused :
      (h g : Heap f) (bs : List Block) (size ptr a s : ℕ)
      → UsedAt heap_start bs a s
      → Reused f h bs size ptr g
      → Spared h size a s (done (ptr, g))
  Spared-Reused h g bs size ptr a s u x =
      let at = x.at in
      let (v, w) =
        UsedAt-splice heap_start at.pre at.block (carved size at.block) at.post a s at.free
          (extent-carved size at.block at.enough)
          (subst (λ l. UsedAt heap_start l a s) at.split u) in
      let c =
        UsedAt-cells g.cells heap_start (at.pre ++ (carved size at.block ++ at.post)) g.heap_end a s
          x.after.layout v in
      (
        c.0,
        c.1,
        elim w [
          | inl k ↦ inl (omega (arith, x.address))
          | inr k ↦ inr (omega (arith, x.address, at.enough))
        ],
      )

  Spared-Appended :
      (h g : Heap f) (bs : List Block) (size ptr a s : ℕ)
      → IsHeap f h bs
      → UsedAt heap_start bs a s
      → Appended f h bs size ptr g
      → Spared h size a s (done (ptr, g))
  Spared-Appended h g bs size ptr a s i u x =
      let new : List Block =
        carved size (record { size = paged size - 24; is_free = true }) ++ [] in
      let c =
        UsedAt-cells g.cells heap_start (bs ++ new) g.heap_end a s x.after.layout
          (UsedAt-append heap_start bs new a s u) in
      (
        c.0,
        c.1,
        inl (
            omega (
              arith,
              x.address,
              UsedAt-bounds heap_start bs a s u,
              Layout-extent h.cells heap_start bs h.heap_end i.layout,
            )),
      )

  -- `kmalloc` never hands out memory in use: in a heap that is tiled by its blocks, a block in use
  -- keeps the size and the mark in its header, and its bytes and header are apart from the bytes that
  -- are returned and their header; or the machine halts, since of the pages the heap would grow by
  -- one gets no frame from the allocator, after those before it were given frames and mapped.
  pub kmalloc-Spared :
      (h : Heap f) (bs : List Block) (size a s : ℕ)
      → IsHeap f h bs
      → 0 < size
      → h.heap_end + size + 15 + 24 + 4095 < 2 ^ 64
      → UsedAt heap_start bs a s
      → Spared h (rounded size) a s (kmalloc f size h)
  kmalloc-Spared h bs size a s i pos room u =
      finish (kmalloc f size h) (kmalloc-Allocated f h bs size i pos room)
    where
      finish :
          (r : Run (ℕ × Heap f)) → Allocated f h bs (rounded size) r → Spared h (rounded size) a s r
      finish (done (ptr, g)) (inl x) = Spared-Reused h g bs (rounded size) ptr a s u x
      finish (done (ptr, g)) (inr x) = Spared-Appended h g bs (rounded size) ptr a s i u x
      finish halted x = x.1
      finish stuck x = x
