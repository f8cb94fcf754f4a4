-- ===== src/Mm/Heap/Free.antt =====
-- `kfree` against the list of blocks.
use miyabi.Base.{
  ℕ, zero, suc, ◌+◌, ◌^◌, ◌<◌, ◌≡◌, refl, arith, Bool, true, false, not, ◌&&◌, List, [], ◌∷◌, ◌++◌,
  ◌==◌, update, update_self, update_ne, u64, sub64, ap, sym, ◌∙◌, Bool-cases, inl, inr, length,
}
use mathlib.Core.Path.{subst}
use native.Mathlib.Nat.{add-zero}
use miyabi.Base.Run.{Run, done, halted, stuck, ◌>>=◌, Ends, Ends-mono}
use miyabi.Mm.Heap.{Frames, Cells, Heap, heap_start, rounds, sweep, kfree}
use miyabi.Mm.Heap.Blocks.{Block, extent, extent-append, coalesce, merge_free, freed}
use miyabi.Mm.Heap.Layout.{Layout, Layout-extent, Layout-frame, link_to}
use miyabi.Mm.Heap.Malloc.{IsHeap, length-le-extent}

link_to-coalesce : (q : ℕ) (b : Block) (bs : List Block) → link_to q (coalesce b bs) ≡ q
unfolding coalesce
link_to-coalesce q b [] = refl
link_to-coalesce q b (c ∷ bs) =
    ground (arith, link_to-coalesce q (record b { size = b.size + (24 + c.size) }) bs)

-- From `p` on the memory is laid out by `bs`, and below `p` it is as before.
abbrev SweptTo : Cells → ℕ → List Block → ℕ → Cells → Type 0
SweptTo cells p bs stop new = Layout new p bs stop × ((q : ℕ) → q < p → new q ≡ cells q)

sweep_onward :
    (cells new : Cells) (p : ℕ) (b c : Block) (bs : List Block) (stop : ℕ)
    → Layout cells p (b ∷ c ∷ bs) stop
    → SweptTo cells (p + 24 + b.size) (coalesce c bs) stop new
    → SweptTo cells p (b ∷ coalesce c bs) stop new
sweep_onward cells new p b c bs stop l (layout, below) = (
  (
    below p (omega arith)
        ∙ l.0
        ∙ ap (λ n. record { size = b.size; is_free = b.is_free; next = n })
            (sym (link_to-coalesce (p + 24 + b.size) c bs)),
    layout,
  ),
  λ q lt. below q (omega arith),
)

-- The three ways a round of the loops goes.
sweep_end : (n : ℕ) (cells : Cells) → sweep (suc n) cells 0 ≡ done cells
unfolding sweep
sweep_end n cells = refl

module _ (n : ℕ) (cells : Cells) (p : ℕ) (pos : 0 < p) where
  abbrev mergeable : Bool
  mergeable = (cells p).is_free && (not ((cells p).next == 0) && (cells (cells p).next).is_free)

  abbrev merged : Cells
  merged = update cells p (record (cells p) {
    size = u64 ((cells p).size + (24 + (cells (cells p).next).size));
    next = (cells (cells p).next).next;
  })

  sweep_merge : mergeable ≡ true → sweep (suc n) cells p ≡ sweep n merged p
  unfolding sweep
  sweep_merge t = let nz : (p == 0) ≡ false = ground arith in rw (nz, t)

  sweep_onto : mergeable ≡ false → sweep (suc n) cells p ≡ sweep n cells (cells p).next
  unfolding sweep
  sweep_onto t = let nz : (p == 0) ≡ false = ground arith in rw (nz, t)

merged-Layout :
    (n : ℕ) (cells : Cells) (p : ℕ) (pos : 0 < p) (b c : Block) (bs : List Block) (stop : ℕ)
    → Layout cells p (b ∷ c ∷ bs) stop
    → stop < 2 ^ 64
    → Layout (merged n cells p pos) p (record b { size = b.size + (24 + c.size) } ∷ bs) stop
merged-Layout n cells p pos b c bs stop l small = (
  update_self cells p _ ∙ rw (l.0, l.1.0, wrap, at) refl,
  Layout-frame cells (merged n cells p pos) (p + 24 + (b.size + (24 + c.size))) bs stop
      (λ q lo hi. update_ne cells p _ q (omega arith))
      (subst (λ a. Layout cells a bs stop) at l.1.1),
)
  where
    at : p + 24 + b.size + 24 + c.size ≡ p + 24 + (b.size + (24 + c.size))
    at = omega arith

    end : p + 24 + b.size + 24 + c.size + extent bs ≡ stop
    end = Layout-extent cells (p + 24 + b.size + 24 + c.size) bs stop l.1.1

    wrap : u64 (b.size + (24 + c.size)) ≡ b.size + (24 + c.size)
    wrap = omega (arith, end)

sweep-Layout :
    (n : ℕ) (cells : Cells) (p : ℕ) (b : Block) (bs : List Block) (stop : ℕ)
    → Layout cells p (b ∷ bs) stop
    → 0 < p
    → stop < 2 ^ 64
    → length bs + 1 < n
    → Ends (SweptTo cells p (coalesce b bs) stop) (sweep n cells p)
unfolding coalesce
sweep-Layout zero cells p b bs stop l pos small fuel = absurd (omega arith)
sweep-Layout (suc zero) cells p b bs stop l pos small fuel = absurd (omega arith)
sweep-Layout (suc (suc n)) cells p b [] stop l pos small fuel =
    rw (sweep_onto (suc n) cells p pos (ground (arith, l.0)), l.0, sweep_end n cells)
      (l, λ q lt. refl)
sweep-Layout (suc (suc n)) cells p b (c ∷ bs) stop l pos small fuel =
    elim (Bool-cases (b.is_free && c.is_free)) [
      | inl both ↦
          rw (both, sweep_merge (suc n) cells p pos (ground (arith, l.0, l.1.0)))
            (Ends-mono (sweep (suc n) (merged (suc n) cells p pos) p)
              (λ new s. (s.0, λ q lt. ground (arith, s.1 q lt)))
              (sweep-Layout (suc n) (merged (suc n) cells p pos) p
                (record b { size = b.size + (24 + c.size) }) bs stop
                (merged-Layout (suc n) cells p pos b c bs stop l small) pos small (omega arith)))
      | inr apart ↦
          rw (apart, sweep_onto (suc n) cells p pos (ground (arith, l.0, l.1.0)), l.0)
            (Ends-mono (sweep (suc n) cells (p + 24 + b.size))
              (λ new s. sweep_onward cells new p b c bs stop l s)
              (sweep-Layout (suc n) cells (p + 24 + b.size) c bs stop l.1 (omega arith) small
                (omega arith)))
    ]

link_to-freed :
    (q : ℕ) (pre : List Block) (b : Block) (post : List Block)
    → link_to q (pre ++ b ∷ post) ≡ link_to q (pre ++ freed b ∷ post)
link_to-freed q [] b post = refl
link_to-freed q (x ∷ pre) b post = refl

-- Freeing a block behind `pre` marks its header.
mark-Layout :
    (cells : Cells) (p : ℕ) (pre : List Block) (b : Block) (post : List Block) (stop : ℕ)
    → Layout cells p (pre ++ b ∷ post) stop
    → Layout
        (update cells (p + extent pre) (record (cells (p + extent pre)) { is_free = true }))
        p
        (pre ++ freed b ∷ post)
        stop
mark-Layout cells p [] b post stop l =
    subst
      (λ n. Layout (update cells n (record (cells n) { is_free = true })) p (freed b ∷ post) stop)
      (sym (add-zero p))
      (
        update_self cells p _ ∙ rw l.0 refl,
        Layout-frame cells (update cells p (record (cells p) { is_free = true })) (p + 24 + b.size)
            post stop (λ q lo hi. update_ne cells p _ q (omega arith)) l.1,
      )
mark-Layout cells p (x ∷ pre) b post stop l = (
  update_ne cells (p + (24 + x.size + extent pre)) _ p (omega arith)
      ∙ l.0
      ∙ ap (λ n. record { size = x.size; is_free = x.is_free; next = n })
          (link_to-freed (p + 24 + x.size) pre b post),
  subst
      (λ n.
        Layout (update cells n (record (cells n) { is_free = true })) (p + 24 + x.size)
          (pre ++ freed b ∷ post) stop)
      (sym at) (mark-Layout cells (p + 24 + x.size) pre b post stop l.1),
)
  where
    at : p + (24 + x.size + extent pre) ≡ p + 24 + x.size + extent pre
    at = omega arith

sweep-merge_free :
    (n : ℕ) (cells : Cells) (p : ℕ) (bs : List Block) (stop : ℕ)
    → Layout cells p bs stop
    → 0 < length bs
    → 0 < p
    → stop < 2 ^ 64
    → length bs < n
    → Ends (λ new. Layout new p (merge_free bs) stop) (sweep n cells p)
unfolding merge_free
sweep-merge_free n cells p [] stop l some pos small fuel = absurd (omega arith)
sweep-merge_free n cells p (b ∷ bs) stop l some pos small fuel =
    Ends-mono (sweep n cells p) (λ new s. s.0)
      (sweep-Layout n cells p b bs stop l pos small (omega arith))

length-coalesce : (b : Block) (bs : List Block) → 0 < length (coalesce b bs)
unfolding coalesce
length-coalesce b [] = omega arith
length-coalesce b (c ∷ bs) =
    ground (arith, length-coalesce (record b { size = b.size + (24 + c.size) }) bs)

length-merge_free : (bs : List Block) → 0 < length bs → 0 < length (merge_free bs)
unfolding merge_free
length-merge_free [] h = absurd (omega arith)
length-merge_free (b ∷ bs) h = length-coalesce b bs

length-split : (pre : List Block) (b : Block) (post : List Block) → 0 < length (pre ++ b ∷ post)
length-split [] b post = omega arith
length-split (x ∷ pre) b post = omega arith

module _ (f : Frames) where
  -- What `kfree` leaves: the block is free, and free neighbours are one block.
  pub record Freed (h : Heap f) (pre : List Block) (b : Block) (post : List Block) (g : Heap f)
      : Type 0 where
    pub after : IsHeap f g (merge_free (pre ++ freed b ∷ post))
    pub same_end : g.heap_end ≡ h.heap_end

  -- On a heap of the blocks `pre`, `b` and `post`, `kfree` of the memory of `b` ends. The heap then has
  -- the same end and the blocks it had with `b` free and every run of free neighbours merged into one
  -- block, which still follow each other without a gap.
  pub kfree-Freed :
      (h : Heap f) (pre : List Block) (b : Block) (post : List Block)
      → IsHeap f h (pre ++ b ∷ post)
      → Ends (Freed h pre b post) (kfree f (heap_start + extent pre + 24) h)
  unfolding kfree
  kfree-Freed h pre b post i =
      rw (not_null, at)
        (finish (sweep (rounds f h) marked h.head) (
          rw i.head (
            sweep-merge_free (rounds f h) marked heap_start blocks h.heap_end layout
              (length-split pre (freed b) post) (omega arith) i.room fuel)))
    where
      blocks : List Block
      blocks = pre ++ freed b ∷ post

      total : heap_start + extent (pre ++ b ∷ post) ≡ h.heap_end
      total = Layout-extent h.cells heap_start (pre ++ b ∷ post) h.heap_end i.layout

      not_null : (heap_start + extent pre + 24 == 0) ≡ false
      not_null = ground arith

      at : sub64 (heap_start + extent pre + 24) 24 ≡ heap_start + extent pre
      at = omega (arith, total, extent-append pre (b ∷ post), i.room)

      marked : Cells
      marked =
          update h.cells (heap_start + extent pre)
            (record (h.cells (heap_start + extent pre)) { is_free = true })

      layout : Layout marked heap_start blocks h.heap_end
      layout = mark-Layout h.cells heap_start pre b post h.heap_end i.layout

      fuel : length blocks < rounds f h
      fuel =
          omega (
            arith,
            length-le-extent blocks,
            Layout-extent marked heap_start blocks h.heap_end layout,
          )

      finish :
          (r : Run Cells)
          → Ends (λ new. Layout new heap_start (merge_free blocks) h.heap_end) r
          → Ends (Freed h pre b post) (r >>= λ cells. done (record h { cells = cells }))
      finish (done new) l = record {
        after = record {
          head = i.head;
          some_block = length-merge_free blocks (length-split pre (freed b) post);
          layout = l;
          room = i.room;
        };
        same_end = refl;
      }
      finish halted l = l
      finish stuck l = l
