-- ===== src/Mm/Heap/RoundTrip.antt =====
-- Merging of free blocks, and `kfree` after `kmalloc`.
use miyabi.Base.{
  ℕ, ◌+◌, ◌-◌, ◌^◌, ◌<◌, ◌≡◌, refl, arith, true, false, ◌&&◌, List, [], ◌∷◌, ◌++◌, leb, ap, sym,
  ◌∙◌, Bool-cases, inl, inr, All,
}
use mathlib.Core.Path.{subst}
use miyabi.Base.Run.{Run, done, halted, stuck, ◌>>=◌, Ends, Ends-mono}
use miyabi.Mm.Heap.{Frames, Heap, heap_start, kmalloc, kfree}
use miyabi.Mm.Heap.Blocks.{
  Block, extent, fits, carved, FirstFit, rounded, coalesce, merge_free, freed, Separated,
}
use miyabi.Mm.Heap.Malloc.{IsHeap, Reused, Allocated, kmalloc-Allocated}
use miyabi.Mm.Heap.Free.{kfree-Freed}

coalesce-Separated :
    (a b : Block) (bs : List Block)
    → (a.is_free && b.is_free) ≡ false
    → Separated (a ∷ coalesce b bs)
unfolding coalesce
coalesce-Separated a b [] h = (h, tt)
coalesce-Separated a b (c ∷ bs) h = elim (Bool-cases (b.is_free && c.is_free)) [
  | inl both ↦ rw both (coalesce-Separated a (record b { size = b.size + (24 + c.size) }) bs h)
  | inr apart ↦ rw apart (h, coalesce-Separated b c bs apart)
]

Separated-tail : (b : Block) (bs : List Block) → Separated (b ∷ bs) → Separated bs
Separated-tail b [] h = tt
Separated-tail b (c ∷ bs) h = h.1

-- A used block in front separates anything.
pub merge_free-Separated : (bs : List Block) → Separated (merge_free bs)
unfolding merge_free
merge_free-Separated [] = tt
merge_free-Separated (b ∷ bs) =
    Separated-tail (record { size = 0; is_free = false }) (coalesce b bs)
      (coalesce-Separated (record { size = 0; is_free = false }) b bs refl)

coalesce-id : (b : Block) (bs : List Block) → Separated (b ∷ bs) → coalesce b bs ≡ b ∷ bs
unfolding coalesce
coalesce-id b [] h = refl
coalesce-id b (c ∷ bs) h = rw (h.0, coalesce-id c bs h.1)

merge_free-id : (bs : List Block) → Separated bs → merge_free bs ≡ bs
unfolding merge_free
merge_free-id [] h = refl
merge_free-id (b ∷ bs) h = coalesce-id b bs h

module _ (s r : ℕ) (post : List Block) where
  abbrev pieces : List Block
  pieces = record { size = s; is_free = true } ∷ record { size = r; is_free = true } ∷ post

  abbrev whole : Block
  whole = record { size = s + (24 + r); is_free = true }

  coalesce-pieces :
      (x : Block) (pre : List Block)
      → Separated (x ∷ (pre ++ whole ∷ post))
      → coalesce x (pre ++ pieces) ≡ x ∷ (pre ++ whole ∷ post)
  unfolding coalesce
  coalesce-pieces x [] h = rw (h.0, coalesce-id whole post h.1)
  coalesce-pieces x (y ∷ pre) h = rw (h.0, coalesce-pieces y pre h.1)

  merge_free-pieces :
      (pre : List Block)
      → Separated (pre ++ whole ∷ post)
      → merge_free (pre ++ pieces) ≡ pre ++ whole ∷ post
  unfolding merge_free coalesce
  merge_free-pieces [] h = coalesce-id whole post h
  merge_free-pieces (x ∷ pre) h = coalesce-pieces x pre h

-- The two pieces of a split block make it up again.
pieces_whole :
    (size : ℕ) (b : Block)
    → b.is_free ≡ true
    → leb (size + 40) b.size ≡ true
    → whole size (b.size - size - 24) [] ≡ b
pieces_whole size b free big = ground arith

taken_whole : (b : Block) → b.is_free ≡ true → record { size = b.size; is_free = true } ≡ b
taken_whole b free = ground arith

-- The block that was taken and what was split off it.
record Taken (size : ℕ) (pre : List Block) (b : Block) (post : List Block) : Type 0 where
  block : Block
  rest : List Block
  carved_eq : carved size b ++ post ≡ block ∷ rest
  merged : merge_free (pre ++ freed block ∷ rest) ≡ pre ++ b ∷ post

taken :
    (size : ℕ) (pre : List Block) (b : Block) (post : List Block)
    → b.is_free ≡ true
    → Separated (pre ++ b ∷ post)
    → Taken size pre b post
unfolding carved
taken size pre b post free sep = elim (Bool-cases (leb (size + 40) b.size)) [
  | inl big ↦
      let back = pieces_whole size b free big in
      record {
        block = record { size = size; is_free = false };
        rest = record { size = b.size - size - 24; is_free = true } ∷ post;
        carved_eq = rw big;
        merged =
            merge_free-pieces size (b.size - size - 24) post pre
              (subst (λ x. Separated (pre ++ x ∷ post)) (sym back) sep)
            ∙ ap (λ x. pre ++ x ∷ post) back;
      }
  | inr small ↦
      let back = taken_whole b free in
      record {
        block = record b { is_free = false };
        rest = post;
        carved_eq = rw small;
        merged =
            merge_free-id (pre ++ record { size = b.size; is_free = true } ∷ post)
              (subst (λ x. Separated (pre ++ x ∷ post)) (sym back) sep)
            ∙ ap (λ x. pre ++ x ∷ post) back;
      }
]

none_fit-FirstFit :
    (size : ℕ) (bs : List Block) → All (λ x. fits size x ≡ false) bs → FirstFit size bs → ⊥
none_fit-FirstFit size bs h at = go at.pre (subst (All (λ x. fits size x ≡ false)) at.split h)
  where
    go : (pre : List Block) → All (λ x. fits size x ≡ false) (pre ++ at.block ∷ at.post) → ⊥
    go [] (miss, r) = ground (arith, at.free, at.enough)
    go (x ∷ pre) (miss, r) = go pre r

module _ (f : Frames) where
  -- Where no two free blocks are neighbours and some free block is large enough, `kfree` of what
  -- `kmalloc` returns ends, and the heap is tiled by the same blocks as before.
  pub kfree-kmalloc :
      (h : Heap f) (bs : List Block) (size : ℕ)
      → IsHeap f h bs
      → Separated bs
      → 0 < size
      → h.heap_end + size + 15 + 24 + 4095 < 2 ^ 64
      → FirstFit (rounded size) bs
      → Ends (λ g. IsHeap f g bs) (kmalloc f size h >>= λ r. kfree f r.0 r.1)
  kfree-kmalloc h bs size i sep pos room some_fit =
      finish (kmalloc f size h) (kmalloc-Allocated f h bs size i pos room)
    where
      back :
          (ptr : ℕ) (g : Heap f)
          → (x : Reused f h bs (rounded size) ptr g) → Ends (λ k. IsHeap f k bs) (kfree f ptr g)
      back ptr g x =
          let t =
            taken (rounded size) x.at.pre x.at.block x.at.post x.at.free
              (subst Separated x.at.split sep) in
          rw x.address (
            Ends-mono (kfree f (heap_start + extent x.at.pre + 24) g)
              (λ k e. subst (IsHeap f k) (t.merged ∙ sym x.at.split) e.after)
              (kfree-Freed f g x.at.pre t.block t.rest
                (subst (λ l. IsHeap f g (x.at.pre ++ l)) t.carved_eq x.after)))

      finish :
          (r : Run (ℕ × Heap f))
          → Allocated f h bs (rounded size) r
          → Ends (λ g. IsHeap f g bs) (r >>= λ r. kfree f r.0 r.1)
      finish (done (ptr, g)) (inl x) = back ptr g x
      finish (done (ptr, g)) (inr x) =
          absurd (none_fit-FirstFit (rounded size) bs x.no_fit some_fit)
      finish halted x = none_fit-FirstFit (rounded size) bs x.0 some_fit
      finish stuck x = x
