-- ===== src/Mm/Heap/Layout.antt =====
-- The block headers in memory against the list of blocks, and the writes of heap.c to them.
use miyabi.Base.{
  ℕ, ◌+◌, ◌-◌, ◌^◌, ◌≤◌, ◌<◌, ◌≡◌, refl, arith, true, false, List, [], ◌∷◌, ◌++◌, leb, ap, sym, ◌∙◌,
  Bool-cases, inl, inr,
}
use mathlib.Core.Path.{subst}
use native.Mathlib.Nat.{add-zero}
use miyabi.Mm.Heap.{Header, Cells, carve}
use miyabi.Mm.Heap.Blocks.{Block, extent, carved, extent-append}

-- The address that a link to `bs`, which start at `p`, holds.
abbrev pub link_to : ℕ → List Block → ℕ
link_to p [] = 0
link_to p (b ∷ bs) = p

-- From `p` to `stop` the memory is tiled by the blocks, each header linked to the next.
abbrev pub Layout : Cells → ℕ → List Block → ℕ → Type 0
Layout cells p [] stop = p ≡ stop
Layout cells p (b ∷ bs) stop =
    (cells p ≡ record { size = b.size; is_free = b.is_free; next = link_to (p + 24 + b.size) bs })
    × Layout cells (p + 24 + b.size) bs stop

pub Layout-extent :
    (cells : Cells) (p : ℕ) (bs : List Block) (stop : ℕ)
    → Layout cells p bs stop
    → p + extent bs ≡ stop
Layout-extent cells p [] stop l = omega arith
Layout-extent cells p (b ∷ bs) stop l =
    omega (arith, Layout-extent cells (p + 24 + b.size) bs stop l.1)

-- Writes below `p` do not matter.
pub Layout-frame :
    (old new : Cells) (p : ℕ) (bs : List Block) (stop : ℕ)
    → ((q : ℕ) → p ≤ q → q < stop → new q ≡ old q)
    → Layout old p bs stop
    → Layout new p bs stop
Layout-frame old new p [] stop same l = l
Layout-frame old new p (b ∷ bs) stop same l = (
  same p (omega arith) (omega (arith, Layout-extent old (p + 24 + b.size) bs stop l.1)) ∙ l.0,
  Layout-frame old new (p + 24 + b.size) bs stop (λ q h. same q (omega arith)) l.1,
)

carve_below :
    (cells : Cells) (a size q : ℕ) → q < a → a + 24 + size < 2 ^ 64 → carve cells a size q ≡ cells q
unfolding carve
carve_below cells a size q lt small = ground arith

carve_above :
    (cells : Cells) (a size q s : ℕ)
    → (cells a).size ≡ s
    → 64 ≤ a
    → a + 24 + s ≤ q
    → size ≤ s
    → q < 2 ^ 64
    → carve cells a size q ≡ cells q
unfolding carve
carve_above cells a size q s e low h k l = ground arith

module _ (cells : Cells) (a size : ℕ) (b : Block) (next : ℕ)
    (e : cells a ≡ record { size = b.size; is_free = b.is_free; next = next }) (low : 64 ≤ a)
    (small : a + 24 + b.size < 2 ^ 64) (k : size ≤ b.size) where
  carve_split :
      leb (size + 40) b.size ≡ true
      → (carve cells a size a ≡ record { size = size; is_free = false; next = a + 24 + size })
        × (carve cells a size (a + 24 + size)
            ≡ record { size = b.size - size - 24; is_free = true; next = next })
  unfolding carve
  carve_split big = ground arith

  carve_whole :
      leb (size + 40) b.size ≡ false
      → carve cells a size a ≡ record { size = b.size; is_free = false; next = next }
  unfolding carve
  carve_whole big = ground arith

carve-Layout_head :
    (cells : Cells) (a size : ℕ) (b : Block) (post : List Block) (stop : ℕ)
    → Layout cells a (b ∷ post) stop
    → 64 ≤ a
    → size ≤ b.size
    → stop < 2 ^ 64
    → Layout (carve cells a size) a (carved size b ++ post) stop
unfolding carved
carve-Layout_head cells a size b post stop l low k small =
    elim (Bool-cases (leb (size + 40) b.size)) [
      | inl big ↦
          let c = carve_split cells a size b _ l.0 low fits k big in
          let at : a + 24 + size + 24 + (b.size - size - 24) ≡ a + 24 + b.size = ground arith in
          rw big (c.0, (rw at c.1, rw at rest))
      | inr whole ↦ rw whole (carve_whole cells a size b _ l.0 low fits k whole, rest)
    ]
  where
    fits : a + 24 + b.size < 2 ^ 64
    fits = omega (arith, Layout-extent cells (a + 24 + b.size) post stop l.1)

    rest : Layout (carve cells a size) (a + 24 + b.size) post stop
    rest =
        Layout-frame cells (carve cells a size) (a + 24 + b.size) post stop
          (λ q h lt.
            carve_above cells a size q b.size (ap (λ (c : Header). c.size) l.0) low h k
              (omega arith))
          l.1

link_to-carved :
    (q size : ℕ) (pre : List Block) (b : Block) (post : List Block)
    → link_to q (pre ++ b ∷ post) ≡ link_to q (pre ++ (carved size b ++ post))
unfolding carved
link_to-carved q size [] b post = ground arith
link_to-carved q size (x ∷ pre) b post = refl

-- `carve` at a block behind `pre`.
pub carve-Layout :
    (cells : Cells) (p size : ℕ) (pre : List Block) (b : Block) (post : List Block) (stop : ℕ)
    → Layout cells p (pre ++ b ∷ post) stop
    → 64 ≤ p
    → size ≤ b.size
    → stop < 2 ^ 64
    → Layout (carve cells (p + extent pre) size) p (pre ++ (carved size b ++ post)) stop
carve-Layout cells p size [] b post stop l low k small =
    rw add-zero (carve-Layout_head cells p size b post stop l low k small)
carve-Layout cells p size (x ∷ pre) b post stop l low k small = (
  carve_below cells (p + (24 + x.size + extent pre)) size p (omega arith) (
        omega (
          arith,
          Layout-extent cells p (x ∷ (pre ++ b ∷ post)) stop l,
          extent-append pre (b ∷ post),
        ))
      ∙ l.0
      ∙ ap (λ n. record { size = x.size; is_free = x.is_free; next = n })
          (link_to-carved (p + 24 + x.size) size pre b post),
  subst (λ n. Layout (carve cells n size) (p + 24 + x.size) (pre ++ (carved size b ++ post)) stop)
      (sym at)
      (carve-Layout cells (p + 24 + x.size) size pre b post stop l.1 (omega arith) k small),
)
  where
    at : p + (24 + x.size + extent pre) ≡ p + 24 + x.size + extent pre
    at = omega arith
