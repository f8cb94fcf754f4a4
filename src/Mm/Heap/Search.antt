-- ===== src/Mm/Heap/Search.antt =====
-- The walk of `kmalloc` over a laid-out heap.
use miyabi.Base.{
  ℕ, zero, suc, ◌+◌, ◌<◌, ◌≡◌, refl, arith, false, List, [], ◌∷◌, if◌then◌else◌, ap, Bool-cases,
  inl, inr, length, All,
}
use miyabi.Base.Run.{done}
use miyabi.Mm.Heap.{Cells, Walk, fit, full, walk}
use miyabi.Mm.Heap.Blocks.{Block, extent, fits, FirstFit}
use miyabi.Mm.Heap.Layout.{Layout, link_to}

-- The walk over the list of blocks.
pub search_blocks : ℕ → ℕ → ℕ → List Block → Walk
search_blocks size p last [] = full last
search_blocks size p last (b ∷ bs) =
    if fits size b then fit p else search_blocks size (p + 24 + b.size) p bs

abbrev pub last_block : ℕ → ℕ → List Block → ℕ
last_block p last [] = last
last_block p last (b ∷ bs) = last_block (p + 24 + b.size) p bs

pub walk-search_blocks :
    (n : ℕ) (cells : Cells) (size p last : ℕ) (bs : List Block) (stop : ℕ)
    → Layout cells p bs stop
    → 0 < p
    → length bs < n
    → walk n cells size last (link_to p bs) ≡ done (search_blocks size p last bs)
unfolding walk search_blocks
walk-search_blocks zero cells size p last bs stop l pos fuel = absurd (omega arith)
walk-search_blocks (suc n) cells size p last [] stop l pos fuel = refl
walk-search_blocks (suc n) cells size p last (b ∷ bs) stop l pos fuel = ground (
  arith,
  l.0,
  walk-search_blocks n cells size (p + 24 + b.size) p bs stop l.1 (omega arith) (omega arith),
)

-- Where the search ends.
abbrev pub Ended : ℕ → ℕ → ℕ → List Block → Walk → Type 0
Ended size p last bs (fit a) = (f : FirstFit size bs) × (a ≡ p + extent f.pre)
Ended size p last bs (full a) = All (λ x. fits size x ≡ false) bs × (a ≡ last_block p last bs)

Ended-cons :
    (size p last : ℕ) (b : Block) (bs : List Block)
    → fits size b ≡ false
    → (w : Walk) → Ended size (p + 24 + b.size) p bs w
    → Ended size p last (b ∷ bs) w
Ended-cons size p last b bs miss (fit a) (f, e) = (
  record {
    pre = b ∷ f.pre;
    block = f.block;
    post = f.post;
    split = ap (λ l. b ∷ l) f.split;
    free = f.free;
    enough = f.enough;
    none_before = (miss, f.none_before);
  },
  omega (arith, e),
)
Ended-cons size p last b bs miss (full a) (none_fit, e) = ((miss, none_fit), e)

pub search_blocks-Ended :
    (size p last : ℕ) (bs : List Block) → Ended size p last bs (search_blocks size p last bs)
unfolding search_blocks
search_blocks-Ended size p last [] = (tt, refl)
search_blocks-Ended size p last (b ∷ bs) = elim (Bool-cases (fits size b)) [
  | inl hit ↦ rw hit (
    record {
      pre = [];
      block = b;
      post = bs;
      split = refl;
      free = ground arith;
      enough = ground arith;
      none_before = tt;
    },
    omega arith,
  )
  | inr miss ↦ rw miss (
      Ended-cons size p last b bs miss (search_blocks size (p + 24 + b.size) p bs)
        (search_blocks-Ended size (p + 24 + b.size) p bs))
]
