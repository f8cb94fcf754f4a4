-- ===== src/Mm/Heap/Blocks.antt =====
-- The heap as the list of its blocks in address order: first fit, splitting and merging.
use miyabi.Base.{
  ℕ, ◌+◌, ◌-◌, ◌*◌, ◌/◌, ◌≤◌, ◌≡◌, arith, Bool, true, false, ◌&&◌, List, [], ◌∷◌, ◌++◌, leb,
  if◌then◌else◌, All,
}

pub record Block : Type 0 where
  pub size : ℕ
  pub is_free : Bool

-- The bytes that blocks take, headers included.
abbrev pub extent : List Block → ℕ
extent [] = 0
extent (b ∷ bs) = 24 + b.size + extent bs

abbrev pub fits : ℕ → Block → Bool
fits size b = b.is_free && leb size b.size

-- What taking `size` bytes of a block leaves in its place.
unfoldable pub carved : ℕ → Block → List Block
carved size b =
    if leb (size + 40) b.size
    then record { size = size; is_free = false }
      ∷ record { size = b.size - size - 24; is_free = true }
      ∷ []
    else record b { is_free = false } ∷ []

pub extent-append : (xs ys : List Block) → extent (xs ++ ys) ≡ extent xs + extent ys
extent-append [] ys = omega arith
extent-append (x ∷ xs) ys = omega (arith, extent-append xs ys)

-- The first block that fits, with the blocks before it and after it.
pub record FirstFit (size : ℕ) (bs : List Block) : Type 0 where
  pub pre : List Block
  pub block : Block
  pub post : List Block
  pub split : bs ≡ pre ++ block ∷ post
  pub free : block.is_free ≡ true
  pub enough : size ≤ block.size
  pub none_before : All (λ x. fits size x ≡ false) pre

-- What a request of `size` bytes is rounded up to.
abbrev pub rounded : ℕ → ℕ
rounded size = (size + 15) / 16 * 16

-- The size of the pages that hold a block of `size` bytes.
abbrev pub paged : ℕ → ℕ
paged size = (size + 24 + 4095) / 4096 * 4096

-- Merges `b` with the free blocks behind it, if it is free itself, and so on from the next block.
unfoldable pub coalesce : Block → List Block → List Block
coalesce b [] = b ∷ []
coalesce b (c ∷ bs) =
    let merged = coalesce (record b { size = b.size + (24 + c.size) }) bs in
    let kept = b ∷ coalesce c bs in if b.is_free && c.is_free then merged else kept

unfoldable pub merge_free : List Block → List Block
unfolding coalesce
merge_free [] = []
merge_free (b ∷ bs) = coalesce b bs

abbrev pub freed : Block → Block
freed b = record b { is_free = true }

-- No two free blocks are neighbours.
abbrev pub Separated : List Block → Type 0
Separated [] = Unit
Separated (b ∷ []) = Unit
Separated (b ∷ c ∷ bs) = ((b.is_free && c.is_free) ≡ false) × Separated (c ∷ bs)
