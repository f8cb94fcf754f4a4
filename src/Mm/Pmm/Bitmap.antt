-- ===== src/Mm/Pmm/Bitmap.antt =====
-- What one bit operation of the bitmap does to every page.
use miyabi.Base.{
  ℕ, ltb, ltb→lt, ◌-◌, ◌/◌, ◌%◌, ◌^◌, ◌<◌, ◌≡◌, refl, bit_and, bit_or, arith, Bool, true, false,
  not, ◌&&◌, ◌||◌, ◌==◌, holds_below, holds_below_sound,
}
use miyabi.Mm.Pmm.{Bitmap, bitmap_set, bitmap_clear, bitmap_test}

-- Every entry is a `uint8_t`.
pub record IsBytes (bitmap : Bitmap) : Type 0 where
  pub byte : (i : ℕ) → bitmap i < 256

abbrev same : Bool → Bool → Bool
same true b = b
same false b = not b

abbrev bit : ℕ → ℕ → Bool
bit b k = not (bit_and b (2 ^ k) == 0)

abbrev set_row : ℕ → ℕ → ℕ → Bool
set_row b k j =
    (same (bit (bit_or b (2 ^ k)) j) ((k == j) || bit b j)
      && same (bit (bit_and b (255 - 2 ^ k)) j) (not (k == j) && bit b j))

abbrev bit_rows : ℕ → Bool
bit_rows b = holds_below 8 λ k. holds_below 8 λ j. set_row b k j

-- All bytes, all bits.
bit_table : holds_below 256 bit_rows ≡ true
unfolding holds_below
bit_table = refl

same_sound : (a b : Bool) → same a b ≡ true → a ≡ b
same_sound a b h = ground arith

bit_row : (b k j : ℕ) → b < 256 → k < 8 → j < 8 → set_row b k j ≡ true
bit_row b k j hb hk hj =
    holds_below_sound 8 (λ j. set_row b k j) j
      (holds_below_sound 8 (λ k. holds_below 8 λ j. set_row b k j) k
        (holds_below_sound 256 bit_rows b bit_table hb) hk)
      hj

and_left : (a b : Bool) → (a && b) ≡ true → (a ≡ true) × (b ≡ true)
and_left a b h = ground arith

bit-or : (b k j : ℕ) → b < 256 → k < 8 → j < 8 → bit (bit_or b (2 ^ k)) j ≡ ((k == j) || bit b j)
bit-or b k j hb hk hj = same_sound _ _ (and_left _ _ (bit_row b k j hb hk hj)).0

bit-and :
    (b k j : ℕ)
    → b < 256
    → k < 8
    → j < 8
    → bit (bit_and b (255 - 2 ^ k)) j ≡ (not (k == j) && bit b j)
bit-and b k j hb hk hj = same_sound _ _ (and_left _ _ (bit_row b k j hb hk hj)).1

bytes_table :
    holds_below 256
      (λ b. holds_below 8 λ k. ltb (bit_or b (2 ^ k)) 256 && ltb (bit_and b (255 - 2 ^ k)) 256)
    ≡ true
unfolding holds_below
bytes_table = refl

bytes_row : (b k : ℕ) → b < 256 → k < 8 → (bit_or b (2 ^ k) < 256) × (bit_and b (255 - 2 ^ k) < 256)
bytes_row b k hb hk =
    let r = and_left _ _ (holds_below_sound 8 _ k (holds_below_sound 256 _ b bytes_table hb) hk) in
    (ltb→lt _ _ r.0, ltb→lt _ _ r.1)

module _ {bitmap : Bitmap} (h : IsBytes bitmap) (page : ℕ) where
  pub bitmap_set-IsBytes : IsBytes (bitmap_set bitmap page)
  unfolding bitmap_set
  bitmap_set-IsBytes = record {
    byte = λ i. ground (
      arith,
      h.byte i,
      h.byte (page / 8),
      (bytes_row (bitmap (page / 8)) (page % 8) (h.byte (page / 8)) (omega arith)).0,
    );
  }

  pub bitmap_clear-IsBytes : IsBytes (bitmap_clear bitmap page)
  unfolding bitmap_clear
  bitmap_clear-IsBytes = record {
    byte = λ i. ground (
      arith,
      h.byte i,
      h.byte (page / 8),
      (bytes_row (bitmap (page / 8)) (page % 8) (h.byte (page / 8)) (omega arith)).1,
    );
  }

  pub test-set :
      (q : ℕ) → bitmap_test (bitmap_set bitmap page) q ≡ ((page == q) || bitmap_test bitmap q)
  unfolding bitmap_set bitmap_test
  test-set q = ground (
    arith,
    h.byte (page / 8),
    bit-or (bitmap (page / 8)) (page % 8) (q % 8) (h.byte (page / 8)) (omega arith) (omega arith),
  )

  pub test-clear :
      (q : ℕ) → bitmap_test (bitmap_clear bitmap page) q ≡ (not (page == q) && bitmap_test bitmap q)
  unfolding bitmap_clear bitmap_test
  test-clear q = ground (
    arith,
    h.byte (page / 8),
    bit-and (bitmap (page / 8)) (page % 8) (q % 8) (h.byte (page / 8)) (omega arith) (omega arith),
  )
