-- ===== src/Fs/Initramfs/Octal.antt =====
-- `oct2bin` reads back what is written in octal.
use miyabi.Base.{
  ℕ, zero, suc, ◌+◌, ◌-◌, ◌*◌, ◌^◌, ◌≤◌, ◌<◌, ◌≡◌, refl, arith, true, ◌&&◌, ◌||◌, List, [], ◌∷◌,
  ◌++◌, leb, ◌==◌, All, map, replicate, ap, ◌∙◌, u64,
}
use miyabi.Fs.Initramfs.{skip_blanks, read_digits, oct2bin}

-- The number with the octal digits `ds` behind those of `n`.
unfoldable pub octal : ℕ → List ℕ → ℕ
octal n [] = n
octal n (d ∷ ds) = octal (n * 8 + d) ds

octal_le : (n : ℕ) (ds : List ℕ) → n ≤ octal n ds
unfolding octal
octal_le n [] = omega arith
octal_le n (d ∷ ds) = omega (arith, octal_le (n * 8 + d) ds)

-- What ends a number: no more characters, a blank or a zero.
abbrev pub Ended : List ℕ → Type 0
Ended [] = Unit
Ended (c ∷ cs) = ((c == 32) || (c == 0)) ≡ true

-- The characters of digits.
abbrev pub digits : List ℕ → List ℕ
digits ds = map (λ d. d + 48) ds

read_digits-digits :
    (n : ℕ) (ds rest : List ℕ)
    → All (λ d. d < 8) ds
    → Ended rest
    → octal n ds < 2 ^ 64
    → read_digits n (digits ds ++ rest) ≡ octal n ds
unfolding read_digits octal
read_digits-digits n [] [] h stop small = refl
read_digits-digits n [] (c ∷ cs) h stop small = ground arith
read_digits-digits n (d ∷ ds) rest h stop small =
    let digit : (leb 48 (d + 48) && leb (d + 48) 55) ≡ true = ground (arith, h.0) in
    let next : u64 (n * 8 + (d + 48 - 48)) ≡ n * 8 + d = omega (arith, octal_le (n * 8 + d) ds) in
    rw (digit, next) (read_digits-digits (n * 8 + d) ds rest h.1 stop small)

skip_blanks-replicate :
    (k : ℕ) (d : ℕ) (cs : List ℕ)
    → d < 8
    → skip_blanks (replicate k 32 ++ (d + 48) ∷ cs) ≡ (d + 48) ∷ cs
unfolding skip_blanks
skip_blanks-replicate zero d cs h = ground arith
skip_blanks-replicate (suc k) d cs h = skip_blanks-replicate k d cs h

-- A field of spaces, octal digits and then nothing more, a space or a zero, whatever follows, is read
-- as the number that its digits write, where that fits 64 bits.
pub oct2bin-digits :
    (k d : ℕ) (ds rest : List ℕ)
    → All (λ d. d < 8) (d ∷ ds)
    → Ended rest
    → octal 0 (d ∷ ds) < 2 ^ 64
    → oct2bin (replicate k 32 ++ (digits (d ∷ ds) ++ rest)) ≡ octal 0 (d ∷ ds)
unfolding oct2bin
oct2bin-digits k d ds rest h stop small =
    ap (read_digits 0) (skip_blanks-replicate k d (digits ds ++ rest) h.0)
    ∙ read_digits-digits 0 (d ∷ ds) rest h stop small
