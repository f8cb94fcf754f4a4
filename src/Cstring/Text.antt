-- ===== src/Cstring/Text.antt =====
-- `strlen` and `strcmp` on texts in memory, and equality of texts.
use miyabi.Base.{
  ℕ, zero, suc, ◌+◌, ◌<◌, ◌≡◌, ◌≢◌, ◌↔◌, refl, arith, true, List, [], ◌∷◌, length, All, ap, ◌∙◌,
}
use mathlib.Core.Path.{subst}
use miyabi.Base.Run.{done}
use miyabi.Cstring.{Memory, strlen_from, strlen, strcmp, compare_texts, same_text}

-- From address `s` the memory holds the characters of `xs` and a zero behind them.
abbrev pub IsText : Memory → ℕ → List ℕ → Type 0
IsText memory s [] = memory s ≡ 0
IsText memory s (x ∷ xs) = (memory s ≡ x) × (x ≢ 0) × IsText memory (s + 1) xs

-- No character is the terminating zero.
abbrev pub NoZero : List ℕ → Type 0
NoZero = All (λ x. x ≢ 0)

strlen_from_lem :
    (n len s : ℕ) (memory : Memory) (xs : List ℕ)
    → IsText memory (s + len) xs
    → length xs < n
    → strlen_from n len s memory ≡ done (len + length xs)
unfolding strlen_from
strlen_from_lem zero len s memory xs t fuel = absurd (omega arith)
strlen_from_lem (suc n) len s memory [] t fuel = ground arith
strlen_from_lem (suc n) len s memory (x ∷ xs) t fuel =
    let at : s + len + 1 ≡ s + (len + 1) = omega arith in
    ground (arith, strlen_from_lem n (len + 1) s memory xs (subst (λ a. IsText memory a xs) at t.2))

-- `strlen` of a text in memory ends with its number of characters, given more rounds than that.
pub strlen-IsText :
    (n s : ℕ) (memory : Memory) (xs : List ℕ)
    → IsText memory s xs
    → length xs < n
    → strlen n s memory ≡ done (length xs)
unfolding strlen
strlen-IsText n s memory xs t fuel =
    strlen_from_lem n 0 s memory xs (subst (λ a. IsText memory a xs) (omega arith) t) fuel
    ∙ ap done (omega arith)

-- `strcmp` of two texts in memory ends, given more rounds than the first has characters, and is
-- the comparison of the two lists.
pub strcmp-compare_texts :
    (n s1 s2 : ℕ) (memory : Memory) (xs ys : List ℕ)
    → IsText memory s1 xs
    → IsText memory s2 ys
    → length xs < n
    → strcmp n s1 s2 memory ≡ done (compare_texts xs ys)
unfolding strcmp compare_texts
strcmp-compare_texts zero s1 s2 memory xs ys t u fuel = absurd (omega arith)
strcmp-compare_texts (suc n) s1 s2 memory [] [] t u fuel = ground arith
strcmp-compare_texts (suc n) s1 s2 memory [] (y ∷ ys) t u fuel = ground arith
strcmp-compare_texts (suc n) s1 s2 memory (x ∷ xs) [] t u fuel = ground arith
strcmp-compare_texts (suc n) s1 s2 memory (x ∷ xs) (y ∷ ys) t u fuel =
    ground (arith, strcmp-compare_texts n (s1 + 1) (s2 + 1) memory xs ys t.2 u.2)

-- The comparison of two texts without zeros is 0 exactly when they are equal.
pub same_text_iff : (xs ys : List ℕ) → NoZero xs → NoZero ys → (same_text xs ys ≡ true) ↔ (xs ≡ ys)
unfolding same_text compare_texts
same_text_iff [] [] h k = ((λ _. refl), λ _. refl)
same_text_iff [] (y ∷ ys) h k = ground arith
same_text_iff (x ∷ xs) [] h k = ground arith
same_text_iff (x ∷ xs) (y ∷ ys) h k = ground (arith, same_text_iff xs ys h.1 k.1)
