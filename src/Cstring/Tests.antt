-- ===== src/Cstring/Tests.antt =====
-- The theorems on strings at concrete inputs.
use miyabi.Base.{ℕ, ◌≡◌, refl, arith, List, [], ◌∷◌, ◌==◌, if◌then◌else◌, inl}
use miyabi.Base.Int.{pos}
use miyabi.Base.Run.{done, Ends}
use miyabi.Cstring.{Memory, strcmp, strcpy, compare_texts}
use miyabi.Cstring.Text.{IsText, strcmp-compare_texts}
use miyabi.Cstring.Copy.{Copied, strcpy-Copied}

-- "dev" at 100, "de" at 200.
abbrev memory : Memory
memory a =
    if a == 100
    then 100
    else (if a == 101
        then 101
        else (if a == 102 then 118 else (if a == 200 then 100 else (if a == 201 then 101 else 0))))

abbrev dev : List ℕ
dev = 100 ∷ 101 ∷ 118 ∷ []

abbrev de : List ℕ
de = 100 ∷ 101 ∷ []

dev-IsText : IsText memory 100 dev
dev-IsText = (refl, omega arith, (refl, omega arith, (refl, omega arith, refl)))

de-IsText : IsText memory 200 de
de-IsText = (refl, omega arith, (refl, omega arith, refl))

strcmp-compare_texts_example : strcmp 4 100 200 memory ≡ done (compare_texts dev de)
strcmp-compare_texts_example =
    strcmp-compare_texts 4 100 200 memory dev de dev-IsText de-IsText (omega arith)

-- The longer text is greater, by its next character.
compare_run : compare_texts dev de ≡ pos 118
unfolding compare_texts
compare_run = refl

strcpy-Copied_example :
    Ends {A = ℕ × Memory} (λ r. (r.0 ≡ 99) × Copied memory 99 dev r.1) (strcpy 4 99 100 memory)
strcpy-Copied_example =
    strcpy-Copied 4 99 100 memory dev dev-IsText (inl (omega arith)) (omega arith)
