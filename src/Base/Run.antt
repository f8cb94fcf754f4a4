-- ===== src/Base/Run.antt =====
-- The outcome of code that may halt the machine, and whose loops run on fuel.

-- `halted` is `for (;;) hlt`, `stuck` is fuel run out.
pub data Run {ℓ} (A : Type ℓ) : Type ℓ where
  done : A → Run A
  halted : Run A
  stuck : Run A

infixl 5 ◌>>=◌
abbrev pub ◌>>=◌ {ℓ κ} : {A : Type ℓ} {B : Type κ} → Run A → (A → Run B) → Run B
done a >>= f = f a
halted >>= f = halted
stuck >>= f = stuck

-- The code ends without a halt, with a result of which `P` holds.
abbrev pub Ends {ℓ} : {A : Type ℓ} → (A → Type 0) → Run A → Type 0
Ends P (done a) = P a
Ends P halted = ⊥
Ends P stuck = ⊥

pub Ends-mono {ℓ} :
    {A : Type ℓ} {P Q : A → Type 0} (r : Run A) → ((a : A) → P a → Q a) → Ends P r → Ends Q r
Ends-mono (done a) weaken p = weaken a p
Ends-mono halted weaken p = p
Ends-mono stuck weaken p = p
