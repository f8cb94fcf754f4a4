-- ===== src/Modules/Elf/Bytes.antt =====
-- Numbers as bytes of memory: what is stored is loaded again, and nothing else changes.
use miyabi.Base.{
  ℕ, zero, suc, ◌+◌, ◌*◌, ◌/◌, ◌%◌, ◌^◌, ◌≤◌, ◌<◌, ◌≡◌, ◌⊎◌, refl, arith, ◌∙◌, update, update_self,
  update_ne, u8,
}
use native.Mathlib.Numerals.{unary_clauses}
use miyabi.Modules.Elf.{Memory, load, store}

pub store_other : (n : ℕ) (m : Memory) (a v b : ℕ) → (b < a) ⊎ (a + n ≤ b) → store n m a v b ≡ m b
unfolding store
store_other zero m a v b h = refl
store_other (suc n) m a v b h =
    store_other n _ (a + 1) (v / 256) b (omega arith) ∙ update_ne m a (u8 v) b (omega arith)

pub load_same :
    (n : ℕ) (m m' : Memory) (a : ℕ)
    → ((b : ℕ) → a ≤ b → b < a + n → m' b ≡ m b)
    → load n m' a ≡ load n m a
unfolding load
load_same zero m m' a h = refl
load_same (suc n) m m' a h =
    let here : m' a ≡ m a = h a (omega arith) (omega arith) in
    let rest = load_same n m m' (a + 1) (λ b lo hi. h b (omega arith) (omega arith)) in
    rw (here, rest)

-- A number of `n` bytes that is stored is loaded again.
pub load-store : (n : ℕ) (m : Memory) (a v : ℕ) → v < 256 ^ n → load n (store n m a v) a ≡ v
unfolding load store
load-store zero m a v lt = omega (arith, lt)
load-store (suc n) m a v lt =
    let low : store n (update m a (u8 v)) (a + 1) (v / 256) a ≡ v % 256 =
      store_other n _ (a + 1) (v / 256) a (omega arith) ∙ update_self m a (u8 v) in
    let below : v < 256 ^ n * 256 = simp unary_clauses at lt in
    let high = load-store n (update m a (u8 v)) (a + 1) (v / 256) (omega (arith, below)) in
    rw (low, high) (omega arith)
