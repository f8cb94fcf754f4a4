-- ===== src/Cstring/Copy.antt =====
-- What `memcpy`, `memset` and `strcpy` leave in memory.
use miyabi.Base.{
  ℕ, zero, suc, ◌+◌, ◌<◌, ◌≤◌, ◌≡◌, ◌≢◌, ◌⊎◌, refl, arith, Bool-cases, true, false, List, [], ◌∷◌,
  ◌==◌, update, length, sym, ◌∙◌, u8, inl, inr, update_self, update_ne,
}
use mathlib.Core.Path.{subst}
use miyabi.Base.Run.{Run, done, halted, stuck, Ends, Ends-mono, ◌>>=◌}
use miyabi.Cstring.{Memory, copy_from, memcpy, set_from, memset, strcpy_from, strcpy}
use miyabi.Cstring.Text.{IsText}

pub copy_from_before :
    (n i dest src : ℕ) (memory : Memory) (a : ℕ)
    → (a < dest + i) ⊎ (dest + i + n ≤ a)
    → copy_from n i dest src memory a ≡ memory a
unfolding copy_from
copy_from_before zero i dest src memory a h = refl
copy_from_before (suc n) i dest src memory a h =
    copy_from_before n (i + 1) dest src _ a (omega arith)
    ∙ update_ne memory (dest + i) _ a (omega arith)

pub copy_from_byte :
    (n i dest src : ℕ) (memory : Memory) (k : ℕ)
    → (dest ≤ src) ⊎ (src + i + n ≤ dest)
    → i ≤ k
    → k < i + n
    → copy_from n i dest src memory (dest + k) ≡ memory (src + k)
unfolding copy_from
copy_from_byte zero i dest src memory k apart lo hi = absurd (omega arith)
copy_from_byte (suc n) i dest src memory k apart lo hi = elim (Bool-cases (i == k)) [
  | inl here ↦
      let same : i ≡ k = ground arith in
      copy_from_before n (i + 1) dest src _ (dest + k) (inl (omega arith))
      ∙ subst (λ j. update memory (dest + i) (memory (src + i)) (dest + j) ≡ memory (src + j)) same
          (update_self memory (dest + i) _)
  | inr there ↦
      let lt : i < k = ground arith in
      copy_from_byte n (i + 1) dest src _ k (omega arith) (omega arith) (omega arith)
      ∙ update_ne memory (dest + i) _ (src + k) (omega arith)
]

-- Where the source does not start below the destination, or ends before it starts, `memcpy` returns
-- the destination, its `n` bytes are those of the source before the call, and no other byte of
-- memory changes.
pub memcpy_lem :
    (dest src n : ℕ) (memory : Memory)
    → (dest ≤ src) ⊎ (src + n ≤ dest)
    → ((memcpy dest src n memory).0 ≡ dest)
      × ((k : ℕ) → k < n → (memcpy dest src n memory).1 (dest + k) ≡ memory (src + k))
      × ((a : ℕ) → (a < dest) ⊎ (dest + n ≤ a) → (memcpy dest src n memory).1 a ≡ memory a)
unfolding memcpy
memcpy_lem dest src n memory apart = (
  refl,
  (λ k lt. copy_from_byte n 0 dest src memory k (omega arith) (omega arith) (omega arith)),
  (λ a out. copy_from_before n 0 dest src memory a (omega arith)),
)

pub set_from_out :
    (n i s c : ℕ) (memory : Memory) (a : ℕ)
    → (a < s + i) ⊎ (s + i + n ≤ a)
    → set_from n i s c memory a ≡ memory a
unfolding set_from
set_from_out zero i s c memory a h = refl
set_from_out (suc n) i s c memory a h =
    set_from_out n (i + 1) s c _ a (omega arith) ∙ update_ne memory (s + i) _ a (omega arith)

pub set_from_byte :
    (n i s c : ℕ) (memory : Memory) (k : ℕ)
    → i ≤ k
    → k < i + n
    → set_from n i s c memory (s + k) ≡ u8 c
unfolding set_from
set_from_byte zero i s c memory k lo hi = absurd (omega arith)
set_from_byte (suc n) i s c memory k lo hi = elim (Bool-cases (i == k)) [
  | inl here ↦
      let same : i ≡ k = ground arith in
      set_from_out n (i + 1) s c _ (s + k) (inl (omega arith))
      ∙ subst (λ j. update memory (s + i) (u8 c) (s + j) ≡ u8 c) same (update_self memory (s + i) _)
  | inr there ↦ set_from_byte n (i + 1) s c _ k (ground arith) (omega arith)
]

-- `memset` returns its first argument; each of the `n` bytes from there on is the low byte of `c`,
-- and no other byte changes.
pub memset_lem :
    (s c n : ℕ) (memory : Memory)
    → ((memset s c n memory).0 ≡ s)
      × ((k : ℕ) → k < n → (memset s c n memory).1 (s + k) ≡ u8 c)
      × ((a : ℕ) → (a < s) ⊎ (s + n ≤ a) → (memset s c n memory).1 a ≡ memory a)
unfolding memset
memset_lem s c n memory = (
  refl,
  (λ k lt. set_from_byte n 0 s c memory k (omega arith) (omega arith)),
  (λ a out. set_from_out n 0 s c memory a (omega arith)),
)

IsText-update :
    (memory : Memory) (a v s : ℕ) (xs : List ℕ)
    → (a < s) ⊎ (s + length xs < a)
    → IsText memory s xs
    → IsText (update memory a v) s xs
IsText-update memory a v s [] out t = update_ne memory a v s (omega arith) ∙ t
IsText-update memory a v s (x ∷ xs) out t = (
  update_ne memory a v s (omega arith) ∙ t.0,
  t.1,
  IsText-update memory a v (s + 1) xs (omega arith) t.2,
)

-- What a copy of the text `xs` to `dest` leaves.
pub record Copied (memory : Memory) (dest : ℕ) (xs : List ℕ) (new : Memory) : Type 0 where
  pub text : IsText new dest xs
  pub others : (a : ℕ) → (a < dest) ⊎ (dest + length xs < a) → new a ≡ memory a

strcpy_step :
    (n dest src : ℕ) (memory : Memory)
    → memory src ≢ 0
    → strcpy_from (suc n) dest src memory
      ≡ strcpy_from n (dest + 1) (src + 1) (update memory dest (memory src))
unfolding strcpy_from
strcpy_step n dest src memory ne =
    let t : (memory src == 0) ≡ false = ground arith in rw (strcpy_from, t)

strcpy_end :
    (n dest src : ℕ) (memory : Memory)
    → memory src ≡ 0
    → strcpy_from (suc n) dest src memory ≡ done (update memory dest (memory src))
unfolding strcpy_from
strcpy_end n dest src memory z =
    let t : (memory src == 0) ≡ true = ground arith in rw (strcpy_from, t)

strcpy_from-Copied :
    (n dest src : ℕ) (memory : Memory) (xs : List ℕ)
    → IsText memory src xs
    → (dest ≤ src) ⊎ (src + length xs < dest)
    → length xs < n
    → Ends (Copied memory dest xs) (strcpy_from n dest src memory)
strcpy_from-Copied zero dest src memory xs t apart fuel = absurd (omega arith)
strcpy_from-Copied (suc n) dest src memory [] t apart fuel =
    subst (Ends (Copied memory dest [])) (sym (strcpy_end n dest src memory t)) (record {
      text = update_self memory dest (memory src) ∙ t;
      others = λ a out. update_ne memory dest (memory src) a (omega arith);
    })
strcpy_from-Copied (suc n) dest src memory (x ∷ xs) t apart fuel =
    subst (Ends (Copied memory dest (x ∷ xs)))
      (sym (strcpy_step n dest src memory (λ z. t.1 (sym t.0 ∙ z))))
      (Ends-mono (strcpy_from n (dest + 1) (src + 1) written)
        (λ new c. record {
          text = (
            c.others dest (omega arith) ∙ update_self memory dest (memory src) ∙ t.0,
            t.1,
            c.text,
          );
          others = λ a out.
              c.others a (omega arith) ∙ update_ne memory dest (memory src) a (omega arith);
        })
        (strcpy_from-Copied n (dest + 1) (src + 1) written xs
          (IsText-update memory dest (memory src) (src + 1) xs (omega arith) t.2) (omega arith)
          (omega arith)))
  where
    written : Memory
    written = update memory dest (memory src)

-- `strcpy` of a text that starts no lower than the destination, or ends before it, ends, given more
-- rounds than the text has characters. It returns the destination, where the text stands then with
-- its zero, and no byte outside of it has changed.
pub strcpy-Copied :
    (n dest src : ℕ) (memory : Memory) (xs : List ℕ)
    → IsText memory src xs
    → (dest ≤ src) ⊎ (src + length xs < dest)
    → length xs < n
    → Ends {A = ℕ × Memory}
        (λ r. (r.0 ≡ dest) × Copied memory dest xs r.1)
        (strcpy n dest src memory)
unfolding strcpy
strcpy-Copied n dest src memory xs t apart fuel =
    finish (strcpy_from n dest src memory) (strcpy_from-Copied n dest src memory xs t apart fuel)
  where
    finish :
        (e : Run Memory)
        → Ends (Copied memory dest xs) e
        → Ends {A = ℕ × Memory}
            (λ r. (r.0 ≡ dest) × Copied memory dest xs r.1)
            (e >>= λ written. done (dest, written))
    finish (done new) c = (refl, c)
    finish halted c = c
    finish stuck c = c
