-- ===== src/Mm/Vmm/Tree.antt =====
-- The invariant of the page tables: they are a tree, each at one place, and apart from free pages.
use miyabi.Base.{
  sym, ap, ℕ, zero, suc, ◌+◌, ◌%◌, ◌^◌, ◌≤◌, ◌<◌, ◌≡◌, ◌≢◌, ◌⊎◌, refl, arith, true, false, Option,
  some, List, [], ◌∷◌, ◌==◌, length, update, update_self, update_ne, ◌∙◌, inl, inr, Bool-cases, u64,
}
use miyabi.Mm.Vmm.{PageSource, Vmm, cell, is_present, frame_of, clear_entries}
use miyabi.Mm.Vmm.Walk.{is_large, entry_of}

-- What a page allocator promises: `Free s a` says that the page at `a` is free.
pub record PageLaws (f : PageSource) (hhdm_offset : ℕ) : Type 1 where
  pub Free : f.State → ℕ → Type 0
  pub given : (s : f.State) → (f.alloc s).0 ≢ 0 → Free s (f.alloc s).0
  pub taken : (s : f.State) (a : ℕ) → Free (f.alloc s).1 a → Free s a
  pub not_given : (s : f.State) → (f.alloc s).0 ≢ 0 → Free (f.alloc s).1 (f.alloc s).0 → ⊥
  pub aligned : (s : f.State) (a : ℕ) → Free s a → a % 4096 ≡ 0
  pub reached : (s : f.State) (a : ℕ) → Free s a → a + hhdm_offset + 4096 ≤ 2 ^ 64

-- The allocator after `n` calls.
unfoldable pub allocs : (f : PageSource) → ℕ → f.State → f.State
allocs f zero s = s
allocs f (suc n) s = allocs f n (f.alloc s).1

-- `t` is the allocator after at most `n` calls from `s` on.
pub record Took (f : PageSource) (s t : f.State) (n : ℕ) : Type 0 where
  pub calls : ℕ
  pub bound : calls ≤ n
  pub result : t ≡ allocs f calls s

-- One of the next `n` calls finds no page.
pub record NoPage (f : PageSource) (s : f.State) (n : ℕ) : Type 0 where
  pub calls : ℕ
  pub bound : calls < n
  pub result : (f.alloc (allocs f calls s)).0 ≡ 0

pub Took-none : (f : PageSource) (s : f.State) (n : ℕ) → Took f s s n
unfolding allocs
Took-none f s n = record { calls = 0; bound = omega arith; result = refl }

pub Took-one : (f : PageSource) (s : f.State) → Took f s (f.alloc s).1 1
unfolding allocs
Took-one f s = record { calls = 1; bound = omega arith; result = refl }

pub NoPage-now : (f : PageSource) (s : f.State) → (f.alloc s).0 ≡ 0 → NoPage f s 1
unfolding allocs
NoPage-now f s e = record { calls = 0; bound = omega arith; result = e }

allocs_add :
    (f : PageSource) (i j : ℕ) (s : f.State) → allocs f j (allocs f i s) ≡ allocs f (i + j) s
unfolding allocs
allocs_add f zero j s = ap (λ n. allocs f n s) (same j)
  where
    same : (j : ℕ) → j ≡ 0 + j
    same j = omega arith
allocs_add f (suc i) j s = allocs_add f i j (f.alloc s).1 ∙ ap (λ n. allocs f n s) (same i j)
  where
    same : (i j : ℕ) → suc (i + j) ≡ suc i + j
    same i j = omega arith

pub Took-trans :
    (f : PageSource) (s t u : f.State) (n m : ℕ) → Took f s t n → Took f t u m → Took f s u (n + m)
Took-trans f s t u n m a b =
    let le = a.bound in
    let le' = b.bound in
    record {
      calls = a.calls + b.calls;
      bound = omega arith;
      result = b.result ∙ ap (allocs f b.calls) a.result ∙ allocs_add f a.calls b.calls s;
    }

pub NoPage-later :
    (f : PageSource) (s t : f.State) (n m : ℕ) → Took f s t n → NoPage f t m → NoPage f s (n + m)
NoPage-later f s t n m a b =
    let le = a.bound in
    let lt = b.bound in
    record {
      calls = a.calls + b.calls;
      bound = omega arith;
      result =
          ap (λ x. (f.alloc x).0)
            (sym (ap (allocs f b.calls) a.result ∙ allocs_add f a.calls b.calls s))
          ∙ b.result;
    }

pub NoPage-weaken : (f : PageSource) (s : f.State) (n m : ℕ) → n ≤ m → NoPage f s n → NoPage f s m
NoPage-weaken f s n m le a =
    let lt = a.bound in record { calls = a.calls; bound = omega arith; result = a.result }

-- A page that the kernel reaches through the direct map, and not at address 0.
pub record IsTable (hhdm_offset t : ℕ) : Type 0 where
  pub aligned : t % 4096 ≡ 0
  pub reached : t + hhdm_offset + 4096 ≤ 2 ^ 64
  pub some_address : 0 < t + hhdm_offset

-- `place t` is the way to the table `t` from the root, the last index first, if it is a table.
pub record IsTree (hhdm_offset : ℕ) (memory : ℕ → ℕ) (root : ℕ) (place : ℕ → Option (List ℕ))
    : Type 0 where
  pub at_root : place root ≡ some []
  pub table : (t : ℕ) (p : List ℕ) → place t ≡ some p → IsTable hhdm_offset t
  pub child :
      (t : ℕ) (p : List ℕ) (i : ℕ)
      → place t ≡ some p
      → length p < 3
      → i < 512
      → is_present (entry_of hhdm_offset memory t i) ≡ true
      → is_large (entry_of hhdm_offset memory t i) ≡ false
      → place (frame_of (entry_of hhdm_offset memory t i)) ≡ some (i ∷ p)

pub record IsMapped (f : PageSource) (hhdm_offset : ℕ) (laws : PageLaws f hhdm_offset) (root : ℕ)
    (place : ℕ → Option (List ℕ)) (v : Vmm f hhdm_offset) : Type 0 where
  pub tree : IsTree hhdm_offset v.memory root place
  pub pml4 : v.pml4 ≡ u64 (root + hhdm_offset)
  pub apart : (t : ℕ) (p : List ℕ) → place t ≡ some p → laws.Free v.frames t → ⊥

-- Entries of different tables lie apart.
pub cells_apart :
    (hhdm_offset t u i j : ℕ)
    → IsTable hhdm_offset t
    → IsTable hhdm_offset u
    → i < 512
    → j < 512
    → (t ≢ u) ⊎ (i ≢ j)
    → cell (u64 (t + hhdm_offset)) i ≢ cell (u64 (u + hhdm_offset)) j
cells_apart hhdm_offset t u i j a b lt lt' ne e =
    omega (arith, a.aligned, a.reached, b.aligned, b.reached)

pub clear_entries_other :
    (n from table : ℕ) (memory : ℕ → ℕ) (a : ℕ)
    → ((k : ℕ) → k < from + n → cell table k ≢ a)
    → clear_entries n from table memory a ≡ memory a
unfolding clear_entries
clear_entries_other zero from table memory a h = refl
clear_entries_other (suc n) from table memory a h =
    clear_entries_other n (from + 1) table _ a (λ k lt. h k (omega arith))
    ∙ update_ne memory (cell table from) 0 a (h from (omega arith))

pub clear_entries_at :
    (n from table : ℕ) (memory : ℕ → ℕ) (k : ℕ)
    → from ≤ k
    → k < from + n
    → clear_entries n from table memory (cell table k) ≡ 0
unfolding clear_entries
clear_entries_at zero from table memory k lo hi = absurd (omega arith)
clear_entries_at (suc n) from table memory k lo hi = elim (Bool-cases (from == k)) [
  | inl here ↦
      let e : from ≡ k = ground arith in
      rw e (
        below n (k + 1) table (update memory (cell table k) 0) k (omega arith)
          (update_self memory (cell table k) 0))
  | inr there ↦ clear_entries_at n (from + 1) table _ k (ground arith) (omega arith)
]
  where
    below :
        (n from table : ℕ) (memory : ℕ → ℕ) (k : ℕ)
        → k < from
        → memory (cell table k) ≡ 0
        → clear_entries n from table memory (cell table k) ≡ 0
    below zero from table memory k lt e = e
    below (suc n) from table memory k lt e =
        below n (from + 1) table _ k (omega arith)
          (update_ne memory (cell table from) 0 (cell table k) (omega arith) ∙ e)
