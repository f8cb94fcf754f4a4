-- ===== src/Mm/Vmm/Ensure/Table.antt =====
-- What `ensure_table` does on each branch.
use miyabi.Base.{
  ℕ, ◌+◌, ◌<◌, ◌≡◌, arith, true, false, Option, some, List, ◌==◌, length, inl, inr, Bool-cases, u64,
}
use miyabi.Base.Run.{Run, done, halted, stuck, ◌>>=◌}
use miyabi.Mm.Vmm.{PageSource, Vmm, is_present, ensure_table}
use miyabi.Mm.Vmm.Walk.{is_large, entry_of}
use miyabi.Mm.Vmm.Tree.{Took, NoPage, NoPage-now, NoPage-later, NoPage-weaken, PageLaws, IsMapped}
use miyabi.Mm.Vmm.Ensure.{Ensured, marked-Ensured}
use miyabi.Mm.Vmm.Ensure.Made.{linked-Ensured}

module _ (f : PageSource) where
  -- The code returns a result of which `P` holds, or halts since one of the next `n` calls of the
  -- page allocator from the state `s` on finds no page.
  abbrev pub Returns {ℓ} : {A : Type ℓ} → f.State → ℕ → (A → Type 0) → Run A → Type 0
  Returns s n P (done a) = P a
  Returns s n P halted = NoPage f s n
  Returns s n P stuck = ⊥

  pub Returns-later {ℓ} :
      {A : Type ℓ} (s t : f.State) (n m : ℕ) (P : A → Type 0) (x : Run A)
      → Took f s t n
      → Returns t m P x
      → Returns s (n + m) P x
  Returns-later s t n m P (done a) took h = h
  Returns-later s t n m P halted took h = NoPage-later f s t n m took h
  Returns-later s t n m P stuck took h = h

  -- First the code of `x`, which calls the allocator `n` times at most and leaves it in `state a`.
  pub Returns-bind {ℓ ℓ'} :
      {A : Type ℓ} {B : Type ℓ'} (s : f.State) (n m : ℕ) (state : A → f.State) (P : A → Type 0)
      (Q : B → Type 0) (x : Run A) (k : A → Run B)
      → Returns s n P x
      → ((a : A) → P a → Took f s (state a) n)
      → ((a : A) → P a → Returns (state a) m Q (k a))
      → Returns s (n + m) Q (x >>= k)
  Returns-bind s n m state P Q (done a) k h took rest =
      Returns-later s (state a) n m Q (k a) (took a h) (rest a h)
  Returns-bind s n m state P Q halted k h took rest = NoPage-weaken f s n (n + m) (omega arith) h
  Returns-bind s n m state P Q stuck k h took rest = absurd h

  pub Returns-map {ℓ} :
      {A : Type ℓ} {P Q : A → Type 0} (s : f.State) (n : ℕ) (x : Run A)
      → ((a : A) → P a → Q a)
      → Returns s n P x
      → Returns s n Q x
  Returns-map s n (done a) k h = k a h
  Returns-map s n halted k h = h
  Returns-map s n stuck k h = h

module _ (f : PageSource) (hhdm_offset : ℕ) (laws : PageLaws f hhdm_offset) (root : ℕ)
    (place : ℕ → Option (List ℕ)) (v : Vmm f hhdm_offset)
    (m : IsMapped f hhdm_offset laws root place v) (t : ℕ) (p : List ℕ) (i : ℕ)
    (at : place t ≡ some p) (short : length p < 3) (lt : i < 512)
    (plain : is_present (entry_of hhdm_offset v.memory t i) ≡ true
      → is_large (entry_of hhdm_offset v.memory t i) ≡ false) where
  pub ensure_table-Ensured :
      Returns f {A = ℕ × Vmm f hhdm_offset} v.frames 1
        (λ r. Ensured f hhdm_offset laws root place v t p i r.0 r.1)
        (ensure_table f hhdm_offset (u64 (t + hhdm_offset)) i v)
  unfolding ensure_table
  ensure_table-Ensured = elim (Bool-cases (is_present (entry_of hhdm_offset v.memory t i))) [
    | inl present ↦
        rw present (
          marked-Ensured f hhdm_offset laws root place v m t p i at short lt present
            (plain present))
    | inr no_entry ↦ elim (Bool-cases ((f.alloc v.frames).0 == 0)) [
      | inl out ↦ rw (no_entry, out) (NoPage-now f v.frames (ground arith))
      | inr given ↦
          rw (no_entry, given)
            (linked-Ensured f hhdm_offset laws root place v m t p i at short lt no_entry
              (ground arith))
    ]
  ]
