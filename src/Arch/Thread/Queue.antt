-- ===== src/Arch/Thread/Queue.antt =====
-- The queue of threads as a list of addresses, and the order in which `schedule` looks at them.
use miyabi.Base.{
  ℕ, zero, suc, ◌+◌, ◌<◌, ◌≡◌, ◌≢◌, ◌⊎◌, refl, arith, true, false, List, [], ◌∷◌, ◌++◌, ◌==◌, ap,
  Bool-cases, inl, inr, length, All,
}
use miyabi.Base.Run.{done}
use miyabi.Arch.Thread.{Thread, is_live, pick}

-- From `p` the `next` pointers lead through `l` to NULL.
abbrev pub Queue : (ℕ → Thread) → ℕ → List ℕ → Type 0
Queue threads p [] = p ≡ 0
Queue threads p (a ∷ l) = (p ≡ a) × (a ≢ 0) × Queue threads (threads a).next l

-- The first thread of `l` that is not dead is `a`: what is before it and after it.
pub record FirstLive (threads : ℕ → Thread) (l : List ℕ) : Type 0 where
  pub before : List ℕ
  pub chosen : ℕ
  pub after : List ℕ
  pub split : l ≡ before ++ chosen ∷ after
  pub all_dead : All (λ a. is_live (threads a).state ≡ false) before
  pub live : is_live (threads chosen).state ≡ true

-- The order in which `schedule` looks at the queue `pre ++ r ∷ post` when `r` runs.
abbrev pub ring : List ℕ → ℕ → List ℕ → List ℕ
ring pre r post = post ++ (pre ++ r ∷ [])

module _ (threads : ℕ → Thread) where
  abbrev AllDead : List ℕ → Type 0
  AllDead = All (λ a. is_live (threads a).state ≡ false)

  -- Where a list splits across two parts.
  pub find_live : (l : List ℕ) → FirstLive threads l ⊎ AllDead l
  find_live [] = inr tt
  find_live (a ∷ l) = elim (Bool-cases (is_live (threads a).state)) [
    | inr gone ↦ elim (find_live l) [
      | inl f ↦ inl (record {
        before = a ∷ f.before;
        chosen = f.chosen;
        after = f.after;
        split = ap (λ t. a ∷ t) f.split;
        all_dead = (gone, f.all_dead);
        live = f.live;
      })
      | inr none_live ↦ inr (gone, none_live)
    ]
    | inl alive ↦
        inl
          (record { before = []; chosen = a; after = l; split = refl; all_dead = tt; live = alive })
  ]

  pub Queue-behind :
      (p : ℕ) (pre : List ℕ) (r : ℕ) (post : List ℕ)
      → Queue threads p (pre ++ r ∷ post)
      → Queue threads (threads r).next post
  Queue-behind p [] r post q = q.2
  Queue-behind p (x ∷ pre) r post q = Queue-behind (threads x).next pre r post q.2

  pick_live :
      (n head a : ℕ)
      → a ≢ 0
      → is_live (threads a).state ≡ true
      → pick (suc n) threads head a ≡ done a
  unfolding pick
  pick_live n head a nz live = let t : (a == 0) ≡ false = ground arith in rw (pick, t, live)

  pick_dead :
      (n head a : ℕ)
      → a ≢ 0
      → is_live (threads a).state ≡ false
      → pick (suc n) threads head a ≡ pick n threads head (threads a).next
  unfolding pick
  pick_dead n head a nz gone = let t : (a == 0) ≡ false = ground arith in rw (pick, t, gone)

  pick_wraps :
      (n head : ℕ) → head ≢ 0 → pick (suc n) threads head 0 ≡ pick (suc n) threads head head
  unfolding pick
  pick_wraps n head nz = let t : (head == 0) ≡ false = ground arith in rw (pick, t)

  pub pick_ahead :
      (n head p : ℕ) (xs : List ℕ) (a : ℕ) (ys : List ℕ)
      → Queue threads p (xs ++ a ∷ ys)
      → AllDead xs
      → is_live (threads a).state ≡ true
      → length xs < n
      → pick n threads head p ≡ done a
  pick_ahead zero head p xs a ys q gone live fuel = absurd (omega arith)
  pick_ahead (suc n) head p [] a ys q gone live fuel = rw q.0 (pick_live n head a q.1 live)
  pick_ahead (suc n) head p (x ∷ xs) a ys q gone live fuel =
      rw (q.0, pick_dead n head x q.1 gone.0)
        (pick_ahead n head (threads x).next xs a ys q.2 gone.1 live (omega arith))

  pub pick_around :
      (n head p : ℕ) (xs zs : List ℕ) (a : ℕ) (ws : List ℕ)
      → Queue threads p xs
      → AllDead xs
      → Queue threads head (zs ++ a ∷ ws)
      → AllDead zs
      → is_live (threads a).state ≡ true
      → length xs + length zs < n
      → pick n threads head p ≡ done a
  pick_around zero head p xs zs a ws q gone h gone' live fuel = absurd (omega arith)
  pick_around (suc n) head p [] zs a ws q gone h gone' live fuel =
      rw (q, pick_wraps n head (head_ne_zero zs h))
        (pick_ahead (suc n) head head zs a ws h gone' live (omega arith))
    where
      head_ne_zero : (zs : List ℕ) → Queue threads head (zs ++ a ∷ ws) → head ≢ 0
      head_ne_zero [] h = rw h.0 h.1
      head_ne_zero (z ∷ zs) h = rw h.0 h.1
  pick_around (suc n) head p (x ∷ xs) zs a ws q gone h gone' live fuel =
      rw (q.0, pick_dead n head x q.1 gone.0)
        (pick_around n head (threads x).next xs zs a ws q.2 gone.1 h gone' live (omega arith))
