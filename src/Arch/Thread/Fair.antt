-- ===== src/Arch/Thread/Fair.antt =====
-- Repeated calls of `schedule`: every live thread gets its turn.
use miyabi.Base.{
  ℕ, zero, suc, ◌≤◌, ◌<◌, ◌≡◌, ◌⊎◌, refl, arith, true, false, List, [], ◌∷◌, ◌++◌, Option, ap, sym,
  ◌∙◌, inl, inr, length, All, append_split, length-append,
}
use mathlib.Core.Path.{subst}
use mathlib.Core.List.{append_assoc}
use miyabi.Base.Run.{Run, done, halted, stuck, Ends, ◌>>=◌}
use miyabi.Arch.Thread.{Thread, Scheduler, Switch, is_live, schedule}
use miyabi.Arch.Thread.Queue.{FirstLive, ring, find_live}
use miyabi.Arch.Thread.Schedule.{IsScheduled, Scheduled, All-split, schedule-Scheduled}

-- The scheduler called `k` times, with no other change in between.
unfoldable pub calls : ℕ → ℕ → Scheduler → Run Scheduler
calls zero n s = done s
calls (suc k) n s = schedule n s >>= λ x. calls k n x.0

-- In the ring a live thread is chosen, or stands closer to the front afterwards.
record Closer (f_after f_before xs : List ℕ) (chosen a : ℕ) : Type 0 where
  front : List ℕ
  back : List ℕ
  split : f_after ++ (f_before ++ chosen ∷ []) ≡ front ++ a ∷ back
  fewer : length front < length xs

closer :
    (threads : ℕ → Thread) (order xs : List ℕ) (a : ℕ) (ys : List ℕ)
    → (f : FirstLive threads order) → order ≡ xs ++ a ∷ ys
    → is_live (threads a).state ≡ true
    → (f.chosen ≡ a) ⊎ Closer f.after f.before xs f.chosen a
closer threads order xs a ys f e live =
    elim (append_split f.before (f.chosen ∷ f.after) xs a ys (sym f.split ∙ e)) [
      | inl x ↦ absurd (
          let d =
            All-split (λ t. is_live (threads t).state ≡ false) xs (a ∷ x.middle)
              (subst (All (λ t. is_live (threads t).state ≡ false)) x.first f.all_dead) in
          cc (d.1.0))
      | inr x ↦ behind x.middle x.first x.second
    ]
  where
    tail_eq : {c d : ℕ} {l k : List ℕ} → c ∷ l ≡ d ∷ k → l ≡ k
    tail_eq e = cc

    behind :
        (m : List ℕ)
        → xs ≡ f.before ++ m
        → f.chosen ∷ f.after ≡ m ++ a ∷ ys
        → (f.chosen ≡ a) ⊎ Closer f.after f.before xs f.chosen a
    behind [] e1 e2 = inl (cc)
    behind (c ∷ m) e1 e2 = inr (record {
      front = m;
      back = ys ++ (f.before ++ f.chosen ∷ []);
      split =
          ap (λ l. l ++ (f.before ++ f.chosen ∷ [])) (tail_eq e2)
          ∙ append_assoc m (a ∷ ys) (f.before ++ f.chosen ∷ []);
      fewer = omega (arith, ap length e1, length-append {0} f.before (c ∷ m));
    })

-- Some number of calls, at most `limit`, makes `a` current.
pub record Turn (limit n a : ℕ) (s : Scheduler) : Type 0 where
  pub count : ℕ
  pub bound : count ≤ limit
  pub current : Ends (λ t. t.running_thread ≡ a) (calls count n s)

later :
    (limit n a : ℕ) (s t : Scheduler) (sw : Option Switch)
    → schedule n s ≡ done (t, sw)
    → Turn limit n a t
    → Turn (suc limit) n a s
unfolding calls
later limit n a s t sw e u = record {
  count = suc u.count;
  bound = omega (arith, u.bound);
  current = rw e u.current;
}

now :
    (limit n a : ℕ) (s t : Scheduler) (sw : Option Switch)
    → schedule n s ≡ done (t, sw)
    → t.running_thread ≡ a
    → Turn (suc limit) n a s
unfolding calls
now limit n a s t sw e c = record { count = 1; bound = omega arith; current = rw e c }

-- The induction hypothesis of `Turn-later`.
abbrev Within : ℕ → ℕ → ℕ → Type 0
Within m n a =
    (s : Scheduler) (pre : List ℕ) (r : ℕ) (post xs ys : List ℕ)
    → IsScheduled s pre r post
    → ring pre r post ≡ xs ++ a ∷ ys
    → is_live (s.threads a).state ≡ true
    → length (pre ++ r ∷ post) ≤ n
    → length xs < m
    → Turn m n a s

Turn-step :
    (m n a : ℕ)
    → Within m n a
    → (s : Scheduler) (pre : List ℕ) (r : ℕ) (post xs ys : List ℕ) → ring pre r post ≡ xs ++ a ∷ ys
    → is_live (s.threads a).state ≡ true
    → length (pre ++ r ∷ post) ≤ n
    → length xs < suc m
    → (f : FirstLive s.threads (ring pre r post)) → (x : Run (Scheduler × Option Switch))
    → schedule n s ≡ x
    → Ends (λ x. Scheduled s pre r post f x.0 x.1) x
    → Turn (suc m) n a s
Turn-step m n a ih s pre r post xs ys e live rounds lt f halted eq x = absurd x
Turn-step m n a ih s pre r post xs ys e live rounds lt f stuck eq x = absurd x
Turn-step m n a ih s pre r post xs ys e live rounds lt f (done (t, sw)) eq x =
    elim (closer s.threads (ring pre r post) xs a ys f e live) [
      | inl chosen ↦ now m n a s t sw eq (x.scheduled.current ∙ chosen)
      | inr c ↦ later m n a s t sw eq (
          ih t x.pre' f.chosen x.post' c.front c.back x.scheduled (x.turned ∙ c.split)
            (x.lives a ∙ live) (subst (λ l. length l ≤ n) (sym x.same_queue) rounds)
            (omega (arith, c.fewer)))
    ]

Turn-later : (m n a : ℕ) → Within m n a
Turn-later zero n a s pre r post xs ys i e live rounds lt = absurd (omega arith)
Turn-later (suc m) n a s pre r post xs ys i e live rounds lt =
    elim (find_live s.threads (ring pre r post)) [
      | inl f ↦
          Turn-step m n a (Turn-later m n a) s pre r post xs ys e live rounds lt f (schedule n s)
            refl (schedule-Scheduled s pre r post i f n rounds)
      | inr gone ↦ absurd (
          let d =
            All-split (λ t. is_live (s.threads t).state ≡ false) xs (a ∷ ys)
              (subst (All (λ t. is_live (s.threads t).state ≡ false)) e gone) in
          cc (d.1.0))
    ]

-- No live thread starves: one that stands behind `xs` in the ring of the current thread is current
-- after some number of calls of `schedule`, at most one more than `xs` has threads.
pub schedule_fair :
    (n : ℕ) (s : Scheduler) (pre : List ℕ) (r : ℕ) (post xs : List ℕ) (a : ℕ) (ys : List ℕ)
    → IsScheduled s pre r post
    → ring pre r post ≡ xs ++ a ∷ ys
    → is_live (s.threads a).state ≡ true
    → length (pre ++ r ∷ post) ≤ n
    → Turn (suc (length xs)) n a s
schedule_fair n s pre r post xs a ys i e live rounds =
    Turn-later (suc (length xs)) n a s pre r post xs ys i e live rounds (omega arith)
