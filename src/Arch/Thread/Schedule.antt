-- ===== src/Arch/Thread/Schedule.antt =====
-- `schedule`: round robin among the threads that are not dead.
use miyabi.Base.{
  ℕ, ◌+◌, ◌≤◌, ◌≡◌, ◌≢◌, refl, arith, true, false, List, [], ◌∷◌, ◌++◌, Option, none, some, ◌==◌,
  if◌then◌else◌, ap, sym, ◌∙◌, inl, inr, length, All, InSecond, append_split, length-append,
}
use mathlib.Core.Path.{subst}
use mathlib.Core.List.{append_assoc, append-nil}
use miyabi.Base.Run.{done, Ends}
use miyabi.Arch.Thread.{
  running, Thread, Scheduler, Switch, is_live, pick, preempt, switch_to, schedule,
}
use miyabi.Arch.Thread.Queue.{Queue, FirstLive, ring, Queue-behind, pick_ahead, pick_around}

-- The queue is `pre ++ r ∷ post`, `r` is current, and no other thread is in the state RUNNING.
pub record IsScheduled (s : Scheduler) (pre : List ℕ) (r : ℕ) (post : List ℕ) : Type 0 where
  pub queue : Queue s.threads s.thread_queue_head (pre ++ r ∷ post)
  pub current : s.running_thread ≡ r
  pub only_one : (a : ℕ) → a ≢ r → (s.threads a).state ≢ running

-- The queue cut at the thread `c`.
record CutAt (l : List ℕ) (order : List ℕ) (c : ℕ) : Type 0 where
  pre : List ℕ
  post : List ℕ
  whole : pre ++ c ∷ post ≡ l
  turned : ring pre c post ≡ order

cut_last :
    (zs : List ℕ) (r c : ℕ) (after : List ℕ)
    → r ∷ [] ≡ zs ++ c ∷ after
    → (zs ≡ []) × (r ≡ c) × (after ≡ [])
cut_last [] r c after e = (refl, cc, cc)
cut_last (z ∷ zs) r c after e = absurd (cons_ne zs (cc))
  where
    cons_ne : (zs : List ℕ) → [] ≡ zs ++ c ∷ after → ⊥
    cons_ne [] e = cc
    cons_ne (x ∷ xs) e = cc

cut :
    (pre : List ℕ) (r : ℕ) (post before : List ℕ) (c : ℕ) (after : List ℕ)
    → ring pre r post ≡ before ++ c ∷ after
    → CutAt (pre ++ r ∷ post) (after ++ (before ++ c ∷ [])) c
cut pre r post before c after e = elim (append_split post (pre ++ r ∷ []) before c after e) [
  | inl f ↦ record {
    pre = pre ++ r ∷ before;
    post = f.middle;
    whole = rw f.first (simp append_assoc);
    turned = rw f.second (simp append_assoc);
  }
  | inr s ↦ elim (append_split pre (r ∷ []) s.middle c after s.second) [
    | inl g ↦ record {
      pre = s.middle;
      post = g.middle ++ r ∷ post;
      whole = rw g.first (simp append_assoc);
      turned = rw (g.second, s.first) (simp append_assoc);
    }
    | inr t ↦
        let (z, same, a) = cut_last t.middle r c after t.second in
        record {
          pre = pre;
          post = post;
          whole = rw same;
          turned = rw (a, s.first, t.first, z) (simp (append_assoc, append-nil));
        }
  ]
]

-- What `schedule` gives when the first live thread of the ring is that of `f`.
pub record Scheduled (s : Scheduler) (pre : List ℕ) (r : ℕ) (post : List ℕ)
    (f : FirstLive s.threads (ring pre r post)) (t : Scheduler) (sw : Option Switch) : Type 0 where
  pub pre' : List ℕ
  pub post' : List ℕ
  pub scheduled : IsScheduled t pre' f.chosen post'
  pub same_queue : pre' ++ f.chosen ∷ post' ≡ pre ++ r ∷ post
  pub turned : ring pre' f.chosen post' ≡ f.after ++ (f.before ++ f.chosen ∷ [])
  pub lives : (a : ℕ) → is_live (t.threads a).state ≡ is_live (s.threads a).state
  pub switch : sw ≡ (
      if f.chosen == r
      then none
      else some (record { old_thread = r; new_rsp = (s.threads f.chosen).rsp }))

Queue-next :
    (old new : ℕ → Thread) (p : ℕ) (l : List ℕ)
    → ((a : ℕ) → (new a).next ≡ (old a).next)
    → Queue old p l
    → Queue new p l
Queue-next old new p [] same q = q
Queue-next old new p (a ∷ l) same q =
    (q.0, q.1, Queue-next old new (new a).next l same (rw (same a) q.2))

module _ (s : Scheduler) (new_thread : ℕ) where
  switch_to-next : (a : ℕ) → ((switch_to new_thread s).0.threads a).next ≡ (s.threads a).next
  unfolding switch_to
  switch_to-next a = ground arith

  switch_to-live :
      (a : ℕ)
      → is_live (s.threads new_thread).state ≡ true
      → is_live ((switch_to new_thread s).0.threads a).state ≡ is_live (s.threads a).state
  unfolding switch_to is_live
  switch_to-live a live = ground arith

  switch_to-only_one :
      (a : ℕ)
      → ((b : ℕ) → b ≢ s.running_thread → (s.threads b).state ≢ running)
      → a ≢ new_thread
      → ((switch_to new_thread s).0.threads a).state ≢ running
  unfolding switch_to preempt
  switch_to-only_one a h ne = ground (arith, h a)

  switch_to-current : (switch_to new_thread s).0.running_thread ≡ new_thread
  unfolding switch_to
  switch_to-current = ground arith

  switch_to-head : (switch_to new_thread s).0.thread_queue_head ≡ s.thread_queue_head
  unfolding switch_to
  switch_to-head = ground arith

  switch_to-switch : (switch_to new_thread s).1 ≡ (
      if new_thread == s.running_thread
      then none
      else some (record { old_thread = s.running_thread; new_rsp = (s.threads new_thread).rsp }))
  unfolding switch_to
  switch_to-switch = ground arith

pub All-split : (P : ℕ → Type 0) (xs ys : List ℕ) → All P (xs ++ ys) → All P xs × All P ys
All-split P [] ys h = (tt, h)
All-split P (x ∷ xs) ys h = let t = All-split P xs ys h.1 in ((h.0, t.0), t.1)

Queue-head :
    (threads : ℕ → Thread) (p : ℕ) (pre : List ℕ) (r : ℕ) (post : List ℕ)
    → Queue threads p (pre ++ r ∷ post)
    → (p == 0) ≡ false
Queue-head threads p [] r post q = ground (arith, q.0, q.1)
Queue-head threads p (x ∷ pre) r post q = ground (arith, q.0, q.1)

module _ (s : Scheduler) (pre : List ℕ) (r : ℕ) (post : List ℕ) (i : IsScheduled s pre r post)
    (f : FirstLive s.threads (ring pre r post)) where
  picked :
      (n : ℕ)
      → length (pre ++ r ∷ post) ≤ n
      → pick n s.threads s.thread_queue_head (s.threads r).next ≡ done f.chosen
  picked n fuel = elim (append_split post (pre ++ r ∷ []) f.before f.chosen f.after f.split) [
    | inl x ↦
        pick_ahead s.threads n s.thread_queue_head (s.threads r).next f.before f.chosen x.middle
          (subst (Queue s.threads (s.threads r).next) x.first behind) f.all_dead f.live
          (omega (arith, len, ap length x.first, length-append {0} f.before (f.chosen ∷ x.middle)))
    | inr x ↦
        let dead_parts =
          All-split (λ a. is_live (s.threads a).state ≡ false) post x.middle
            (subst (All (λ a. is_live (s.threads a).state ≡ false)) x.first f.all_dead) in
        pick_around s.threads n s.thread_queue_head (s.threads r).next post x.middle f.chosen
          (f.after ++ post) behind dead_parts.0
          (subst (Queue s.threads s.thread_queue_head) (whole x) i.queue) dead_parts.1 f.live
          (omega (
            arith,
            len,
            ap length (whole x),
            length-append {0} x.middle (f.chosen ∷ (f.after ++ post)),
            length-append {0} f.after post,
          ))
  ]
    where
      behind : Queue s.threads (s.threads r).next post
      behind = Queue-behind s.threads s.thread_queue_head pre r post i.queue

      len : length pre + 1 + length post ≤ n
      len = omega (arith, fuel, length-append {0} pre (r ∷ post))

      whole :
          (x : InSecond post (pre ++ r ∷ []) f.before f.chosen f.after)
          → pre ++ r ∷ post ≡ x.middle ++ f.chosen ∷ (f.after ++ post)
      whole x = sym (append_assoc pre (r ∷ []) post) ∙ rw x.second (simp append_assoc)

  switch_to-Scheduled : Scheduled s pre r post f (switch_to f.chosen s).0 (switch_to f.chosen s).1
  switch_to-Scheduled =
      let c = cut pre r post f.before f.chosen f.after f.split in
      record {
        pre' = c.pre;
        post' = c.post;
        scheduled = record {
          queue = rw switch_to-head (
              subst (Queue (switch_to f.chosen s).0.threads s.thread_queue_head) (sym c.whole) (
                Queue-next s.threads (switch_to f.chosen s).0.threads s.thread_queue_head
                  (pre ++ r ∷ post) (switch_to-next s f.chosen) i.queue));
          current = switch_to-current s f.chosen;
          only_one = λ a ne.
              switch_to-only_one s f.chosen a (λ b nb. i.only_one b (λ e. nb (e ∙ sym i.current)))
                ne;
        };
        same_queue = c.whole;
        turned = c.turned;
        lives = λ a. switch_to-live s f.chosen a f.live;
        switch =
            subst
              (λ x. (switch_to f.chosen s).1 ≡ (
                if f.chosen == x
                then none
                else some (record { old_thread = x; new_rsp = (s.threads f.chosen).rsp })))
              i.current (switch_to-switch s f.chosen);
      }

  -- Where the queue holds a live thread and one round for each of its threads is given, `schedule`
  -- ends. It makes current the first live thread in queue order behind the old one, going round,
  -- which keeps that no other thread is RUNNING; the queue keeps its threads and their order, no
  -- thread dies or comes to life, and the switch asked for is from the old thread to the stack of
  -- the new one, or none if they are the same.
  pub schedule-Scheduled :
      (n : ℕ)
      → length (pre ++ r ∷ post) ≤ n
      → Ends (λ x. Scheduled s pre r post f x.0 x.1) (schedule n s)
  unfolding schedule
  schedule-Scheduled n fuel = rw (head_ne, from) switch_to-Scheduled
    where
      head_ne : (s.thread_queue_head == 0) ≡ false
      head_ne = Queue-head s.threads s.thread_queue_head pre r post i.queue

      from : pick n s.threads s.thread_queue_head (s.threads s.running_thread).next ≡ done f.chosen
      from =
          subst (λ x. pick n s.threads s.thread_queue_head (s.threads x).next ≡ done f.chosen)
            (sym i.current) (picked n fuel)
