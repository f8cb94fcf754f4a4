-- ===== src/Arch/Thread/Create.antt =====
-- `kthread_create`: the new thread at the end of the queue, and the first words of its stack.
use miyabi.Base.{
  ℕ, zero, suc, ◌+◌, ◌-◌, ◌*◌, ◌≤◌, ◌<◌, ◌≡◌, ◌≢◌, ◌⊎◌, refl, arith, true, false, List, [], ◌∷◌,
  ◌++◌, ◌==◌, if◌then◌else◌, update, update_self, update_ne, ap, sym, ◌∙◌, Bool-cases, inl, inr,
  length, All, length-append, u64,
}
use mathlib.Core.Path.{subst}
use mathlib.Core.List.{append_assoc}
use miyabi.Base.Run.{Run, done, halted, stuck, Ends, Ends-mono, ◌>>=◌}
use miyabi.Arch.Thread.{
  ready, Thread, Scheduler, Image, enqueue, stack_size, prepare, kthread_create,
}
use miyabi.Arch.Thread.Queue.{Queue}
use miyabi.Arch.Thread.Schedule.{IsScheduled}

-- The queue with `thread` linked behind its last thread.
record Linked (threads : ℕ → Thread) (p : ℕ) (l : List ℕ) (thread : ℕ) (new : ℕ → Thread)
    : Type 0 where
  last : ℕ
  is_last : (threads last).next ≡ 0
  other : last ≢ thread
  write : new ≡ update threads last (record (threads last) { next = thread })
  queue : Queue new p (l ++ thread ∷ [])

enqueue_step :
    (n p thread : ℕ) (threads : ℕ → Thread)
    → (threads p).next ≢ 0
    → enqueue (suc n) p thread threads ≡ enqueue n (threads p).next thread threads
unfolding enqueue
enqueue_step n p thread threads ne = let t : ((threads p).next == 0) ≡ false = ground arith in rw t

enqueue_last :
    (n p thread : ℕ) (threads : ℕ → Thread)
    → (threads p).next ≡ 0
    → enqueue (suc n) p thread threads
      ≡ done (update threads p (record (threads p) { next = thread }))
unfolding enqueue
enqueue_last n p thread threads e = let t : ((threads p).next == 0) ≡ true = ground arith in rw t

enqueue-Linked :
    (n p a : ℕ) (l : List ℕ) (thread : ℕ) (threads : ℕ → Thread)
    → Queue threads p (a ∷ l)
    → thread ≢ 0
    → (threads thread).next ≡ 0
    → All (λ b. b ≢ thread) (a ∷ l)
    → length l < n
    → Ends (Linked threads p (a ∷ l) thread) (enqueue n p thread threads)
enqueue-Linked zero p a l thread threads q nz end out fuel = absurd (omega arith)
enqueue-Linked (suc n) p a [] thread threads q nz end out fuel =
    rw (q.0, enqueue_last n a thread threads q.2)
      (record {
        last = a;
        is_last = q.2;
        other = out.0;
        write = refl;
        queue = (
          refl,
          q.1,
          (
            ap (λ (t : Thread). t.next) (update_self threads a _),
            nz,
            ap (λ (t : Thread). t.next) (update_ne threads a _ thread out.0) ∙ end,
          ),
        );
      })
enqueue-Linked (suc n) p a (b ∷ l) thread threads q nz end out fuel =
    rw (q.0, enqueue_step n a thread threads onward)
      (Ends-mono (enqueue n (threads a).next thread threads)
        (λ new x. record {
          last = x.last;
          is_last = x.is_last;
          other = x.other;
          write = x.write;
          queue = (
            refl,
            q.1,
            subst (λ t. Queue new t.next ((b ∷ l) ++ thread ∷ [])) (sym (same new x)) x.queue,
          );
        })
        (enqueue-Linked n (threads a).next b l thread threads q.2 nz end out.1 (omega arith)))
  where
    onward : (threads a).next ≢ 0
    onward e = q.2.1 (sym q.2.0 ∙ e)

    same :
        (new : ℕ → Thread) → Linked threads (threads a).next (b ∷ l) thread new → new a ≡ threads a
    same new x =
        ap (λ f. f a) x.write
        ∙ update_ne threads x.last _ a
            (λ e. onward (ap (λ c. (threads c).next) (sym e) ∙ x.is_last))

Queue-update :
    (threads : ℕ → Thread) (p : ℕ) (l : List ℕ) (thread : ℕ) (c : Thread)
    → Queue threads p l
    → All (λ b. b ≢ thread) l
    → Queue (update threads thread c) p l
Queue-update threads p [] thread c q out = q
Queue-update threads p (a ∷ l) thread c q out =
    let same : update threads thread c a ≡ threads a =
      update_ne threads thread c a (λ e. out.0 (sym e)) in
    (
      q.0,
      q.1,
      Queue-update threads p' l thread c (subst (λ t. Queue threads t.next l) (sym same) q.2) out.1,
    )
  where
    p' : ℕ
    p' = (update threads thread c a).next

-- What `kthread_create` gives if both calls of `kmalloc` succeed.
pub record Created (s : Scheduler) (image : Image) (pre : List ℕ) (r : ℕ) (post : List ℕ)
    (thread stack_raw entry_point : ℕ) (t : Scheduler) : Type 0 where
  pub scheduled : IsScheduled t pre r (post ++ thread ∷ [])
  pub state : (t.threads thread).state ≡ ready
  pub id : (t.threads thread).id ≡ s.next_thread_id
  pub next_id : t.next_thread_id ≡ u64 (s.next_thread_id + 1)
  pub rsp : (t.threads thread).rsp ≡ stack_raw + stack_size - 64
  pub registers : (i : ℕ) → i < 6 → t.memory ((t.threads thread).rsp + 8 * i) ≡ 0
  pub entry : t.memory ((t.threads thread).rsp + 48) ≡ entry_point
  pub exit : t.memory ((t.threads thread).rsp + 56) ≡ image.kthread_exit
  pub others : (a : ℕ) → a ≢ thread → (t.threads a).state ≡ (s.threads a).state
  pub freed : t.freed ≡ s.freed

module _ (image : Image) (thread stack_raw entry_point : ℕ) (s : Scheduler) where
  abbrev fresh : Scheduler
  fresh = prepare image thread stack_raw entry_point s

  -- The registers' words, as a test of the address can be decided.
  prepare-registers : (i : ℕ) → i < 6 → fresh.memory (stack_raw + stack_size - 64 + 8 * i) ≡ 0
  unfolding prepare
  prepare-registers i lt = ground arith

  prepare-entry : fresh.memory (stack_raw + stack_size - 64 + 48) ≡ entry_point
  unfolding prepare
  prepare-entry = ground arith

  prepare-exit : fresh.memory (stack_raw + stack_size - 64 + 56) ≡ image.kthread_exit
  unfolding prepare
  prepare-exit = ground arith

  prepare-thread :
      fresh.threads
      ≡ update s.threads thread (record {
        rsp = stack_raw + stack_size - 16 - 8 - 8 - 8 - 8 - 8 - 8;
        id = s.next_thread_id;
        state = ready;
        stack_bottom = stack_raw;
        next = 0;
      })
  unfolding prepare
  prepare-thread = refl

  module _ (new : ℕ → Thread) {p : ℕ} {l : List ℕ} (x : Linked fresh.threads p l thread new) where
    linked_state : (a : ℕ) → (new a).state ≡ (fresh.threads a).state
    linked_state a = rw x.write (ground arith)

    linked_thread : new thread ≡ fresh.threads thread
    linked_thread = ap (λ f. f thread) x.write ∙ update_ne fresh.threads x.last _ thread x.other

    created_thread : new thread ≡ record {
      rsp = stack_raw + stack_size - 16 - 8 - 8 - 8 - 8 - 8 - 8;
      id = s.next_thread_id;
      state = ready;
      stack_bottom = stack_raw;
      next = 0;
    }
    created_thread =
        linked_thread ∙ ap (λ f. f thread) prepare-thread ∙ update_self s.threads thread _

    created_other : (a : ℕ) → a ≢ thread → (new a).state ≡ (s.threads a).state
    created_other a ne =
        linked_state a
        ∙ ap (λ f. (f a).state) prepare-thread
        ∙ ap (λ (c : Thread). c.state) (update_ne s.threads thread _ a (λ e. ne (sym e)))

  created_rsp :
      (new : ℕ → Thread) {p : ℕ} {l : List ℕ}
      → Linked fresh.threads p l thread new
      → (new thread).rsp ≡ stack_raw + stack_size - 64
  created_rsp new x = ap (λ (c : Thread). c.rsp) (created_thread new x) ∙ omega arith

  fresh_head : fresh.thread_queue_head ≡ s.thread_queue_head
  unfolding prepare
  fresh_head = refl

  fresh-Linked :
      (n : ℕ) (l : List ℕ)
      → Queue s.threads s.thread_queue_head l
      → 0 < length l
      → thread ≢ 0
      → All (λ b. b ≢ thread) l
      → length l ≤ n
      → Ends
          (Linked fresh.threads s.thread_queue_head l thread)
          (enqueue n fresh.thread_queue_head thread fresh.threads)
  fresh-Linked n [] q pos nz out fuel = absurd (omega arith)
  fresh-Linked n (a ∷ l) q pos nz out fuel = rw fresh_head (
      enqueue-Linked n s.thread_queue_head a l thread fresh.threads
        (subst (λ t. Queue t s.thread_queue_head (a ∷ l)) (sym prepare-thread)
          (Queue-update s.threads s.thread_queue_head (a ∷ l) thread _ q out))
        nz
        (ap (λ f. (f thread).next) prepare-thread
          ∙ ap (λ (c : Thread). c.next) (update_self s.threads thread _))
        out (omega arith))

  from_Linked :
      (pre : List ℕ) (r : ℕ) (post : List ℕ)
      → IsScheduled s pre r post
      → (new : ℕ → Thread) → Linked fresh.threads s.thread_queue_head (pre ++ r ∷ post) thread new
      → Created s image pre r post thread stack_raw entry_point (record fresh { threads = new })
  unfolding prepare
  from_Linked pre r post i new x = record {
    scheduled = record {
      queue =
          subst (Queue new s.thread_queue_head) (append_assoc pre (r ∷ post) (thread ∷ [])) x.queue;
      current = i.current;
      only_one = λ a ne. elim (Bool-cases (a == thread)) [
        | inl same ↦ λ run. ground (arith, created_thread new x)
        | inr apart ↦ λ run. i.only_one a ne (sym (created_other new x a (ground arith)) ∙ run)
      ];
    };
    state = ap (λ (c : Thread). c.state) (created_thread new x);
    id = ap (λ (c : Thread). c.id) (created_thread new x);
    next_id = refl;
    rsp = created_rsp new x;
    registers = λ j lt. rw (created_rsp new x) (prepare-registers j lt);
    entry = rw (created_rsp new x) prepare-entry;
    exit = rw (created_rsp new x) prepare-exit;
    others = created_other new x;
    freed = refl;
  }

  -- With both blocks of memory and a queue that does not hold `thread` yet, and one round of the
  -- walk for each thread, `kthread_create` ends and returns `thread`. It stands last in the queue,
  -- READY, under the next id; its stack pointer is 64 bytes below the top of its stack, where six
  -- zero words, the entry point and `kthread_exit` lie; every other thread keeps its state, and
  -- the current thread stays the one that may be RUNNING; nothing is given to `kfree`.
  pub kthread_create-Created :
      (n : ℕ) (pre : List ℕ) (r : ℕ) (post : List ℕ)
      → IsScheduled s pre r post
      → thread ≢ 0
      → stack_raw ≢ 0
      → All (λ b. b ≢ thread) (pre ++ r ∷ post)
      → length (pre ++ r ∷ post) ≤ n
      → Ends {A = ℕ × Scheduler}
          (λ x. (x.0 ≡ thread) × Created s image pre r post thread stack_raw entry_point x.1)
          (kthread_create n image thread stack_raw entry_point s)
  unfolding kthread_create
  kthread_create-Created n pre r post i nz nz' out fuel =
      let t : (thread == 0) ≡ false = ground arith in
      let u : (stack_raw == 0) ≡ false = ground arith in
      rw (t, u) (finish (enqueue n fresh.thread_queue_head thread fresh.threads) linked)
    where
      linked :
          Ends
            (Linked fresh.threads s.thread_queue_head (pre ++ r ∷ post) thread)
            (enqueue n fresh.thread_queue_head thread fresh.threads)
      linked =
          fresh-Linked n (pre ++ r ∷ post) i.queue (omega (arith, length-append {0} pre (r ∷ post)))
            nz out fuel

      finish :
          (e : Run (ℕ → Thread))
          → Ends (Linked fresh.threads s.thread_queue_head (pre ++ r ∷ post) thread) e
          → Ends {A = ℕ × Scheduler}
              (λ x. (x.0 ≡ thread) × Created s image pre r post thread stack_raw entry_point x.1)
              (e >>= λ threads. done (thread, record fresh { threads = threads }))
      finish (done new) x = (refl, from_Linked pre r post i new x)
      finish halted x = x
      finish stuck x = x

  -- If either call of `kmalloc` fails, `kthread_create` returns NULL and changes no thread, no stack
  -- and no variable; it gives the control block back to `kfree` exactly where there is one.
  pub kthread_create_fails :
      (n : ℕ)
      → (thread ≡ 0) ⊎ (stack_raw ≡ 0)
      → kthread_create n image thread stack_raw entry_point s
        ≡ done (0, record s { freed = if thread == 0 then s.freed else thread ∷ s.freed })
  unfolding kthread_create
  kthread_create_fails n missing = elim (Bool-cases (thread == 0)) [
    | inl no_thread ↦ rw (kthread_create, no_thread)
    | inr one ↦
        let no_stack : (stack_raw == 0) ≡ true = ground arith in rw (kthread_create, one, no_stack)
  ]
