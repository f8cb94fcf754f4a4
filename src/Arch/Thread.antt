-- ===== src/Arch/Thread.antt =====
-- src/arch/x86_64/thread.c, the round-robin scheduler: thread control blocks linked into a queue,
-- which a store holds by address; 0 is NULL. `context_switch` is assembly: `schedule` returns the
-- arguments of its call. What `kmalloc` returns is an argument, and what `kfree` is given is kept. The loop of `schedule` takes fuel.
pub mod Queue
pub mod Schedule
pub mod Fair
pub mod Create
use miyabi.Base.{
  ℕ, zero, suc, ◌+◌, ◌-◌, Bool, true, false, not, Option, none, some, List, ◌∷◌, ◌==◌,
  if◌then◌else◌, update, u64,
}
use miyabi.Base.Run.{Run, done, stuck, ◌>>=◌}

-- `thread_state_t`
pub data ThreadState : Type 0 where
  ready running dead : ThreadState

-- `thread_t`
pub record Thread : Type 0 where
  pub rsp : ℕ
  pub id : ℕ
  pub state : ThreadState
  pub stack_bottom : ℕ
  pub next : ℕ

-- The static variables of the file, the control blocks, the words of the stacks, and the addresses
-- given to `kfree` so far.
pub record Scheduler : Type 0 where
  pub running_thread : ℕ
  pub thread_queue_head : ℕ
  pub next_thread_id : ℕ
  pub threads : ℕ → Thread
  pub memory : ℕ → ℕ
  pub freed : List ℕ

-- `&main_kernel_thread`, `kthread_exit`: addresses that the linker chooses.
pub record Image : Type 0 where
  pub main_kernel_thread : ℕ
  pub kthread_exit : ℕ

-- `void init_scheduler(void)`
unfoldable pub init_scheduler : Image → Scheduler → Scheduler
init_scheduler image s =
    let main = image.main_kernel_thread in
    record s {
      threads =
          update s.threads main
            (record { rsp = 0; id = 0; state = running; stack_bottom = 0; next = 0 });
      running_thread = main;
      thread_queue_head = main;
    }

-- for (i = 0; i < n; i++) { stack_top--; *stack_top = 0; }
unfoldable pub push_zeros : ℕ → ℕ → (ℕ → ℕ) → ℕ × (ℕ → ℕ)
push_zeros zero stack_top memory = (stack_top, memory)
push_zeros (suc n) stack_top memory = push_zeros n (stack_top - 8) (update memory (stack_top - 8) 0)

-- The walk to the last thread, and the link to the new one.
unfoldable pub enqueue : ℕ → ℕ → ℕ → (ℕ → Thread) → Run (ℕ → Thread)
enqueue zero curr thread threads = stuck
enqueue (suc n) curr thread threads =
    let next = (threads curr).next in
    let onward = enqueue n next thread threads in
    if next == 0
    then done (update threads curr (record (threads curr) { next = thread }))
    else onward

abbrev pub stack_size : ℕ
stack_size = 16384

-- The new control block and the first words of its stack.
unfoldable pub prepare : Image → ℕ → ℕ → ℕ → Scheduler → Scheduler
unfolding push_zeros
prepare image thread stack_raw entry_point s =
    let top = stack_raw + stack_size in
    let memory = update (update s.memory (top - 8) image.kthread_exit) (top - 16) entry_point in
    let (stack_top, memory') = push_zeros 6 (top - 16) memory in
    record s {
      next_thread_id = u64 (s.next_thread_id + 1);
      threads = update s.threads thread (record {
        rsp = stack_top;
        id = s.next_thread_id;
        state = ready;
        stack_bottom = stack_raw;
        next = 0;
      });
      memory = memory';
    }

-- `thread_t *kthread_create(void (*entry_point)(void))`, where the two calls of `kmalloc` return
-- `thread` and `stack_raw`; `n` bounds the walk to the end of the queue.
unfoldable pub kthread_create : ℕ → Image → ℕ → ℕ → ℕ → Scheduler → Run (ℕ × Scheduler)
kthread_create n image thread stack_raw entry_point s =
    let s' = prepare image thread stack_raw entry_point s in
    if thread == 0
    then done (0, s)
    else (if stack_raw == 0
        then done (0, record s { freed = thread ∷ s.freed })
        else (enqueue n s'.thread_queue_head thread s'.threads >>= λ threads.
            done (thread, record s' { threads = threads })))

-- READY or RUNNING; the one other state is DEAD.
unfoldable pub is_live : ThreadState → Bool
is_live ready = true
is_live running = true
is_live dead = false

-- `while (1)` of `schedule`: the first thread from `new_thread` on that is not dead.
unfoldable pub pick : ℕ → (ℕ → Thread) → ℕ → ℕ → Run ℕ
pick zero threads head new_thread = stuck
pick (suc n) threads head new_thread =
    let current = if new_thread == 0 then head else new_thread in
    let rest = pick n threads head (threads current).next in
    if is_live (threads current).state then done current else rest

-- The arguments of the call of `context_switch`: the old thread, and the new stack pointer.
pub record Switch : Type 0 where
  pub old_thread : ℕ
  pub new_rsp : ℕ

-- `if (old_thread->state == THREAD_STATE_RUNNING) old_thread->state = THREAD_STATE_READY;`
unfoldable pub preempt : ThreadState → ThreadState
preempt running = ready
preempt ready = ready
preempt dead = dead

-- What `schedule` does once it has chosen the new thread.
unfoldable pub switch_to : ℕ → Scheduler → Scheduler × Option Switch
unfolding preempt
switch_to new_thread s =
    let old_thread = s.running_thread in
    let old = s.threads old_thread in
    let threads = update s.threads old_thread (record old { state = preempt old.state }) in
    if new_thread == old_thread then (s, none) else (
      record s {
        threads = update threads new_thread (record (threads new_thread) { state = running });
        running_thread = new_thread;
      },
      some (record { old_thread = old_thread; new_rsp = (threads new_thread).rsp }),
    )

-- `void schedule(void)`
unfoldable pub schedule : ℕ → Scheduler → Run (Scheduler × Option Switch)
schedule n s =
    if s.thread_queue_head == 0
    then done (s, none)
    else (pick n s.threads s.thread_queue_head (s.threads s.running_thread).next >>= λ new_thread.
        done (switch_to new_thread s))

-- `void kthread_exit(void)`, up to the halt that nothing comes back to.
unfoldable pub kthread_exit : ℕ → Scheduler → Run (Scheduler × Option Switch)
kthread_exit n s =
    let current = s.threads s.running_thread in
    schedule n
      (record s { threads = update s.threads s.running_thread (record current { state = dead }) })
