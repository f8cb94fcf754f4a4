-- ===== src/Arch/Tests.antt =====
-- The theorems on the scheduler at concrete inputs, and runs of its operations.
use miyabi.Base.{ℕ, ◌≡◌, ◌+◌, ◌*◌, ◌-◌, refl, arith, true, ◌==◌, if◌then◌else◌, none, some, [], ◌∷◌}
use miyabi.Base.Run.{done, stuck, Ends}
use miyabi.Arch.Idt.{Handlers, Idt, init_idt}
use miyabi.Arch.Idt.Gates.{Right, handler_of, offset, init_idt_lem}
use miyabi.Arch.Gdt.{Gdt, Addresses, sizeof_tss, init_gdt}
use miyabi.Arch.Gdt.Descriptor.{Describes, init_gdt_lem}
use miyabi.Arch.Thread.{
  ready, running, dead, Scheduler, Image, init_scheduler, kthread_create, is_live, pick, switch_to,
  schedule, kthread_exit,
}
use miyabi.Arch.Thread.Queue.{FirstLive, ring}
use miyabi.Arch.Thread.Schedule.{IsScheduled, Scheduled, schedule-Scheduled}
use miyabi.Arch.Thread.Fair.{Turn, schedule_fair}
use miyabi.Arch.Thread.Create.{Created, kthread_create-Created}

abbrev image : Image
image = record { main_kernel_thread = 4096; kthread_exit = 512 }

-- Four threads: the one at 8192 runs, and the one at 12288 is dead.
abbrev four : Scheduler
four = record {
  running_thread = 8192;
  thread_queue_head = 4096;
  next_thread_id = 4;
  threads = λ a.
      if a == 4096
      then record { rsp = 100; id = 0; state = ready; stack_bottom = 0; next = 8192 }
      else (if a == 8192
          then record { rsp = 200; id = 1; state = running; stack_bottom = 20000; next = 12288 }
          else (if a == 12288
              then record { rsp = 300; id = 2; state = dead; stack_bottom = 40000; next = 16384 }
              else record { rsp = 400; id = 3; state = ready; stack_bottom = 60000; next = 0 }));
  memory = λ a. 1;
  freed = [];
}

four-IsScheduled : IsScheduled four (4096 ∷ []) 8192 (12288 ∷ 16384 ∷ [])
four-IsScheduled = record {
  queue = (refl, omega arith, (refl, omega arith, (refl, omega arith, (refl, omega arith, refl))));
  current = refl;
  only_one = λ a ne. ground arith;
}

abbrev next_live : FirstLive four.threads (ring (4096 ∷ []) 8192 (12288 ∷ 16384 ∷ []))
unfolding is_live
next_live = record {
  before = 12288 ∷ [];
  chosen = 16384;
  after = 4096 ∷ 8192 ∷ [];
  split = refl;
  all_dead = (refl, tt);
  live = refl;
}

schedule-Scheduled_example :
    Ends
      (λ x. Scheduled four (4096 ∷ []) 8192 (12288 ∷ 16384 ∷ []) next_live x.0 x.1)
      (schedule 4 four)
schedule-Scheduled_example =
    schedule-Scheduled four (4096 ∷ []) 8192 (12288 ∷ 16384 ∷ []) four-IsScheduled next_live 4
      (omega arith)

alive : is_live (four.threads 4096).state ≡ true
unfolding is_live
alive = refl

schedule_fair_example : Turn 3 4 4096 four
schedule_fair_example =
    schedule_fair 4 four (4096 ∷ []) 8192 (12288 ∷ 16384 ∷ []) (12288 ∷ 16384 ∷ []) 4096 (8192 ∷ [])
      four-IsScheduled refl alive (omega arith)

kthread_create-Created_example :
    Ends {A = ℕ × Scheduler}
      (λ x.
        (x.0 ≡ 32768)
        × Created four image (4096 ∷ []) 8192 (12288 ∷ 16384 ∷ []) 32768 65536 700 x.1)
      (kthread_create 4 image 32768 65536 700 four)
kthread_create-Created_example =
    kthread_create-Created image 32768 65536 700 four 4 (4096 ∷ []) 8192 (12288 ∷ 16384 ∷ [])
      four-IsScheduled (omega arith) (omega arith)
      (omega arith, (omega arith, (omega arith, (omega arith, tt)))) (omega arith)

-- After `init_scheduler` there is one thread, and it keeps the processor.
abbrev booted : Scheduler
unfolding init_scheduler
booted = init_scheduler image (record four { running_thread = 0; thread_queue_head = 0 })

schedule-booted : schedule 2 booted ≡ done (booted, none)
unfolding init_scheduler schedule pick is_live switch_to
schedule-booted = refl

-- A thread that exits is never switched to again, and the next one is.
exit_switch :
    Ends (λ x. x.1 ≡ some (record { old_thread = 8192; new_rsp = 400 })) (kthread_exit 4 four)
unfolding kthread_exit schedule pick is_live switch_to
exit_switch = refl

-- The only thread exits: the search of `schedule` does not end.
last_exit : kthread_exit 100 booted ≡ stuck
unfolding init_scheduler kthread_exit schedule pick is_live
last_exit = refl

abbrev handlers : Handlers
handlers = record {
  isr0 = 4096;
  isr8 = 5000;
  isr13 = 5100;
  isr14 = 5200;
  irq0 = 5300;
  irq1 = 5400;
  isr128 = 18446744071562068000;
}

abbrev empty : Idt
empty = record {
  idt = λ v. record {
    offset_low = 0;
    selector = 0;
    ist = 0;
    type_attr = 0;
    offset_mid = 0;
    offset_high = 0;
    zero_ = 0;
  };
  limit = 0;
  base = 0;
}

init_idt_lem_example :
    ((v : ℕ) → Right (handler_of handlers v) (empty.idt v) ((init_idt handlers 9000 empty).idt v))
    × ((init_idt handlers 9000 empty).limit ≡ 256 * 16 - 1)
    × ((init_idt handlers 9000 empty).base ≡ 9000)
init_idt_lem_example = init_idt_lem handlers 9000 empty

syscall_run : offset ((init_idt handlers 9000 empty).idt 128) ≡ 18446744071562068000
unfolding init_idt
syscall_run = refl

abbrev segments : Gdt
segments = record {
  gdt = λ i. record {
    limit_low = 0;
    base_low = 0;
    base_mid = 0;
    access = 0;
    granularity = 0;
    base_high = 0;
  };
  kernel_tss = record { rsp0 = 1; rsp1 = 1; rsp2 = 1; ist = λ i. 1; iomap_base = 1 };
  limit = 0;
  base = 0;
}

abbrev addresses : Addresses
addresses = record { gdt = 70000; kernel_tss = 18446744071562068000; initial_kernel_stack = 80000 }

init_gdt_lem_example :
    Describes 5 18446744071562068000 (sizeof_tss - 1) segments.gdt (init_gdt addresses segments).gdt
    × ((init_gdt addresses segments).kernel_tss.rsp0 ≡ 80000 + 4096)
    × ((init_gdt addresses segments).kernel_tss.rsp1 ≡ 0)
    × ((init_gdt addresses segments).kernel_tss.rsp2 ≡ 0)
    × ((i : ℕ) → (init_gdt addresses segments).kernel_tss.ist i ≡ 0)
    × ((init_gdt addresses segments).limit ≡ 7 * 8 - 1)
    × ((init_gdt addresses segments).base ≡ 70000)
init_gdt_lem_example = init_gdt_lem addresses segments

-- Without a stack the control block is given back.
no_stack_run :
    kthread_create 4 image 32768 0 700 four ≡ done (0, record four { freed = 32768 ∷ [] })
unfolding kthread_create
no_stack_run = refl
