-- ===== src/Runtime/Tests.antt =====
-- src/runtime.cpp: the theorem at two cores, the second of which has a full inbox.
use novaio.Prelude.{
  ℕ, bit_or, ◌≡◌, refl, true, false, Option, none, some, [], ◌∷◌, arith, ◌==◌, if◌then◌else◌,
}
use novaio.Queues.Spsc.Refine.{Holds}
use novaio.IoEngine.{Thread, handle_cqe}
use novaio.IoEngine.Tags.{counted}
use novaio.Scheduler.{schedule}
use novaio.Runtime.{Core, dispatch_on, notify_target_ring}
use novaio.Runtime.Notify.{delivers, sent, notify-Arrives}
use novaio.Queues.Spsc.{SpscQueue}
use novaio.Scheduler.Inbox.{UniqueTask, process_inbox}
use novaio.Scheduler.Inbox.Drains.{calls_of}
use novaio.Runtime.Delivery.{dispatch_on-runs}
use novaio.Runtime.Dispatch.{Dispatched, dispatch_on-Dispatched}

abbrev core : Core ℕ
core = record {
  inbox = record { capacity = 1; mask = 0; tail = 1; head = 0; buffer = λ i. some 5 };
  ring_fd = some 12;
}

core-Holds : Holds core.inbox (5 ∷ [])
core-Holds = record {
  shape = record {
    bits = 0;
    bits_lt = omega arith;
    capacity_eq = refl;
    mask_eq = refl;
    head_lt = omega arith;
    tail_lt = omega arith;
    fits = omega arith;
  };
  items = refl;
  raw = λ i lo hi. absurd (omega arith);
}

dispatch_on-Dispatched_example :
    (r : Core ℕ × Option ℕ) × (dispatch_on 1 6 (core ∷ core ∷ []) ≡ (core ∷ r.0 ∷ [], r.1))
    × Dispatched 6 (5 ∷ []) core r
dispatch_on-Dispatched_example = dispatch_on-Dispatched 6 (5 ∷ []) (core ∷ []) [] core core-Holds

abbrev idle : Thread
idle = record {
  contexts = λ p. none;
  scheduler = record {
    local_queue = record { capacity = 4; mask = 3; head = 0; tail = 0; buffer = λ i. 0 };
    runnext = 0;
  };
  io_events = 0;
}

-- Coroutine 800 is resumed by ring 12, to which the second attempt sends.
arrives_at_ring :
    (sent (notify_target_ring true false true 12 (bit_or 800 2)) ≡ delivers 12 (bit_or 800 2))
    × (handle_cqe
          (λ p res flags t. t)
          (λ t. t)
          (record { user_data = bit_or 800 2; res = 0; flags = 0 })
          idle
        ≡ some (record (counted idle) { scheduler = schedule 800 idle.scheduler }))
    × (sent (notify_target_ring true false true 12 3) ≡ delivers 12 3)
    × (handle_cqe (λ p res flags t. t) (λ t. t) (record { user_data = 3; res = 0; flags = 0 }) idle
        ≡ some (counted idle))
arrives_at_ring =
    notify-Arrives (λ p res flags t. t) (λ t. t)
      (λ msg. record { user_data = msg; res = 0; flags = 0 }) true false true 12 800 idle
      (λ msg. refl) (omega arith) refl

abbrev waiting_task : UniqueTask
waiting_task = record { ptr = 64; invoker = 100; deleter = 200 }

abbrev new_task : UniqueTask
new_task = record { ptr = 96; invoker = 100; deleter = 200 }

-- a core with room for two tasks, of which one waits
abbrev running : Core UniqueTask
running = record {
  inbox = record {
    capacity = 2;
    mask = 1;
    tail = 1;
    head = 0;
    buffer = λ i. if i == 0 then some waiting_task else none;
  };
  ring_fd = some 12;
}

running-Holds : Holds running.inbox (waiting_task ∷ [])
running-Holds = record {
  shape = record {
    bits = 1;
    bits_lt = omega arith;
    capacity_eq = refl;
    mask_eq = refl;
    head_lt = omega arith;
    tail_lt = omega arith;
    fits = omega arith;
  };
  items = refl;
  raw = λ i lo hi. ground arith;
}

dispatch_on-runs_example :
    (c' : Core UniqueTask) × (dispatch_on 0 new_task (running ∷ []) ≡ (c' ∷ [], some 12))
    × ((inbox : SpscQueue UniqueTask) × (process_inbox (λ t. []) 3 c'.inbox 0
          ≡ some (inbox, calls_of (waiting_task ∷ new_task ∷ []), 2))
        × Holds inbox [])
dispatch_on-runs_example =
    dispatch_on-runs (λ t. []) (λ t. 1) (λ t. tt) (λ t. omega arith) new_task (waiting_task ∷ []) []
      [] running 12 3 0 refl running-Holds
      ((omega arith, omega arith), ((omega arith, omega arith), tt)) (omega arith) (omega arith)
      (omega arith)
