-- ===== src/Scheduler/Tests.antt =====
-- src/scheduler.cpp: runs of `schedule` and `try_dequeue_batch`, and their theorems at them.
use novaio.Prelude.{
  ℕ, ◌-◌, ◌^◌, ◌<◌, ◌≡◌, refl, inl, inr, Option, none, some, List, [], ◌∷◌, ◌++◌, arith, ltb, ◌==◌,
  if◌then◌else◌, Bool-cases, length,
}
use novaio.Handle.{null}
use novaio.Queues.Local.{push, pop}
use novaio.Scheduler.{Scheduler, schedule, dequeue_loop, try_dequeue_batch, run_batch, wait_for}
use novaio.Queues.Spsc.{SpscQueue}
use novaio.Queues.Spsc.Refine.{Holds}
use novaio.Scheduler.Inbox.{UniqueTask, process_inbox}
use novaio.Scheduler.Inbox.Drains.{AreSet, calls_of, total, process_inbox-calls}
use novaio.Scheduler.Numa.{Text, strip, detect_numa_node, detect_numa_node-first}
use novaio.IoEngine.Init.{returns}
use novaio.Metrics.{MetricsRegistry}
use novaio.Scheduler.Setup.{
  SchedulerObject, ThreadLocals, SystemCall, make, begin_run, Begun, begin_run-Begun,
}
use novaio.Scheduler.Batch.{
  IsReady, pending, schedule_refines, try_dequeue_batch_refines, Lasts, wait_for-Lasts,
}

-- coroutine 5 next, and 6 and 7 in a queue of four slots
abbrev three_ready : Scheduler
three_ready = record {
  runnext = 5;
  local_queue = record {
    capacity = 4;
    mask = 3;
    head = 2 ^ 32 - 1;
    tail = 1;
    buffer = λ i. if i == 3 then 6 else if i == 0 then 7 else 0;
  };
}

three_ready-IsReady : IsReady three_ready
three_ready-IsReady = record {
  queue = record {
    bits = 2;
    bits_lt = omega arith;
    capacity_eq = refl;
    mask_eq = refl;
    head_lt = omega arith;
    tail_lt = omega arith;
    fits = omega arith;
  };
  handles = (omega arith, (omega arith, tt));
}

batches :
    ((try_dequeue_batch 2 three_ready).0 ≡ 5 ∷ 6 ∷ [])
    × ((try_dequeue_batch 16 (schedule 8 three_ready)).0 ≡ 5 ∷ 6 ∷ 7 ∷ 8 ∷ [])
unfolding try_dequeue_batch dequeue_loop schedule push pop
batches = (refl, refl)

-- A finished coroutine and a null handle are not resumed.
resumed :
    run_batch (λ h a. h == 6) (λ h log. log ++ h ∷ []) (λ log. log) (5 ∷ 6 ∷ 0 ∷ 7 ∷ []) []
    ≡ 5 ∷ 7 ∷ []
unfolding run_batch
resumed = refl

schedule_refines_example :
    IsReady (schedule 8 three_ready) × (pending (schedule 8 three_ready) ≡ 5 ∷ 6 ∷ 7 ∷ 8 ∷ [])
schedule_refines_example =
    schedule_refines {s = three_ready} 8 three_ready-IsReady (omega arith) (omega arith)

try_dequeue_batch_refines_example :
    ((try_dequeue_batch 2 three_ready).0 ++ pending (try_dequeue_batch 2 three_ready).1
      ≡ pending three_ready)
    × (length (try_dequeue_batch 2 three_ready).0 ≡ 2)
    × ((try_dequeue_batch 2 three_ready).1.runnext ≡ null)
    × IsReady (try_dequeue_batch 2 three_ready).1
try_dequeue_batch_refines_example =
    try_dequeue_batch_refines {s = three_ready} 2 three_ready-IsReady (omega arith)

waits_2500_ms : Lasts 2500 (wait_for 2500)
waits_2500_ms = wait_for-Lasts 2500

-- an inbox of two slots, the counters about to wrap, with a task whose code is at 100 and 200
abbrev greeting : UniqueTask
greeting = record { ptr = 4096; invoker = 100; deleter = 200 }

abbrev mail : SpscQueue UniqueTask
mail = record {
  capacity = 2;
  mask = 1;
  tail = 0;
  head = 2 ^ 64 - 1;
  buffer = λ i. if i == 1 then some greeting else none;
}

mail-Holds : Holds mail (greeting ∷ [])
mail-Holds = record {
  shape = record {
    bits = 1;
    bits_lt = omega arith;
    capacity_eq = refl;
    mask_eq = refl;
    head_lt = omega arith;
    tail_lt = omega arith;
    fits = omega arith;
  };
  items = refl;
  raw = λ i lo hi. ground arith;
}

-- The greeting pushes a reply.
abbrev reply : UniqueTask
reply = record { ptr = 32; invoker = 300; deleter = 400 }

abbrev pushes : UniqueTask → List UniqueTask
pushes t = if t.invoker == 100 then reply ∷ [] else []

abbrev weight : UniqueTask → ℕ
weight t = if t.invoker == 100 then 2 else 1

pushes-AreSet : (t : UniqueTask) → AreSet (pushes t)
pushes-AreSet t = elim (Bool-cases (t.invoker == 100)) [
  | inl e ↦ rw e ((omega arith, omega arith), tt)
  | inr e ↦ rw e tt
]

pushes-lighter : (t : UniqueTask) → total pushes weight (pushes t) < weight t
pushes-lighter t = elim (Bool-cases (t.invoker == 100)) [
  | inl e ↦ rw e (omega arith)
  | inr e ↦ rw e (omega arith)
]

process_inbox-calls_example :
    (inbox : SpscQueue UniqueTask) × (process_inbox pushes 3 mail 7
      ≡ some (inbox, calls_of (greeting ∷ reply ∷ []), 9))
    × Holds inbox []
process_inbox-calls_example =
    process_inbox-calls pushes weight pushes-AreSet pushes-lighter 3 mail 7 (greeting ∷ [])
      (omega arith) (omega arith) (omega arith) mail-Holds ((omega arith, omega arith), tt)

-- a reader of one digit
abbrev digit : Text → Option (ℕ × Text)
digit [] = none
digit (c ∷ s) = if ltb c 58 then some (c - 48, s) else none

-- the entries "online" and "node1"
node_is_found :
    detect_numa_node digit
      ((111 ∷ 110 ∷ 108 ∷ 105 ∷ 110 ∷ 101 ∷ []) ∷ (110 ∷ 111 ∷ 100 ∷ 101 ∷ 49 ∷ []) ∷ [])
    ≡ some 1
unfolding strip
node_is_found =
    detect_numa_node-first digit ((111 ∷ 110 ∷ 108 ∷ 105 ∷ 110 ∷ 101 ∷ []) ∷ []) [] (49 ∷ []) 1
      (refl, tt) refl

-- a worker thread, whose counters are at 640, and the main thread
abbrev worker : ThreadLocals
worker = record { current_thread_heap = 0; current_scheduler_ptr = 0; current_thread_metrics = 640 }

abbrev main_thread : ThreadLocals
main_thread = record worker { current_thread_metrics = 128 }

begin_run-Begun_example :
    (b : SchedulerObject × ThreadLocals × MetricsRegistry × List SystemCall) × (begin_run
        (λ s. none)
        8000
        96
        []
        returns
        (make 2)
        worker
        (704 ∷ [])
      ≡ some b)
    × Begun (λ s. none) 8000 96 worker main_thread (704 ∷ []) b
begin_run-Begun_example =
    begin_run-Begun (λ s. none) 8000 96 2 [] worker main_thread (704 ∷ []) (omega arith) refl refl
