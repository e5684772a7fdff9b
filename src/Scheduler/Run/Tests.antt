-- ===== src/Scheduler/Run/Tests.antt =====
-- src/scheduler.cpp: a turn at 300 that wakes the coroutine of a timer for 257, and two turns.
use novaio.Prelude.{ℕ, ◌+◌, ◌-◌, ◌*◌, ◌≡◌, refl, ◌↔◌, ◌⊎◌, false, none, some, [], ◌∷◌, arith}
use novaio.Handle.{Handle, null}
use novaio.TimeWheel.Cells.{Ptr}
use novaio.TimeWheel.{TimerNode, make, add_timer}
use novaio.TimeWheel.Lists.{Lists}
use novaio.TimeWheel.Timing.{In}
use novaio.TimeWheel.Exact.{IsWheel, add_timer-IsWheel, make-IsWheel}
use novaio.Scheduler.{Scheduler}
use novaio.Scheduler.Batch.{IsReady}
use novaio.Scheduler.Run.{Thread, Program, run_turns}
use novaio.Scheduler.Run.Keeps.{IsInTime, run_turns-IsInTime}
use novaio.Scheduler.Run.Wakes.{Wakes, turn-Wakes}

-- node 1 expires at 257, and node `x` resumes coroutine `x + 7`
abbrev memory : Ptr → TimerNode
memory x = record {
  expires_at = 257 + (x - 1) * 43;
  handle = x + 7;
  next = 0;
  prev = 0;
  head_ptr = none;
}

abbrev expires : Ptr → ℕ
expires x = (memory x).expires_at

abbrev handles : Ptr → Handle
handles x = (memory x).handle

one_timer :
    (L : Lists) × IsWheel 5 expires handles 0 (add_timer 1 (make memory)) L
    × ((a : Ptr) → In a L ↔ ((a ≡ 1) ⊎ In a (λ c. [])))
one_timer =
    add_timer-IsWheel 5 (omega arith) expires handles 0 1 (make memory) (λ c. [])
      (make-IsWheel 5 memory) (omega arith) (omega arith) (λ c. refl) (omega arith) (omega arith)

abbrev nothing_ready : Scheduler
nothing_ready = record {
  local_queue = record { capacity = 8; mask = 7; head = 0; tail = 0; buffer = λ i. null };
  runnext = null;
}

nothing_ready-IsReady : IsReady nothing_ready
nothing_ready-IsReady = record {
  queue = record {
    bits = 3;
    bits_lt = omega arith;
    capacity_eq = refl;
    mask_eq = refl;
    head_lt = omega arith;
    tail_lt = omega arith;
    fits = omega arith;
  };
  handles = tt;
}

-- the thread counts the coroutines that it resumes
abbrev counting : Program ℕ
counting = record {
  process_inbox = λ s. s;
  done = λ h s. false;
  resume = λ h s. s;
  record_task_executed = λ s. record s { rest = s.rest + 1 };
  submit = λ s. s;
  poll = λ s. s;
  wait = λ w s. (0, s);
  etime = 62;
}

abbrev asleep : Thread ℕ
asleep = record {
  wheel = add_timer 1 (make memory);
  ready = nothing_ready;
  last_tick_time = 100;
  rest = 0;
}

turn-Wakes_example : Wakes counting 5 (omega arith) expires handles 300 300 asleep 0 one_timer.0
turn-Wakes_example =
    turn-Wakes counting 5 (omega arith) expires handles 300 300 0 asleep one_timer.0 (λ s. refl)
      (λ x at. omega arith) one_timer.1 nothing_ready-IsReady refl (omega arith) (omega arith)
      (omega arith) (omega arith)

counted : (s : Thread ℕ) → IsInTime 5 s → IsInTime 5 (counting.record_task_executed s)
counted s v = record {
  expires = v.expires;
  handles = v.handles;
  at = v.at;
  timers = v.timers;
  wheel = v.wheel;
  behind = v.behind;
}

asleep-IsInTime : IsInTime 5 asleep
asleep-IsInTime = record {
  expires = expires;
  handles = handles;
  at = 0;
  timers = one_timer.0;
  wheel = one_timer.1;
  behind = omega arith;
}

two_turns :
    (s' : Thread ℕ) × (run_turns counting 5 ((300, 300) ∷ (310, 311) ∷ []) asleep ≡ some s')
    × IsInTime 5 s'
two_turns =
    run_turns-IsInTime 5 counting (omega arith) (λ s v. v) (λ h s v. v) counted (λ s v. v)
      (λ s v. v) (λ w s v. v) ((300, 300) ∷ (310, 311) ∷ []) asleep (omega arith, (omega arith, tt))
      asleep-IsInTime
