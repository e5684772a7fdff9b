-- ===== src/Scheduler/Run.antt =====
-- src/scheduler.cpp: a turn of `run`. The tasks of the inbox, the coroutines, the engine and the
-- kernel are arguments, as they may do anything to the thread; so is the clock. With them
-- `process_inbox`, `poll` and `metrics_record_task_executed` are arguments here.
pub mod Idle
pub mod Wakes
pub mod Keeps
mod Tests
use novaio.Prelude.{
  ℕ, ◌+◌, ◌-◌, Bool, ◌||◌, Option, some, List, [], ◌∷◌, ltb, ◌==◌, if◌then◌else◌, ◌>>=◌,
}
use novaio.Handle.{Handle}
use novaio.TimeWheel.{TimeWheel, next_timeout}
use novaio.Scheduler.{
  Scheduler, schedule, try_dequeue_batch, batch_pipeline_depth, run_batch, Wait, wait_for, catch_up,
}

module _ {ℓ} where
  -- a thread in `run`; `rest` is what its turns do not touch themselves
  pub record Thread (A : Type ℓ) : Type ℓ where
    pub wheel : TimeWheel
    pub ready : Scheduler
    pub last_tick_time : ℕ
    pub rest : A

-- The timers that fire schedule their coroutines, one after the other.
unfoldable pub schedule_all : List Handle → Scheduler → Scheduler
schedule_all [] s = s
schedule_all (h ∷ hs) s = schedule_all hs (schedule h s)

-- What the thread runs: the tasks of the inbox; whether a coroutine is done, and its next part;
-- `metrics_record_task_executed`; the submission to the kernel, `poll`, and the wait for a completion,
-- with its result; and `-ETIME`.
pub record Program {ℓ} (A : Type ℓ) : Type ℓ where
  pub process_inbox : Thread A → Thread A
  pub done : Handle → Thread A → Bool
  pub resume : Handle → Thread A → Thread A
  pub record_task_executed : Thread A → Thread A
  pub submit : Thread A → Thread A
  pub poll : Thread A → Thread A
  pub wait : Wait → Thread A → ℕ × Thread A
  pub etime : ℕ

module _ {ℓ} {A : Type ℓ} (p : Program A) where
  -- the ticks from `last_tick_time + 1` to `now`, with fuel for the wheel
  unfoldable pub let_wheel_catch_up : ℕ → ℕ → Thread A → Option (Thread A)
  let_wheel_catch_up fuel now s =
      if ltb s.last_tick_time now
      then (do
        (w, hs) ← catch_up (now - s.last_tick_time) fuel (s.last_tick_time + 1) s.wheel
        some (record s { wheel = w; ready = schedule_all hs s.ready; last_tick_time = now }))
      else some s

  -- `process_io_events` at a time
  unfoldable pub process_io_events : ℕ → Thread A → Thread A
  process_io_events later s =
      let (ret, s) = p.wait (wait_for (next_timeout later s.wheel)) s in
      if (ret == 0) || (ret == p.etime) then p.poll s else s

  -- what a turn does with its batch, or without one, at the time `later` when it waits
  unfoldable pub use_batch : ℕ → List Handle → Thread A → Thread A
  use_batch later [] s = process_io_events later (p.submit s)
  use_batch later (h ∷ batch) s =
      p.poll (run_batch p.done p.resume p.record_task_executed (h ∷ batch) s)

  unfoldable pub turn : ℕ → ℕ → ℕ → Thread A → Option (Thread A)
  turn fuel now later s = do
    s ← let_wheel_catch_up fuel now s
    let s = p.process_inbox s
    let (batch, ready) = try_dequeue_batch batch_pipeline_depth s.ready
    some (use_batch later batch (record s { ready = ready }))

  -- the loop of `run`, by the times of its turns until the runtime no longer runs
  unfoldable pub run_turns : ℕ → List (ℕ × ℕ) → Thread A → Option (Thread A)
  run_turns fuel [] s = some s
  run_turns fuel ((now, later) ∷ times) s = do s ← turn fuel now later s; run_turns fuel times s
