-- ===== src/Scheduler.antt =====
-- include/novaio/scheduler.hpp and src/scheduler.cpp: the runnable coroutines of a thread. A turn of
-- `run` takes a batch of them and resumes it.
pub mod Batch
pub mod Inbox
pub mod Numa
pub mod CatchUp
pub mod Run
pub mod Setup
mod Tests
use novaio.Prelude.{
  ℕ, zero, suc, ◌+◌, ◌-◌, ◌*◌, ◌/◌, ◌%◌, ◌^◌, Bool, true, not, ◌&&◌, Option, some, List, [], ◌∷◌,
  ◌++◌, ◌==◌, if◌then◌else◌, ◌>>=◌,
}
use novaio.Handle.{Handle, null}
use novaio.Queues.Local.{LocalQueue, push, pop}
use novaio.TimeWheel.{TimeWheel, tick}

abbrev pub batch_pipeline_depth : ℕ
batch_pipeline_depth = 16

pub record Scheduler : Type 0 where
  pub local_queue : LocalQueue
  pub runnext : Handle

unfoldable pub schedule : Handle → Scheduler → Scheduler
schedule handle s =
    if s.runnext == null
    then record s { runnext = handle }
    else record s { local_queue = push s.local_queue handle }

-- The loop of `try_dequeue_batch` with room for `n` more handles.
unfoldable pub dequeue_loop : ℕ → LocalQueue → List Handle × LocalQueue
dequeue_loop zero q = ([], q)
dequeue_loop (suc n) q =
    let (h, q') = pop q in
    let (batch, q'') = dequeue_loop n q' in if h == null then ([], q') else (h ∷ batch, q'')

unfoldable pub try_dequeue_batch : ℕ → Scheduler → List Handle × Scheduler
try_dequeue_batch max_count s =
    let (batch, q) =
      dequeue_loop (if s.runnext == null then max_count else max_count - 1) s.local_queue in
    (
      if s.runnext == null then batch else s.runnext ∷ batch,
      record { local_queue = q; runnext = null },
    )

-- What a turn of `run` does with its batch: `done` says which coroutines are finished, and `resume`
-- runs one until it suspends, on the state `A` of the thread, which holds the count of tasks.
unfoldable pub run_batch {ℓ} :
    {A : Type ℓ} → (Handle → A → Bool) → (Handle → A → A) → (A → A) → List Handle → A → A
run_batch done resume record_task_executed [] a = a
run_batch done resume record_task_executed (h ∷ batch) a =
    run_batch done resume record_task_executed batch
      (if not (h == null) && not (done h a) then record_task_executed (resume h a) else a)

-- What a turn of `run` waits for, when it has an empty batch: for good, not at all, or for a time
-- in seconds and nanoseconds.
pub data Wait : Type 0 where
  wait_cqe : Wait
  peek_cqe : Wait
  wait_cqe_timeout : ℕ → ℕ → Wait

unfoldable pub wait_for : ℕ → Wait
wait_for exact_timeout_ms =
    if exact_timeout_ms == 2 ^ 64 - 1
    then wait_cqe
    else if exact_timeout_ms == 0
    then peek_cqe
    else wait_cqe_timeout (exact_timeout_ms / 1000) (exact_timeout_ms % 1000 * 1000000)

-- How `run` lets the wheel catch up, from the tick after `last_tick_time`, here with `n` ticks to go:
-- the wheel, and the coroutines that are scheduled.
unfoldable pub catch_up : ℕ → ℕ → ℕ → TimeWheel → Option (TimeWheel × List Handle)
catch_up zero fuel t w = some (w, [])
catch_up (suc n) fuel t w = do
  (w, hs) ← tick fuel true t w
  (w, hs') ← catch_up n fuel (t + 1) w
  some (w, hs ++ hs')
