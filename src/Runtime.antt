-- ===== src/Runtime.antt =====
-- src/runtime.cpp: `dispatch_on`, which gives a task to the thread of a core, and the schedulers that
-- `start` makes and `stop` wakes. The ring of a core is
-- named by its file descriptor; a core whose engine is not initialized has none.
pub mod Dispatch
pub mod Lifecycle
pub mod Notify
pub mod Delivery
mod Tests
use novaio.Prelude.{
  ℕ, zero, suc, ◌+◌, Bool, true, false, ◌||◌, Option, none, some, List, [], ◌∷◌, ◌++◌,
  if◌then◌else◌, ◌>>=◌, length,
}
use novaio.Queues.Spsc.{SpscQueue, push, make}
use novaio.IoEngine.Submit.{Sqe, send_msg_ring}

pub record Core (T : Type 0) : Type 0 where
  pub inbox : SpscQueue T
  pub ring_fd : Option ℕ

module _ {T : Type 0} where
  -- the body of `dispatch_on`, for the core that it finds: the core, and the ring that is notified
  unfoldable pub dispatch : T → Core T → Core T × Option ℕ
  dispatch task c =
      let (pushed, inbox) = push c.inbox task in
      (record c { inbox = inbox }, if pushed then c.ring_fd else none)

  -- A core that is out of range gets nothing.
  unfoldable pub dispatch_on : ℕ → T → List (Core T) → List (Core T) × Option ℕ
  dispatch_on core_id task [] = ([], none)
  dispatch_on zero task (c ∷ cores) = ((dispatch task c).0 ∷ cores, (dispatch task c).1)
  dispatch_on (suc core_id) task (c ∷ cores) =
      let (cores', ring) = dispatch_on core_id task cores in (c ∷ cores', ring)

-- how `notify_target_ring` sends its message: on the engine of the thread's scheduler, where `none` is
-- the use of a null pointer; on the thread's own ring; or not at all
pub data Notified : Type 0 where
  by_engine : Option Sqe → Notified
  by_own_ring : ℕ → ℕ → Notified
  dropped : Notified

-- `notify_target_ring` up to its loop, which is `drain` of Runtime/Notify: by whether the thread
-- has a scheduler, and whether the first and the second attempt get an entry
unfoldable pub notify_target_ring : Bool → Bool → Bool → ℕ → ℕ → Notified
notify_target_ring current_sched granted granted_again target_fd msg_data =
    if current_sched
    then by_engine (send_msg_ring granted granted_again target_fd msg_data)
    else if granted || granted_again
    then by_own_ring target_fd msg_data
    else dropped

-- the loop of `stop`, which wakes each core with a task that does nothing
unfoldable pub stop_loop : {T : Type 0} → ℕ → ℕ → T → List (Core T) → List (Core T)
stop_loop zero i idle_task cores = cores
stop_loop (suc n) i idle_task cores =
    stop_loop n (i + 1) idle_task (dispatch_on i idle_task cores).0

-- The worker threads are named by the schedulers that they run.
pub record Runtime (T : Type 0) : Type 0 where
  pub is_running : Bool
  pub schedulers : List (Core T)
  pub workers : List ℕ

unfoldable pub new_workers : ℕ → ℕ → List ℕ
new_workers zero i = []
new_workers (suc n) i = i ∷ new_workers n (i + 1)

module _ {T : Type 0} where
  -- the parts of a new `Scheduler` that other threads use
  unfoldable pub new_core : Option (Core T)
  new_core = do inbox ← make 65536; some (record { inbox = inbox; ring_fd = none })

  unfoldable pub new_cores : ℕ → Option (List (Core T))
  new_cores zero = some []
  new_cores (suc n) = do core ← new_core; cores ← new_cores n; some (core ∷ cores)

  -- `none` is an exception of a constructor.
  unfoldable pub start : ℕ → Runtime T → Option (Runtime T)
  start num_cores rt = do
    cores ← new_cores num_cores
    some (record {
      is_running = true;
      schedulers = rt.schedulers ++ cores;
      workers = rt.workers ++ new_workers num_cores 0;
    })

  -- `stop` up to the point where it waits for the threads
  unfoldable pub stop : T → Runtime T → Runtime T
  stop idle_task rt = record rt {
    is_running = false;
    schedulers = stop_loop (length rt.schedulers) 0 idle_task rt.schedulers;
  }

  abbrev pub not_started : Runtime T
  not_started = record { is_running = true; schedulers = []; workers = [] }
