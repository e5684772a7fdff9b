-- ===== src/WhenAll.antt =====
-- include/novaio/when_all.hpp: the counter of `when_all`. Each of its tasks notifies it once, when the
-- task has ended; the decrement is atomic, so the notifications are one sequence.
pub mod Last
pub mod Results
pub mod Start
mod Tests
use novaio.Prelude.{ℕ, ◌+◌, ◌-◌, ◌%◌, ◌^◌, Bool, List, [], ◌∷◌, ◌==◌, if◌then◌else◌}
use novaio.Handle.{Handle, null}

pub record WhenAllCounter : Type 0 where
  pub count : ℕ  -- size_t
  pub continuation : Handle

-- what a notification does with the continuation, on a thread with or without a scheduler
pub data Resume : Type 0 where
  nothing : Resume
  schedule : Handle → Resume
  resume : Handle → Resume

-- whether there is nothing to wait for
unfoldable pub await_ready : ℕ → Bool
await_ready tasks = tasks == 0

-- the counter of an awaiter, and `await_suspend` up to the start of the tasks
unfoldable pub make : ℕ → WhenAllCounter
make tasks = record { count = tasks; continuation = null }

unfoldable pub await_suspend : Handle → WhenAllCounter → WhenAllCounter
await_suspend h c = record c { continuation = h }

unfoldable pub notify : Bool → WhenAllCounter → WhenAllCounter × Resume
notify sched c = (
  record c { count = (c.count + 2 ^ 64 - 1) % 2 ^ 64 },
  if c.count == 1
      then (if c.continuation == null
          then nothing
          else if sched
          then schedule c.continuation
          else resume c.continuation)
      else nothing,
)

-- The notifications of tasks that end in some order, each on a thread of its own.
unfoldable pub notify_each : List Bool → WhenAllCounter → WhenAllCounter × List Resume
notify_each [] c = (c, [])
notify_each (sched ∷ rest) c =
    let (c', r) = notify sched c in let (c'', rs) = notify_each rest c' in (c'', r ∷ rs)
