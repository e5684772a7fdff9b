-- ===== src/Queues/Local.antt =====
-- `LocalQueue` of include/novaio/concurrent_queues.hpp: a scheduler's queue of runnable coroutines.
-- `push` makes no check for room.
pub mod Refine
mod Tests
use novaio.Prelude.{ℕ, ◌+◌, ◌%◌, ◌^◌, bit_and, Bool, Option, none, some, ◌==◌, if◌then◌else◌}
use novaio.Handle.{Handle, null}
use novaio.Queues.Capacity.{is_bad_capacity, mask_of}
use novaio.Queues.Window.{write}

-- `buffer` is the array of `capacity` handles that the constructor allocates.
pub record LocalQueue : Type 0 where
  pub capacity : ℕ
  pub mask : ℕ
  pub head : ℕ  -- uint32_t
  pub tail : ℕ  -- uint32_t
  pub buffer : ℕ → Handle

-- `none` is the exception `std::invalid_argument`.
pub make : ℕ → Option LocalQueue
unfolding is_bad_capacity
make capacity =
    if is_bad_capacity capacity
    then none
    else some (record {
      capacity = capacity;
      mask = mask_of capacity;
      head = 0;
      tail = 0;
      buffer = λ _. null;
    })

unfoldable pub push : LocalQueue → Handle → LocalQueue
push q item = record q {
  buffer = write q.buffer (bit_and q.tail q.mask) item;
  tail = (q.tail + 1) % 2 ^ 32;
}

-- A null handle says that the queue is empty.
unfoldable pub pop : LocalQueue → Handle × LocalQueue
pop q =
    if q.head == q.tail
    then (null, q)
    else (q.buffer (bit_and q.head q.mask), record q { head = (q.head + 1) % 2 ^ 32 })

unfoldable pub empty : LocalQueue → Bool
empty q = q.head == q.tail
