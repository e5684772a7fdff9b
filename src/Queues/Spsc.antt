-- ===== src/Queues/Spsc.antt =====
-- `SpscQueue<T>` of include/novaio/concurrent_queues.hpp: the inbox of a scheduler. Here each
-- call runs whole; Race has its steps.
pub mod Refine
pub mod Pop
pub mod Race
mod Tests
use novaio.Prelude.{
  ℕ, zero, suc, ◌+◌, ◌-◌, ◌%◌, ◌^◌, bit_and, Bool, true, false, Option, none, some, ◌==◌, ltb,
  if◌then◌else◌,
}
use novaio.Queues.Capacity.{is_bad_capacity, mask_of}
use novaio.Queues.Window.{write}

module _ {ℓ} where
  -- `buffer` is raw storage for `capacity` items: a slot holds none until an item is constructed
  -- in it, and again once that is destroyed.
  pub record SpscQueue (A : Type ℓ) : Type ℓ where
    pub capacity : ℕ
    pub mask : ℕ
    pub tail : ℕ  -- size_t
    pub head : ℕ  -- size_t
    pub buffer : ℕ → Option A

module _ {ℓ} {A : Type ℓ} where
  -- `none` is the exception `std::invalid_argument`.
  unfoldable pub make : ℕ → Option (SpscQueue A)
  unfolding is_bad_capacity
  make capacity =
      if is_bad_capacity capacity
      then none
      else some (record {
        capacity = capacity;
        mask = mask_of capacity;
        tail = 0;
        head = 0;
        buffer = λ _. none;
      })

  -- False, with the queue as it was, if the queue is full.
  unfoldable pub push : SpscQueue A → A → Bool × SpscQueue A
  push q item =
      let next_tail = (q.tail + 1) % 2 ^ 64 in
      if ltb q.capacity ((next_tail + 2 ^ 64 - q.head) % 2 ^ 64) then (false, q) else (
        true,
        record q { buffer = write q.buffer (bit_and q.tail q.mask) (some item); tail = next_tail },
      )

  -- `none` for false; else the value moved to `item_out`. The slot's item is destroyed.
  unfoldable pub pop : SpscQueue A → Option A × SpscQueue A
  pop q = if q.head == q.tail then (none, q) else (
    q.buffer (bit_and q.head q.mask),
    record q { buffer = write q.buffer (bit_and q.head q.mask) none; head = (q.head + 1) % 2 ^ 64 },
  )

  -- The loop of `~SpscQueue`, with fuel for its rounds; `none` if the fuel runs out.
  destroy_loop : ℕ → SpscQueue A → Option (SpscQueue A)
  destroy_loop zero q = none
  destroy_loop (suc fuel) q =
      let rest = destroy_loop fuel (record q {
        buffer = write q.buffer (bit_and q.head q.mask) none;
        head = (q.head + 1) % 2 ^ 64;
      }) in
      if q.head == q.tail then some q else rest

  -- `~SpscQueue`: there are at most `capacity` items, so as many rounds and a last test.
  unfoldable pub destroy : SpscQueue A → Option (SpscQueue A)
  unfolding destroy_loop
  destroy q = destroy_loop (suc q.capacity) q
