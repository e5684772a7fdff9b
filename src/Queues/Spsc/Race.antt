-- ===== src/Queues/Spsc/Race.antt =====
-- include/novaio/concurrent_queues.hpp: a producer in `push` and a consumer in `pop` of one
-- `SpscQueue`, interleaved. Each load, store and use of a slot is a step. The load of a thread's own
-- counter is one step with the start of the call, as nobody else writes it.
pub mod Slots
pub mod Invariant
pub mod Pushing
pub mod Popping
pub mod Fifo
pub mod Alone
mod Tests
use novaio.Prelude.{
  ℕ, ◌+◌, ◌-◌, ◌%◌, ◌^◌, bit_and, ◌≡◌, ◌≢◌, Bool, true, false, Option, none, some, List, [], ◌∷◌,
  ◌++◌, ltb,
}
use novaio.Queues.Spsc.{SpscQueue}
use novaio.Queues.Window.{write}

module _ {ℓ} where
  -- Where the producer stands: outside `push`; before its test, before it constructs the item, and
  -- before it stores `tail_`. It knows the item, and its own `tail`.
  pub data Producer (A : Type ℓ) : Type ℓ where
    idle : Producer A
    checking writing storing : A → ℕ → Producer A

  -- Where the consumer stands: outside `pop`; before its test, before it moves the item out, before it
  -- destroys the item in its slot, and before it stores `head_`. It knows its own `head`, and from the
  -- third step on what it moved out.
  pub data Consumer (A : Type ℓ) : Type ℓ where
    resting : Consumer A
    testing moving : ℕ → Consumer A
    destroying leaving : ℕ → Option A → Consumer A

  -- The items of the calls of `push` that returned true, and what the calls of `pop` that returned
  -- true moved out, are not part of the program.
  pub record Race (A : Type ℓ) : Type ℓ where
    pub queue : SpscQueue A
    pub producer : Producer A
    pub consumer : Consumer A
    pub pushed : List A
    pub popped : List (Option A)

module _ {ℓ} {A : Type ℓ} where
  -- `next_tail - head_ > capacity_`
  abbrev pub is_full : SpscQueue A → ℕ → Bool
  is_full q tail = ltb q.capacity (((tail + 1) % 2 ^ 64 + 2 ^ 64 - q.head) % 2 ^ 64)

  abbrev pub set_slot : SpscQueue A → ℕ → Option A → SpscQueue A
  set_slot q i v = record q { buffer = write q.buffer (bit_and i q.mask) v }

  pub data Step (s : Race A) : Race A → Type ℓ where
    push_begins :
        (item : A) → s.producer ≡ idle → Step s (record s { producer = checking item s.queue.tail })
    push_fails :
        (item : A) (tail : ℕ)
        → s.producer ≡ checking item tail
        → is_full s.queue tail ≡ true
        → Step s (record s { producer = idle })
    push_passes :
        (item : A) (tail : ℕ)
        → s.producer ≡ checking item tail
        → is_full s.queue tail ≡ false
        → Step s (record s { producer = writing item tail })
    push_constructs :
        (item : A) (tail : ℕ)
        → s.producer ≡ writing item tail
        → Step s
            (record s { producer = storing item tail; queue = set_slot s.queue tail (some item) })
    push_stores :
        (item : A) (tail : ℕ)
        → s.producer ≡ storing item tail
        → Step s (record s {
          producer = idle;
          queue = record s.queue { tail = (tail + 1) % 2 ^ 64 };
          pushed = s.pushed ++ item ∷ [];
        })
    pop_begins : s.consumer ≡ resting → Step s (record s { consumer = testing s.queue.head })
    pop_fails :
        (head : ℕ)
        → s.consumer ≡ testing head
        → head ≡ s.queue.tail
        → Step s (record s { consumer = resting })
    pop_passes :
        (head : ℕ)
        → s.consumer ≡ testing head
        → head ≢ s.queue.tail
        → Step s (record s { consumer = moving head })
    pop_moves :
        (head : ℕ)
        → s.consumer ≡ moving head
        → Step s
            (record s { consumer = destroying head (s.queue.buffer (bit_and head s.queue.mask)) })
    pop_destroys :
        (head : ℕ) (out : Option A)
        → s.consumer ≡ destroying head out
        → Step s (record s { consumer = leaving head out; queue = set_slot s.queue head none })
    pop_stores :
        (head : ℕ) (out : Option A)
        → s.consumer ≡ leaving head out
        → Step s (record s {
          consumer = resting;
          queue = record s.queue { head = (head + 1) % 2 ^ 64 };
          popped = s.popped ++ out ∷ [];
        })

  -- a queue that nobody uses yet
  abbrev pub start : SpscQueue A → Race A
  start q = record { queue = q; producer = idle; consumer = resting; pushed = []; popped = [] }

  pub data Reach (q : SpscQueue A) : Race A → Type ℓ where
    begins : Reach q (start q)
    moves : {s t : Race A} → Reach q s → Step s t → Reach q t
