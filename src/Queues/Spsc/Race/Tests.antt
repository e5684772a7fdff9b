-- ===== src/Queues/Spsc/Race/Tests.antt =====
-- include/novaio/concurrent_queues.hpp: a run in which `push` and `pop` overlap, and then end.
use novaio.Prelude.{ℕ, ◌≤◌, ◌≡◌, refl, ◌≢◌, Option, none, some, List, [], ◌∷◌, ◌++◌, arith, length}
use novaio.Queues.Window.{write}
use novaio.Queues.Spsc.{SpscQueue}
use novaio.Queues.Spsc.Refine.{Holds}
use novaio.Queues.Spsc.Race.{
  idle, writing, moving, destroying, Race, push_begins, push_passes, push_constructs, push_stores,
  pop_begins, pop_passes, pop_moves, Reach, begins, moves,
}
use novaio.Queues.Spsc.Race.Fifo.{popped_in_order, uses_at, slots_disjoint}
use novaio.Queues.Spsc.Race.Alone.{push_of, run_whole, IsOutside, run_whole-Reach}

-- an empty queue of two slots
abbrev pair : SpscQueue ℕ
pair = record { capacity = 2; mask = 1; tail = 0; head = 0; buffer = λ _. none }

pair-Holds : Holds pair []
pair-Holds = record {
  shape = record {
    bits = 1;
    bits_lt = omega arith;
    capacity_eq = refl;
    mask_eq = refl;
    head_lt = omega arith;
    tail_lt = omega arith;
    fits = omega arith;
  };
  items = refl;
  raw = λ i lo hi. refl;
}

-- 5 is pushed; then 6 is about to be constructed while the consumer is about to destroy 5
abbrev busy : Race ℕ
busy = record {
  queue = record pair { tail = 1; buffer = write (λ _. none) 0 (some 5) };
  producer = writing 6 1;
  consumer = destroying 0 (some 5);
  pushed = 5 ∷ [];
  popped = [];
}

busy-Reach : Reach pair busy
busy-Reach =
    moves
      (moves
        (moves
          (moves
            (moves
              (moves
                (moves (moves (moves begins (push_begins 5 refl)) (push_passes 5 0 refl refl))
                  (push_constructs 5 0 refl))
                (pop_begins refl))
              (push_stores 5 0 refl))
            (pop_passes 0 refl (omega arith)))
          (push_begins 6 refl))
        (push_passes 6 1 refl refl))
      (pop_moves 0 refl)

popped_in_order_example :
    (on_the_way : List (Option ℕ)) × (some 5 ∷ [] ≡ [] ++ on_the_way) × (length on_the_way ≤ 2)
popped_in_order_example = popped_in_order pair-Holds busy-Reach

slots_disjoint_example : (busy.queue.buffer 1 ≡ none) × (uses_at busy.consumer busy.queue ≢ some 1)
slots_disjoint_example = slots_disjoint 1 pair-Holds busy-Reach refl

-- 5 has been pushed, and the consumer has tested that
abbrev tested : Race ℕ
tested = record {
  queue = record pair { tail = 1; buffer = write (λ _. none) 0 (some 5) };
  producer = idle;
  consumer = moving 0;
  pushed = 5 ∷ [];
  popped = [];
}

tested-Reach : Reach pair tested
tested-Reach =
    moves
      (moves
        (moves
          (moves (moves (moves begins (push_begins 5 refl)) (push_passes 5 0 refl refl))
            (push_constructs 5 0 refl))
          (push_stores 5 0 refl))
        (pop_begins refl))
      (pop_passes 0 refl (omega arith))

tested_run : Reach pair (run_whole (push_of 7) tested)
unfolding IsOutside
tested_run = run_whole-Reach (push_of 7) tested-Reach refl
