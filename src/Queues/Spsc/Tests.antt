-- ===== src/Queues/Spsc/Tests.antt =====
-- include/novaio/concurrent_queues.hpp: runs of `SpscQueue`, and its theorems at a concrete queue.
use novaio.Prelude.{
  ℕ, ◌-◌, ◌^◌, ◌<◌, ◌≡◌, refl, false, none, some, [], ◌∷◌, arith, ◌==◌, if◌then◌else◌,
}
use novaio.Queues.Spsc.{SpscQueue, push, pop, destroy}
use novaio.Queues.Spsc.Refine.{Holds, Pushes, push-Pushes}
use novaio.Queues.Spsc.Pop.{Pops, pop-Pops, destroy_raw}

-- two slots, with the counters about to wrap, one of them taken: 5
abbrev wrapping : SpscQueue ℕ
wrapping = record {
  capacity = 2;
  mask = 1;
  tail = 0;
  head = 2 ^ 64 - 1;
  buffer = λ i. if i == 1 then some 5 else none;
}

wrapping-Holds : Holds wrapping (5 ∷ [])
wrapping-Holds = record {
  shape = record {
    bits = 1;
    bits_lt = omega arith;
    capacity_eq = refl;
    mask_eq = refl;
    head_lt = omega arith;
    tail_lt = omega arith;
    fits = omega arith;
  };
  items = refl;
  raw = λ i lo hi. ground arith;
}

run :
    ((push (push wrapping 6).1 7).0 ≡ false)
    × ((pop (push wrapping 6).1).0 ≡ some 5)
    × ((pop (pop wrapping).1).0 ≡ none)
unfolding push pop
run = (refl, refl, refl)

push-Pushes_example : Pushes wrapping (5 ∷ []) 6 (push wrapping 6)
push-Pushes_example = push-Pushes wrapping (5 ∷ []) 6 wrapping-Holds

pop-Pops_example : Pops wrapping (5 ∷ []) (pop wrapping)
pop-Pops_example = pop-Pops wrapping (5 ∷ []) wrapping-Holds

destroys_one :
    (q : SpscQueue ℕ) × (destroy wrapping ≡ some q) × ((j : ℕ) → j < 2 → q.buffer j ≡ none)
destroys_one = destroy_raw wrapping (5 ∷ []) wrapping-Holds
