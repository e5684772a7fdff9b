-- ===== src/Queues/Local/Tests.antt =====
-- include/novaio/concurrent_queues.hpp: runs of `LocalQueue`, and its theorems at concrete queues.
use novaio.Prelude.{ℕ, ◌-◌, ◌^◌, ◌≡◌, refl, ◌↔◌, ◌⊎◌, true, false, none, arith, ◌==◌, if◌then◌else◌}
use novaio.Queues.Capacity.{is_bad_capacity, is_bad_capacity_iff, IsPowerOfTwo}
use novaio.Queues.Local.{LocalQueue, make, push, pop, empty}
use novaio.Queues.Local.Refine.{IsValid, Pops, pop_refines, pop-push_full}

-- four slots, with the counters about to wrap: 5, then 6
abbrev wrapping : LocalQueue
wrapping = record {
  capacity = 4;
  mask = 3;
  head = 2 ^ 32 - 1;
  tail = 1;
  buffer = λ i. if i == 3 then 5 else if i == 0 then 6 else 0;
}

wrapping-IsValid : IsValid wrapping
wrapping-IsValid = record {
  bits = 2;
  bits_lt = omega arith;
  capacity_eq = refl;
  mask_eq = refl;
  head_lt = omega arith;
  tail_lt = omega arith;
  fits = omega arith;
}

-- two slots, both taken: 8, then 9
abbrev full : LocalQueue
full = record { capacity = 2; mask = 1; head = 0; tail = 2; buffer = λ i. if i == 0 then 8 else 9 }

full-IsValid : IsValid full
full-IsValid = record {
  bits = 1;
  bits_lt = omega arith;
  capacity_eq = refl;
  mask_eq = refl;
  head_lt = omega arith;
  tail_lt = omega arith;
  fits = omega arith;
}

run : ((pop wrapping).0 ≡ 5) × (empty (pop (pop wrapping).1).1 ≡ true) × (make 3 ≡ none)
unfolding pop empty make
run = (refl, refl, refl)

-- A capacity of 0 passes the constructor's test.
make_zero : is_bad_capacity 0 ≡ false
unfolding is_bad_capacity
make_zero = refl

is_bad_capacity_iff_example : (is_bad_capacity 12 ≡ false) ↔ (◌≡◌ {A = ℕ} 12 0 ⊎ IsPowerOfTwo 12)
is_bad_capacity_iff_example = is_bad_capacity_iff 12 (omega arith)

takes_oldest : Pops wrapping (pop wrapping)
takes_oldest = pop_refines wrapping-IsValid

pop-push_full_example : (pop (push full 10)).0 ≡ 10
pop-push_full_example = pop-push_full 10 full-IsValid refl
