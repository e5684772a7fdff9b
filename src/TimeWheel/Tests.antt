-- ===== src/TimeWheel/Tests.antt =====
-- src/time_wheel.cpp: runs of the wheel, and its theorems at concrete timers.
use novaio.Prelude.{
  ℕ, ◌+◌, ◌-◌, ◌*◌, ◌%◌, ◌^◌, ◌≤◌, ◌<◌, ◌≡◌, refl, ◌≢◌, ◌↔◌, ◌⊎◌, inl, true, false, Option, none,
  some, List, [], ◌∷◌, arith, ◌>>=◌,
}
use novaio.Handle.{Handle}
use novaio.TimeWheel.Cells.{Ptr, cell_of}
use novaio.TimeWheel.{
  TimerNode, TimeWheel, make, add_timer, tick, tick_loop, round, fire_loop, cascades, cascade,
  cascade_loop, next_timeout, sleep_suspend, remove_timer,
}
use novaio.TimeWheel.Lists.{Lists}
use novaio.TimeWheel.Timing.{In}
use novaio.TimeWheel.Exact.{
  IsWheel, Ticked, tick_exact, add_timer-IsWheel, make-IsWheel, sleep_suspend-IsWheel, expires_then,
  handles_then,
}
use novaio.TimeWheel.Remove.Exact.{remove_timer-IsWheel}
use novaio.TimeWheel.Linked.{has}
use novaio.TimeWheel.Sleep.{sleep_for, sleep_for-Ticked}
use novaio.TimeWheel.Stale.{tick-Stale}
use novaio.TimeWheel.Timeout.{next_timeout_first, next_timeout_oversleeps}

-- node 1 expires at 257, node 2 at 300, and so on; node `x` resumes coroutine `x + 7`
abbrev memory : Ptr → TimerNode
memory x = record {
  expires_at = 257 + (x - 1) * 43;
  handle = x + 7;
  next = 0;
  prev = 0;
  head_ptr = none;
}

abbrev expires : Ptr → ℕ
expires x = (memory x).expires_at

abbrev handles : Ptr → Handle
handles x = (memory x).handle

abbrev fresh : TimeWheel
fresh = make memory

-- timers for 257 and 300, both in the second array, the wheel being at tick 255
abbrev two : TimeWheel
two = record (add_timer 2 (add_timer 1 fresh)) { current_tick = 255 }

abbrev handles_of : Option (TimeWheel × List Handle) → Option (List Handle)
handles_of m = m >>= λ r. some r.1

abbrev count_of : Option (TimeWheel × List Handle) → Option ℕ
count_of m = m >>= λ r. some r.0.active_timers

-- The first timer fires when tick 257 is over, and nothing does on a thread without a scheduler.
two_fire :
    (handles_of (tick 5 true 257 two) ≡ some [])
    × (handles_of (tick 5 true 258 two) ≡ some (8 ∷ []))
    × (handles_of (tick 5 false 258 two) ≡ some [])
unfolding tick tick_loop round fire_loop cascades cascade cascade_loop add_timer make cell_of
two_fire = (refl, refl, refl)

-- A cascade counts its timers again, and no timer that fires is taken off the count.
count_drifts : count_of (tick 5 true 258 two) ≡ some 4
unfolding tick tick_loop round fire_loop cascades cascade cascade_loop add_timer make cell_of
count_drifts = refl

one_added :
    (L' : Lists) × IsWheel 5 expires handles 0 (add_timer 1 fresh) L'
    × ((a : Ptr) → In a L' ↔ ((a ≡ 1) ⊎ In a (λ c. [])))
one_added =
    add_timer-IsWheel 5 (omega arith) expires handles 0 1 fresh (λ c. []) (make-IsWheel 5 memory)
      (omega arith) (omega arith) (λ c. refl) (omega arith) (omega arith)

add_timer-IsWheel_example :
    (L' : Lists) × IsWheel 5 expires handles 0 (add_timer 1 fresh) L'
    × ((a : Ptr) → In a L' ↔ ((a ≡ 1) ⊎ In a (λ c. [])))
add_timer-IsWheel_example =
    add_timer-IsWheel 5 (omega arith) expires handles 0 1 fresh (λ c. []) (make-IsWheel 5 memory)
      (omega arith) (omega arith) (λ c. refl) (omega arith) (omega arith)

tick_exact_example :
    Ticked 5 (omega arith) expires handles true 0 300 (add_timer 1 fresh) one_added.0
tick_exact_example =
    tick_exact 5 (omega arith) expires handles true 0 300 (add_timer 1 fresh) one_added.0
      (omega arith) (omega arith) one_added.1

sleeps_30_ms :
    (L' : Lists) × IsWheel 5
      (expires_then 5 expires handles 20 30 3 9)
      (handles_then 5 expires handles 20 30 3 9)
      0
      (sleep_suspend 20 30 9 3 fresh)
      L'
    × ((a : Ptr) → In a L' ↔ ((a ≡ 3) ⊎ In a (λ c. [])))
sleeps_30_ms =
    sleep_suspend-IsWheel 5 expires handles 20 30 3 9 0 fresh (λ c. []) (make-IsWheel 5 memory)
      (omega arith) (omega arith) (λ c. refl) (omega arith) (omega arith)

-- the wheel with the one timer of node 1, as its theorem describes it
abbrev one : TimeWheel
one = add_timer 1 fresh

abbrev soon : Ptr → TimerNode
soon x = record { expires_at = 40; handle = x; next = 0; prev = 0; head_ptr = none }

soon_added :
    (L' : Lists) × IsWheel 5 (λ x. 40) (λ x. x) 0 (add_timer 1 (make soon)) L'
    × ((a : Ptr) → In a L' ↔ ((a ≡ 1) ⊎ In a (λ c. [])))
soon_added =
    add_timer-IsWheel 5 (omega arith) (λ x. 40) (λ x. x) 0 1 (make soon) (λ c. [])
      (make-IsWheel 5 soon) (omega arith) (omega arith) (λ c. refl) (omega arith) (omega arith)

next_timeout_is_ten : next_timeout 30 (add_timer 1 (make soon)) ≡ 10
unfolding add_timer make cell_of
next_timeout_is_ten =
    next_timeout_first 30 0 40 (add_timer 1 (make soon)) soon_added.0 soon_added.1 (omega arith)
      (omega arith) (omega arith) (λ j lt. ground arith) (omega arith)

tick-Stale_example :
    (w' : TimeWheel) × (hs : List Handle) × (tick 5 true 300 (add_timer 1 (make soon))
      ≡ some (w', hs))
    × ((add_timer 1 (make soon)).active_timers ≤ w'.active_timers)
    × ((a : ℕ) → w'.cells a ≡ 0)
    × (next_timeout 400 w' ≡ 50)
unfolding add_timer make
tick-Stale_example =
    tick-Stale 5 (λ x. 40) (λ x. x) true 0 300 400 (add_timer 1 (make soon)) soon_added.0
      (omega arith) (omega arith) (omega arith) soon_added.1 (omega arith) (omega arith)
      (λ a i. omega arith)

oversleeps : 257 < 250 + next_timeout 250 one
unfolding add_timer make cell_of
oversleeps =
    next_timeout_oversleeps 250 0 one one_added.0 1 one_added.1 (omega arith) (omega arith)
      (λ j lt. ground arith) ((one_added.2 1).1 (inl refl)) (omega arith)

remove_timer-IsWheel_example :
    (L' : Lists) × IsWheel 5 expires handles 0 (remove_timer 1 (add_timer 1 fresh)) L'
    × ((a : Ptr) → In a L' ↔ (In a one_added.0 × (a ≢ 1)))
    × ((remove_timer 1 (add_timer 1 fresh)).active_timers
        ≡ ((add_timer 1 fresh).active_timers + 2 ^ 64 - 1) % 2 ^ 64)
remove_timer-IsWheel_example =
    remove_timer-IsWheel 5 expires handles 0 1 (add_timer 1 fresh) one_added.0 one_added.1
      ((one_added.2 1).1 (inl refl))

-- Coroutine 9 sleeps from time 20 for 30, and the wheel ticks to 60.
sleep_for-Ticked_example :
    ((sleep_for true 20 30 9 3 fresh).0 ≡ true)
    × ((L' : Lists) × (f : Ticked 5
          (omega arith)
          (expires_then 5 expires handles 20 30 3 9)
          (handles_then 5 expires handles 20 30 3 9)
          true
          0
          60
          (sleep_for true 20 30 9 3 fresh).1
          L')
        × ((has 3 f.fired ≡ true) ↔ (50 < 60))
        × (In 3 f.kept ↔ (60 ≤ 50))
        × (handles_then 5 expires handles 20 30 3 9 3 ≡ 9)
        × ((a : Ptr) → In a L' ↔ ((a ≡ 3) ⊎ In a (λ c. []))))
sleep_for-Ticked_example =
    sleep_for-Ticked 5 (omega arith) expires handles 0 20 30 60 3 9 fresh (λ c. [])
      (make-IsWheel 5 memory) (omega arith) (omega arith) (λ c. refl) (omega arith) (omega arith)
      (omega arith) (omega arith) (omega arith)
