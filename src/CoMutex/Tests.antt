-- ===== src/CoMutex/Tests.antt =====
-- src/comutex.cpp: runs of the mutex, and its theorems at them.
use novaio.Prelude.{◌≡◌, refl, Option, some, List, [], ◌∷◌, arith, ◌>>=◌}
use novaio.CoMutex.Drain.{unlocks, unlocks-all}
use novaio.CoMutex.{
  CoMutex, Arrival, attempt, await_suspend, arrive, reverse_loop, Wake, nothing, notify, schedule,
  wake_of, resume_first, take_waiters, unlock, unlocked,
}
use novaio.CoMutex.Waits.{Waits, Suspends, await_suspend-Suspends}

-- a mutex that a coroutine holds, with nobody waiting
abbrev held : CoMutex
held = record {
  state = 1;
  waiters_head = 0;
  next = λ _. 0;
  awaiters = λ _. record { awaiting_coroutine = 0; scheduler = 0 };
}

abbrev first : Arrival
first = record { address = 64; awaiter = record { awaiting_coroutine = 800; scheduler = 7 } }

abbrev second : Arrival
second = record { address = 128; awaiter = record { awaiting_coroutine = 808; scheduler = 9 } }

held-Waits : Waits held [] []
held-Waits = record { head = refl; stack = refl }

-- The first has arrived, and its address is the state.
abbrev one_waits : CoMutex
one_waits = record held { state = 64; awaiters = λ _. first.awaiter }

one_waits-Waits : Waits one_waits [] (64 ∷ [])
one_waits-Waits = record { head = refl; stack = (refl, omega arith, refl, refl) }

two_unlocks :
    (m' : CoMutex) × (unlocks 2 3 7 one_waits ≡ some (m', wake_of 7 first.awaiter ∷ nothing ∷ []))
    × (m'.state ≡ unlocked)
    × Waits m' [] []
two_unlocks = unlocks-all 3 7 one_waits [] (64 ∷ []) (omega arith) one_waits-Waits (omega arith)

-- The second awaiter, that of scheduler 9, is resumed by the third `unlock`.
abbrev wakes : Option (List Wake)
wakes = do
  (m, w) ← unlock 4 7 (first ∷ []) (second ∷ []) held
  (m, w') ← unlock 4 7 [] [] m
  (m, w'') ← unlock 4 7 [] [] m
  some (w ∷ w' ∷ w'' ∷ [])

wakes_in_order : wakes ≡ some (schedule 800 ∷ notify 9 810 ∷ nothing ∷ [])
unfolding unlock attempt await_suspend arrive reverse_loop take_waiters resume_first wake_of
wakes_in_order = refl

first_is_given : Suspends first held [] [] (await_suspend first held)
first_is_given =
    await_suspend-Suspends {m = held} {W = []} {S = []} first held-Waits (omega arith) refl
