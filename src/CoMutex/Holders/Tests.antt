-- ===== src/CoMutex/Holders/Tests.antt =====
-- src/comutex.cpp: two coroutines that use a mutex, and the theorems on its users at them.
use novaio.Prelude.{◌≡◌, refl, ◌≢◌, ◌⊎◌, [], ◌∷◌, arith}
use novaio.Handle.{Handle}
use novaio.CoMutex.{
  nullptr, unlocked, Arrival, put, attempt, await_suspend, reverse_loop, notify, wake_of,
  resume_first, take_waiters, unlock,
}
use novaio.CoMutex.Holders.{Users, woken, joined, Step, joins, leaves, Reach, starts, steps, view}
use novaio.CoMutex.Holders.Exclusion.{meaning, Reach-Held, Reach-Refines}

abbrev one : Arrival
one = record { address = 64; awaiter = record { awaiting_coroutine = 800; scheduler = 7 } }

abbrev two : Arrival
two = record { address = 128; awaiter = record { awaiting_coroutine = 808; scheduler = 9 } }

abbrev new : Users
new = record {
  mutex = record {
    state = unlocked;
    waiters_head = nullptr;
    next = λ _. 0;
    awaiters = λ _. record { awaiting_coroutine = 0; scheduler = 0 };
  };
  holders = [];
  waiting = [];
}

-- The first takes the mutex.
abbrev taken : Users
taken = record {
  mutex = record new.mutex { state = 1; awaiters = put new.mutex.awaiters 64 one.awaiter };
  holders = 800 ∷ [];
  waiting = [];
}

-- The second waits.
abbrev contended : Users
contended = record {
  mutex = record {
    state = 128;
    waiters_head = nullptr;
    next = put new.mutex.next 128 0;
    awaiters = put taken.mutex.awaiters 128 two.awaiter;
  };
  holders = 800 ∷ [];
  waiting = two ∷ [];
}

-- The second has it from the first.
abbrev handed : Users
handed = record {
  mutex = record contended.mutex { state = 1; next = put contended.mutex.next 128 0 };
  holders = 808 ∷ [];
  waiting = [];
}

takes : Step new taken
unfolding joined await_suspend attempt
takes = joins new one (omega arith) refl (omega arith, omega arith, omega arith, tt)

waits : Step taken contended
unfolding joined await_suspend attempt
waits = joins taken two (omega arith) refl (omega arith, omega arith, omega arith, tt)

hands : Step contended handed
unfolding woken unlock reverse_loop take_waiters resume_first wake_of
hands =
    leaves contended [] [] 800 4 7 [] [] handed.mutex (notify 9 810) refl (omega arith) tt tt refl

reached : Reach contended
reached = steps (steps (starts new.mutex.next new.mutex.awaiters) takes) waits

Reach-Held_example :
    ((contended.mutex.state ≡ unlocked) × (contended.holders ≡ []) × (contended.waiting ≡ []))
    ⊎ ((contended.mutex.state ≢ unlocked) × ((h : Handle) × (contended.holders ≡ h ∷ [])))
Reach-Held_example = Reach-Held contended reached

Reach-Refines_example : view handed ≡ meaning hands (view contended)
Reach-Refines_example = Reach-Refines contended handed hands reached
