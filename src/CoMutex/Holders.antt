-- ===== src/CoMutex/Holders.antt =====
-- src/comutex.cpp: the coroutines that use a mutex, as a step relation. A step is an `await_suspend`,
-- or the `unlock` of a coroutine that is in its critical section, with the awaiters that arrive between
-- the atomic operations of the latter. The specification is a lock that is given in order of arrival.
pub mod Stored
pub mod Valid
pub mod Joining
pub mod Leaving
pub mod Exclusion
mod Tests
use novaio.Prelude.{
  ℕ, ◌+◌, ◌%◌, ◌^◌, ◌<◌, ◌≡◌, ◌≢◌, ◌⊎◌, inl, Bool, true, false, Option, none, some, List, [], ◌∷◌,
  ◌++◌, map, length, has,
}
use novaio.Handle.{Handle}
use novaio.CoMutex.{
  Ptr, CoMutex, Awaiter, Arrival, await_suspend, Wake, nothing, schedule, notify, unlock, unlocked,
  nullptr,
}
use novaio.CoMutex.Waits.{addresses, Fresh}
use novaio.IoEngine.{payload_of}

-- The coroutines that are past `co_await lock()` and have not called `unlock`, and the awaiters that
-- `await_suspend` left suspended and no `unlock` has resumed, the first to arrive first.
pub record Users : Type 0 where
  pub mutex : CoMutex
  pub holders : List Handle
  pub waiting : List Arrival

-- the coroutine that a wake-up resumes: `poll` of the other thread takes it off the message, which is
-- taken to arrive there
unfoldable pub woken : Wake → List Handle
woken nothing = []
woken (schedule h) = h ∷ []
woken (notify target msg) = payload_of msg ∷ []

-- what `co_await lock()` does with the result of `await_suspend`
unfoldable pub joined : Arrival → Users → CoMutex × (Bool ⊎ ℕ) → Users
joined a u (m, inl true) = record u { mutex = m; waiting = u.waiting ++ a ∷ [] }
joined a u (m, r) = record u { mutex = m; holders = a.awaiter.awaiting_coroutine ∷ u.holders }

-- the awaiters that wait when `unlock` takes the first of them
abbrev pub heard : List Arrival → List Arrival → List Arrival → List Arrival
heard [] [] after = []
heard [] (a ∷ before) after = a ∷ before ++ after
heard (a ∷ waiting) before after = a ∷ waiting

abbrev pub rest : List Arrival → List Arrival
rest [] = []
rest (a ∷ waiting) = waiting

-- An awaiter of a coroutine with an aligned frame, on a thread with a scheduler.
abbrev pub Usable : List Arrival → Type 0
Usable [] = Unit
Usable (a ∷ waiting) =
    (a.awaiter.scheduler ≢ nullptr)
    × (a.awaiter.awaiting_coroutine < 2 ^ 64)
    × (a.awaiter.awaiting_coroutine % 8 ≡ 0)
    × Usable waiting

pub data Step : Users → Users → Type 0 where
  joins :
      (u : Users) (a : Arrival)
      → 1 < a.address
      → has a.address (addresses u.waiting) ≡ false
      → Usable (a ∷ [])
      → Step u (joined a u (await_suspend a u.mutex))
  leaves :
      (u : Users) (others later : List Handle) (h : Handle) (fuel : ℕ) (sched : Ptr)
      (before after : List Arrival) (m : CoMutex) (w : Wake)
      → u.holders ≡ others ++ h ∷ later
      → length u.waiting + length (before ++ after) < fuel
      → Fresh (before ++ after) []
      → Usable (before ++ after)
      → unlock fuel sched before after u.mutex ≡ some (m, w)
      → Step u (record {
        mutex = m;
        holders = woken w ++ others ++ later;
        waiting = rest (heard u.waiting before after);
      })

-- The states of a new mutex, whose pointers nobody reads yet.
pub data Reach : Users → Type 0 where
  starts :
      (next : Ptr → Ptr) (awaiters : Ptr → Awaiter)
      → Reach (record {
        mutex = record {
          state = unlocked;
          waiters_head = nullptr;
          next = next;
          awaiters = awaiters;
        };
        holders = [];
        waiting = [];
      })
  steps : {u v : Users} → Reach u → Step u v → Reach v

-- the lock as its users see it
pub record FairLock : Type 0 where
  pub holder : Option Handle
  pub queue : List Handle

abbrev pub lock : Handle → FairLock → FairLock
lock h l = elim l.holder [
  | none ↦ record l { holder = some h }
  | some _ ↦ record l { queue = l.queue ++ h ∷ [] }
]

abbrev pub lock_all : List Arrival → FairLock → FairLock
lock_all [] l = l
lock_all (a ∷ later) l = lock_all later (lock a.awaiter.awaiting_coroutine l)

abbrev pub first : List Handle → Option Handle
first [] = none
first (h ∷ hs) = some h

abbrev pub behind : List Handle → List Handle
behind [] = []
behind (h ∷ hs) = hs

abbrev pub release : FairLock → FairLock
release l = record { holder = first l.queue; queue = behind l.queue }

abbrev pub coroutines : List Arrival → List Handle
coroutines = map (λ a. a.awaiter.awaiting_coroutine)

abbrev pub view : Users → FairLock
view u = record { holder = first u.holders; queue = coroutines u.waiting }
