-- ===== src/CoMutex/Holders/Valid.antt =====
-- src/comutex.cpp: the states of the users of a mutex that it is made for.
use novaio.Prelude.{◌≡◌, ◌≢◌, ◌⊎◌, List, [], ◌∷◌}
use novaio.Handle.{Handle}
use novaio.CoMutex.{Ptr, unlocked}
use novaio.CoMutex.Waits.{Waits, queue, addresses}
use novaio.CoMutex.Holders.{Users, Usable, FairLock, view}
use novaio.CoMutex.Holders.Stored.{Stored}

-- who holds the mutex in a state
abbrev pub Held : Users → Type 0
Held u =
    ((u.mutex.state ≡ unlocked) × (u.holders ≡ []) × (u.waiting ≡ []))
    ⊎ ((u.mutex.state ≢ unlocked) × ((h : Handle) × (u.holders ≡ h ∷ [])))

-- a state that is reached: the mutex has the awaiters as its queue, they hold what they arrived with,
-- and one coroutine holds the mutex, unless it is unlocked and nobody waits
pub record IsValid (u : Users) : Type 0 where
  pub ahead : List Ptr
  pub stack : List Ptr
  pub waits : Waits u.mutex ahead stack
  pub order : queue ahead stack ≡ addresses u.waiting
  pub stored : Stored u.mutex.awaiters u.waiting
  pub usable : Usable u.waiting
  pub held : Held u

-- what a step means for the users: `v` is what the lock does to their view
abbrev pub Refines : Users → FairLock → Type 0
Refines u l = IsValid u × (view u ≡ l)
