-- ===== src/CoMutex/Holders/Stored.antt =====
-- src/comutex.cpp: what the awaiters store in themselves, under `await_suspend` and `unlock`.
use novaio.Prelude.{
  ℕ, ◌≡◌, refl, sym, subst, ◌≢◌, true, false, ◌&&◌, some, List, [], ◌∷◌, ◌++◌, arith, ◌==◌, ==_self,
  has,
}
use novaio.CoMutex.{
  Ptr, nullptr, unlocked, locked_no_waiters, CoMutex, Awaiter, Arrival, put, attempt, await_suspend,
  arrive, Wake, resume_first, take_waiters, unlock,
}
use novaio.CoMutex.Waits.{addresses, Fresh}

-- The awaiters hold what they arrived with.
abbrev pub Stored : (Ptr → Awaiter) → List Arrival → Type 0
Stored f [] = Unit
Stored f (a ∷ waiting) = (f a.address ≡ a.awaiter) × Stored f waiting

pub Stored-append :
    (f : Ptr → Awaiter) (xs ys : List Arrival) → Stored f xs → Stored f ys → Stored f (xs ++ ys)
Stored-append f [] ys s t = t
Stored-append f (a ∷ xs) ys (e, s) t = (e, Stored-append f xs ys s t)

pub await_suspend-awaiters :
    (a : Arrival) (m : CoMutex)
    → (await_suspend a m).0.awaiters ≡ put m.awaiters a.address a.awaiter
unfolding await_suspend attempt
await_suspend-awaiters a m = ground arith

Stored-put :
    (a : Arrival) (f : Ptr → Awaiter) (waiting : List Arrival)
    → has a.address (addresses waiting) ≡ false
    → Stored f waiting
    → Stored (put f a.address a.awaiter) waiting
Stored-put a f [] out s = tt
Stored-put a f (b ∷ waiting) out (e, s) = (ground arith, Stored-put a f waiting (ground arith) s)

pub await_suspend-Stored :
    (a : Arrival) (m : CoMutex) (waiting : List Arrival)
    → has a.address (addresses waiting) ≡ false
    → Stored m.awaiters waiting
    → Stored (await_suspend a m).0.awaiters (a ∷ waiting)
await_suspend-Stored a m waiting out s =
    subst (λ f. Stored f (a ∷ waiting)) (sym (await_suspend-awaiters a m))
      (rw (==_self a.address), Stored-put a m.awaiters waiting out s)

pub arrive-Stored :
    (later : List Arrival) (m : CoMutex) (waiting : List Arrival)
    → Fresh later (addresses waiting)
    → Stored m.awaiters waiting
    → Stored (arrive later m).awaiters waiting × Stored (arrive later m).awaiters later
unfolding arrive
arrive-Stored [] m waiting new s = (s, tt)
arrive-Stored (a ∷ later) m waiting (big, out, new) s =
    let ((e, kept), came) =
      arrive-Stored later (await_suspend a m).0 (a ∷ waiting) new
        (await_suspend-Stored a m waiting out s) in
    (kept, (e, came))

pub arrive-append :
    (xs ys : List Arrival) (m : CoMutex) → arrive (xs ++ ys) m ≡ arrive ys (arrive xs m)
unfolding arrive
arrive-append [] ys m = refl
arrive-append (a ∷ xs) ys m = arrive-append xs ys (await_suspend a m).0

take_waiters-awaiters :
    (fuel s : ℕ) (m m' : CoMutex) → take_waiters fuel s m ≡ some m' → m'.awaiters ≡ m.awaiters
unfolding take_waiters
take_waiters-awaiters fuel s m m' e = ground arith

resume_first-awaiters : (sched : Ptr) (m : CoMutex) → (resume_first sched m).0.awaiters ≡ m.awaiters
unfolding resume_first
resume_first-awaiters sched m = ground arith

-- Where awaiters wait, `unlock` writes to none of them but to the pointers.
pub unlock-awaiters :
    (fuel : ℕ) (sched : Ptr) (before after : List Arrival) (m m' : CoMutex) (w : Wake)
    → (m.waiters_head == nullptr) && (m.state == locked_no_waiters) ≡ false
    → unlock fuel sched before after m ≡ some (m', w)
    → m'.awaiters ≡ m.awaiters
unfolding unlock
unlock-awaiters fuel sched before after m m' w busy e =
    grind (arith, take_waiters-awaiters, resume_first-awaiters)

-- Where nobody waits, those that arrive are stored, unless `unlock` unlocks the mutex.
pub unlock-awaiters_idle :
    (fuel : ℕ) (sched : Ptr) (before after : List Arrival) (m m' : CoMutex) (w : Wake)
    → (m.waiters_head == nullptr) && (m.state == locked_no_waiters) ≡ true
    → unlock fuel sched before after m ≡ some (m', w)
    → m'.state ≢ unlocked
    → m'.awaiters ≡ (arrive after (arrive before (record m { state = locked_no_waiters }))).awaiters
unfolding unlock
unlock-awaiters_idle fuel sched before after m m' w idle e ne =
    grind (arith, take_waiters-awaiters, resume_first-awaiters)
