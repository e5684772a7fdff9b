-- ===== src/CoMutex/Holders/Exclusion.antt =====
-- src/comutex.cpp: runs of the users of a mutex, against a lock that is given in order of arrival.
use novaio.Prelude.{
  ℕ, ◌+◌, ◌<◌, ◌≡◌, refl, sym, ap, ◌∙◌, subst, ◌≢◌, ◌⊎◌, inl, inr, some, List, [], ◌∷◌, ◌++◌,
  append-nil, append_assoc, arith, length, length-append, length-map, rev_onto, length-rev_onto,
}
use novaio.Handle.{Handle}
use novaio.CoMutex.{Ptr, nullptr, unlocked, CoMutex, Awaiter, Arrival, Wake, unlock}
use novaio.CoMutex.Waits.{addresses, Fresh}
use novaio.CoMutex.Fifo.{Releases, contenders, unlock-Releases}
use novaio.CoMutex.Holders.{
  Users, woken, heard, rest, Usable, Step, joins, leaves, Reach, starts, steps, FairLock, lock,
  lock_all, release, coroutines, view,
}
use novaio.CoMutex.Holders.Valid.{IsValid, Refines}
use novaio.CoMutex.Holders.Joining.{joins-Refines}
use novaio.CoMutex.Holders.Leaving.{contenders-heard, unlock-Stored, released-Refines}

only-holder :
    (h k : Handle) (others later : List Handle)
    → others ++ h ∷ later ≡ k ∷ []
    → (others ≡ []) × (later ≡ [])
only-holder h k [] later e = (refl, cc)
only-holder h k (x ∷ []) later e = cc
only-holder h k (x ∷ y ∷ others) later e = cc

starts-IsValid :
    (next : Ptr → Ptr) (awaiters : Ptr → Awaiter)
    → IsValid (record {
      mutex = record { state = unlocked; waiters_head = nullptr; next = next; awaiters = awaiters };
      holders = [];
      waiting = [];
    })
starts-IsValid next awaiters = record {
  ahead = [];
  stack = [];
  waits = record { head = refl; stack = refl };
  order = refl;
  stored = tt;
  usable = tt;
  held = inl (refl, refl, refl);
}

Usable-heard :
    (waiting before after : List Arrival)
    → Usable waiting
    → Usable (before ++ after)
    → Usable (heard waiting before after)
Usable-heard [] [] after u v = tt
Usable-heard [] (b ∷ before) after u v = v
Usable-heard (x ∷ waiting) before after u v = u

-- the awaiters that join the queue during an `unlock`
abbrev pub newcomers : List Arrival → List Arrival → List Arrival → List Arrival
newcomers [] [] after = []
newcomers [] (a ∷ before) after = a ∷ before ++ after
newcomers (a ∷ waiting) before after = []

-- what a step is for the lock that the users see
abbrev pub meaning : {u v : Users} → Step u v → FairLock → FairLock
meaning (joins u a big out us) l = lock a.awaiter.awaiting_coroutine l
meaning (leaves u others later h fuel sched before after m w one l new us runs) k =
    release (lock_all (newcomers u.waiting before after) k)

lock_all-held :
    (xs : List Arrival) (h : Handle) (hs : List Handle)
    → lock_all xs (record { holder = some h; queue = hs })
      ≡ record { holder = some h; queue = hs ++ coroutines xs }
lock_all-held [] h hs = rw (append-nil hs)
lock_all-held (a ∷ xs) h hs = rw (
  lock_all-held xs h (hs ++ a.awaiter.awaiting_coroutine ∷ []),
  append_assoc hs (a.awaiter.awaiting_coroutine ∷ []) (coroutines xs),
)

heard-newcomers :
    (waiting before after : List Arrival)
    → coroutines (heard waiting before after)
      ≡ coroutines waiting ++ coroutines (newcomers waiting before after)
heard-newcomers [] [] after = refl
heard-newcomers [] (b ∷ before) after = refl
heard-newcomers (x ∷ waiting) before after = sym (append-nil (coroutines (x ∷ waiting)))

leaves-Refines :
    (u : Users) (others later : List Handle) (h : Handle) (fuel : ℕ) (sched : Ptr)
    (before after : List Arrival) (m : CoMutex) (w : Wake)
    → u.holders ≡ others ++ h ∷ later
    → length u.waiting + length (before ++ after) < fuel
    → Fresh (before ++ after) []
    → Usable (before ++ after)
    → unlock fuel sched before after u.mutex ≡ some (m, w)
    → IsValid u
    → Refines
        (record {
          mutex = m;
          holders = woken w ++ others ++ later;
          waiting = rest (heard u.waiting before after);
        })
        (release (lock_all (newcomers u.waiting before after) (view u)))
leaves-Refines u others later h fuel sched before after m w one l new us runs v = elim v.held [
  | inl (free, nobody, none_wait) ↦
      absurd (omega (arith, ap length (sym nobody ∙ one), length-append others (h ∷ later)))
  | inr (ne, (k, alone)) ↦
      let Q : List Arrival = heard u.waiting before after in
      let (no_others, no_later) = only-holder h k others later (sym one ∙ alone) in
      let enough : length v.stack + length (before ++ after) < fuel = omega (
        arith,
        ap length v.order,
        length-append v.ahead (rev_onto v.stack []),
        length-rev_onto v.stack [],
        length-map u.waiting (λ a. a.address),
      ) in
      let (r, ends, rel) =
        unlock-Releases fuel sched before after u.mutex v.ahead v.stack enough v.waits ne new in
      let same : r ≡ (m, w) = cc in
      let rel' : Releases sched (addresses Q) (m, w) =
        subst (λ q. Releases sched q (m, w))
          (contenders-heard v.ahead v.stack u.waiting before after v.order)
          (subst (Releases sched (contenders v.ahead v.stack before after)) same rel) in
      let done =
        released-Refines sched u m w Q rel' (Usable-heard u.waiting before after v.usable us)
          (λ ne'.
            unlock-Stored fuel sched before after u.mutex m w u.waiting v.ahead v.stack v.waits
              v.order ne ne' new v.stored runs) in
      let left : woken w ++ others ++ later ≡ woken w =
        rw (no_others, no_later, append-nil (woken w)) (append-nil (woken w)) in
      rw
        (
          left,
          alone,
          lock_all-held (newcomers u.waiting before after) k (coroutines u.waiting),
          sym (heard-newcomers u.waiting before after),
        )
        done
]

step-Refines : {u v : Users} (s : Step u v) → IsValid u → Refines v (meaning s (view u))
step-Refines (joins u a big out us) v = joins-Refines u a big out us v
step-Refines (leaves u others later h fuel sched before after m w one l new us runs) v =
    leaves-Refines u others later h fuel sched before after m w one l new us runs v

Reach-IsValid : {u : Users} → Reach u → IsValid u
Reach-IsValid (starts next awaiters) = starts-IsValid next awaiters
Reach-IsValid (steps r s) = (step-Refines s (Reach-IsValid r)).0

-- In every state that coroutines reach which lock and unlock a mutex, exactly one of them holds it, or
-- it is unlocked, none holds it and none waits. Awaiters arrive between the atomic operations of
-- `unlock`, on threads with a scheduler, with frames on 8 bytes.
pub Reach-Held :
    (u : Users)
    → Reach u
    → ((u.mutex.state ≡ unlocked) × (u.holders ≡ []) × (u.waiting ≡ []))
      ⊎ ((u.mutex.state ≢ unlocked) × ((h : Handle) × (u.holders ≡ h ∷ [])))
Reach-Held u r = (Reach-IsValid r).held

-- Each step of such a run does to the holder and the coroutines that wait what the lock does that is
-- given in the order of arrival: an `await_suspend` locks it or joins the queue, and an `unlock` hands it
-- to the first of the queue, behind which those have come that arrived during the `unlock`.
pub Reach-Refines : (u v : Users) (s : Step u v) → Reach u → view v ≡ meaning s (view u)
Reach-Refines u v s r = (step-Refines s (Reach-IsValid r)).1
