-- ===== src/CoMutex/Waits.antt =====
-- src/comutex.cpp: the mutex as a queue of awaiters, and how awaiters join it. Those of
-- `waiters_head_` are ahead of those of `state_`, which stand in reverse.
use novaio.Prelude.{
  ℕ, ◌<◌, ◌≡◌, refl, ◌∙◌, subst, ◌≢◌, ◌⊎◌, inl, inr, Bool, true, false, ◌||◌, List, [], ◌∷◌, ◌++◌,
  map, append_assoc, arith, ◌==◌, if◌then◌else◌, eq_of_==, ==_self, ==_of_ne, Bool-cases, length,
  has, rev_onto, rev_onto-append, has-append,
}
use novaio.CoMutex.{
  Ptr, nullptr, unlocked, locked_no_waiters, CoMutex, Arrival, put, attempt, await_suspend, arrive,
}
use novaio.CoMutex.Trail.{Trail, Trail-put}

-- the awaiters of a state
abbrev pub top : ℕ → Ptr
top s = if s == locked_no_waiters then nullptr else s

-- `W` waits at `waiters_head_`, and `S` at `state_`, the latest first.
pub record Waits (m : CoMutex) (W S : List Ptr) : Type 0 where
  pub head : Trail m.next m.waiters_head W
  pub stack : Trail m.next (top m.state) S

-- the awaiters in the order of their arrival
abbrev pub queue : List Ptr → List Ptr → List Ptr
queue W S = W ++ rev_onto S []

abbrev pub addresses : List Arrival → List Ptr
addresses = map (λ a. a.address)

-- distinct addresses of awaiters outside `xs`
abbrev pub Fresh : List Arrival → List Ptr → Type 0
Fresh [] xs = Unit
Fresh (a ∷ as') xs = (1 < a.address) × (has a.address xs ≡ false) × Fresh as' (a.address ∷ xs)

-- what `await_suspend` leaves in the mutex when it takes it, and when it waits
abbrev taken_by : Arrival → CoMutex → CoMutex
taken_by a m = record m { awaiters = put m.awaiters a.address a.awaiter; state = locked_no_waiters }

abbrev waiting : Arrival → CoMutex → CoMutex
waiting a m = record m {
  awaiters = put m.awaiters a.address a.awaiter;
  next = put m.next a.address (top m.state);
  state = a.address;
}

await_suspend-unlocked :
    (m : CoMutex) (a : Arrival) → m.state ≡ unlocked → await_suspend a m ≡ (taken_by a m, inl false)
unfolding await_suspend attempt
await_suspend-unlocked m a e = rw e

await_suspend-locked :
    (m : CoMutex) (a : Arrival) → m.state ≢ unlocked → await_suspend a m ≡ (waiting a m, inl true)
unfolding await_suspend attempt
await_suspend-locked m a ne = rw (==_of_ne m.state unlocked ne, ==_self m.state)

taken_by-Waits :
    {m : CoMutex} {W S : List Ptr} (a : Arrival)
    → m.state ≡ unlocked
    → Waits m W S
    → Waits (taken_by a m) W S
taken_by-Waits {m} {W} {S} a e v = record {
  head = v.head;
  stack = subst (λ s. Trail m.next (top s) S) e v.stack;
}

waiting-Waits :
    {m : CoMutex} {W S : List Ptr} (a : Arrival)
    → 1 < a.address
    → has a.address (W ++ S) ≡ false
    → Waits m W S
    → Waits (waiting a m) W (a.address ∷ S)
waiting-Waits {m} {W} {S} a big new v =
    let split : (has a.address W || has a.address S) ≡ false = has-append a.address W S ∙ new in
    let out : has a.address S ≡ false = ground arith in
    record {
      head = Trail-put m.next a.address (top m.state) m.waiters_head W (ground arith) v.head;
      stack = rw (==_of_ne a.address 1 (omega arith)) (
        refl,
        big,
        out,
        rw (==_self a.address)
            (Trail-put m.next a.address (top m.state) (top m.state) S out v.stack),
      );
    }

-- what `await_suspend` does: it takes an unlocked mutex, and on any other the awaiter becomes the
-- last of the queue and suspends
abbrev pub Suspends : Arrival → CoMutex → List Ptr → List Ptr → CoMutex × (Bool ⊎ ℕ) → Type 0
Suspends a m W S (m', r) =
    ((m.state ≡ unlocked) × (r ≡ inl false) × (m'.state ≡ locked_no_waiters) × Waits m' W S)
    ⊎ ((m.state ≢ unlocked)
        × (r ≡ inl true)
        × (m'.state ≢ unlocked)
        × (queue W (a.address ∷ S) ≡ queue W S ++ a.address ∷ [])
        × Waits m' W (a.address ∷ S))

-- An awaiter with a fresh address takes the mutex if it is unlocked, without suspending. Otherwise it
-- suspends as the last of the queue, and the mutex stays locked.
pub await_suspend-Suspends :
    {m : CoMutex} {W S : List Ptr} (a : Arrival)
    → Waits m W S
    → 1 < a.address
    → has a.address (W ++ S) ≡ false
    → Suspends a m W S (await_suspend a m)
await_suspend-Suspends {m} {W} {S} a v big new = elim (Bool-cases (m.state == unlocked)) [
  | inl e ↦
      let eq : m.state ≡ unlocked = eq_of_== m.state unlocked e in
      rw (await_suspend-unlocked m a eq) (inl (eq, refl, refl, taken_by-Waits a eq v))
  | inr e ↦
      let ne : m.state ≢ unlocked = ground arith in
      rw (await_suspend-locked m a ne)
        (inr (ne, refl, omega arith, last, waiting-Waits a big new v))
]
  where
    last : queue W (a.address ∷ S) ≡ queue W S ++ a.address ∷ []
    last =
        rw (append_assoc W (rev_onto S []) (a.address ∷ []), rev_onto-append S [] (a.address ∷ []))

-- Awaiters that arrive at a locked mutex pile up on its stack.
pub arrive-Waits :
    (later : List Arrival) {m : CoMutex} {S : List Ptr}
    → Waits m [] S
    → m.state ≢ unlocked
    → Fresh later S
    → Waits (arrive later m) [] (rev_onto (addresses later) S) × ((arrive later m).state ≢ unlocked)
unfolding arrive
arrive-Waits [] v ne new = (v, ne)
arrive-Waits (a ∷ later) {m} {S} v ne (big, out, new) =
    rw (arrive, await_suspend-locked m a ne)
      (arrive-Waits later (waiting-Waits a big out v) (omega arith) new)

pub Fresh-append :
    (xs ys : List Arrival) (zs : List Ptr)
    → Fresh (xs ++ ys) zs
    → Fresh xs zs × Fresh ys (rev_onto (addresses xs) zs)
Fresh-append [] ys zs new = (tt, new)
Fresh-append (a ∷ xs) ys zs (big, out, new) =
    let (one, two) = Fresh-append xs ys (a.address ∷ zs) new in ((big, out, one), two)

-- A stack with awaiters is none of the states without.
pub stacked :
    (s : ℕ) (next : Ptr → Ptr) (S : List Ptr)
    → 0 < length S
    → Trail next (top s) S
    → (s == locked_no_waiters) ≡ false
stacked s next [] some_waiter t = absurd (omega arith)
stacked s next (x ∷ S) some_waiter (e, big, new, t) = ground arith
