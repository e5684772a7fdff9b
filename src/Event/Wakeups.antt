-- ===== src/Event/Wakeups.antt =====
-- include/novaio/event.hpp: where each awaiter of an event is, counted by its address.
use novaio.Prelude.{
  ℕ, ◌+◌, ◌≡◌, ap, subst, true, false, Option, none, some, List, [], ◌∷◌, ◌++◌, arith, ◌==◌,
  if◌then◌else◌,
}
use novaio.Event.{Ptr, Setter, not_called, taking, resuming, returned, Event}

abbrev pub count : Ptr → List Ptr → ℕ
count a [] = 0
count a (x ∷ xs) = (if x == a then 1 else 0) + count a xs

abbrev pub held : Option Ptr → List Ptr
held none = []
held (some a) = a ∷ []

-- the awaiters that `set` has taken and not yet resumed
abbrev pub taken : Setter → List Ptr
taken not_called = []
taken taking = []
taken (resuming waiters) = waiters
taken returned = []

abbrev pub Agrees : Setter → Event → Type 0
Agrees not_called e = e.signaled ≡ false
Agrees taking e = e.signaled ≡ true
Agrees (resuming waiters) e = (e.signaled ≡ true) × (e.waiters ≡ []) × (e.holder ≡ none)
Agrees returned e = (e.signaled ≡ true) × (e.waiters ≡ []) × (e.holder ≡ none)

-- the places in which the awaiter `a` is
abbrev pub places : Ptr → Event → ℕ
places a e =
    count a e.resumed
    + count a e.lost
    + count a (taken e.setter)
    + count a e.waiters
    + count a (held e.holder)

pub record IsSound (e : Event) : Type 0 where
  pub agrees : Agrees e.setter e
  pub counted : (a : Ptr) → count a e.arrived ≡ places a e

abbrev passed : Ptr → Event → Event
passed a e = record e { arrived = e.arrived ++ a ∷ []; resumed = e.resumed ++ a ∷ [] }

abbrev holding : Ptr → Event → Event
holding a e = record e { arrived = e.arrived ++ a ∷ []; holder = some a }

-- where the awaiter `a` is once `set` has returned
abbrev pub Settled : Ptr → Setter → Event → Type 0
Settled a not_called e = Unit
Settled a taking e = Unit
Settled a (resuming waiters) e = Unit
Settled a returned e = count a e.arrived ≡ count a e.resumed + count a e.lost

settled : (a : Ptr) (s : Setter) (e : Event) → e.setter ≡ s → IsSound e → Settled a s e
settled a not_called e at v = tt
settled a taking e at v = tt
settled a (resuming waiters) e at v = tt
settled a returned e at v =
    let (set, empty, free) = subst (λ s. Agrees s e) at v.agrees in
    omega (
      arith,
      v.counted a,
      ap (λ s. count a (taken s)) at,
      ap (count a) empty,
      ap (λ o. count a (held o)) free,
    )
