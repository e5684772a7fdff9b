-- ===== src/CoMutex/Holders/Joining.antt =====
-- src/comutex.cpp: an awaiter joins the users of a mutex.
use novaio.Prelude.{
  ℕ, ◌<◌, ◌≡◌, ap, ◌∙◌, ◌⊎◌, inl, inr, Bool, true, false, List, [], ◌∷◌, ◌++◌, map-append, arith,
  has, rev_onto, has-append, has-rev_onto,
}
use novaio.CoMutex.{Ptr, CoMutex, Arrival, await_suspend}
use novaio.CoMutex.Waits.{queue, addresses, Suspends, await_suspend-Suspends}
use novaio.CoMutex.Holders.{Users, joined, Usable, lock, view}
use novaio.CoMutex.Holders.Stored.{Stored, Stored-append, await_suspend-Stored}
use novaio.CoMutex.Holders.Valid.{IsValid, Refines}

has-queue : (p : Ptr) (W S : List Ptr) → has p (W ++ S) ≡ has p (queue W S)
has-queue p W S =
    ground (arith, has-append p W S, has-append p W (rev_onto S []), has-rev_onto p S [])

Usable-append : (xs ys : List Arrival) → Usable xs → Usable ys → Usable (xs ++ ys)
Usable-append [] ys u v = v
Usable-append (a ∷ xs) ys (e, l, aligned, u) v = (e, l, aligned, Usable-append xs ys u v)

joined-Refines :
    (u : Users) (a : Arrival) (r : CoMutex × (Bool ⊎ ℕ)) (v : IsValid u)
    → Usable (a ∷ [])
    → Stored r.0.awaiters (a ∷ u.waiting)
    → Suspends a u.mutex v.ahead v.stack r
    → Refines (joined a u r) (lock a.awaiter.awaiting_coroutine (view u))
unfolding joined
joined-Refines u a (m', inr k) v us s (inl (free, e, st, waits)) = cc
joined-Refines u a (m', inr k) v us s (inr (locked, e, ne, last, waits)) = cc
joined-Refines u a (m', inl true) v us s (inl (free, e, st, waits)) = cc
joined-Refines u a (m', inl false) v us s (inr (locked, e, ne, last, waits)) = cc
joined-Refines u a (m', inl false) v us s (inl (free, e, st, waits)) = elim v.held [
  | inr (ne, (h, one)) ↦ absurd (ne free)
  | inl (same, nobody, none_wait) ↦ (
    record {
      ahead = v.ahead;
      stack = v.stack;
      waits = waits;
      order = v.order;
      stored = s.1;
      usable = v.usable;
      held = inr (omega (arith, st), (a.awaiter.awaiting_coroutine, rw nobody));
    },
    rw (nobody, none_wait),
  )
]
joined-Refines u a (m', inl true) v us (own, s) (inr (locked, e, ne, last, waits)) = elim v.held [
  | inl (free, nobody, none_wait) ↦ absurd (locked free)
  | inr (ne', (h, one)) ↦ (
    record {
      ahead = v.ahead;
      stack = a.address ∷ v.stack;
      waits = waits;
      order = rw (last, v.order, map-append (λ x. x.address) u.waiting (a ∷ []));
      stored = Stored-append m'.awaiters u.waiting (a ∷ []) s (own, tt);
      usable = Usable-append u.waiting (a ∷ []) v.usable us;
      held = inr (ne, (h, one));
    },
    rw (one, map-append (λ x. x.awaiter.awaiting_coroutine) u.waiting (a ∷ [])),
  )
]

pub joins-Refines :
    (u : Users) (a : Arrival)
    → 1 < a.address
    → has a.address (addresses u.waiting) ≡ false
    → Usable (a ∷ [])
    → IsValid u
    → Refines (joined a u (await_suspend a u.mutex)) (lock a.awaiter.awaiting_coroutine (view u))
joins-Refines u a big out us v =
    let out' : has a.address (v.ahead ++ v.stack) ≡ false =
      has-queue a.address v.ahead v.stack ∙ ap (has a.address) v.order ∙ out in
    joined-Refines u a (await_suspend a u.mutex) v us
      (await_suspend-Stored a u.mutex u.waiting out v.stored)
      (await_suspend-Suspends {W = v.ahead} {S = v.stack} a v.waits big out')
