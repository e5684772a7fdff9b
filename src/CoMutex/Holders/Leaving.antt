-- ===== src/CoMutex/Holders/Leaving.antt =====
-- src/comutex.cpp: `unlock` by a coroutine that holds the mutex.
use novaio.Prelude.{
  ℕ, ◌<◌, ◌≡◌, refl, sym, ap, ◌∙◌, subst, ◌≢◌, inl, inr, true, false, ◌&&◌, some, List, [], ◌∷◌,
  ◌++◌, map-append, arith, ◌==◌, length, length-rev_onto,
}
use novaio.CoMutex.{
  Ptr, nullptr, unlocked, locked_no_waiters, CoMutex, Arrival, arrive, Wake, tag_coro, wake_of,
  unlock,
}
use novaio.CoMutex.Waits.{Waits, queue, top, addresses, Fresh, stacked}
use novaio.CoMutex.Fifo.{Releases, contenders}
use novaio.CoMutex.Holders.{Users, woken, heard, rest, Usable, first, behind, coroutines}
use novaio.CoMutex.Holders.Stored.{
  Stored, arrive-Stored, arrive-append, unlock-awaiters, unlock-awaiters_idle,
}
use novaio.IoEngine.Tags.{untag-bit_or}
use novaio.CoMutex.Holders.Valid.{Refines}

-- The coroutine of an awaiter with a scheduler is resumed, here or by a message.
woken-wake_of :
    (sched : Ptr) (a : Arrival)
    → Usable (a ∷ [])
    → woken (wake_of sched a.awaiter) ≡ a.awaiter.awaiting_coroutine ∷ []
unfolding woken wake_of
woken-wake_of sched a (some_sched, l, aligned, rest) =
    let (tag, handle) =
      untag-bit_or a.awaiter.awaiting_coroutine tag_coro l aligned (omega arith) in
    ground arith

pub contenders-heard :
    (W S : List Ptr) (waiting before after : List Arrival)
    → queue W S ≡ addresses waiting
    → contenders W S before after ≡ addresses (heard waiting before after)
contenders-heard [] [] [] [] after e = refl
contenders-heard [] [] [] (b ∷ before) after e =
    sym (map-append (λ x. x.address) (b ∷ before) after)
contenders-heard [] [] (x ∷ waiting) before after e = cc
contenders-heard [] (s ∷ S) [] before after e =
    absurd (omega (arith, length-rev_onto (s ∷ S) [], ap length e))
contenders-heard [] (s ∷ S) (x ∷ waiting) before after e = e
contenders-heard (w ∷ W) S [] before after e = cc
contenders-heard (w ∷ W) S (x ∷ waiting) before after e = e

is_busy :
    (m : CoMutex) (W S : List Ptr)
    → 0 < length (queue W S)
    → Waits m W S
    → (m.waiters_head == nullptr) && (m.state == locked_no_waiters) ≡ false
is_busy m [] [] some_waiter v = absurd (omega arith)
is_busy m [] (s ∷ S) some_waiter v =
    ground (arith, stacked m.state m.next (s ∷ S) (omega arith) v.stack)
is_busy m (x ∷ W) S some_waiter v = let (e, big, new, t) = v.head in ground arith

is_idle :
    (m : CoMutex)
    → m.state ≢ unlocked
    → Waits m [] []
    → (m.waiters_head == nullptr) && (m.state == locked_no_waiters) ≡ true
is_idle m ne v =
    let e : m.waiters_head ≡ nullptr = v.head in
    let t : top m.state ≡ nullptr = v.stack in ground arith

empty-queue : (W S : List Ptr) → queue W S ≡ [] → (W ≡ []) × (S ≡ [])
empty-queue [] [] e = (refl, refl)
empty-queue [] (s ∷ S) e = absurd (omega (arith, length-rev_onto (s ∷ S) [], ap length e))
empty-queue (w ∷ W) S e = cc

unlock-Stored_idle :
    (fuel : ℕ) (sched : Ptr) (before after : List Arrival) (m m' : CoMutex) (w : Wake)
    → Waits m [] []
    → m.state ≢ unlocked
    → m'.state ≢ unlocked
    → Fresh (before ++ after) []
    → unlock fuel sched before after m ≡ some (m', w)
    → Stored m'.awaiters (heard [] before after)
unlock-Stored_idle fuel sched [] after m m' w v ne ne' new e = tt
unlock-Stored_idle fuel sched (b ∷ before) after m m' w v ne ne' new e =
    let m1 : CoMutex = record m { state = locked_no_waiters } in
    let (kept, came) = arrive-Stored (b ∷ before ++ after) m1 [] new tt in
    let all_came : m'.awaiters ≡ (arrive (b ∷ before ++ after) m1).awaiters =
      unlock-awaiters_idle fuel sched (b ∷ before) after m m' w (is_idle m ne v) e ne'
      ∙ ap (λ n. n.awaiters) (sym (arrive-append (b ∷ before) after m1)) in
    subst (λ f. Stored f (b ∷ before ++ after)) (sym all_came) came

pub unlock-Stored :
    (fuel : ℕ) (sched : Ptr) (before after : List Arrival) (m m' : CoMutex) (w : Wake)
    (waiting : List Arrival) (W S : List Ptr)
    → Waits m W S
    → queue W S ≡ addresses waiting
    → m.state ≢ unlocked
    → m'.state ≢ unlocked
    → Fresh (before ++ after) []
    → Stored m.awaiters waiting
    → unlock fuel sched before after m ≡ some (m', w)
    → Stored m'.awaiters (heard waiting before after)
unlock-Stored fuel sched before after m m' w [] W S v order ne ne' new s e =
    let (no_head, no_stack) = empty-queue W S order in
    let v' : Waits m [] [] = subst (Waits m []) no_stack (subst (λ W. Waits m W S) no_head v) in
    unlock-Stored_idle fuel sched before after m m' w v' ne ne' new e
unlock-Stored fuel sched before after m m' w (x ∷ waiting) W S v order ne ne' new s e =
    let busy = is_busy m W S (omega (arith, ap length order)) v in
    subst (λ f. Stored f (x ∷ waiting))
      (sym (unlock-awaiters fuel sched before after m m' w busy e)) s

-- The queue that `unlock` finds, and what is left of it.
pub released-Refines :
    (sched : Ptr) (u : Users) (m : CoMutex) (w : Wake) (Q : List Arrival)
    → Releases sched (addresses Q) (m, w)
    → Usable Q
    → (m.state ≢ unlocked → Stored m.awaiters Q)
    → Refines
        (record { mutex = m; holders = woken w; waiting = rest Q })
        (record { holder = first (coroutines Q); queue = behind (coroutines Q) })
unfolding woken
released-Refines sched u m w [] (quiet, free, v) us s = rw quiet (
  record {
    ahead = [];
    stack = [];
    waits = v;
    order = refl;
    stored = tt;
    usable = tt;
    held = inl (free, refl, refl);
  },
  refl,
)
released-Refines sched u m w (x ∷ Q) (wakes, ne, (W, S, v, order)) (e, l, aligned, us) s =
    let (own, others) = s ne in
    let next : woken w ≡ x.awaiter.awaiting_coroutine ∷ [] =
      ap woken wakes
      ∙ ap (λ y. woken (wake_of sched y)) own
      ∙ woken-wake_of sched x (e, l, aligned, tt) in
    (
      record {
        ahead = W;
        stack = S;
        waits = v;
        order = order;
        stored = others;
        usable = us;
        held = inr (ne, (x.awaiter.awaiting_coroutine, next));
      },
      rw next,
    )
