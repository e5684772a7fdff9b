-- ===== src/CoMutex/Drain.antt =====
-- src/comutex.cpp: holders that unlock one after the other, while nobody arrives.
use novaio.Prelude.{
  ℕ, zero, suc, ◌≤◌, ◌<◌, ◌≡◌, refl, sym, ap, ◌∙◌, subst, ◌≢◌, inl, inr, not, Option, none, some,
  List, [], ◌∷◌, ◌++◌, map, arith, ◌==◌, if◌then◌else◌, ◌>>=◌, Bool-cases, length, length-append,
  rev_onto, length-rev_onto,
}
use novaio.CoMutex.{
  Ptr, Awaiter, nullptr, unlocked, locked_no_waiters, CoMutex, Wake, nothing, wake_of, resume_first,
  take_waiters, reverse_loop, arrive, unlock,
}
use novaio.CoMutex.Waits.{Waits, queue}
use novaio.CoMutex.Fifo.{Releases, contenders, unlock-Releases}

-- `n` calls of `unlock`: the mutex, and what they do with the awaiters that they take
unfoldable pub unlocks : ℕ → ℕ → Ptr → CoMutex → Option (CoMutex × List Wake)
unlocks zero fuel sched m = some (m, [])
unlocks (suc n) fuel sched m = do
  (m, w) ← unlock fuel sched [] [] m
  (m, ws) ← unlocks n fuel sched m
  some (m, w ∷ ws)

resume_first-awaiters : (sched : Ptr) (m : CoMutex) → (resume_first sched m).0.awaiters ≡ m.awaiters
unfolding resume_first
resume_first-awaiters sched m = elim (Bool-cases (m.waiters_head == nullptr)) [
  | inl e ↦ rw e refl
  | inr e ↦ rw e refl
]

-- what `unlock` returns without arrivals
unlock_parts : ℕ → Ptr → CoMutex → Option (CoMutex × Wake)
unlock_parts fuel sched m =
    if not (m.waiters_head == nullptr)
    then some (resume_first sched m)
    else if m.state == locked_no_waiters
    then some (record m { state = unlocked }, nothing)
    else (do
      m' ← take_waiters fuel m.state (record m { state = locked_no_waiters })
      some (resume_first sched m'))

unlock-unlock_parts :
    (fuel : ℕ) (sched : Ptr) (m : CoMutex) → unlock fuel sched [] [] m ≡ unlock_parts fuel sched m
unfolding unlock unlock_parts arrive
unlock-unlock_parts fuel sched m = refl

abbrev KeepsAwaiters : CoMutex → Option (CoMutex × Wake) → Type 0
KeepsAwaiters m none = Unit
KeepsAwaiters m (some r) = r.0.awaiters ≡ m.awaiters

taken-KeepsAwaiters :
    (sched : Ptr) (m : CoMutex) (o : Option (Ptr × (Ptr → Ptr)))
    → KeepsAwaiters m (do
      m' ← (do
        (prev, next) ← o
        some (record m { state = locked_no_waiters; waiters_head = prev; next = next }))
      some (resume_first sched m'))
taken-KeepsAwaiters sched m none = tt
taken-KeepsAwaiters sched m (some (prev, next)) =
    resume_first-awaiters sched
      (record m { state = locked_no_waiters; waiters_head = prev; next = next })

unlock_parts-KeepsAwaiters :
    (fuel : ℕ) (sched : Ptr) (m : CoMutex) → KeepsAwaiters m (unlock_parts fuel sched m)
unfolding unlock_parts take_waiters
unlock_parts-KeepsAwaiters fuel sched m = elim (Bool-cases (m.waiters_head == nullptr)) [
  | inr e ↦ rw e (resume_first-awaiters sched m)
  | inl e ↦ rw e (elim (Bool-cases (m.state == locked_no_waiters)) [
    | inl f ↦ rw f refl
    | inr f ↦ rw f (taken-KeepsAwaiters sched m (reverse_loop fuel m.state nullptr m.next))
  ])
]

contenders-queue : (W S : List Ptr) → contenders W S [] [] ≡ queue W S
contenders-queue [] [] = refl
contenders-queue [] (x ∷ S) = refl
contenders-queue (x ∷ W) S = refl

unlock_once :
    (fuel : ℕ) (sched : Ptr) (Q : List Ptr) (m : CoMutex) (W S : List Ptr)
    → queue W S ≡ Q
    → length Q < fuel
    → Waits m W S
    → m.state ≢ unlocked
    → (r : CoMutex × Wake) × (unlock fuel sched [] [] m ≡ some r)
      × Releases sched Q r
      × (r.0.awaiters ≡ m.awaiters)
unlock_once fuel sched Q m W S e l v ne =
    let few : length S ≤ length Q =
      omega (arith, length-append W (rev_onto S []), length-rev_onto S [], ap length e) in
    let (r, runs, released) =
      unlock-Releases fuel sched [] [] m W S (omega (arith, few, l)) v ne tt in
    (
      r,
      runs,
      subst (λ Q. Releases sched Q r) (contenders-queue W S ∙ e) released,
      subst (KeepsAwaiters m) (sym (unlock-unlock_parts fuel sched m) ∙ runs)
          (unlock_parts-KeepsAwaiters fuel sched m),
    )

drains :
    (fuel : ℕ) (sched : Ptr) (Q : List Ptr) (m : CoMutex) (W S : List Ptr)
    → queue W S ≡ Q
    → length Q < fuel
    → Waits m W S
    → m.state ≢ unlocked
    → (m' : CoMutex) × (unlocks (suc (length Q)) fuel sched m
        ≡ some (m', map (λ x. wake_of sched (m.awaiters x)) Q ++ nothing ∷ []))
      × (m'.state ≡ unlocked)
      × Waits m' [] []
unfolding unlocks
drains fuel sched [] m W S e l v ne =
    let (r, runs, (last, free, v'), same) = unlock_once fuel sched [] m W S e l v ne in
    (r.0, rw runs (ap (λ w. some (r.0, w ∷ [])) last), free, v')
drains fuel sched (x ∷ Q) m W S e l v ne =
    let (r, runs, (wake, ne', (W', S', v', e')), same) =
      unlock_once fuel sched (x ∷ Q) m W S e l v ne in
    let (m', rest, free, v'') = drains fuel sched Q r.0 W' S' e' (omega (arith, l)) v' ne' in
    let wakes : (Ptr → Awaiter) → List Wake = λ f. map (λ y. wake_of sched (f y)) (x ∷ Q) in
    (
      m',
      rw (runs, rest)
          (ap (λ w. some (m', w ∷ map (λ y. wake_of sched (r.0.awaiters y)) Q ++ nothing ∷ [])) wake
            ∙ ap (λ f. some (m', wakes f ++ nothing ∷ [])) same),
      free,
      v'',
    )

-- If nobody arrives, a locked mutex with `n` awaiters is unlocked by `n + 1` calls of `unlock`, one for
-- each holder: the first `n` resume the awaiters, each once and in the order of their arrival, and the
-- last finds nobody. The fuel exceeds the number of awaiters.
pub unlocks-all :
    (fuel : ℕ) (sched : Ptr) (m : CoMutex) (W S : List Ptr)
    → length (queue W S) < fuel
    → Waits m W S
    → m.state ≢ unlocked
    → (m' : CoMutex) × (unlocks (suc (length (queue W S))) fuel sched m
        ≡ some (m', map (λ x. wake_of sched (m.awaiters x)) (queue W S) ++ nothing ∷ []))
      × (m'.state ≡ unlocked)
      × Waits m' [] []
unlocks-all fuel sched m W S l v ne = drains fuel sched (queue W S) m W S refl l v ne
