-- ===== src/CoMutex/Fifo.antt =====
-- src/comutex.cpp: `unlock` on the queue of awaiters.
use novaio.Prelude.{
  ℕ, ◌+◌, ◌<◌, ◌≡◌, refl, sym, ap, ◌∙◌, subst, ◌≢◌, true, false, some, List, [], ◌∷◌, ◌++◌,
  append-nil, arith, ◌==◌, ==_of_ne, length, length-append, length-map, rev_onto, rev_onto-rev_onto,
  length-rev_onto,
}
use novaio.CoMutex.{
  Ptr, nullptr, unlocked, locked_no_waiters, CoMutex, Arrival, arrive, Wake, nothing, wake_of,
  resume_first, take_waiters, unlock,
}
use novaio.CoMutex.Trail.{Trail, Disjoint-nil, reverse_loop-Trail}
use novaio.CoMutex.Waits.{Waits, top, queue, addresses, Fresh, arrive-Waits, Fresh-append, stacked}

-- The loop of `unlock` makes the stack the list of `waiters_head_`, oldest first.
take_waiters-Waits :
    (fuel : ℕ) (m : CoMutex) (S : List Ptr)
    → length S < fuel
    → Trail m.next (top m.state) S
    → (m' : CoMutex) × (take_waiters fuel (top m.state) (record m { state = locked_no_waiters })
        ≡ some m')
      × (m'.state ≡ locked_no_waiters)
      × Waits m' (rev_onto S []) []
unfolding take_waiters
take_waiters-Waits fuel m S l t =
    let ((prev, next), runs, trail) =
      reverse_loop-Trail fuel (top m.state) nullptr m.next S [] l t refl (Disjoint-nil S) in
    (
      record m { state = locked_no_waiters; waiters_head = prev; next = next },
      rw runs,
      refl,
      record { head = trail; stack = refl },
    )

-- what `unlock` does with the queue `Q`: the first of it is resumed and the others stay, and with an
-- empty queue the mutex is unlocked
abbrev pub Releases : Ptr → List Ptr → CoMutex × Wake → Type 0
Releases sched [] (m', w) = (w ≡ nothing) × (m'.state ≡ unlocked) × Waits m' [] []
Releases sched (x ∷ Q) (m', w) =
    (w ≡ wake_of sched (m'.awaiters x))
    × (m'.state ≢ unlocked)
    × ((W : List Ptr) × (S : List Ptr) × Waits m' W S × (queue W S ≡ Q))

resume_first-Releases :
    (sched x : Ptr) {m : CoMutex} (W S Q : List Ptr)
    → Waits m (x ∷ W) S
    → m.state ≢ unlocked
    → queue W S ≡ Q
    → Releases sched (x ∷ Q) (resume_first sched m)
unfolding resume_first
resume_first-Releases sched x {m} W S Q v ne same =
    let (e, big, new, trail) = v.head in
    rw (==_of_ne m.waiters_head nullptr (omega arith)) (
      ap (λ p. wake_of sched (m.awaiters p)) e,
      ne,
      (
        W,
        S,
        record { head = subst (λ p. Trail m.next (m.next p) W) (sym e) trail; stack = v.stack },
        same,
      ),
    )

resume_all-Releases :
    (sched : Ptr) {m : CoMutex} (W : List Ptr)
    → 0 < length W
    → Waits m W []
    → m.state ≢ unlocked
    → Releases sched W (resume_first sched m)
resume_all-Releases sched [] some_waiter v ne = absurd (omega arith)
resume_all-Releases sched (x ∷ W) some_waiter v ne =
    resume_first-Releases sched x W [] W v ne (append-nil W)

-- the queue that `unlock` finds at its last exchange
abbrev pub contenders : List Ptr → List Ptr → List Arrival → List Arrival → List Ptr
contenders [] [] [] after = []
contenders [] [] before after = addresses before ++ addresses after
contenders W S before after = queue W S

abbrev pub Unlocks : ℕ → Ptr → CoMutex → List Ptr → List Ptr → List Arrival → List Arrival → Type 0
Unlocks fuel sched m W S before after =
    (r : CoMutex × Wake) × (unlock fuel sched before after m ≡ some r)
    × Releases sched (contenders W S before after) r

unlock-head :
    (fuel : ℕ) (sched x : Ptr) (before after : List Arrival) {m : CoMutex} {W S : List Ptr}
    → Waits m (x ∷ W) S
    → m.state ≢ unlocked
    → Unlocks fuel sched m (x ∷ W) S before after
unfolding unlock
unlock-head fuel sched x before after {m} {W} {S} v ne =
    let (e, big, new, trail) = v.head in
    (
      resume_first sched m,
      rw (==_of_ne m.waiters_head nullptr (omega arith)),
      resume_first-Releases sched x W S (queue W S) v ne refl,
    )

-- Once the stack is taken, its oldest awaiter is resumed.
taken-Releases :
    (fuel : ℕ) (sched : Ptr) (m : CoMutex) (S : List Ptr)
    → length S < fuel
    → 0 < length S
    → Trail m.next (top m.state) S
    → (m' : CoMutex) × (take_waiters fuel (top m.state) (record m { state = locked_no_waiters })
        ≡ some m')
      × Releases sched (rev_onto S []) (resume_first sched m')
taken-Releases fuel sched m S l some_waiter t =
    let (m', runs, st, v) = take_waiters-Waits fuel m S l t in
    (
      m',
      runs,
      resume_all-Releases sched (rev_onto S []) (omega (arith, length-rev_onto S [])) v
          (omega (arith, st)),
    )

-- with awaiters on the stack
unlock-stack :
    (fuel : ℕ) (sched x : Ptr) (before after : List Arrival) (m : CoMutex) (S : List Ptr)
    → length (x ∷ S) < fuel
    → Waits m [] (x ∷ S)
    → Unlocks fuel sched m [] (x ∷ S) before after
unfolding unlock
unlock-stack fuel sched x before after m S l v =
    let (e, big, new, trail) = v.stack in
    let ne : (m.state == locked_no_waiters) ≡ false = ground arith in
    let (m', runs, released) = taken-Releases fuel sched m (x ∷ S) l (omega arith) v.stack in
    let at : top m.state ≡ m.state = rw ne in
    let first : (m.waiters_head == nullptr) ≡ true = rw v.head in
    (
      resume_first sched m',
      rw (
        first,
        ne,
        sym (ap (λ s. take_waiters fuel s (record m { state = locked_no_waiters })) at) ∙ runs,
      ),
      released,
    )

-- with nobody waiting
unlock-idle :
    (fuel : ℕ) (sched : Ptr) (before after : List Arrival) (m : CoMutex)
    → length (before ++ after) < fuel
    → Fresh (before ++ after) []
    → m.state ≢ unlocked
    → Waits m [] []
    → Unlocks fuel sched m [] [] before after
unfolding unlock arrive
unlock-idle fuel sched [] after m l new ne v =
    let first : (m.waiters_head == nullptr) ≡ true = rw v.head in
    let locked : (m.state == locked_no_waiters) ≡ true = ground arith in
    let m' : CoMutex = record m { state = unlocked } in
    (
      (m', nothing),
      rw (first, locked, arrive),
      (refl, refl, record { head = v.head; stack = refl }),
    )
unlock-idle fuel sched (a ∷ before) after m l new ne v =
    let m1 : CoMutex = record m { state = locked_no_waiters } in
    let S2 : List Ptr = rev_onto (addresses (a ∷ before)) [] in
    let m2 : CoMutex = arrive (a ∷ before) m1 in
    let m3 : CoMutex = arrive after m2 in
    let (new1, new2) = Fresh-append (a ∷ before) after [] new in
    let (v2, ne2) =
      arrive-Waits (a ∷ before) {m = m1} (record { head = v.head; stack = refl }) (omega arith)
        new1 in
    let (v3, ne3) = arrive-Waits after {m = m2} v2 ne2 new2 in
    let S3 : List Ptr = rev_onto (addresses after) S2 in
    let count : length S3 ≡ length (a ∷ before ++ after) = omega (
      arith,
      length-rev_onto (addresses after) S2,
      length-rev_onto (addresses (a ∷ before)) [],
      length-map (a ∷ before) (λ x. x.address),
      length-map after (λ x. x.address),
      length-append (a ∷ before) after,
    ) in
    let (m', runs, released) =
      taken-Releases fuel sched m3 S3 (omega (arith, count)) (omega (arith, count)) v3.stack in
    let first : (m.waiters_head == nullptr) ≡ true = rw v.head in
    let locked : (m.state == locked_no_waiters) ≡ true = ground arith in
    let contended : (m2.state == locked_no_waiters) ≡ false =
      stacked m2.state m2.next S2 (omega (arith, length-rev_onto (addresses (a ∷ before)) []))
        v2.stack in
    let last : (m3.state == locked_no_waiters) ≡ false =
      stacked m3.state m3.next S3 (omega (arith, count)) v3.stack in
    let at : top m3.state ≡ m3.state = rw last in
    let order : rev_onto S3 [] ≡ addresses (a ∷ before) ++ addresses after =
      rev_onto-rev_onto (addresses after) S2 []
      ∙ rev_onto-rev_onto (addresses (a ∷ before)) [] (addresses after ++ [])
      ∙ ap (λ xs. addresses (a ∷ before) ++ xs) (append-nil (addresses after)) in
    (
      resume_first sched m',
      rw (
        first,
        locked,
        contended,
        sym (ap (λ s. take_waiters fuel s (record m3 { state = locked_no_waiters })) at) ∙ runs,
      ),
      subst (λ Q. Releases sched Q (resume_first sched m')) order released,
    )

pub unlock-Releases :
    (fuel : ℕ) (sched : Ptr) (before after : List Arrival) (m : CoMutex) (W S : List Ptr)
    → length S + length (before ++ after) < fuel
    → Waits m W S
    → m.state ≢ unlocked
    → Fresh (before ++ after) []
    → (r : CoMutex × Wake) × (unlock fuel sched before after m ≡ some r)
      × Releases sched (contenders W S before after) r
unlock-Releases fuel sched before after m [] [] l v ne new =
    unlock-idle fuel sched before after m (omega arith) new ne v
unlock-Releases fuel sched before after m [] (x ∷ S) l v ne new =
    unlock-stack fuel sched x before after m S (omega arith) v
unlock-Releases fuel sched before after m (x ∷ W) S l v ne new =
    unlock-head fuel sched x before after v ne
