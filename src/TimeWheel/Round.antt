-- ===== src/TimeWheel/Round.antt =====
-- src/time_wheel.cpp: `tick` on a wheel that holds given lists.
use novaio.Prelude.{
  ℕ, zero, suc, ◌+◌, ◌-◌, ◌%◌, ◌^◌, ◌≤◌, ◌<◌, bit_and, ◌≡◌, refl, sym, ap, ◌∙◌, subst, Bool, true,
  false, ◌&&◌, Option, none, some, List, [], ◌∷◌, ◌++◌, map, map-append, arith, ltb, ◌==◌,
  if◌then◌else◌, ==_self, ==_of_ne, length,
}
use novaio.Handle.{Handle}
use novaio.TimeWheel.Cells.{Ptr, null, tvr_mask, tv1}
use novaio.TimeWheel.{TimeWheel, store, set_cell, cascades, fire_loop, round, tick_loop, tick}
use novaio.TimeWheel.Linked.{
  has, Line, Chain-Line, Chain-frame, Line-frame, Distinct, Line-Distinct,
}
use novaio.TimeWheel.Lists.{Lists, clear, spills, settled, due, left, due_in, left_after}
use novaio.TimeWheel.Cascade.{
  Absent, Holds, Yields, Yields->>=, Yields-if, set_cell-Holds, detached, chain_length,
  cascade-Holds,
}

module _ (fuel : ℕ) (pos : 0 < fuel) (expires : Ptr → ℕ) (handles : Ptr → Handle) where
  abbrev Holding : ℕ → TimeWheel → Lists → Type 0
  Holding = Holds fuel expires handles

  cascades_here :
      (w : TimeWheel) (L : Lists)
      → Holding w.current_tick w L
      → Yields fuel expires handles w.current_tick
          (cascades fuel w)
          (spills expires w.current_tick L)
  unfolding cascades spills
  cascades_here w L h =
      Yields->>= fuel expires handles w.current_tick _ _ _ _
        (cascade-Holds fuel expires handles w.current_tick _ w L pos h)
        λ w2 h2.
          Yields-if fuel expires handles w.current_tick _ _ _ _ _ (w2, refl, h2)
            (Yields->>= fuel expires handles w.current_tick _ _ _ _
              (cascade-Holds fuel expires handles w.current_tick _ w2 _ pos h2)
              λ w3 h3.
                Yields-if fuel expires handles w.current_tick _ _ _ _ _ (w3, refl, h3)
                  (Yields->>= fuel expires handles w.current_tick _ _ _ _
                    (cascade-Holds fuel expires handles w.current_tick _ w3 _ pos h3)
                    λ w4 h4.
                      Yields-if fuel expires handles w.current_tick _ _ _ _ _ (w4, refl, h4)
                        (cascade-Holds fuel expires handles w.current_tick _ w4 _ pos h4)))

  -- the handles that a thread with or without a scheduler schedules
  abbrev pub scheduled : Bool → List Ptr → List Handle
  scheduled sched xs = if sched then map handles xs else []

  scheduled-nil : (sched : Bool) → scheduled sched [] ≡ []
  scheduled-nil true = refl
  scheduled-nil false = refl

  scheduled-cons :
      (sched : Bool) (x : Ptr) (xs : List Ptr)
      → (if sched then handles x ∷ scheduled sched xs else scheduled sched xs)
        ≡ scheduled sched (x ∷ xs)
  scheduled-cons true x xs = refl
  scheduled-cons false x xs = refl

  scheduled-append :
      (sched : Bool) (xs ys : List Ptr)
      → scheduled sched xs ++ scheduled sched ys ≡ scheduled sched (xs ++ ys)
  scheduled-append true xs ys = sym (map-append handles xs ys)
  scheduled-append false xs ys = refl

  -- Writing the `head_ptr` of a node that is in no list.
  release-Holds :
      (now x : ℕ) (w : TimeWheel) (L : Lists)
      → Holding now w L
      → Absent x L
      → Holding now (store x (record (w.node x) { head_ptr = none }) w) L
  release-Holds now x w L h out = record {
    rep = λ c.
        Chain-frame w.node (λ q. if q == x then record (w.node x) { head_ptr = none } else w.node q)
          c null (w.cells c) (L c) (λ a i. rw (==_of_ne a x (ground (arith, out c)))) (h.rep c);
    tick_eq = h.tick_eq;
    expires_eq = λ y. ground (arith, h.expires_eq y);
    handle_eq = λ y. ground (arith, h.handle_eq y);
    below = h.below;
  }

  fire_loop-Holds :
      (f : ℕ) (sched : Bool) (xs : List Ptr) (now p : ℕ) (w : TimeWheel) (L : Lists)
      → Holding now w L
      → Line w.node p xs
      → ((a : Ptr) → has a xs ≡ true → Absent a L)
      → length xs < f
      → (w' : TimeWheel) × (fire_loop f sched p w ≡ some (w', scheduled sched xs))
        × Holding now w' L
  unfolding fire_loop
  fire_loop-Holds zero sched xs now p w L h s apart lt = absurd (omega arith)
  fire_loop-Holds (suc f) sched [] now p w L h s apart lt = (w, rw (s, scheduled-nil sched), h)
  fire_loop-Holds (suc f) sched (x ∷ xs) now p w L h (e, ne, new, s) apart lt =
      let released = store x (record (w.node x) { head_ptr = none }) w in
      let (w', e', h') =
        fire_loop-Holds f sched xs now (w.node x).next released L
          (release-Holds now x w L h (apart x (ground (arith, ==_self x))))
          (Line-frame w.node released.node (w.node x).next xs (λ a i. ground arith) s)
          (λ a i. apart a (ground arith)) (omega arith) in
      (
        w',
        rw (==_of_ne p null (λ z. ne (sym e ∙ z)), e, e', h.handle_eq x)
            (ap (λ hs. some (w', hs)) (scheduled-cons sched x xs)),
        h',
      )

  -- The wheel after a run, and what it scheduled.
  abbrev pub Fires : Option (TimeWheel × List Handle) → Bool → List Ptr → ℕ → Lists → Type 0
  Fires m sched xs now L = (w : TimeWheel) × (m ≡ some (w, scheduled sched xs)) × Holding now w L

  round_here :
      (sched : Bool) (w : TimeWheel) (L : Lists)
      → w.current_tick + 1 < 2 ^ 64
      → Holding w.current_tick w L
      → Fires
          (round fuel sched w)
          sched
          (due expires w.current_tick L)
          (w.current_tick + 1)
          (left expires w.current_tick L)
  unfolding round due left
  round_here sched w L lt h =
      let (w1, e1, h1) =
        Yields-if fuel expires handles w.current_tick
          (bit_and w.current_tick tvr_mask == 0 && ltb 0 w.current_tick) (cascades fuel w) (some w)
          (spills expires w.current_tick L) L (cascades_here w L h) (w, refl, h) in
      let c = tv1 + bit_and w.current_tick tvr_mask in
      let L1 = settled expires w.current_tick L in
      let (w2, e2, h2) =
        fire_loop-Holds fuel sched (L1 c) w.current_tick (w1.cells c) (set_cell c null w1)
          (clear c L1) (set_cell-Holds fuel expires handles w.current_tick c w1 L1 h1)
          (Chain-Line w1.node c null (w1.cells c) (L1 c) (h1.rep c))
          (detached fuel expires handles w.current_tick c w1 L1 h1)
          (chain_length fuel expires handles w.current_tick c w1 L1 pos h1) in
      (
        record w2 { current_tick = (w2.current_tick + 1) % 2 ^ 64 },
        rw (e1, e2),
        record {
          rep = h2.rep;
          tick_eq = omega (arith, h2.tick_eq);
          expires_eq = h2.expires_eq;
          handle_eq = h2.handle_eq;
          below = h2.below;
        },
      )

  Distinct-here :
      (w : TimeWheel) (L : Lists)
      → Holding w.current_tick w L
      → Distinct (settled expires w.current_tick L (tv1 + bit_and w.current_tick tvr_mask))
  unfolding settled
  Distinct-here w L h =
      let (w1, e1, h1) =
        Yields-if fuel expires handles w.current_tick
          (bit_and w.current_tick tvr_mask == 0 && ltb 0 w.current_tick) (cascades fuel w) (some w)
          (spills expires w.current_tick L) L (cascades_here w L h) (w, refl, h) in
      let c = tv1 + bit_and w.current_tick tvr_mask in
      Line-Distinct w1.node (w1.cells c) (settled expires w.current_tick L c)
        (Chain-Line w1.node c null (w1.cells c) _ (h1.rep c))

  -- One round fires the nodes of one cell, once the cascades are done.
  pub round_refines :
      (sched : Bool) (now : ℕ) (w : TimeWheel) (L : Lists)
      → now + 1 < 2 ^ 64
      → Holding now w L
      → Fires (round fuel sched w) sched (due expires now L) (now + 1) (left expires now L)
  round_refines sched now w L lt h =
      subst
        (λ t.
          t + 1 < 2 ^ 64
          → Holding t w L
          → Fires (round fuel sched w) sched (due expires t L) (t + 1) (left expires t L))
        h.tick_eq (round_here sched w L) lt h

  -- A round fires no node twice.
  pub due-Distinct :
      (now : ℕ) (w : TimeWheel) (L : Lists) → Holding now w L → Distinct (due expires now L)
  unfolding due
  due-Distinct now w L h =
      subst (λ t. Holding t w L → Distinct (settled expires t L (tv1 + bit_and t tvr_mask)))
        h.tick_eq (Distinct-here w L) h

  tick_loop-Fires :
      (rounds : ℕ) (sched : Bool) (target now : ℕ) (w : TimeWheel) (L : Lists)
      → now + rounds ≡ target
      → target < 2 ^ 64
      → Holding now w L
      → Fires
          (tick_loop rounds fuel sched target w)
          sched
          (due_in expires rounds now L)
          target
          (left_after expires rounds now L)
  unfolding tick_loop due_in left_after
  tick_loop-Fires zero sched target now w L e lt h =
      let reached : ltb w.current_tick target ≡ false = ground (arith, h.tick_eq) in
      (w, rw (reached, scheduled-nil sched), subst (λ t. Holding t w L) (omega arith) h)
  tick_loop-Fires (suc rounds) sched target now w L e lt h =
      let before : ltb w.current_tick target ≡ true = ground (arith, h.tick_eq) in
      let (w1, e1, h1) = round_refines sched now w L (omega arith) h in
      let (w2, e2, h2) =
        tick_loop-Fires rounds sched target (now + 1) w1 (left expires now L) (omega arith) lt h1 in
      (w2, rw (before, e1, e2) (ap (λ hs. some (w2, hs)) (scheduled-append sched _ _)), h2)

  -- `tick` ends, and fires the nodes of the rounds from the current tick up to `target`.
  pub tick_refines :
      (sched : Bool) (target now : ℕ) (w : TimeWheel) (L : Lists)
      → now ≤ target
      → target < 2 ^ 64
      → Holding now w L
      → Fires
          (tick fuel sched target w)
          sched
          (due_in expires (target - now) now L)
          target
          (left_after expires (target - now) now L)
  unfolding tick
  tick_refines sched target now w L le lt h =
      subst
        (λ t.
          Fires (tick_loop (target - t) fuel sched target w) sched
            (due_in expires (target - now) now L) target (left_after expires (target - now) now L))
        (sym h.tick_eq) (tick_loop-Fires (target - now) sched target now w L (omega arith) lt h)
