-- ===== src/TimeWheel/Stale.antt =====
-- src/time_wheel.cpp: the count `active_timers_` under `tick`, and what `next_timeout` makes of it.
use novaio.Prelude.{
  ℕ, zero, suc, ◌+◌, ◌-◌, ◌*◌, ◌%◌, ◌^◌, ◌≤◌, ◌<◌, bit_and, ◌≡◌, refl, sym, ap, ◌≢◌, inl, inr, Bool,
  ◌&&◌, Option, none, some, List, ◌∷◌, ◌++◌, arith, ltb, ◌==◌, if◌then◌else◌, ◌>>=◌, eq_of_==,
  ==_of_ne, Bool-cases,
}
use novaio.Handle.{Handle}
use novaio.TimeWheel.Cells.{Ptr, null, tv1, tvr_mask}
use novaio.TimeWheel.{
  TimeWheel, add_timer, set_cell, store, cascade_loop, cascade, cascades, fire_loop, round,
  tick_loop, tick, next_timeout,
}
use novaio.TimeWheel.Linked.{has-first, Chain-Line}
use novaio.TimeWheel.Lists.{Lists}
use novaio.TimeWheel.Timing.{In}
use novaio.TimeWheel.Exact.{IsWheel, tick_exact}
use novaio.TimeWheel.Timeout.{nth_cell, search_none}

-- from `w` to `w'` the count has not fallen, and has risen by `n` at most
abbrev pub Grows : ℕ → TimeWheel → TimeWheel → Type 0
Grows n w w' = (w.active_timers ≤ w'.active_timers) × (w'.active_timers ≤ w.active_timers + n)

add_timer-counts :
    (p : Ptr) (w : TimeWheel) → (add_timer p w).active_timers ≡ (w.active_timers + 1) % 2 ^ 64
unfolding add_timer
add_timer-counts p w = ground arith

cascade_loop-Grows :
    (fuel : ℕ) (curr : Ptr) (w w' : TimeWheel)
    → w.active_timers + fuel < 2 ^ 64
    → cascade_loop fuel curr w ≡ some w'
    → Grows fuel w w'
unfolding cascade_loop
cascade_loop-Grows zero curr w w' room e = cc
cascade_loop-Grows (suc fuel) curr w w' room e =
    let counts = add_timer-counts curr w in
    elim (Bool-cases (curr == null)) [
      | inl f ↦ ground arith
      | inr f ↦
          let (up, most) =
            cascade_loop-Grows fuel (w.node curr).next (add_timer curr w) w' (omega (arith, counts))
              (ground arith) in
          (omega (arith, counts), omega (arith, counts))
    ]

cascade-Grows :
    (fuel c : ℕ) (w w' : TimeWheel)
    → w.active_timers + fuel < 2 ^ 64
    → cascade fuel c w ≡ some w'
    → Grows fuel w w'
unfolding cascade
cascade-Grows fuel c w w' room e = cascade_loop-Grows fuel (w.cells c) (set_cell c null w) w' room e

-- A chain of results that ends well ends each of its parts well.
bound-some :
    {A B : Type 0} (m : Option A) (f : A → Option B) (b : B)
    → (m >>= f) ≡ some b
    → (a : A) × (m ≡ some a) × (f a ≡ some b)
bound-some none f b e = cc
bound-some (some a) f b e = (a, refl, e)

-- operations under which the count rises by `n` at most, where there is room for it
abbrev Grow : ℕ → (TimeWheel → Option TimeWheel) → Type 0
Grow n f = (w w' : TimeWheel) → w.active_timers + n < 2 ^ 64 → f w ≡ some w' → Grows n w w'

nested-Grow :
    (fuel c n : ℕ) (b : Bool) (f : TimeWheel → Option TimeWheel)
    → Grow n f
    → Grow (fuel + n) (λ w. cascade fuel c w >>= λ v. if b then some v else f v)
nested-Grow fuel c n b f g w w' room e =
    let (v, first, last) = bound-some (cascade fuel c w) (λ v. if b then some v else f v) w' e in
    let (up, most) = cascade-Grows fuel c w v (omega arith) first in
    elim (Bool-cases b) [
      | inl t ↦ let same : v ≡ w' = ground arith in rw (sym same) (up, omega arith)
      | inr t ↦ let (up', most') = g v w' (omega arith) (ground arith) in (omega arith, omega arith)
    ]

cascades-Grows :
    (fuel : ℕ) (w w' : TimeWheel)
    → w.active_timers + 4 * fuel < 2 ^ 64
    → cascades fuel w ≡ some w'
    → Grows (4 * fuel) w w'
unfolding cascades
cascades-Grows fuel w w' room e =
    let g =
      nested-Grow fuel _ _ _ _
        (nested-Grow fuel _ _ _ _ (nested-Grow fuel _ _ _ _ (cascade-Grows fuel _))) w w'
        (omega arith) e in
    (g.0, omega (arith, g.1))

fire_loop-count :
    (fuel : ℕ) (sched : Bool) (curr : Ptr) (w : TimeWheel) (r : TimeWheel × List Handle)
    → fire_loop fuel sched curr w ≡ some r
    → r.0.active_timers ≡ w.active_timers
unfolding fire_loop
fire_loop-count zero sched curr w r e = cc
fire_loop-count (suc fuel) sched curr w r e = elim (Bool-cases (curr == null)) [
  | inl f ↦ ground arith
  | inr f ↦
      let unlinked : TimeWheel = store curr (record (w.node curr) { head_ptr = none }) w in
      let (r', runs, last) =
        bound-some (fire_loop fuel sched (w.node curr).next unlinked)
          (λ (w', hs). some (w', if sched then (w.node curr).handle ∷ hs else hs)) r
          (ground arith) in
      let same = fire_loop-count fuel sched (w.node curr).next unlinked r' runs in ground arith
]

round-Grows :
    (fuel : ℕ) (sched : Bool) (w : TimeWheel) (r : TimeWheel × List Handle)
    → w.active_timers + 4 * fuel < 2 ^ 64
    → round fuel sched w ≡ some r
    → Grows (4 * fuel) w r.0
unfolding round
round-Grows fuel sched w r room e =
    let index : ℕ = bit_and w.current_tick tvr_mask in
    let (v, cascaded, rest) =
      bound-some (if index == 0 && ltb 0 w.current_tick then cascades fuel w else some w) _ r e in
    let (r', fired, last) =
      bound-some (fire_loop fuel sched (v.cells (tv1 + index)) (set_cell (tv1 + index) null v)) _ r
        rest in
    let same = fire_loop-count fuel sched _ _ r' fired in
    let count : r.0.active_timers ≡ r'.0.active_timers = ground arith in
    elim (Bool-cases (index == 0 && ltb 0 w.current_tick)) [
      | inl t ↦
          let (up, most) = cascades-Grows fuel w v room (ground arith) in
          (omega (arith, count, same), omega (arith, count, same))
      | inr t ↦
          let stays : v ≡ w = ground arith in
          let kept = ap (λ u. u.active_timers) stays in
          (omega (arith, count, same, kept), omega (arith, count, same, kept))
    ]

tick_loop-Grows :
    (rounds fuel : ℕ) (sched : Bool) (target : ℕ) (w : TimeWheel) (r : TimeWheel × List Handle)
    → w.active_timers + rounds * (4 * fuel) < 2 ^ 64
    → tick_loop rounds fuel sched target w ≡ some r
    → Grows (rounds * (4 * fuel)) w r.0
unfolding tick_loop
tick_loop-Grows zero fuel sched target w r room e =
    let same : r.0 ≡ w = ground arith in
    let count = ap (λ u. u.active_timers) same in (omega (arith, count), omega (arith, count))
tick_loop-Grows (suc rounds) fuel sched target w r room e =
    elim (Bool-cases (ltb w.current_tick target)) [
      | inr t ↦
          let same : r.0 ≡ w = ground arith in
          let count = ap (λ u. u.active_timers) same in (omega (arith, count), omega (arith, count))
      | inl t ↦
          let (a, first, rest) =
            bound-some (round fuel sched w)
              (λ (w, hs). tick_loop rounds fuel sched target w >>= λ (w, hs'). some (w, hs ++ hs'))
              r (ground arith) in
          let (b, second, last) = bound-some (tick_loop rounds fuel sched target a.0) _ r rest in
          let (up, most) = round-Grows fuel sched w a (omega arith) first in
          let (up', most') = tick_loop-Grows rounds fuel sched target a.0 b (omega arith) second in
          let count : r.0.active_timers ≡ b.0.active_timers = ground arith in
          (omega (arith, count), omega (arith, count))
    ]

-- no timer is in the lists, so no cell leads to one
empty-cells :
    {fuel : ℕ} {expires : Ptr → ℕ} {handles : Ptr → Handle} {now : ℕ} {w : TimeWheel} {L : Lists}
    → IsWheel fuel expires handles now w L
    → ((a : Ptr) → ¬ In a L)
    → (c : ℕ) → w.cells c ≡ null
empty-cells {w = w} {L} v none_in c = elim (Bool-cases (w.cells c == null)) [
  | inl e ↦ eq_of_== (w.cells c) null e
  | inr ne ↦
      let in_cell =
        has-first w.node (w.cells c) (L c)
          (Chain-Line w.node c null (w.cells c) (L c) (v.holds.rep c)) (ground arith) in
      absurd (none_in (w.cells c) (c, in_cell))
]

-- `tick` does not lower the count of timers. When it has fired every timer of the wheel, the count is
-- not 0, and `next_timeout` does not say that there is nothing to wait for: the loop wakes every 50 ms.
-- The wheel counted some timer before, and the ticks and the addresses leave room for the count.
pub tick-Stale :
    (fuel : ℕ) (expires : Ptr → ℕ) (handles : Ptr → Handle) (sched : Bool) (now target time : ℕ)
    (w : TimeWheel) (L : Lists)
    → 0 < fuel
    → now ≤ target
    → target + 256 < 2 ^ 64
    → IsWheel fuel expires handles now w L
    → w.active_timers ≢ 0
    → w.active_timers + (target - now) * (4 * fuel) < 2 ^ 64
    → ((a : Ptr) → In a L → expires a < target)
    → (w' : TimeWheel) × (hs : List Handle) × (tick fuel sched target w ≡ some (w', hs))
      × (w.active_timers ≤ w'.active_timers)
      × ((a : ℕ) → w'.cells a ≡ null)
      × (next_timeout time w' ≡ 50)
unfolding tick next_timeout
tick-Stale fuel expires handles sched now target time w L pos le room v busy grows all_due =
    let t = tick_exact fuel pos expires handles sched now target w L le (omega arith) v in
    let empty =
      empty-cells t.wheel
        (λ a i. let (was, later) = (t.kept_iff a).0 i in omega (arith, all_due a was)) in
    let (up, most) =
      tick_loop-Grows (target - w.current_tick) fuel sched target w _ (rw v.holds.tick_eq grows)
        t.runs in
    (
      t.after,
      _,
      t.runs,
      up,
      empty,
      rw (==_of_ne t.after.active_timers 0 (omega arith)) (
          search_none time t.after (omega (arith, t.wheel.holds.tick_eq)) 256 0 refl
            (λ j l. empty (nth_cell t.after j))),
    )
