-- ===== src/Scheduler/CatchUp.antt =====
-- src/scheduler.cpp: the ticks with which a turn of `run` catches up, one for each millisecond.
use novaio.Prelude.{
  ℕ, zero, suc, ◌+◌, ◌-◌, ◌^◌, ◌≤◌, ◌<◌, ◌≡◌, refl, sym, ap, ap₂, ◌∙◌, subst, true, some, List,
  ◌++◌, map, append-nil, append_assoc, map-append, arith,
}
use novaio.Handle.{Handle}
use novaio.TimeWheel.Cells.{Ptr}
use novaio.TimeWheel.{TimeWheel}
use novaio.TimeWheel.Lists.{Lists, due, left, due_in, left_after}
use novaio.TimeWheel.Cascade.{Holds}
use novaio.TimeWheel.Round.{tick_refines}
use novaio.TimeWheel.Exact.{IsWheel, Fires, rounds-Fires}
use novaio.Scheduler.{catch_up}

-- `m` is the tick after the first `a` of `r` rounds from `now`.
due_in-append :
    (expires : Ptr → ℕ) (a b now r m : ℕ) (L : Lists)
    → r ≡ a + b
    → m ≡ now + a
    → due_in expires r now L
      ≡ due_in expires a now L ++ due_in expires b m (left_after expires a now L)
unfolding due_in left_after
due_in-append expires zero b now r m L e f =
    let rounds : r ≡ b = omega (arith, e) in
    let start : now ≡ m = omega (arith, f) in ap₂ (λ r m. due_in expires r m L) rounds start
due_in-append expires (suc a) b now r m L e f =
    let first : List Ptr = due expires now L in
    let more : r ≡ suc (a + b) = omega (arith, e) in
    ap (λ r. due_in expires r now L) more
    ∙ ap (λ xs. first ++ xs)
        (due_in-append expires a b (now + 1) (a + b) m (left expires now L) refl (omega (arith, f)))
    ∙ sym (append_assoc first (due_in expires a (now + 1) (left expires now L)) _)

left_after-append :
    (expires : Ptr → ℕ) (a b now r m : ℕ) (L : Lists)
    → r ≡ a + b
    → m ≡ now + a
    → left_after expires r now L ≡ left_after expires b m (left_after expires a now L)
unfolding left_after
left_after-append expires zero b now r m L e f =
    let rounds : r ≡ b = omega (arith, e) in
    let start : now ≡ m = omega (arith, f) in ap₂ (λ r m. left_after expires r m L) rounds start
left_after-append expires (suc a) b now r m L e f =
    let more : r ≡ suc (a + b) = omega (arith, e) in
    ap (λ r. left_after expires r now L) more
    ∙ left_after-append expires a b (now + 1) (a + b) m (left expires now L) refl (omega (arith, f))

module _ (fuel : ℕ) (pos : 0 < fuel) (expires : Ptr → ℕ) (handles : Ptr → Handle) where
  catch_up_refines :
      (n t now r : ℕ) (w : TimeWheel) (L : Lists)
      → now ≤ t
      → t + n < 2 ^ 64
      → r ≡ t + n - now
      → Holds fuel expires handles now w L
      → (w' : TimeWheel) × (catch_up (suc n) fuel t w
          ≡ some (w', map handles (due_in expires r now L)))
        × Holds fuel expires handles (t + n) w' (left_after expires r now L)
  unfolding catch_up
  catch_up_refines zero t now r w L le lt er v =
      let (w1, e1, h1) =
        tick_refines fuel pos expires handles true t now w L le (omega (arith, lt)) v in
      let same : t - now ≡ r = omega (arith, er) in
      (
        w1,
        rw e1 (
            ap (λ hs. some (w1, hs))
              (append-nil _ ∙ ap (λ r. map handles (due_in expires r now L)) same)),
        subst (λ x. Holds fuel expires handles x w1 (left_after expires r now L)) (omega arith)
            (subst (λ r. Holds fuel expires handles t w1 (left_after expires r now L)) same h1),
      )
  catch_up_refines (suc n) t now r w L le lt er v =
      let a = t - now in
      let (w1, e1, h1) =
        tick_refines fuel pos expires handles true t now w L le (omega (arith, lt)) v in
      let L1 : Lists = left_after expires a now L in
      let (w2, e2, h2) =
        catch_up_refines n (t + 1) t (suc n) w1 L1 (omega arith) (omega (arith, lt)) (omega arith)
          h1 in
      let split =
        due_in-append expires a (suc n) now r t L (omega (arith, er)) (omega (arith, le)) in
      let rest =
        left_after-append expires a (suc n) now r t L (omega (arith, er)) (omega (arith, le)) in
      (
        w2,
        rw (e1, e2)
            (ap (λ hs. some (w2, hs))
              (sym (map-append handles _ _) ∙ ap (map handles) (sym split))),
        subst (Holds fuel expires handles (t + suc n) w2) (sym rest) (
            subst (λ x. Holds fuel expires handles x w2 (left_after expires (suc n) t L1))
              (omega arith) h2),
      )

  -- The ticks of a turn, the first of them up to `t` and the last up to `t + n`, fire exactly the timers
  -- that expire before `t + n`, each once and in the order of their expiry, schedule their coroutines,
  -- and keep the others, as one `tick` up to `t + n` would.
  pub catch_up-Fires :
      (n t tick0 : ℕ) (w : TimeWheel) (L : Lists)
      → tick0 ≤ t
      → t + n < 2 ^ 64
      → IsWheel fuel expires handles tick0 w L
      → Fires fuel pos expires handles (catch_up (suc n) fuel t w) true tick0 (t + n) L
  catch_up-Fires n t tick0 w L le lt v =
      let (w1, e1, h1) = catch_up_refines n t tick0 (t + n - tick0) w L le lt refl v.holds in
      rounds-Fires fuel pos expires handles (catch_up (suc n) fuel t w) true tick0 (t + n) w w1 L
        (omega arith) lt v e1 h1

  -- the ticks from that after `last` up to `now`
  pub catch_up_from-Fires :
      (last now tick0 : ℕ) (w : TimeWheel) (L : Lists)
      → last < now
      → tick0 ≤ last + 1
      → now < 2 ^ 64
      → IsWheel fuel expires handles tick0 w L
      → Fires fuel pos expires handles (catch_up (now - last) fuel (last + 1) w) true tick0 now L
  catch_up_from-Fires last now tick0 w L lt le small v =
      let m : ℕ = now - last - 1 in
      let ticks : suc m ≡ now - last = omega (arith, lt) in
      let end : last + 1 + m ≡ now = omega (arith, lt) in
      subst (λ n. Fires fuel pos expires handles (catch_up n fuel (last + 1) w) true tick0 now L)
        ticks
        (subst
          (λ t. Fires fuel pos expires handles (catch_up (suc m) fuel (last + 1) w) true tick0 t L)
          end (catch_up-Fires m (last + 1) tick0 w L le (omega (arith, end, small)) v))
