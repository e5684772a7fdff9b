-- ===== src/TimeWheel/Exact.antt =====
-- src/time_wheel.cpp: the wheel as a set of timers, under its operations.
use novaio.Prelude.{
  ℕ, zero, suc, ◌+◌, ◌-◌, ◌%◌, ◌^◌, ◌≤◌, ◌<◌, ◌≡◌, refl, subst, ◌⊎◌, ◌≢◌, ◌↔◌, inl, inr, Bool, true,
  false, Option, some, List, [], ◌∷◌, ◌++◌, arith, ◌==◌, if◌then◌else◌, Bool-cases, eq_of_==,
  ==_self, ==_of_ne,
}
use novaio.Handle.{Handle}
use novaio.TimeWheel.Cells.{Ptr, null}
use novaio.TimeWheel.{TimerNode, TimeWheel, make, add_timer, tick, sleep_suspend, store}
use novaio.TimeWheel.Linked.{has, Distinct, Chain-frame}
use novaio.TimeWheel.Lists.{Lists, put, cell, due, left, due_in, left_after}
use novaio.TimeWheel.Cascade.{Absent, Holds, add_timer-Holds}
use novaio.TimeWheel.Round.{scheduled, round_refines, due-Distinct, tick_refines}
use novaio.TimeWheel.Timing.{In}
use novaio.TimeWheel.Due.{
  AtRest, has-due, left-In, left-AtRest, put-AtRest, has-due_in, left_after-In, left_after-AtRest,
  IsOrdered, due_in-IsOrdered, has-append,
}

-- The wheel `w` holds the timers of the lists `L`, each where it must lie at tick `now`.
pub record IsWheel (fuel : ℕ) (expires : Ptr → ℕ) (handles : Ptr → Handle) (now : ℕ) (w : TimeWheel)
    (L : Lists) : Type 0 where
  pub holds : Holds fuel expires handles now w L
  pub at_rest : AtRest expires now L

module _ (fuel : ℕ) (pos : 0 < fuel) (expires : Ptr → ℕ) (handles : Ptr → Handle) where
  append-Distinct :
      (xs ys : List Ptr)
      → Distinct xs
      → Distinct ys
      → ((a : Ptr) → has a xs ≡ true → has a ys ≡ false)
      → Distinct (xs ++ ys)
  append-Distinct [] ys d d' h = d'
  append-Distinct (x ∷ xs) ys d d' h = (
    ground (arith, has-append expires x xs ys, h x (ground (arith, ==_self x))),
    append-Distinct xs ys d.1 d' (λ a i. h a (ground arith)),
  )

  due_in-Distinct :
      (rounds now : ℕ) (w : TimeWheel) (L : Lists)
      → now + rounds < 2 ^ 64
      → IsWheel fuel expires handles now w L
      → Distinct (due_in expires rounds now L)
  unfolding due_in
  due_in-Distinct zero now w L lt v = tt
  due_in-Distinct (suc rounds) now w L lt v =
      let (w1, e1, h1) =
        round_refines fuel pos expires handles true now w L (omega arith) v.holds in
      let rest = left-AtRest expires now L v.at_rest in
      append-Distinct (due expires now L) (due_in expires rounds (now + 1) (left expires now L))
        (due-Distinct fuel pos expires handles now w L v.holds)
        (due_in-Distinct rounds (now + 1) w1 (left expires now L) (omega arith)
          (record { holds = h1; at_rest = rest }))
        λ a i. elim (Bool-cases (has a (due_in expires rounds (now + 1) (left expires now L)))) [
          | inl j ↦ absurd (
              ((left-In expires now L v.at_rest a).0
                  ((has-due_in expires rounds (now + 1) (left expires now L) rest a).0 j).0).1
                ((has-due expires now L v.at_rest a).0 i).1)
          | inr out ↦ out
        ]

  -- the outcome of a run up to `target` on the timers of `L`, `fired` being what goes off and `kept`
  -- what stays
  pub record Fires (m : Option (TimeWheel × List Handle)) (sched : Bool) (now target : ℕ)
      (L : Lists) : Type 0 where
    pub after : TimeWheel
    pub fired : List Ptr
    pub kept : Lists
    pub runs : m ≡ some (after, scheduled fuel pos expires handles sched fired)
    pub wheel : IsWheel fuel expires handles target after kept
    pub fired_iff : (a : Ptr) → (has a fired ≡ true) ↔ (In a L × (expires a < target))
    pub kept_iff : (a : Ptr) → In a kept ↔ (In a L × (target ≤ expires a))
    pub once : Distinct fired
    pub ordered : IsOrdered expires now fired

  abbrev pub Ticked : Bool → ℕ → ℕ → TimeWheel → Lists → Type 0
  Ticked sched now target w L = Fires (tick fuel sched target w) sched now target L

  -- a run that fires what the rounds from `now` to `target` do
  pub rounds-Fires :
      (m : Option (TimeWheel × List Handle)) (sched : Bool) (now target : ℕ) (w w' : TimeWheel)
      (L : Lists)
      → now ≤ target
      → target < 2 ^ 64
      → IsWheel fuel expires handles now w L
      → m
        ≡ some (w', scheduled fuel pos expires handles sched (due_in expires (target - now) now L))
      → Holds fuel expires handles target w' (left_after expires (target - now) now L)
      → Fires m sched now target L
  rounds-Fires m sched now target w w' L le lt v e h =
      let n = target - now in
      let end : now + n ≡ target = omega arith in
      record {
        after = w';
        fired = due_in expires n now L;
        kept = left_after expires n now L;
        runs = e;
        wheel = record {
          holds = h;
          at_rest =
              subst (λ t. AtRest expires t (left_after expires n now L)) end
                (left_after-AtRest expires n now L v.at_rest);
        };
        fired_iff = λ a.
            subst (λ t. (has a (due_in expires n now L) ≡ true) ↔ (In a L × (expires a < t))) end
              (has-due_in expires n now L v.at_rest a);
        kept_iff = λ a.
            subst (λ t. In a (left_after expires n now L) ↔ (In a L × (t ≤ expires a))) end
              (left_after-In expires n now L v.at_rest a);
        once = due_in-Distinct n now w L (omega arith) v;
        ordered = due_in-IsOrdered expires n now L v.at_rest;
      }

  -- `tick` up to a time that is not past ends. It fires exactly the timers that expire before that time,
  -- each once and in the order of their expiry, scheduling their coroutines if the thread has a
  -- scheduler. It keeps the others, and the wheel is well formed at the new tick.
  pub tick_exact :
      (sched : Bool) (now target : ℕ) (w : TimeWheel) (L : Lists)
      → now ≤ target
      → target < 2 ^ 64
      → IsWheel fuel expires handles now w L
      → Ticked sched now target w L
  tick_exact sched now target w L le lt v =
      let (w', e, h) = tick_refines fuel pos expires handles sched target now w L le lt v.holds in
      rounds-Fires (tick fuel sched target w) sched now target w w' L le lt v e h

  -- `add_timer` of a node that is in no list and not overdue adds its timer, and keeps the others.
  pub add_timer-IsWheel :
      (now p : ℕ) (w : TimeWheel) (L : Lists)
      → IsWheel fuel expires handles now w L
      → p ≢ null
      → p < fuel
      → Absent p L
      → now ≤ expires p
      → expires p < 2 ^ 64
      → (L' : Lists) × IsWheel fuel expires handles now (add_timer p w) L'
        × ((a : Ptr) → In a L' ↔ ((a ≡ p) ⊎ In a L))
  unfolding put
  add_timer-IsWheel now p w L v ne low fresh le lt = (
    put expires now p L,
    record {
      holds = add_timer-Holds fuel expires handles now p w L v.holds ne low fresh;
      at_rest = put-AtRest expires now p L le lt v.at_rest;
    },
    λ a. (λ (c, h). split a c h, λ h. join a h),
  )
    where
      split : (a c : ℕ) → has a (put expires now p L c) ≡ true → (a ≡ p) ⊎ In a L
      split a c h = elim (Bool-cases (a == p)) [
        | inl e ↦ inl (eq_of_== a p e)
        | inr n ↦ inr (c, ground arith)
      ]

      join : (a : ℕ) → (a ≡ p) ⊎ In a L → In a (put expires now p L)
      join a (inl e) = (cell expires now p, ground (arith, ==_self (cell expires now p), ==_self p))
      join a (inr (c, h)) = (c, ground arith)

-- A new wheel holds no timer.
pub make-IsWheel :
    (fuel : ℕ) (node : Ptr → TimerNode)
    → IsWheel fuel (λ x. (node x).expires_at) (λ x. (node x).handle) 0 (make node) (λ c. [])
unfolding make
make-IsWheel fuel node = record {
  holds = record {
    rep = λ c. refl;
    tick_eq = refl;
    expires_eq = λ x. refl;
    handle_eq = λ x. refl;
    below = λ a le c. refl;
  };
  at_rest = λ c a h. cc;
}

module _ (fuel : ℕ) (expires : Ptr → ℕ) (handles : Ptr → Handle) (time ms : ℕ) (p : Ptr)
    (h : Handle) where
  abbrev pub expires_then : Ptr → ℕ
  expires_then q = if q == p then time + ms else expires q

  abbrev pub handles_then : Ptr → Handle
  handles_then q = if q == p then h else handles q

  prepared : TimeWheel → TimeWheel
  prepared w =
      let w = store p (record (w.node p) { expires_at = (time + ms) % 2 ^ 64 }) w in
      store p (record (w.node p) { handle = h }) w

  prepared-Holds :
      (now : ℕ) (w : TimeWheel) (L : Lists)
      → time + ms < 2 ^ 64
      → Absent p L
      → Holds fuel expires handles now w L
      → Holds fuel expires_then handles_then now (prepared w) L
  unfolding prepared
  prepared-Holds now w L lt fresh v = record {
    rep = λ c.
        Chain-frame w.node (prepared w).node c null (w.cells c) (L c)
          (λ a i. let ne : (a == p) ≡ false = ==_of_ne a p (λ e. ground (arith, fresh c)) in rw ne)
          (v.rep c);
    tick_eq = v.tick_eq;
    expires_eq = λ x. ground (arith, v.expires_eq x);
    handle_eq = λ x. ground (arith, v.handle_eq x);
    below = v.below;
  }

  -- The timers of the other nodes lie where they lay.
  others_rest :
      (now : ℕ) (L : Lists) → Absent p L → AtRest expires now L → AtRest expires_then now L
  others_rest now L fresh r c a i =
      let ne : (a == p) ≡ false = ==_of_ne a p (λ e. ground (arith, fresh c)) in rw ne (r c a i)

  -- A coroutine that goes to sleep for `ms` at a time that the wheel has not passed is on the wheel
  -- with the time at which it is to wake, and the others are as they were.
  pub sleep_suspend-IsWheel :
      (now : ℕ) (w : TimeWheel) (L : Lists)
      → IsWheel fuel expires handles now w L
      → p ≢ null
      → p < fuel
      → Absent p L
      → now ≤ time
      → time + ms < 2 ^ 64
      → (L' : Lists) × IsWheel fuel expires_then handles_then now (sleep_suspend time ms h p w) L'
        × ((a : Ptr) → In a L' ↔ ((a ≡ p) ⊎ In a L))
  unfolding sleep_suspend prepared
  sleep_suspend-IsWheel now w L v ne low fresh le lt =
      let at_p : expires_then p ≡ time + ms = ground (arith, ==_self p) in
      add_timer-IsWheel fuel (omega arith) expires_then handles_then now p (prepared w) L
        (record {
          holds = prepared-Holds now w L lt fresh v.holds;
          at_rest = others_rest now L fresh v.at_rest;
        })
        ne low fresh (omega (arith, at_p)) (omega (arith, at_p))
