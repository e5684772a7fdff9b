-- ===== src/TimeWheel/Due.antt =====
-- src/time_wheel.cpp: the round in which a timer is due, and the order of those that are.
use native.Mathlib.Decide.{ℕ_discrete}
use novaio.Prelude.{
  ℕ, zero, suc, ◌+◌, ◌^◌, bit_and, ◌≤◌, ◌<◌, ◌≡◌, refl, subst, ◌≢◌, ◌↔◌, inl, inr, true, false,
  ◌||◌, List, [], ◌∷◌, ◌++◌, arith, Bool-cases, ==_self,
}
use novaio.TimeWheel.Cells.{Ptr, tv1, tvr_mask}
use novaio.TimeWheel.Linked.{has}
use novaio.TimeWheel.Lists.{Lists, cell, clear, put, settled, due, left, due_in, left_after}
use novaio.TimeWheel.Places.{cell_of-Placed, Placed-weaken, Placed-now, Placed-next}
use novaio.TimeWheel.Timing.{In, AllPlaced, settled-In, settled-AllPlaced, index_mod, put-inv}

has-clear :
    (a c d : ℕ) (L : Lists) → (has a (clear d L c) ≡ true) ↔ ((c ≢ d) × (has a (L c) ≡ true))
has-clear a c d L = (λ h. (λ e. ground arith, ground arith), λ h. ground arith)

module _ (expires : Ptr → ℕ) where
  -- What holds of the lists between two ticks.
  abbrev pub AtRest : ℕ → Lists → Type 0
  AtRest = AllPlaced expires true true true true

  module _ (now : ℕ) (L : Lists) (p : AtRest now L) where
    right : AllPlaced expires false false false false now (settled expires now L)
    right = settled-AllPlaced expires now L p

    idx :
        {a : Ptr} (c : ℕ)
        → has a (settled expires now L c) ≡ true
        → expires a ≡ now
        → c ≡ tv1 + bit_and now tvr_mask
    idx {a} c h e =
        omega (arith, index_mod expires now, (Placed-now now (expires a) c (right c a h)).1 e)

    -- A round fires the timers that expire at its tick, and those only.
    pub has-due : (a : Ptr) → (has a (due expires now L) ≡ true) ↔ (In a L × (expires a ≡ now))
    unfolding due
    has-due a = (sound, complete)
      where
        sound :
            has a (settled expires now L (tv1 + bit_and now tvr_mask)) ≡ true
            → In a L × (expires a ≡ now)
        sound h = (
          (settled-In expires now a L).0 (_, h),
          (Placed-now now (expires a) _ (right _ a h)).0 (omega (arith, index_mod expires now)),
        )

        complete :
            In a L × (expires a ≡ now)
            → has a (settled expires now L (tv1 + bit_and now tvr_mask)) ≡ true
        complete (i, e) =
            let (c, h) = (settled-In expires now a L).1 i in
            subst (λ d. has a (settled expires now L d) ≡ true) (idx c h e) h

    -- It keeps the others, and leaves the wheel at rest at the next tick.
    pub left-In : (a : Ptr) → In a (left expires now L) ↔ (In a L × (expires a ≢ now))
    unfolding left
    left-In a = (sound, complete)
      where
        sound :
            In a (clear (tv1 + bit_and now tvr_mask) (settled expires now L))
            → In a L × (expires a ≢ now)
        sound (c, h) =
            let (ne, i) = (has-clear a c _ (settled expires now L)).0 h in
            ((settled-In expires now a L).0 (c, i), λ e. ne (idx c i e))

        apart :
            (c : ℕ)
            → has a (settled expires now L c) ≡ true
            → expires a ≢ now
            → c ≢ tv1 + bit_and now tvr_mask
        apart c h ne e =
            ne (
              (Placed-now now (expires a) c (right c a h)).0 (omega (arith, index_mod expires now)))

        complete :
            In a L × (expires a ≢ now)
            → In a (clear (tv1 + bit_and now tvr_mask) (settled expires now L))
        complete (i, ne) =
            let (c, h) = (settled-In expires now a L).1 i in
            (c, (has-clear a c _ (settled expires now L)).1 (apart c h ne, h))

    pub left-AtRest : AtRest (now + 1) (left expires now L)
    unfolding left
    left-AtRest c a h =
        let (ne, i) = (has-clear a c _ (settled expires now L)).0 h in
        Placed-next now (expires a) c (λ e. ne (omega (arith, index_mod expires now))) (right c a i)

  -- A timer that is not overdue may be added at rest.
  pub put-AtRest :
      (now a : ℕ) (L : Lists)
      → now ≤ expires a
      → expires a < 2 ^ 64
      → AtRest now L
      → AtRest now (put expires now a L)
  put-AtRest now a L le lt p c b h = elim (put-inv expires now b a L c h) [
    | inl (e, e') ↦
        rw (e, e')
          (Placed-weaken now (expires a) (cell expires now a)
            (cell_of-Placed now (expires a) le lt))
    | inr i ↦ p c b i
  ]

  pub has-append :
      (p : Ptr) (front back : List Ptr) → (has p front || has p back) ≡ has p (front ++ back)
  has-append p [] back = refl
  has-append p (q ∷ front) back = ground (arith, has-append p front back)

  first_or_later :
      (rounds now : ℕ) (L : Lists) (p : AtRest now L) (a : Ptr) (rest : List Ptr)
      → (has a rest ≡ true) ↔ (In a (left expires now L) × (expires a < now + 1 + rounds))
      → (has a (due expires now L ++ rest) ≡ true) ↔ (In a L × (expires a < now + suc rounds))
  first_or_later rounds now L p a rest ih = (sound, complete)
    where
      sound : has a (due expires now L ++ rest) ≡ true → In a L × (expires a < now + suc rounds)
      sound h = elim (Bool-cases (has a (due expires now L))) [
        | inl first ↦ let (i, e) = (has-due now L p a).0 first in (i, omega arith)
        | inr n ↦
            let (i, lt) = ih.0 (ground (arith, has-append a (due expires now L) rest)) in
            (((left-In now L p a).0 i).0, omega arith)
      ]

      complete : In a L × (expires a < now + suc rounds) → has a (due expires now L ++ rest) ≡ true
      complete (i, lt) = elim (ℕ_discrete (expires a) now) [
        | yes e ↦
            ground (arith, (has-due now L p a).1 (i, e), has-append a (due expires now L) rest)
        | no ne ↦
            let later = ih.1 ((left-In now L p a).1 (i, ne), omega arith) in
            ground (arith, later, has-append a (due expires now L) rest)
      ]

  -- What several rounds fire and keep: a timer fires in them exactly when it expires before their
  -- end.
  pub has-due_in :
      (rounds now : ℕ) (L : Lists)
      → AtRest now L
      → (a : Ptr)
      → (has a (due_in expires rounds now L) ≡ true) ↔ (In a L × (expires a < now + rounds))
  unfolding due_in
  has-due_in zero now L p a = (λ h. cc, λ h. absurd (omega (arith, (p h.0.0 a h.0.1).0)))
  has-due_in (suc rounds) now L p a =
      first_or_later rounds now L p a (due_in expires rounds (now + 1) (left expires now L))
        (has-due_in rounds (now + 1) (left expires now L) (left-AtRest now L p) a)

  pub left_after-In :
      (rounds now : ℕ) (L : Lists)
      → AtRest now L
      → (a : Ptr) → In a (left_after expires rounds now L) ↔ (In a L × (now + rounds ≤ expires a))
  unfolding left_after
  left_after-In zero now L p a = (λ h. (h, omega (arith, (p h.0 a h.1).0)), λ h. h.0)
  left_after-In (suc rounds) now L p a =
      let ih = left_after-In rounds (now + 1) (left expires now L) (left-AtRest now L p) a in
      (
        λ h. let (i, le) = ih.0 h in (((left-In now L p a).0 i).0, omega arith),
        λ (i, le). ih.1 ((left-In now L p a).1 (i, (λ e. omega arith)), omega arith),
      )

  pub left_after-AtRest :
      (rounds now : ℕ) (L : Lists)
      → AtRest now L
      → AtRest (now + rounds) (left_after expires rounds now L)
  unfolding left_after
  left_after-AtRest zero now L p = subst (λ t. AtRest t L) (omega arith) p
  left_after-AtRest (suc rounds) now L p =
      subst (λ t. AtRest t (left_after expires rounds (now + 1) (left expires now L))) (omega arith)
        (left_after-AtRest rounds (now + 1) (left expires now L) (left-AtRest now L p))

  -- Expiry times do not fall along the list; all are at least `low`.
  abbrev pub IsOrdered : ℕ → List Ptr → Type 0
  IsOrdered low [] = Unit {0}
  IsOrdered low (x ∷ xs) = (low ≤ expires x) × IsOrdered (expires x) xs

  IsOrdered-mono : (m n : ℕ) (xs : List Ptr) → m ≤ n → IsOrdered n xs → IsOrdered m xs
  IsOrdered-mono m n [] le o = tt
  IsOrdered-mono m n (x ∷ xs) le o = (omega arith, o.1)

  IsOrdered-append :
      (now low : ℕ) (xs ys : List Ptr)
      → low ≤ now
      → ((a : Ptr) → has a xs ≡ true → expires a ≡ now)
      → IsOrdered now ys
      → IsOrdered low (xs ++ ys)
  IsOrdered-append now low [] ys le h o = IsOrdered-mono low now ys le o
  IsOrdered-append now low (x ∷ xs) ys le h o =
      let e : expires x ≡ now = h x (ground (arith, ==_self x)) in
      (
        omega arith,
        IsOrdered-append now (expires x) xs ys (omega arith) (λ a i. h a (ground arith)) o,
      )

  -- Timers fire in the order of their expiry times.
  pub due_in-IsOrdered :
      (rounds now : ℕ) (L : Lists) → AtRest now L → IsOrdered now (due_in expires rounds now L)
  unfolding due_in
  due_in-IsOrdered zero now L p = tt
  due_in-IsOrdered (suc rounds) now L p =
      IsOrdered-append now now (due expires now L) _ (omega arith)
        (λ a h. ((has-due now L p a).0 h).1)
        (IsOrdered-mono now (now + 1) _ (omega arith)
          (due_in-IsOrdered rounds (now + 1) (left expires now L) (left-AtRest now L p)))
