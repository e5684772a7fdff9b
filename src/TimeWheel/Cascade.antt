-- ===== src/TimeWheel/Cascade.antt =====
-- src/time_wheel.cpp: `cascade` and the nest of cascades in `tick`, on a wheel that holds given lists.
use novaio.Prelude.{
  ℕ, zero, suc, ◌≤◌, ◌<◌, ◌≡◌, refl, sym, ◌∙◌, subst, fun_ext, ◌≢◌, inl, inr, Bool, true, false,
  Option, some, List, [], ◌∷◌, arith, ◌==◌, if◌then◌else◌, ◌>>=◌, ==_self, ==_of_ne, Bool-cases,
  length,
}
use native.Mathlib.Decide.{dec_lt}
use novaio.Handle.{Handle}
use novaio.TimeWheel.Cells.{Ptr, null}
use novaio.TimeWheel.{TimeWheel, add_timer, set_cell, cascade_loop, cascade}
use novaio.TimeWheel.Linked.{
  has, Memory, Line, Chain-Line, Line-frame, has-null, head_ptr-Chain, Line-Distinct, length-le,
}
use novaio.TimeWheel.Lists.{Lists, clear, put, put_all, spill}
use novaio.TimeWheel.Add.{expiry, Rep, next-add_timer_ne, add_timer-SameTimers, add_timer-Rep}

-- No list of `L` has the node `a`.
abbrev pub Absent : Ptr → Lists → Type 0
Absent a L = (c : ℕ) → has a (L c) ≡ false

module _ (expires : Ptr → ℕ) (now : ℕ) where
  put-Absent : (a x : Ptr) (L : Lists) → a ≢ x → Absent a L → Absent a (put expires now x L)
  unfolding put
  put-Absent a x L ne h c = ground (arith, h c)

  put_all-Absent :
      (a : Ptr) (xs : List Ptr) (L : Lists)
      → has a xs ≡ false
      → Absent a L
      → Absent a (put_all expires now xs L)
  unfolding put_all
  put_all-Absent a [] L out h = h
  put_all-Absent a (x ∷ xs) L out h =
      put_all-Absent a xs (put expires now x L) (ground arith) (put-Absent a x L (ground arith) h)

  spill-Absent : (a : Ptr) (c : ℕ) (L : Lists) → Absent a L → Absent a (spill expires now c L)
  unfolding spill
  spill-Absent a c L h = put_all-Absent a (L c) (clear c L) (h c) (λ d. ground (arith, h d))

-- The wheel `w` holds the lists `L`, at tick `now` and with the times `expires` and
-- coroutines `handles`; the addresses of
-- its nodes are below `fuel`, so that no list has as many as `fuel` nodes.
pub record Holds (fuel : ℕ) (expires : Ptr → ℕ) (handles : Ptr → Handle) (now : ℕ) (w : TimeWheel)
    (L : Lists) : Type 0 where
  pub rep : Rep w L
  pub tick_eq : w.current_tick ≡ now
  pub expires_eq : (x : Ptr) → (w.node x).expires_at ≡ expires x
  pub handle_eq : (x : Ptr) → (w.node x).handle ≡ handles x
  pub below : (a : Ptr) → fuel ≤ a → Absent a L

-- A node of one list is in no other.
pub Rep-apart :
    (w : TimeWheel) (L : Lists)
    → Rep w L
    → (a : Ptr) (c d : ℕ) → has a (L c) ≡ true
    → c ≢ d
    → has a (L d) ≡ false
Rep-apart w L r a c d i ne = elim (Bool-cases (has a (L d))) [
  | inl j ↦ absurd (
      ground (
        arith,
        head_ptr-Chain w.node c null (w.cells c) a (L c) (r c) i,
        head_ptr-Chain w.node d null (w.cells d) a (L d) (r d) j,
      ))
  | inr out ↦ out
]

pub length-lt :
    (fuel : ℕ) (node : Memory) (p : Ptr) (xs : List Ptr)
    → 0 < fuel
    → Line node p xs
    → ((a : Ptr) → fuel ≤ a → has a xs ≡ false)
    → length xs < fuel
length-lt fuel node p xs pos s below =
    length-le fuel (null ∷ xs) (has-null node p xs s, Line-Distinct node p xs s)
      λ a h. ground (arith, below a h)

module _ (fuel : ℕ) (expires : Ptr → ℕ) (handles : Ptr → Handle) (now : ℕ) where
  pub add_timer-Holds :
      (p : Ptr) (w : TimeWheel) (L : Lists)
      → Holds fuel expires handles now w L
      → p ≢ null
      → p < fuel
      → Absent p L
      → Holds fuel expires handles now (add_timer p w) (put expires now p L)
  add_timer-Holds p w L h ne lt fresh = record {
    rep =
        subst (λ e. Rep (add_timer p w) (put e now p L)) (fun_ext h.expires_eq)
          (subst (λ t. Rep (add_timer p w) (put (expiry w) t p L)) h.tick_eq
            (add_timer-Rep p w L h.rep ne fresh));
    tick_eq = (add_timer-SameTimers p w).tick_same ∙ h.tick_eq;
    expires_eq = λ x. (add_timer-SameTimers p w).expires_same x ∙ h.expires_eq x;
    handle_eq = λ x. (add_timer-SameTimers p w).handle_same x ∙ h.handle_eq x;
    below = λ a le. put-Absent expires now a p L (omega arith) (h.below a le);
  }

  cascade_loop-Holds :
      (f : ℕ) (xs : List Ptr) (p : Ptr) (w : TimeWheel) (L : Lists)
      → Holds fuel expires handles now w L
      → Line w.node p xs
      → ((a : Ptr) → has a xs ≡ true → Absent a L)
      → ((a : Ptr) → fuel ≤ a → has a xs ≡ false)
      → length xs < f
      → (w' : TimeWheel) × (cascade_loop f p w ≡ some w')
        × Holds fuel expires handles now w' (put_all expires now xs L)
  unfolding cascade_loop put_all
  cascade_loop-Holds zero xs p w L h s apart low lt = absurd (omega arith)
  cascade_loop-Holds (suc f) [] p w L h s apart low lt = (w, rw s, h)
  cascade_loop-Holds (suc f) (x ∷ xs) p w L h (e, ne, new, s) apart low lt =
      rw (==_of_ne p null (λ z. ne (sym e ∙ z)), e)
        (cascade_loop-Holds f xs (w.node x).next (add_timer x w) (put expires now x L)
          (add_timer-Holds x w L h ne (small x low) (apart x (ground (arith, ==_self x))))
          (Line-frame w.node (add_timer x w).node (w.node x).next xs
            (λ a i. next-add_timer_ne x w a (ground arith)) s)
          (λ a i. put-Absent expires now a x L (ground arith) (apart a (ground arith)))
          (λ a le. ground (arith, low a le)) (omega arith))
    where
      small : (x : Ptr) → ((a : Ptr) → fuel ≤ a → has a (x ∷ xs) ≡ false) → x < fuel
      small x low = elim (dec_lt x fuel) [
        | yes lt ↦ lt
        | no ge ↦ absurd (ground (arith, low x (omega arith), ==_self x))
      ]

  -- A run that succeeds, on a wheel that then holds `L`.
  abbrev pub Yields : Option TimeWheel → Lists → Type 0
  Yields m L = (w : TimeWheel) × (m ≡ some w) × Holds fuel expires handles now w L

  pub Yields->>= :
      (m : Option TimeWheel) (f : TimeWheel → Option TimeWheel) (L L' : Lists)
      → Yields m L
      → ((w : TimeWheel) → Holds fuel expires handles now w L → Yields (f w) L')
      → Yields (m >>= f) L'
  Yields->>= m f L L' (w, e, h) next = rw e (next w h)

  pub Yields-if :
      (b : Bool) (m m' : Option TimeWheel) (L L' : Lists)
      → Yields m L
      → Yields m' L'
      → Yields (if b then m else m') (if b then L else L')
  Yields-if true m m' L L' y y' = y
  Yields-if false m m' L L' y y' = y'

  clear-Absent : (a c : ℕ) (L : Lists) → Absent a L → Absent a (clear c L)
  clear-Absent a c L h d = ground (arith, h d)

  -- Emptying a cell detaches its chain.
  pub set_cell-Holds :
      (c : ℕ) (w : TimeWheel) (L : Lists)
      → Holds fuel expires handles now w L
      → Holds fuel expires handles now (set_cell c null w) (clear c L)
  set_cell-Holds c w L h = record {
    rep = λ d. elim (Bool-cases (d == c)) [ inl e ↦ rw e refl | inr n ↦ rw n (h.rep d) ];
    tick_eq = h.tick_eq;
    expires_eq = h.expires_eq;
    handle_eq = h.handle_eq;
    below = λ a le. clear-Absent a c L (h.below a le);
  }

  -- The nodes of an emptied cell are in no list.
  pub detached :
      (c : ℕ) (w : TimeWheel) (L : Lists)
      → Holds fuel expires handles now w L
      → (a : Ptr) → has a (L c) ≡ true
      → Absent a (clear c L)
  detached c w L h a i d = elim (Bool-cases (d == c)) [
    | inl e ↦ rw e refl
    | inr n ↦ rw n (Rep-apart w L h.rep a c d i (λ e. ground arith))
  ]

  pub chain_length :
      (c : ℕ) (w : TimeWheel) (L : Lists)
      → 0 < fuel
      → Holds fuel expires handles now w L
      → length (L c) < fuel
  chain_length c w L pos h =
      length-lt fuel w.node (w.cells c) (L c) pos
        (Chain-Line w.node c null (w.cells c) (L c) (h.rep c)) (λ a le. h.below a le c)

  -- `cascade` moves the nodes of one cell to the cells where they now belong.
  pub cascade-Holds :
      (c : ℕ) (w : TimeWheel) (L : Lists)
      → 0 < fuel
      → Holds fuel expires handles now w L
      → Yields (cascade fuel c w) (spill expires now c L)
  unfolding cascade spill
  cascade-Holds c w L pos h =
      cascade_loop-Holds fuel (L c) (w.cells c) (set_cell c null w) (clear c L)
        (set_cell-Holds c w L h) (Chain-Line w.node c null (w.cells c) (L c) (h.rep c))
        (detached c w L h) (λ a le. h.below a le c) (chain_length c w L pos h)
