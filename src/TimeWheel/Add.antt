-- ===== src/TimeWheel/Add.antt =====
-- src/time_wheel.cpp: `add_timer` on the lists of a wheel.
use novaio.Prelude.{
  ℕ, ◌≡◌, refl, sym, ◌≢◌, true, false, ◌⊎◌, subst, not, ◌&&◌, some, List, [], ◌∷◌, arith, ◌==◌,
  if◌then◌else◌, eq_of_==, ne_of_==, Bool-cases, inl, inr,
}
use novaio.TimeWheel.Cells.{Ptr, null}
use novaio.TimeWheel.{TimeWheel, add_timer}
use novaio.TimeWheel.Linked.{has, Chain, Chain-Line, Chain-frame, has-first, head_ptr-Chain}
use novaio.TimeWheel.Lists.{Lists, cell, put}

abbrev pub expiry : TimeWheel → Ptr → ℕ
expiry w x = (w.node x).expires_at

-- `L` is what the wheel holds: each cell heads a chain of the nodes that `L` has there.
abbrev pub Rep : TimeWheel → Lists → Type 0
Rep w L = (c : ℕ) → Chain w.node c null (w.cells c) (L c)

-- What no operation but `sleep_suspend` writes.
pub record SameTimers (w w' : TimeWheel) : Type 0 where
  pub tick_same : w'.current_tick ≡ w.current_tick
  pub expires_same : (x : Ptr) → (w'.node x).expires_at ≡ (w.node x).expires_at
  pub handle_same : (x : Ptr) → (w'.node x).handle ≡ (w.node x).handle

module _ (p : Ptr) (w : TimeWheel) where
  abbrev target : ℕ
  target = cell (expiry w) w.current_tick p

  -- the memory after `add_timer`, node by node
  node-add_timer :
      (q : Ptr)
      → (add_timer p w).node q ≡ (
          if q == p
          then record (w.node p) { next = w.cells target; prev = null; head_ptr = some target }
          else if not (w.cells target == null) && (q == w.cells target)
          then record (w.node q) { prev = p }
          else w.node q)
  unfolding add_timer
  node-add_timer q = ground arith

  cells-add_timer : (c : ℕ) → (add_timer p w).cells c ≡ (if c == target then p else w.cells c)
  unfolding add_timer
  cells-add_timer c = ground arith

  same_tick : (add_timer p w).current_tick ≡ w.current_tick
  unfolding add_timer
  same_tick = ground arith

  pub add_timer-SameTimers : SameTimers w (add_timer p w)
  add_timer-SameTimers = record {
    tick_same = same_tick;
    expires_same = λ x. ground (arith, node-add_timer x);
    handle_same = λ x. ground (arith, node-add_timer x);
  }

  -- a node that `add_timer` does not touch
  node-add_timer_ne :
      (q : Ptr)
      → q ≢ p
      → ((w.cells target ≡ null) ⊎ (q ≢ w.cells target))
      → (add_timer p w).node q ≡ w.node q
  node-add_timer_ne q np nh = ground (arith, node-add_timer q)

  pub next-add_timer_ne : (q : Ptr) → q ≢ p → ((add_timer p w).node q).next ≡ (w.node q).next
  next-add_timer_ne q np = ground (arith, node-add_timer q)

  -- the old list, now behind `p`
  behind :
      (c : ℕ) (ys : List Ptr)
      → Chain w.node c null (w.cells target) ys
      → has p ys ≡ false
      → Chain (add_timer p w).node c p (w.cells target) ys
  behind c [] s out = s
  behind c (y ∷ ys) (e, ne, new, hd, pv, s) out =
      let now : (add_timer p w).node y ≡ record (w.node y) { prev = p } =
        ground (arith, node-add_timer y) in
      (
        e,
        ne,
        new,
        rw now hd,
        rw now refl,
        rw now (
            Chain-frame w.node (add_timer p w).node c y (w.node y).next ys
              (λ a i. node-add_timer_ne a (ground arith) (inr (ground arith))) s),
      )

  -- `add_timer` of a node that is in no list puts it in front of the list of its cell.
  pub add_timer-Rep :
      (L : Lists)
      → Rep w L
      → p ≢ null
      → ((c : ℕ) → has p (L c) ≡ false)
      → Rep (add_timer p w) (put (expiry w) w.current_tick p L)
  unfolding put
  add_timer-Rep L r ne fresh c = elim (Bool-cases (c == target)) [
    | inl e ↦
        rw (cells-add_timer c, e)
          (subst (λ d. Chain (add_timer p w).node d null p (p ∷ L d)) (sym (eq_of_== c target e))
            front)
    | inr n ↦
        rw (cells-add_timer c, n)
          (Chain-frame w.node (add_timer p w).node c null (w.cells c) (L c)
            (λ a i. node-add_timer_ne a (ground (arith, fresh c)) (other a c n i)) (r c))
  ]
    where
      at_p :
          (add_timer p w).node p
          ≡ record (w.node p) { next = w.cells target; prev = null; head_ptr = some target }
      at_p = ground (arith, node-add_timer p)

      front : Chain (add_timer p w).node target null p (p ∷ L target)
      front = (
        refl,
        ne,
        fresh target,
        rw at_p refl,
        rw at_p refl,
        rw at_p (behind target (L target) (r target) (fresh target)),
      )

      -- the first node of the target's list is in no other list
      other :
          (a d : ℕ)
          → (d == target) ≡ false
          → has a (L d) ≡ true
          → (w.cells target ≡ null) ⊎ (a ≢ w.cells target)
      other a d n i = elim (Bool-cases (w.cells target == null)) [
        | inl z ↦ inl (eq_of_== _ _ z)
        | inr nz ↦ inr λ e. ground (
          arith,
          head_ptr-Chain w.node d null (w.cells d) a (L d) (r d) i,
          head_ptr-Chain w.node target null (w.cells target) (w.cells target) (L target) (r target)
              (has-first w.node (w.cells target) (L target)
                (Chain-Line w.node target null (w.cells target) (L target) (r target))
                (ne_of_== _ _ nz)),
        )
      ]
