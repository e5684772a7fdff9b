-- ===== src/TimeWheel/Remove.antt =====
-- src/time_wheel.cpp: `remove_timer` on a wheel, and on the set of its timers.
pub mod Exact
use novaio.Prelude.{
  ℕ, ◌+◌, ◌-◌, ◌%◌, ◌^◌, ◌≡◌, refl, sym, ap, ◌∙◌, ◌≢◌, inl, inr, Bool, true, false, not, ◌&&◌,
  Option, none, some, arith, ◌==◌, if◌then◌else◌, ==_of_ne, Bool-cases,
}
use novaio.Handle.{Handle}
use novaio.TimeWheel.Cells.{Ptr, null}
use novaio.TimeWheel.{
  TimerNode, TimeWheel, uncount, link_past, link_back, clear_links, remove_timer, store, set_cell,
  set_head, heads,
}
use novaio.TimeWheel.Linked.{
  has, Memory, Chain, Chain-Line, Chain-frame, has-null, head_ptr-Chain, Line-Distinct, remove,
  has-remove, has-remove_self, Distinct,
}
use novaio.TimeWheel.Lists.{Lists}
use novaio.TimeWheel.Add.{Rep}
use novaio.TimeWheel.Cascade.{Absent, Holds, Rep-apart}
use novaio.TimeWheel.Timing.{In}
use novaio.TimeWheel.Due.{AtRest}
use novaio.TimeWheel.Exact.{IsWheel}
use novaio.TimeWheel.Unlink.{unlinked, unlinked_ne, and_false, prev-Chain, next-Chain, remove-Chain}

module _ (p : Ptr) (w : TimeWheel) (c : ℕ) where
  -- what a node of the list of cell `c` is like
  pub record IsListed : Type 0 where
    pub head_ptr_eq : (w.node p).head_ptr ≡ some c
    pub prev_ne : (w.node p).prev ≢ p
    pub next_ne : (w.node p).next ≢ p

  uncount-wheel :
      IsListed → uncount p w ≡ record w { active_timers = (w.active_timers + 2 ^ 64 - 1) % 2 ^ 64 }
  unfolding uncount
  uncount-wheel l = rw (l.head_ptr_eq) refl

-- two writes to different fields
merge :
    (a b : Bool) (n : TimerNode) (x y : Ptr)
    → (if b
        then record (if a then record n { next = x } else n) { prev = y }
        else (if a then record n { next = x } else n))
      ≡ record n { next = if a then x else n.next; prev = if b then y else n.prev }
merge true true n x y = refl
merge true false n x y = refl
merge false true n x y = refl
merge false false n x y = refl

node-set_head :
    (o : Option ℕ) (n : Ptr) (w : TimeWheel) (q : Ptr) → (set_head o n w).node q ≡ w.node q
node-set_head none n w q = refl
node-set_head (some c) n w q = refl

module _ (p : Ptr) (w : TimeWheel) where
  node-uncount : (q : Ptr) → (uncount p w).node q ≡ w.node q
  unfolding uncount
  node-uncount q = ground arith

  node-link_past :
      (q : Ptr)
      → (link_past p w).node q ≡ (
          if not ((w.node p).prev == null) && (q == (w.node p).prev)
          then record (w.node q) { next = (w.node p).next }
          else w.node q)
  unfolding link_past
  node-link_past q = elim (Bool-cases ((w.node p).prev == null)) [
    | inl first ↦ rw first (elim (Bool-cases (heads w p (w.node p).head_ptr)) [
      | inl e ↦ rw e (node-set_head (w.node p).head_ptr (w.node p).next w q)
      | inr e ↦ rw e refl
    ])
    | inr later ↦ rw later (ground arith)
  ]

  node-link_back :
      (q : Ptr)
      → (link_back p w).node q ≡ (
          if not ((w.node p).next == null) && (q == (w.node p).next)
          then record (w.node q) { prev = (w.node p).prev }
          else w.node q)
  unfolding link_back
  node-link_back q = ground arith

  node-clear_links :
      (q : Ptr)
      → (clear_links p w).node q ≡ (
          if q == p
          then record (w.node p) { next = null; prev = null; head_ptr = none }
          else w.node q)
  unfolding clear_links
  node-clear_links q = ground arith

  -- the tick and the count, which the links do not touch
  numbers : TimeWheel → ℕ × ℕ
  numbers w = (w.current_tick, w.active_timers)

  numbers-link_past : numbers (link_past p w) ≡ numbers w
  unfolding numbers link_past
  numbers-link_past = elim (Bool-cases ((w.node p).prev == null)) [
    | inl first ↦ rw first (elim (Bool-cases (heads w p (w.node p).head_ptr)) [
      | inl e ↦ rw e (same (w.node p).head_ptr)
      | inr e ↦ rw e refl
    ])
    | inr later ↦ rw later refl
  ]
    where
      same : (o : Option ℕ) → numbers (set_head o (w.node p).next w) ≡ numbers w
      same none = refl
      same (some c) = refl

  numbers-link_back : numbers (link_back p w) ≡ numbers w
  unfolding numbers link_back
  numbers-link_back = elim (Bool-cases ((w.node p).next == null)) [
    | inl e ↦ rw e refl
    | inr e ↦ rw e refl
  ]

  cells-link_back : (d : ℕ) → (link_back p w).cells d ≡ w.cells d
  unfolding link_back
  cells-link_back d = ground arith

  cells-link_past :
      (c d : ℕ)
      → (w.node p).head_ptr ≡ some c
      → (link_past p w).cells d ≡ (
          if ((w.node p).prev == null) && (w.cells c == p) && (d == c)
          then (w.node p).next
          else w.cells d)
  unfolding link_past
  cells-link_past c d hd = rw hd (ground arith)

module _ (p : Ptr) (w : TimeWheel) (c : ℕ) (l : IsListed p w c) where
  after_past : TimeWheel
  after_past = link_past p (uncount p w)

  after_back : TimeWheel
  after_back = link_back p after_past

  past_node :
      (q : Ptr)
      → after_past.node q ≡ (
          if not ((w.node p).prev == null) && (q == (w.node p).prev)
          then record (w.node q) { next = (w.node p).next }
          else w.node q)
  unfolding after_past
  past_node q = node-link_past p (uncount p w) q ∙ rw (node-uncount p w q, node-uncount p w p) refl

  past_p : after_past.node p ≡ w.node p
  past_p =
      let ne : (p == (w.node p).prev) ≡ false = ==_of_ne p _ (λ e. l.prev_ne (sym e)) in
      past_node p ∙ rw (ne, and_false (not ((w.node p).prev == null))) refl

  back_node :
      (q : Ptr)
      → after_back.node q ≡ (
          if not ((w.node p).next == null) && (q == (w.node p).next)
          then record (after_past.node q) { prev = (w.node p).prev }
          else after_past.node q)
  unfolding after_back
  back_node q = node-link_back p after_past q ∙ rw past_p refl

  back_p : after_back.node p ≡ w.node p
  back_p =
      let ne : (p == (w.node p).next) ≡ false = ==_of_ne p _ (λ e. l.next_ne (sym e)) in
      back_node p ∙ rw (ne, and_false (not ((w.node p).next == null))) past_p

  pub node-remove_timer : (q : Ptr) → (remove_timer p w).node q ≡ unlinked w.node p q
  unfolding remove_timer after_back after_past
  node-remove_timer q =
      node-clear_links p after_back q
      ∙ rw back_p (elim (Bool-cases (q == p)) [
        | inl e ↦ rw e refl
        | inr e ↦ rw e (
            back_node q
            ∙ rw (past_node q) (
                merge (not ((w.node p).prev == null) && (q == (w.node p).prev))
                  (not ((w.node p).next == null) && (q == (w.node p).next)) (w.node q)
                  (w.node p).next (w.node p).prev))
      ])

  pub cells-remove_timer :
      (d : ℕ)
      → (remove_timer p w).cells d ≡ (
          if ((w.node p).prev == null) && (w.cells c == p) && (d == c)
          then (w.node p).next
          else w.cells d)
  unfolding remove_timer clear_links
  cells-remove_timer d =
      cells-link_back p (link_past p (uncount p w)) d
      ∙ cells-link_past p (uncount p w) c d (rw (node-uncount p w p) l.head_ptr_eq)
      ∙ rw (uncount-wheel p w c l) refl

  pub numbers-remove_timer :
      ((remove_timer p w).current_tick ≡ w.current_tick)
      × ((remove_timer p w).active_timers ≡ (w.active_timers + 2 ^ 64 - 1) % 2 ^ 64)
  unfolding remove_timer clear_links numbers
  numbers-remove_timer =
      let same : numbers p w (remove_timer p w)
          ≡ (w.current_tick, (w.active_timers + 2 ^ 64 - 1) % 2 ^ 64) =
        numbers-link_back p (link_past p (uncount p w))
        ∙ numbers-link_past p (uncount p w)
        ∙ rw (uncount-wheel p w c l) refl in
      (ap (λ r. r.0) same, ap (λ r. r.1) same)
