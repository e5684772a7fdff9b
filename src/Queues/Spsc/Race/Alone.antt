-- ===== src/Queues/Spsc/Race/Alone.antt =====
-- include/novaio/concurrent_queues.hpp: the steps of a call that no step of the other thread
-- interrupts, and `push` and `pop` as functions.
use novaio.Prelude.{
  ℕ, ◌+◌, ◌%◌, ◌^◌, bit_and, ◌≡◌, refl, sym, subst, inl, inr, Bool, true, false, Option, none, some,
  [], ◌∷◌, ◌++◌, ◌==◌, if◌then◌else◌, eq_of_==, ne_of_==, Bool-cases,
}
use novaio.Queues.Spsc.{SpscQueue, push, pop}
use novaio.Queues.Spsc.Race.{
  idle, resting, Race, is_full, push_begins, push_fails, push_passes, push_constructs, push_stores,
  pop_begins, pop_fails, pop_passes, pop_moves, pop_destroys, pop_stores, Reach, moves, set_slot,
}

module _ {ℓ} where
  pub data Call (A : Type ℓ) : Type ℓ where
    push_of : A → Call A
    pop_of : Call A

module _ {ℓ} {A : Type ℓ} where
  -- what a call of `push` that runs whole makes of a state
  abbrev pub pushed_whole : A → Race A → Race A
  pushed_whole item s = record s {
    producer = idle;
    queue = (push s.queue item).1;
    pushed = if (push s.queue item).0 then s.pushed ++ item ∷ [] else s.pushed;
  }

  push_full : (q : SpscQueue A) (item : A) → is_full q q.tail ≡ true → push q item ≡ (false, q)
  unfolding push
  push_full q item full = cc

  push_fits :
      (q : SpscQueue A) (item : A)
      → is_full q q.tail ≡ false
      → push q item
        ≡ (true, record (set_slot q q.tail (some item)) { tail = (q.tail + 1) % 2 ^ 64 })
  unfolding push
  push_fits q item fits = cc

  after_push : A → Race A → Bool × SpscQueue A → Race A
  after_push item s p = record s {
    producer = idle;
    queue = p.1;
    pushed = if p.0 then s.pushed ++ item ∷ [] else s.pushed;
  }

  Reach-pushed_whole :
      {q : SpscQueue A} {s : Race A} (item : A)
      → Reach q s
      → s.producer ≡ idle
      → Reach q (pushed_whole item s)
  unfolding after_push
  Reach-pushed_whole {q} {s} item r quiet =
      let tail : ℕ = s.queue.tail in
      let r0 = moves r (push_begins item quiet) in
      elim (Bool-cases (is_full s.queue tail)) [
        | inl full ↦
            subst (λ p. Reach q (after_push item s p)) (sym (push_full s.queue item full))
              (moves r0 (push_fails item tail refl full))
        | inr fits ↦
            subst (λ p. Reach q (after_push item s p)) (sym (push_fits s.queue item fits))
              (moves
                (moves (moves r0 (push_passes item tail refl fits))
                  (push_constructs item tail refl))
                (push_stores item tail refl))
      ]

  -- what a call of `pop` that runs whole makes of a state
  abbrev pub popped_whole : Race A → Race A
  popped_whole s = record s {
    consumer = resting;
    queue = (pop s.queue).1;
    popped = if s.queue.head == s.queue.tail then s.popped else s.popped ++ (pop s.queue).0 ∷ [];
  }

  pop_empty : (q : SpscQueue A) → (q.head == q.tail) ≡ true → pop q ≡ (none, q)
  unfolding pop
  pop_empty q e = cc

  abbrev taken : SpscQueue A → Option A × SpscQueue A
  taken q = (
    q.buffer (bit_and q.head q.mask),
    record (set_slot q q.head none) { head = (q.head + 1) % 2 ^ 64 },
  )

  pop_some : (q : SpscQueue A) → (q.head == q.tail) ≡ false → pop q ≡ taken q
  unfolding pop
  pop_some q e = cc

  after_pop : Race A → Bool → Option A × SpscQueue A → Race A
  after_pop s empty p = record s {
    consumer = resting;
    queue = p.1;
    popped = if empty then s.popped else s.popped ++ p.0 ∷ [];
  }

  Reach-popped_whole :
      {q : SpscQueue A} {s : Race A} → Reach q s → s.consumer ≡ resting → Reach q (popped_whole s)
  unfolding after_pop
  Reach-popped_whole {q} {s} r quiet =
      let head : ℕ = s.queue.head in
      let r0 = moves r (pop_begins quiet) in
      elim (Bool-cases (head == s.queue.tail)) [
        | inl e ↦
            subst (λ p. Reach q (after_pop s (head == s.queue.tail) p)) (sym (pop_empty s.queue e))
              (subst (λ b. Reach q (after_pop s b (none, s.queue))) (sym e)
                (moves r0 (pop_fails head refl (eq_of_== head s.queue.tail e))))
        | inr e ↦
            subst (λ p. Reach q (after_pop s (head == s.queue.tail) p)) (sym (pop_some s.queue e))
              (subst (λ b. Reach q (after_pop s b (taken s.queue))) (sym e)
                (moves
                  (moves
                    (moves (moves r0 (pop_passes head refl (ne_of_== head s.queue.tail e)))
                      (pop_moves head refl))
                    (pop_destroys head _ refl))
                  (pop_stores head _ refl)))
      ]

  -- The thread that makes a call stands outside its function.
  unfoldable pub IsOutside : Call A → Race A → Type ℓ
  IsOutside (push_of item) s = s.producer ≡ idle
  IsOutside pop_of s = s.consumer ≡ resting

  abbrev pub run_whole : Call A → Race A → Race A
  run_whole (push_of item) s = pushed_whole item s
  run_whole pop_of s = popped_whole s

  -- From every state that the steps reach, the steps of a call that the other thread does not
  -- interrupt lead to the state that the function `push`, or `pop`, says, wherever the other thread
  -- stands: the step relation and the functions describe one program.
  pub run_whole-Reach :
      {q : SpscQueue A} {s : Race A} (c : Call A)
      → Reach q s
      → IsOutside c s
      → Reach q (run_whole c s)
  unfolding IsOutside
  run_whole-Reach (push_of item) r quiet = Reach-pushed_whole item r quiet
  run_whole-Reach pop_of r quiet = Reach-popped_whole r quiet
