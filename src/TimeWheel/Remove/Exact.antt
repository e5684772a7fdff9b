-- ===== src/TimeWheel/Remove/Exact.antt =====
-- src/time_wheel.cpp: `remove_timer` on the lists of a wheel, and on the set of its timers.
use novaio.Prelude.{
  ℕ, ◌+◌, ◌-◌, ◌%◌, ◌^◌, ◌≡◌, refl, sym, ap, ◌∙◌, subst, ◌≢◌, ◌↔◌, inl, inr, true, false, ◌&&◌,
  List, [], ◌∷◌, arith, ◌==◌, if◌then◌else◌, eq_of_==, ne_of_==, ==_self, ==_of_ne, Bool-cases,
}
use novaio.Handle.{Handle}
use novaio.TimeWheel.Cells.{Ptr, null}
use novaio.TimeWheel.{TimeWheel, remove_timer}
use novaio.TimeWheel.Linked.{
  has, Memory, Chain, Chain-Line, Chain-frame, has-null, head_ptr-Chain, Line-Distinct, remove,
  has-remove, has-remove_self,
}
use novaio.TimeWheel.Lists.{Lists}
use novaio.TimeWheel.Add.{Rep}
use novaio.TimeWheel.Cascade.{Rep-apart}
use novaio.TimeWheel.Timing.{In}
use novaio.TimeWheel.Exact.{IsWheel}
use novaio.TimeWheel.Unlink.{
  unlinked, unlinked_ne, prev-Chain, next-Chain, prev-Chain_ne, next-Chain_ne, remove-Chain,
  and_false,
}
use novaio.TimeWheel.Remove.{IsListed, node-remove_timer, cells-remove_timer, numbers-remove_timer}

-- the lists without `p` in that of cell `c`
abbrev pub drop_at : ℕ → Ptr → Lists → Lists
drop_at c p L d = if d == c then remove p (L d) else L d

module _ (w : TimeWheel) (L : Lists) (r : Rep w L) (p : Ptr) (c : ℕ) (i : has p (L c) ≡ true) where
  not_null : (a : Ptr) (d : ℕ) → has a (L d) ≡ true → a ≢ null
  not_null a d j z = ground (
    arith,
    j,
    z,
    has-null w.node (w.cells d) (L d) (Chain-Line w.node d null (w.cells d) (L d) (r d)),
  )

  pub Rep-IsListed : IsListed p w c
  Rep-IsListed = record {
    head_ptr_eq = head_ptr-Chain w.node c null (w.cells c) p (L c) (r c) i;
    prev_ne = prev-Chain_ne w.node c p null (w.cells c) (L c) (r c) i (λ z. not_null p c i (sym z));
    next_ne = next-Chain_ne w.node c p null (w.cells c) (L c) (r c) i;
  }

  head-remove_timer :
      (remove_timer p w).cells c ≡ (if w.cells c == p then (w.node p).next else w.cells c)
  head-remove_timer =
      cells-remove_timer p w c Rep-IsListed c
      ∙ elim (prev-Chain w.node c p null (w.cells c) (L c) (r c) i) [
        | inl (first, pred) ↦
            let is_null : ((w.node p).prev == null) ≡ true = rw pred refl in
            let at : (w.cells c == p) ≡ true = rw first (==_self p) in
            rw (is_null, at, ==_self c) refl
        | inr (later, pred) ↦
            let at : (w.cells c == p) ≡ false = ==_of_ne (w.cells c) p later in
            rw (at, and_false ((w.node p).prev == null)) refl
      ]

  cells_elsewhere : (d : ℕ) → (d == c) ≡ false → (remove_timer p w).cells d ≡ w.cells d
  cells_elsewhere d n =
      cells-remove_timer p w c Rep-IsListed d
      ∙ rw (n, and_false (((w.node p).prev == null) && (w.cells c == p))) refl

  elsewhere :
      (d : ℕ) (a : Ptr)
      → (d == c) ≡ false
      → has a (L d) ≡ true
      → (remove_timer p w).node a ≡ w.node a
  elsewhere d a n j =
      node-remove_timer p w c Rep-IsListed a
      ∙ unlinked_ne w.node c p a (apart p i)
          (elim (prev-Chain w.node c p null (w.cells c) (L c) (r c) i) [
            | inl (first, pred) ↦ λ z. not_null a d j (z ∙ pred)
            | inr (later, pred) ↦ apart (w.node p).prev pred
          ])
          (elim (next-Chain w.node c p null (w.cells c) (L c) (r c) i) [
            | inl none_behind ↦ λ z. not_null a d j (z ∙ none_behind)
            | inr (later, behind) ↦ apart (w.node p).next behind
          ])
    where
      apart : (b : Ptr) → has b (L c) ≡ true → a ≢ b
      apart b k z =
          let there : has a (L c) ≡ true = ap (λ x. has x (L c)) z ∙ k in
          let not_there : has a (L c) ≡ false = Rep-apart w L r a d c j (ne_of_== d c n) in cc

  pub remove_timer-Rep : Rep (remove_timer p w) (drop_at c p L)
  remove_timer-Rep d = elim (Bool-cases (d == c)) [
    | inl e ↦
        subst
          (λ x. Chain (remove_timer p w).node x null ((remove_timer p w).cells x) (drop_at c p L x))
          (sym (eq_of_== d c e))
          (rw (head-remove_timer, ==_self c)
            (Chain-frame (unlinked w.node p) (remove_timer p w).node c null _ (remove p (L c))
              (λ a k. node-remove_timer p w c Rep-IsListed a)
              (remove-Chain w.node c p null (w.cells c) (L c) (r c)
                (has-null w.node (w.cells c) (L c)
                  (Chain-Line w.node c null (w.cells c) (L c) (r c)))
                i)))
    | inr n ↦
        rw (cells_elsewhere d n, n)
          (Chain-frame w.node (remove_timer p w).node d null (w.cells d) (L d)
            (λ a j. elsewhere d a n j) (r d))
  ]

has-remove_ne : (a p : Ptr) (xs : List Ptr) → a ≢ p → has a (remove p xs) ≡ has a xs
unfolding remove
has-remove_ne a p [] ne = refl
has-remove_ne a p (x ∷ xs) ne = ground (arith, has-remove_ne a p xs ne)

unlinked_keeps :
    (node : Memory) (p x : Ptr)
    → ((unlinked node p x).expires_at ≡ (node x).expires_at)
      × ((unlinked node p x).handle ≡ (node x).handle)
unlinked_keeps node p x = elim (Bool-cases (x == p)) [
  | inl e ↦
      let here : p ≡ x = sym (eq_of_== x p e) in
      rw e (ap (λ y. (node y).expires_at) here, ap (λ y. (node y).handle) here)
  | inr n ↦ rw n (refl, refl)
]

module _ (w : TimeWheel) (L : Lists) (r : Rep w L) (p : Ptr) (c : ℕ) (i : has p (L c) ≡ true) where
  keeps : (a d : ℕ) → a ≢ p → has a (drop_at c p L d) ≡ has a (L d)
  keeps a d ne = elim (Bool-cases (d == c)) [
    | inl e ↦ rw e (has-remove_ne a p (L d) ne)
    | inr n ↦ rw n refl
  ]

  gone : (d : ℕ) → has p (drop_at c p L d) ≡ false
  gone d = elim (Bool-cases (d == c)) [
    | inl e ↦ rw e (
        has-remove_self p (L d) (
          Line-Distinct w.node (w.cells d) (L d)
            (Chain-Line w.node d null (w.cells d) (L d) (r d))))
    | inr n ↦ rw n (Rep-apart w L r p c d i (λ z. ne_of_== d c n (sym z)))
  ]

  pub kept_only : (a d : ℕ) → has a (drop_at c p L d) ≡ true → (has a (L d) ≡ true) × (a ≢ p)
  kept_only a d h =
      let ne : a ≢ p = λ z.
        let there : has p (drop_at c p L d) ≡ true =
          ap (λ x. has x (drop_at c p L d)) (sym z) ∙ h in
        let not_there : has p (drop_at c p L d) ≡ false = gone d in cc in
      (sym (keeps a d ne) ∙ h, ne)

  pub stays_absent : (a d : ℕ) → has a (L d) ≡ false → has a (drop_at c p L d) ≡ false
  stays_absent a d h = elim (Bool-cases (d == c)) [
    | inl e ↦ rw e (has-remove p a (L d) h)
    | inr n ↦ rw n h
  ]

module _ (fuel : ℕ) (expires : Ptr → ℕ) (handles : Ptr → Handle) where
  -- `remove_timer` of a node on the wheel takes its timer off and keeps the others, the wheel staying
  -- well formed and counting one timer less.
  pub remove_timer-IsWheel :
      (now p : ℕ) (w : TimeWheel) (L : Lists)
      → IsWheel fuel expires handles now w L
      → In p L
      → (L' : Lists) × IsWheel fuel expires handles now (remove_timer p w) L'
        × ((a : Ptr) → In a L' ↔ (In a L × (a ≢ p)))
        × ((remove_timer p w).active_timers ≡ (w.active_timers + 2 ^ 64 - 1) % 2 ^ 64)
  remove_timer-IsWheel now p w L v (c, i) =
      let l = Rep-IsListed w L v.holds.rep p c i in
      (
        drop_at c p L,
        record {
          holds = record {
            rep = remove_timer-Rep w L v.holds.rep p c i;
            tick_eq = (numbers-remove_timer p w c l).0 ∙ v.holds.tick_eq;
            expires_eq = λ x.
                ap (λ n. n.expires_at) (node-remove_timer p w c l x)
                ∙ (unlinked_keeps w.node p x).0
                ∙ v.holds.expires_eq x;
            handle_eq = λ x.
                ap (λ n. n.handle) (node-remove_timer p w c l x)
                ∙ (unlinked_keeps w.node p x).1
                ∙ v.holds.handle_eq x;
            below = λ a le d. stays_absent w L v.holds.rep p c i a d (v.holds.below a le d);
          };
          at_rest = λ d a h. v.at_rest d a (kept_only w L v.holds.rep p c i a d h).0;
        },
        λ a. (
          λ (d, h). let (h', ne) = kept_only w L v.holds.rep p c i a d h in ((d, h'), ne),
          λ ((d, h), ne). (d, keeps w L v.holds.rep p c i a d ne ∙ h),
        ),
        (numbers-remove_timer p w c l).1,
      )
