-- ===== src/TimeWheel/Unlink.antt =====
-- src/time_wheel.cpp: a node taken out of its chain, as `remove_timer` does.
use novaio.Prelude.{
  ℕ, ◌≡◌, refl, sym, ap, ◌∙◌, subst, ◌≢◌, ◌⊎◌, inl, inr, Bool, true, false, not, ◌&&◌, none, List,
  [], ◌∷◌, arith, ◌==◌, if◌then◌else◌, eq_of_==, ne_of_==, ==_self, ==_of_ne, Bool-cases,
}
use novaio.TimeWheel.Cells.{Ptr, null}
use novaio.TimeWheel.Linked.{
  has, Memory, Chain, Chain-Line, Chain-frame, remove, has-remove, has-first,
}

-- The memory with the neighbours of `p` linked to each other, and `p` to nothing.
abbrev pub unlinked : Memory → Ptr → Memory
unlinked node p q =
    if q == p
    then record (node p) { next = null; prev = null; head_ptr = none }
    else record (node q) {
      next =
          if not ((node p).prev == null) && (q == (node p).prev)
          then (node p).next
          else (node q).next;
      prev =
          if not ((node p).next == null) && (q == (node p).next)
          then (node p).prev
          else (node q).prev;
    }

remove_head : (p x : Ptr) (xs : List Ptr) → (p == x) ≡ true → remove p (x ∷ xs) ≡ xs
unfolding remove
remove_head p x xs e = ground arith

remove_tail : (p x : Ptr) (xs : List Ptr) → (p == x) ≡ false → remove p (x ∷ xs) ≡ x ∷ remove p xs
unfolding remove
remove_tail p x xs e = ground arith

pub and_false : (b : Bool) → (b && false) ≡ false
and_false true = refl
and_false false = refl

module _ (node : Memory) (c : ℕ) (p : Ptr) where
  -- The predecessor of a node of a chain is the one before the chain, or in it.
  pub prev-Chain :
      (q h : Ptr) (xs : List Ptr)
      → Chain node c q h xs
      → has p xs ≡ true
      → ((h ≡ p) × ((node p).prev ≡ q)) ⊎ ((h ≢ p) × (has (node p).prev xs ≡ true))
  prev-Chain q h [] s i = absurd (cc)
  prev-Chain q h (x ∷ xs) (e, ne, out, hd, pv, s) i = elim (Bool-cases (p == x)) [
    | inl same ↦
        let here : p ≡ x = eq_of_== p x same in
        inl (e ∙ sym here, ap (λ a. (node a).prev) here ∙ pv)
    | inr other ↦ inr (
      λ z. ne_of_== p x other (sym z ∙ e),
      elim (prev-Chain x (node x).next xs s (ground arith)) [
        | inl (first, pred) ↦ ground (arith, ==_self x)
        | inr (later, pred) ↦ ground arith
      ],
    )
  ]

  -- The successor is null or in the rest of the chain.
  pub next-Chain :
      (q h : Ptr) (xs : List Ptr)
      → Chain node c q h xs
      → has p xs ≡ true
      → ((node p).next ≡ null) ⊎ (((node p).next ≢ h) × (has (node p).next xs ≡ true))
  next-Chain q h [] s i = absurd (cc)
  next-Chain q h (x ∷ xs) (e, ne, out, hd, pv, s) i = elim (Bool-cases (p == x)) [
    | inl same ↦
        let here : (node x).next ≡ (node p).next =
          ap (λ a. (node a).next) (sym (eq_of_== p x same)) in
        elim (Bool-cases ((node p).next == null)) [
          | inl z ↦ inl (eq_of_== (node p).next null z)
          | inr some_next ↦
              let i' : has (node p).next xs ≡ true =
                ap (λ a. has a xs) (sym here)
                ∙ has-first node (node x).next xs (Chain-Line node c x (node x).next xs s)
                    (λ z. ne_of_== _ _ some_next (sym here ∙ z)) in
              inr (λ z. ground arith, ground arith)
        ]
    | inr other ↦ elim (next-Chain x (node x).next xs s (ground arith)) [
      | inl z ↦ inl z
      | inr (later, i') ↦ inr (λ z. ground arith, ground arith)
    ]
  ]

  -- No node is its own neighbour.
  pub prev-Chain_ne :
      (q h : Ptr) (xs : List Ptr)
      → Chain node c q h xs
      → has p xs ≡ true
      → q ≢ p
      → (node p).prev ≢ p
  prev-Chain_ne q h [] s i nq = absurd (cc)
  prev-Chain_ne q h (x ∷ xs) (e, ne, out, hd, pv, s) i nq = elim (Bool-cases (p == x)) [
    | inl same ↦ λ z. nq (sym pv ∙ ap (λ a. (node a).prev) (sym (eq_of_== p x same)) ∙ z)
    | inr other ↦
        prev-Chain_ne x (node x).next xs s (ground arith) (λ z. ne_of_== p x other (sym z))
  ]

  pub next-Chain_ne :
      (q h : Ptr) (xs : List Ptr) → Chain node c q h xs → has p xs ≡ true → (node p).next ≢ p
  next-Chain_ne q h [] s i = absurd (cc)
  next-Chain_ne q h (x ∷ xs) (e, ne, out, hd, pv, s) i = elim (Bool-cases (p == x)) [
    | inl same ↦ λ z.
        let here : p ≡ x = eq_of_== p x same in
        let loops : (node x).next ≡ x = ap (λ a. (node a).next) (sym here) ∙ z ∙ here in
        let found : has (node x).next xs ≡ true =
          has-first node (node x).next xs (Chain-Line node c x (node x).next xs s)
            (λ y. ne (sym loops ∙ y)) in
        absurd (ground arith)
    | inr other ↦ next-Chain_ne x (node x).next xs s (ground arith)
  ]

  -- A node that is neither `p` nor a neighbour of it stays as it is.
  pub unlinked_ne :
      (a : Ptr) → a ≢ p → a ≢ (node p).prev → a ≢ (node p).next → unlinked node p a ≡ node a
  unlinked_ne a np nq nn =
      rw
        (
          ==_of_ne a p np,
          ==_of_ne a (node p).prev nq,
          ==_of_ne a (node p).next nn,
          and_false (not ((node p).prev == null)),
          and_false (not ((node p).next == null)),
        )
        refl

  -- the nodes behind `p`, whose predecessor is `q`
  behind :
      (q : Ptr) (ys : List Ptr)
      → Chain node c p (node p).next ys
      → (node p).prev ≡ q
      → has p ys ≡ false
      → has q ys ≡ false
      → Chain (unlinked node p) c q (node p).next ys
  behind q [] s pv out fresh = s
  behind q (y ∷ ys) (e, ne, new, hd, pv', s) pv out fresh =
      let np : (y == p) ≡ false = ground arith in
      let nq : (y == (node p).prev) ≡ false = ground arith in
      let at : (y == (node p).next) ≡ true = ground arith in
      let some_next : ((node p).next == null) ≡ false = ground arith in
      let now : unlinked node p y ≡ record (node y) { prev = (node p).prev } =
        rw (np, nq, at, some_next, and_false) refl in
      (
        e,
        ne,
        new,
        rw now hd,
        rw now pv,
        rw now (
            Chain-frame node (unlinked node p) c y (node y).next ys
              (λ a i. unlinked_ne a (ground arith) (ground arith) (ground arith)) s),
      )

  next_of :
      (x : Ptr) (xs : List Ptr)
      → x ≢ null
      → x ≢ p
      → has x xs ≡ false
      → Chain node c x (node x).next xs
      → has p xs ≡ true
      → (unlinked node p x).next ≡ (if (node x).next == p then (node p).next else (node x).next)
  next_of x xs ne np out s i = elim (prev-Chain x (node x).next xs s i) [
    | inl (first, pred) ↦
        let here : (x == (node p).prev) ≡ true = rw pred (==_self x) in
        let some_prev : ((node p).prev == null) ≡ false = rw pred (==_of_ne x null ne) in
        let at : ((node x).next == p) ≡ true = rw first (==_self p) in
        rw (==_of_ne x p np, here, some_prev, at) refl
    | inr (later, pred) ↦
        let apart : (x == (node p).prev) ≡ false = ground arith in
        rw (==_of_ne x p np, apart, and_false, ==_of_ne (node x).next p later) refl
  ]

  prev_of :
      (x : Ptr) (xs : List Ptr)
      → x ≢ p
      → has x xs ≡ false
      → Chain node c x (node x).next xs
      → has p xs ≡ true
      → (unlinked node p x).prev ≡ (node x).prev
  prev_of x xs np out s i = elim (next-Chain x (node x).next xs s i) [
    | inl none_behind ↦
        let last : ((node p).next == null) ≡ true = rw none_behind refl in
        rw (==_of_ne x p np, last) refl
    | inr (later, behind_it) ↦
        let apart : (x == (node p).next) ≡ false = ground arith in
        rw (==_of_ne x p np, apart, and_false (not ((node p).next == null))) refl
  ]

  -- The chain without `p`, in the memory in which `p` is unlinked. Its first node is the next one if it
  -- was `p`, and `q` is in no way part of it.
  pub remove-Chain :
      (q h : Ptr) (xs : List Ptr)
      → Chain node c q h xs
      → has q xs ≡ false
      → has p xs ≡ true
      → Chain (unlinked node p) c q (if h == p then (node p).next else h) (remove p xs)
  remove-Chain q h [] s fresh i = absurd (cc)
  remove-Chain q h (x ∷ xs) (e, ne, out, hd, pv, s) fresh i = elim (Bool-cases (p == x)) [
    | inl same ↦
        let here : p ≡ x = eq_of_== p x same in
        let at : (h == p) ≡ true = ground arith in
        rw (at, remove_head p x xs same)
          (behind q xs (subst (λ a. Chain node c a (node a).next xs) (sym here) s)
            (ap (λ a. (node a).prev) here ∙ pv) (ground arith) (ground arith))
    | inr other ↦
        let np : x ≢ p = λ z. ne_of_== p x other (sym z) in
        let at : (h == p) ≡ false = ground arith in
        let later : has p xs ≡ true = ground arith in
        rw (at, remove_tail p x xs other)
          (
            e,
            ne,
            has-remove p x xs out,
            rw (==_of_ne x p np) hd,
            prev_of x xs np out s later ∙ pv,
            subst (λ n. Chain (unlinked node p) c x n (remove p xs))
                (sym (next_of x xs ne np out s later))
                (remove-Chain x (node x).next xs s out later),
          )
  ]
