-- ===== src/TimeWheel/Timing.antt =====
-- src/time_wheel.cpp: the lists under a round, which nodes are due and where the others are.
use novaio.Prelude.{
  ℕ, ◌+◌, ◌/◌, ◌%◌, ◌^◌, bit_and, ◌≡◌, sym, subst, ◌⊎◌, ◌≢◌, ◌↔◌, inl, inr, Bool, true, false, List,
  [], ◌∷◌, arith, ◌==◌, ltb, if◌then◌else◌, Bool-cases, eq_of_==, ne_of_==, ==_self,
}
use novaio.Bits.{bit_and_mask}
use novaio.TimeWheel.Cells.{Ptr, tvn_mask, tvr_mask, shr}
use novaio.TimeWheel.Linked.{has}
use novaio.TimeWheel.Lists.{Lists, cell, clear, put, put_all, spill, spills, settled}
use novaio.TimeWheel.Places.{
  Placed, cell_of-Placed, Placed-weaken, Placed2, Placed3, Placed4, Placed5, Placed-inside8,
  Placed-inside14, Placed-inside20, Placed-inside26, Placed-start,
}

-- The node `a` is in some list.
abbrev pub In : Ptr → Lists → Type 0
In a L = (c : ℕ) × (has a (L c) ≡ true)

module _ (expires : Ptr → ℕ) where
  -- Every node lies where its timer may lie at `now`.
  abbrev pub AllPlaced : (l2 l3 l4 l5 : Bool) → ℕ → Lists → Type 0
  AllPlaced l2 l3 l4 l5 now L =
      (c a : ℕ) → has a (L c) ≡ true → Placed l2 l3 l4 l5 now (expires a) c

  module _ (now : ℕ) where
    put-In :
        (a x : Ptr) (L : Lists) (c : ℕ) → has a (L c) ≡ true → has a (put expires now x L c) ≡ true
    unfolding put
    put-In a x L c h = ground arith

    put_all-In :
        (a : Ptr) (xs : List Ptr) (L : Lists) (c : ℕ)
        → has a (L c) ≡ true
        → has a (put_all expires now xs L c) ≡ true
    unfolding put_all
    put_all-In a [] L c h = h
    put_all-In a (x ∷ xs) L c h = put_all-In a xs (put expires now x L) c (put-In a x L c h)

    put_self : (a : Ptr) (L : Lists) → has a (put expires now a L (cell expires now a)) ≡ true
    unfolding put
    put_self a L = ground (arith, ==_self (cell expires now a), ==_self a)

    put_all-cell :
        (a : Ptr) (xs : List Ptr) (L : Lists)
        → has a xs ≡ true
        → has a (put_all expires now xs L (cell expires now a)) ≡ true
    unfolding put_all
    put_all-cell a [] L h = cc
    put_all-cell a (x ∷ xs) L h = elim (Bool-cases (a == x)) [
      | inl e ↦ put_all-In a xs (put expires now x L) (cell expires now a) (
          subst (λ y. has a (put expires now y L (cell expires now a)) ≡ true) (eq_of_== a x e)
            (put_self a L))
      | inr n ↦ put_all-cell a xs (put expires now x L) (ground arith)
    ]

    pub put-inv :
        (a x : Ptr) (L : Lists) (c : ℕ)
        → has a (put expires now x L c) ≡ true
        → ((a ≡ x) × (c ≡ cell expires now x)) ⊎ (has a (L c) ≡ true)
    unfolding put
    put-inv a x L c h = ground arith

    -- where a node of `put_all` comes from
    put_all-inv :
        (a : Ptr) (xs : List Ptr) (L : Lists) (c : ℕ)
        → has a (put_all expires now xs L c) ≡ true
        → ((has a xs ≡ true) × (c ≡ cell expires now a)) ⊎ (has a (L c) ≡ true)
    unfolding put_all
    put_all-inv a [] L c h = inr h
    put_all-inv a (x ∷ xs) L c h = elim (put_all-inv a xs (put expires now x L) c h) [
      | inl (i, e) ↦ inl (ground arith, e)
      | inr i ↦ elim (put-inv a x L c i) [
        | inl (e, e') ↦ inl (ground (arith, ==_self x), rw e e')
        | inr old ↦ inr old
      ]
    ]

    spill-inv :
        (a : Ptr) (c d : ℕ) (L : Lists)
        → has a (spill expires now c L d) ≡ true
        → ((has a (L c) ≡ true) × (d ≡ cell expires now a)) ⊎ ((d ≢ c) × (has a (L d) ≡ true))
    unfolding spill
    spill-inv a c d L h = ground (arith, put_all-inv a (L c) (clear c L) d)

    -- A cascade loses no node and adds none.
    spill-In : (a : Ptr) (c : ℕ) (L : Lists) → In a (spill expires now c L) ↔ In a L
    unfolding spill
    spill-In a c L = (back, forth)
      where
        back : In a (put_all expires now (L c) (clear c L)) → In a L
        back (d, h) = elim (put_all-inv a (L c) (clear c L) d h) [
          | inl old ↦ (c, old.0)
          | inr kept ↦ (d, ground arith)
        ]

        forth : In a L → In a (put_all expires now (L c) (clear c L))
        forth (d, h) = elim (Bool-cases (d == c)) [
          | inl e ↦ (
            cell expires now a,
            put_all-cell a (L c) (clear c L) (subst (λ t. has a (L t) ≡ true) (eq_of_== d c e) h),
          )
          | inr n ↦ (d, put_all-In a (L c) (clear c L) d (rw n h))
        ]

    -- A cascade of cell `c` sets right what was in it; `keep` says so of the other cells.
    spill-AllPlaced :
        {l2 l3 l4 l5 m2 m3 m4 m5 : Bool} (c : ℕ) (L : Lists)
        → ((e d : ℕ) → d ≢ c → Placed l2 l3 l4 l5 now e d → Placed m2 m3 m4 m5 now e d)
        → AllPlaced l2 l3 l4 l5 now L
        → AllPlaced m2 m3 m4 m5 now (spill expires now c L)
    spill-AllPlaced c L keep p d a h = elim (spill-inv a c d L h) [
      | inl (old, e) ↦ rw e (
          Placed-weaken now (expires a) (cell expires now a)
            (cell_of-Placed now (expires a) (p c a old).0 (p c a old).1))
      | inr (ne, i) ↦ keep (expires a) d ne (p d a i)
    ]

    index2 : bit_and (shr now 8) tvn_mask ≡ now / 2 ^ 8 % 64
    index2 = bit_and_mask 6 (now / 2 ^ 8)

    index3 : bit_and (shr now 14) tvn_mask ≡ now / 2 ^ 14 % 64
    index3 = bit_and_mask 6 (now / 2 ^ 14)

    index4 : bit_and (shr now 20) tvn_mask ≡ now / 2 ^ 20 % 64
    index4 = bit_and_mask 6 (now / 2 ^ 20)

    index5 : bit_and (shr now 26) tvn_mask ≡ now / 2 ^ 26 % 64
    index5 = bit_and_mask 6 (now / 2 ^ 26)

    -- After the cascades of a tick that is a multiple of 256, every node is where it must be.
    spills-AllPlaced :
        (L : Lists)
        → now % 2 ^ 8 ≡ 0
        → AllPlaced true true true true now L
        → AllPlaced false false false false now (spills expires now L)
    unfolding spills
    spills-AllPlaced L z p =
        rw (index2, index3, index4, index5)
          (elim (Bool-cases (now / 2 ^ 8 % 64 == 0)) [
            | inl z3 ↦ rw z3 (elim (Bool-cases (now / 2 ^ 14 % 64 == 0)) [
              | inl z4 ↦ rw z4 (elim (Bool-cases (now / 2 ^ 20 % 64 == 0)) [
                | inl z5 ↦
                    rw z5 (p5 (omega (arith, eq_of_== _ _ z3, eq_of_== _ _ z4, eq_of_== _ _ z5)))
                | inr n ↦ rw n λ d a h.
                    Placed-inside26 now (expires a) d (ne_of_== _ _ n)
                      (p4 (omega (arith, eq_of_== _ _ z3, eq_of_== _ _ z4)) d a h)
              ])
              | inr n ↦ rw n λ d a h.
                  Placed-inside20 now (expires a) d (ne_of_== _ _ n)
                    (p3 (omega (arith, eq_of_== _ _ z3)) d a h)
            ])
            | inr n ↦ rw n λ d a h. Placed-inside14 now (expires a) d (ne_of_== _ _ n) (p2 d a h)
          ])
      where
        L2 : Lists
        L2 = spill expires now (256 + now / 2 ^ 8 % 64) L

        L3 : Lists
        L3 = spill expires now (320 + now / 2 ^ 14 % 64) L2

        L4 : Lists
        L4 = spill expires now (384 + now / 2 ^ 20 % 64) L3

        p2 : AllPlaced false true true true now L2
        p2 = spill-AllPlaced _ L (λ e d. Placed2 now e d z) p

        p3 : now % 2 ^ 14 ≡ 0 → AllPlaced false false true true now L3
        p3 z = spill-AllPlaced _ L2 (λ e d. Placed3 now e d z) p2

        p4 : now % 2 ^ 20 ≡ 0 → AllPlaced false false false true now L4
        p4 z = spill-AllPlaced _ L3 (λ e d. Placed4 now e d z) (p3 (omega arith))

        p5 :
            now % 2 ^ 26 ≡ 0
            → AllPlaced false false false false now (spill expires now (448 + now / 2 ^ 26 % 64) L4)
        p5 z = spill-AllPlaced _ L4 (λ e d. Placed5 now e d z) (p4 (omega arith))

    iff_trans : {A B C : Type 0} → A ↔ B → B ↔ C → A ↔ C
    iff_trans f g = (λ a. g.0 (f.0 a), λ c. f.1 (g.1 c))

    -- `K` has the nodes of `L`, in cells of its own.
    record Keeps (K L : Lists) : Type 0 where
      keep : (a : Ptr) → In a K ↔ In a L

    Keeps-spill : (c : ℕ) (K L : Lists) → Keeps K L → Keeps (spill expires now c K) L
    Keeps-spill c K L k = record { keep = λ a. iff_trans (spill-In a c K) (k.keep a) }

    Keeps-if : (b : Bool) (K M L : Lists) → Keeps K L → Keeps M L → Keeps (if b then K else M) L
    Keeps-if true K M L k m = k
    Keeps-if false K M L k m = m

    spills-Keeps : (L : Lists) → Keeps (spills expires now L) L
    unfolding spills
    spills-Keeps L =
        Keeps-if _ _ _ L k2 (Keeps-if _ _ _ L k3 (Keeps-if _ _ _ L k4 (Keeps-spill _ _ L k4)))
      where
        k2 : Keeps (spill expires now (256 + bit_and (shr now 8) tvn_mask) L) L
        k2 = Keeps-spill _ L L (record { keep = λ a. (λ h. h, λ h. h) })

        k3 :
            Keeps
              (spill expires now
                (320 + bit_and (shr now 14) tvn_mask)
                (spill expires now (256 + bit_and (shr now 8) tvn_mask) L))
              L
        k3 = Keeps-spill _ _ L k2

        k4 :
            Keeps
              (spill expires now (384 + bit_and (shr now 20) tvn_mask) (
                spill expires now
                  (320 + bit_and (shr now 14) tvn_mask)
                  (spill expires now (256 + bit_and (shr now 8) tvn_mask) L)))
              L
        k4 = Keeps-spill _ _ L k3

    settled-Keeps : (L : Lists) → Keeps (settled expires now L) L
    unfolding settled
    settled-Keeps L = Keeps-if _ _ _ L (spills-Keeps L) (record { keep = λ a. (λ h. h, λ h. h) })

    pub settled-In : (a : Ptr) (L : Lists) → In a (settled expires now L) ↔ In a L
    settled-In a L = (settled-Keeps L).keep a

    pub index_mod : bit_and now tvr_mask ≡ now % 256
    index_mod = bit_and_mask 8 now

    pub settled-AllPlaced :
        (L : Lists)
        → AllPlaced true true true true now L
        → AllPlaced false false false false now (settled expires now L)
    unfolding settled
    settled-AllPlaced L p = rw index_mod (elim (Bool-cases (now % 256 == 0)) [
      | inl z ↦ rw z (elim (Bool-cases (ltb 0 now)) [
        | inl pos ↦ rw pos (spills-AllPlaced L (eq_of_== _ _ z) p)
        | inr start ↦ rw start λ c a h. at_zero (ground arith) (expires a) c (p c a h)
      ])
      | inr n ↦ rw n λ c a h. Placed-inside8 now (expires a) c (ne_of_== _ _ n) (p c a h)
    ])
      where
        at_zero :
            now ≡ 0
            → (e c : ℕ) → Placed true true true true now e c
            → Placed false false false false now e c
        at_zero z e c p =
            subst (λ n. Placed true true true true n e c → Placed false false false false n e c)
              (sym z) (Placed-start e c) p
