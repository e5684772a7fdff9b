-- ===== src/CoMutex/Trail.antt =====
-- src/comutex.cpp: the singly linked lists of awaiters, and the loop of `unlock` that reverses one.
use novaio.Prelude.{
  ℕ, zero, suc, ◌<◌, ◌≡◌, refl, false, some, List, [], ◌∷◌, arith, ==_self, ==_of_ne, length, has,
  rev_onto,
}
use novaio.CoMutex.{Ptr, nullptr, put, reverse_loop}

-- From `p` the pointers lead through the distinct awaiters `xs` to null. No awaiter has the address
-- of a state without awaiters.
abbrev pub Trail : (Ptr → Ptr) → Ptr → List Ptr → Type 0
Trail next p [] = p ≡ nullptr
Trail next p (x ∷ xs) = (p ≡ x) × (1 < x) × (has x xs ≡ false) × Trail next (next x) xs

abbrev pub Disjoint : List Ptr → List Ptr → Type 0
Disjoint [] ys = Unit
Disjoint (x ∷ xs) ys = (has x ys ≡ false) × Disjoint xs ys

pub Disjoint-nil : (xs : List Ptr) → Disjoint xs []
Disjoint-nil [] = tt
Disjoint-nil (x ∷ xs) = (refl, Disjoint-nil xs)

Disjoint-cons :
    (x : Ptr) (xs ys : List Ptr) → has x xs ≡ false → Disjoint xs ys → Disjoint xs (x ∷ ys)
Disjoint-cons x [] ys out d = tt
Disjoint-cons x (y ∷ xs) ys out (first, d) = (ground arith, Disjoint-cons x xs ys (ground arith) d)

-- A trail does not depend on the awaiters off it.
pub Trail-put :
    (next : Ptr → Ptr) (a v p : Ptr) (xs : List Ptr)
    → has a xs ≡ false
    → Trail next p xs
    → Trail (put next a v) p xs
Trail-put next a v p [] out t = t
Trail-put next a v p (x ∷ xs) out (e, big, new, t) =
    let same : put next a v x ≡ next x = ground arith in
    (e, big, new, rw same (Trail-put next a v (next x) xs (ground arith) t))

pub reverse_loop-Trail :
    (fuel current prev : ℕ) (next : Ptr → Ptr) (xs ys : List Ptr)
    → length xs < fuel
    → Trail next current xs
    → Trail next prev ys
    → Disjoint xs ys
    → (r : Ptr × (Ptr → Ptr)) × (reverse_loop fuel current prev next ≡ some r)
      × Trail r.1 r.0 (rev_onto xs ys)
unfolding reverse_loop
reverse_loop-Trail zero current prev next xs ys l t u d = absurd (omega arith)
reverse_loop-Trail (suc fuel) current prev next [] ys l t u d = rw t ((prev, next), refl, u)
reverse_loop-Trail (suc fuel) current prev next (x ∷ xs) ys l (e, big, new, t) u (out, d) =
    let next' : Ptr → Ptr = put next x prev in
    let (r, runs, trail) =
      reverse_loop-Trail fuel (next x) x next' xs (x ∷ ys) (omega arith)
        (Trail-put next x prev (next x) xs new t)
        (refl, big, out, rw (==_self x) (Trail-put next x prev prev ys out u))
        (Disjoint-cons x xs ys new d) in
    (r, rw (e, ==_of_ne x nullptr (omega arith)) runs, trail)
