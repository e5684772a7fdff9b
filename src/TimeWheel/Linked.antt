-- ===== src/TimeWheel/Linked.antt =====
-- src/time_wheel.cpp: doubly linked lists in the memory of nodes.
use native.Mathlib.Decide.{ℕ_discrete}
use novaio.Prelude.{
  ℕ, zero, suc, ◌≤◌, ◌≡◌, refl, ◌≢◌, Bool, true, false, ◌||◌, some, List, [], ◌∷◌, arith, ◌==◌,
  ==_self, length,
}
use novaio.TimeWheel.Cells.{Ptr, null}
use novaio.TimeWheel.{TimerNode}

abbrev pub has : Ptr → List Ptr → Bool
has a [] = false
has a (x ∷ xs) = (a == x) || has a xs

abbrev pub Memory : Type 0
Memory = Ptr → TimerNode

-- From `p` the `next` pointers lead through the distinct nodes `xs` to null; each node knows the
-- cell `c` that heads it, and its predecessor, which is `q` for the first.
abbrev pub Chain : Memory → ℕ → Ptr → Ptr → List Ptr → Type 0
Chain node c q p [] = p ≡ null
Chain node c q p (x ∷ xs) =
    (p ≡ x)
    × (x ≢ null)
    × (has x xs ≡ false)
    × ((node x).head_ptr ≡ some c)
    × ((node x).prev ≡ q)
    × Chain node c x (node x).next xs

-- The same without the way back, for a list that a loop takes apart.
abbrev pub Line : Memory → Ptr → List Ptr → Type 0
Line node p [] = p ≡ null
Line node p (x ∷ xs) = (p ≡ x) × (x ≢ null) × (has x xs ≡ false) × Line node (node x).next xs

pub Chain-Line : (node : Memory) (c q p : ℕ) (xs : List Ptr) → Chain node c q p xs → Line node p xs
Chain-Line node c q p [] s = s
Chain-Line node c q p (x ∷ xs) (e, ne, out, hd, pv, s) =
    (e, ne, out, Chain-Line node c x (node x).next xs s)

-- A chain depends on its own nodes only.
pub Chain-frame :
    (node node' : Memory) (c q p : ℕ) (xs : List Ptr)
    → ((a : Ptr) → has a xs ≡ true → node' a ≡ node a)
    → Chain node c q p xs
    → Chain node' c q p xs
Chain-frame node node' c q p [] same s = s
Chain-frame node node' c q p (x ∷ xs) same (e, ne, out, hd, pv, s) =
    let now : node' x ≡ node x = same x (ground (arith, ==_self x)) in
    (
      e,
      ne,
      out,
      rw now hd,
      rw now pv,
      rw now (Chain-frame node node' c x (node x).next xs (λ a i. same a (ground arith)) s),
    )

pub Line-frame :
    (node node' : Memory) (p : ℕ) (xs : List Ptr)
    → ((a : Ptr) → has a xs ≡ true → (node' a).next ≡ (node a).next)
    → Line node p xs
    → Line node' p xs
Line-frame node node' p [] same s = s
Line-frame node node' p (x ∷ xs) same (e, ne, out, s) = (
  e,
  ne,
  out,
  rw (same x (ground (arith, ==_self x)))
      (Line-frame node node' (node x).next xs (λ a i. same a (ground arith)) s),
)

pub head_ptr-Chain :
    (node : Memory) (c q p a : ℕ) (xs : List Ptr)
    → Chain node c q p xs
    → has a xs ≡ true
    → (node a).head_ptr ≡ some c
head_ptr-Chain node c q p a [] s i = cc
head_ptr-Chain node c q p a (x ∷ xs) (e, ne, out, hd, pv, s) i =
    ground (arith, head_ptr-Chain node c x (node x).next a xs s)

-- The first node of a chain that is not empty.
pub has-first :
    (node : Memory) (p : ℕ) (xs : List Ptr) → Line node p xs → p ≢ null → has p xs ≡ true
has-first node p [] s ne = absurd (ne s)
has-first node p (x ∷ xs) (e, ne', out, s) ne = ground (arith, ==_self x)

-- No node is null.
pub has-null : (node : Memory) (p : ℕ) (xs : List Ptr) → Line node p xs → has null xs ≡ false
has-null node p [] s = refl
has-null node p (x ∷ xs) (e, ne, out, s) = ground (arith, has-null node (node x).next xs s)

-- Distinct nodes, by recursion.
abbrev pub Distinct : List Ptr → Type 0
Distinct [] = Unit {0}
Distinct (x ∷ xs) = (has x xs ≡ false) × Distinct xs

pub Line-Distinct : (node : Memory) (p : ℕ) (xs : List Ptr) → Line node p xs → Distinct xs
Line-Distinct node p [] s = tt
Line-Distinct node p (x ∷ xs) (e, ne, out, s) = (out, Line-Distinct node (node x).next xs s)

-- `xs` less `a`
unfoldable pub remove : ℕ → List ℕ → List ℕ
remove a [] = []
remove a (x ∷ xs) = elim (a == x) [ true ↦ xs | false ↦ x ∷ remove a xs ]

pub has-remove : (a b : ℕ) (xs : List ℕ) → has b xs ≡ false → has b (remove a xs) ≡ false
unfolding remove
has-remove a b [] h = refl
has-remove a b (x ∷ xs) h = ground (arith, has-remove a b xs)

pub has-remove_self : (a : ℕ) (xs : List ℕ) → Distinct xs → has a (remove a xs) ≡ false
unfolding remove
has-remove_self a [] d = refl
has-remove_self a (x ∷ xs) d = ground (arith, has-remove_self a xs d.1)

remove-Distinct : (a : ℕ) (xs : List ℕ) → Distinct xs → Distinct (remove a xs)
unfolding remove
remove-Distinct a [] d = tt
remove-Distinct a (x ∷ xs) d = ground (arith, remove-Distinct a xs d.1, has-remove a x xs d.0)

length-remove : (a : ℕ) (xs : List ℕ) → length xs ≤ suc (length (remove a xs))
unfolding remove
length-remove a [] = omega arith
length-remove a (x ∷ xs) = ground (arith, length-remove a xs)

-- Distinct numbers below `n` are at most `n`.
pub length-le :
    (n : ℕ) (xs : List ℕ) → Distinct xs → ((a : ℕ) → n ≤ a → has a xs ≡ false) → length xs ≤ n
length-le n [] d below = omega arith
length-le zero (x ∷ xs) d below = absurd (ground (arith, below x (omega arith), ==_self x))
length-le (suc n) (x ∷ xs) d below = omega (
  arith,
  length-remove n (x ∷ xs),
  length-le n (remove n (x ∷ xs)) (remove-Distinct n (x ∷ xs) d) λ a h. elim (ℕ_discrete n a) [
    | yes e ↦ rw (← e) (has-remove_self n (x ∷ xs) d)
    | no ne ↦ has-remove n a (x ∷ xs) (below a (omega arith))
  ],
)
