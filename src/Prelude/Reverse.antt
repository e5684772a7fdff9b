-- ===== src/Prelude/Reverse.antt =====
-- Lists of addresses: membership as a test, and reversal onto a list.
use Prim.Native.Nat.{ℕ, ◌+◌}
use mathlib.Core.Path.{◌≡◌, refl}
use mathlib.Core.Bool.{Bool, false, ◌||◌}
use mathlib.Core.List.{List, [], ◌∷◌, ◌++◌}
use native.Mathlib.Omega.{arith}
use novaio.Prelude.Tests.{◌==◌}
use novaio.Prelude.Lists.{length}

abbrev pub has : ℕ → List ℕ → Bool
has a [] = false
has a (x ∷ xs) = (a == x) || has a xs

abbrev pub rev_onto : List ℕ → List ℕ → List ℕ
rev_onto [] ys = ys
rev_onto (x ∷ xs) ys = rev_onto xs (x ∷ ys)

pub rev_onto-append : (xs ys zs : List ℕ) → rev_onto xs ys ++ zs ≡ rev_onto xs (ys ++ zs)
rev_onto-append [] ys zs = refl
rev_onto-append (x ∷ xs) ys zs = rev_onto-append xs (x ∷ ys) zs

pub rev_onto-rev_onto : (xs ys zs : List ℕ) → rev_onto (rev_onto xs ys) zs ≡ rev_onto ys (xs ++ zs)
rev_onto-rev_onto [] ys zs = refl
rev_onto-rev_onto (x ∷ xs) ys zs = rev_onto-rev_onto xs (x ∷ ys) zs

pub length-rev_onto : (xs ys : List ℕ) → length (rev_onto xs ys) ≡ length xs + length ys
length-rev_onto [] ys = omega arith
length-rev_onto (x ∷ xs) ys = omega (arith, length-rev_onto xs (x ∷ ys))

pub has-append : (p : ℕ) (W S : List ℕ) → (has p W || has p S) ≡ has p (W ++ S)
has-append p [] S = refl
has-append p (x ∷ W) S = ground (arith, has-append p W S)

pub has-rev_onto : (p : ℕ) (S xs : List ℕ) → has p (rev_onto S xs) ≡ (has p S || has p xs)
has-rev_onto p [] xs = refl
has-rev_onto p (x ∷ S) xs = ground (arith, has-rev_onto p S (x ∷ xs))
