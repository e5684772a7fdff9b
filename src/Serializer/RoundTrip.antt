-- ===== src/Serializer/RoundTrip.antt =====
-- include/novaio/serializer.hpp: what can be read back from the bytes that `serialize` writes. The
-- reader is not in the source: it is given the shape of the object, as `serialize` is given its type.
use novaio.Prelude.{
  ℕ, zero, suc, ◌+◌, ◌*◌, ◌/◌, ◌^◌, ◌<◌, ◌≡◌, refl, sym, ap, Option, none, some, List, [], ◌∷◌,
  ◌++◌, append-nil, append_assoc, arith, ◌>>=◌, length,
}
use novaio.Serializer.{
  Object, Objects, append_bytes, little_endian, size_bytes, serialize, serialize_tuple_impl,
}

mutual
  pub data Shape : Type 0 where
    number : ℕ → Shape
    text : Shape
    tuple : Shapes → Shape

  pub data Shapes : Type 0 where
    end : Shapes
    then : Shape → Shapes → Shapes

unfoldable mutual
  pub shape_of : Object → Shape
  shape_of (Object.arithmetic bytes) = number (length bytes)
  shape_of (Object.string s) = text
  shape_of (Object.class_of xs) = tuple (shapes_of xs)

  pub shapes_of : Objects → Shapes
  shapes_of Objects.nil = end
  shapes_of (Objects.cons x xs) = then (shape_of x) (shapes_of xs)

-- every string is shorter than a `size_t` can say
unfoldable mutual
  pub IsSized : Object → Type 0
  IsSized (Object.arithmetic bytes) = Unit
  IsSized (Object.string s) = length s < 2 ^ 64
  IsSized (Object.class_of xs) = AreSized xs

  pub AreSized : Objects → Type 0
  AreSized Objects.nil = Unit
  AreSized (Objects.cons x xs) = IsSized x × AreSized xs

abbrev pub of_little_endian : List ℕ → ℕ
of_little_endian [] = 0
of_little_endian (b ∷ bs) = b + 256 * of_little_endian bs

-- the first `n` bytes and what follows them
abbrev pub split : ℕ → List ℕ → Option (List ℕ × List ℕ)
split zero bs = some ([], bs)
split (suc n) [] = none
split (suc n) (b ∷ bs) = do (front, rest) ← split n bs; some (b ∷ front, rest)

unfoldable mutual
  pub decode : Shape → List ℕ → Option (Object × List ℕ)
  decode (number n) bs = do (front, rest) ← split n bs; some (Object.arithmetic front, rest)
  decode text bs = do
    (len, rest) ← split 8 bs
    (s, rest) ← split (of_little_endian len) rest
    some (Object.string s, rest)
  decode (tuple shapes) bs = do (xs, rest) ← decode_all shapes bs; some (Object.class_of xs, rest)

  pub decode_all : Shapes → List ℕ → Option (Objects × List ℕ)
  decode_all end bs = some (Objects.nil, bs)
  decode_all (then shape shapes) bs = do
    (x, bs) ← decode shape bs
    (xs, bs) ← decode_all shapes bs
    some (Objects.cons x xs, bs)

of_little_endian-little_endian : (k n : ℕ) → n < 256 ^ k → of_little_endian (little_endian k n) ≡ n
of_little_endian-little_endian zero n l = omega arith
of_little_endian-little_endian (suc k) n l =
    omega (arith, of_little_endian-little_endian k (n / 256) (omega arith))

split-append : (xs ys : List ℕ) → split (length xs) (xs ++ ys) ≡ some (xs, ys)
split-append [] ys = refl
split-append (x ∷ xs) ys = rw (split-append xs ys)

length-little_endian : (k n : ℕ) → length (little_endian k n) ≡ k
length-little_endian zero n = refl
length-little_endian (suc k) n = ap suc (length-little_endian k (n / 256))

split-size_bytes : (n : ℕ) (ys : List ℕ) → split 8 (size_bytes n ++ ys) ≡ some (size_bytes n, ys)
unfolding size_bytes
split-size_bytes n ys = split-append (size_bytes n) ys

of_little_endian-size_bytes : (n : ℕ) → n < 2 ^ 64 → of_little_endian (size_bytes n) ≡ n
unfolding size_bytes
of_little_endian-size_bytes n l = of_little_endian-little_endian 8 n l

cons-append :
    (buffer t w : List ℕ) {s u v : List ℕ}
    → s ≡ buffer ++ t
    → u ≡ s ++ w
    → v ≡ t ++ w
    → u ≡ buffer ++ v
cons-append buffer t w first front back = rw (front, first, back) (append_assoc buffer t w)

-- `serialize` only ever appends to the buffer.
mutual
  unfolding serialize append_bytes

  pub serialize-append :
      (x : Object) (buffer : List ℕ) → serialize x buffer ≡ buffer ++ serialize x []
  serialize-append (Object.arithmetic bytes) buffer = refl
  serialize-append (Object.string s) buffer = append_assoc buffer (size_bytes (length s)) s
  serialize-append (Object.class_of xs) buffer = all-append xs buffer

  all-append :
      (xs : Objects) (buffer : List ℕ)
      → serialize_tuple_impl xs buffer ≡ buffer ++ serialize_tuple_impl xs []
  all-append Objects.nil buffer = sym (append-nil buffer)
  all-append (Objects.cons x xs) buffer =
      cons-append buffer (serialize x []) (serialize_tuple_impl xs []) (serialize-append x buffer)
        (all-append xs (serialize x buffer)) (all-append xs (serialize x []))

mutual
  unfolding serialize append_bytes shape_of IsSized decode

  reads_back :
      (x : Object) (rest : List ℕ)
      → IsSized x
      → decode (shape_of x) (serialize x [] ++ rest) ≡ some (x, rest)
  reads_back (Object.arithmetic bytes) rest sized = rw (split-append bytes rest)
  reads_back (Object.string s) rest sized = rw (
    append_assoc (size_bytes (length s)) s rest,
    split-size_bytes (length s) (s ++ rest),
    of_little_endian-size_bytes (length s) sized,
    split-append s rest,
  )
  reads_back (Object.class_of xs) rest sized = rw (decode_all-serialize xs rest sized)

  decode_all-serialize :
      (xs : Objects) (rest : List ℕ)
      → AreSized xs
      → decode_all (shapes_of xs) (serialize_tuple_impl xs [] ++ rest) ≡ some (xs, rest)
  decode_all-serialize Objects.nil rest sized = refl
  decode_all-serialize (Objects.cons x xs) rest (one, others) = rw (
    all-append xs (serialize x []),
    append_assoc (serialize x []) (serialize_tuple_impl xs []) rest,
    reads_back x (serialize_tuple_impl xs [] ++ rest) one,
    decode_all-serialize xs rest others,
  )

-- An object whose strings have lengths that a `size_t` can say is read back, given its shape, from the
-- front of what `serialize` writes for it.
pub decode-serialize :
    (x : Object) (rest : List ℕ)
    → IsSized x
    → decode (shape_of x) (serialize x [] ++ rest) ≡ some (x, rest)
decode-serialize x rest sized = reads_back x rest sized
