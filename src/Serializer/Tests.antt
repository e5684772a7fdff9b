-- ===== src/Serializer/Tests.antt =====
-- include/novaio/serializer.hpp: a run of `serialize`, and its theorem at that input.
use novaio.Prelude.{◌≡◌, refl, some, [], ◌∷◌, ◌++◌, arith}
use novaio.Serializer.{Object, Objects, size_bytes, append_bytes, serialize}
use novaio.Serializer.RoundTrip.{IsSized, shape_of, decode, decode-serialize}

-- a class of a 32-bit 7 and the string "ab"
abbrev point : Object
point = Object.class_of (
    Objects.cons (Object.arithmetic (7 ∷ 0 ∷ 0 ∷ 0 ∷ []))
      (Objects.cons (Object.string (97 ∷ 98 ∷ [])) Objects.nil))

point_bytes : serialize point [] ≡ 7 ∷ 0 ∷ 0 ∷ 0 ∷ 2 ∷ 0 ∷ 0 ∷ 0 ∷ 0 ∷ 0 ∷ 0 ∷ 0 ∷ 97 ∷ 98 ∷ []
unfolding serialize append_bytes size_bytes
point_bytes = refl

point-IsSized : IsSized point
unfolding IsSized
point-IsSized = (tt, (omega arith, tt))

decode-serialize_example :
    decode (shape_of point) (serialize point [] ++ 5 ∷ []) ≡ some (point, 5 ∷ [])
decode-serialize_example = decode-serialize point (5 ∷ []) point-IsSized
