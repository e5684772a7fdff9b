-- ===== src/Serializer.antt =====
-- include/novaio/serializer.hpp: values written into a byte buffer. `tie()` of a class is a parameter
-- in the source; here an object is the value that `serialize` walks over.
pub mod RoundTrip
mod Tests
use novaio.Prelude.{ℕ, zero, suc, ◌/◌, ◌%◌, List, [], ◌∷◌, ◌++◌, length}

-- The three cases of `serialize`: an arithmetic value, as its object representation; a string, as
-- its bytes; and a class, as the tuple that its `tie()` returns.
mutual
  pub data Object : Type 0 where
    arithmetic : List ℕ → Object
    string : List ℕ → Object
    class_of : Objects → Object

  pub data Objects : Type 0 where
    nil : Objects
    cons : Object → Objects → Objects

-- `append_bytes(buffer, value)`, with the object representation of `value`
unfoldable pub append_bytes : List ℕ → List ℕ → List ℕ
append_bytes buffer value = buffer ++ value

-- the representation of a `size_t` on the x86-64 that the project builds for: low byte first
abbrev pub little_endian : ℕ → ℕ → List ℕ
little_endian zero n = []
little_endian (suc k) n = (n % 256) ∷ little_endian k (n / 256)

unfoldable pub size_bytes : ℕ → List ℕ
size_bytes n = little_endian 8 n

unfoldable mutual
  pub serialize : Object → List ℕ → List ℕ
  serialize (arithmetic bytes) buffer = append_bytes buffer bytes
  serialize (string s) buffer = append_bytes buffer (size_bytes (length s)) ++ s
  serialize (class_of xs) buffer = serialize_tuple_impl xs buffer

  -- the fold over the tuple's elements
  pub serialize_tuple_impl : Objects → List ℕ → List ℕ
  serialize_tuple_impl nil buffer = buffer
  serialize_tuple_impl (cons x xs) buffer = serialize_tuple_impl xs (serialize x buffer)
