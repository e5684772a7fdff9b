-- ===== src/Scheduler/Numa.antt =====
-- src/scheduler.cpp: `detect_numa_node_for_cpu`, on the names in a directory as lists of characters.
-- `from_chars` is the library's: the number at the front of a text, an
-- `int` as its 32-bit representation, and what follows it.
use novaio.Prelude.{
  ℕ, ◌≡◌, refl, Option, none, some, List, [], ◌∷◌, ◌++◌, ◌==◌, if◌then◌else◌, ◌>>=◌, ==_self, All,
}

abbrev pub Text : Type 0
Text = List ℕ

-- "node"
abbrev pub prefix : Text
prefix = 110 ∷ 111 ∷ 100 ∷ 101 ∷ []

-- what follows `p` in a text that starts with it
unfoldable pub strip : Text → Text → Option Text
strip [] s = some s
strip (c ∷ p) [] = none
strip (c ∷ p) (d ∷ s) = let rest = strip p s in if c == d then rest else none

module _ (from_chars : Text → Option (ℕ × Text)) where
  -- the node that a whole suffix says
  abbrev pub whole : Option (ℕ × Text) → Option ℕ
  whole none = none
  whole (some (node, [])) = some node
  whole (some (node, c ∷ s)) = none

  abbrev pub node_of : Text → Option ℕ
  node_of name = strip prefix name >>= λ suffix. whole (from_chars suffix)

  -- `none` is -1
  unfoldable pub detect_numa_node : List Text → Option ℕ
  detect_numa_node [] = none
  detect_numa_node (name ∷ entries) =
      let rest = detect_numa_node entries in
      elim (node_of name) [ some node ↦ some node | none ↦ rest ]

  strip-append : (p s : Text) → strip p (p ++ s) ≡ some s
  unfolding strip
  strip-append [] s = refl
  strip-append (c ∷ p) s = rw (strip-append p s, ==_self c) refl

  -- An entry "node" with a number is found, if no entry before it names a node.
  pub detect_numa_node-first :
      (before after : List Text) (suffix : Text) (node : ℕ)
      → All (λ name. node_of name ≡ none) before
      → from_chars suffix ≡ some (node, [])
      → detect_numa_node (before ++ (prefix ++ suffix) ∷ after) ≡ some node
  unfolding detect_numa_node
  detect_numa_node-first [] after suffix node others reads =
      rw (detect_numa_node, strip-append prefix suffix, reads) refl
  detect_numa_node-first (name ∷ before) after suffix node (other, others) reads =
      rw (detect_numa_node, other) (detect_numa_node-first before after suffix node others reads)
