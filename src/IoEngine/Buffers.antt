-- ===== src/IoEngine/Buffers.antt =====
-- src/io_engine.cpp: the blocks of `get_buffer`, and the attempts of `init`.
use novaio.Prelude.{
  ℕ, ◌+◌, ◌*◌, ◌≤◌, ◌<◌, ◌≡◌, refl, ◌≢◌, ◌⊎◌, inl, inr, Bool, true, false, List, [], ◌∷◌, arith,
  ◌==◌, eq_of_==, ne_of_==, Bool-cases,
}
use novaio.IoEngine.{get_buffer, buf_ring_size, buf_block_size, try_init_ring, init_loop}

-- The blocks of two buffers of the ring lie within the allocation, one after the other: they share no
-- byte.
pub get_buffer-disjoint :
    (buffer_base i j : ℕ)
    → i < j
    → j < buf_ring_size
    → (buffer_base ≤ get_buffer buffer_base i)
      × (get_buffer buffer_base i + buf_block_size ≤ get_buffer buffer_base j)
      × (get_buffer buffer_base j + buf_block_size ≤ buffer_base + buf_ring_size * buf_block_size)
unfolding get_buffer
get_buffer-disjoint buffer_base i j before bound = (omega arith, omega arith, omega arith)

-- the attempts in their order
abbrev pub attempts : List ℕ → List (ℕ × Bool)
attempts [] = []
attempts (depth ∷ depths) = (depth, true) ∷ (depth, false) ∷ attempts depths

module _ {K : Type 0} (queue_init : ℕ → Bool → K → ℕ × K) where
  -- From `k` every attempt fails, the last with the error `e`; `e` is the given one if there are none.
  abbrev pub AllFail : List (ℕ × Bool) → ℕ → K → ℕ → K → Type 0
  AllFail [] last_error k e k' = (last_error ≡ e) × (k ≡ k')
  AllFail ((depth, advanced) ∷ rest) last_error k e k' =
      ((queue_init depth advanced k).0 ≢ 0)
      × AllFail rest (queue_init depth advanced k).0 (queue_init depth advanced k).1 e k'

  -- Some attempt succeeds, those before it fail, and `k'` is what it leaves.
  abbrev pub SomeSucceeds : List (ℕ × Bool) → K → K → Type 0
  SomeSucceeds [] k k' = ⊥
  SomeSucceeds ((depth, advanced) ∷ rest) k k' =
      (((queue_init depth advanced k).0 ≡ 0) × ((queue_init depth advanced k).1 ≡ k'))
      ⊎ (((queue_init depth advanced k).0 ≢ 0)
          × SomeSucceeds rest (queue_init depth advanced k).1 k')

  abbrev pub Tries : List ℕ → ℕ → K → Bool × ℕ × K → Type 0
  Tries depths last_error k (true, e, k') = SomeSucceeds (attempts depths) k k'
  Tries depths last_error k (false, e, k') = AllFail (attempts depths) last_error k e k'

  Tries-later :
      (depth : ℕ) (depths : List ℕ) (last_error : ℕ) (k : K) (r : Bool × ℕ × K)
      → (queue_init depth true k).0 ≢ 0
      → (queue_init depth false (queue_init depth true k).1).0 ≢ 0
      → Tries depths
          (queue_init depth false (queue_init depth true k).1).0
          (queue_init depth false (queue_init depth true k).1).1
          r
      → Tries (depth ∷ depths) last_error k r
  Tries-later depth depths last_error k (true, e, k') bad bad' tries = inr (bad, inr (bad', tries))
  Tries-later depth depths last_error k (false, e, k') bad bad' tries = (bad, (bad', tries))

  -- Each depth is tried with the advanced flags and then without, and the first success ends the
  -- attempts. The ring is not ready only when every attempt failed, and the error is the last one's.
  pub init_loop-Tries :
      (depths : List ℕ) (last_error : ℕ) (k : K)
      → Tries depths last_error k (init_loop queue_init depths last_error k)
  unfolding init_loop try_init_ring
  init_loop-Tries [] last_error k = (refl, refl)
  init_loop-Tries (depth ∷ depths) last_error k =
      elim (Bool-cases ((queue_init depth true k).0 == 0)) [
        | inl e ↦ rw e (inl (eq_of_== _ 0 e, refl))
        | inr ne ↦
            rw ne (elim (Bool-cases ((queue_init depth false (queue_init depth true k).1).0 == 0)) [
              | inl e ↦ rw e (inr (ne_of_== _ 0 ne, inl (eq_of_== _ 0 e, refl)))
              | inr ne' ↦ rw ne' (
                  Tries-later depth depths last_error k _ (ne_of_== _ 0 ne) (ne_of_== _ 0 ne')
                    (init_loop-Tries depths _ _))
            ])
      ]
