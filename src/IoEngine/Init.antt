-- ===== src/IoEngine/Init.antt =====
-- src/io_engine.cpp: the whole of `init`, and what the destructor releases after it.
use novaio.Prelude.{
  ℕ, ◌≡◌, refl, ◌≢◌, ◌↔◌, inl, inr, Bool, true, false, not, Option, none, some, List, [], ◌∷◌,
  arith, ◌==◌, if◌then◌else◌, Bool-cases,
}
use novaio.IoEngine.{Ptr, init_loop, queue_depths}
use novaio.IoEngine.Buffers.{Tries, init_loop-Tries}
use novaio.IoEngine.BufRing.{Freed, free_buf_ring, mi_free_aligned, queue_exit, destroy}

-- the members of an engine, without the ring's own state
pub record Engine : Type 0 where
  pub initialized : Bool
  pub br : Bool  -- not null
  pub buffer_base : Ptr

abbrev pub new_engine : Engine
new_engine = record { initialized = false; br = false; buffer_base = 0 }

abbrev pub max_direct_fds : ℕ
max_direct_fds = 65536

-- how `init` ends: it returns, or throws `std::system_error` with a number, or `std::bad_alloc`
pub data Outcome : Type 0 where
  returns : Outcome
  system_error : ℕ → Outcome
  bad_alloc : Outcome

-- the end of `init`, with what `setup_provided_buffer_ring` does
abbrev pub finish : {K : Type 0} → Outcome → Engine → K → Outcome × Engine × K
finish returns e k = (returns, record e { initialized = true }, k)
finish o e k = (o, e, k)

-- the descriptor of the ring, where liburing has it as `fd`; `none` is -1
unfoldable pub ring_fd : ℕ → Engine → Option ℕ
ring_fd fd e = if e.initialized then some fd else none

-- what the destructor releases
abbrev pub destroyed : Engine → List Freed
destroyed e = destroy e.initialized e.br (not (e.buffer_base == 0))

-- The calls of `init`, on the state `K` of the kernel: `io_uring_queue_init_params` as for `init_loop`;
-- `io_uring_register_files_sparse` with the number of files and `io_uring_setup_buf_ring`, which give the
-- error number or 0; and `mi_malloc_aligned`, which gives an address or 0.
module _ {K : Type 0} (queue_init : ℕ → Bool → K → ℕ × K) (register_files : ℕ → K → ℕ × K)
    (setup_buf_ring : K → ℕ × K) (malloc_aligned : K → Ptr × K) where
  -- `setup_provided_buffer_ring`, up to the buffers that it adds
  unfoldable pub allocate_buffers : K → Outcome × Engine × K
  allocate_buffers k =
      let (err, k) = setup_buf_ring k in
      let (base, k') = malloc_aligned k in
      if not (err == 0)
      then (system_error err, new_engine, k)
      else if base == 0
      then (bad_alloc, record new_engine { br = true }, k')
      else (returns, record new_engine { br = true; buffer_base = base }, k')

  -- `init` from the test of `ring_ready` on
  unfoldable pub use_ring : Bool × ℕ × K → Outcome × Engine × K
  use_ring (false, last_error, k) = (system_error last_error, new_engine, k)
  use_ring (true, last_error, k) =
      let (err, k') = register_files max_direct_fds k in
      let (outcome, e, k'') = allocate_buffers k' in
      if err == 0 then finish outcome e k'' else (system_error err, new_engine, k')

  unfoldable pub init : K → Outcome × Engine × K
  init k = use_ring (init_loop queue_init queue_depths 0 k)

  -- The destructor after `init`, whose third case is a ring that stays open: `init` has thrown after
  -- `io_uring_queue_init_params` succeeded, and the destructor does nothing.
  pub data InitEnds (k : K) : Outcome × Engine × K → Type 0 where
    ready_for_use :
        (last_error : ℕ) (k1 k' : K) (e : Engine)
        → Tries queue_init queue_depths 0 k (true, last_error, k1)
        → destroyed e ≡ free_buf_ring ∷ mi_free_aligned ∷ queue_exit ∷ []
        → InitEnds k (returns, e, k')
    without_ring :
        (last_error : ℕ) (k' : K)
        → Tries queue_init queue_depths 0 k (false, last_error, k')
        → InitEnds k (system_error last_error, new_engine, k')
    ring_left_open :
        (last_error : ℕ) (k1 k' : K) (o : Outcome) (e : Engine)
        → Tries queue_init queue_depths 0 k (true, last_error, k1)
        → o ≢ returns
        → destroyed e ≡ []
        → InitEnds k (o, e, k')

  system_error-returns : (err : ℕ) → system_error err ≢ returns
  system_error-returns err e = cc

  use_ring-InitEnds :
      (k : K) (r : Bool × ℕ × K) → Tries queue_init queue_depths 0 k r → InitEnds k (use_ring r)
  unfolding use_ring allocate_buffers destroy
  use_ring-InitEnds k (false, last_error, k1) t = without_ring last_error k1 t
  use_ring-InitEnds k (true, last_error, k1) t =
      elim (Bool-cases ((register_files max_direct_fds k1).0 == 0)) [
        | inr e ↦ rw e (ring_left_open last_error k1 _ _ _ t (system_error-returns _) refl)
        | inl e ↦
            let k2 : K = (register_files max_direct_fds k1).1 in
            rw e (elim (Bool-cases ((setup_buf_ring k2).0 == 0)) [
              | inr f ↦ rw f (ring_left_open last_error k1 _ _ _ t (system_error-returns _) refl)
              | inl f ↦ rw f (elim (Bool-cases ((malloc_aligned (setup_buf_ring k2).1).0 == 0)) [
                | inl g ↦ rw g (ring_left_open last_error k1 _ _ _ t (λ z. cc) refl)
                | inr g ↦ rw g (ready_for_use last_error k1 _ _ t (rw g refl))
              ])
            ])
      ]

  -- `init` ends in one of three ways. Some attempt gives a ring, and it returns: then the destructor
  -- releases the ring of buffers, their memory, and the ring. Every attempt fails, and it throws the
  -- last error. Or some attempt gives a ring, and it throws: then the destructor releases nothing.
  pub init-InitEnds : (k : K) → InitEnds k (init k)
  unfolding init
  init-InitEnds k =
      use_ring-InitEnds k (init_loop queue_init queue_depths 0 k)
        (init_loop-Tries queue_init queue_depths 0 k)

  -- Other threads can send to the ring exactly if `init` has returned.
  init-ring_fd : (fd : ℕ) (k : K) → (ring_fd fd (init k).1 ≡ some fd) ↔ ((init k).0 ≡ returns)
  unfolding ring_fd destroy
  init-ring_fd fd k =
      elim (init-InitEnds k) as (λ r. λ _. (ring_fd fd r.1 ≡ some fd) ↔ (r.0 ≡ returns)) [
        | ready_for_use last_error k1 k' e tries freed ↦ elim (Bool-cases e.initialized) [
          | inl on ↦ (λ z. refl, λ z. rw on refl)
          | inr off ↦ ground arith
        ]
        | without_ring last_error k' tries ↦ (λ z. cc, λ z. cc)
        | ring_left_open last_error k1 k' o e tries threw freed ↦ elim (Bool-cases e.initialized) [
          | inl on ↦ ground arith
          | inr off ↦ (λ z. ground arith, λ z. absurd (threw z))
        ]
      ]
