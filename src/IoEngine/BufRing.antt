-- ===== src/IoEngine/BufRing.antt =====
-- src/io_engine.cpp: the ring of provided buffers, and the end of an engine. The ring is liburing's:
-- its state `R` and its operations are parameters.
use novaio.Prelude.{ℕ, zero, suc, ◌+◌, ◌-◌, ◌*◌, Bool, not, List, [], ◌∷◌, ◌++◌, if◌then◌else◌}
use novaio.IoEngine.{Ptr, get_buffer, buf_ring_size, buf_block_size}

-- an `io_uring_buf` as it is added: the address, the length, and the buffer's number
pub record Buf : Type 0 where
  pub addr : Ptr
  pub len : ℕ
  pub bid : ℕ

-- `ring_add` is `io_uring_buf_ring_add` with its mask and offset, `ring_advance` is
-- `io_uring_buf_ring_advance`, and `ring_tail` reads `br_->tail`.
module _ {R : Type 0} (ring_add : Buf → ℕ → ℕ → R → R) (ring_advance : ℕ → R → R)
    (ring_tail : R → ℕ) where
  unfoldable pub add_buffers : ℕ → ℕ → Ptr → R → R
  add_buffers zero i buffer_base r = r
  add_buffers (suc n) i buffer_base r = add_buffers n (i + 1) buffer_base (
      ring_add (record { addr = buffer_base + i * buf_block_size; len = buf_block_size; bid = i })
        (buf_ring_size - 1) i r)

  -- `setup_provided_buffer_ring`, once its two allocations have succeeded
  unfoldable pub setup_provided_buffer_ring : Ptr → R → R
  setup_provided_buffer_ring buffer_base r =
      ring_advance buf_ring_size (add_buffers buf_ring_size 0 buffer_base r)

  unfoldable pub return_buffer : Ptr → ℕ → R → R
  return_buffer buffer_base buffer_id r = ring_advance 1 (
      ring_add
        (record { addr = get_buffer buffer_base buffer_id; len = buf_block_size; bid = buffer_id })
        (buf_ring_size - 1) (ring_tail r) r)

-- the calls of the destructor
pub data Freed : Type 0 where
  free_buf_ring mi_free_aligned queue_exit : Freed

-- `~IoEngine`, by whether it is initialized, has a ring of buffers, and has their memory
unfoldable pub destroy : Bool → Bool → Bool → List Freed
destroy initialized br buffer_base =
    if not initialized
    then []
    else (if br then free_buf_ring ∷ [] else [])
      ++ (if buffer_base then mi_free_aligned ∷ [] else [])
      ++ queue_exit ∷ []
