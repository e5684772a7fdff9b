-- ===== src/IoEngine/Submit.antt =====
-- src/io_engine.cpp: what the submissions of the engine say. liburing fills in an entry; here an entry
-- is the call that fills it in, with the fields that the source sets itself. `granted` says whether the
-- submission queue had an entry to give; without one most of the functions write to a null pointer,
-- which is `none`.
use novaio.Prelude.{
  ℕ, ◌%◌, ◌^◌, ◌<◌, bit_or, ◌≡◌, Bool, true, false, ◌||◌, Option, none, some, arith, if◌then◌else◌,
  ◌>>=◌,
}
use novaio.IoEngine.{Ptr, Thread, submit, tag_of, payload_of, tag_io, tag_multi, buf_block_size}
use novaio.IoEngine.Tags.{untag-bit_or}

pub data Prep : Type 0 where
  multishot_accept recv_multishot accept_direct close_direct : ℕ → Prep
  recv : ℕ → ℕ → Prep
  send : ℕ → Ptr → ℕ → Prep
  msg_ring : ℕ → ℕ → Prep

pub record Sqe : Type 0 where
  pub prep : Prep
  pub alloc_file : Bool  -- `IORING_FILE_INDEX_ALLOC`
  pub buffer_select : Bool  -- `IOSQE_BUFFER_SELECT`
  pub fixed_file : Bool  -- `IOSQE_FIXED_FILE`
  pub buf_group : ℕ
  pub user_data : ℕ

abbrev pub buf_bgid : ℕ
buf_bgid = 1

abbrev plain : Prep → Sqe
plain p = record {
  prep = p;
  alloc_file = false;
  buffer_select = false;
  fixed_file = false;
  buf_group = 0;
  user_data = 0;
}

abbrev pub use_sqe : Bool → Sqe → Option Sqe
use_sqe granted sqe = if granted then some sqe else none

unfoldable pub accept_multishot : Bool → ℕ → Ptr → Option Sqe
accept_multishot granted server_fd op =
    use_sqe granted (record (plain (multishot_accept server_fd)) {
      alloc_file = true;
      user_data = bit_or op tag_multi;
    })

unfoldable pub recv_multishot_op : Bool → ℕ → Ptr → Option Sqe
recv_multishot_op granted direct_fd op =
    use_sqe granted (record (plain (recv_multishot direct_fd)) {
      buffer_select = true;
      fixed_file = true;
      buf_group = buf_bgid;
      user_data = bit_or op tag_multi;
    })

-- the functions that return a `SafeIoAwaiter`, whose context is made at `ctx`
unfoldable pub accept_direct_op : Bool → ℕ → Ptr → Thread → Option (Sqe × Thread)
accept_direct_op granted server_fd ctx t =
    use_sqe granted
      (record (plain (accept_direct server_fd)) { alloc_file = true; user_data = (submit ctx t).1 })
    >>= λ sqe. some (sqe, (submit ctx t).0)

unfoldable pub recv_direct_op : Bool → ℕ → Ptr → Thread → Option (Sqe × Thread)
recv_direct_op granted direct_fd ctx t =
    use_sqe granted (record (plain (recv direct_fd buf_block_size)) {
      buffer_select = true;
      fixed_file = true;
      buf_group = buf_bgid;
      user_data = (submit ctx t).1;
    })
    >>= λ sqe. some (sqe, (submit ctx t).0)

unfoldable pub send_direct_op : Bool → ℕ → Ptr → ℕ → Ptr → Thread → Option (Sqe × Thread)
send_direct_op granted direct_fd buf len ctx t =
    use_sqe granted
      (record (plain (send direct_fd buf len)) { fixed_file = true; user_data = (submit ctx t).1 })
    >>= λ sqe. some (sqe, (submit ctx t).0)

unfoldable pub close_direct_op : Bool → ℕ → Ptr → Thread → Option (Sqe × Thread)
close_direct_op granted direct_fd ctx t =
    use_sqe granted (record (plain (close_direct direct_fd)) { user_data = (submit ctx t).1 })
    >>= λ sqe. some (sqe, (submit ctx t).0)

-- a second attempt follows a submission of the queue
unfoldable pub send_msg_ring : Bool → Bool → ℕ → ℕ → Option Sqe
send_msg_ring granted granted_again target_ring_fd msg =
    use_sqe (granted || granted_again) (plain (msg_ring target_ring_fd msg))

-- the entry's completion is that of the operation whose object is at `p`, under `tag`
abbrev pub Names : Ptr → ℕ → Option Sqe → Type 0
Names p tag none = ⊥
Names p tag (some sqe) = (tag_of sqe.user_data ≡ tag) × (payload_of sqe.user_data ≡ p)

abbrev pub entry : Option (Sqe × Thread) → Option Sqe
entry r = r >>= λ s. some s.0

-- Given an entry, each submission names the object that waits for its completion, if that lies on 8
-- bytes: the multishot operation, or the context.
pub submissions-Names :
    (p fd len : ℕ) (buf : Ptr) (t : Thread)
    → p < 2 ^ 64
    → p % 8 ≡ 0
    → Names p tag_multi (accept_multishot true fd p)
      × Names p tag_multi (recv_multishot_op true fd p)
      × Names p tag_io (entry (accept_direct_op true fd p t))
      × Names p tag_io (entry (recv_direct_op true fd p t))
      × Names p tag_io (entry (send_direct_op true fd buf len p t))
      × Names p tag_io (entry (close_direct_op true fd p t))
unfolding accept_multishot recv_multishot_op accept_direct_op recv_direct_op send_direct_op
    close_direct_op submit
submissions-Names p fd len buf t l aligned =
    let multi = untag-bit_or p tag_multi l aligned (omega arith) in
    let io = untag-bit_or p tag_io l aligned (omega arith) in (multi, multi, io, io, io, io)
