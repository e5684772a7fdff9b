-- ===== src/IoEngine.antt =====
-- include/novaio/io_context.hpp, include/novaio/io_engine.hpp and src/io_engine.cpp: operations in
-- flight and their completions. What liburing and the kernel do with a submission is not modelled: a
-- completion is any record that `poll` reads.
pub mod Tags
pub mod Completion
pub mod Buffers
pub mod Submit
pub mod BufRing
pub mod Init
pub mod Poll
mod Tests
use novaio.Prelude.{
  ℕ, suc, ◌+◌, ◌-◌, ◌*◌, ◌%◌, ◌^◌, bit_and, bit_or, Bool, true, false, not, ◌&&◌, Option, none,
  some, List, [], ◌∷◌, ◌==◌, if◌then◌else◌, ◌>>=◌,
}
use novaio.Handle.{Handle, null}
use novaio.Scheduler.{Scheduler, schedule}

abbrev pub Ptr : Type 0
Ptr = ℕ

abbrev pub tag_mask : ℕ
tag_mask = 7

abbrev pub tag_io : ℕ
tag_io = 0

abbrev pub tag_multi : ℕ
tag_multi = 1

abbrev pub tag_coro : ℕ
tag_coro = 2

abbrev pub tag_inbox : ℕ
tag_inbox = 3

-- A result is held as its 32-bit representation.
pub record IoContext : Type 0 where
  pub res : ℕ  -- int
  pub flags : ℕ  -- uint32_t
  pub coro : Handle
  pub cancelled : Bool

pub record IoResult : Type 0 where
  pub res : ℕ
  pub flags : ℕ

pub record Cqe : Type 0 where
  pub user_data : ℕ
  pub res : ℕ
  pub flags : ℕ

-- a thread's contexts, its scheduler, and its count of completions; `none` is no context, or one
-- that is deleted
pub record Thread : Type 0 where
  pub contexts : Ptr → Option IoContext
  pub scheduler : Scheduler
  pub io_events : ℕ

abbrev pub set_context : Ptr → Option IoContext → Thread → Thread
set_context p c t = record t { contexts = λ q. if q == p then c else t.contexts q }

abbrev pub tag_of : ℕ → ℕ
tag_of ud = bit_and ud tag_mask

-- `ud & ~TAG_MASK`
abbrev pub payload_of : ℕ → ℕ
payload_of ud = bit_and ud (2 ^ 64 - 1 - tag_mask)

-- The part of `accept_direct` and its kin that makes a context at the fresh address `p`, and the
-- user data of the submission.
unfoldable pub submit : Ptr → Thread → Thread × ℕ
submit p t = (
  set_context p (some (record { res = 0; flags = 0; coro = null; cancelled = false })) t,
  bit_or p tag_io,
)

-- The operations of `SafeIoAwaiter`, with `ctx_` as an argument; `none` is the use of a pointer to no
-- context.
unfoldable pub await_suspend : Handle → Ptr → Thread → Option Thread
await_suspend h ctx t = do
  c ← t.contexts ctx
  some (set_context ctx (some (record c { coro = h })) t)

unfoldable pub await_resume : Ptr → Thread → Option (IoResult × Thread)
await_resume ctx t = do
  c ← t.contexts ctx
  some (record { res = c.res; flags = c.flags }, set_context ctx none t)

-- the move constructor: the new owner of the context, and what it leaves
unfoldable pub move_construct : Ptr → Ptr × Ptr
move_construct ctx = (ctx, 0)

unfoldable pub destroy_awaiter : Ptr → Thread → Option Thread
destroy_awaiter ctx t =
    if ctx == 0
    then some t
    else (do c ← t.contexts ctx; some (set_context ctx (some (record c { cancelled = true })) t))

-- the branch of `poll` for `TAG_IO`
unfoldable pub complete_io : Ptr → Cqe → Thread → Option Thread
complete_io ctx cqe t = t.contexts ctx >>= λ c.
    if c.cancelled
    then some (set_context ctx none t)
    else (let t' = set_context ctx (some (record c { res = cqe.res; flags = cqe.flags })) t in
        if c.coro == null
        then some t'
        else some (record t' { scheduler = schedule c.coro t'.scheduler }))

-- What `poll` calls and the source does not fix: the `invoke` of a multishot operation, and the tasks
-- of the inbox.
module _ (invoke : Ptr → ℕ → ℕ → Thread → Thread) (process_inbox : Thread → Thread) where
  unfoldable pub handle_cqe : Cqe → Thread → Option Thread
  handle_cqe cqe t =
      let t = record t { io_events = (t.io_events + 1) % 2 ^ 64 } in
      let tag = tag_of cqe.user_data in
      let payload = payload_of cqe.user_data in
      if (tag == tag_io) && not (payload == 0)
      then complete_io payload cqe t
      else if (tag == tag_multi) && not (payload == 0)
      then some (invoke payload cqe.res cqe.flags t)
      else if tag == tag_coro
      then some (record t { scheduler = schedule payload t.scheduler })
      else if tag == tag_inbox
      then some (process_inbox t)
      else some t

  -- `poll` on a thread with a scheduler: the thread, and by how many the ring is advanced
  unfoldable pub poll : List Cqe → Thread → Option (Thread × ℕ)
  poll [] t = some (t, 0)
  poll (cqe ∷ cqes) t = do t ← handle_cqe cqe t; (t, advanced) ← poll cqes t; some (t, suc advanced)

-- `init`, up to the ring: `queue_init` is `io_uring_queue_init_params`, with the depth and whether the
-- advanced flags are set, on the state `K` of the kernel. It gives the error number, or 0.
module _ {ℓ} {K : Type ℓ} (queue_init : ℕ → Bool → K → ℕ × K) where
  -- the error so far, and whether the ring is ready
  unfoldable pub try_init_ring : ℕ → Bool → ℕ → K → Bool × ℕ × K
  try_init_ring depth advanced last_error k =
      let (err, k) = queue_init depth advanced k in
      if err == 0 then (true, last_error, k) else (false, err, k)

  unfoldable pub init_loop : List ℕ → ℕ → K → Bool × ℕ × K
  init_loop [] last_error k = (false, last_error, k)
  init_loop (depth ∷ depths) last_error k =
      let (ready, e1, k1) = try_init_ring depth true last_error k in
      let (ready', e2, k2) = try_init_ring depth false e1 k1 in
      let later = init_loop depths e2 k2 in
      if ready then (true, e1, k1) else if ready' then (true, e2, k2) else later

abbrev pub io_queue_depth : ℕ
io_queue_depth = 4096

abbrev pub queue_depths : List ℕ
queue_depths = io_queue_depth ∷ 1024 ∷ 256 ∷ []

abbrev pub buf_ring_size : ℕ
buf_ring_size = 2048

abbrev pub buf_block_size : ℕ
buf_block_size = 2048

unfoldable pub get_buffer : Ptr → ℕ → Ptr
get_buffer buffer_base buffer_id = buffer_base + buffer_id * buf_block_size
