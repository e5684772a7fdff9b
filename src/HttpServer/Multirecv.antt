-- ===== src/HttpServer/Multirecv.antt =====
-- examples/http_server_multirecv.cpp: callbacks for each completion of a receive, which schedule
-- coroutines that answer. The handlers give what they call and schedule, in order.
pub mod Answers
pub mod Sends
use novaio.Prelude.{
  ℕ, ◌+◌, ◌-◌, ◌/◌, ◌%◌, ◌^◌, bit_and, Bool, not, ◌&&◌, Option, none, some, List, [], ◌∷◌, ◌++◌,
  ltb, ◌==◌, if◌then◌else◌,
}
use novaio.IoEngine.{IoResult, Ptr}
use novaio.IoEngine.Submit.{Sqe, accept_multishot}
use novaio.Runtime.{Core}
use novaio.HttpServer.{
  Call, dispatch_loop, sends, cqe_f_buffer, http_response_size, is_negative, is_positive,
}

-- Where `handle_business_logic` is suspended: in the send of the given number, from 0, or it is done.
pub data Logic : Type 0 where
  sending_at : ℕ → Logic
  finished : Logic

-- the test of its loop; `send_count` is an `int`
abbrev pub next_send : ℕ → ℕ → ℕ → List Call × Logic
next_send direct_fd send_count i =
    if not (is_negative send_count) && ltb i send_count
    then (sends direct_fd http_response_size ∷ [], sending_at i)
    else ([], finished)

unfoldable pub begin_logic : Bool → ℕ → ℕ → List Call × Logic
begin_logic scheduler direct_fd send_count =
    if scheduler then next_send direct_fd send_count 0 else ([], finished)

unfoldable pub resume_logic : ℕ → ℕ → IoResult → Logic → List Call × Logic
resume_logic direct_fd send_count result (sending_at i) =
    if is_positive result.res then next_send direct_fd send_count (i + 1) else ([], finished)
resume_logic direct_fd send_count result finished = ([], finished)

-- `handle_business_logic`, resumed with one result after the other
unfoldable pub handle_business_logic : ℕ → ℕ → List IoResult → Logic → List Call × Logic
handle_business_logic direct_fd send_count [] l = ([], l)
handle_business_logic direct_fd send_count (result ∷ results) l =
    let (calls, l) = resume_logic direct_fd send_count result l in
    let (later, l) = handle_business_logic direct_fd send_count results l in (calls ++ later, l)

pub record Connection : Type 0 where
  pub fd : ℕ  -- int
  pub counter : ℕ  -- int

-- `g_connections`, by the direct descriptor
abbrev pub Connections : Type 0
Connections = ℕ → Connection

unfoldable pub g_connections : Connections
g_connections i = record { fd = 2 ^ 32 - 1; counter = 0 }

-- What the callbacks do besides: a buffer goes back, `close_direct` or `handle_business_logic` is
-- scheduled, or a receive is submitted.
pub data Effect : Type 0 where
  gives_buffer closes_later receives_more : ℕ → Effect
  answers_later : ℕ → ℕ → Effect

abbrev pub set_connection : ℕ → Connection → Connections → Connections
set_connection self c conns = λ i. if i == self then c else conns i

abbrev pub has : ℕ → ℕ → Bool
has flag flags = not (bit_and flags flag == 0)

abbrev pub buffer_of : ℕ → ℕ
buffer_of flags = flags / 2 ^ 16 % 2 ^ 16

-- `IORING_CQE_F_MORE` of the kernel: a receive goes on after its completion
module _ (cqe_f_more : ℕ) where
  unfoldable pub on_client_recv : ℕ → IoResult → Connections → List Effect × Connections
  on_client_recv self cqe conns =
      let conn = conns self in
      let back =
        if has cqe_f_buffer cqe.flags then gives_buffer (buffer_of cqe.flags) ∷ [] else [] in
      let counted = record conn { counter = (conn.counter + 1) % 2 ^ 32 } in
      if is_positive cqe.res
      then (
        back
            ++ answers_later conn.fd counted.counter
              ∷ (if has cqe_f_more cqe.flags then [] else receives_more conn.fd ∷ []),
        set_connection self counted conns,
      )
      else (back ++ closes_later conn.fd ∷ [], conns)

  -- the callbacks for a sequence of completions on one connection
  unfoldable pub on_client_recvs : ℕ → List IoResult → Connections → List Effect × Connections
  on_client_recvs self [] conns = ([], conns)
  on_client_recvs self (cqe ∷ cqes) conns =
      let (effects, conns) = on_client_recv self cqe conns in
      let (later, conns) = on_client_recvs self cqes conns in (effects ++ later, conns)

unfoldable pub on_client_accept : ℕ → Connections → List Effect × Connections
on_client_accept res conns =
    if is_negative res
    then ([], conns)
    else (receives_more res ∷ [], set_connection res (record { fd = res; counter = 0 }) conns)

-- `start_server`, by the result of `bind`: without an address it submits nothing.
unfoldable pub start_server : ℕ → Bool → ℕ → Ptr → Option (Option Sqe)
start_server bound granted server_fd acceptor =
    if is_negative bound then none else some (accept_multishot granted server_fd acceptor)

-- the loop of `main`, on the cores that are started: the cores, and the rings that are notified
unfoldable pub dispatch_eight : {T : Type 0} → T → List (Core T) → List (Core T) × List (Option ℕ)
dispatch_eight task cores = dispatch_loop task 8 0 cores
