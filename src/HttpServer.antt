-- ===== src/HttpServer.antt =====
-- examples/http_server.cpp: a coroutine for each connection, and the listeners. A coroutine is the
-- place where it is suspended; to resume it with the result that it awaits gives its calls of the
-- engine up to the next suspension. Sockets, the environment and the text of the response are the
-- system's: here a response is its number of bytes.
pub mod Session
pub mod Listeners
pub mod Sockets
pub mod Multirecv
mod Tests
use novaio.Prelude.{
  ℕ, zero, suc, ◌+◌, ◌-◌, ◌/◌, ◌%◌, ◌^◌, min, max, bit_and, Bool, not, ◌&&◌, Option, none, some,
  List, [], ◌∷◌, ◌++◌, ltb, leb, ◌==◌, if◌then◌else◌,
}
use novaio.IoEngine.{IoResult, Ptr}
use novaio.IoEngine.Submit.{Sqe, accept_multishot}
use novaio.Runtime.{Core, dispatch_on}

-- the calls of the engine, with the direct descriptor
pub data Call : Type 0 where
  returns_buffer receives closes : ℕ → Call
  sends : ℕ → ℕ → Call

-- Where `handle_client` is suspended: at one of its `co_await`s, or it is done.
pub data Client : Type 0 where
  receiving sending closing done : Client

abbrev pub cqe_f_buffer : ℕ
cqe_f_buffer = 1

-- "HTTP/1.1 200 OK\r\nContent-Type: text/plain\r\nContent-Length: 13\r\nConnection: keep-alive\r\n\r\n"
-- and "Hello NovaIO!"
abbrev pub http_response_size : ℕ
http_response_size = 89 + 13

-- the sign of an `int` that is held as its 32-bit representation
abbrev pub is_negative : ℕ → Bool
is_negative res = leb (2 ^ 31) res

abbrev pub is_positive : ℕ → Bool
is_positive res = ltb 0 res && ltb res (2 ^ 31)

-- the buffer of a completion with these flags, if it has one, given back
abbrev pub give_back : ℕ → List Call
give_back flags =
    if bit_and flags cqe_f_buffer == 0 then [] else returns_buffer (flags / 2 ^ 16 % 2 ^ 16) ∷ []

-- `handle_client` from its begin to its first `co_await`, by whether the thread has a scheduler
unfoldable pub begin_client : Bool → ℕ → List Call × Client
begin_client scheduler direct_fd =
    if scheduler then (receives direct_fd ∷ [], receiving) else ([], done)

-- `handle_client` from one suspension to the next
unfoldable pub resume_client : ℕ → IoResult → Client → List Call × Client
resume_client direct_fd result receiving =
    if is_positive result.res
    then (give_back result.flags ++ sends direct_fd http_response_size ∷ [], sending)
    else (give_back result.flags ++ closes direct_fd ∷ [], closing)
resume_client direct_fd send_result sending =
    if is_negative send_result.res
    then (closes direct_fd ∷ [], closing)
    else (receives direct_fd ∷ [], receiving)
resume_client direct_fd result closing = ([], done)
resume_client direct_fd result done = ([], done)

-- `handle_client`, resumed with one result after the other
unfoldable pub handle_client : ℕ → List IoResult → Client → List Call × Client
handle_client direct_fd [] c = ([], c)
handle_client direct_fd (result ∷ results) c =
    let (calls, c) = resume_client direct_fd result c in
    let (later, c) = handle_client direct_fd results c in (calls ++ later, c)

-- `handle_client` from its begin
unfoldable pub run_client : Bool → ℕ → List IoResult → List Call × Client
run_client scheduler direct_fd results =
    let (calls, c) = begin_client scheduler direct_fd in
    let (later, c) = handle_client direct_fd results c in (calls ++ later, c)

-- What `on_accept_callback` does: it schedules `handle_client` for the new connection, prints the
-- error, or does nothing.
pub data Accepted : Type 0 where
  schedules reports : ℕ → Accepted
  ignores : Accepted

module _ (eagain eintr : ℕ) where
  unfoldable pub on_accept_callback : ℕ → Accepted
  on_accept_callback res =
      if not (is_negative res)
      then schedules res
      else if not (res == 2 ^ 32 - eagain) && not (res == 2 ^ 32 - eintr)
      then reports res
      else ignores

-- `start_multishot_server`, by the result of `bind`: without an address it submits nothing.
unfoldable pub start_multishot_server : ℕ → Bool → ℕ → Ptr → Option (Option Sqe)
start_multishot_server bound granted server_fd acceptor =
    if is_negative bound then none else some (accept_multishot granted server_fd acceptor)

-- `getenv`, and `strtoul` to base 10, with the number of characters that it read
module _ {S : Type 0} (getenv : S → Option S) (strtoul : S → ℕ × ℕ) where
  -- what `env_size_or` makes of the variable's value, or of its absence
  unfoldable pub size_or : Option S → ℕ → ℕ
  size_or none fallback = fallback
  size_or (some value) fallback =
      let (parsed, end) = strtoul value in
      if not (end == 0) && ltb 0 parsed then parsed else fallback

  unfoldable pub env_size_or : S → ℕ → ℕ
  env_size_or name fallback = size_or (getenv name) fallback

  -- the cores and the listeners of `main`
  unfoldable pub main_sizes : S → S → ℕ → ℕ × ℕ
  main_sizes novaio_cores novaio_listeners hardware_concurrency =
      let cores = env_size_or novaio_cores (max 1 hardware_concurrency) in
      (cores, min (env_size_or novaio_listeners cores) cores)

-- The loop of `main`, from core `i` with `n` to go: the cores, and the rings that are notified.
unfoldable pub dispatch_loop :
    {T : Type 0} → T → ℕ → ℕ → List (Core T) → List (Core T) × List (Option ℕ)
dispatch_loop task zero i cores = (cores, [])
dispatch_loop task (suc n) i cores =
    let (cores, ring) = dispatch_on i task cores in
    let (cores, rings) = dispatch_loop task n (i + 1) cores in (cores, ring ∷ rings)
