-- ===== src/HttpServer/Sockets.antt =====
-- examples/http_server.cpp and examples/http_server_multirecv.cpp: the whole of
-- `start_multishot_server` and `start_server`, with their calls of the system in order, and the way of a
-- new connection from the listening socket to its coroutine. What the calls give is an argument.
use novaio.Prelude.{
  ℕ, ◌%◌, ◌^◌, ◌<◌, ◌≡◌, refl, ◌∙◌, inl, inr, Bool, true, false, not, ◌&&◌, ◌||◌, Option, none,
  some, List, [], ◌∷◌, ◌++◌, ◌==◌, if◌then◌else◌, ==_self, Bool-cases,
}
use novaio.Handle.{Handle}
use novaio.IoEngine.{Ptr, Thread, handle_cqe}
use novaio.IoEngine.Submit.{Sqe, accept_multishot}
use novaio.IoEngine.Tags.{counted, handle_cqe-Dispatches}
use novaio.Scheduler.{schedule}
use novaio.HttpServer.{
  is_negative, Accepted, schedules, reports, ignores, on_accept_callback, start_multishot_server,
}
use novaio.HttpServer.Multirecv.{start_server}

pub data SocketOption : Type 0 where
  so_reuseaddr so_reuseport tcp_defer_accept : SocketOption

-- `sockaddr_in`, of the family `AF_INET` with the address `INADDR_ANY`
pub record SockaddrIn : Type 0 where
  pub sin_port : ℕ  -- in the order of the network

-- the calls of the system, with the descriptor first, and what is printed. `socket` and `listen` have
-- their result, which the program does not test, and `bind` has its own; a negative one is a failure.
pub data SocketCall : Type 0 where
  socket closes : ℕ → SocketCall
  sets : ℕ → SocketOption → ℕ → SocketCall
  binds : ℕ → SockaddrIn → ℕ → SocketCall
  listens : ℕ → ℕ → ℕ → SocketCall
  prints_error : SocketCall
  prints_port : ℕ → SocketCall

-- the backlogs of the two servers
abbrev pub backlog : ℕ
backlog = 32768

abbrev pub backlog_multirecv : ℕ
backlog_multirecv = 65535

module _ (htons : ℕ → ℕ) where
  -- the calls up to `bind`
  unfoldable pub open_socket : ℕ → ℕ → ℕ → List SocketCall
  open_socket server_fd bound port =
      socket server_fd
      ∷ sets server_fd so_reuseaddr 1
      ∷ sets server_fd so_reuseport 1
      ∷ sets server_fd tcp_defer_accept 1
      ∷ binds server_fd (record { sin_port = htons port }) bound
      ∷ []

  -- The whole of `start_multishot_server`, where `socket` gives `server_fd`, `bind` gives `bound`,
  -- `listen` gives `listened`, the ring may grant an entry, and the acceptor is made at `acceptor`: the calls, and the submission.
  unfoldable pub run_multishot_server :
      ℕ → ℕ → ℕ → Bool → Ptr → ℕ → List SocketCall × Option (Option Sqe)
  run_multishot_server server_fd bound listened granted acceptor port = (
    open_socket server_fd bound port
        ++ (if is_negative bound
            then prints_error ∷ []
            else listens server_fd backlog listened ∷ prints_port port ∷ []),
    start_multishot_server bound granted server_fd acceptor,
  )

  -- the whole of `start_server`
  unfoldable pub run_server : ℕ → ℕ → ℕ → Bool → Ptr → ℕ → List SocketCall × Option (Option Sqe)
  run_server server_fd bound listened granted acceptor port = (
    open_socket server_fd bound port
        ++ (if is_negative bound
            then prints_error ∷ []
            else listens server_fd backlog_multirecv listened ∷ []),
    start_server bound granted server_fd acceptor,
  )

abbrev pub without : ℕ → List ℕ → List ℕ
without fd [] = []
without fd (x ∷ fds) = if x == fd then fds else x ∷ without fd fds

-- the descriptors that are open after the calls
abbrev pub left_open : List ℕ → List SocketCall → List ℕ
left_open fds [] = fds
left_open fds (socket fd ∷ calls) = left_open (if is_negative fd then fds else fd ∷ fds) calls
left_open fds (closes fd ∷ calls) = left_open (without fd fds) calls
left_open fds (sets fd o v ∷ calls) = left_open fds calls
left_open fds (binds fd addr r ∷ calls) = left_open fds calls
left_open fds (listens fd n r ∷ calls) = left_open fds calls
left_open fds (prints_error ∷ calls) = left_open fds calls
left_open fds (prints_port port ∷ calls) = left_open fds calls

-- whether a descriptor that is bound comes to listen
abbrev pub is_listening : ℕ → Bool → List SocketCall → Bool
is_listening fd bound [] = false
is_listening fd bound (binds fd' addr r ∷ calls) =
    is_listening fd (bound || (not (is_negative r) && (fd' == fd))) calls
is_listening fd bound (listens fd' n r ∷ calls) =
    let later = is_listening fd bound calls in
    if bound && not (is_negative r) && (fd' == fd) then true else later
is_listening fd bound (socket fd' ∷ calls) = is_listening fd bound calls
is_listening fd bound (closes fd' ∷ calls) = is_listening fd bound calls
is_listening fd bound (sets fd' o v ∷ calls) = is_listening fd bound calls
is_listening fd bound (prints_error ∷ calls) = is_listening fd bound calls
is_listening fd bound (prints_port port ∷ calls) = is_listening fd bound calls

-- `frame` is the frame of `handle_client` for a descriptor, which the compiler allocates.
module _ (eagain eintr : ℕ) (frame : ℕ → Handle) where
  -- what `on_accept_callback` does to its thread
  unfoldable pub accepted : Accepted → Thread → Thread
  accepted (schedules fd) t = record t { scheduler = schedule (frame fd) t.scheduler }
  accepted (reports res) t = t
  accepted ignores t = t

  -- the callbacks of the multishot operations after `acceptor->invoke = on_accept_callback`
  unfoldable pub set_invoke : Ptr → (Ptr → ℕ → ℕ → Thread → Thread) → Ptr → ℕ → ℕ → Thread → Thread
  set_invoke acceptor invoke p res flags t =
      if p == acceptor
      then accepted (on_accept_callback eagain eintr res) t
      else invoke p res flags t

module _ (htons : ℕ → ℕ) (eagain eintr : ℕ) (frame : ℕ → Handle)
    (invoke : Ptr → ℕ → ℕ → Thread → Thread) (process_inbox : Thread → Thread) where
  -- how the server is left, by whether `socket`, `bind` and `listen` failed, and where then a
  -- connection with the descriptor `res` comes in on the thread `t`
  abbrev pub Listens :
      Bool → Bool → Bool → ℕ → Ptr → ℕ → ℕ → Thread → List SocketCall × Option (Option Sqe) → Type 0
  Listens no_socket true not_listening fd acceptor res flags t (calls, sqe) =
      (sqe ≡ none)
      × (left_open [] calls ≡ (if no_socket then [] else fd ∷ []))
      × (is_listening fd false calls ≡ false)
  Listens no_socket false not_listening fd acceptor res flags t (calls, sqe) =
      (left_open [] calls ≡ (if no_socket then [] else fd ∷ []))
      × (is_listening fd false calls ≡ not not_listening)
      × ((e : Sqe) × (sqe ≡ some (some e))
          × (handle_cqe (set_invoke eagain eintr frame acceptor invoke) process_inbox
                (record { user_data = e.user_data; res = res; flags = flags }) t
              ≡ some (record (counted t) { scheduler = schedule (frame res) t.scheduler })))

  -- `start_multishot_server` leaves the socket open, if there is one. If `bind` fails, it submits nothing.
  -- Otherwise the socket listens unless `listen` fails, and if the ring grants an entry, each completion
  -- of that entry with a new connection makes `poll` schedule a coroutine of `handle_client` for it.
  pub run_multishot_server-Listens :
      (server_fd bound listened acceptor port res flags : ℕ) (t : Thread)
      → 0 < acceptor
      → acceptor < 2 ^ 64
      → acceptor % 8 ≡ 0
      → is_negative res ≡ false
      → Listens
          (is_negative server_fd)
          (is_negative bound)
          (is_negative listened)
          server_fd
          acceptor
          res
          flags
          t
          (run_multishot_server htons server_fd bound listened true acceptor port)
  unfolding run_multishot_server open_socket start_multishot_server accept_multishot set_invoke
      accepted on_accept_callback
  run_multishot_server-Listens server_fd bound listened acceptor port res flags t some_op l aligned
        new =
      let (io, multi, coro, inbox) =
        handle_cqe-Dispatches (set_invoke eagain eintr frame acceptor invoke) process_inbox acceptor
          res flags t some_op l aligned in
      elim (Bool-cases (is_negative bound)) [
        | inl failed ↦ rw failed (refl, refl, refl)
        | inr ok ↦ elim (Bool-cases (is_negative listened)) [
          | inl deaf ↦
              rw (ok, deaf)
                (
                  refl,
                  rw (ok, ==_self server_fd) refl,
                  (_, refl, multi ∙ rw (==_self acceptor, new) refl),
                )
          | inr hears ↦
              rw (ok, hears)
                (
                  refl,
                  rw (ok, ==_self server_fd) refl,
                  (_, refl, multi ∙ rw (==_self acceptor, new) refl),
                )
        ]
      ]
