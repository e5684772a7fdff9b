-- ===== src/HttpServer/Tests.antt =====
-- examples/http_server.cpp and examples/http_server_multirecv.cpp: a session of two requests, three
-- requests on one connection, and `main` with two cores.
use novaio.Prelude.{
  ℕ, ◌+◌, ◌-◌, ◌*◌, ◌^◌, ◌≤◌, ◌<◌, ◌≡◌, refl, true, false, Option, none, some, List, [], ◌∷◌, ◌++◌,
  arith, ◌==◌, if◌then◌else◌, length,
}
use novaio.IoEngine.{IoResult, Thread}
use novaio.Runtime.{Runtime, start, not_started}
use novaio.Runtime.Lifecycle.{Gave}
use novaio.HttpServer.{
  run_client, receives, done, main_sizes, size_or, env_size_or, dispatch_loop, on_accept_callback,
  schedules, reports, ignores,
}
use novaio.HttpServer.Session.{
  Delivery, result_of, Exchange, fails_to_receive, results_of, ending_results, served, ending_calls,
  run_client-Serves,
}
use novaio.HttpServer.Listeners.{main-Gave}
use novaio.HttpServer.Sockets.{
  open_socket, left_open, run_multishot_server, Listens, run_multishot_server-Listens,
}
use novaio.HttpServer.Multirecv.{g_connections, on_client_recvs, on_client_accept}
use novaio.HttpServer.Multirecv.Answers
use novaio.HttpServer.Multirecv.Answers.{Request, Answered, accepted-Answered}

-- 40 bytes in buffer 3, and an answer of 102
abbrev request : Delivery
request = record { res = 40; buffer = some 3; other_flags = 0 }

abbrev answer : IoResult
answer = record { res = 102; flags = 0 }

-- the end of the stream, without a buffer
abbrev last : Delivery
last = record { res = 0; buffer = none; other_flags = 2 }

abbrev closed : IoResult
closed = record { res = 0; flags = 0 }

abbrev twice : List Exchange
twice =
    record { received = request; sent = answer } ∷ record { received = request; sent = answer } ∷ []

request_flags : (result_of request).flags ≡ 3 * 2 ^ 16 + 1
request_flags = refl

run_client-Serves_example :
    run_client true 7 (results_of twice ++ ending_results (fails_to_receive last closed))
    ≡ (receives 7 ∷ served 7 twice ++ ending_calls 7 (fails_to_receive last closed), done)
run_client-Serves_example =
    run_client-Serves 7 twice (fails_to_receive last closed)
      ((refl, refl, (omega arith, omega arith)), ((refl, refl, (omega arith, omega arith)), tt))
      (refl, omega arith)

-- the second of three requests is the last for its receive, and the third brings no buffer
abbrev three_requests : List Request
three_requests =
    record { res = 40; buffer = some 3; goes_on = true; other_flags = 0 }
    ∷ record { res = 40; buffer = some 5; goes_on = false; other_flags = 1 }
    ∷ record { res = 40; buffer = none; goes_on = true; other_flags = 0 }
    ∷ []

accepted-Answered_example :
    Answered 7 0 three_requests g_connections
      (on_client_recvs 2 7 (Answers.results_of three_requests) (on_client_accept 7 g_connections).1)
accepted-Answered_example = accepted-Answered 7 three_requests g_connections refl (omega arith) (
  (refl, (omega arith, omega arith)),
  ((refl, (omega arith, omega arith)), ((refl, omega arith), tt)),
)

-- variables 0 and 1, of which the first is set, to the text 2
abbrev environment : ℕ → Option ℕ
environment name = if name == 0 then some 2 else none

abbrev read_number : ℕ → ℕ × ℕ
read_number text = (text, 1)

sizes_of_main : main_sizes environment read_number 0 1 8 ≡ (2, 2)
unfolding main_sizes env_size_or size_or
sizes_of_main = refl

main_with_two_cores :
    (rt : Runtime ℕ) × (start 2 not_started ≡ some rt)
    × (0 < 2)
    × (2 ≤ 2)
    × (length (dispatch_loop 5 2 0 rt.schedulers).0 ≡ 2)
    × Gave 2 5 (dispatch_loop 5 2 0 rt.schedulers).0
main_with_two_cores = main-Gave environment read_number 5 0 1 8 2 2 sizes_of_main

-- errors of an `accept`, with EAGAIN and EINTR of Linux
accept_errors :
    (on_accept_callback 11 4 9 ≡ schedules 9)
    × (on_accept_callback 11 4 (2 ^ 32 - 11) ≡ ignores)
    × (on_accept_callback 11 4 (2 ^ 32 - 24) ≡ reports (2 ^ 32 - 24))
unfolding on_accept_callback
accept_errors = (refl, refl, refl)

abbrev idle : Thread
idle = record {
  contexts = λ p. none;
  scheduler = record {
    local_queue = record { capacity = 4; mask = 3; head = 0; tail = 0; buffer = λ i. 0 };
    runnext = 0;
  };
  io_events = 0;
}

-- Connection 12 comes in at the socket 5, which was bound and listens.
server_at_work :
    Listens
      (λ p. p)
      11
      4
      (λ fd. 4096 + fd * 8)
      (λ p res flags t. t)
      (λ t. t)
      false
      false
      false
      5
      6400
      12
      2
      idle
      (run_multishot_server (λ p. p) 5 0 0 true 6400 8080)
server_at_work =
    run_multishot_server-Listens (λ p. p) 11 4 (λ fd. 4096 + fd * 8) (λ p res flags t. t) (λ t. t) 5
      0 0 6400 8080 12 2 idle (omega arith) (omega arith) refl refl

-- Without a descriptor no socket is left open, and none listens.
no_socket :
    left_open [] (run_multishot_server (λ p. p) (2 ^ 32 - 1) (2 ^ 32 - 1) 0 true 6400 8080).0 ≡ []
unfolding run_multishot_server open_socket
no_socket = refl
