-- ===== src/IoEngine/Tests.antt =====
-- src/io_engine.cpp: runs of `poll`, and its theorems at them.
use novaio.Prelude.{
  ℕ, ◌+◌, ◌%◌, ◌^◌, bit_and, ◌≡◌, refl, Bool, true, false, Option, none, some, [], ◌∷◌, arith, ltb,
  ◌==◌, if◌then◌else◌, ◌>>=◌,
}
use novaio.IoEngine.Init.{InitEnds, init, init-InitEnds}
use novaio.Scheduler.{schedule}
use novaio.IoEngine.{Ptr, Cqe, Thread, handle_cqe, poll, try_init_ring, init_loop, queue_depths}
use novaio.IoEngine.BufRing.{Buf}
use novaio.Scheduler.Run.{schedule_all}
use novaio.IoEngine.Poll.{Operation, completions, AreDone, poll-AreDone}
use novaio.IoEngine.Completion.{
  Ends, Returns, resumed, cancelled, destroyed_late, awaited_late, resumed-Ends, cancelled-Ends,
  unhandled-Ends,
}

abbrev idle : Thread
idle = record {
  contexts = λ _. none;
  io_events = 0;
  scheduler = record {
    runnext = 0;
    local_queue = record { capacity = 4; mask = 3; head = 0; tail = 0; buffer = λ _. 0 };
  };
}

abbrev received : Cqe
received = record { user_data = 4096; res = 12; flags = 3 }

-- a kernel that refuses the first two attempts, with the count of attempts as its state
abbrev busy : ℕ → Bool → ℕ → ℕ × ℕ
busy depth advanced n = (if ltb n 2 then 22 else 0, n + 1)

init_at_third : init_loop busy queue_depths 0 0 ≡ (true, 22, 3)
unfolding init_loop try_init_ring
init_at_third = refl

-- a multishot operation and an inbox that leave a trace in the count of events
abbrev noted : Ptr → ℕ → ℕ → Thread → Thread
noted op res flags t = record t { io_events = t.io_events + res }

-- Three completions: a multishot operation, an inbox, and a wake-up without a payload.
abbrev polled : Option (ℕ × ℕ)
polled = do
  (t, advanced) ←
      poll noted (λ t. record t { io_events = t.io_events + 100 })
        (record { user_data = 4097; res = 12; flags = 0 }
          ∷ record { user_data = 3; res = 0; flags = 0 }
          ∷ record { user_data = 0; res = 0; flags = 0 }
          ∷ [])
        idle
  some (t.io_events, advanced)

polled_events : polled ≡ some (115, 3)
unfolding poll handle_cqe
polled_events = refl

resumed-Ends_example :
    Returns (record { res = 12; flags = 3 }) (resumed 4096 800 received idle)
    × Ends 4096 idle none
        (schedule 800 idle.scheduler)
        (resumed 4096 800 received idle >>= λ r. some r.1)
resumed-Ends_example = resumed-Ends 4096 800 received idle (omega arith)

deletes_its_context : Ends 4096 idle none idle.scheduler (cancelled 4096 800 received idle)
deletes_its_context = cancelled-Ends 4096 800 received idle (omega arith)

unhandled-Ends_example :
    Ends 4096 idle
      (some (record { res = 12; flags = 3; coro = 800; cancelled = true }))
      (schedule 800 idle.scheduler)
      (destroyed_late 4096 800 received idle)
    × Ends 4096 idle
        (some (record { res = 12; flags = 3; coro = 800; cancelled = false }))
        idle.scheduler
        (awaited_late 4096 800 received idle)
unhandled-Ends_example = unhandled-Ends 4096 800 received idle (omega arith) (omega arith)

-- the ring is there, and its files; the ring of buffers is not, with error 12
init-InitEnds_example :
    InitEnds busy
      (λ n k. (0, k))
      (λ k. (12, k))
      (λ k. (4096, k))
      0
      (init busy (λ n k. (0, k)) (λ k. (12, k)) (λ k. (4096, k)) 0)
init-InitEnds_example = init-InitEnds busy (λ n k. (0, k)) (λ k. (12, k)) (λ k. (4096, k)) 0

-- a ring of buffers as liburing documents it: the tail, and the slots
abbrev Ring : Type 0
Ring = ℕ × (ℕ → Buf)

abbrev add_at : Buf → ℕ → ℕ → Ring → Ring
add_at b mask offset (tail, slots) =
    (tail, λ j. if j == bit_and (tail + offset) mask then b else slots j)

abbrev advance_by : ℕ → Ring → Ring
advance_by n (tail, slots) = ((tail + n) % 2 ^ 16, slots)

abbrev fresh_ring : Ring
fresh_ring = (0, λ j. record { addr = 0; len = 0; bid = 0 })

-- Coroutine 800 waits for 12 bytes, and the coroutine of the other operation is gone.
abbrev receives : Operation
receives = record {
  ctx = 4096;
  context = record { res = 0; flags = 0; coro = 800; cancelled = false };
  res = 12;
  flags = 3;
}

abbrev given_up : Operation
given_up = record {
  ctx = 8192;
  context = record { res = 0; flags = 0; coro = 808; cancelled = true };
  res = 5;
  flags = 0;
}

abbrev two_in_flight : Thread
two_in_flight = record idle {
  contexts = λ p.
      if p == 4096
      then some receives.context
      else if p == 8192
      then some given_up.context
      else none;
}

poll-AreDone_example :
    (t' : Thread) × (poll noted (λ t. t) (completions (receives ∷ given_up ∷ [])) two_in_flight
      ≡ some (t', 2))
    × AreDone t' (receives ∷ given_up ∷ [])
    × (t'.scheduler ≡ schedule_all (800 ∷ []) idle.scheduler)
    × (t'.io_events ≡ 2)
    × (t'.contexts 64 ≡ none)
poll-AreDone_example =
    poll-AreDone noted (λ t. t) (receives ∷ given_up ∷ []) two_in_flight 64 (omega arith)
      (
        omega arith,
        omega arith,
        refl,
        refl,
        omega arith,
        refl,
        (omega arith, omega arith, refl, refl, omega arith, refl, tt),
      )
      refl
