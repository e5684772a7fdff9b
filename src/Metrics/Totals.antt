-- ===== src/Metrics/Totals.antt =====
-- include/novaio/metrics.hpp: the totals of `aggregate`.
use novaio.Prelude.{ℕ, ◌+◌, ◌%◌, ◌^◌, ◌<◌, ◌≡◌, [], ◌∷◌, ◌++◌, arith, ==_self}
use novaio.Metrics.{
  TcmMetrics, zeros, Memory, MetricsRegistry, register_thread, unregister_thread, plus,
  aggregate_loop, aggregate,
}

-- The sum of a counter over the registered threads.
abbrev pub sum_of : (ℕ → ℕ) → MetricsRegistry → ℕ
sum_of f [] = 0
sum_of f (p ∷ r) = f p + sum_of f r

sum_of-append : (f : ℕ → ℕ) (r s : MetricsRegistry) → sum_of f (r ++ s) ≡ sum_of f r + sum_of f s
sum_of-append f [] s = omega arith
sum_of-append f (p ∷ r) s = omega (arith, sum_of-append f r s)

abbrev pub Sums : Memory → MetricsRegistry → TcmMetrics
Sums mem r = record {
  tasks_executed = sum_of (λ p. (mem p).tasks_executed) r % 2 ^ 64;
  io_events_reaped = sum_of (λ p. (mem p).io_events_reaped) r % 2 ^ 64;
  inbox_messages_processed = sum_of (λ p. (mem p).inbox_messages_processed) r % 2 ^ 64;
}

module _ (mem : Memory) where
  loop_tasks :
      (t : TcmMetrics) (r : MetricsRegistry)
      → t.tasks_executed < 2 ^ 64
      → (aggregate_loop mem t r).tasks_executed
        ≡ (t.tasks_executed + sum_of (λ p. (mem p).tasks_executed) r) % 2 ^ 64
  unfolding aggregate_loop
  loop_tasks t [] lt = omega arith
  loop_tasks t (p ∷ r) lt = omega (arith, loop_tasks (plus t (mem p)) r (omega arith))

  loop_events :
      (t : TcmMetrics) (r : MetricsRegistry)
      → t.io_events_reaped < 2 ^ 64
      → (aggregate_loop mem t r).io_events_reaped
        ≡ (t.io_events_reaped + sum_of (λ p. (mem p).io_events_reaped) r) % 2 ^ 64
  unfolding aggregate_loop
  loop_events t [] lt = omega arith
  loop_events t (p ∷ r) lt = omega (arith, loop_events (plus t (mem p)) r (omega arith))

  loop_inbox :
      (t : TcmMetrics) (r : MetricsRegistry)
      → t.inbox_messages_processed < 2 ^ 64
      → (aggregate_loop mem t r).inbox_messages_processed
        ≡ (t.inbox_messages_processed + sum_of (λ p. (mem p).inbox_messages_processed) r) % 2 ^ 64
  unfolding aggregate_loop
  loop_inbox t [] lt = omega arith
  loop_inbox t (p ∷ r) lt = omega (arith, loop_inbox (plus t (mem p)) r (omega arith))

  -- `aggregate` returns the sum of each counter over the registered threads, in 64 bits.
  pub aggregate-Sums : (r : MetricsRegistry) → aggregate mem r ≡ Sums mem r
  unfolding aggregate
  aggregate-Sums r = ground (
    arith,
    loop_tasks zeros r (omega arith),
    loop_events zeros r (omega arith),
    loop_inbox zeros r (omega arith),
  )

sum_unregister :
    (f : ℕ → ℕ) (p : ℕ) (r : MetricsRegistry)
    → sum_of f (unregister_thread p (r ++ p ∷ [])) ≡ sum_of f r
unfolding unregister_thread
sum_unregister f p [] = ground (arith, ==_self p)
sum_unregister f p (q ∷ r) = ground (arith, sum_unregister f p r, sum_of-append f r (p ∷ []))

-- A thread that registers and unregisters leaves every total as it was, whether or not it was
-- registered before.
pub aggregate-unregister-register :
    (mem : Memory) (p : ℕ) (r : MetricsRegistry)
    → aggregate mem (unregister_thread p (register_thread p r)) ≡ aggregate mem r
unfolding register_thread
aggregate-unregister-register mem p r = rw (
  aggregate-Sums mem (unregister_thread p (r ++ p ∷ [])),
  aggregate-Sums mem r,
  sum_unregister (λ q. (mem q).tasks_executed) p r,
  sum_unregister (λ q. (mem q).io_events_reaped) p r,
  sum_unregister (λ q. (mem q).inbox_messages_processed) p r,
)
