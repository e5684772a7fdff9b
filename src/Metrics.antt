-- ===== src/Metrics.antt =====
-- include/novaio/metrics.hpp: counters of each thread, and the registry that adds them up. A thread's
-- counters are named by their address. The registry's lock makes each of its operations one step.
pub mod Totals
mod Tests
use novaio.Prelude.{ℕ, ◌+◌, ◌%◌, ◌^◌, List, [], ◌∷◌, ◌++◌, ◌==◌, if◌then◌else◌}

pub record TcmMetrics : Type 0 where
  pub tasks_executed : ℕ  -- uint64_t
  pub io_events_reaped : ℕ  -- uint64_t
  pub inbox_messages_processed : ℕ  -- uint64_t

abbrev pub zeros : TcmMetrics
zeros = record { tasks_executed = 0; io_events_reaped = 0; inbox_messages_processed = 0 }

abbrev pub Memory : Type 0
Memory = ℕ → TcmMetrics

-- `metrics_record_*` on the thread whose counters lie at `self`
unfoldable pub record_task_executed : ℕ → Memory → Memory
record_task_executed self m p =
    if p == self then record (m p) { tasks_executed = ((m p).tasks_executed + 1) % 2 ^ 64 } else m p

unfoldable pub record_io_event : ℕ → Memory → Memory
record_io_event self m p =
    if p == self
    then record (m p) { io_events_reaped = ((m p).io_events_reaped + 1) % 2 ^ 64 }
    else m p

unfoldable pub record_inbox_processed : ℕ → Memory → Memory
record_inbox_processed self m p =
    if p == self
    then record (m p) { inbox_messages_processed = ((m p).inbox_messages_processed + 1) % 2 ^ 64 }
    else m p

-- `thread_metrics_`: a vector of pointers
abbrev pub MetricsRegistry : Type 0
MetricsRegistry = List ℕ

unfoldable pub register_thread : ℕ → MetricsRegistry → MetricsRegistry
register_thread metrics r = r ++ metrics ∷ []

-- Erases the first entry that is `metrics`.
unfoldable pub unregister_thread : ℕ → MetricsRegistry → MetricsRegistry
unregister_thread metrics [] = []
unregister_thread metrics (p ∷ r) = if p == metrics then r else p ∷ unregister_thread metrics r

-- one round of the loop of `aggregate`
abbrev pub plus : TcmMetrics → TcmMetrics → TcmMetrics
plus total m = record {
  tasks_executed = (total.tasks_executed + m.tasks_executed) % 2 ^ 64;
  io_events_reaped = (total.io_events_reaped + m.io_events_reaped) % 2 ^ 64;
  inbox_messages_processed = (total.inbox_messages_processed + m.inbox_messages_processed) % 2 ^ 64;
}

unfoldable pub aggregate_loop : Memory → TcmMetrics → MetricsRegistry → TcmMetrics
aggregate_loop mem total [] = total
aggregate_loop mem total (p ∷ r) = aggregate_loop mem (plus total (mem p)) r

unfoldable pub aggregate : Memory → MetricsRegistry → TcmMetrics
unfolding aggregate_loop
aggregate mem r = aggregate_loop mem zeros r
