-- ===== src/Metrics/Tests.antt =====
-- include/novaio/metrics.hpp: the theorems on the registry at three threads.
use novaio.Prelude.{◌-◌, ◌^◌, ◌≡◌, refl, [], ◌∷◌}
use novaio.Metrics.{Memory, MetricsRegistry, register_thread, unregister_thread, aggregate}
use novaio.Metrics.Totals.{Sums, aggregate-Sums, aggregate-unregister-register}

abbrev mem : Memory
mem p = record { tasks_executed = p; io_events_reaped = 2 ^ 64 - p; inbox_messages_processed = 1 }

abbrev threads : MetricsRegistry
threads = 3 ∷ 8 ∷ 3 ∷ []

totals :
    aggregate mem threads
    ≡ record { tasks_executed = 14; io_events_reaped = 2 ^ 64 - 14; inbox_messages_processed = 3 }
unfolding aggregate
totals = refl

aggregate-Sums_example : aggregate mem threads ≡ Sums mem threads
aggregate-Sums_example = aggregate-Sums mem threads

totals_stay :
    aggregate mem (unregister_thread 3 (register_thread 3 threads)) ≡ aggregate mem threads
totals_stay = aggregate-unregister-register mem 3 threads
