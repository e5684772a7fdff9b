-- ===== src/Event/Tests.antt =====
-- include/novaio/event.hpp: a run in which `set` comes between the two halves of `await_suspend`.
use novaio.Prelude.{◌≡◌, refl, true, false, [], ◌∷◌}
use novaio.Event.{Event, initial, signal, take_all, resume_from, resume_next, test, push_waiter}

-- Awaiters 5 and 7 read the flag clear and wait, the flag is set, 6 finds it set, and `set` goes on: it
-- resumes 7, and finds the inbox for 5 full.
abbrev waited : Event
waited = signal (push_waiter 7 (test 7 (push_waiter 5 (test 5 initial))))

abbrev raced : Event
raced = resume_next true (resume_next false (resume_next true (take_all (test 6 waited))))

raced_resumed : (raced.resumed ≡ 6 ∷ 7 ∷ []) × (raced.lost ≡ 5 ∷ [])
unfolding take_all resume_next resume_from test push_waiter signal
raced_resumed = (refl, refl)
