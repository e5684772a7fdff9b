-- ===== src/Scheduler/Inbox.antt =====
-- include/novaio/scheduler.hpp and src/scheduler.cpp: `UniqueTask`, the owner of a callable on the heap,
-- and the inbox with `push_inbox` and `process_inbox`. Function pointers are addresses; calls through
-- them are written to a log. What a task that runs pushes into the inbox of its own thread is an
-- argument, `spawns`.
pub mod Drains
use novaio.Prelude.{
  ℕ, zero, suc, ◌+◌, ◌%◌, ◌^◌, Bool, not, Option, none, some, List, [], ◌∷◌, ◌++◌, ◌==◌,
  if◌then◌else◌, ◌>>=◌,
}
use novaio.Queues.Spsc.{SpscQueue, push, pop}

pub record UniqueTask : Type 0 where
  pub ptr : ℕ
  pub invoker : ℕ
  pub deleter : ℕ

pub data Call : Type 0 where
  invoke delete : ℕ → ℕ → Call

abbrev pub empty_task : UniqueTask
empty_task = record { ptr = 0; invoker = 0; deleter = 0 }

-- The constructor from a callable, which moves it to `buf`: `invoker` and `deleter` are the functions for
-- its type.
unfoldable pub make_task : ℕ → ℕ → ℕ → UniqueTask
make_task buf invoker deleter = record { ptr = buf; invoker = invoker; deleter = deleter }

-- the move constructor: the new task, and what it leaves
unfoldable pub move_construct : UniqueTask → UniqueTask × UniqueTask
move_construct other = (other, empty_task)

unfoldable pub cleanup : UniqueTask → List Call → List Call
cleanup t log = if t.deleter == 0 then log else log ++ delete t.deleter t.ptr ∷ []

-- the move assignment from another object
unfoldable pub move_assign :
    UniqueTask → UniqueTask → List Call → UniqueTask × UniqueTask × List Call
move_assign self other log = (other, empty_task, cleanup self log)

-- `operator()`
unfoldable pub call : UniqueTask → List Call → List Call
call t log = if t.invoker == 0 then log else log ++ invoke t.invoker t.ptr ∷ []

-- `operator bool`
unfoldable pub is_set : UniqueTask → Bool
is_set t = not (t.invoker == 0)

-- The state of the loop: the inbox, the local `task`, the log, and the count of messages.
pub record Turn : Type 0 where
  pub inbox : SpscQueue UniqueTask
  pub task : UniqueTask
  pub log : List Call
  pub processed : ℕ  -- uint64_t

unfoldable pub push_inbox : UniqueTask → SpscQueue UniqueTask → Bool × SpscQueue UniqueTask
push_inbox task inbox = push inbox task

-- tasks that are pushed one after the other; one that finds no room is dropped
unfoldable pub push_all : List UniqueTask → SpscQueue UniqueTask → SpscQueue UniqueTask
push_all [] inbox = inbox
push_all (t ∷ ts) inbox = push_all ts (push_inbox t inbox).1

module _ (spawns : UniqueTask → List UniqueTask) where
  -- The loop of `process_inbox`; `pop` moves into `task`, which cleans up the task before it.
  unfoldable pub process_loop : ℕ → Turn → Option Turn
  process_loop zero s = none
  process_loop (suc fuel) s =
      let (out, inbox) = pop s.inbox in
      elim out [
        | none ↦ some (record s { inbox = inbox })
        | some t ↦
            let (task, moved, log) = move_assign s.task t s.log in
            process_loop fuel (record {
              inbox = if is_set task then push_all (spawns task) inbox else inbox;
              task = task;
              log = if is_set task then call task log else log;
              processed = (s.processed + 1) % 2 ^ 64;
            })
      ]

  -- `process_inbox`, with the destructor of `task` at its end: the inbox, the log and the count
  unfoldable pub process_inbox :
      ℕ → SpscQueue UniqueTask → ℕ → Option (SpscQueue UniqueTask × List Call × ℕ)
  process_inbox fuel inbox processed = do
    s ←
        process_loop fuel
          (record { inbox = inbox; task = empty_task; log = []; processed = processed })
    some (s.inbox, cleanup s.task s.log, s.processed)
