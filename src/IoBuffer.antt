-- ===== src/IoBuffer.antt =====
-- include/novaio/io_buffer.hpp: the owner of a provided buffer. A buffer that goes back to its engine
-- is written to a log, with the scheduler whose engine it is.
pub mod Ownership
mod Tests
use novaio.Prelude.{ℕ, not, ◌&&◌, List, [], ◌∷◌, ◌++◌, ◌==◌, if◌then◌else◌}

abbrev pub Ptr : Type 0
Ptr = ℕ

abbrev pub nullptr : Ptr
nullptr = 0

pub record IoBuffer : Type 0 where
  pub id : ℕ  -- uint16_t
  pub data_ptr : Ptr
  pub sched : Ptr

abbrev pub Log : Type 0
Log = List (Ptr × ℕ)

unfoldable pub release : IoBuffer → Log → IoBuffer × Log
release b log =
    if not (b.data_ptr == nullptr) && not (b.sched == nullptr)
    then (record b { data_ptr = nullptr }, log ++ (b.sched, b.id) ∷ [])
    else (b, log)

-- the move constructor: the new object, and what it leaves
unfoldable pub move_construct : IoBuffer → IoBuffer × IoBuffer
move_construct other = (
  record { id = other.id; data_ptr = other.data_ptr; sched = other.sched },
  record other { data_ptr = nullptr },
)

-- the move assignment to another object
unfoldable pub move_assign : IoBuffer → IoBuffer → Log → IoBuffer × IoBuffer × Log
move_assign self other log =
    let (self', log') = release self log in
    (
      record self' { id = other.id; data_ptr = other.data_ptr; sched = other.sched },
      record other { data_ptr = nullptr },
      log',
    )

-- the destructor
unfoldable pub destroy : IoBuffer → Log → Log
destroy b log = (release b log).1
