-- ===== src/Handle.antt =====
-- `std::coroutine_handle<>`: the address of a coroutine frame, and 0 for a null handle. What the
-- runtime does with handles is to store them, compare them with null and hand them on.
use novaio.Prelude.{ℕ}

abbrev pub Handle : Type 0
Handle = ℕ

abbrev pub null : Handle
null = 0
