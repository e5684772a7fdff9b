-- ===== src/IoEngine/Tags.antt =====
-- include/novaio/io_engine.hpp: the tag in the low bits of a submission's user data, as `poll` reads it.
use novaio.Prelude.{ℕ, ◌+◌, ◌-◌, ◌/◌, ◌%◌, ◌^◌, ◌<◌, bit_and, bit_or, ◌≡◌, false, some, arith, ◌==◌}
use novaio.Bits.{bit_and-halves, bit_and_mask, bit_and_low3, bit_or_low3}
use novaio.IoEngine.{
  Ptr, tag_of, payload_of, tag_io, tag_multi, tag_coro, tag_inbox, Cqe, Thread, complete_io,
  handle_cqe,
}
use novaio.Scheduler.{schedule}

halved : (a : ℕ) → a < 2 ^ 61 → bit_and a (2 ^ 61 - 1) ≡ a
halved a l = omega (arith, bit_and_mask 61 a)

payload_clears : (a : ℕ) → a < 2 ^ 64 → payload_of a ≡ a - a % 8
payload_clears a l = omega (
  arith,
  bit_and-halves a (2 ^ 64 - 8),
  bit_and-halves (a / 2) (2 ^ 63 - 4),
  bit_and-halves (a / 2 / 2) (2 ^ 62 - 2),
  halved (a / 2 / 2 / 2) (omega arith),
)

-- A tag below 8 that is put into the address of an object on 8 bytes is read back, and so is the address.
pub untag-bit_or :
    (p tag : ℕ)
    → p < 2 ^ 64
    → p % 8 ≡ 0
    → tag < 8
    → (tag_of (bit_or p tag) ≡ tag) × (payload_of (bit_or p tag) ≡ p)
untag-bit_or p tag l aligned small =
    rw (bit_or_low3 p tag aligned small)
      (omega (arith, bit_and_low3 (p + tag)), omega (arith, payload_clears (p + tag) (omega arith)))

-- the thread when `handle_cqe` has counted the completion
abbrev pub counted : Thread → Thread
counted t = record t { io_events = (t.io_events + 1) % 2 ^ 64 }

abbrev pub completion : Ptr → ℕ → ℕ → ℕ → Cqe
completion p tag res flags = record { user_data = bit_or p tag; res = res; flags = flags }

module _ (invoke : Ptr → ℕ → ℕ → Thread → Thread) (process_inbox : Thread → Thread) where
  -- what a completion with the user data of `p` does under each tag
  abbrev pub Dispatches : Ptr → ℕ → ℕ → Thread → Type 0
  Dispatches p res flags t =
      (handle_cqe invoke process_inbox (completion p tag_io res flags) t
        ≡ complete_io p (completion p tag_io res flags) (counted t))
      × (handle_cqe invoke process_inbox (completion p tag_multi res flags) t
          ≡ some (invoke p res flags (counted t)))
      × (handle_cqe invoke process_inbox (completion p tag_coro res flags) t
          ≡ some (record (counted t) { scheduler = schedule p t.scheduler }))
      × (handle_cqe invoke process_inbox (completion p tag_inbox res flags) t
          ≡ some (process_inbox (counted t)))

  pub handle_cqe-Dispatches :
      (p res flags : ℕ) (t : Thread) → 0 < p → p < 2 ^ 64 → p % 8 ≡ 0 → Dispatches p res flags t
  unfolding handle_cqe
  handle_cqe-Dispatches p res flags t some_p l aligned =
      let (io, at0) = untag-bit_or p tag_io l aligned (omega arith) in
      let (multi, at1) = untag-bit_or p tag_multi l aligned (omega arith) in
      let (coro, at2) = untag-bit_or p tag_coro l aligned (omega arith) in
      let (inbox, at3) = untag-bit_or p tag_inbox l aligned (omega arith) in
      let set : (p == 0) ≡ false = ground arith in
      (rw (io, at0, set), rw (multi, at1, set), rw (coro, at2), rw inbox)
