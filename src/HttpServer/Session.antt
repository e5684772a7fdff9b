-- ===== src/HttpServer/Session.antt =====
-- examples/http_server.cpp: what a connection gets, from its first byte to its end.
use novaio.Prelude.{
  ℕ, ◌+◌, ◌*◌, ◌/◌, ◌%◌, ◌^◌, ◌<◌, bit_and, ◌≡◌, refl, sym, ap, ◌∙◌, true, false, Option, none,
  some, List, [], ◌∷◌, ◌++◌, append-nil, append_assoc, arith, All,
}
use novaio.Bits.{bit_and_mask}
use novaio.IoEngine.{IoResult}
use novaio.HttpServer.{
  Call, returns_buffer, cqe_f_buffer, receives, sends, closes, receiving, done, give_back,
  is_negative, is_positive, resume_client, handle_client, begin_client, run_client,
  http_response_size,
}

-- the completion of a receive: its result, the buffer that it brings, if any, and what its flags say
-- besides
pub record Delivery : Type 0 where
  pub res : ℕ
  pub buffer : Option ℕ
  pub other_flags : ℕ

-- The flags: IORING_CQE_F_BUFFER is the lowest bit, and the number of the buffer is in the upper 16 of 32.
abbrev pub flags_of : Option ℕ → ℕ → ℕ
flags_of none k = 2 * k
flags_of (some bid) k = bid * 2 ^ 16 + 2 * k + 1

abbrev pub HasFlags : Option ℕ → ℕ → Type 0
HasFlags none k = k < 2 ^ 31
HasFlags (some bid) k = (bid < 2 ^ 16) × (k < 2 ^ 15)

abbrev pub IsDelivery : Delivery → Type 0
IsDelivery d = HasFlags d.buffer d.other_flags

abbrev pub result_of : Delivery → IoResult
result_of d = record { res = d.res; flags = flags_of d.buffer d.other_flags }

-- the call that gives the buffer back
abbrev pub returns : Option ℕ → List Call
returns none = []
returns (some bid) = returns_buffer bid ∷ []

give_back-flags_of :
    (buffer : Option ℕ) (k : ℕ) → HasFlags buffer k → give_back (flags_of buffer k) ≡ returns buffer
give_back-flags_of none k h =
    let low : bit_and (2 * k) cqe_f_buffer ≡ 0 = omega (arith, bit_and_mask 1 (2 * k)) in
    rw low refl
give_back-flags_of (some bid) k (small, rest) =
    let low : bit_and (bid * 2 ^ 16 + 2 * k + 1) cqe_f_buffer ≡ 1 =
      omega (arith, bit_and_mask 1 (bid * 2 ^ 16 + 2 * k + 1)) in
    let high : (bid * 2 ^ 16 + 2 * k + 1) / 2 ^ 16 % 2 ^ 16 ≡ bid = omega (arith, small, rest) in
    rw (low, high) refl

-- a request that is received and answered
pub record Exchange : Type 0 where
  pub received : Delivery
  pub sent : IoResult

abbrev pub IsExchange : Exchange → Type 0
IsExchange x =
    (is_positive x.received.res ≡ true) × (is_negative x.sent.res ≡ false) × IsDelivery x.received

abbrev pub results_of : List Exchange → List IoResult
results_of [] = []
results_of (x ∷ xs) = result_of x.received ∷ x.sent ∷ results_of xs

-- the calls for these: the buffer of each goes back, and the response, which is one, goes out
abbrev pub served : ℕ → List Exchange → List Call
served fd [] = []
served fd (x ∷ xs) =
    returns x.received.buffer ++ sends fd http_response_size ∷ receives fd ∷ served fd xs

-- How a session ends: with a failure to receive, or the end of the stream; or with a failure to send.
-- The last result is that of the close.
pub data Ending : Type 0 where
  fails_to_receive : Delivery → IoResult → Ending
  fails_to_send : Delivery → IoResult → IoResult → Ending

abbrev pub IsEnding : Ending → Type 0
IsEnding (fails_to_receive r closed) = (is_positive r.res ≡ false) × IsDelivery r
IsEnding (fails_to_send r sent closed) =
    (is_positive r.res ≡ true) × (is_negative sent.res ≡ true) × IsDelivery r

abbrev pub ending_results : Ending → List IoResult
ending_results (fails_to_receive r closed) = result_of r ∷ closed ∷ []
ending_results (fails_to_send r sent closed) = result_of r ∷ sent ∷ closed ∷ []

abbrev pub ending_calls : ℕ → Ending → List Call
ending_calls fd (fails_to_receive r closed) = returns r.buffer ++ closes fd ∷ []
ending_calls fd (fails_to_send r sent closed) =
    returns r.buffer ++ sends fd http_response_size ∷ closes fd ∷ []

ending :
    (fd : ℕ) (e : Ending)
    → IsEnding e
    → handle_client fd (ending_results e) receiving ≡ (ending_calls fd e, done)
unfolding handle_client resume_client
ending fd (fails_to_receive r closed) (h, d) =
    rw (h, give_back-flags_of r.buffer r.other_flags d) (ap (λ calls. (calls, done)) (append-nil _))
ending fd (fails_to_send r sent closed) (h, k, d) =
    rw (h, k, give_back-flags_of r.buffer r.other_flags d)
      (ap (λ calls. (calls, done)) (append_assoc (returns r.buffer) _ _))

exchanges :
    (fd : ℕ) (xs : List Exchange) (e : Ending)
    → All IsExchange xs
    → IsEnding e
    → handle_client fd (results_of xs ++ ending_results e) receiving
      ≡ (served fd xs ++ ending_calls fd e, done)
unfolding handle_client resume_client
exchanges fd [] e all h = ending fd e h
exchanges fd (x ∷ xs) e ((r, s, d), all) h =
    rw
      (r, s, give_back-flags_of x.received.buffer x.received.other_flags d, exchanges fd xs e all h)
      (ap (λ calls. (calls, done))
        (append_assoc (returns x.received.buffer) (sends fd http_response_size ∷ []) _
          ∙ sym (
              append_assoc (returns x.received.buffer)
                (sends fd http_response_size ∷ receives fd ∷ served fd xs) (ending_calls fd e))))

-- However many requests a connection sends, each gets one response, after which the next is received;
-- the buffer that a receive brings, by its flags, goes back once, before the next call; and the first receive or send to fail, or the end of
-- the stream, closes the connection, once and as the last call, after which the coroutine is done.
pub run_client-Serves :
    (fd : ℕ) (xs : List Exchange) (e : Ending)
    → All IsExchange xs
    → IsEnding e
    → run_client true fd (results_of xs ++ ending_results e)
      ≡ (receives fd ∷ served fd xs ++ ending_calls fd e, done)
unfolding run_client begin_client
run_client-Serves fd xs e all h = rw (exchanges fd xs e all h) refl
