-- ===== src/HttpServer/Multirecv/Answers.antt =====
-- examples/http_server_multirecv.cpp: what the requests of a connection cause.
use novaio.Prelude.{
  ℕ, zero, suc, ◌+◌, ◌*◌, ◌/◌, ◌%◌, ◌^◌, ◌<◌, bit_and, ◌≡◌, refl, ap, ◌∙◌, ◌≢◌, Bool, true, false,
  Option, none, some, List, [], ◌∷◌, ◌++◌, arith, if◌then◌else◌, ==_self, ==_of_ne, length, All,
}
use novaio.Bits.{bit_and_mask, bit_and-halves}
use novaio.IoEngine.{IoResult}
use novaio.HttpServer.{cqe_f_buffer, is_negative, is_positive}
use novaio.HttpServer.Multirecv.{
  Connections, Effect, gives_buffer, receives_more, answers_later, set_connection, has, buffer_of,
  on_client_recv, on_client_recvs, on_client_accept,
}

-- what effects do, by their kind: the buffers that go back, the descriptors that are received from
-- again, and the coroutines that answer, with their numbers of responses
abbrev pub buffers : List Effect → List ℕ
buffers [] = []
buffers (gives_buffer bid ∷ es) = bid ∷ buffers es
buffers (_ ∷ es) = buffers es

abbrev pub received_again : List Effect → List ℕ
received_again [] = []
received_again (receives_more fd ∷ es) = fd ∷ received_again es
received_again (_ ∷ es) = received_again es

abbrev pub answers : List Effect → List (ℕ × ℕ)
answers [] = []
answers (answers_later fd count ∷ es) = (fd, count) ∷ answers es
answers (_ ∷ es) = answers es

-- `IORING_CQE_F_MORE` of the kernel: the receive goes on
abbrev pub cqe_f_more : ℕ
cqe_f_more = 2

-- the completion of a receive: its result, the buffer that it brings, if any, whether the receive goes
-- on, and what its flags say besides
pub record Request : Type 0 where
  pub res : ℕ
  pub buffer : Option ℕ
  pub goes_on : Bool
  pub other_flags : ℕ

-- The flags: IORING_CQE_F_BUFFER is the lowest bit, IORING_CQE_F_MORE the next, and the number of the
-- buffer is in the upper 16 of 32.
abbrev pub flags_of : Option ℕ → Bool → ℕ → ℕ
flags_of none m k = 4 * k + (if m then 2 else 0)
flags_of (some bid) m k = bid * 2 ^ 16 + 4 * k + (if m then 2 else 0) + 1

abbrev pub HasFlags : Option ℕ → ℕ → Type 0
HasFlags none k = k < 2 ^ 30
HasFlags (some bid) k = (bid < 2 ^ 16) × (k < 2 ^ 14)

abbrev pub result_of : Request → IoResult
result_of r = record { res = r.res; flags = flags_of r.buffer r.goes_on r.other_flags }

abbrev pub results_of : List Request → List IoResult
results_of [] = []
results_of (r ∷ rs) = result_of r ∷ results_of rs

abbrev pub buffer_before : Option ℕ → List ℕ → List ℕ
buffer_before none bids = bids
buffer_before (some bid) bids = bid ∷ bids

-- the buffers that completions bring
abbrev pub given : List Request → List ℕ
given [] = []
given (r ∷ rs) = buffer_before r.buffer (given rs)

-- a descriptor for each completion after which its receive does not go on
abbrev pub ended : ℕ → List Request → List ℕ
ended fd [] = []
ended fd (r ∷ rs) = if r.goes_on then ended fd rs else fd ∷ ended fd rs

-- a request that succeeds
abbrev pub IsRequest : Request → Type 0
IsRequest r = (is_positive r.res ≡ true) × HasFlags r.buffer r.other_flags

-- the numbers of responses to `n` requests, of which the first is answered with `k`
abbrev pub counts_from : ℕ → ℕ → ℕ → List (ℕ × ℕ)
counts_from fd k zero = []
counts_from fd k (suc n) = (fd, k) ∷ counts_from fd (k + 1) n

-- what happens to requests that arrive at a connection with the given counter
abbrev pub Answered : ℕ → ℕ → List Request → Connections → List Effect × Connections → Type 0
Answered fd k cqes conns (effects, conns') =
    (buffers effects ≡ given cqes)
    × (received_again effects ≡ ended fd cqes)
    × (answers effects ≡ counts_from fd (k + 1) (length cqes))
    × (conns' fd ≡ record { fd = fd; counter = k + length cqes })
    × ((i : ℕ) → i ≢ fd → conns' i ≡ conns i)

-- what is done for one request, before the effects `es` of later ones
abbrev effects_of : Bool → Bool → ℕ → ℕ → ℕ → List Effect
effects_of has_buffer goes_on bid fd count =
    (if has_buffer then gives_buffer bid ∷ [] else [])
    ++ answers_later fd count ∷ (if goes_on then [] else receives_more fd ∷ [])

-- the number of the buffer that is given back, if there is one
abbrev number : Option ℕ → ℕ
number none = 0
number (some bid) = bid

abbrev is_some : Option ℕ → Bool
is_some none = false
is_some (some bid) = true

kinds :
    (b : Option ℕ) (m : Bool) (fd count : ℕ) (es : List Effect)
    → (buffers (effects_of (is_some b) m (number b) fd count ++ es) ≡ buffer_before b (buffers es))
      × (received_again (effects_of (is_some b) m (number b) fd count ++ es)
          ≡ (if m then received_again es else fd ∷ received_again es))
      × (answers (effects_of (is_some b) m (number b) fd count ++ es) ≡ (fd, count) ∷ answers es)
kinds (some bid) true fd count es = (refl, refl, refl)
kinds (some bid) false fd count es = (refl, refl, refl)
kinds none true fd count es = (refl, refl, refl)
kinds none false fd count es = (refl, refl, refl)

low_bit : (flags : ℕ) → bit_and flags cqe_f_buffer ≡ flags % 2
low_bit flags = bit_and_mask 1 flags

next_bit : (flags : ℕ) → bit_and flags cqe_f_more ≡ 2 * (flags / 2 % 2)
next_bit flags = omega (arith, bit_and-halves flags 2, bit_and_mask 1 (flags / 2))

has-buffer : (b : Option ℕ) (m : Bool) (k : ℕ) → has cqe_f_buffer (flags_of b m k) ≡ is_some b
has-buffer none true k =
    let z : bit_and (4 * k + 2) cqe_f_buffer ≡ 0 = omega (arith, low_bit (4 * k + 2)) in rw z refl
has-buffer none false k =
    let z : bit_and (4 * k + 0) cqe_f_buffer ≡ 0 = omega (arith, low_bit (4 * k + 0)) in rw z refl
has-buffer (some bid) true k =
    let flags : ℕ = bid * 2 ^ 16 + 4 * k + 2 + 1 in
    let z : bit_and flags cqe_f_buffer ≡ 1 = omega (arith, low_bit flags) in rw z refl
has-buffer (some bid) false k =
    let flags : ℕ = bid * 2 ^ 16 + 4 * k + 0 + 1 in
    let z : bit_and flags cqe_f_buffer ≡ 1 = omega (arith, low_bit flags) in rw z refl

has-more : (b : Option ℕ) (m : Bool) (k : ℕ) → has cqe_f_more (flags_of b m k) ≡ m
has-more none true k =
    let z : bit_and (4 * k + 2) cqe_f_more ≡ 2 = omega (arith, next_bit (4 * k + 2)) in rw z refl
has-more none false k =
    let z : bit_and (4 * k + 0) cqe_f_more ≡ 0 = omega (arith, next_bit (4 * k + 0)) in rw z refl
has-more (some bid) true k =
    let flags : ℕ = bid * 2 ^ 16 + 4 * k + 2 + 1 in
    let z : bit_and flags cqe_f_more ≡ 2 = omega (arith, next_bit flags) in rw z refl
has-more (some bid) false k =
    let flags : ℕ = bid * 2 ^ 16 + 4 * k + 0 + 1 in
    let z : bit_and flags cqe_f_more ≡ 0 = omega (arith, next_bit flags) in rw z refl

back_of :
    (b : Option ℕ) (m : Bool) (k : ℕ)
    → HasFlags b k
    → (if is_some b then gives_buffer (buffer_of (flags_of b m k)) ∷ [] else [])
      ≡ (if is_some b then gives_buffer (number b) ∷ [] else [])
back_of none m k h = refl
back_of (some bid) true k (small, rest) = ap (λ n. gives_buffer n ∷ []) (omega (arith, small, rest))
back_of (some bid) false k (small, rest) =
    ap (λ n. gives_buffer n ∷ []) (omega (arith, small, rest))

on_client_recv-positive :
    (fd k : ℕ) (r : Request) (conns : Connections)
    → conns fd ≡ record { fd = fd; counter = k }
    → k + 1 < 2 ^ 31
    → IsRequest r
    → on_client_recv cqe_f_more fd (result_of r) conns ≡ (
      effects_of (is_some r.buffer) r.goes_on (number r.buffer) fd (k + 1),
      set_connection fd (record { fd = fd; counter = k + 1 }) conns,
    )
unfolding on_client_recv
on_client_recv-positive fd k r conns at small (pos, flags) =
    rw
      (
        pos,
        at,
        wraps,
        has-buffer r.buffer r.goes_on r.other_flags,
        has-more r.buffer r.goes_on r.other_flags,
        back_of r.buffer r.goes_on r.other_flags flags,
      )
      refl
  where
    wraps : (k + 1) % 2 ^ 32 ≡ k + 1
    wraps = omega (arith, small)

on_client_recvs-Answered :
    (fd k : ℕ) (cqes : List Request) (conns : Connections)
    → conns fd ≡ record { fd = fd; counter = k }
    → k + length cqes < 2 ^ 31
    → All IsRequest cqes
    → Answered fd k cqes conns (on_client_recvs cqe_f_more fd (results_of cqes) conns)
unfolding on_client_recvs
on_client_recvs-Answered fd k [] conns at small all =
    (refl, refl, refl, at ∙ ap (λ c. record { fd = fd; counter = c }) (omega arith), λ i off. refl)
on_client_recvs-Answered fd k (cqe ∷ cqes) conns at small (pos, all) =
    let conns2 : Connections = set_connection fd (record { fd = fd; counter = k + 1 }) conns in
    let (b, r, a, c, others) =
      on_client_recvs-Answered fd (k + 1) cqes conns2 (rw (==_self fd) refl) (omega arith) all in
    let (b1, r1, a1) =
      kinds cqe.buffer cqe.goes_on fd (k + 1)
        (on_client_recvs cqe_f_more fd (results_of cqes) conns2).0 in
    let step = on_client_recv-positive fd k cqe conns at (omega arith) pos in
    let after : (on_client_recvs cqe_f_more fd (results_of (cqe ∷ cqes)) conns).1
        ≡ (on_client_recvs cqe_f_more fd (results_of cqes) conns2).1 =
      ap (λ e. (on_client_recvs cqe_f_more fd (results_of cqes) e.1).1) step in
    rw step (
      rw (b1, b) refl,
      rw (r1, r) refl,
      rw (a1, a) refl,
      ap (λ f. f fd) after ∙ c ∙ ap (λ c. record { fd = fd; counter = c }) (omega arith),
      λ i off. ap (λ f. f i) after ∙ others i off ∙ rw (==_of_ne i fd off) refl,
    )

-- From the acceptance of a connection, as long as its receives succeed, every buffer that their flags
-- name goes back, in the order in which they came; it is received from again exactly when a receive ended; the k-th
-- request schedules k responses rather than one; and no other connection changes.
pub accepted-Answered :
    (fd : ℕ) (cqes : List Request) (conns : Connections)
    → is_negative fd ≡ false
    → length cqes < 2 ^ 31
    → All IsRequest cqes
    → Answered fd 0 cqes conns
        (on_client_recvs cqe_f_more fd (results_of cqes) (on_client_accept fd conns).1)
unfolding on_client_accept
accepted-Answered fd cqes conns valid small all =
    let conns0 : Connections = set_connection fd (record { fd = fd; counter = 0 }) conns in
    let (b, r, a, c, others) =
      on_client_recvs-Answered fd 0 cqes conns0 (rw (==_self fd) refl) (omega (arith, small)) all in
    rw valid (b, r, a, c, λ i off. others i off ∙ rw (==_of_ne i fd off) refl)
