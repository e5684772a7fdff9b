-- ===== src/HttpServer/Multirecv/Sends.antt =====
-- examples/http_server_multirecv.cpp: how many responses `handle_business_logic` sends.
use novaio.Prelude.{
  ℕ, zero, suc, ◌+◌, ◌^◌, ◌≤◌, ◌<◌, ◌≡◌, refl, sym, ap, ◌∙◌, subst, true, false, not, ◌&&◌, List,
  [], ◌∷◌, ◌++◌, append-nil, arith, ltb, length, All,
}
use novaio.IoEngine.{IoResult}
use novaio.HttpServer.{Call, sends, http_response_size, is_negative, is_positive}
use novaio.HttpServer.Multirecv.{Logic, finished, next_send, resume_logic, handle_business_logic}

abbrev copies : {A : Type 0} → ℕ → A → List A
copies zero a = []
copies (suc n) a = a ∷ copies n a

-- the calls of the loop, and where it stops: from `i`, resumed with `results`
abbrev pub loop_from : ℕ → ℕ → ℕ → List IoResult → List Call × Logic
loop_from fd n i results =
    let (calls, l) = next_send fd n i in
    let (later, l) = handle_business_logic fd n results l in (calls ++ later, l)

may_send : (n i : ℕ) → n < 2 ^ 31 → i < n → (not (is_negative n) && ltb i n) ≡ true
may_send n i small lt = ground arith

logic_goes_on :
    (fd n i : ℕ) (result : IoResult) (results : List IoResult)
    → n < 2 ^ 31
    → i < n
    → is_positive result.res ≡ true
    → loop_from fd n i (result ∷ results) ≡ (
      sends fd http_response_size ∷ (loop_from fd n (i + 1) results).0,
      (loop_from fd n (i + 1) results).1,
    )
unfolding handle_business_logic resume_logic
logic_goes_on fd n i result results small lt pos = rw (may_send n i small lt, pos) refl

logic_fails :
    (fd n i : ℕ) (result : IoResult)
    → n < 2 ^ 31
    → i < n
    → is_positive result.res ≡ false
    → loop_from fd n i (result ∷ []) ≡ (sends fd http_response_size ∷ [], finished)
unfolding handle_business_logic resume_logic
logic_fails fd n i result small lt neg = rw (may_send n i small lt, neg) refl

sends_until :
    (fd n i : ℕ) (results last : List IoResult) (calls : List Call)
    → n < 2 ^ 31
    → i + length results ≤ n
    → All (λ result. is_positive result.res ≡ true) results
    → loop_from fd n (i + length results) last ≡ (calls, finished)
    → loop_from fd n i (results ++ last)
      ≡ (copies (length results) (sends fd http_response_size) ++ calls, finished)
sends_until fd n i [] last calls small fits all e =
    subst (λ j. loop_from fd n j last ≡ (calls, finished)) (omega arith) e
sends_until fd n i (result ∷ results) last calls small fits (pos, all) e =
    logic_goes_on fd n i result (results ++ last) small (omega (arith, fits)) pos
    ∙ ap (λ p. (sends fd http_response_size ∷ p.0, p.1))
        (sends_until fd n (i + 1) results last calls small (omega (arith, fits)) all
          (subst (λ j. loop_from fd n j last ≡ (calls, finished)) (omega arith) e))

may_not_send : (n i : ℕ) → n ≤ i → (not (is_negative n) && ltb i n) ≡ false
may_not_send n i le = ground arith

loop_stops : (fd n i : ℕ) → n ≤ i → loop_from fd n i [] ≡ ([], finished)
unfolding handle_business_logic
loop_stops fd n i le = rw (may_not_send n i le) refl

-- `handle_business_logic` that is to send `n` responses sends them all, and ends, if each send sends
-- something.
every_sent :
    (fd : ℕ) (results : List IoResult)
    → length results < 2 ^ 31
    → All (λ result. is_positive result.res ≡ true) results
    → loop_from fd (length results) 0 results
      ≡ (copies (length results) (sends fd http_response_size), finished)
every_sent fd results small all =
    let n : ℕ = length results in
    ap (loop_from fd n 0) (sym (append-nil results))
    ∙ sends_until fd n 0 results [] [] small (omega arith) all
        (loop_stops fd n (0 + n) (omega arith))
    ∙ ap (λ calls. (calls, finished)) (append-nil _)

-- It stops after the first that sends nothing.
first_failure :
    (fd n : ℕ) (results : List IoResult) (last : IoResult)
    → n < 2 ^ 31
    → length results < n
    → All (λ result. is_positive result.res ≡ true) results
    → is_positive last.res ≡ false
    → loop_from fd n 0 (results ++ last ∷ []) ≡ (
      copies (length results) (sends fd http_response_size) ++ sends fd http_response_size ∷ [],
      finished,
    )
first_failure fd n results last small lt all neg =
    sends_until fd n 0 results (last ∷ []) _ small (omega (arith, lt)) all
      (logic_fails fd n (0 + length results) last small (omega (arith, lt)) neg)
