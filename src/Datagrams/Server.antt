-- ===== src/Datagrams/Server.antt =====
-- What the server of udp/udpser.c answers.
use c_modules.Base.{
  ℕ, zero, suc, ◌+◌, ◌<◌, ◌≤◌, ◌≡◌, refl, ap, ◌∙◌, arith, List, [], ◌∷◌, ◌++◌, length, All, lt→ltb,
  Received, recv_error, bytes,
}
use c_modules.Datagrams.{
  Served, int_max, ack, datagram_size, received_close, still_waiting, respond, serve,
}

-- `count` texts of one kind, from number `n` on.
abbrev pub numbered : (text : ℕ → List ℕ) → (n count : ℕ) → List (List ℕ)
numbered text n zero = []
numbered text n (suc count) = text n ∷ numbered text (suc n) count

-- An error, or a datagram that is not empty and leaves room for the NUL.
abbrev pub IsAnswered : Received → Type 0
IsAnswered recv_error = Unit
IsAnswered (bytes text) = (0 < length text) × (length text < datagram_size)

serve-IsAnswered :
    (n : ℕ) (r : Received) (more : List Received)
    → IsAnswered r
    → serve n (r ∷ more) ≡ respond n (serve (suc n) more)
unfolding serve
serve-IsAnswered n recv_error more h = refl
serve-IsAnswered n (bytes []) more h = absurd (omega (arith, h.0))
serve-IsAnswered n (bytes (c ∷ text)) more h =
    rw (lt→ltb (length (c ∷ text)) datagram_size h.1) refl

respond-below :
    (n : ℕ) (s : Served) → n < int_max → respond n s ≡ record s { responses = ack n ∷ s.responses }
unfolding respond
respond-below n s lt = rw (lt→ltb n int_max lt) refl

pub serve-waits :
    (n : ℕ) (received : List Received)
    → All IsAnswered received
    → n + length received ≤ int_max
    → serve n received ≡ record {
      responses = numbered ack n (length received);
      finish = still_waiting (n + length received);
    }
unfolding serve
serve-waits n [] h fits =
    ap (λ m. record { responses = []; finish = still_waiting m }) {x = n} {y = n + 0} (omega arith)
serve-waits n (r ∷ received) h fits =
    serve-IsAnswered n r received h.0
    ∙ ap (respond n) (serve-waits (suc n) received h.1 (omega arith))
    ∙ respond-below n _ (omega arith)
    ∙ ap
        (λ m. record {
          responses = numbered ack n (suc (length received));
          finish = still_waiting m;
        })
        {x = suc n + length received} {y = n + suc (length received)} (omega arith)

-- While the count fits into an `int`, errors and datagrams of 1 to 2047 bytes are answered by
-- acknowledgements with rising numbers, and at an empty datagram the server ends with their count,
-- whatever would follow.
serve-closes :
    (n : ℕ) (received more : List Received)
    → All IsAnswered received
    → n + length received ≤ int_max
    → serve n (received ++ (bytes [] ∷ more)) ≡ record {
      responses = numbered ack n (length received);
      finish = received_close (n + length received);
    }
unfolding serve
serve-closes n [] more h fits =
    ap (λ m. record { responses = []; finish = received_close m }) {x = n} {y = n + 0} (omega arith)
serve-closes n (r ∷ received) more h fits =
    serve-IsAnswered n r (received ++ (bytes [] ∷ more)) h.0
    ∙ ap (respond n) (serve-closes (suc n) received more h.1 (omega arith))
    ∙ respond-below n _ (omega arith)
    ∙ ap
        (λ m. record {
          responses = numbered ack n (suc (length received));
          finish = received_close m;
        })
        {x = suc n + length received} {y = n + suc (length received)} (omega arith)
