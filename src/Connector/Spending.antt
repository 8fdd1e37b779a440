-- ===== src/Connector/Spending.antt =====
-- src/server_frontend/infrastructure/server_connector.cpp: how much of what the socket delivers each
-- operation takes, and that the loops end with what it delivers.
use uscope_driver.Prelude.{
  ℕ, zero, suc, ◌+◌, ◌≤◌, ◌≡◌, refl, ap, inl, inr, Bool, true, false, Bool-cases, List, [], ◌∷◌,
  Option, none, some, ltb, ◌==◌, if◌then◌else◌, length, take, drop, ◌++◌, u32, arith,
}
use uscope_driver.Exec.{Result, Exec, ok, err, continue, pure, gets, ◌>>=◌, ◌>>◌}
use uscope_driver.Connector.{
  Arrival, chunk, failure, Connection, ReadOutcome, bytes, put_back, taken, read_some, send,
  overwrite, to_word, ack_message, receive_size, store_chunk, receive_chunks, receive_body,
  receive_message, first_bytes, wait_ack, send_response, of_word, chunk_size, max_msg_size,
}

-- The bytes and the failures that are still to be read.
unfoldable pub weight : List Arrival → ℕ
weight [] = 0
weight (failure ∷ incoming) = suc (weight incoming)
weight (chunk b bs ∷ incoming) = suc (length bs + weight incoming)

module _ {S : Type 0} (measure : S → ℕ) {A : Type 0} where
  -- An operation that returns `a` has taken `cost a` at least of the measure `w`.
  abbrev pub Spent : ℕ → (A → ℕ) → Result A × S → Type 0
  Spent w cost (ok a, s) = measure s + cost a ≤ w
  Spent w cost (err e, s) = Unit {0}

module _ {S : Type 0} (measure : S → ℕ) {A : Type 0} where
  pub Spent-if :
      (w : ℕ) (cost : A → ℕ) (t : Bool) (m n : Exec S A) (s : S)
      → Spent measure w cost (m s)
      → Spent measure w cost (n s)
      → Spent measure w cost ((if t then m else n) s)
  Spent-if w cost true m n s hm hn = hm
  Spent-if w cost false m n s hm hn = hn

abbrev pub left : Connection → ℕ
left c = weight c.incoming

abbrev read_cost : ReadOutcome → ℕ
read_cost (bytes bs) = 1
read_cost _ = 0

length-drop_le : (k : ℕ) (bs : List ℕ) → length (drop k bs) ≤ length bs
length-drop_le zero bs = omega arith
length-drop_le (suc k) [] = omega arith
length-drop_le (suc k) (b ∷ bs) = omega (arith, length-drop_le k bs)

weight-put_back :
    (bs : List ℕ) (incoming : List Arrival)
    → weight (put_back bs incoming) ≡ length bs + weight incoming
unfolding weight
weight-put_back [] incoming = omega arith
weight-put_back (b ∷ bs) incoming = omega arith

weight-taken :
    (k : ℕ) (incoming : List Arrival)
    → weight (taken (suc k) incoming).1 + read_cost (taken (suc k) incoming).0 ≤ weight incoming
unfolding weight
weight-taken k [] = omega arith
weight-taken k (failure ∷ incoming) = omega arith
weight-taken k (chunk b bs ∷ incoming) =
    omega (arith, weight-put_back (drop k bs) incoming, length-drop_le k bs)

read_some-Spent :
    (k w : ℕ) (c : Connection) → left c ≤ w → Spent left w read_cost (read_some (suc k) c)
unfolding read_some
read_some-Spent k w c h = omega (arith, weight-taken k c.incoming)

abbrev pub size_cost : {A : Type 0} → Option A → ℕ
size_cost none = 0
size_cost (some size) = 1

abbrev pub with_incoming : List Arrival → Connection → Connection
with_incoming incoming c = record c { incoming = incoming }

-- What a read of a chunk leaves.
pub rest_le :
    (k w b : ℕ) (bs : List ℕ) (incoming : List Arrival)
    → weight (chunk b bs ∷ incoming) ≤ w
    → suc (weight (put_back (drop k bs) incoming)) ≤ w
unfolding weight
rest_le k w b bs incoming h =
    omega (arith, weight-put_back (drop k bs) incoming, length-drop_le k bs)

pub receive_size-Spent :
    (fuel : ℕ) (raw : ℕ → ℕ) (cur w : ℕ) (incoming : List Arrival) (c : Connection)
    → weight incoming ≤ w
    → Spent left w size_cost (receive_size fuel raw cur (with_incoming incoming c))
unfolding receive_size ack_message send read_some
receive_size-Spent zero raw cur w incoming c h = tt
receive_size-Spent (suc fuel) raw cur w [] c h = omega (arith, h)
receive_size-Spent (suc fuel) raw cur w (failure ∷ incoming) c h = tt
receive_size-Spent (suc fuel) raw cur w (chunk b bs ∷ incoming) c h =
    let fewer = rest_le 3 w b bs incoming h in
    Spent-if left w size_cost (ltb (u32 (cur + length (take 4 (b ∷ bs)))) 4) _ _ _
      (receive_size-Spent fuel _ _ w (put_back (drop 3 bs) incoming) c (omega (arith, fewer)))
      (Spent-if left w size_cost (to_word (overwrite (take 4 (b ∷ bs)) raw) == 0) _ _ _
        (receive_size-Spent fuel (λ i. 0) _ w (put_back (drop 3 bs) incoming)
          (record c { sent = c.sent ++ (0x6B ∷ []) ∷ [] }) (omega (arith, fewer)))
        (omega (arith, fewer)))

abbrev pub no_cost : {A : Type 0} → A → ℕ
no_cost a = 0

stored-Spent :
    (progressive w : ℕ) (bs : List ℕ) (c : Connection) (m : Exec Connection (Unit {0}))
    → ((c' : Connection) → c'.incoming ≡ c.incoming → Spent left w no_cost (m c'))
    → Spent left w no_cost ((store_chunk progressive bs >> m) c)
unfolding store_chunk
stored-Spent progressive w bs c m k =
    elim (Bool-cases (ltb max_msg_size (progressive + chunk_size))) [
      | inl e ↦ rw e tt
      | inr e ↦ rw e (k _ refl)
    ]

pub receive_chunks-Spent :
    (fuel message_size progressive w : ℕ) (incoming : List Arrival) (c : Connection)
    → weight incoming ≤ w
    → Spent left w no_cost (receive_chunks fuel message_size progressive (with_incoming incoming c))
unfolding receive_chunks read_some
receive_chunks-Spent zero message_size progressive w incoming c h = tt
receive_chunks-Spent (suc fuel) message_size progressive w [] c h = tt
receive_chunks-Spent (suc fuel) message_size progressive w (failure ∷ incoming) c h = tt
receive_chunks-Spent (suc fuel) message_size progressive w (chunk b bs ∷ incoming) c h =
    let fewer = rest_le 65535 w b bs incoming h in
    let transferred = u32 (progressive + length (take chunk_size (b ∷ bs))) in
    stored-Spent progressive w (take chunk_size (b ∷ bs)) _ _ (λ c' same.
      let less : left c' ≤ w = omega (arith, fewer, ap weight same) in
      Spent-if left w no_cost (ltb transferred message_size)
        (receive_chunks fuel message_size transferred) (pure tt) c'
        (receive_chunks-Spent fuel message_size transferred w c'.incoming c' less)
        (omega (arith, less)))

receive_body-Spent :
    (fuel w : ℕ) (r : Result (Option ℕ) × Connection)
    → Spent left w size_cost r
    → Spent left w size_cost (continue r.0 (receive_body fuel) r.1)
receive_body-Spent fuel w (ok none, c') k = k
receive_body-Spent fuel w (ok (some message_size), c') k =
    after (receive_chunks fuel message_size 0 c')
      (receive_chunks-Spent fuel message_size 0 (left c') c'.incoming c' (omega arith))
  where
    after :
        (r : Result (Unit {0}) × Connection)
        → Spent left (left c') no_cost r
        → Spent left w size_cost (
            continue r.0
              (λ x. gets (λ c. first_bytes message_size c.message_buffer) >>= λ message.
                pure (some message))
              r.1)
    after (ok x, c'') m = omega (arith, k, m)
    after (err e, c'') m = tt
receive_body-Spent fuel w (err e, c') k = tt

pub receive_message-Spent :
    (fuel w : ℕ) (c : Connection) → left c ≤ w → Spent left w size_cost (receive_message fuel c)
unfolding receive_message
receive_message-Spent fuel w c h =
    receive_body-Spent fuel w (receive_size fuel (λ i. 0) 0 c)
      (receive_size-Spent fuel (λ i. 0) 0 w c.incoming c h)

wait_ack_left :
    (incoming : List Arrival) (c : Connection)
    → left (wait_ack (with_incoming incoming c)).1 ≤ weight incoming
unfolding wait_ack read_some
wait_ack_left [] c = omega arith
wait_ack_left (failure ∷ incoming) c = unfold weight in omega arith
wait_ack_left (chunk b bs ∷ incoming) c =
    omega (arith, rest_le 0 (weight (chunk b bs ∷ incoming)) b bs incoming (omega arith))

-- A response takes nothing but its acknowledgement.
pub send_response_left :
    (raw_response : List ℕ) (c : Connection) → left (send_response raw_response c).1 ≤ left c
unfolding send_response send
send_response_left raw_response c =
    let announced : Connection = record c { sent = c.sent ++ of_word (length raw_response) ∷ [] } in
    after (wait_ack announced) (wait_ack_left c.incoming announced)
  where
    after :
        (r : Result (Unit {0}) × Connection)
        → left r.1 ≤ left c
        → left (continue r.0 (λ x. send raw_response) r.1).1 ≤ left c
    after (ok x, c') h = h
    after (err e, c') h = h
