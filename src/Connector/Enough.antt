-- ===== src/Connector/Enough.antt =====
-- src/server_frontend/infrastructure/server_connector.cpp: the fuel of the loops does not matter where
-- it is more than there is to read.
use uscope_driver.Prelude.{
  ℕ, zero, suc, ◌+◌, ◌<◌, ◌≡◌, refl, ap, inl, inr, Bool, true, false, Bool-cases, List, [], ◌∷◌,
  Option, none, some, ltb, ◌==◌, if◌then◌else◌, length, take, drop, ◌++◌, u32, arith,
}
use uscope_driver.Exec.{Result, Exec, ok, err, continue, pure, ◌>>◌}
use uscope_driver.Connector.{
  Arrival, chunk, failure, Connection, put_back, read_some, send, overwrite, to_word, ack_message,
  receive_size, store_chunk, receive_chunks, receive_body, receive_message, chunk_size,
  max_msg_size,
}
use uscope_driver.Connector.Spending.{
  weight, left, Spent, rest_le, with_incoming, size_cost, receive_size-Spent,
}

module _ {S : Type 0} {A : Type 0} where
  if-same :
      (t : Bool) (m n m' n' : Exec S A) (s : S)
      → m s ≡ m' s
      → n s ≡ n' s
      → (if t then m else n) s ≡ (if t then m' else n') s
  if-same true m n m' n' s hm hn = hm
  if-same false m n m' n' s hm hn = hn

-- With more fuel than there is to read the size is the same for any fuel.
receive_size_enough :
    (fuel fuel' : ℕ) (raw : ℕ → ℕ) (cur : ℕ) (incoming : List Arrival) (c : Connection)
    → weight incoming < fuel
    → weight incoming < fuel'
    → receive_size fuel raw cur (with_incoming incoming c)
      ≡ receive_size fuel' raw cur (with_incoming incoming c)
unfolding receive_size ack_message send read_some
receive_size_enough zero fuel' raw cur incoming c h h' = absurd (omega (arith, h))
receive_size_enough (suc fuel) zero raw cur incoming c h h' = absurd (omega (arith, h'))
receive_size_enough (suc fuel) (suc fuel') raw cur [] c h h' = refl
receive_size_enough (suc fuel) (suc fuel') raw cur (failure ∷ incoming) c h h' = refl
receive_size_enough (suc fuel) (suc fuel') raw cur (chunk b bs ∷ incoming) c h h' =
    let fewer = rest_le 3 (weight (chunk b bs ∷ incoming)) b bs incoming (omega arith) in
    if-same (ltb (u32 (cur + length (take 4 (b ∷ bs)))) 4) _ _ _ _ _
      (receive_size_enough fuel fuel' _ _ (put_back (drop 3 bs) incoming) c
        (omega (arith, fewer, h)) (omega (arith, fewer, h')))
      (if-same (to_word (overwrite (take 4 (b ∷ bs)) raw) == 0) _ _ _ _ _
        (receive_size_enough fuel fuel' (λ i. 0) _ (put_back (drop 3 bs) incoming)
          (record c { sent = c.sent ++ (0x6B ∷ []) ∷ [] }) (omega (arith, fewer, h))
          (omega (arith, fewer, h')))
        refl)

stored_same :
    (progressive : ℕ) (bs : List ℕ) (c : Connection) (m n : Exec Connection (Unit {0}))
    → ((c' : Connection) → c'.incoming ≡ c.incoming → m c' ≡ n c')
    → (store_chunk progressive bs >> m) c ≡ (store_chunk progressive bs >> n) c
unfolding store_chunk
stored_same progressive bs c m n k =
    elim (Bool-cases (ltb max_msg_size (progressive + chunk_size))) [
      | inl e ↦ rw e refl
      | inr e ↦ rw e (k _ refl)
    ]

receive_chunks_enough :
    (fuel fuel' message_size progressive : ℕ) (incoming : List Arrival) (c : Connection)
    → weight incoming < fuel
    → weight incoming < fuel'
    → receive_chunks fuel message_size progressive (with_incoming incoming c)
      ≡ receive_chunks fuel' message_size progressive (with_incoming incoming c)
unfolding receive_chunks read_some
receive_chunks_enough zero fuel' message_size progressive incoming c h h' =
    absurd (omega (arith, h))
receive_chunks_enough (suc fuel) zero message_size progressive incoming c h h' =
    absurd (omega (arith, h'))
receive_chunks_enough (suc fuel) (suc fuel') message_size progressive [] c h h' = refl
receive_chunks_enough (suc fuel) (suc fuel') message_size progressive (failure ∷ incoming) c h h' =
    refl
receive_chunks_enough (suc fuel) (suc fuel') message_size progressive (chunk b bs ∷ incoming) c h
      h' =
    let fewer = rest_le 65535 (weight (chunk b bs ∷ incoming)) b bs incoming (omega arith) in
    let transferred = u32 (progressive + length (take chunk_size (b ∷ bs))) in
    stored_same progressive (take chunk_size (b ∷ bs)) _ _ _ (λ c' same.
      if-same (ltb transferred message_size) (receive_chunks fuel message_size transferred)
        (pure tt) (receive_chunks fuel' message_size transferred) (pure tt) c'
        (receive_chunks_enough fuel fuel' message_size transferred c'.incoming c'
          (omega (arith, fewer, ap weight same, h)) (omega (arith, fewer, ap weight same, h')))
        refl)

pub receive_message_enough :
    (fuel fuel' : ℕ) (c : Connection)
    → left c < fuel
    → left c < fuel'
    → receive_message fuel c ≡ receive_message fuel' c
unfolding receive_message
receive_message_enough fuel fuel' c h h' =
    let size_spent = receive_size-Spent fuel' (λ i. 0) 0 (left c) c.incoming c (omega arith) in
    rw (receive_size_enough fuel fuel' (λ i. 0) 0 c.incoming c h h')
      (after (receive_size fuel' (λ i. 0) 0 c) size_spent)
  where
    after :
        (r : Result (Option ℕ) × Connection)
        → Spent left (left c) size_cost r
        → continue r.0 (receive_body fuel) r.1 ≡ continue r.0 (receive_body fuel') r.1
    after (ok none, c') k = refl
    after (ok (some message_size), c') k =
        rw
          (receive_chunks_enough fuel fuel' message_size 0 c'.incoming c' (omega (arith, k, h))
            (omega (arith, k, h')))
          refl
    after (err e, c') k = refl
