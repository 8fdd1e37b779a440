-- ===== src/Connector/Ends.antt =====
-- src/server_frontend/infrastructure/server_connector.cpp: the loops that receive a message end, as
-- every read takes something off what is there to read.
use uscope_driver.Prelude.{
  ℕ, zero, suc, ◌+◌, ◌<◌, ◌≡◌, ◌≢◌, ◌⊎◌, refl, subst, ap, inl, inr, Bool, true, false, Bool-cases,
  List, [], ◌∷◌, Option, none, some, ltb, ◌==◌, if◌then◌else◌, length, take, drop, ◌++◌, u32, arith,
}
use uscope_driver.Exec.{
  Error, Result, Exec, ok, err, runtime_error, logic_error, json_error, process_exit, fault,
  out_of_fuel, continue, pure, ◌>>◌,
}
use uscope_driver.Connector.{
  Arrival, chunk, failure, Connection, put_back, read_some, send, overwrite, to_word, ack_message,
  receive_size, store_chunk, receive_chunks, receive_body, receive_message, first_bytes, chunk_size,
  max_msg_size,
}
use uscope_driver.Connector.Spending.{
  weight, left, Spent, rest_le, with_incoming, size_cost, receive_size-Spent,
}

-- A result that is not that of a loop cut short.
abbrev pub IsFinal : Error → Type 0
IsFinal out_of_fuel = ⊥
IsFinal _ = Unit

abbrev pub Ends : {A : Type 0} → Result A → Type 0
Ends (ok a) = Unit
Ends (err e) = IsFinal e

pub Ends-cases : {A : Type 0} (r : Result A) → Ends r ⊎ (r ≡ err out_of_fuel)
Ends-cases (ok a) = inl tt
Ends-cases (err (runtime_error e)) = inl tt
Ends-cases (err logic_error) = inl tt
Ends-cases (err json_error) = inl tt
Ends-cases (err process_exit) = inl tt
Ends-cases (err fault) = inl tt
Ends-cases (err out_of_fuel) = inr refl

pub Ends-differs : {A : Type 0} (r : Result A) → Ends r → r ≢ err out_of_fuel
Ends-differs r h e = subst Ends e h

module _ {S : Type 0} {A : Type 0} where
  if-Ends :
      (t : Bool) (m n : Exec S A) (s : S)
      → Ends (m s).0
      → Ends (n s).0
      → Ends ((if t then m else n) s).0
  if-Ends true m n s hm hn = hm
  if-Ends false m n s hm hn = hn

receive_size-Ends :
    (fuel : ℕ) (raw : ℕ → ℕ) (cur : ℕ) (incoming : List Arrival) (c : Connection)
    → weight incoming < fuel
    → Ends (receive_size fuel raw cur (with_incoming incoming c)).0
unfolding receive_size ack_message send read_some
receive_size-Ends zero raw cur incoming c h = absurd (omega (arith, h))
receive_size-Ends (suc fuel) raw cur [] c h = tt
receive_size-Ends (suc fuel) raw cur (failure ∷ incoming) c h = tt
receive_size-Ends (suc fuel) raw cur (chunk b bs ∷ incoming) c h =
    let fewer = rest_le 3 (weight (chunk b bs ∷ incoming)) b bs incoming (omega arith) in
    if-Ends (ltb (u32 (cur + length (take 4 (b ∷ bs)))) 4) _ _ _
      (receive_size-Ends fuel _ _ (put_back (drop 3 bs) incoming) c (omega (arith, fewer, h)))
      (if-Ends (to_word (overwrite (take 4 (b ∷ bs)) raw) == 0) _ _ _
        (receive_size-Ends fuel (λ i. 0) _ (put_back (drop 3 bs) incoming)
          (record c { sent = c.sent ++ (0x6B ∷ []) ∷ [] }) (omega (arith, fewer, h)))
        tt)

stored-Ends :
    (progressive : ℕ) (bs : List ℕ) (c : Connection) (m : Exec Connection (Unit {0}))
    → ((c' : Connection) → c'.incoming ≡ c.incoming → Ends (m c').0)
    → Ends ((store_chunk progressive bs >> m) c).0
unfolding store_chunk
stored-Ends progressive bs c m k = elim (Bool-cases (ltb max_msg_size (progressive + chunk_size))) [
  | inl e ↦ rw e tt
  | inr e ↦ rw e (k _ refl)
]

receive_chunks-Ends :
    (fuel message_size progressive : ℕ) (incoming : List Arrival) (c : Connection)
    → weight incoming < fuel
    → Ends (receive_chunks fuel message_size progressive (with_incoming incoming c)).0
unfolding receive_chunks read_some
receive_chunks-Ends zero message_size progressive incoming c h = absurd (omega (arith, h))
receive_chunks-Ends (suc fuel) message_size progressive [] c h = tt
receive_chunks-Ends (suc fuel) message_size progressive (failure ∷ incoming) c h = tt
receive_chunks-Ends (suc fuel) message_size progressive (chunk b bs ∷ incoming) c h =
    let fewer = rest_le 65535 (weight (chunk b bs ∷ incoming)) b bs incoming (omega arith) in
    let transferred = u32 (progressive + length (take chunk_size (b ∷ bs))) in
    stored-Ends progressive (take chunk_size (b ∷ bs)) _ _ (λ c' same.
      if-Ends (ltb transferred message_size) (receive_chunks fuel message_size transferred)
        (pure tt) c'
        (receive_chunks-Ends fuel message_size transferred c'.incoming c'
          (omega (arith, fewer, ap weight same, h)))
        tt)

pub receive_message-Ends :
    (fuel : ℕ) (c : Connection) → left c < fuel → Ends (receive_message fuel c).0
unfolding receive_message
receive_message-Ends fuel c h =
    after (receive_size fuel (λ i. 0) 0 c)
      (receive_size-Spent fuel (λ i. 0) 0 (left c) c.incoming c (omega arith))
      (receive_size-Ends fuel (λ i. 0) 0 c.incoming c h)
  where
    unmessaged :
        (n : ℕ) (r : Result (Unit {0}) × Connection)
        → Ends r.0
        → Ends
            (continue r.0
              (λ u. (λ (c' : Connection). (ok (some (first_bytes n c'.message_buffer)), c')))
              r.1).0
    unmessaged n (ok u, c') k = tt
    unmessaged n (err e, c') k = k

    after :
        (r : Result (Option ℕ) × Connection)
        → Spent left (left c) size_cost r
        → Ends r.0
        → Ends (continue r.0 (receive_body fuel) r.1).0
    after (ok none, c') k ends = tt
    after (ok (some n), c') k ends =
        unmessaged n (receive_chunks fuel n 0 c')
          (receive_chunks-Ends fuel n 0 c'.incoming c' (omega (arith, k, h)))
    after (err e, c') k ends = ends
