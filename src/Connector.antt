-- ===== src/Connector.antt =====
-- includes/server_frontend/infrastructure/server_connector.hpp and
-- src/server_frontend/infrastructure/server_connector.cpp: the messages of a connection. What the socket
-- delivers is a list of arrivals, of which a read takes at most the bytes it asked for; at the end of
-- the list the client is gone. Each read takes a byte at least, so the bytes and the failures that
-- are left bound the rounds of the loops.
pub mod Reception
pub mod Framing
pub mod Spending
pub mod Enough
pub mod Ends
use uscope_driver.Prelude.{
  ℕ, zero, suc, ◌+◌, ◌-◌, ◌*◌, ◌/◌, ◌%◌, ◌^◌, Bool, List, [], ◌∷◌, ◌++◌, Option, none, some, ltb,
  leb, ◌==◌, ◌&&◌, if◌then◌else◌, length, get_elem?, take, drop, u32,
}
use uscope_driver.Exec.{
  Exec, ok, runtime_error, out_of_fuel, fault, pure, raise, gets, modify, ◌>>=◌, ◌>>◌,
}

-- Bytes that are there together, the first of them apart, or an error of the socket.
pub data Arrival : Type 0 where
  chunk : ℕ → List ℕ → Arrival
  failure : Arrival

pub record Connection : Type 0 where
  pub incoming : List Arrival
  pub sent : List (List ℕ)
  pub chunk_buffer : ℕ → ℕ
  pub message_buffer : ℕ → ℕ

pub data ReadOutcome : Type 0 where
  bytes : List ℕ → ReadOutcome
  eof broken : ReadOutcome

-- What is left of a chunk after a read.
abbrev pub put_back : List ℕ → List Arrival → List Arrival
put_back [] incoming = incoming
put_back (b ∷ bs) incoming = chunk b bs ∷ incoming

abbrev pub taken : ℕ → List Arrival → ReadOutcome × List Arrival
taken n [] = (eof, [])
taken n (failure ∷ incoming) = (broken, incoming)
taken n (chunk b bs ∷ incoming) = (bytes (take n (b ∷ bs)), put_back (drop n (b ∷ bs)) incoming)

-- `s.read_some(asio::buffer(…, n), error)`
unfoldable pub read_some : ℕ → Exec Connection ReadOutcome
read_some n c = let (r, incoming) = taken n c.incoming in (ok r, record c { incoming = incoming })

unfoldable pub send : List ℕ → Exec Connection (Unit {0})
send message = modify (λ c. record c { sent = c.sent ++ message ∷ [] })

-- A read writes the bytes at the start of its buffer.
abbrev pub overwrite : List ℕ → (ℕ → ℕ) → ℕ → ℕ
overwrite bs buffer i = elim (get_elem? bs i) [ none ↦ buffer i | some b ↦ b ]

-- Four bytes, the lowest first.
abbrev pub to_word : (ℕ → ℕ) → ℕ
to_word raw = raw 0 + 2 ^ 8 * raw 1 + 2 ^ 16 * raw 2 + 2 ^ 24 * raw 3

abbrev pub of_word : ℕ → List ℕ
of_word n = n % 2 ^ 8 ∷ n / 2 ^ 8 % 2 ^ 8 ∷ n / 2 ^ 16 % 2 ^ 8 ∷ n / 2 ^ 24 % 2 ^ 8 ∷ []

-- `ack_message`: the byte `k`.
unfoldable pub ack_message : Exec Connection (Unit {0})
unfolding send
ack_message = send (0x6B ∷ [])

-- The loops that read the size of a message. The bytes of each read go to the start of the buffer,
-- and the count goes on from one size to the next.
unfoldable pub receive_size : ℕ → (ℕ → ℕ) → ℕ → Exec Connection (Option ℕ)
unfolding read_some ack_message
receive_size zero raw_command_size cur_size = raise out_of_fuel
receive_size (suc fuel) raw_command_size cur_size = do
  outcome ← read_some 4
  elim outcome [
    | eof ↦ pure none
    | broken ↦ raise (runtime_error "read error")
    | bytes bs ↦
        let raw = overwrite bs raw_command_size in
        let size = u32 (cur_size + length bs) in
        if ltb size 4 then receive_size fuel raw size else (do
          ack_message
          (if to_word raw == 0 then receive_size fuel (λ i. 0) size else pure (some (to_word raw))))
  ]

abbrev pub chunk_size : ℕ
chunk_size = 65536

abbrev pub max_msg_size : ℕ
max_msg_size = 2 ^ 30

-- The whole chunk buffer is copied, whatever the size of the read.
abbrev pub copied : ℕ → (ℕ → ℕ) → (ℕ → ℕ) → ℕ → ℕ
copied progressive chunk_buffer message_buffer i =
    if leb progressive i && ltb i (progressive + chunk_size)
    then chunk_buffer (i - progressive)
    else message_buffer i

unfoldable pub store_chunk : ℕ → List ℕ → Exec Connection (Unit {0})
store_chunk progressive bs = do
  modify (λ c. record c { chunk_buffer = overwrite bs c.chunk_buffer })
  (if ltb max_msg_size (progressive + chunk_size)
      then raise fault
      else modify
          (λ c. record c { message_buffer = copied progressive c.chunk_buffer c.message_buffer }))

unfoldable pub receive_chunks : ℕ → ℕ → ℕ → Exec Connection (Unit {0})
unfolding read_some store_chunk
receive_chunks zero message_size progressive = raise out_of_fuel
receive_chunks (suc fuel) message_size progressive = do
  outcome ← read_some chunk_size
  elim outcome [
    | eof ↦ raise (runtime_error "system error")
    | broken ↦ raise (runtime_error "read error")
    | bytes bs ↦
        let transfer_progressive = u32 (progressive + length bs) in
        store_chunk progressive bs
        >> (if ltb transfer_progressive message_size
            then receive_chunks fuel message_size transfer_progressive
            else pure tt)
  ]

abbrev pub first_bytes : ℕ → (ℕ → ℕ) → List ℕ
first_bytes zero buffer = []
first_bytes (suc n) buffer = buffer 0 ∷ first_bytes n (λ i. buffer (suc i))

-- What follows the size; `none` is a client that is gone before one came.
abbrev pub receive_body : ℕ → Option ℕ → Exec Connection (Option (List ℕ))
receive_body fuel none = pure none
receive_body fuel (some message_size) = do
  receive_chunks fuel message_size 0
  message ← gets (λ c. first_bytes message_size c.message_buffer)
  pure (some message)

unfoldable pub receive_message : ℕ → Exec Connection (Option (List ℕ))
receive_message fuel = receive_size fuel (λ i. 0) 0 >>= receive_body fuel

unfoldable pub wait_ack : Exec Connection (Unit {0})
unfolding read_some
wait_ack = do
  outcome ← read_some 1
  elim outcome [
    | eof ↦ raise (runtime_error "system error")
    | broken ↦ raise (runtime_error "read error")
    | bytes bs ↦ pure tt
  ]

unfoldable pub send_response : List ℕ → Exec Connection (Unit {0})
unfolding send wait_ack
send_response raw_response = do send (of_word (length raw_response)); wait_ack; send raw_response
