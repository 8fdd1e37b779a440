-- ===== src/Connector/Framing.antt =====
-- A message behind its size is received whole, however it is cut.
use uscope_driver.Prelude.{
  ℕ, zero, suc, ◌+◌, ◌-◌, ◌*◌, ◌/◌, ◌%◌, ◌<◌, ◌≤◌, ◌^◌, ◌≡◌, ◌∙◌, refl, ap, false, List, [], ◌∷◌,
  ◌++◌, Option, some, ◌==◌, length, get_elem?, take, arith,
}
use uscope_driver.Exec.{ok}
use uscope_driver.Connector.{
  Arrival, chunk, Connection, chunk_size, max_msg_size, receive_size, receive_message, first_bytes,
  read_some, ack_message, send,
}
use uscope_driver.Connector.Reception.{flat, receive_chunks_lem}

first_bytes-take :
    (n : ℕ) (received : List ℕ) (buffer : ℕ → ℕ)
    → ((i : ℕ) → i < n → get_elem? received i ≡ some (buffer i))
    → first_bytes n buffer ≡ take n received
first_bytes-take zero received buffer h = refl
first_bytes-take (suc n) [] buffer h = absurd (no_byte (h 0 (omega arith)))
  where
    no_byte : Option.none ≡ some (buffer 0) → ⊥
    no_byte e = cc
first_bytes-take (suc n) (b ∷ received) buffer h =
    let rest =
      first_bytes-take n received (λ i. buffer (suc i)) (λ i lt. h (suc i) (omega (arith, lt))) in
    let first : b ≡ buffer 0 = ground (arith, h 0 (omega arith)) in rw (rest, first)

word_value :
    (n : ℕ)
    → n < 2 ^ 32
    → n % 2 ^ 8
        + 2 ^ 8 * (n / 2 ^ 8 % 2 ^ 8)
        + 2 ^ 16 * (n / 2 ^ 16 % 2 ^ 8)
        + 2 ^ 24 * (n / 2 ^ 24 % 2 ^ 8)
      ≡ n
word_value n h = omega (arith, h)

-- The four bytes of a size in one piece.
abbrev pub size_chunk : ℕ → Arrival
size_chunk n = chunk (n % 2 ^ 8) (n / 2 ^ 8 % 2 ^ 8 ∷ n / 2 ^ 16 % 2 ^ 8 ∷ n / 2 ^ 24 % 2 ^ 8 ∷ [])

size_received :
    (fuel size : ℕ) (c : Connection) (rest : List Arrival)
    → 0 < size
    → size < 2 ^ 32
    → c.incoming ≡ size_chunk size ∷ rest
    → receive_size (suc fuel) (λ i. 0) 0 c
      ≡ (ok (some size), record c { incoming = rest; sent = c.sent ++ (0x6B ∷ []) ∷ [] })
unfolding receive_size read_some ack_message send
size_received fuel size c rest pos small there =
    let word = word_value size small in
    let nonzero : (size == 0) ≡ false = ground (arith, pos) in rw (there, word, nonzero)

-- A client that sends the four bytes of a size at once, and then at least as many bytes in pieces of
-- any length, has the first bytes of that number received as its message, if the size is above zero
-- and leaves the buffer room for one more chunk. A fuel above the number of the bytes is enough.
pub receive_message_lem :
    (fuel size : ℕ) (c : Connection) (rest : List Arrival)
    → c.incoming ≡ size_chunk size ∷ rest
    → 0 < size
    → size + chunk_size ≤ max_msg_size
    → size ≤ length (flat rest)
    → length (flat rest) < suc fuel
    → (receive_message (suc fuel) c).0 ≡ ok (some (take size (flat rest)))
unfolding receive_message
receive_message_lem fuel size c rest there pos fits whole enough =
    let c1 = record c { incoming = rest; sent = c.sent ++ (0x6B ∷ []) ∷ [] } in
    let (c', ended, received) =
      receive_chunks_lem (suc fuel) size 0 c1 enough pos (omega (arith, whole)) fits in
    rw (
      size_received fuel size c rest pos (omega (arith, fits)) there,
      ended,
      first_bytes-take size (flat rest) c'.message_buffer
          (λ i lt. ap (get_elem? (flat rest)) (from_start i) ∙ received.stored i (omega arith) lt),
    )
  where
    from_start : (i : ℕ) → i ≡ i - 0
    from_start i = omega arith
