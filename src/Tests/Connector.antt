-- ===== src/Tests/Connector.antt =====
-- Tests of the messages.
use uscope_driver.Prelude.{◌≡◌, refl, List, [], ◌∷◌, some, take, arith}
use uscope_driver.Exec.{ok}
use uscope_driver.Connector.{Arrival, chunk, failure, Connection, receive_message}
use uscope_driver.Connector.Reception.{flat}
use uscope_driver.Connector.Framing.{size_chunk, receive_message_lem}

-- Three bytes in two pieces, and what another message begins with.
abbrev pieces : List Arrival
pieces = chunk 10 (11 ∷ []) ∷ chunk 12 (13 ∷ []) ∷ failure ∷ []

abbrev connection : Connection
connection = record {
  incoming = size_chunk 3 ∷ pieces;
  sent = [];
  chunk_buffer = λ i. 0;
  message_buffer = λ i. 0;
}

pieces-flat : flat pieces ≡ 10 ∷ 11 ∷ 12 ∷ 13 ∷ []
unfolding flat
pieces-flat = refl

receive_message_lem_example : (receive_message 5 connection).0 ≡ ok (some (take 3 (flat pieces)))
unfolding flat
receive_message_lem_example =
    receive_message_lem 4 3 connection pieces refl (omega arith) (omega arith) (omega arith)
      (omega arith)
