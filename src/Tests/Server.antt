-- ===== src/Tests/Server.antt =====
-- Tests of the server: a null command that comes in two pieces, and the acknowledgement of the size
-- of its response.
use uscope_driver.Prelude.{◌≡◌, refl, [], ◌∷◌, some}
use uscope_driver.Exec.{ok}
use uscope_driver.Response.{ResponseCode}
use uscope_driver.Connector.{
  chunk, Connection, receive_message, receive_size, receive_chunks, read_some, store_chunk,
  ack_message, send,
}
use uscope_driver.Connector.Framing.{size_chunk}
use uscope_driver.Frontend.{reply, nothing}
use uscope_driver.Frontend.CommandProcessor.{ResponseObj, process_command, process_body, contains}
use uscope_driver.Server.{Wire, Session}
use uscope_driver.Tests.Documents.{Doc, documents, words, empty, fields, field, no_field}
use uscope_driver.Tests.Frontend.{world, driver}

abbrev null_command : Doc
null_command = fields (field "cmd" (words "null") (field "args" empty no_field))

abbrev wire : Wire Doc
wire = record {
  from_msgpack = λ bytes. ok null_command;
  at = documents.const_subscript;
  response_to_msgpack = λ resp. 1 ∷ 2 ∷ [];
  reply_to_msgpack = λ r. 3 ∷ [];
}

abbrev connection : Connection
connection = record {
  incoming = size_chunk 3 ∷ chunk 10 (11 ∷ []) ∷ chunk 12 [] ∷ chunk 0x6B [] ∷ [];
  sent = [];
  chunk_buffer = λ i. 0;
  message_buffer = λ i. 0;
}

abbrev session : Session (Unit {0})
session = record { connection = connection; driver = driver }

message_received :
    receive_message 9 connection ≡ (ok (some (10 ∷ 11 ∷ 12 ∷ [])), (receive_message 9 connection).1)
unfolding receive_message receive_size receive_chunks read_some store_chunk ack_message send
message_received = refl

acknowledged : (receive_message 9 connection).1.incoming ≡ chunk 0x6B [] ∷ []
unfolding receive_message receive_size receive_chunks read_some store_chunk ack_message send
acknowledged = refl

abbrev null_answer : ResponseObj Doc
null_answer = record { cmd = "null"; body = reply ResponseCode.ok nothing }

null_dispatched : process_command world "null" empty driver ≡ (ok null_answer, driver)
unfolding process_command process_body contains
null_dispatched = refl
