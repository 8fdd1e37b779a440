-- ===== src/Server.antt =====
-- src/server_frontend/infrastructure/server_connector.cpp: the loop of `start_server` over the commands
-- of one client. A round that ends with an exception ends the process, as nothing catches it.
pub mod Enough
use uscope_driver.Prelude.{
  ℕ, zero, suc, String, Bool, true, false, List, [], ◌∷◌, Option, none, some, if◌then◌else◌,
}
use uscope_driver.Decimal.{concat}
use uscope_driver.Exec.{Result, Exec, out_of_fuel, pure, raise, lift, zoom, ◌>>=◌, ◌>>◌}
use uscope_driver.Response.{invalid_cmd_schema}
use uscope_driver.Connector.{Connection, receive_message, send_response}
use uscope_driver.Frontend.{World, Driver, Reply, command, validated, reply, message}
use uscope_driver.Frontend.CommandProcessor.{ResponseObj, process_command}

-- The encoding of documents as bytes, and `j.at(key)`, which throws where the key is missing.
pub record Wire (Json : Type 0) : Type 0 where
  pub from_msgpack : List ℕ → Result Json
  pub at : Json → String → Result Json
  pub response_to_msgpack : ResponseObj Json → List ℕ
  pub reply_to_msgpack : Reply Json → List ℕ

pub record Session (Emu : Type 0) : Type 0 where
  pub connection : Connection
  pub driver : Driver Emu

abbrev pub on_connection : {Emu A : Type 0} → Exec Connection A → Exec (Session Emu) A
on_connection = zoom (λ s. s.connection) (λ c s. record s { connection = c })

abbrev pub on_driver : {Emu A : Type 0} → Exec (Driver Emu) A → Exec (Session Emu) A
on_driver = zoom (λ s. s.driver) (λ d s. record s { driver = d })

module _ {Json Emu : Type 0} (w : World Json Emu) (wire : Wire Json) where
  abbrev pub invalid_object : String → Reply Json
  invalid_object error_message =
      reply invalid_cmd_schema
        (message (concat ("DRIVER ERROR: Invalid command object received\n" ∷ error_message ∷ [])))

  -- The answer to one command object.
  unfoldable pub answer : Json → Exec (Session Emu) (Unit {0})
  answer command_obj =
      validated (w.invalid command command_obj)
        (λ error_message.
          on_connection (send_response (wire.reply_to_msgpack (invalid_object error_message))))
        (do
          cmd ← lift (wire.at command_obj "cmd")
          command_string ← lift (w.json.get_string cmd)
          arguments ← lift (wire.at command_obj "args")
          resp ← on_driver (process_command w command_string arguments)
          on_connection (send_response (wire.response_to_msgpack resp)))

  -- What follows the reception of a message; `none` is a client that is gone.
  abbrev pub serve_received : Option (List ℕ) → Exec (Session Emu) Bool
  serve_received none = pure false
  serve_received (some bytes) = do
    command_obj ← lift (wire.from_msgpack bytes)
    answer command_obj
    pure true

  -- A round of the inner loop, and whether the client is still there.
  unfoldable pub serve_one : ℕ → Exec (Session Emu) Bool
  serve_one fuel = on_connection (receive_message fuel) >>= serve_received

  unfoldable pub serve : ℕ → ℕ → Exec (Session Emu) (Unit {0})
  unfolding serve_one
  serve zero fuel = raise out_of_fuel
  serve (suc rounds) fuel = do
    there ← serve_one fuel
    (if there then serve rounds fuel else pure tt)
