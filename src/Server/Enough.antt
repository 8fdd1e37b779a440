-- ===== src/Server/Enough.antt =====
-- src/server_frontend/infrastructure/server_connector.cpp: the loop over the commands of a client ends
-- with what the client sends.
use uscope_driver.Prelude.{ℕ, ◌≤◌, ◌≡◌, Bool, true, false, List, some}
use uscope_driver.Exec.{Exec, err, out_of_fuel}
use uscope_driver.Exec.Keeps.{Keeps}
use uscope_driver.Connector.Spending.{left}
use uscope_driver.Connector.Ends.{Ends}
use uscope_driver.Frontend.{World}
use uscope_driver.Server.{Wire, Session, serve_received}

-- The bytes and the failures that the client of a session still sends.
abbrev pub ahead : {Emu : Type 0} → Session Emu → ℕ
ahead s = left s.connection

abbrev AtMost : {Emu : Type 0} → ℕ → Session Emu → Type 0
AtMost w s = ahead s ≤ w

abbrev true_cost : Bool → ℕ
true_cost true = 1
true_cost false = 0

module _ {Json Emu : Type 0} (world : World Json Emu) (wire : Wire Json) where
  -- The handling of some message was cut short.
  abbrev IsCut : Type 0
  IsCut =
      (bytes : List ℕ) × (s : Session Emu) × ((serve_received world wire (some bytes) s).0
        ≡ err out_of_fuel)
