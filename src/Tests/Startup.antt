-- ===== src/Tests/Startup.antt =====
-- Tests of the start of the programs.
use uscope_driver.Prelude.{◌≡◌, ◌↔◌, true, false, some}
use uscope_driver.Startup.{Options, start}
use uscope_driver.Startup.Opening.{KnownArch, is_opening, start_lem}

abbrev options : Options
options = record { debug_hil = false; log_command = true; log_level = 1; read_version = false }

start_lem_example :
    (is_opening (start options (some "emulate")) ≡ true)
    ↔ ((false ≡ false) × KnownArch (some "emulate"))
start_lem_example = start_lem options (some "emulate")
