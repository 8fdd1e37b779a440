-- ===== src/Startup.antt =====
-- src/uscope_driver.cpp: the start of the driver, up to the files that its objects open. The options
-- come from a library, and the environment from outside.
pub mod Opening
use uscope_driver.Prelude.{
  ℕ, ◌^◌, String, Bool, true, false, List, [], ◌∷◌, Option, none, some, ltb, ◌&&◌, if◌then◌else◌,
}
use uscope_driver.Interfaces.{
  InterfacesDictionary, FilePath, PathError, found, thrown, if_dict, set_arch, get_control_bus,
  get_cores_bus, get_data_bus,
}

-- The options. The log level is the 32-bit pattern of an `int`.
pub record Options : Type 0 where
  pub debug_hil : Bool
  pub log_command : Bool
  pub log_level : ℕ
  pub read_version : Bool

pub data LogLevel : Type 0 where
  trace info warn : LogLevel

-- `includes/configuration.hpp`, as far as the program sets it.
pub record Configuration : Type 0 where
  pub server_port : ℕ
  pub debug_hil : Bool

unfoldable pub level_of : Options → LogLevel
level_of o =
    if o.log_command
    then if ltb 0 o.log_level && ltb o.log_level (2 ^ 31) then LogLevel.trace else info
    else warn

-- The files that the objects of the server open.
pub record Files : Type 0 where
  pub control_bus : String
  pub cores_bus : String
  pub data_bus : String

-- How the program goes on: it shows its version and ends; it has made a text from no architecture at
-- all, which is undefined; an exception ends it; or it comes to open these files.
pub data Outcome : Type 0 where
  version_shown undefined_arch : Outcome
  crashed : PathError → Outcome
  opening : Configuration → LogLevel → Files → Outcome

abbrev with_path : FilePath → (String → Outcome) → Outcome
with_path (found path) next = next path
with_path (thrown e) next = crashed e

-- The constructors of the buses and of the scope's file, one after the other.
unfoldable pub construct : Options → InterfacesDictionary → Outcome
construct o d = with_path (get_control_bus d) (λ control_bus.
    with_path (get_cores_bus d) (λ cores_bus. with_path (get_data_bus d) (λ data_bus.
      opening (record { server_port = 6666; debug_hil = o.debug_hil }) (level_of o)
        (record { control_bus = control_bus; cores_bus = cores_bus; data_bus = data_bus }))))

abbrev with_arch : Options → Option String → Outcome
with_arch o none = undefined_arch
with_arch o (some arch) = construct o (set_arch arch if_dict)

-- `main`, with what `getenv("ARCH")` gives.
unfoldable pub start : Options → Option String → Outcome
start o arch = if o.read_version then version_shown else with_arch o arch
