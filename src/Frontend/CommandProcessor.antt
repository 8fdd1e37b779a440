-- ===== src/Frontend/CommandProcessor.antt =====
-- The sets of includes/server_frontend/infrastructure/command.hpp and the dispatcher of
-- src/server_frontend/infrastructure/command_processor.cpp.
use uscope_driver.Prelude.{String, Bool, false, List, [], ◌∷◌, ◌||◌, if◌then◌else◌, str_eq}
use uscope_driver.Exec.{Exec, pure, ◌>>=◌}
use uscope_driver.Response.{ResponseCode, invalid_cmd_schema}
use uscope_driver.Frontend.{World, Driver, Reply, reply, message, nothing}
use uscope_driver.Frontend.ControlEndpoints
use uscope_driver.Frontend.ScopeEndpoints
use uscope_driver.Frontend.CoresEndpoints
use uscope_driver.Frontend.PlatformEndpoints

abbrev pub infrastructure_commands : List String
infrastructure_commands = "null" ∷ []

abbrev pub control_commands : List String
control_commands = "load_bitstream" ∷ "register_write" ∷ "register_read" ∷ "apply_filter" ∷ []

abbrev pub scope_commands : List String
scope_commands =
    "read_data" ∷ "set_scaling_factors" ∷ "set_channel_status" ∷ "disable_scope_dma"
    ∷ "get_acquisition_status" ∷ "set_acquisition" ∷ "set_scope_address" ∷ []

abbrev pub core_commands : List String
core_commands =
    "apply_program" ∷ "deploy_hil" ∷ "emulate_hil" ∷ "compile_program" ∷ "hil_select_out"
    ∷ "hil_set_in" ∷ "hil_start" ∷ "hil_stop" ∷ "hil_disassemble" ∷ "set_hil_address_map"
    ∷ "get_hil_address_map" ∷ "hil_debug" ∷ "hil_hardware_sim" ∷ "get_sampling_frequency" ∷ []

abbrev pub platform_commands : List String
platform_commands =
    "set_pl_clock" ∷ "get_clock" ∷ "get_version" ∷ "set_debug_level" ∷ "get_debug_level" ∷ []

unfoldable pub contains : List String → String → Bool
contains [] command_string = false
contains (c ∷ commands) command_string = str_eq command_string c || contains commands command_string

-- Whether the command is in one of the sets.
unfoldable pub is_known : String → Bool
unfolding contains
is_known command_string =
    contains control_commands command_string
    || contains scope_commands command_string
    || contains core_commands command_string
    || contains platform_commands command_string
    || contains infrastructure_commands command_string

-- The object of the response: the command as it came, and the body.
pub record ResponseObj (Json : Type 0) : Type 0 where
  pub cmd : String
  pub body : Reply Json

module _ {Json Emu : Type 0} (w : World Json Emu) where
  abbrev process_null : Exec (Driver Emu) (Reply Json)
  process_null = pure (reply ResponseCode.ok nothing)

  -- The body that the command gets. The only command of the infrastructure is the null one.
  unfoldable pub process_body : String → Json → Exec (Driver Emu) (Reply Json)
  unfolding contains
  process_body command_string arguments =
      if contains control_commands command_string
      then ControlEndpoints.process_command w command_string arguments
      else if contains scope_commands command_string
      then ScopeEndpoints.process_command w command_string arguments
      else if contains core_commands command_string
      then CoresEndpoints.process_command w command_string arguments
      else if contains platform_commands command_string
      then PlatformEndpoints.process_command w command_string arguments
      else if contains infrastructure_commands command_string
      then process_null
      else pure (reply invalid_cmd_schema (message "DRIVER ERROR: Unknown command received\n"))

  unfoldable pub process_command : String → Json → Exec (Driver Emu) (ResponseObj Json)
  unfolding process_body
  process_command command_string arguments = do
    body ← process_body command_string arguments
    pure (record { cmd = command_string; body = body })
