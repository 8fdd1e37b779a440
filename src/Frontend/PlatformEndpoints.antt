-- ===== src/Frontend/PlatformEndpoints.antt =====
-- includes/server_frontend/endpoints/platform_endpoints.hpp and
-- src/server_frontend/endpoints/platform_endpoints.cpp: the commands on the clocks, the versions and
-- the log.
use uscope_driver.Prelude.{String, Bool, true, false, ◌&&◌, not, if◌then◌else◌, str_eq}
use uscope_driver.Exec.{Exec, pure, lift, gets, modify, ◌>>=◌, ◌>>◌}
use uscope_driver.Response.{ResponseCode}
use uscope_driver.Timing.{set_base_clock, set_generated_clock, get_base_clock, get_generated_clock}
use uscope_driver.Json.{JsonType, boolean}
use uscope_driver.Frontend.{
  World, Driver, Reply, LogLevel, warn, info, trace, other_level, reply, refusal, message, number,
  nothing, on_tm, internal_driver_error,
}
use uscope_driver.Frontend.ControlEndpoints.{is_string}

abbrev pub is_boolean : JsonType → Bool
is_boolean boolean = true
is_boolean _ = false

module _ {Json Emu : Type 0} (w : World Json Emu) where
  abbrev text_of : Json → String → Exec (Driver Emu) String
  text_of arguments key = do
    field ← lift (w.json.subscript arguments key)
    lift (w.json.get_string field)

  abbrev primary_clock : Json → Exec (Driver Emu) (Reply Json)
  primary_clock arguments = do
    id ← lift (w.json.subscript arguments "id")
    clk_n ← lift (w.json.get_uint8 id)
    clock ← on_tm (get_base_clock clk_n)
    pure (reply ResponseCode.ok (number clock))

  abbrev generated_clock : Json → Exec (Driver Emu) (Reply Json)
  generated_clock arguments = do
    clock_name ← text_of arguments "id"
    clock ← on_tm (get_generated_clock clock_name)
    pure (reply ResponseCode.ok (number clock))

  unfoldable pub process_get_clock : Json → Exec (Driver Emu) (Reply Json)
  process_get_clock arguments =
      if not (w.json.contains arguments "is_primary" && w.json.contains arguments "id")
      then pure (
          refusal
            "DRIVER ERROR: The arguments for the get clock command must contain the id and is_primary keys\n"
            "")
      else (do
        field ← lift (w.json.subscript arguments "is_primary")
        (if (is_boolean (w.json.type_of field))
            then (do
              is_primary ← lift (w.json.get_bool field)
              (if is_primary then (primary_clock arguments) else (generated_clock arguments)))
            else (pure (
                refusal
                  "DRIVER ERROR: The is_primary argument of the get clock command must be boolean\n"
                  ""))))

  abbrev pub set_primary : Json → Exec (Driver Emu) (Reply Json)
  set_primary arguments = do
    value ← lift (w.json.subscript arguments "value")
    freq ← lift (w.json.get_uint32 value)
    id ← lift (w.json.subscript arguments "id")
    clk_n ← lift (w.json.get_uint8 id)
    code ← on_tm (set_base_clock w.clock_answer clk_n freq)
    pure (reply code nothing)

  abbrev pub set_generated : Json → Exec (Driver Emu) (Reply Json)
  set_generated arguments = do
    clock_name ← text_of arguments "id"
    value ← lift (w.json.subscript arguments "value")
    m_field ← lift (w.json.subscript value "m")
    m ← lift (w.json.get_uint16 m_field)
    d_field ← lift (w.json.subscript value "d")
    d ← lift (w.json.get_uint16 d_field)
    p_field ← lift (w.json.subscript value "p")
    p ← lift (w.json.get_uint16 p_field)
    code ← on_tm (set_generated_clock clock_name m d p)
    pure (reply code nothing)

  -- What follows once the kind of the clock was read.
  abbrev pub set_clock_of : Json → Json → Exec (Driver Emu) (Reply Json)
  set_clock_of arguments field =
      if is_boolean (w.json.type_of field)
      then (do
        is_primary ← lift (w.json.get_bool field)
        (if is_primary then set_primary arguments else set_generated arguments))
      else pure (
          refusal "DRIVER ERROR: The is_primary argument of the get clock command must be boolean\n"
            "")

  unfoldable pub process_set_clock : Json → Exec (Driver Emu) (Reply Json)
  process_set_clock arguments =
      if w.json.contains arguments "is_primary"
        && w.json.contains arguments "id"
        && w.json.contains arguments "value"
      then (do field ← lift (w.json.subscript arguments "is_primary"); set_clock_of arguments field)
      else pure (
          refusal
            "DRIVER ERROR: The arguments for the set clock clock command must contain the id and is_primary and value keys\n"
            "")

  abbrev version_of : String → Exec (Driver Emu) String
  version_of component =
      if str_eq component "driver"
      then pure w.driver_versions
      else if str_eq component "toolchain"
      then pure w.toolchain_versions
      else if str_eq component "module"
      then lift w.module_version
      else if str_eq component "hardware"
      then lift w.hardware_version
      else pure "DRIVER ERROR: Unknown component\n"

  unfoldable pub process_get_version : Json → Exec (Driver Emu) (Reply Json)
  process_get_version arguments =
      if is_string (w.json.type_of arguments)
      then (do
        component ← lift (w.json.get_string arguments)
        version ← version_of component
        pure (reply ResponseCode.ok (message version)))
      else pure
          (refusal "DRIVER ERROR: The argument for the get version command must be a string\n" "")

  -- A name that is no level leaves the level as it is.
  abbrev level_named : String → LogLevel → LogLevel
  level_named level old =
      if str_eq level "minimal"
      then warn
      else if str_eq level "debug"
      then info
      else if str_eq level "trace"
      then trace
      else old

  unfoldable pub process_set_debug_level : Json → Exec (Driver Emu) (Reply Json)
  process_set_debug_level arguments =
      if is_string (w.json.type_of arguments)
      then (do
        level ← lift (w.json.get_string arguments)
        modify (λ d. record d { log_level = level_named level d.log_level })
        pure (reply ResponseCode.ok nothing))
      else pure
          (refusal "DRIVER ERROR: The argument for the get version command must be a string\n" "")

  unfoldable pub level_name : LogLevel → String
  level_name warn = "minimal"
  level_name info = "debug"
  level_name trace = "trace"
  level_name other_level = ""

  unfoldable pub process_get_debug_level : Exec (Driver Emu) (Reply Json)
  unfolding level_name
  process_get_debug_level = do
    level ← gets (λ d. d.log_level)
    pure (reply ResponseCode.ok (message (level_name level)))

  unfoldable pub process_command : String → Json → Exec (Driver Emu) (Reply Json)
  unfolding process_set_clock process_get_clock process_get_version process_set_debug_level
      process_get_debug_level
  process_command command_string arguments =
      if str_eq command_string "set_pl_clock"
      then process_set_clock arguments
      else if str_eq command_string "get_clock"
      then process_get_clock arguments
      else if str_eq command_string "get_version"
      then process_get_version arguments
      else if str_eq command_string "set_debug_level"
      then process_set_debug_level arguments
      else if str_eq command_string "get_debug_level"
      then process_get_debug_level
      else pure internal_driver_error
