-- ===== src/Frontend/CoresEndpoints.antt =====
-- includes/server_frontend/endpoints/cores_endpoints.hpp, src/server_frontend/endpoints/cores_endpoints.cpp
-- and src/hw_interface/toolchain_manager.cpp: the commands on the cores.
use uscope_driver.Prelude.{ℕ, String, Bool, List, [], ◌∷◌, ◌&&◌, if◌then◌else◌, str_eq}
use uscope_driver.Decimal.{concat}
use uscope_driver.Exec.{
  Exec, runtime_error, pure, raise, lift, gets, zoom, catch_runtime, ◌>>=◌, ◌>>◌,
}
use uscope_driver.Floats.{Double}
use uscope_driver.Response.{ResponseCode, deployment_error}
use uscope_driver.BusMap.{OutputSpecs}
use uscope_driver.Bridge
use uscope_driver.Deployer.{DeployerBase}
use uscope_driver.Layout.Document.{parse_layout_object, dump_layout_object}
use uscope_driver.Hil
use uscope_driver.Hil.Wiring.{select_output, set_input, start, stop}
use uscope_driver.Hil.Deploy
use uscope_driver.Hil.Simulation.{get_hardware_sim_data}
use uscope_driver.Custom
use uscope_driver.Json.{JsonLibrary}
use uscope_driver.Emulator.{emulate, disassemble}
use uscope_driver.Frontend.{
  World, Driver, validated, Reply, Rounding, reply, refusal, real, document, nothing,
  deployment_failure, emulation, executable, compilation_error, simulation, on_hw, on_hil,
  on_custom, on_emulator, internal_driver_error, load_program, compile_program_schema,
}
use uscope_driver.Frontend.DebugEndpoint.{at_key, process_hil_debug}

-- The endpoints of the cores compare as doubles.
unfoldable pub check_float_intness : Rounding → Double → Bool
check_float_intness r d =
    let rounded_addr = r.uint64_to_double (r.double_to_uint64 (r.round d)) in
    r.equal (r.ceil d) rounded_addr && r.equal (r.floor d) rounded_addr

module _ {Json : Type 0} (json : JsonLibrary Json) where
  unfoldable pub set_layout_map : Json → Exec DeployerBase (Unit {0})
  set_layout_map obj =
      zoom (λ d. d.addresses) (λ a d. record d { addresses = a }) (parse_layout_object json obj)

  unfoldable pub get_layout_map : DeployerBase → Json
  get_layout_map d = dump_layout_object json d.addresses

module _ {Json Emu : Type 0} (w : World Json Emu) where
  -- The texts under "content" of the elements of the headers, which are a copy that can be changed.
  unfoldable pub header_contents : List Json → Exec (Driver Emu) (List String)
  header_contents [] = pure []
  header_contents (item ∷ h) = do
    field ← lift (w.json.subscript item "content")
    content ← lift (w.json.get_string field)
    rest ← header_contents h
    pure (content ∷ rest)

  unfoldable pub compile : String → Json → Json → Exec (Driver Emu) (List ℕ)
  unfolding header_contents
  compile content h io = do
    headers ← header_contents (w.json.elements h)
    answer ← lift (w.compile (content ∷ []) headers io)
    (if answer.compiled then (pure answer.executable) else (raise (runtime_error answer.errors)))

  unfoldable pub process_apply_program : Json → Exec (Driver Emu) (Reply Json)
  process_apply_program arguments =
      validated (w.invalid load_program arguments)
        (λ error_message.
          pure (
            refusal "DRIVER ERROR: Invalid arguments for the apply program command\n"
              error_message))
        (do
          field ← at_key w arguments "address"
          d ← lift (w.json.get_double field)
          (if (check_float_intness w.rounding d)
              then (do
                address ← lift (w.json.get_uint64 field)
                program_field ← at_key w arguments "program"
                program ← lift (w.json.get_words program_field)
                code ← on_hw (Bridge.apply_program address program)
                pure (reply code nothing))
              else (pure
                  (refusal "DRIVER ERROR: core address must be an integer like number\n" ""))))

  abbrev pub deploy_by_mode : Json → Exec (Driver Emu) (Reply Json)
  deploy_by_mode arguments = do
    field ← at_key w arguments "deployment_mode"
    custom_deploy ← lift (w.json.get_bool field)
    code ←
        (if custom_deploy
          then on_custom
              (Custom.deploy w.platform.fp (w.custom_options arguments) (w.custom_specs arguments))
          else on_hil (Hil.Deploy.deploy w.hash w.set_specs w.platform arguments))
    pure (reply code nothing)

  -- The duplicates are always empty.
  unfoldable pub process_deploy_hil : Json → Exec (Driver Emu) (Reply Json)
  process_deploy_hil arguments = catch_runtime (deploy_by_mode arguments) (λ what. pure (
      reply ResponseCode.ok
        (deployment_failure deployment_error (concat ("HIL DEPLOYMENT ERROR:\n" ∷ what ∷ [])))))

  unfoldable pub process_emulate_hil : Json → Exec (Driver Emu) (Reply Json)
  process_emulate_hil arguments = do
    results ← on_emulator (emulate w.emu_manager arguments)
    pure (reply ResponseCode.ok (emulation results))

  abbrev read_output : Json → Exec (Driver Emu) OutputSpecs
  read_output arguments = do
    output ← at_key w arguments "output"
    core ← at_key w output "core"
    core_name ← lift (w.json.get_string core)
    name ← at_key w output "name"
    source_output ← lift (w.json.get_string name)
    channel_field ← at_key w output "channel"
    channel ← lift (w.json.get_uint32 channel_field)
    pure (record { core_name = core_name; source_output = source_output; channel = channel })

  unfoldable pub process_hil_select_out : Json → Exec (Driver Emu) (Reply Json)
  process_hil_select_out arguments =
      if w.json.contains arguments "output"
      then (do
        out ← read_output arguments
        field ← at_key w arguments "channel"
        channel ← lift (w.json.get_uint32 field)
        on_hil (Hil.on_base (select_output channel out))
        pure (reply ResponseCode.ok nothing))
      else pure (reply ResponseCode.ok nothing)

  unfoldable pub process_hil_set_in : Json → Exec (Driver Emu) (Reply Json)
  process_hil_set_in arguments = do
    name_field ← at_key w arguments "name"
    name ← lift (w.json.get_string name_field)
    value_field ← at_key w arguments "value"
    value ← lift (w.json.get_double value_field)
    core_field ← at_key w arguments "core"
    core ← lift (w.json.get_string core_field)
    channel_field ← at_key w arguments "channel"
    channel ← lift (w.json.get_uint16 channel_field)
    on_hil (Hil.on_base (set_input w.platform.fp core name channel value))
    pure (reply ResponseCode.ok nothing)

  unfoldable pub process_hil_start : Exec (Driver Emu) (Reply Json)
  process_hil_start = do on_hil (Hil.on_base start); pure (reply ResponseCode.ok nothing)

  -- Both branches of `get_sampling_frequency` give the frequency, as a float.
  unfoldable pub process_get_sampling_frequency : Exec (Driver Emu) (Reply Json)
  process_get_sampling_frequency = do
    frequency ← gets (λ d. d.hil.base.timebase_frequency)
    pure (reply ResponseCode.ok (real (w.platform.fp.double_to_float frequency)))

  unfoldable pub process_hil_stop : Exec (Driver Emu) (Reply Json)
  process_hil_stop = do on_hil (Hil.on_base stop); pure (reply ResponseCode.ok nothing)

  abbrev compiled : Json → Exec (Driver Emu) (Reply Json)
  compiled arguments = do
    field ← at_key w arguments "content"
    content ← lift (w.json.get_string field)
    headers ← at_key w arguments "headers"
    io ← at_key w arguments "io"
    hex ← compile content headers io
    pure (reply ResponseCode.ok (executable hex))

  unfoldable pub process_compile_program : Json → Exec (Driver Emu) (Reply Json)
  unfolding compile
  process_compile_program arguments =
      validated (w.invalid compile_program_schema arguments)
        (λ error_message. pure (
          refusal "DRIVER ERROR: Invalid arguments for the compile program command\n"
            error_message))
        (catch_runtime (compiled arguments)
          (λ what. pure (reply ResponseCode.ok (compilation_error what))))

  unfoldable pub process_hil_disassemble : Json → Exec (Driver Emu) (Reply Json)
  process_hil_disassemble arguments = do
    programs ← on_emulator (disassemble w.emu_manager arguments)
    pure (reply ResponseCode.ok (document programs))

  unfoldable pub process_hil_hardware_sim : Json → Exec (Driver Emu) (Reply Json)
  process_hil_hardware_sim arguments = do
    sim ← on_hil (get_hardware_sim_data w.hash w.set_specs w.platform arguments)
    pure (reply ResponseCode.ok (simulation sim.code sim.control sim.outputs sim.inputs))

  unfoldable pub process_set_hil_address_map : Json → Exec (Driver Emu) (Reply Json)
  unfolding set_layout_map
  process_set_hil_address_map arguments = do
    on_hil (Hil.on_base (set_layout_map w.json arguments))
    on_custom (Custom.on_base (set_layout_map w.json arguments))
    pure (reply ResponseCode.ok nothing)

  unfoldable pub process_get_hil_address_map : Exec (Driver Emu) (Reply Json)
  unfolding get_layout_map
  process_get_hil_address_map = do
    map ← gets (λ d. get_layout_map w.json d.hil.base)
    pure (reply ResponseCode.ok (document map))

  unfoldable pub process_command : String → Json → Exec (Driver Emu) (Reply Json)
  unfolding process_apply_program process_deploy_hil process_emulate_hil process_hil_select_out
      process_hil_set_in process_hil_start process_hil_stop process_hil_debug
      process_hil_disassemble process_hil_hardware_sim process_compile_program
      process_set_hil_address_map process_get_hil_address_map process_get_sampling_frequency
  process_command command_string arguments =
      if str_eq command_string "apply_program"
      then process_apply_program arguments
      else if str_eq command_string "deploy_hil"
      then process_deploy_hil arguments
      else if str_eq command_string "emulate_hil"
      then process_emulate_hil arguments
      else if str_eq command_string "hil_select_out"
      then process_hil_select_out arguments
      else if str_eq command_string "hil_set_in"
      then process_hil_set_in arguments
      else if str_eq command_string "hil_start"
      then process_hil_start
      else if str_eq command_string "hil_stop"
      then process_hil_stop
      else if str_eq command_string "hil_debug"
      then process_hil_debug w arguments
      else if str_eq command_string "hil_disassemble"
      then process_hil_disassemble arguments
      else if str_eq command_string "hil_hardware_sim"
      then process_hil_hardware_sim arguments
      else if str_eq command_string "compile_program"
      then process_compile_program arguments
      else if str_eq command_string "set_hil_address_map"
      then process_set_hil_address_map arguments
      else if str_eq command_string "get_hil_address_map"
      then process_get_hil_address_map
      else if str_eq command_string "get_sampling_frequency"
      then process_get_sampling_frequency
      else pure internal_driver_error
