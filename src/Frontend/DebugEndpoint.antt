-- ===== src/Frontend/DebugEndpoint.antt =====
-- src/server_frontend/endpoints/cores_endpoints.cpp: `process_hil_debug`.
use uscope_driver.Prelude.{ℕ, String, Option, none, some, ◌&&◌, not, if◌then◌else◌, str_eq}
use uscope_driver.Exec.{Exec, runtime_error, pure, raise, lift, ◌>>=◌}
use uscope_driver.Response.{ResponseCode}
use uscope_driver.Emulator.{
  run_command, CommandType, InteractiveCommand, command_add_breakpoint, command_remove_breakpoint,
  command_step_over, command_resume_emulation, command_initialize_emulation,
  command_start_emulation, command_get_breakpoints,
}
use uscope_driver.Frontend.{World, Driver, Reply, reply, refusal, message, on_emulator}
use uscope_driver.Frontend.ControlEndpoints.{is_string}

module _ {Json Emu : Type 0} (w : World Json Emu) where
  abbrev pub at_key : Json → String → Exec (Driver Emu) Json
  at_key arguments key = lift (w.json.const_subscript arguments key)

  abbrev command_of : Option CommandType → String → ℕ → Json → InteractiveCommand Json
  command_of type id line spec = record {
    type = type;
    id = id;
    target_instruction = line;
    spec = spec;
  }

  -- The core and the line of a breakpoint.
  abbrev breakpoint : Option CommandType → Json → Exec (Driver Emu) (InteractiveCommand Json)
  breakpoint type options = do
    id_field ← at_key options "id"
    id ← lift (w.json.get_string id_field)
    line_field ← at_key options "line"
    line ← lift (w.json.get_uint32 line_field)
    pure (command_of type id line options)

  abbrev new_breakpoint : Json → Exec (Driver Emu) (InteractiveCommand Json)
  new_breakpoint options =
      if w.json.contains options "id"
      then (do
        id ← at_key options "id"
        (if (is_string (w.json.type_of id))
            then (breakpoint (some command_add_breakpoint) options)
            else (raise (runtime_error "Core id must be a string"))))
      else raise (runtime_error "Missing core id argument for add_breakpoint command")

  abbrev listing : Json → Exec (Driver Emu) (InteractiveCommand Json)
  listing options = do
    id_field ← at_key options "id"
    id ← lift (w.json.get_string id_field)
    pure (command_of (some command_get_breakpoints) id 0 options)

  -- The document of the command is only read where the emulation is initialized with it.
  unfoldable pub read_command : String → Json → Exec (Driver Emu) (InteractiveCommand Json)
  read_command name options =
      if str_eq name "add_breakpoint"
      then new_breakpoint options
      else if str_eq name "remove_breakpoint"
      then breakpoint (some command_remove_breakpoint) options
      else if str_eq name "step"
      then pure (command_of (some command_step_over) "" 0 options)
      else if str_eq name "resume"
      then pure (command_of (some command_resume_emulation) "" 0 options)
      else if str_eq name "initialize"
      then pure (command_of (some command_initialize_emulation) "" 0 options)
      else if str_eq name "run"
      then pure (command_of (some command_start_emulation) "" 0 options)
      else if str_eq name "get_breakpoints"
      then listing options
      else pure (command_of none "" 0 options)

  abbrev debug_command : String → Json → Exec (Driver Emu) (Reply Json)
  debug_command name arguments = do
    options ← at_key arguments "arguments"
    c ← read_command name options
    text ← on_emulator (run_command w.emu_manager c)
    pure (reply ResponseCode.ok (message text))

  unfoldable pub process_hil_debug : Json → Exec (Driver Emu) (Reply Json)
  unfolding read_command
  process_hil_debug arguments =
      if not (w.json.contains arguments "command" && w.json.contains arguments "arguments")
      then pure (refusal "DRIVER ERROR: Invalid arguments for the debug hil command\n" "")
      else (do
        field ← at_key arguments "command"
        name ← lift (w.json.get_string field)
        (if (str_eq name "test")
            then (pure (reply ResponseCode.ok (message "success")))
            else (debug_command name arguments)))
