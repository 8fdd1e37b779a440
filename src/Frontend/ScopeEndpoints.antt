-- ===== src/Frontend/ScopeEndpoints.antt =====
-- includes/server_frontend/endpoints/scope_endpoints.hpp and
-- src/server_frontend/endpoints/scope_endpoints.cpp: the commands on the scope.
use uscope_driver.Prelude.{
  ℕ, String, Bool, true, false, List, [], ◌∷◌, ◌&&◌, ◌||◌, not, if◌then◌else◌, str_eq,
}
use uscope_driver.Prelude.Dict.{Dict, insert, nat_eq}
use uscope_driver.Exec.{Exec, pure, lift, ◌>>=◌, ◌>>◌}
use uscope_driver.Response.{ResponseCode}
use uscope_driver.Scope
use uscope_driver.Scope.{AcquisitionMetadata}
use uscope_driver.Json.{JsonType, null, object, array, number_unsigned, number_float}
use uscope_driver.Frontend.{
  World, Driver, Reply, reply, refusal, message, nothing, channels, on_scope, internal_driver_error,
}

abbrev is_array : JsonType → Bool
is_array array = true
is_array _ = false

abbrev is_object : JsonType → Bool
is_object object = true
is_object _ = false

abbrev is_null : JsonType → Bool
is_null null = true
is_null _ = false

abbrev is_unsigned : JsonType → Bool
is_unsigned number_unsigned = true
is_unsigned _ = false

module _ {Json Emu : Type 0} (w : World Json Emu) where
  unfoldable pub process_read_data : Exec (Driver Emu) (Reply Json)
  process_read_data = do
    resp_data ← on_scope (Scope.read_data w.platform.fp w.int32_to_float w.samples)
    pure (reply ResponseCode.ok (channels resp_data))

  -- `std::all_of` with `is_number`, and `empty`.
  unfoldable pub all_numbers : List Json → Bool
  all_numbers [] = true
  all_numbers (el ∷ elements) = w.json.is_number el && all_numbers elements

  abbrev no_elements : List Json → Bool
  no_elements [] = true
  no_elements (_ ∷ _) = false

  unfoldable pub process_set_scaling_factors : Json → Exec (Driver Emu) (Reply Json)
  unfolding all_numbers
  process_set_scaling_factors arguments =
      if not (is_array (w.json.type_of arguments))
      then pure (
          refusal "DRIVER ERROR: The argument for the set scaling factor command must be an array\n"
            "")
      else if no_elements (w.json.elements arguments)
      then pure (
          refusal
            "DRIVER ERROR: The arguments for the set scaling factor command can not be an empty array\n"
            "")
      else if not (all_numbers (w.json.elements arguments))
      then pure (
          refusal
            "DRIVER ERROR: The arguments for the set scaling factor command must be numeric values\n"
            "")
      else (do
        sfs ← lift (w.json.get_floats arguments)
        code ← on_scope (Scope.set_scaling_factors sfs)
        pure (reply code nothing))

  -- The keys are `int`s, which are given by their 32-bit patterns.
  unfoldable pub read_status : List (String × Json) → Dict ℕ Bool → Exec (Driver Emu) (Dict ℕ Bool)
  read_status [] status = pure status
  read_status ((key, value) ∷ items) status = do
    on ← lift (w.json.get_bool value)
    channel ← lift (w.stoi key)
    read_status items (insert channel on status)

  unfoldable pub process_set_channel_status : Json → Exec (Driver Emu) (Reply Json)
  unfolding read_status
  process_set_channel_status arguments =
      if not (is_object (w.json.type_of arguments))
      then pure (
          refusal
            "DRIVER ERROR: The argument for the set channel status command must be an array of objects\n"
            "")
      else (do
        status ← read_status (w.json.items arguments) []
        code ← on_scope (Scope.set_channel_status status)
        pure (reply code nothing))

  unfoldable pub process_get_acquisition_status : Exec (Driver Emu) (Reply Json)
  process_get_acquisition_status = do
    status ← on_scope (Scope.get_acquisition_status w.random)
    pure (reply ResponseCode.ok (message status))

  unfoldable pub read_acquisition : Json → Exec (Driver Emu) AcquisitionMetadata
  read_acquisition arguments = do
    level ← lift (w.json.subscript arguments "level")
    trigger_level ← lift (w.json.get_float level)
    source ← lift (w.json.subscript arguments "source")
    trigger_source ← lift (w.json.get_uint32 source)
    mode_field ← lift (w.json.subscript arguments "mode")
    mode ← lift (w.json.get_string mode_field)
    type_field ← lift (w.json.subscript arguments "level_type")
    level_type ← lift (w.json.get_string type_field)
    trigger ← lift (w.json.subscript arguments "trigger")
    trigger_mode ← lift (w.json.get_string trigger)
    point_field ← lift (w.json.subscript arguments "trigger_point")
    trigger_point ← lift (w.json.get_uint32 point_field)
    prescaler_field ← lift (w.json.subscript arguments "prescaler")
    prescaler ← lift (w.json.get_uint32 prescaler_field)
    pure (record {
      mode = mode;
      trigger_mode = trigger_mode;
      trigger_source = trigger_source;
      trigger_level = trigger_level;
      level_type = level_type;
      trigger_point = trigger_point;
      prescaler = prescaler;
    })

  abbrev has_all_keys : Json → Bool
  has_all_keys arguments =
      w.json.contains arguments "trigger"
      && w.json.contains arguments "level"
      && w.json.contains arguments "source"
      && w.json.contains arguments "mode"
      && w.json.contains arguments "level_type"
      && w.json.contains arguments "trigger_point"
      && w.json.contains arguments "prescaler"

  -- A missing key is noted in the response, but the method goes on.
  unfoldable pub process_set_acquisition : Json → Exec (Driver Emu) (Reply Json)
  unfolding read_acquisition
  process_set_acquisition arguments =
      let noted =
        if has_all_keys arguments
        then nothing
        else message "DRIVER ERROR: Wrong arguments for set acquisition command\n" in
      (do
        metadata ← read_acquisition arguments
        code ← on_scope (Scope.set_acquisition metadata)
        pure (reply code noted))

  -- Whether a float is no address. `floor` is compared with the float itself.
  abbrev is_fractional : ℕ → Bool
  is_fractional raw_addr =
      let r = w.rounding in
      let rounded_addr = r.uint64_to_double (r.double_to_uint64 (r.round raw_addr)) in
      not (r.equal (r.ceil raw_addr) rounded_addr && r.equal (r.floor raw_addr) raw_addr)

  abbrev pub invalid_address : Json → Exec (Driver Emu) Bool
  invalid_address address = elim (w.json.type_of address) [
    | number_unsigned ↦ pure false
    | number_float ↦ do raw_addr ← lift (w.json.get_double address); pure (is_fractional raw_addr)
    | _ ↦ pure true
  ]

  abbrev lacks_keys : Json → Bool
  lacks_keys arguments =
      not (w.json.contains arguments "address")
      || not (w.json.contains arguments "dma_buffer_offset")

  abbrev store_address : Json → Json → Exec (Driver Emu) (Reply Json)
  store_address address offset = do
    dma_buffer_offset ← lift (w.json.get_uint64 offset)
    addr ← lift (w.json.get_uint64 address)
    on_scope (Scope.set_scope_address w.buffer addr dma_buffer_offset)
    pure (reply ResponseCode.ok nothing)

  unfoldable pub process_set_scope_address : Json → Exec (Driver Emu) (Reply Json)
  process_set_scope_address arguments = do
    address ← lift (w.json.subscript arguments "address")
    (if (is_null (w.json.type_of address)) then (pure (reply ResponseCode.ok nothing)) else (do
      invalid ← invalid_address address
      offset ← lift (w.json.subscript arguments "dma_buffer_offset")
      (if (lacks_keys arguments || invalid || not (is_unsigned (w.json.type_of offset)))
          then (pure (
              refusal
                "DRIVER ERROR: The scope address and dma buffer offset values must be an unsigned integers\n"
                ""))
          else (store_address address offset))))

  unfoldable pub process_disable_dma : Json → Exec (Driver Emu) (Reply Json)
  process_disable_dma arguments = do
    field ← lift (w.json.subscript arguments "status")
    status ← lift (w.json.get_bool field)
    on_scope (Scope.disable_dma status)
    pure (reply ResponseCode.ok nothing)

  unfoldable pub process_command : String → Json → Exec (Driver Emu) (Reply Json)
  unfolding process_read_data process_set_scaling_factors process_disable_dma
      process_set_channel_status process_get_acquisition_status process_set_acquisition
      process_set_scope_address
  process_command command_string arguments =
      if str_eq command_string "read_data"
      then process_read_data
      else if str_eq command_string "set_scaling_factors"
      then process_set_scaling_factors arguments
      else if str_eq command_string "disable_scope_dma"
      then process_disable_dma arguments
      else if str_eq command_string "set_channel_status"
      then process_set_channel_status arguments
      else if str_eq command_string "get_acquisition_status"
      then process_get_acquisition_status
      else if str_eq command_string "set_acquisition"
      then process_set_acquisition arguments
      else if str_eq command_string "set_scope_address"
      then process_set_scope_address arguments
      else pure internal_driver_error
