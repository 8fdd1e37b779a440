-- ===== src/Frontend/ControlEndpoints.antt =====
-- includes/server_frontend/endpoints/control_endpoints.hpp and
-- src/server_frontend/endpoints/control_endpoints.cpp: the commands on the registers.
use uscope_driver.Prelude.{
  ℕ, String, Bool, true, false, none, some, ◌==◌, ◌&&◌, if◌then◌else◌, str_eq,
}
use uscope_driver.Exec.{Exec, pure, lift, ◌>>=◌}
use uscope_driver.Floats.{Double}
use uscope_driver.Bridge
use uscope_driver.Bridge.{WriteObj}
use uscope_driver.Json.{JsonType, string}
use uscope_driver.Frontend.{
  World, Driver, validated, Reply, Rounding, reply, refusal, nothing, number, on_hw,
  internal_driver_error, write_register, apply_filter_schema,
}

unfoldable pub check_float_intness : Rounding → Double → Bool
check_float_intness r d =
    let rounded_addr = r.double_to_uint64 (r.round d) in
    let c_factor = r.double_to_uint64 (r.ceil d) in
    let f_factor = r.double_to_uint64 (r.floor d) in
    c_factor == rounded_addr && f_factor == rounded_addr

abbrev pub is_string : JsonType → Bool
is_string string = true
is_string _ = false

module _ {Json Emu : Type 0} (w : World Json Emu) where
  -- `check_float_intness(arguments[key])`
  abbrev is_integer_at : Json → String → Exec (Driver Emu) Bool
  is_integer_at arguments key = do
    field ← lift (w.json.subscript arguments key)
    d ← lift (w.json.get_double field)
    pure (check_float_intness w.rounding d)

  -- A text that is compared with the value of a key. What is no text is equal to none of the texts.
  abbrev text_at : Json → String → Exec (Driver Emu) String
  text_at arguments key = do
    field ← lift (w.json.const_subscript arguments key)
    pure (elim (w.json.text field) [ none ↦ "" | some s ↦ s ])

  abbrev number_at : Json → String → Exec (Driver Emu) ℕ
  number_at arguments key = do
    field ← lift (w.json.const_subscript arguments key)
    lift (w.json.get_uint64 field)

  -- What the bridge reads of the object. The validation and the tests before it have found the
  -- fields that are read of both kinds, so that it does not matter when.
  abbrev write_obj : Json → Exec (Driver Emu) WriteObj
  write_obj arguments = do
    kind ← text_at arguments "type"
    address ← number_at arguments "address"
    value ← number_at arguments "value"
    proxy_type ←
        (if w.json.contains arguments "proxy_type"
          then (do t ← text_at arguments "proxy_type"; pure (some t))
          else pure none)
    proxy_address ←
        (if w.json.contains arguments "proxy_address"
          then (do a ← number_at arguments "proxy_address"; pure (some a))
          else pure none)
    pure (record {
      kind = kind;
      proxy_type = proxy_type;
      proxy_address = proxy_address;
      address = address;
      value = value;
    })

  abbrev write_object : Json → Exec (Driver Emu) (Reply Json)
  write_object arguments = do
    object ← write_obj arguments
    code ← on_hw (Bridge.single_write_register object)
    pure (reply code nothing)

  abbrev not_integers : Reply Json
  not_integers =
      refusal "DRIVER ERROR: addresses and values for register writes must be integers\n" ""

  unfoldable pub process_single_write_register : Json → Exec (Driver Emu) (Reply Json)
  process_single_write_register arguments =
      validated (w.invalid write_register arguments)
        (λ error_message. pure (
          refusal "DRIVER ERROR: Invalid arguments for the write register command\n" error_message))
        (do
          address ← is_integer_at arguments "address"
          (if address
              then (do
                proxy_address ← is_integer_at arguments "proxy_address"
                (if proxy_address
                    then (do
                      value ← is_integer_at arguments "value"
                      (if value then (write_object arguments) else (pure not_integers)))
                    else (pure not_integers)))
              else (pure not_integers)))

  unfoldable pub process_single_read_register : Json → Exec (Driver Emu) (Reply Json)
  process_single_read_register arguments =
      if w.json.is_number arguments
      then (do
        address ← lift (w.json.get_uint64 arguments)
        response ← on_hw (Bridge.single_read_register w.random address)
        pure (reply response.response_code (number response.payload)))
      else pure (
          refusal
            "DRIVER ERROR:The argument for the single read register call must be a numeric value\n"
            "")

  unfoldable pub process_load_bitstream : Json → Exec (Driver Emu) (Reply Json)
  process_load_bitstream arguments =
      if is_string (w.json.type_of arguments)
      then (do
        encoded ← lift (w.json.get_string arguments)
        decoded_data ← lift (w.decode encoded)
        code ← on_hw (Bridge.load_bitstream (w.load_answer decoded_data))
        pure (reply code nothing))
      else pure (refusal "DRIVER ERROR: The bitstream data must be a base 64 encoded string" "")

  unfoldable pub process_apply_filter : Json → Exec (Driver Emu) (Reply Json)
  process_apply_filter arguments =
      validated (w.invalid apply_filter_schema arguments)
        (λ error_message.
          pure (
            refusal "DRIVER ERROR: Invalid arguments for the apply filter command\n" error_message))
        (do
          integer ← is_integer_at arguments "address"
          (if integer
              then (do
                field ← lift (w.json.subscript arguments "address")
                address ← lift (w.json.get_uint64 field)
                field_of_taps ← lift (w.json.subscript arguments "taps")
                taps ← lift (w.json.get_words field_of_taps)
                code ← on_hw (Bridge.apply_filter address taps)
                pure (reply code nothing))
              else (pure (
                  refusal
                    "DRIVER ERROR: The filter address must be an integer or integer like float number"
                    ""))))

  unfoldable pub process_command : String → Json → Exec (Driver Emu) (Reply Json)
  unfolding process_load_bitstream process_single_write_register process_single_read_register
      process_apply_filter
  process_command command_string arguments =
      if str_eq command_string "load_bitstream"
      then process_load_bitstream arguments
      else if str_eq command_string "register_write"
      then process_single_write_register arguments
      else if str_eq command_string "register_read"
      then process_single_read_register arguments
      else if str_eq command_string "apply_filter"
      then process_apply_filter arguments
      else pure internal_driver_error
