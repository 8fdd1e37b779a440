-- ===== src/Deployer/Inputs/Updates.antt =====
-- New values of the inputs that a deployment set up.
use uscope_driver.Prelude.{
  ℕ, ◌≡◌, ◌==◌, ◌&&◌, str_eq, Bool, true, false, String, List, [], ◌∷◌, ◌++◌, if◌then◌else◌, u16,
  u32,
}
use uscope_driver.Exec.{Exec, ok, pure}
use uscope_driver.Bus.{BusOp}
use uscope_driver.Bus.Memory.{write_op}
use uscope_driver.Floats.{Double, FloatingPoint}
use uscope_driver.Deployer.{DeployerBase, InputMetadata, write_register}
use uscope_driver.Deployer.Writes.{logged, IsDry, Logs, Logs-pure, Logs-write, Logs-then}
use uscope_driver.Deployer.Inputs.{
  register_of, write_constant, update_input, update_inputs, update_input_value,
}

-- The three words that give a constant its value: the selector, the destination and the value.
abbrev pub constant_log : ℕ × ℕ → ℕ → ℕ → List BusOp
constant_log (ip, selector) dest value =
    write_op (register_of ip 0xC ∷ []) (u32 selector)
    ∷ write_op (register_of ip 0x8 ∷ []) (u32 dest)
    ∷ write_op (register_of ip 0x0 ∷ []) (u32 value)
    ∷ []

write_constant-Logs :
    (ip selector dest value : ℕ)
    → Logs (write_constant (ip, selector) dest value) (constant_log (ip, selector) dest value)
unfolding write_constant
write_constant-Logs ip selector dest value =
    Logs-then (write_register (register_of ip 0xC) selector) _ _ _ (Logs-write _ selector) (
      Logs-then (write_register (register_of ip 0x8) dest)
        (write_register (register_of ip 0x0) value) _ _ (Logs-write _ dest) (Logs-write _ value))

-- The words for an input that has the core, the name and the channel: for a float the value as a
-- float, for an integer the value as an integer.
abbrev pub update_log : FloatingPoint → String → String → ℕ → Double → InputMetadata → List BusOp
update_log fp core_name name channel raw_value input =
    if input.channel == channel
    then if str_eq input.core core_name
      then if str_eq input.name name
        then constant_log input.const_ip_addr input.dest
            (if input.is_float then fp.double_to_float raw_value else fp.double_to_uint32 raw_value)
        else []
      else []
    else []

abbrev pub updates_log :
    FloatingPoint → String → String → ℕ → Double → List InputMetadata → List BusOp
updates_log fp core_name name channel raw_value [] = []
updates_log fp core_name name channel raw_value (input ∷ inputs) =
    update_log fp core_name name channel raw_value input
    ++ updates_log fp core_name name channel raw_value inputs

module _ (fp : FloatingPoint) (core_name name : String) (channel : ℕ) (raw_value : Double)
    (fits : fp.fits_uint32 raw_value ≡ true) where
  update_input-Logs :
      (input : InputMetadata)
      → Logs (update_input fp raw_value input) (
          constant_log input.const_ip_addr input.dest (
            if input.is_float then fp.double_to_float raw_value else fp.double_to_uint32 raw_value))
  unfolding update_input
  update_input-Logs input = rw fits (
      write_constant-Logs input.const_ip_addr.0 input.const_ip_addr.1 input.dest
        (if input.is_float then fp.double_to_float raw_value else fp.double_to_uint32 raw_value))

  matched-Logs :
      (same_name same_core same_channel : Bool) (m : Exec DeployerBase (Unit {0}))
      (ops : List BusOp)
      → Logs m ops
      → Logs
          (if same_name && same_core && same_channel then m else pure tt)
          (if same_channel then if same_core then if same_name then ops else [] else [] else [])
  matched-Logs true true true m ops h = h
  matched-Logs true true false m ops h = Logs-pure
  matched-Logs true false true m ops h = Logs-pure
  matched-Logs true false false m ops h = Logs-pure
  matched-Logs false true true m ops h = Logs-pure
  matched-Logs false true false m ops h = Logs-pure
  matched-Logs false false true m ops h = Logs-pure
  matched-Logs false false false m ops h = Logs-pure

  update_inputs-Logs :
      (inputs : List InputMetadata)
      → Logs
          (update_inputs fp core_name name channel raw_value inputs)
          (updates_log fp core_name name channel raw_value inputs)
  unfolding update_inputs
  update_inputs-Logs [] = Logs-pure
  update_inputs-Logs (input ∷ inputs) =
      Logs-then _ (update_inputs fp core_name name channel raw_value inputs) _ _
        (matched-Logs (str_eq input.name name) (str_eq input.core core_name)
          (input.channel == channel) (update_input fp raw_value input) _ (update_input-Logs input))
        (update_inputs-Logs inputs)

-- With the bridge loaded and in sink mode, and a new value that fits 32 bits without a sign when it
-- is cast to an integer, the value reaches exactly the inputs with the core, the name and the
-- channel, each by its own selector and destination and converted to the input's type.
pub update_input_value_dry :
    (fp : FloatingPoint) (core_name name : String) (channel : ℕ) (raw_value : Double)
    (d : DeployerBase)
    → IsDry d
    → fp.fits_uint32 raw_value ≡ true
    → update_input_value fp core_name name channel raw_value d
      ≡ (ok tt, logged d (updates_log fp core_name name (u16 channel) raw_value d.inputs))
unfolding update_input_value
update_input_value_dry fp core_name name channel raw_value d dry fits =
    (update_inputs-Logs fp core_name name (u16 channel) raw_value fits d.inputs).run d dry
