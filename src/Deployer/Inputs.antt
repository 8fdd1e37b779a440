-- ===== src/Deployer/Inputs.antt =====
-- src/deployment/deployer_base.cpp: the inputs of the cores, which are constants, random numbers or
-- waveforms. A core's input is a value of the fCore toolchain, of which the driver reads the fields
-- below.
pub mod Updates
use Prim.Native.Char.{Char, code}
use Prim.Native.String
use uscope_driver.Prelude.{
  ℕ, zero, suc, ◌+◌, ◌*◌, ◌/◌, ◌^◌, String, Bool, true, false, List, [], ◌∷◌, ◌++◌, ◌==◌, ◌&&◌,
  if◌then◌else◌, bit_and, u32, u64, u16, str_eq, get_elem?, Option, none, some,
}
use uscope_driver.Prelude.Dict.{insert, nat_eq, string_eq}
use uscope_driver.Decimal.{concat, to_string}
use uscope_driver.Exec.{Exec, runtime_error, fault, pure, raise, gets, modify, choose, ◌>>=◌, ◌>>◌}
use uscope_driver.Floats.{Float, Double, FloatingPoint, float_to_uint32}
use uscope_driver.Layout.{fcore_constant_engine, square_wave_gen}
use uscope_driver.BusMap.{IomMetadata}
use uscope_driver.Deployer.{
  DeployerBase, InputMetadata, TbInputAddresses, write_register, get_metadata_value,
}

pub data SourceType : Type 0 where
  constant_input time_series_input random_input waveform_input external_input : SourceType

pub data InputValues : Type 0 where
  floats : List Float → InputValues
  integers : List ℕ → InputValues

pub record SquareWaveParameters : Type 0 where
  pub v_on : List Float
  pub v_off : List Float
  pub t_delay : List Float
  pub t_on : List Float
  pub period : List Float

pub data WaveformParameters : Type 0 where
  square : SquareWaveParameters → WaveformParameters
  sine triangle : WaveformParameters

pub record DeployedCoreInput : Type 0 where
  pub name : String
  pub source_type : SourceType
  pub address : List ℕ
  pub values : List InputValues
  pub metadata : IomMetadata
  pub waveform_parameters : WaveformParameters

-- `v[i]`, where reading past the end is undefined.
abbrev pub at {ℓ} : {A : Type ℓ} → List A → ℕ → Exec DeployerBase A
at xs i d = elim (get_elem? xs i) [ none ↦ raise fault d | some a ↦ (pure a) d ]

-- The first word of the first entry of an input's values.
unfoldable pub input_word : List InputValues → Exec DeployerBase ℕ
input_word [] = raise fault
input_word (floats vect ∷ _) = do c_val ← at vect 0; pure (float_to_uint32 c_val)
input_word (integers vect ∷ _) = at vect 0

abbrev pub register_of : ℕ → ℕ → ℕ
register_of base offset = u64 (base + offset)

unfoldable pub input_path : String → String → ℕ → Bool → String
input_path core_name name target_channel is_multichannel =
    if is_multichannel
    then concat (core_name ∷ "[" ∷ to_string target_channel ∷ "]" ∷ "." ∷ name ∷ [])
    else concat (core_name ∷ "." ∷ name ∷ [])

-- The text before the last '[', if there is one.
unfoldable pub cut_last_bracket : String → Option String
cut_last_bracket String.[] = none
cut_last_bracket (String.◌∷◌ c s) = elim (cut_last_bracket s) [
  | some before ↦ some (String.◌∷◌ c before)
  | none ↦ if code c == b'[' then some String.[] else none
]

-- `core_name.substr(0, core_name.find_last_of('['))`
unfoldable pub before_bracket : String → String
before_bracket core_name = elim (cut_last_bracket core_name) [ some s ↦ s | none ↦ core_name ]

unfoldable pub bus_label : String → String → ℕ → Bool → String
bus_label core_name name target_channel is_multichannel =
    if is_multichannel
    then concat (before_bracket core_name ∷ "." ∷ name ∷ "[" ∷ to_string target_channel ∷ "]" ∷ [])
    else concat (core_name ∷ "." ∷ name ∷ [])

abbrev input_address : DeployedCoreInput → ℕ → Exec DeployerBase ℕ
input_address input target_channel = do
  first ← at input.address 0
  pure (u32 (first + u32 (target_channel * 2 ^ 16)))

-- The three writes that give a constant its value.
unfoldable pub write_constant : ℕ × ℕ → ℕ → ℕ → Exec DeployerBase (Unit {0})
write_constant (ip_addr, selector) dest value = do
  write_register (register_of ip_addr fcore_constant_engine.const_selector) selector
  write_register (register_of ip_addr fcore_constant_engine.const_dest) dest
  write_register (register_of ip_addr fcore_constant_engine.const_lsb) value

unfoldable pub setup_constant :
    DeployedCoreInput → ℕ → ℕ → ℕ → String → Bool → Exec DeployerBase (Unit {0})
setup_constant input const_ip_address const_idx target_channel core_name is_multichannel = do
  address ← input_address input target_channel
  input_value ← input_word input.values
  let selector = u32 (const_idx + u32 (target_channel * 2 ^ 16))
  modify (λ d. record d {
    inputs_labels =
        insert (input_path core_name input.name target_channel is_multichannel)
          (record {
            peripheral = register_of const_ip_address fcore_constant_engine.const_lsb;
            destination = address;
            selector = selector;
            core_idx = 0;
          })
          d.inputs_labels;
  })
  write_constant (const_ip_address, selector) address input_value
  modify (λ d. record d {
    inputs =
        d.inputs
        ++ record {
          core = core_name;
          name = input.name;
          const_ip_addr = (const_ip_address, selector);
          channel = target_channel;
          dest = address;
          is_float = input.metadata.is_float;
        }
          ∷ [];
  })

unfoldable pub setup_random :
    DeployedCoreInput → ℕ → ℕ → String → Bool → Exec DeployerBase (Unit {0})
setup_random input const_ip_address target_channel core_name is_multichannel = do
  address ← input_address input target_channel
  active ← gets (λ d. d.active_random_inputs)
  write_register (u64 (const_ip_address + u32 ((active + 1) * 4))) address
  modify (λ d. record d {
    active_random_inputs = u32 (active + 1);
    bus_labels =
        insert address (bus_label core_name input.name target_channel is_multichannel) d.bus_labels;
  })

-- The waveform's channel is read from the destination: it has 12 bits, the destination's 16.
unfoldable pub setup_square_wave :
    FloatingPoint → ℕ → SquareWaveParameters → ℕ → Exec DeployerBase (Unit {0})
setup_square_wave fp address p dest = do
  let channel = bit_and 0xFFF0000 dest / 2 ^ 16
  clock ← gets (λ d. d.hil_clock_frequency)
  period ← at p.period channel
  t_on ← at p.t_on channel
  t_delay ← at p.t_delay channel
  active ← gets (λ d. d.active_waveforms)
  write_register (register_of address square_wave_gen.channel_selector) active
  v_on ← at p.v_on channel
  write_register (register_of address square_wave_gen.v_on) (float_to_uint32 v_on)
  v_off ← at p.v_off channel
  write_register (register_of address square_wave_gen.v_off) (float_to_uint32 v_off)
  write_register (register_of address square_wave_gen.t_delay) (cycles t_delay clock)
  write_register (register_of address square_wave_gen.t_on) (cycles t_on clock)
  write_register (register_of address square_wave_gen.period) (cycles period clock)
  write_register (register_of address square_wave_gen.dest_out) dest
  write_register (register_of address square_wave_gen.shape_selector) 0
  write_register (register_of address square_wave_gen.user_out) (get_metadata_value 32 true true)
  modify (λ d. record d { active_waveforms = u32 (active + 1) })
  write_register (register_of address square_wave_gen.active_channels) (u32 (active + 1))
  where
    cycles : Float → Float → ℕ
    cycles time clock = fp.float_to_uint64 (fp.mul_float time clock)

unfoldable pub setup_waveform :
    FloatingPoint → ℕ → WaveformParameters → ℕ → Exec DeployerBase (Unit {0})
setup_waveform fp address (square p) dest = setup_square_wave fp address p dest
setup_waveform fp address sine dest = raise (runtime_error "Not implemented in hardware yet")
setup_waveform fp address triangle dest = raise (runtime_error "Not implemented in hardware yet")

unfoldable pub setup_waveform_input :
    FloatingPoint → DeployedCoreInput → ℕ → ℕ → String → Bool → Exec DeployerBase (Unit {0})
setup_waveform_input fp input const_ip_address target_channel core_name is_multichannel = do
  address ← input_address input target_channel
  modify (λ d. record d {
    bus_labels =
        insert address (bus_label core_name input.name target_channel is_multichannel) d.bus_labels;
  })
  setup_waveform fp const_ip_address input.waveform_parameters address

unfoldable pub setup_input :
    FloatingPoint → DeployedCoreInput → ℕ → ℕ → ℕ → String → Bool → Exec DeployerBase (Unit {0})
setup_input fp input ip idx channel core_name multi = elim input.source_type [
  | constant_input ↦ setup_constant input ip idx channel core_name multi
  | time_series_input ↦ setup_constant input ip idx channel core_name multi
  | random_input ↦ setup_random input ip channel core_name multi
  | waveform_input ↦ setup_waveform_input fp input ip channel core_name multi
  | external_input ↦ pure tt
]

abbrev pub matches : String → String → ℕ → InputMetadata → Bool
matches core_name name channel input =
    str_eq input.name name && str_eq input.core core_name && input.channel == channel

-- `static_cast<uint32_t>`, which is undefined for a number that does not fit.
abbrev pub cast_uint32 : FloatingPoint → Double → Exec DeployerBase ℕ
cast_uint32 fp raw_value =
    if fp.fits_uint32 raw_value then pure (fp.double_to_uint32 raw_value) else raise fault

-- A new value of an input. It is cast to an integer before its type is looked at.
unfoldable pub update_input : FloatingPoint → Double → InputMetadata → Exec DeployerBase (Unit {0})
update_input fp raw_value input = do
  integer ← cast_uint32 fp raw_value
  write_constant input.const_ip_addr input.dest
      (if input.is_float then float_to_uint32 (fp.double_to_float raw_value) else integer)

-- The loop of `update_input_value` over the known inputs.
unfoldable pub update_inputs :
    FloatingPoint → String → String → ℕ → Double → List InputMetadata → Exec DeployerBase (Unit {0})
update_inputs fp core_name name channel raw_value [] = pure tt
update_inputs fp core_name name channel raw_value (input ∷ inputs) = do
  (if matches core_name name channel input then update_input fp raw_value input else pure tt)
  update_inputs fp core_name name channel raw_value inputs

unfoldable pub update_input_value :
    FloatingPoint → String → String → ℕ → Double → Exec DeployerBase (Unit {0})
update_input_value fp core_name name channel raw_value =
    choose (λ d. update_inputs fp core_name name (u16 channel) raw_value d.inputs)
