-- ===== src/Hil/Wiring.antt =====
-- src/deployment/hil_deployer.cpp: the inputs of the cores, the outputs shown on the scope, and the
-- start and the stop of the system.
use uscope_driver.Prelude.{
  ℕ, zero, suc, ◌+◌, ◌*◌, ◌^◌, String, Bool, true, false, List, [], ◌∷◌, none, some, ltb, ◌==◌,
  if◌then◌else◌, bit_or, u32, u64, length,
}
use uscope_driver.Prelude.Dict.{insert, lookup, string_eq}
use uscope_driver.Decimal.{concat}
use uscope_driver.Exec.{Exec, pure, gets, modify, choose, ◌>>=◌, ◌>>◌}
use uscope_driver.Floats.{Double, FloatingPoint}
use uscope_driver.Layout.{LogicLayout}
use uscope_driver.BusMap.{OutputSpecs}
use uscope_driver.Deployer.{DeployerBase, write_register, get_bus_address}
use uscope_driver.Deployer.Inputs.{
  DeployedCoreInput, InputValues, SourceType, constant_input, time_series_input, random_input,
  waveform_input, external_input, setup_input, input_path, update_input_value,
}
use uscope_driver.Hil.{DeployedProgram}

-- `if(inputs_labels.contains(path)) inputs_labels[path].core_idx = p.index`
unfoldable pub label_core : String → ℕ → DeployerBase → DeployerBase
unfolding lookup
label_core path index d = elim (lookup path d.inputs_labels) [
  | none ↦ d
  | some tb ↦ record d {
    inputs_labels = insert path (record tb { core_idx = index }) d.inputs_labels;
  }
]

-- `in.data.erase(in.data.begin())`
abbrev pub erase_first : DeployedCoreInput → DeployedCoreInput
erase_first input = record input { values = rest input.values }
  where
    rest : List InputValues → List InputValues
    rest [] = []
    rest (v ∷ vs) = vs

-- One call of `setup_input` for each channel that is left. Some of the loops label the input of the
-- channel, and some go on to the next entry of the values.
unfoldable pub each_channel :
    FloatingPoint
    → DeployedProgram
    → ℕ
    → ℕ
    → Bool
    → Bool
    → ℕ
    → ℕ
    → DeployedCoreInput
    → Exec DeployerBase (Unit {0})
each_channel fp p ip progressive label erase zero j input = pure tt
each_channel fp p ip progressive label erase (suc left) j input = do
  setup_input fp input ip progressive j p.name true
  modify (λ d. if label then label_core (input_path p.name input.name j true) p.index d else d)
  each_channel fp p ip progressive label erase left (j + 1)
      (if erase then erase_first input else input)

-- The peripheral that an input is given.
unfoldable pub input_peripheral : LogicLayout → DeployedProgram → SourceType → ℕ
input_peripheral a p source =
    let core_input =
      u64
        (u64 (a.bases.cores_control + a.offsets.cores_control * p.index) + a.bases.cores_inputs) in
    elim source [
      | constant_input ↦ core_input
      | time_series_input ↦ core_input
      | random_input ↦ a.bases.noise_generator
      | waveform_input ↦ a.bases.waveform_generator
      | external_input ↦ core_input
    ]

-- The label after a loop over a number of channels, whose core name is that of the last one.
unfoldable pub last_path : DeployedProgram → DeployedCoreInput → ℕ → String
unfolding input_path
last_path p input zero = concat ("." ∷ input.name ∷ [])
last_path p input (suc j) = input_path p.name input.name j true

unfoldable pub consumes_index : SourceType → Bool
consumes_index source = elim source [
  | constant_input ↦ true
  | time_series_input ↦ true
  | random_input ↦ false
  | waveform_input ↦ false
  | external_input ↦ false
]

-- The channels that an input with at most one value is set up for, in a core with several.
unfoldable pub shared_channels : SourceType → ℕ → ℕ → ℕ
shared_channels source n_values n_channels = elim source [
  | constant_input ↦ if n_values == 1 then n_channels else n_values
  | time_series_input ↦ if n_values == 1 then n_channels else n_values
  | random_input ↦ n_channels
  | waveform_input ↦ n_channels
  | external_input ↦ 0
]

-- The body of the loop over the inputs of a core.
unfoldable pub setup_core_input :
    FloatingPoint → DeployedProgram → DeployedCoreInput → ℕ → Exec DeployerBase (Unit {0})
unfolding each_channel input_peripheral last_path label_core consumes_index shared_channels
setup_core_input fp p input progressive = do
  ip ← gets (λ d. input_peripheral d.addresses p input.source_type)
  let n_values = length input.values
  let shared = shared_channels input.source_type n_values p.n_channels
  let labelled = consumes_index input.source_type
  elim (ltb 1 p.n_channels) [
    | true ↦ elim (ltb 1 n_values) [
      | true ↦
          each_channel fp p ip progressive true true n_values 0 input
          >> modify (label_core (last_path p input n_values) p.index)
      | false ↦
          each_channel fp p ip progressive labelled false shared 0 input
          >> modify (label_core (last_path p input shared) p.index)
    ]
    | false ↦
        setup_input fp input ip progressive 0 p.name false
        >> modify (label_core (input_path p.name input.name 0 false) p.index)
  ]

unfoldable pub setup_core_inputs :
    FloatingPoint → DeployedProgram → List DeployedCoreInput → ℕ → Exec DeployerBase (Unit {0})
unfolding consumes_index
setup_core_inputs fp p [] progressive = pure tt
setup_core_inputs fp p (input ∷ inputs) progressive = do
  setup_core_input fp p input progressive
  setup_core_inputs fp p inputs
      (if consumes_index input.source_type then progressive + 1 else progressive)

-- The noise generator is told the number of its users after each core.
abbrev pub write_active : Exec DeployerBase (Unit {0})
write_active = choose (λ d.
    if ltb 0 d.active_random_inputs
    then write_register d.addresses.bases.noise_generator d.active_random_inputs
    else pure tt)

unfoldable pub setup_inputs :
    FloatingPoint
    → (String → List DeployedCoreInput)
    → List DeployedProgram
    → Exec DeployerBase (Unit {0})
setup_inputs fp get_inputs [] = pure tt
setup_inputs fp get_inputs (p ∷ programs) = do
  setup_core_inputs fp p (get_inputs p.name) 0
  write_active
  setup_inputs fp get_inputs programs

unfoldable pub select_output : ℕ → OutputSpecs → Exec DeployerBase (Unit {0})
select_output channel output = do
  bus ← get_bus_address output
  base ← gets (λ d. d.addresses.bases.scope_mux)
  write_register (u64 (base + u32 (4 * channel) + 4))
      (bit_or bus.address (u32 (bus.channel * 2 ^ 16)))

unfoldable pub set_input :
    FloatingPoint → String → String → ℕ → Double → Exec DeployerBase (Unit {0})
set_input fp core name channel value = update_input_value fp core name channel value

unfoldable pub start : Exec DeployerBase (Unit {0})
start = choose (λ d. write_register d.addresses.bases.hil_control 1)

unfoldable pub stop : Exec DeployerBase (Unit {0})
stop = choose (λ d. write_register d.addresses.bases.hil_control 0)
