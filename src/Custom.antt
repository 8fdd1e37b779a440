-- ===== src/Custom.antt =====
-- includes/deployment/custom_deployer.hpp and src/deployment/custom_deployer.cpp: the deployer of
-- other logic than the hardware-in-the-loop system. What the toolchain makes of the specifications is
-- an argument.
pub mod Channels
use uscope_driver.Prelude.{
  ℕ, zero, suc, ◌+◌, ◌*◌, ◌^◌, String, Bool, true, false, List, [], ◌∷◌, Option, none, some, ltb,
  max, if◌then◌else◌, length, u64, ◌&&◌,
}
use uscope_driver.Prelude.Dict.{Dict, insert, lookup, string_eq}
use uscope_driver.Exec.{Result, Exec, pure, lift, gets, modify, zoom, ◌>>=◌, ◌>>◌}
use uscope_driver.Floats.{FloatingPoint}
use uscope_driver.Layout.{LogicLayout}
use uscope_driver.Response.{ResponseCode}
use uscope_driver.BusMap.{set_map}
use uscope_driver.Deployer.{DeployerBase, load_core, setup_core}
use uscope_driver.Deployer.Outputs.{setup_output_dma}
use uscope_driver.Deployer.Memories.{setup_memories, MemoryInitValue}
use uscope_driver.Deployer.Inputs.{
  DeployedCoreInput, InputValues, SourceType, random_input, setup_input,
}
use uscope_driver.Hil.{DeployedProgram, Deployment}

-- The options of a core that the toolchain's dispatcher gives.
pub record DeploymentOptions : Type 0 where
  pub rom_address : ℕ
  pub control_address : ℕ
  pub has_reciprocal : Bool

pub record CustomDeployer : Type 0 where
  pub base : DeployerBase
  pub cores_idx : Dict String ℕ

abbrev pub on_base : {A : Type 0} → Exec DeployerBase A → Exec CustomDeployer A
on_base = zoom (λ c. c.base) (λ d c. record c { base = d })

unfoldable pub load_cores :
    (String → DeploymentOptions) → List DeployedProgram → Exec CustomDeployer (Unit {0})
load_cores options [] = pure tt
load_cores options (p ∷ programs) = do
  modify (λ c. record c { cores_idx = insert p.name p.index c.cores_idx })
  on_base (load_core (options p.name).rom_address p.binary)
  load_cores options programs

-- The DMAs are numbered in the order of the programs, from `i` on.
unfoldable pub setup_dmas : ℕ → List DeployedProgram → ℕ → Exec DeployerBase ℕ
setup_dmas i [] max_transfers = pure max_transfers
setup_dmas i (p ∷ programs) max_transfers = do
  a ← gets (λ d. d.addresses)
  n_transfers ←
      setup_output_dma
        (u64 (u64 (a.bases.cores_control + a.offsets.cores_control * i) + a.offsets.dma)) p.name
        p.n_channels
  setup_dmas (i + 1) programs (max max_transfers n_transfers)

abbrev initializations : Dict String (List MemoryInitValue) → String → List MemoryInitValue
initializations memories name = elim (lookup name memories) [ none ↦ [] | some inits ↦ inits ]

unfoldable pub setup_states :
    (String → DeploymentOptions)
    → Dict String (List MemoryInitValue)
    → List DeployedProgram
    → Exec DeployerBase (Unit {0})
unfolding lookup
setup_states options memories [] = pure tt
setup_states options memories (p ∷ programs) = do
  setup_memories (options p.name).control_address (initializations memories p.name) p.n_channels
  setup_states options memories programs

-- `complex_base_addr` is 1.
unfoldable pub input_peripheral : LogicLayout → SourceType → ℕ
input_peripheral a source = elim source [
  | random_input ↦ u64 (1 + a.bases.noise_generator)
  | _ ↦ u64 (1 + a.bases.cores_inputs)
]

abbrev erase_first : DeployedCoreInput → DeployedCoreInput
erase_first input = record input { values = rest input.values }
  where
    rest : List InputValues → List InputValues
    rest [] = []
    rest (v ∷ vs) = vs

-- The loop tests its counter against the size of the values, which falls by one in each round. The
-- first argument is the number of values that are left.
unfoldable pub each_value :
    FloatingPoint → ℕ → ℕ → ℕ → ℕ → String → DeployedCoreInput → Exec DeployerBase (Unit {0})
each_value fp zero ip i j name input = pure tt
each_value fp (suc left) ip i j name input =
    let next = each_value fp left ip i (j + 1) name (erase_first input) in
    if ltb j (suc left) then setup_input fp input ip i j name true >> next else pure tt

unfoldable pub setup_core_inputs :
    FloatingPoint → DeployedProgram → ℕ → List DeployedCoreInput → Exec DeployerBase (Unit {0})
unfolding input_peripheral each_value
setup_core_inputs fp p i [] = pure tt
setup_core_inputs fp p i (input ∷ inputs) = do
  ip ← gets (λ d. input_peripheral d.addresses input.source_type)
  elim (ltb 1 (length input.values) && ltb 1 p.n_channels) [
    | true ↦ each_value fp (length input.values) ip i 0 p.name input
    | false ↦ setup_input fp input ip i 0 p.name false
  ]
  setup_core_inputs fp p (i + 1) inputs

unfoldable pub setup_inputs :
    FloatingPoint
    → (String → List DeployedCoreInput)
    → List DeployedProgram
    → Exec DeployerBase (Unit {0})
setup_inputs fp get_inputs [] = pure tt
setup_inputs fp get_inputs (p ∷ programs) = do
  setup_core_inputs fp p 0 (get_inputs p.name)
  setup_inputs fp get_inputs programs

-- At least the channels that the pipeline needs.
unfoldable pub channels_of : DeploymentOptions → DeployedProgram → ℕ
channels_of opts p =
    let min_channels : ℕ = if opts.has_reciprocal then 11 else 8 in
    if ltb min_channels p.n_channels then p.n_channels else min_channels

unfoldable pub setup_cores :
    (String → DeploymentOptions) → List DeployedProgram → Exec DeployerBase (Unit {0})
unfolding channels_of
setup_cores options [] = pure tt
setup_cores options (p ∷ programs) = do
  setup_core (options p.name).control_address (channels_of (options p.name) p)
  setup_cores options programs

unfoldable pub deploy :
    FloatingPoint
    → (String → DeploymentOptions)
    → Result Deployment
    → Exec CustomDeployer ResponseCode
deploy fp options set_specs = do
  specs ← lift set_specs
  modify (λ c. record c { base = record c.base { bus_map = set_map specs.interconnect_slots } })
  load_cores options specs.programs
  on_base (setup_dmas 0 specs.programs 0)
  on_base (setup_states options specs.memory_initializations specs.programs)
  on_base (setup_inputs fp specs.inputs specs.programs)
  on_base (setup_cores options specs.programs)
  pure ResponseCode.ok
