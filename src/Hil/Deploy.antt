-- ===== src/Hil/Deploy.antt =====
-- src/deployment/hil_deployer.cpp: `deploy` as a whole, and the simulation data that rest on it. The
-- specifications, their hash and what the toolchain makes of them are parameters.
pub mod Refusal
use uscope_driver.Prelude.{
  ℕ, ◌+◌, ◌*◌, String, ◌==◌, if◌then◌else◌, true, false, List, [], ◌∷◌, none, some, ltb, max, u64,
  u16, length, map,
}
use uscope_driver.Prelude.Dict.{Dict, insert, lookup, string_eq}
use uscope_driver.Exec.{
  Result, Exec, runtime_error, pure, raise, lift, gets, modify, choose, ◌>>=◌, ◌>>◌,
}
use uscope_driver.Floats.{FloatingPoint}
use uscope_driver.Response.{ResponseCode}
use uscope_driver.BusMap.{set_map}
use uscope_driver.Bridge.{
  FpgaBridge, clear_operations_vector, disable_bus_access, enable_bus_access,
}
use uscope_driver.Deployer.{DeployerBase, load_core, setup_core}
use uscope_driver.Deployer.Outputs.{setup_output_dma}
use uscope_driver.Deployer.Memories.{setup_memories, MemoryInitValue}
use uscope_driver.Hil.{DeployedProgram, Deployment, HilDeployer, at_key, on_base}
use uscope_driver.Hil.Reciprocal.{FcoreOpcodes, check_reciprocal}
use uscope_driver.Hil.Timebase.{
  Sort, set_timebase_frequency, calculate_timebase_divider, calculate_timebase_shift,
}
use uscope_driver.Hil.Sequencer.{setup_sequencer}
use uscope_driver.Hil.InitialValues.{setup_interconnect_iv}
use uscope_driver.Hil.Wiring.{setup_inputs, start}

-- What the deployer uses besides its own state: the instruction encoding, the arithmetic of the
-- machine, the order that `std::ranges::sort` brings about, and the rounds allowed to the divider's
-- loop.
pub record Platform : Type 0 where
  pub opcodes : FcoreOpcodes
  pub fp : FloatingPoint
  pub sort : Sort
  pub fuel : ℕ

abbrev pub control_address : DeployerBase → ℕ → ℕ
control_address d index =
    u64 (d.addresses.bases.cores_control + d.addresses.offsets.cores_control * index)

-- The clearing at the start of `deploy`.
unfoldable pub reset : ℕ → HilDeployer → HilDeployer
reset hash h = record h {
  deployed_hash = hash;
  min_timebase = 0;
  base = record h.base {
    active_waveforms = 0;
    active_random_inputs = 0;
    inputs_labels = [];
    bus_labels = [];
  };
}

unfoldable pub prepare_core : Platform → DeployedProgram → Exec HilDeployer (Unit {0})
prepare_core pl p = do
  rom ←
      gets
        (λ h. u64 (h.base.addresses.bases.cores_rom + p.index * h.base.addresses.offsets.cores_rom))
  modify (λ h. record h {
    cores_idx = insert p.name p.index h.cores_idx;
    execution_order = insert p.name p.order h.execution_order;
  })
  on_base (load_core rom p.binary)
  modify (λ h. record h {
    n_channels =
        insert p.name (check_reciprocal pl.opcodes h.full_cores_override p.binary) h.n_channels;
  })

unfoldable pub prepare_cores : Platform → List DeployedProgram → Exec HilDeployer (Unit {0})
prepare_cores pl [] = pure tt
prepare_cores pl (p ∷ programs) = do prepare_core pl p; prepare_cores pl programs

-- The loop that sets the DMAs up; it keeps the greatest number of transfers.
unfoldable pub setup_dmas : List DeployedProgram → ℕ → Exec HilDeployer ℕ
setup_dmas [] max_transfers = pure max_transfers
setup_dmas (p ∷ programs) max_transfers = do
  dma ←
      gets (λ h.
        u64 (control_address h.base (at_key h.cores_idx p.name) + h.base.addresses.offsets.dma))
  n_transfers ← on_base (setup_output_dma dma p.name p.n_channels)
  setup_dmas programs (max max_transfers n_transfers)

abbrev pub initializations : Dict String (List MemoryInitValue) → String → List MemoryInitValue
initializations memories name = elim (lookup name memories) [ none ↦ [] | some inits ↦ inits ]

unfoldable pub setup_states :
    Dict String (List MemoryInitValue) → List DeployedProgram → Exec HilDeployer (Unit {0})
unfolding lookup
setup_states memories [] = pure tt
setup_states memories (p ∷ programs) = do
  control ← gets (λ h. control_address h.base (at_key h.cores_idx p.name))
  on_base (setup_memories control (initializations memories p.name) p.n_channels)
  setup_states memories programs

unfoldable pub setup_cores : List DeployedProgram → Exec HilDeployer (Unit {0})
setup_cores [] = pure tt
setup_cores (p ∷ programs) = do
  control ← gets (λ h. control_address h.base p.index)
  channels ← gets (λ h. at_key h.n_channels p.name)
  on_base (setup_core control channels)
  setup_cores programs

-- What follows the check on the number of cores.
unfoldable pub deploy_cores : Platform → Deployment → Exec HilDeployer ResponseCode
deploy_cores pl specs = do
  prepare_cores pl specs.programs
  set_timebase_frequency pl.fp (map (λ p. p.sampling_frequency) specs.programs)
  dividers ← calculate_timebase_divider pl.fuel pl.fp specs.programs
  shifts ← calculate_timebase_shift pl.sort specs.programs
  on_base (setup_interconnect_iv specs.interconnect_slots specs.programs)
  setup_dmas specs.programs 0
  setup_states specs.memory_initializations specs.programs
  on_base (setup_inputs pl.fp specs.inputs specs.programs)
  min_timebase ← gets (λ h. h.min_timebase)
  on_base (setup_sequencer pl.fp (u16 (length specs.programs)) dividers shifts min_timebase)
  setup_cores specs.programs
  pure ResponseCode.ok

abbrev pub on_bridge : (FpgaBridge → FpgaBridge) → Exec HilDeployer (Unit {0})
on_bridge f = modify (λ h. record h { base = record h.base { hw = f h.base.hw } })

module _ {Specs : Type 0} (hash : Specs → ℕ) (set_specs : Specs → Result Deployment)
    (pl : Platform) where
  unfoldable pub deploy : Specs → Exec HilDeployer ResponseCode
  deploy arguments = do
    modify (reset (hash arguments))
    on_bridge clear_operations_vector
    specs ← lift (set_specs arguments)
    modify (λ h. record h { base = record h.base { bus_map = set_map specs.interconnect_slots } })
    (if ltb 32 (length specs.programs)
        then raise (runtime_error "The HIL SYSTEM ONLY SUPPORTS UP TO 32 CORES AT ONCE")
        else deploy_cores pl specs)

  -- The set-up that `get_hardware_sim_data` makes when the specifications are not the deployed ones.
  unfoldable pub deploy_for_simulation : Specs → Exec HilDeployer (Unit {0})
  deploy_for_simulation specs = choose (λ h. if h.deployed_hash == hash specs then pure tt else (do
    on_bridge disable_bus_access
    deploy specs
    on_base start
    on_bridge enable_bus_access))
