-- ===== src/Hil/Silent/Whole.antt =====
-- src/deployment/hil_deployer.cpp: `deploy` as a whole in sink mode.
use uscope_driver.Prelude.{ℕ, String, List, [], ◌∷◌, ltb, arith, max, length}
use uscope_driver.Prelude.Dict.{Dict}
use uscope_driver.Exec.{Result, lift, gets, modify}
use uscope_driver.Exec.Keeps.{
  Keeps, Keeps-modify, Keeps-bind, Keeps-then, Keeps-pure, Keeps-lift, Keeps-raise, Keeps-gets,
  Keeps-if, keeps_rules,
}
use uscope_driver.Bus
use uscope_driver.Bus.{BusAccessor}
use uscope_driver.Bridge.{clear_operations_vector}
use uscope_driver.Deployer.{setup_core}
use uscope_driver.Deployer.Outputs.{setup_output_dma}
use uscope_driver.Deployer.Memories.{setup_memories, MemoryInitValue}
use uscope_driver.Deployer.Silent.{load_core-Sealed, setup_core-Sealed}
use uscope_driver.Deployer.Silent.Setup.{setup_output_dma-Sealed, setup_memories-Sealed}
use uscope_driver.Floats.{FloatingPoint}
use uscope_driver.Hil.{DeployedProgram, Deployment, on_base, at_key}
use uscope_driver.Hil.Timebase.{
  set_timebase_frequency, calculate_divider, calculate_timebase_divider, calculate_timebase_shift,
  Sort,
}
use uscope_driver.Hil.Deploy.{
  Platform, reset, control_address, initializations, prepare_core, prepare_cores, setup_dmas,
  setup_states, setup_cores, deploy_cores, on_bridge, deploy,
}
use uscope_driver.Hil.Silent.{SealedHil, on_base-Sealed}
use uscope_driver.Hil.Silent.Parts.{
  setup_sequencer-Sealed, setup_interconnect_iv-Sealed, setup_inputs-Sealed,
}

module _ (origin : BusAccessor) where
  prepare_core-Sealed :
      (pl : Platform) (p : DeployedProgram) → Keeps (SealedHil origin) (prepare_core pl p)
  unfolding prepare_core
  prepare_core-Sealed pl p =
      search (keeps_rules, Keeps-modify, on_base-Sealed, load_core-Sealed) depth 20 fits 5000

  prepare_cores-Sealed :
      (pl : Platform) (ps : List DeployedProgram) → Keeps (SealedHil origin) (prepare_cores pl ps)
  unfolding prepare_cores
  prepare_cores-Sealed pl [] = Keeps-pure tt
  prepare_cores-Sealed pl (p ∷ ps) =
      Keeps-then (prepare_core pl p) (prepare_cores pl ps) (prepare_core-Sealed pl p)
        (prepare_cores-Sealed pl ps)

  set_timebase_frequency-Sealed :
      (fp : FloatingPoint) (fs : List ℕ) → Keeps (SealedHil origin) (set_timebase_frequency fp fs)
  unfolding set_timebase_frequency
  set_timebase_frequency-Sealed fp fs = search (keeps_rules, Keeps-modify)

  calculate_divider-Sealed :
      (fuel : ℕ) (fp : FloatingPoint) (p : DeployedProgram)
      → Keeps (SealedHil origin) (calculate_divider fuel fp p)
  unfolding calculate_divider
  calculate_divider-Sealed fuel fp p = record { run = λ h sealed. ground arith }

  calculate_timebase_divider-Sealed :
      (fuel : ℕ) (fp : FloatingPoint) (ps : List DeployedProgram)
      → Keeps (SealedHil origin) (calculate_timebase_divider fuel fp ps)
  unfolding calculate_timebase_divider
  calculate_timebase_divider-Sealed fuel fp [] = Keeps-pure []
  calculate_timebase_divider-Sealed fuel fp (p ∷ ps) =
      Keeps-bind (calculate_divider fuel fp p) _ (calculate_divider-Sealed fuel fp p) (λ divider.
        Keeps-bind (calculate_timebase_divider fuel fp ps) _
          (calculate_timebase_divider-Sealed fuel fp ps)
          (λ dividers. Keeps-pure (divider ∷ dividers)))

  calculate_timebase_shift-Sealed :
      (sort : Sort) (ps : List DeployedProgram)
      → Keeps (SealedHil origin) (calculate_timebase_shift sort ps)
  unfolding calculate_timebase_shift
  calculate_timebase_shift-Sealed sort [] = record { run = λ h sealed. sealed }
  calculate_timebase_shift-Sealed sort (p ∷ ps) = record { run = λ h sealed. sealed }

  setup_dmas-Sealed :
      (ps : List DeployedProgram) (n : ℕ) → Keeps (SealedHil origin) (setup_dmas ps n)
  unfolding setup_dmas
  setup_dmas-Sealed [] n = Keeps-pure n
  setup_dmas-Sealed (p ∷ ps) n = Keeps-bind (gets _) _ (Keeps-gets _) (λ dma.
      Keeps-bind (on_base (setup_output_dma dma p.name p.n_channels)) _
        (on_base-Sealed origin (setup_output_dma dma p.name p.n_channels)
          (setup_output_dma-Sealed origin dma p.name p.n_channels))
        (λ n_transfers. setup_dmas-Sealed ps (max n n_transfers)))

  setup_states-Sealed :
      (memories : Dict String (List MemoryInitValue)) (ps : List DeployedProgram)
      → Keeps (SealedHil origin) (setup_states memories ps)
  unfolding setup_states
  setup_states-Sealed memories [] = Keeps-pure tt
  setup_states-Sealed memories (p ∷ ps) = Keeps-bind (gets _) _ (Keeps-gets _) (λ control.
      let inits = initializations memories p.name in
      Keeps-then (on_base (setup_memories control inits p.n_channels)) (setup_states memories ps)
        (on_base-Sealed origin (setup_memories control inits p.n_channels)
          (setup_memories-Sealed origin control inits p.n_channels))
        (setup_states-Sealed memories ps))

  setup_cores-Sealed : (ps : List DeployedProgram) → Keeps (SealedHil origin) (setup_cores ps)
  unfolding setup_cores
  setup_cores-Sealed [] = Keeps-pure tt
  setup_cores-Sealed (p ∷ ps) =
      Keeps-bind (gets (λ h. control_address h.base p.index)) _ (Keeps-gets _) (λ control.
        Keeps-bind (gets (λ h. at_key h.n_channels p.name)) _ (Keeps-gets _) (λ channels.
          Keeps-then (on_base (setup_core control channels)) (setup_cores ps)
            (on_base-Sealed origin (setup_core control channels)
              (setup_core-Sealed origin control channels))
            (setup_cores-Sealed ps)))

  deploy_cores-Sealed :
      (pl : Platform) (specs : Deployment) → Keeps (SealedHil origin) (deploy_cores pl specs)
  unfolding deploy_cores
  deploy_cores-Sealed pl specs =
      search
        (
          keeps_rules, prepare_cores-Sealed, set_timebase_frequency-Sealed,
          calculate_timebase_divider-Sealed, calculate_timebase_shift-Sealed, on_base-Sealed,
          setup_interconnect_iv-Sealed, setup_dmas-Sealed, setup_states-Sealed, setup_inputs-Sealed,
          setup_sequencer-Sealed, setup_cores-Sealed,
        )
        depth 40 fits 20000

  clear-Sealed : Keeps (SealedHil origin) (on_bridge clear_operations_vector)
  unfolding clear_operations_vector Bus.clear_operations
  clear-Sealed = Keeps-modify _ (λ h sealed. record {
    sink = sealed.sink;
    same_registers = sealed.same_registers;
    same_fcore = sealed.same_fcore;
    same_previous = sealed.same_previous;
  })

  module _ {Specs : Type 0} (hash : Specs → ℕ) (set_specs : Specs → Result Deployment)
      (pl : Platform) where
    pub deploy-Sealed :
        (arguments : Specs) → Keeps (SealedHil origin) (deploy hash set_specs pl arguments)
    unfolding deploy reset clear_operations_vector
    deploy-Sealed arguments =
        Keeps-then (modify (reset (hash arguments))) _
          (Keeps-modify (reset (hash arguments)) (λ h sealed. sealed))
          (Keeps-then (on_bridge clear_operations_vector) _ clear-Sealed (
            Keeps-bind (lift (set_specs arguments)) _ (Keeps-lift (set_specs arguments)) (λ specs.
              Keeps-then (modify _) _ (Keeps-modify _ (λ h sealed. sealed)) (
                Keeps-if (ltb 32 (length specs.programs)) _ _ (Keeps-raise _)
                  (deploy_cores-Sealed pl specs)))))
