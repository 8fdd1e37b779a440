-- ===== src/Hil/Silent/Parts.antt =====
-- The parts of a deployment that work on the deployer's base.
use uscope_driver.Prelude.{
  ℕ, zero, suc, ◌+◌, ◌-◌, ◌^◌, String, Bool, true, false, List, [], ◌∷◌, arith, str_eq, bit_or, u32,
  length, ltb, if◌then◌else◌,
}
use uscope_driver.Exec.{pure, gets, modify}
use uscope_driver.Exec.Keeps.{
  Keeps, Keeps-modify, Keeps-bind, Keeps-then, Keeps-pure, Keeps-if, Keeps-bool, Keeps-gets,
  keeps_rules,
}
use uscope_driver.Bus.{BusAccessor}
use uscope_driver.Floats.{FloatingPoint}
use uscope_driver.BusMap.{InterconnectSlot}
use uscope_driver.Deployer.{DeployerBase, write_register}
use uscope_driver.Deployer.Inputs.{
  DeployedCoreInput, InputValues, at, input_word, setup_input, input_path,
}
use uscope_driver.Deployer.Silent.{Sealed, write_register-Sealed}
use uscope_driver.Deployer.Silent.Setup.{at-Sealed, input_word-Sealed, setup_input-Sealed}
use uscope_driver.Hil.{DeployedProgram}
use uscope_driver.Hil.Sequencer.{
  check_enable, setup_cores_from, setup_sequencer, divisor_register, shift_register,
}
use uscope_driver.Hil.InitialValues.{
  entry_words, repeat_word, initial_values, set_iv, iv_of_inputs, iv_of_programs,
  setup_interconnect_iv,
}
use uscope_driver.Hil.Wiring.{
  label_core, each_channel, input_peripheral, last_path, shared_channels, setup_core_input,
  setup_core_inputs, write_active, setup_inputs, start, erase_first, consumes_index,
}

module _ (origin : BusAccessor) where
  setup_cores_from-Sealed :
      (n i enable : ℕ) (ds ss : List ℕ) → Keeps (Sealed origin) (setup_cores_from n i enable ds ss)
  unfolding setup_cores_from
  setup_cores_from-Sealed zero i enable ds ss = Keeps-pure enable
  setup_cores_from-Sealed (suc n) i enable ds ss =
      Keeps-then (check_enable i) _ (search (keeps_rules) depth 20 fits 5000) (
        Keeps-bind (at ds i) _ (at-Sealed origin ds i) (λ divisor.
          Keeps-bind (gets (λ d. d.addresses)) _ (Keeps-gets (λ d. d.addresses)) (λ a.
            Keeps-then (write_register (divisor_register a i) (u32 (divisor + 2 ^ 32 - 1))) _
              (write_register-Sealed origin (divisor_register a i) (u32 (divisor + 2 ^ 32 - 1)))
              (Keeps-bind (at ss i) _ (at-Sealed origin ss i) (λ shift.
                Keeps-then (write_register (shift_register a i) shift) _
                  (write_register-Sealed origin (shift_register a i) shift)
                  (setup_cores_from-Sealed n (i + 1) (bit_or enable (2 ^ i)) ds ss))))))

  pub setup_sequencer-Sealed :
      (fp : FloatingPoint) (n : ℕ) (ds ss : List ℕ) (min_timebase : ℕ)
      → Keeps (Sealed origin) (setup_sequencer fp n ds ss min_timebase)
  unfolding setup_sequencer
  setup_sequencer-Sealed fp n ds ss min_timebase =
      search (keeps_rules, write_register-Sealed, setup_cores_from-Sealed) depth 20 fits 5000

  entry_words-Sealed : (vs : List InputValues) → Keeps (Sealed origin) (entry_words vs)
  unfolding entry_words
  entry_words-Sealed [] = Keeps-pure []
  entry_words-Sealed (v ∷ vs) =
      Keeps-bind (input_word (v ∷ [])) _ (input_word-Sealed origin (v ∷ [])) (λ word.
        Keeps-bind (entry_words vs) _ (entry_words-Sealed vs) (λ rest. Keeps-pure (word ∷ rest)))

  repeat_word-Sealed : (n : ℕ) (vs : List InputValues) → Keeps (Sealed origin) (repeat_word n vs)
  unfolding repeat_word
  repeat_word-Sealed zero vs = Keeps-pure []
  repeat_word-Sealed (suc n) vs =
      Keeps-bind (input_word vs) _ (input_word-Sealed origin vs) (λ word.
        Keeps-bind (repeat_word n vs) _ (repeat_word-Sealed n vs)
          (λ rest. Keeps-pure (word ∷ rest)))

  initial_values-Sealed :
      (n : ℕ) (vs : List InputValues) → Keeps (Sealed origin) (initial_values n vs)
  unfolding initial_values
  initial_values-Sealed n vs = search (keeps_rules, entry_words-Sealed, repeat_word-Sealed)

  set_iv-Sealed :
      (id name : String) (words : List ℕ) (d : DeployerBase)
      → Sealed origin d
      → Sealed origin (set_iv id name words d)
  unfolding set_iv
  set_iv-Sealed id name words d h = h

  iv_of_inputs-Sealed :
      (slot : InterconnectSlot) (n : ℕ) (inputs : List DeployedCoreInput)
      → Keeps (Sealed origin) (iv_of_inputs slot n inputs)
  unfolding iv_of_inputs
  iv_of_inputs-Sealed slot n [] = Keeps-pure tt
  iv_of_inputs-Sealed slot n (input ∷ inputs) =
      Keeps-then _ (iv_of_inputs slot n inputs)
        (Keeps-if (str_eq input.name slot.destination_name) _ (pure tt)
          (Keeps-bind (initial_values n input.values) _ (initial_values-Sealed n input.values)
            (λ words.
              Keeps-modify (set_iv slot.source_id slot.source_name words)
                (set_iv-Sealed slot.source_id slot.source_name words)))
          (Keeps-pure tt))
        (iv_of_inputs-Sealed slot n inputs)

  iv_of_programs-Sealed :
      (slot : InterconnectSlot) (programs : List DeployedProgram)
      → Keeps (Sealed origin) (iv_of_programs slot programs)
  unfolding iv_of_programs
  iv_of_programs-Sealed slot [] = Keeps-pure tt
  iv_of_programs-Sealed slot (p ∷ programs) =
      Keeps-then _ (iv_of_programs slot programs)
        (Keeps-if (str_eq p.name slot.destination_id) (iv_of_inputs slot p.n_channels p.inputs)
          (pure tt) (iv_of_inputs-Sealed slot p.n_channels p.inputs) (Keeps-pure tt))
        (iv_of_programs-Sealed slot programs)

  pub setup_interconnect_iv-Sealed :
      (slots : List InterconnectSlot) (programs : List DeployedProgram)
      → Keeps (Sealed origin) (setup_interconnect_iv slots programs)
  unfolding setup_interconnect_iv
  setup_interconnect_iv-Sealed [] programs = Keeps-pure tt
  setup_interconnect_iv-Sealed (slot ∷ slots) programs =
      Keeps-then (iv_of_programs slot programs) (setup_interconnect_iv slots programs)
        (iv_of_programs-Sealed slot programs) (setup_interconnect_iv-Sealed slots programs)

  label_core-Sealed :
      (path : String) (index : ℕ) (d : DeployerBase)
      → Sealed origin d
      → Sealed origin (label_core path index d)
  unfolding label_core
  label_core-Sealed path index d h = ground arith

  maybe_label-Sealed :
      (label : Bool) (path : String) (index : ℕ)
      → Keeps (Sealed origin) (modify (λ d. if label then label_core path index d else d))
  maybe_label-Sealed true path index =
      Keeps-modify (label_core path index) (label_core-Sealed path index)
  maybe_label-Sealed false path index = Keeps-modify (λ d. d) (λ d h. h)

  each_channel-Sealed :
      (fp : FloatingPoint) (p : DeployedProgram) (ip progressive : ℕ) (label erase : Bool)
      (left j : ℕ) (input : DeployedCoreInput)
      → Keeps (Sealed origin) (each_channel fp p ip progressive label erase left j input)
  unfolding each_channel
  each_channel-Sealed fp p ip progressive label erase zero j input = Keeps-pure tt
  each_channel-Sealed fp p ip progressive label erase (suc left) j input =
      let next = (if erase then erase_first input else input) in
      Keeps-then (setup_input fp input ip progressive j p.name true) _
        (setup_input-Sealed origin fp input ip progressive j p.name true)
        (Keeps-then _ (each_channel fp p ip progressive label erase left (j + 1) next)
          (maybe_label-Sealed label (input_path p.name input.name j true) p.index)
          (each_channel-Sealed fp p ip progressive label erase left (j + 1) next))

  labelled-Sealed :
      (path : String) (index : ℕ) → Keeps (Sealed origin) (modify (label_core path index))
  labelled-Sealed path index = Keeps-modify (label_core path index) (label_core-Sealed path index)

  setup_core_input-Sealed :
      (fp : FloatingPoint) (p : DeployedProgram) (input : DeployedCoreInput) (progressive : ℕ)
      → Keeps (Sealed origin) (setup_core_input fp p input progressive)
  unfolding setup_core_input
  setup_core_input-Sealed fp p input progressive =
      Keeps-bind (gets (λ d. input_peripheral d.addresses p input.source_type)) _ (Keeps-gets _)
        (λ ip.
          let n_values = length input.values in
          let shared = shared_channels input.source_type n_values p.n_channels in
          let labelled = consumes_index input.source_type in
          Keeps-bool (ltb 1 p.n_channels) _ _
            (Keeps-bool (ltb 1 n_values) _ _
              (Keeps-then (each_channel fp p ip progressive true true n_values 0 input) _
                (each_channel-Sealed fp p ip progressive true true n_values 0 input)
                (labelled-Sealed (last_path p input n_values) p.index))
              (Keeps-then (each_channel fp p ip progressive labelled false shared 0 input) _
                (each_channel-Sealed fp p ip progressive labelled false shared 0 input)
                (labelled-Sealed (last_path p input shared) p.index)))
            (Keeps-then (setup_input fp input ip progressive 0 p.name false) _
              (setup_input-Sealed origin fp input ip progressive 0 p.name false)
              (labelled-Sealed (input_path p.name input.name 0 false) p.index)))

  setup_core_inputs-Sealed :
      (fp : FloatingPoint) (p : DeployedProgram) (inputs : List DeployedCoreInput) (progressive : ℕ)
      → Keeps (Sealed origin) (setup_core_inputs fp p inputs progressive)
  unfolding setup_core_inputs
  setup_core_inputs-Sealed fp p [] progressive = Keeps-pure tt
  setup_core_inputs-Sealed fp p (input ∷ inputs) progressive =
      let next = (if consumes_index input.source_type then progressive + 1 else progressive) in
      Keeps-then (setup_core_input fp p input progressive) (setup_core_inputs fp p inputs next)
        (setup_core_input-Sealed fp p input progressive) (setup_core_inputs-Sealed fp p inputs next)

  write_active-Sealed : Keeps (Sealed origin) write_active
  write_active-Sealed = search (keeps_rules, write_register-Sealed)

  pub setup_inputs-Sealed :
      (fp : FloatingPoint) (get_inputs : String → List DeployedCoreInput)
      (programs : List DeployedProgram)
      → Keeps (Sealed origin) (setup_inputs fp get_inputs programs)
  unfolding setup_inputs
  setup_inputs-Sealed fp get_inputs [] = Keeps-pure tt
  setup_inputs-Sealed fp get_inputs (p ∷ programs) =
      Keeps-then (setup_core_inputs fp p (get_inputs p.name) 0) _
        (setup_core_inputs-Sealed fp p (get_inputs p.name) 0)
        (Keeps-then write_active (setup_inputs fp get_inputs programs) write_active-Sealed
          (setup_inputs-Sealed fp get_inputs programs))

  pub start-Sealed : Keeps (Sealed origin) start
  unfolding start
  start-Sealed = search (keeps_rules, write_register-Sealed)
