-- ===== src/Deployer/Silent/Setup.antt =====
-- The same for the set-up of outputs, memories and inputs.
use uscope_driver.Prelude.{
  ℕ, ◌+◌, ◌≡◌, refl, String, Bool, List, [], ◌∷◌, Option, none, some, arith, str_eq, u64, get_elem?,
}
use uscope_driver.Exec.{raise, fault, ◌>>◌}
use uscope_driver.Exec.Keeps.{
  Keeps, Keeps-modify, Keeps-then, Keeps-pure, Keeps-if, Keeps-raise, Keeps-option, keeps_rules,
}
use uscope_driver.Bus.{BusAccessor}
use uscope_driver.Floats.{FloatingPoint}
use uscope_driver.BusMap.{InterconnectSlot}
use uscope_driver.Deployer.{write_register}
use uscope_driver.Deployer.Outputs.{
  check_entry, write_iv, setup_output_entry, setup_entries, setup_output_dma,
}
use uscope_driver.Deployer.Memories.{
  setup_memories, write_channels, write_values, words, channel_register, MemoryInitValue,
}
use uscope_driver.Deployer.Inputs.{
  DeployedCoreInput, InputValues, floats, integers, SourceType, constant_input, time_series_input,
  random_input, waveform_input, external_input, at, input_word, write_constant, setup_constant,
  setup_random, setup_square_wave, setup_waveform, setup_waveform_input, setup_input,
  WaveformParameters, square, sine, triangle, SquareWaveParameters,
}
use uscope_driver.Deployer.Silent.{Sealed, write_register-Sealed}

module _ (origin : BusAccessor) where
  pub at-Sealed : {A : Type 0} (xs : List A) (i : ℕ) → Keeps (Sealed origin) (at xs i)
  at-Sealed xs i = record { run = λ d h. ground arith }

  write_channels-Sealed :
      (base : ℕ) (address : List ℕ) (i : ℕ) (vect : List ℕ)
      → Keeps (Sealed origin) (write_channels base address i vect)
  unfolding write_channels
  write_channels-Sealed base address i [] = search keeps_rules
  write_channels-Sealed base [] i (v ∷ vect) = search (keeps_rules, write_register-Sealed)
  write_channels-Sealed base (a ∷ address) i (v ∷ vect) =
      Keeps-then (write_register (channel_register base a i) v)
        (write_channels base (a ∷ address) (i + 1) vect)
        (write_register-Sealed origin (channel_register base a i) v)
        (write_channels-Sealed base (a ∷ address) (i + 1) vect)

  write_values-Sealed :
      (base n : ℕ) (address vect : List ℕ)
      → Keeps (Sealed origin) (write_values base n address vect)
  unfolding write_values
  write_values-Sealed base n [] [] =
      search (keeps_rules, write_register-Sealed, write_channels-Sealed)
  write_values-Sealed base n [] (v ∷ vect) =
      search (keeps_rules, write_register-Sealed, write_channels-Sealed)
  write_values-Sealed base n (a ∷ address) [] =
      search (keeps_rules, write_register-Sealed, write_channels-Sealed)
  write_values-Sealed base n (a ∷ address) (v ∷ vect) =
      search (keeps_rules, write_register-Sealed, write_channels-Sealed)

  pub setup_memories-Sealed :
      (base : ℕ) (inits : List MemoryInitValue) (n : ℕ)
      → Keeps (Sealed origin) (setup_memories base inits n)
  unfolding setup_memories
  setup_memories-Sealed base [] n = Keeps-pure tt
  setup_memories-Sealed base (init ∷ inits) n =
      Keeps-then (write_values base n init.address (words init.value)) (setup_memories base inits n)
        (write_values-Sealed base n init.address (words init.value))
        (setup_memories-Sealed base inits n)

  check_entry-Sealed : (e : InterconnectSlot) → Keeps (Sealed origin) (check_entry e)
  unfolding check_entry
  check_entry-Sealed e = search keeps_rules

  write_iv-Sealed :
      (e : InterconnectSlot) (dma io : ℕ) (iv : Option (List ℕ))
      → Keeps (Sealed origin) (write_iv e dma io iv)
  write_iv-Sealed e dma io none = search keeps_rules
  write_iv-Sealed e dma io (some iv) =
      Keeps-then (write_register (u64 (dma + 8)) io) _
        (write_register-Sealed origin (u64 (dma + 8)) io)
        (Keeps-option (get_elem? iv e.source_channel) (raise fault)
          (λ value. write_register (u64 (dma + 4)) value) (Keeps-raise fault)
          (write_register-Sealed origin (u64 (dma + 4))))

  setup_output_entry-Sealed :
      (e : InterconnectSlot) (dma io n : ℕ) → Keeps (Sealed origin) (setup_output_entry e dma io n)
  unfolding setup_output_entry
  setup_output_entry-Sealed e dma io n =
      search (keeps_rules, Keeps-modify, write_register-Sealed, check_entry-Sealed, write_iv-Sealed)
        depth 12

  setup_entries-Sealed :
      (slots : List InterconnectSlot) (address : ℕ) (name : String) (n io : ℕ)
      → Keeps (Sealed origin) (setup_entries slots address name n io)
  unfolding setup_entries
  setup_entries-Sealed [] address name n io = Keeps-pure io
  setup_entries-Sealed (i ∷ slots) address name n io =
      Keeps-if (str_eq i.source_id name)
        (setup_output_entry i address io n >> setup_entries slots address name n (io + 1))
        (setup_entries slots address name n io)
        (Keeps-then (setup_output_entry i address io n)
          (setup_entries slots address name n (io + 1)) (setup_output_entry-Sealed i address io n)
          (setup_entries-Sealed slots address name n (io + 1)))
        (setup_entries-Sealed slots address name n io)

  pub setup_output_dma-Sealed :
      (address : ℕ) (name : String) (n : ℕ)
      → Keeps (Sealed origin) (setup_output_dma address name n)
  unfolding setup_output_dma
  setup_output_dma-Sealed address name n =
      search (keeps_rules, write_register-Sealed, setup_entries-Sealed)

  pub input_word-Sealed : (vs : List InputValues) → Keeps (Sealed origin) (input_word vs)
  unfolding input_word
  input_word-Sealed [] = search keeps_rules
  input_word-Sealed (floats vect ∷ vs) = search (keeps_rules, at-Sealed)
  input_word-Sealed (integers vect ∷ vs) = search (keeps_rules, at-Sealed)

  write_constant-Sealed :
      (a : ℕ × ℕ) (dest value : ℕ) → Keeps (Sealed origin) (write_constant a dest value)
  unfolding write_constant
  write_constant-Sealed (ip, selector) dest value = search (keeps_rules, write_register-Sealed)

  setup_constant-Sealed :
      (input : DeployedCoreInput) (ip idx channel : ℕ) (name : String) (multi : Bool)
      → Keeps (Sealed origin) (setup_constant input ip idx channel name multi)
  unfolding setup_constant
  setup_constant-Sealed input ip idx channel name multi =
      search (keeps_rules, Keeps-modify, at-Sealed, input_word-Sealed, write_constant-Sealed)

  setup_random-Sealed :
      (input : DeployedCoreInput) (ip channel : ℕ) (name : String) (multi : Bool)
      → Keeps (Sealed origin) (setup_random input ip channel name multi)
  unfolding setup_random
  setup_random-Sealed input ip channel name multi =
      search (keeps_rules, Keeps-modify, write_register-Sealed, at-Sealed)

  setup_square_wave-Sealed :
      (fp : FloatingPoint) (address : ℕ) (p : SquareWaveParameters) (dest : ℕ)
      → Keeps (Sealed origin) (setup_square_wave fp address p dest)
  unfolding setup_square_wave
  setup_square_wave-Sealed fp address p dest =
      search (keeps_rules, Keeps-modify, write_register-Sealed, at-Sealed) depth 30 fits 20000

  setup_waveform-Sealed :
      (fp : FloatingPoint) (address : ℕ) (w : WaveformParameters) (dest : ℕ)
      → Keeps (Sealed origin) (setup_waveform fp address w dest)
  unfolding setup_waveform
  setup_waveform-Sealed fp address (square p) dest = setup_square_wave-Sealed fp address p dest
  setup_waveform-Sealed fp address sine dest = search keeps_rules
  setup_waveform-Sealed fp address triangle dest = search keeps_rules

  setup_waveform_input-Sealed :
      (fp : FloatingPoint) (input : DeployedCoreInput) (ip channel : ℕ) (name : String)
      (multi : Bool)
      → Keeps (Sealed origin) (setup_waveform_input fp input ip channel name multi)
  unfolding setup_waveform_input
  setup_waveform_input-Sealed fp input ip channel name multi =
      search (keeps_rules, Keeps-modify, at-Sealed, setup_waveform-Sealed)

  input_by_type-Sealed :
      (fp : FloatingPoint) (input : DeployedCoreInput) (type : SourceType) (ip idx channel : ℕ)
      (name : String) (multi : Bool)
      → input.source_type ≡ type
      → Keeps (Sealed origin) (setup_input fp input ip idx channel name multi)
  unfolding setup_input setup_constant setup_random setup_waveform_input
  input_by_type-Sealed fp input constant_input ip idx channel name multi e =
      rw e (setup_constant-Sealed input ip idx channel name multi)
  input_by_type-Sealed fp input time_series_input ip idx channel name multi e =
      rw e (setup_constant-Sealed input ip idx channel name multi)
  input_by_type-Sealed fp input random_input ip idx channel name multi e =
      rw e (setup_random-Sealed input ip channel name multi)
  input_by_type-Sealed fp input waveform_input ip idx channel name multi e =
      rw e (setup_waveform_input-Sealed fp input ip channel name multi)
  input_by_type-Sealed fp input external_input ip idx channel name multi e = rw e (Keeps-pure tt)

  pub setup_input-Sealed :
      (fp : FloatingPoint) (input : DeployedCoreInput) (ip idx channel : ℕ) (name : String)
      (multi : Bool)
      → Keeps (Sealed origin) (setup_input fp input ip idx channel name multi)
  setup_input-Sealed fp input ip idx channel name multi =
      input_by_type-Sealed fp input input.source_type ip idx channel name multi refl
