-- ===== src/Tests/Deployer.antt =====
-- Tests of the deployers' writes.
use uscope_driver.Prelude.{◌≡◌, ◌%◌, ◌/◌, ◌^◌, ◌<◌, String, refl, List, [], ◌∷◌, ◌++◌, arith}
use uscope_driver.Prelude.Dict.{lookup}
use uscope_driver.Exec.{ok, err, runtime_error}
use uscope_driver.Bus.Memory.{write_op}
use uscope_driver.Deployer.Writes.{IsDry, logged}
use uscope_driver.Deployer.Outputs.{setup_output_dma, setup_output_entry, entry_mapping}
use uscope_driver.Deployer.Outputs.Entries.{Fits, setup_output_entry_refused, entry_mapping_fields}
use uscope_driver.Deployer.Outputs.Dma.{slots_of, entries_log, label_all, setup_output_dma_dry}
use uscope_driver.Deployer.Memories.{MemoryInitValue, integers}
use uscope_driver.Deployer.Memories.Registers.{AllFilled}
use uscope_driver.Deployer.Inputs.{update_input_value}
use uscope_driver.Deployer.Inputs.Updates.{updates_log, update_input_value_dry}
use uscope_driver.Tests.Samples.{slot, deployer, whole_numbers}

abbrev pub deployer-IsDry : IsDry deployer
deployer-IsDry = record { loaded = refl; sink = refl }

slot-Fits : Fits (slot 4 2)
slot-Fits = record {
  source_address = omega arith;
  bus_address = omega arith;
  source_channel = omega arith;
  destination_channel = omega arith;
}

slot-Fits_second : Fits (slot 5 9)
slot-Fits_second = record {
  source_address = omega arith;
  bus_address = omega arith;
  source_channel = omega arith;
  destination_channel = omega arith;
}

large-misfits : ¬ Fits (slot 0x1000 2)
large-misfits fits = omega (arith, fits.source_address)

setup_output_entry_refused_example :
    (message : String) × (setup_output_entry (slot 0x1000 2) 0x21000 0 1 deployer
      ≡ (err (runtime_error message), deployer))
setup_output_entry_refused_example =
    setup_output_entry_refused (slot 0x1000 2) 0x21000 0 1 deployer large-misfits

entry_mapping_fields_example :
    let e = slot 5 9 in
    (entry_mapping e % 2 ^ 12 ≡ e.source_io_address)
    × (entry_mapping e / 2 ^ 12 % 2 ^ 4 ≡ e.source_channel)
    × (entry_mapping e / 2 ^ 16 % 2 ^ 12 ≡ e.destination_bus_address)
    × (entry_mapping e / 2 ^ 28 ≡ e.destination_channel)
    × (entry_mapping e < 2 ^ 32)
entry_mapping_fields_example = entry_mapping_fields (slot 5 9) slot-Fits_second

setup_output_dma_dry_example :
    let own = slots_of "source" deployer.bus_map in
    setup_output_dma 0x21000 "source" 1 deployer ≡ (
      ok 2,
      label_all 1 own
          (logged deployer (entries_log 0x21000 0 own ++ write_op (0x21000 ∷ []) 2 ∷ [])),
    )
unfolding lookup
setup_output_dma_dry_example =
    setup_output_dma_dry 0x21000 "source" 1 deployer deployer-IsDry
      ((slot-Fits, refl), ((slot-Fits_second, refl), tt))

abbrev two_inits : List MemoryInitValue
two_inits =
    record { address = 5 ∷ []; value = integers (7 ∷ 8 ∷ []) }
    ∷ record { address = 6 ∷ []; value = integers (9 ∷ []) }
    ∷ []

two_inits-AllFilled : AllFilled two_inits
two_inits-AllFilled = ((λ e. cc, λ e. cc), ((λ e. cc, λ e. cc), tt))

update_input_value_dry_example :
    update_input_value whole_numbers "target" "in" 0 42 deployer
    ≡ (ok tt, logged deployer (updates_log whole_numbers "target" "in" 0 42 deployer.inputs))
update_input_value_dry_example =
    update_input_value_dry whole_numbers "target" "in" 0 42 deployer deployer-IsDry refl
