-- ===== src/Tests/Scope.antt =====
-- Tests of the scope, the clocks and the deployer of other logic.
use uscope_driver.Prelude.{ℕ, ◌≡◌, refl, String, true, false, List, [], ◌∷◌, some, arith}
use uscope_driver.Exec.{ok}
use uscope_driver.Scope.{
  ScopeManager, AcquisitionMetadata, Buffers, sign_extend, shunt_data, get_channel,
}
use uscope_driver.Scope.Samples.{samples_of, sign_extend_lem, shunt_data_lem}
use uscope_driver.Timing.{TimingManager, ClockDefinition, set_base_clock, get_base_clock}
use uscope_driver.Interfaces.{get_clock_if}
use uscope_driver.Prelude.Dict.{lookup}
use uscope_driver.Decimal.{concat, to_string}
use uscope_driver.Timing.Clocks.{get_base_clock-set_base_clock}
use uscope_driver.Custom.{DeploymentOptions}
use uscope_driver.Tests.Samples.{bridge, whole_numbers}

abbrev pub scope : ScopeManager
scope = record {
  hw = bridge true true;
  scope_base_address = 0x1000;
  first_load = true;
  scaling_factors = 1 ∷ 2 ∷ 3 ∷ 4 ∷ 5 ∷ 6 ∷ [];
  channel_status = [];
}

sign_extend_lem_example : sign_extend 0xA 4 ≡ 0xFFFFFFFA
sign_extend_lem_example = sign_extend_lem 0xA 3 (omega arith)

-- Three samples of 16 bits: two of channel 1 and one of channel 0.
abbrev samples : List ℕ
samples = 0x0008000100000005 ∷ 0x0008000000000007 ∷ 0x0008000100000009 ∷ []

shunt_data_lem_example :
    (result : Buffers) × (shunt_data whole_numbers (λ n. n) samples scope ≡ (ok result, scope))
    × (result 1 ≡ samples_of whole_numbers (λ n. n) 2 1 samples)
unfolding get_channel
shunt_data_lem_example =
    shunt_data_lem whole_numbers (λ n. n) scope samples 1 2 refl (refl, (refl, (refl, tt))) refl

abbrev acquisition : AcquisitionMetadata
acquisition = record {
  mode = "single";
  trigger_mode = "both";
  trigger_source = 1;
  trigger_level = 50;
  level_type = "float";
  trigger_point = 200;
  prescaler = 3;
}

abbrev clock : ClockDefinition
clock = record {
  multiplier = 1;
  divider = 4;
  base_clock = 1;
  generator_base_address = 0x100;
  multiplier_present = false;
  phase = 0;
}

abbrev clocks : TimingManager
clocks = record {
  hw = some (bridge true true);
  ps_pl_clk_f = 100 ∷ 200 ∷ 300 ∷ 400 ∷ [];
  generated_clocks = ("adc", clock) ∷ [];
}

get_base_clock-set_base_clock_example :
    (get_base_clock 1
      (set_base_clock
        (record { if_dict = record { arch = "testing" }; opens = true; writes = true })
        1
        250
        clocks).1).0
    ≡ ok 250
unfolding get_clock_if concat to_string lookup
get_base_clock-set_base_clock_example =
    get_base_clock-set_base_clock clocks (bridge true true)
      (record { if_dict = record { arch = "testing" }; opens = true; writes = true }) 1 1 250 refl
      (omega arith)

abbrev options : String → DeploymentOptions
options name = record { rom_address = 0x800; control_address = 0x20000; has_reciprocal = true }
