-- ===== src/Hil/Simulation.antt =====
-- src/deployment/hil_deployer.cpp: the texts of `get_hardware_sim_data`. A loop over a `std::map` visits
-- its entries in the order of the keys.
use Prim.Native.Char.{code}
use Prim.Native.String.{[] as no_chars, ◌∷◌ as ◌:::◌}
use Prim.Native.String.{compare}
use Prim.Native.Nat.{Ordering}
use uscope_driver.Prelude.{ℕ, String, Bool, true, false, [], ◌∷◌, map, leb, ◌==◌, if◌then◌else◌}
use uscope_driver.Prelude.Dict.{Dict}
use uscope_driver.Decimal.{concat, to_string}
use uscope_driver.Exec.{Result, Exec, gets, pure, ◌>>=◌, ◌>>◌}
use uscope_driver.Bus.Planes.{get_hardware_simulation_data}
use uscope_driver.Deployer.{TbInputAddresses}
use uscope_driver.Hil.{HilDeployer, Deployment}
use uscope_driver.Hil.Deploy.{Platform, deploy_for_simulation}

module _ {K V : Type 0} (before : K → K → Bool) where
  abbrev place : K × V → Dict K V → Dict K V
  place e [] = e ∷ []
  place (k, v) ((j, u) ∷ m) =
      let rest = place (k, v) m in if before k j then (k, v) ∷ (j, u) ∷ m else (j, u) ∷ rest

  abbrev by_key : Dict K V → Dict K V
  by_key [] = []
  by_key (e ∷ m) = place e (by_key m)

abbrev text_before : String → String → Bool
text_before a b = elim (compare a b) [ Ordering.gt ↦ false | _ ↦ true ]

-- `std::ranges::replace(name, ' ', '_')`
unfoldable pub replace_spaces : String → String
replace_spaces no_chars = ""
replace_spaces (c ::: s) = (if code c == b' ' then "_" else c) ::: replace_spaces s

abbrev output_line : ℕ × String → String
output_line (key, name) = concat (to_string key ∷ ":" ∷ replace_spaces name ∷ "\n" ∷ [])

abbrev input_line : String × TbInputAddresses → String
input_line (name, tb) = concat (
    replace_spaces name
    ∷ ","
    ∷ to_string tb.peripheral
    ∷ ","
    ∷ to_string tb.destination
    ∷ ","
    ∷ to_string tb.selector
    ∷ ","
    ∷ to_string tb.core_idx
    ∷ "\n"
    ∷ [])

unfoldable pub outputs_text : Dict ℕ String → String
unfolding replace_spaces
outputs_text bus_labels = concat (map output_line (by_key leb bus_labels))

unfoldable pub inputs_text : Dict String TbInputAddresses → String
unfolding replace_spaces
inputs_text inputs_labels = concat (map input_line (by_key text_before inputs_labels))

pub record HardwareSimData : Type 0 where
  pub code : String
  pub control : String
  pub outputs : String
  pub inputs : String

module _ {Specs : Type 0} (hash : Specs → ℕ) (set_specs : Specs → Result Deployment)
    (pl : Platform) where
  unfoldable pub get_hardware_sim_data : Specs → Exec HilDeployer HardwareSimData
  unfolding outputs_text inputs_text
  get_hardware_sim_data specs = do
    deploy_for_simulation hash set_specs pl specs
    planes ← λ h. (get_hardware_simulation_data h.base.hw.busses.operations, h)
    h ← gets (λ h. h)
    pure (record {
      code = planes.0;
      control = planes.1;
      outputs = outputs_text h.base.bus_labels;
      inputs = inputs_text h.base.inputs_labels;
    })
