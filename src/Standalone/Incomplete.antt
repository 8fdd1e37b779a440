-- ===== src/Standalone/Incomplete.antt =====
-- src/hil_depoyer_standalone.cpp with includes/deployment/deployer_base.hpp: the address map lacks two
-- of the fields that are read.
use uscope_driver.Prelude.{◌≡◌, refl, String, Bool, none, some}
use uscope_driver.Prelude.Dict.{Dict, lookup, string_eq}
use uscope_driver.Exec.{Exec, ok, err, fault}
use uscope_driver.Json.{JsonLibrary, IsFaithful}
use uscope_driver.Layout.{LogicLayout}
use uscope_driver.Layout.Document.{parse_layout_object}
use uscope_driver.Standalone.{bases, parts, addr_map, custom_deploy, deploy_file}

-- A missing key of a constant object is undefined behaviour.
abbrev pub IsStrict : {Json : Type 0} → JsonLibrary Json → Type 0
IsStrict {Json} json =
    (fields : Dict String Json) (key : String)
    → lookup key fields ≡ none
    → json.const_subscript (json.of_fields fields) key ≡ err fault

-- The address map before the field that is missing was read.
abbrev half_read : LogicLayout → LogicLayout
half_read l = record l {
  bases = record l.bases {
    cores_rom = 0x500000000;
    cores_control = 0x443c20000;
    cores_inputs = 0x2000;
    controller = 0x443c10000;
    scope_mux = 0x443c50000;
    hil_control = 0x443c00000;
  };
}

module _ {Json : Type 0} (json : JsonLibrary Json) (f : IsFaithful json)
    (undefined : IsStrict json) where
  field :
      (fields : Dict String Json) (key : String) (j : Json)
      → lookup key fields ≡ some j
      → json.const_subscript (json.of_fields fields) key ≡ ok j
  field = f.const_subscript-of_fields

  parse_incomplete :
      (l : LogicLayout) → parse_layout_object json (addr_map json) l ≡ (err fault, half_read l)
  unfolding parse_layout_object lookup
  parse_incomplete l =
      simp
        (
          field (parts json) "bases" (json.of_fields (bases json)) refl,
          field (bases json) "cores_rom" _ refl,
          field (bases json) "cores_control" _ refl,
          field (bases json) "cores_inputs" _ refl,
          field (bases json) "controller" _ refl,
          field (bases json) "scope_mux" _ refl,
          field (bases json) "hil_control" _ refl,
          undefined (bases json) "waveform_generator" refl,
          f.get_uint64-of_uint64,
        )
        refl

  -- The program deploys nothing, whatever the deployer would do: where the mode of the specifications
  -- can be read, it comes to a field that its address map does not have.
  pub deploy_file_incomplete :
      (deploy : Bool → Json → Exec LogicLayout (Unit {0})) (spec : Json) (custom : Bool)
      (l : LogicLayout)
      → custom_deploy json spec ≡ ok custom
      → (deploy_file json deploy spec l).0 ≡ err fault
  unfolding deploy_file
  deploy_file_incomplete deploy spec custom l e = rw (e, parse_incomplete l) refl
