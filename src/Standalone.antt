-- ===== src/Standalone.antt =====
-- src/hil_depoyer_standalone.cpp: the deployment of a file by a program of its own, which brings an
-- address map with it. The deployer that it chooses is an argument, and
-- the emulator, which is given the specifications and then left, is not modelled.
pub mod Incomplete
use uscope_driver.Prelude.{ℕ, ◌*◌, String, Bool, false, List, [], ◌∷◌, if◌then◌else◌}
use uscope_driver.Prelude.Dict.{Dict, string_eq}
use uscope_driver.Exec.{Result, Exec, ok, err, pure, lift, ◌>>=◌, ◌>>◌}
use uscope_driver.Json.{JsonLibrary}
use uscope_driver.Layout.{LogicLayout}
use uscope_driver.Layout.Document.{parse_layout_object}

module _ {Json : Type 0} (json : JsonLibrary Json) where
  abbrev pub bases : Dict String Json
  bases =
      ("cores_rom", json.of_uint64 0x500000000)
      ∷ ("cores_control", json.of_uint64 0x443c20000)
      ∷ ("cores_inputs", json.of_uint64 0x2000)
      ∷ ("controller", json.of_uint64 0x443c10000)
      ∷ ("scope_mux", json.of_uint64 0x443c50000)
      ∷ ("hil_control", json.of_uint64 0x443c00000)
      ∷ []

  abbrev pub offsets : Dict String Json
  offsets =
      ("cores_rom", json.of_uint64 0x10000000)
      ∷ ("cores_control", json.of_uint64 0x10000)
      ∷ ("controller", json.of_uint64 0x1000)
      ∷ ("cores_inputs", json.of_uint64 0x1000)
      ∷ ("dma", json.of_uint64 0x1000)
      ∷ ("hil_tb", json.of_uint64 0)
      ∷ []

  abbrev pub parts : Dict String Json
  parts = ("bases", json.of_fields bases) ∷ ("offsets", json.of_fields offsets) ∷ []

  abbrev pub addr_map : Json
  addr_map = json.of_fields parts

  abbrev mode_of : Result Json → Result Bool
  mode_of (ok mode) = json.get_bool mode
  mode_of (err e) = err e

  -- Whether the specifications ask for the deployer of other logic.
  unfoldable pub custom_deploy : Json → Result Bool
  custom_deploy spec =
      if json.contains spec "deployment_mode"
      then mode_of (json.subscript spec "deployment_mode")
      else ok false

  -- `main` after the reading of the file, on the address map of the deployer.
  unfoldable pub deploy_file :
      (Bool → Json → Exec LogicLayout (Unit {0})) → Json → Exec LogicLayout (Unit {0})
  deploy_file deploy spec = do
    custom ← lift (custom_deploy spec)
    parse_layout_object json addr_map
    deploy custom spec
