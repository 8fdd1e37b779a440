-- ===== src/Layout/Document.antt =====
-- includes/deployment/deployer_base.hpp: the address map as a document, read and written.
use uscope_driver.Prelude.{ℕ, String, [], ◌∷◌}
use uscope_driver.Prelude.Dict.{Dict, string_eq}
use uscope_driver.Exec.{Exec, lift, modify, ◌>>=◌, ◌>>◌}
use uscope_driver.Json.{JsonLibrary}
use uscope_driver.Layout.{LogicLayout, LogicLayoutBases, LogicLayoutOffsets}

module _ {Json : Type 0} (json : JsonLibrary Json) where
  -- `obj[part][key]` of a constant object.
  abbrev address_at : {S : Type 0} → Json → String → String → Exec S ℕ
  address_at obj part key = do
    fields ← lift (json.const_subscript obj part)
    field ← lift (json.const_subscript fields key)
    lift (json.get_uint64 field)

  -- The field that is read is kept, also where a later one fails.
  abbrev pub assign :
      (ℕ → LogicLayout → LogicLayout) → Json → String → String → Exec LogicLayout (Unit {0})
  assign set obj part key = do address ← address_at obj part key; modify (set address)

  unfoldable pub parse_layout_object : Json → Exec LogicLayout (Unit {0})
  parse_layout_object obj = do
    assign (λ v l. record l { bases = record l.bases { cores_rom = v } }) obj "bases" "cores_rom"
    assign (λ v l. record l { bases = record l.bases { cores_control = v } }) obj "bases"
        "cores_control"
    assign (λ v l. record l { bases = record l.bases { cores_inputs = v } }) obj "bases"
        "cores_inputs"
    assign (λ v l. record l { bases = record l.bases { controller = v } }) obj "bases" "controller"
    assign (λ v l. record l { bases = record l.bases { scope_mux = v } }) obj "bases" "scope_mux"
    assign (λ v l. record l { bases = record l.bases { hil_control = v } }) obj "bases"
        "hil_control"
    assign (λ v l. record l { bases = record l.bases { waveform_generator = v } }) obj "bases"
        "waveform_generator"
    assign (λ v l. record l { bases = record l.bases { noise_generator = v } }) obj "bases"
        "noise_generator"
    assign (λ v l. record l { offsets = record l.offsets { cores_rom = v } }) obj "offsets"
        "cores_rom"
    assign (λ v l. record l { offsets = record l.offsets { dma = v } }) obj "offsets" "dma"
    assign (λ v l. record l { offsets = record l.offsets { cores_control = v } }) obj "offsets"
        "cores_control"
    assign (λ v l. record l { offsets = record l.offsets { controller = v } }) obj "offsets"
        "controller"
    assign (λ v l. record l { offsets = record l.offsets { cores_inputs = v } }) obj "offsets"
        "cores_inputs"
    assign (λ v l. record l { offsets = record l.offsets { hil_tb = v } }) obj "offsets" "hil_tb"

  abbrev pub bases_fields : LogicLayoutBases → Dict String Json
  bases_fields b =
      ("cores_rom", json.of_uint64 b.cores_rom)
      ∷ ("cores_control", json.of_uint64 b.cores_control)
      ∷ ("controller", json.of_uint64 b.controller)
      ∷ ("cores_inputs", json.of_uint64 b.cores_inputs)
      ∷ ("scope_mux", json.of_uint64 b.scope_mux)
      ∷ ("hil_control", json.of_uint64 b.hil_control)
      ∷ ("waveform_generator", json.of_uint64 b.waveform_generator)
      ∷ ("noise_generator", json.of_uint64 b.noise_generator)
      ∷ []

  abbrev pub offsets_fields : LogicLayoutOffsets → Dict String Json
  offsets_fields o =
      ("cores_rom", json.of_uint64 o.cores_rom)
      ∷ ("cores_control", json.of_uint64 o.cores_control)
      ∷ ("controller", json.of_uint64 o.controller)
      ∷ ("cores_inputs", json.of_uint64 o.cores_inputs)
      ∷ ("dma", json.of_uint64 o.dma)
      ∷ ("hil_tb", json.of_uint64 o.hil_tb)
      ∷ []

  unfoldable pub dump_layout_object : LogicLayout → Json
  dump_layout_object l = json.of_fields (
      ("offsets", json.of_fields (offsets_fields l.offsets))
      ∷ ("bases", json.of_fields (bases_fields l.bases))
      ∷ [])
