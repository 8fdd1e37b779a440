-- ===== src/Layout/RoundTrip.antt =====
-- The address map that is written is read back.
use uscope_driver.Prelude.{ℕ, ◌≡◌, refl, String, some}
use uscope_driver.Prelude.Dict.{lookup, string_eq}
use uscope_driver.Exec.{ok}
use uscope_driver.Json.{JsonLibrary, IsFaithful}
use uscope_driver.Layout.{LogicLayout}
use uscope_driver.Layout.Document.{
  bases_fields, offsets_fields, parse_layout_object, dump_layout_object,
}

module _ {Json : Type 0} (json : JsonLibrary Json) (faithful : IsFaithful json) where
  base_field :
      (l : LogicLayout) (key : String) (v : ℕ)
      → lookup key (bases_fields json l.bases) ≡ some (json.of_uint64 v)
      → json.const_subscript (json.of_fields (bases_fields json l.bases)) key
        ≡ ok (json.of_uint64 v)
  base_field l key v found =
      faithful.const_subscript-of_fields (bases_fields json l.bases) key (json.of_uint64 v) found

  offset_field :
      (l : LogicLayout) (key : String) (v : ℕ)
      → lookup key (offsets_fields json l.offsets) ≡ some (json.of_uint64 v)
      → json.const_subscript (json.of_fields (offsets_fields json l.offsets)) key
        ≡ ok (json.of_uint64 v)
  offset_field l key v found =
      faithful.const_subscript-of_fields (offsets_fields json l.offsets) key (json.of_uint64 v)
        found

  bases_part :
      (l : LogicLayout)
      → json.const_subscript (dump_layout_object json l) "bases"
        ≡ ok (json.of_fields (bases_fields json l.bases))
  unfolding dump_layout_object lookup
  bases_part l =
      faithful.const_subscript-of_fields _ "bases" (json.of_fields (bases_fields json l.bases)) refl

  offsets_part :
      (l : LogicLayout)
      → json.const_subscript (dump_layout_object json l) "offsets"
        ≡ ok (json.of_fields (offsets_fields json l.offsets))
  unfolding dump_layout_object lookup
  offsets_part l =
      faithful.const_subscript-of_fields _ "offsets"
        (json.of_fields (offsets_fields json l.offsets)) refl

  -- Reading the document of an address map gives that map, whatever map was there before, if the
  -- library reads a field and a number as they were written.
  pub parse_layout_object-dump_layout_object :
      (l before : LogicLayout)
      → parse_layout_object json (dump_layout_object json l) before ≡ (ok tt, l)
  unfolding parse_layout_object lookup
  parse_layout_object-dump_layout_object l before = rw (
    bases_part l,
    base_field l "cores_rom" _ refl,
    faithful.get_uint64-of_uint64 l.bases.cores_rom,
    base_field l "cores_control" _ refl,
    faithful.get_uint64-of_uint64 l.bases.cores_control,
    base_field l "cores_inputs" _ refl,
    faithful.get_uint64-of_uint64 l.bases.cores_inputs,
    base_field l "controller" _ refl,
    faithful.get_uint64-of_uint64 l.bases.controller,
    base_field l "scope_mux" _ refl,
    faithful.get_uint64-of_uint64 l.bases.scope_mux,
    base_field l "hil_control" _ refl,
    faithful.get_uint64-of_uint64 l.bases.hil_control,
    base_field l "waveform_generator" _ refl,
    faithful.get_uint64-of_uint64 l.bases.waveform_generator,
    base_field l "noise_generator" _ refl,
    faithful.get_uint64-of_uint64 l.bases.noise_generator,
    offsets_part l,
    offset_field l "cores_rom" _ refl,
    faithful.get_uint64-of_uint64 l.offsets.cores_rom,
    offset_field l "dma" _ refl,
    faithful.get_uint64-of_uint64 l.offsets.dma,
    offset_field l "cores_control" _ refl,
    faithful.get_uint64-of_uint64 l.offsets.cores_control,
    offset_field l "controller" _ refl,
    faithful.get_uint64-of_uint64 l.offsets.controller,
    offset_field l "cores_inputs" _ refl,
    faithful.get_uint64-of_uint64 l.offsets.cores_inputs,
    offset_field l "hil_tb" _ refl,
    faithful.get_uint64-of_uint64 l.offsets.hil_tb,
  )
