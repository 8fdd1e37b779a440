-- ===== src/BusMap/Translate.antt =====
-- The translation of an output of a core to its address on the bus.
use uscope_driver.Prelude.{
  ◌≡◌, refl, ap, ◌⊎◌, inl, inr, true, false, [], ◌∷◌, ◌++◌, arith, any, Bool-cases, if◌then◌else◌,
}
use uscope_driver.Exec.{ok, err, runtime_error}
use uscope_driver.BusMap.{
  HilBusMap, InterconnectSlot, OutputSpecs, BusAddress, is_output, missing_output, translate_output,
  push_back,
}

abbrev pub destination : InterconnectSlot → BusAddress
destination e = record { address = e.destination_bus_address; channel = e.destination_channel }

-- An output is translated to the destination of the first slot with its core, name and channel; the
-- translation fails with the message for the output when no slot has them, and only then.
pub translate_output_cases :
    (bus_map : HilBusMap) (out : OutputSpecs)
    → ((before after : HilBusMap) × (e : InterconnectSlot) × (bus_map ≡ before ++ e ∷ after)
        × (any (is_output out) before ≡ false)
        × (is_output out e ≡ true)
        × (translate_output bus_map out ≡ ok (destination e)))
      ⊎ ((any (is_output out) bus_map ≡ false)
          × (translate_output bus_map out ≡ err (runtime_error (missing_output out))))
unfolding translate_output
translate_output_cases [] out = inr (refl, refl)
translate_output_cases (s ∷ bus_map) out = elim (Bool-cases (is_output out s)) [
  | inl hit ↦ inl ([], bus_map, s, refl, refl, hit, ground arith)
  | inr miss ↦ elim (translate_output_cases bus_map out) [
    | inl (before, after, e, split, none_before, hit, found) ↦
        inl (s ∷ before, after, e, ap (λ l. s ∷ l) split, ground arith, hit, ground arith)
    | inr (none_at_all, failed) ↦ inr (ground arith, ground arith)
  ]
]

-- A slot that is added changes the translation only of the outputs that had none.
pub translate_output-push_back :
    (bus_map : HilBusMap) (e : InterconnectSlot) (out : OutputSpecs)
    → translate_output (push_back bus_map e) out ≡ (
        if any (is_output out) bus_map
        then translate_output bus_map out
        else if is_output out e
        then ok (destination e)
        else err (runtime_error (missing_output out)))
unfolding translate_output push_back
translate_output-push_back [] e out = ground arith
translate_output-push_back (s ∷ bus_map) e out =
    ground (arith, translate_output-push_back bus_map e out)
