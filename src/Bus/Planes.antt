-- ===== src/Bus/Planes.antt =====
-- src/hw_interface/bus/bus_accessor.cpp: the logged writes as texts for the simulation of the hardware.
use uscope_driver.Prelude.{ℕ, ◌+◌, String, List, [], ◌∷◌, u64}
use uscope_driver.Decimal.{concat, to_string}
use uscope_driver.Exec.{Result, ok, err, fault}
use uscope_driver.Bus.{
  BusOp, control_plane_write, rom_plane_write, control_plane_read, rom_plane_read,
}

abbrev line : ℕ → ℕ → String
line address value = concat (to_string address ∷ ":" ∷ to_string value ∷ "\n" ∷ [])

-- The words of a program from `address` on.
unfoldable pub rom_lines : ℕ → List ℕ → String
unfolding to_string
rom_lines address [] = ""
rom_lines address (word ∷ program) =
    concat (line address word ∷ rom_lines (u64 (address + 4)) program ∷ [])

-- Each value beside the address of the same place.
unfoldable pub control_lines : List ℕ → List ℕ → Result String
unfolding to_string
control_lines address [] = ok ""
control_lines [] (value ∷ values) = err fault
control_lines (a ∷ address) (value ∷ values) = elim (control_lines address values) [
  | err e ↦ err e
  | ok rest ↦ ok (concat (line a value ∷ rest ∷ []))
]

-- What an operation adds to the text of the core memories and to that of the registers.
unfoldable pub planes_of : BusOp → Result (String × String)
unfolding rom_lines control_lines
planes_of o = elim o.kind [
  | rom_plane_write ↦ elim o.address [ [] ↦ err fault | a ∷ rest ↦ ok (rom_lines a o.values, "") ]
  | control_plane_write ↦ elim (control_lines o.address o.values) [
    | err e ↦ err e
    | ok lines ↦ ok ("", lines)
  ]
  | control_plane_read ↦ ok ("", "")
  | rom_plane_read ↦ ok ("", "")
]

unfoldable pub get_hardware_simulation_data : List BusOp → Result (String × String)
unfolding planes_of
get_hardware_simulation_data [] = ok ("", "")
get_hardware_simulation_data (o ∷ ops) = elim (planes_of o) [
  | err e ↦ err e
  | ok first ↦ elim (get_hardware_simulation_data ops) [
    | err e ↦ err e
    | ok rest ↦ ok (concat (first.0 ∷ rest.0 ∷ []), concat (first.1 ∷ rest.1 ∷ []))
  ]
]
