-- ===== src/Interfaces.antt =====
-- includes/hw_interface/interfaces_dictionary.hpp: the paths of the kernel's files for each
-- architecture.
pub mod Paths
use uscope_driver.Prelude.{
  ℕ, String, Bool, List, [], ◌∷◌, Option, none, some, ltb, if◌then◌else◌, str_eq, ◌≡◌, refl, ◌⊎◌,
  inl, inr,
}
use uscope_driver.Prelude.Dict.{Dict, string_eq, lookup}
use uscope_driver.Decimal.{concat, to_string}

-- The exceptions of the getters, by their type in the standard library.
pub data PathError : Type 0 where
  runtime_error invalid_argument : String → PathError
  out_of_range : PathError

pub data FilePath : Type 0 where
  found : String → FilePath
  thrown : PathError → FilePath

pub record InterfacesDictionary : Type 0 where
  pub arch : String

abbrev pub Table : Type 0
Table = Dict String String

abbrev pub fpga_manager_state_if : Table
fpga_manager_state_if =
    ("zynq", "/sys/class/fpga_manager/fpga0/state")
    ∷ ("zynqmp", "/sys/class/fpga_manager/fpga0/state")
    ∷ ("emulate", "/dev/zero")
    ∷ ("testing", "/tmp/fpga_manager_state")
    ∷ []

abbrev pub fpga_manager_bitstream_if : Table
fpga_manager_bitstream_if =
    ("zynq", "/dev/uscope_bitstream")
    ∷ ("zynqmp", "/dev/uscope_bitstream")
    ∷ ("emulate", "/dev/zero")
    ∷ ("testing", "/tmp/fpga_bitstream_if")
    ∷ []

abbrev pub fpga_manager_flags_if : Table
fpga_manager_flags_if =
    ("zynq", "/sys/class/fpga_manager/fpga0/flags")
    ∷ ("zynqmp", "/sys/class/fpga_manager/fpga0/flags")
    ∷ ("emulate", "/dev/zero")
    ∷ ("testing", "/tmp/fpga_flags_if")
    ∷ []

abbrev pub control_bus_if : Table
control_bus_if =
    ("zynq", "/dev/uscope_BUS_0")
    ∷ ("zynqmp", "/dev/uscope_BUS_0")
    ∷ ("emulate", "/dev/zero")
    ∷ ("testing", "/tmp/control_bus_if")
    ∷ []

abbrev pub cores_bus_if : Table
cores_bus_if =
    ("zynq", "/dev/uscope_BUS_1")
    ∷ ("zynqmp", "/dev/uscope_BUS_1")
    ∷ ("emulate", "/dev/zero")
    ∷ ("testing", "/tmp/cores_bus_if")
    ∷ []

abbrev pub data_bus_if : Table
data_bus_if =
    ("zynq", "/dev/uscope_data")
    ∷ ("zynqmp", "/dev/uscope_data")
    ∷ ("emulate", "/dev/uscope_data")
    ∷ ("testing", "/tmp/data_bus_if")
    ∷ []

abbrev pub clock_if : Table
clock_if =
    ("zynq", "/sys/devices/soc0/fffc0000.uScope/fclk_")
    ∷ ("zynqmp", "/sys/devices/platform/fclk")
    ∷ ("emulate", "/dev/zero")
    ∷ ("testing", "/tmp/clock_if_")
    ∷ []

abbrev pub buffer_addres_if : Table
buffer_addres_if =
    ("zynq", "/sys/devices/soc0/fffc0000.uScope/dma_addr")
    ∷ ("zynqmp", "/sys/devices/platform/fffc000000008000.uScope/dma_addr")
    ∷ ("emulate", "/dev/urandom")
    ∷ ("testing", "/tmp/buffer_addres_if")
    ∷ []

-- The dictionary of a process that has set no architecture.
abbrev pub if_dict : InterfacesDictionary
if_dict = record { arch = "trap" }

unfoldable pub set_arch : String → InterfacesDictionary → InterfacesDictionary
set_arch a d = record { arch = a }

-- `table.at(arch)`, which throws where the architecture has no entry.
abbrev pub entry : Option String → FilePath
entry none = thrown out_of_range
entry (some path) = found path

abbrev pub at : Table → String → FilePath
at table arch = entry (lookup arch table)

-- The getters that look whether an architecture was set.
abbrev pub guarded : String → Table → InterfacesDictionary → FilePath
guarded what table d = if str_eq d.arch "trap" then thrown (runtime_error what) else at table d.arch

unfoldable pub get_control_bus : InterfacesDictionary → FilePath
get_control_bus =
    guarded "Attempted access to configuration bus before architecture selection" control_bus_if

unfoldable pub get_cores_bus : InterfacesDictionary → FilePath
get_cores_bus = guarded "Attempted access to cores bus before architecture selection" cores_bus_if

unfoldable pub get_data_bus : InterfacesDictionary → FilePath
get_data_bus = guarded "Attempted access to data bus before architecture selection" data_bus_if

unfoldable pub get_buffer_address_if : InterfacesDictionary → FilePath
get_buffer_address_if =
    guarded "Attempted access to configuration before architecture selection" buffer_addres_if

unfoldable pub get_fpga_flags_if : InterfacesDictionary → FilePath
get_fpga_flags_if d = at fpga_manager_flags_if d.arch

unfoldable pub get_fpga_bitstream_if : InterfacesDictionary → FilePath
get_fpga_bitstream_if d = at fpga_manager_bitstream_if d.arch

unfoldable pub get_fpga_state_if : InterfacesDictionary → FilePath
get_fpga_state_if d = at fpga_manager_state_if d.arch

-- A path with more text behind it.
abbrev pub extended : FilePath → List String → FilePath
extended (found path) texts = found (concat (path ∷ texts))
extended (thrown e) texts = thrown e

unfoldable pub get_clock_if : ℕ → InterfacesDictionary → FilePath
get_clock_if clock_number d =
    if str_eq d.arch "trap"
    then thrown (runtime_error "Attempted access to configuration before architecture selection")
    else if ltb 3 clock_number
    then thrown (
        invalid_argument (
          concat (
            "The PS<->PL interface has only clocks 0 to 3, requested variation of clock #"
            ∷ to_string clock_number
            ∷ [])))
    else if str_eq d.arch "emulate"
    then at clock_if d.arch
    else if str_eq d.arch "zynqmp"
    then extended (at clock_if d.arch) (to_string clock_number ∷ "/set_rate" ∷ [])
    else extended (at clock_if d.arch) (to_string clock_number ∷ [])

pub FilePath-cases :
    (p : FilePath) → ((e : PathError) × (p ≡ thrown e)) ⊎ ((path : String) × (p ≡ found path))
FilePath-cases (thrown e) = inl (e, refl)
FilePath-cases (found path) = inr (path, refl)
