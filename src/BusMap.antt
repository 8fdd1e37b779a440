-- ===== src/BusMap.antt =====
-- includes/deployment/hil_bus_map.hpp and src/deployment/hil_bus_map.cpp: the interconnect slots of
-- a deployment, in the order in which they were added. A slot is a value of the fCore toolchain, of
-- which the driver reads the fields below. `push_back` is the only way to add one slot.
pub mod FreeAddress
pub mod Translate
use uscope_driver.Prelude.{
  ℕ, zero, suc, ◌+◌, ◌-◌, ◌^◌, String, Bool, true, false, List, [], ◌∷◌, ◌++◌, Option, none, some,
  not, ◌&&◌, ◌==◌, if◌then◌else◌, any, length, u16, str_eq,
}
use uscope_driver.Exec.{Result, ok, err, runtime_error}
use uscope_driver.Decimal.{concat, to_string}

-- The type of a signal, its width and its sign.
pub record IomMetadata : Type 0 where
  pub is_float : Bool
  pub width : ℕ
  pub is_signed : Bool

pub record InterconnectSlot : Type 0 where
  pub source_id : String
  pub source_name : String
  pub source_io_address : ℕ
  pub source_channel : ℕ
  pub destination_id : String
  pub destination_name : String
  pub destination_bus_address : ℕ
  pub destination_channel : ℕ
  pub metadata : IomMetadata

pub record BusAddress : Type 0 where
  pub address : ℕ
  pub channel : ℕ

pub record OutputSpecs : Type 0 where
  pub core_name : String
  pub source_output : String
  pub channel : ℕ

abbrev pub HilBusMap : Type 0
HilBusMap = List InterconnectSlot

unfoldable pub set_map : List InterconnectSlot → HilBusMap
set_map slots = slots

unfoldable pub push_back : HilBusMap → InterconnectSlot → HilBusMap
push_back bus_map e = bus_map ++ e ∷ []

abbrev pub clear : HilBusMap
clear = []

unfoldable pub is_bus_address_free : HilBusMap → ℕ → Bool
is_bus_address_free bus_map addr = not (any (λ e. e.destination_bus_address == addr) bus_map)

unfoldable pub is_io_address_free : HilBusMap → ℕ → String → Bool
is_io_address_free bus_map addr p_n =
    not (any (λ e. e.source_io_address == addr && str_eq e.source_id p_n) bus_map)

-- `for(i = bus_map.size(); i<(1<<16); i++)`, with the rounds left as the first argument.
unfoldable pub first_free_from : HilBusMap → ℕ → ℕ → Result ℕ
first_free_from bus_map zero i = err (runtime_error "Unable to find free bus address")
first_free_from bus_map (suc rounds) i =
    let rest = first_free_from bus_map rounds (i + 1) in
    if is_bus_address_free bus_map i then ok i else rest

unfoldable pub get_free_address : HilBusMap → ℕ → Result ℕ
unfolding first_free_from is_bus_address_free
get_free_address bus_map original_addr =
    if is_bus_address_free bus_map original_addr
    then ok original_addr
    else first_free_from bus_map (2 ^ 16 - length bus_map) (length bus_map)

abbrev pub is_output : OutputSpecs → InterconnectSlot → Bool
is_output out e =
    str_eq e.source_id out.core_name
    && str_eq e.source_name out.source_output
    && e.source_channel == out.channel

abbrev pub missing_output : OutputSpecs → String
missing_output out = concat (
    "Unable to find requested output: "
    ∷ out.core_name
    ∷ "."
    ∷ out.source_output
    ∷ "["
    ∷ to_string out.channel
    ∷ "]"
    ∷ [])

unfoldable pub translate_output : HilBusMap → OutputSpecs → Result BusAddress
translate_output [] out = err (runtime_error (missing_output out))
translate_output (e ∷ bus_map) out =
    if is_output out e
    then ok (record { address = e.destination_bus_address; channel = e.destination_channel })
    else translate_output bus_map out
