-- ===== src/Deployer.antt =====
-- includes/deployment/deployer_base.hpp and src/deployment/deployer_base.cpp: the state that both
-- deployers share, and its writes to the hardware. The children model the set-up of the outputs, of
-- the memories and of the inputs.
pub mod Outputs
pub mod Memories
pub mod Inputs
pub mod Writes
pub mod Silent
use uscope_driver.Prelude.{
  ℕ, ◌+◌, ◌-◌, ◌^◌, String, Bool, List, none, if◌then◌else◌, bit_or, u8, u32,
}
use uscope_driver.Prelude.Dict.{Dict}
use uscope_driver.Exec.{Exec, pure, zoom, ◌>>=◌, ◌>>◌}
use uscope_driver.Floats.{Float, Double}
use uscope_driver.Layout.{LogicLayout}
use uscope_driver.BusMap.{HilBusMap, OutputSpecs, BusAddress, translate_output}
use uscope_driver.Bridge
use uscope_driver.Bridge.{FpgaBridge, WriteObj}

pub record InputMetadata : Type 0 where
  pub core : String
  pub name : String
  pub const_ip_addr : ℕ × ℕ
  pub channel : ℕ
  pub dest : ℕ
  pub is_float : Bool

pub record TbInputAddresses : Type 0 where
  pub peripheral : ℕ
  pub destination : ℕ
  pub selector : ℕ
  pub core_idx : ℕ

pub record DeployerBase : Type 0 where
  pub hw : FpgaBridge
  pub addresses : LogicLayout
  pub ivs : Dict String (Dict String (List ℕ))
  pub active_random_inputs : ℕ
  pub active_waveforms : ℕ
  pub hil_clock_frequency : Float
  pub timebase_frequency : Double
  pub bus_map : HilBusMap
  pub bus_labels : Dict ℕ String
  pub inputs_labels : Dict String TbInputAddresses
  pub inputs : List InputMetadata

abbrev pub on_hw : {A : Type 0} → Exec FpgaBridge A → Exec DeployerBase A
on_hw = zoom (λ d. d.hw) (λ h d. record d { hw = h })

abbrev pub direct_write : ℕ → ℕ → WriteObj
direct_write addr val = record {
  kind = "direct";
  proxy_type = none;
  proxy_address = none;
  address = addr;
  value = u32 val;
}

unfoldable pub write_register : ℕ → ℕ → Exec DeployerBase (Unit {0})
write_register addr val = do on_hw (Bridge.single_write_register (direct_write addr val)); pure tt

unfoldable pub load_core : ℕ → List ℕ → Exec DeployerBase (Unit {0})
load_core address program = do on_hw (Bridge.apply_program address program); pure tt

-- `size-8` is an `int` that is stored in 32 bits.
unfoldable pub get_metadata_value : ℕ → Bool → Bool → ℕ
get_metadata_value size is_signed is_float =
    let ret = u32 (u8 size + 2 ^ 32 - 8) in
    let ret' = if is_signed then bit_or ret 0x10 else ret in
    if is_float then bit_or ret' 0x20 else ret'

unfoldable pub setup_core : ℕ → ℕ → Exec DeployerBase (Unit {0})
unfolding write_register
setup_core core_address n_channels = write_register core_address n_channels

unfoldable pub get_bus_address : OutputSpecs → Exec DeployerBase BusAddress
get_bus_address spec d = (translate_output d.bus_map spec, d)
