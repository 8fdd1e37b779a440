-- ===== src/Bridge.antt =====
-- includes/hw_interface/fpga_bridge.hpp and src/hw_interface/fpga_bridge.cpp. `fpga_loaded` is a
-- static member and every bridge of the process shares one bus accessor, so there is one state for
-- all of them. What the kernel's files answer is an argument of the method that asks.
pub mod Access
pub mod Construction
use uscope_driver.Prelude.{
  ℕ, zero, suc, ◌+◌, ◌<◌, ◌^◌, String, Bool, true, false, List, [], ◌∷◌, ◌++◌, Option, none, some,
  ltb, ◌==◌, if◌then◌else◌, u8, u32, u64, str_eq,
}
use uscope_driver.Exec.{
  Result, Exec, Error, ok, err, runtime_error, logic_error, fault, pure, raise, zoom, modify, ◌>>=◌,
  ◌>>◌,
}
use uscope_driver.Response.{
  ResponseCode, bitstream_load_failed, driver_file_not_found, driver_write_failed,
}
use uscope_driver.Interfaces.{
  InterfacesDictionary, FilePath, PathError, found, thrown, invalid_argument, out_of_range,
  get_clock_if,
}
use uscope_driver.Interfaces
use uscope_driver.Bus
use uscope_driver.Bus.{BusAccessor, BusOp}

pub record FpgaBridge : Type 0 where
  pub fpga_loaded : Bool
  pub busses : BusAccessor
  pub open busses use *

abbrev on_bus : {A : Type 0} → Exec BusAccessor A → Exec FpgaBridge A
on_bus = zoom (λ h. h.busses) (λ b h. record h { busses = b })

-- The fields that a register write object holds. A field that is read where it is missing is
-- undefined behaviour of the constant JSON object.
pub record WriteObj : Type 0 where
  pub kind : String
  pub proxy_type : Option String
  pub proxy_address : Option ℕ
  pub address : ℕ
  pub value : ℕ

-- What `load_bitstream` learns: the return value of `ioctl` is negative, or the status character.
pub record LoadAnswer : Type 0 where
  pub ioctl_failed : Bool
  pub status : ℕ

unfoldable pub load_bitstream : LoadAnswer → Exec FpgaBridge ResponseCode
load_bitstream answer h =
    if answer.ioctl_failed
    then (Result.ok bitstream_load_failed, h)
    else if answer.status == b'0'
    then (Result.ok bitstream_load_failed, h)
    else (Result.ok ResponseCode.ok, record h { fpga_loaded = true })

unfoldable pub write_direct : ℕ → ℕ → Exec FpgaBridge (Unit {0})
write_direct addr val h =
    if h.fpga_loaded then on_bus (Bus.write_register (addr ∷ []) (u32 val)) h else (Result.ok tt, h)

unfoldable pub write_proxied : ℕ → ℕ → ℕ → Exec FpgaBridge (Unit {0})
write_proxied proxy_addr target_addr val h =
    if h.fpga_loaded
    then on_bus (Bus.write_register (u32 target_addr ∷ proxy_addr ∷ []) (u32 val)) h
    else (Result.ok tt, h)

unfoldable pub read_direct : ℕ → ℕ → Exec FpgaBridge ℕ
read_direct random address h =
    if h.fpga_loaded then on_bus (Bus.read_register random (address ∷ [])) h else (Result.ok 0, h)

abbrev required : {A : Type 0} → Option A → Exec FpgaBridge A
required none = raise fault
required (some a) = pure a

-- The branch of `single_write_register` for a write behind a proxy.
abbrev write_via_proxy : WriteObj → String → Exec FpgaBridge (Unit {0})
write_via_proxy w proxy_type =
    if str_eq proxy_type "axis_constant"
    then (do
      proxy_address ← required w.proxy_address
      write_proxied proxy_address w.address w.value)
    else raise (runtime_error "ERROR: Unrecognised write proxy type")

abbrev write_by_kind : WriteObj → Exec FpgaBridge (Unit {0})
write_by_kind w =
    if str_eq w.kind "direct"
    then write_direct w.address w.value
    else if str_eq w.kind "proxied"
    then (do proxy_type ← required w.proxy_type; write_via_proxy w proxy_type)
    else raise (runtime_error "ERROR: Unrecognised register write type")

unfoldable pub single_write_register : WriteObj → Exec FpgaBridge ResponseCode
unfolding write_direct write_proxied
single_write_register w = do write_by_kind w; pure ResponseCode.ok

-- The body of the response of `single_read_register`.
pub record ReadResponse : Type 0 where
  pub payload : ℕ
  pub response_code : ResponseCode

unfoldable pub single_read_register : ℕ → ℕ → Exec FpgaBridge ReadResponse
unfolding read_direct
single_read_register random address = do
  payload ← read_direct random address
  pure (record { payload = payload; response_code = ResponseCode.ok })

unfoldable pub apply_program : ℕ → List ℕ → Exec FpgaBridge ResponseCode
apply_program address program = do on_bus (Bus.load_program address program); pure ResponseCode.ok

-- The loop of `apply_filter` from tap `i` on.
unfoldable pub write_taps : ℕ → ℕ → List ℕ → Exec FpgaBridge (Unit {0})
unfolding write_direct
write_taps address i [] = pure tt
write_taps address i (tap ∷ taps) = do
  write_direct address tap
  write_direct (u64 (address + 4)) i
  write_taps address (i + 1) taps

unfoldable pub apply_filter : ℕ → List ℕ → Exec FpgaBridge ResponseCode
unfolding write_taps
apply_filter address taps = do write_taps address 0 taps; pure ResponseCode.ok

-- The address of the scope buffer is what the kernel's file holds.
unfoldable pub set_scope_data : ℕ → ℕ → Exec FpgaBridge ResponseCode
unfolding write_direct
set_scope_data buffer addr = do write_direct addr buffer; pure ResponseCode.ok

abbrev pub get_pl_clock : ℕ → ℕ
get_pl_clock clk_n = 99_999_999

-- The paths of the process, whether the clock's file opens, and whether writing the frequency to it
-- succeeds.
pub record ClockAnswer : Type 0 where
  pub if_dict : InterfacesDictionary
  pub opens : Bool
  pub writes : Bool

abbrev pub of_path_error : PathError → Error
of_path_error (Interfaces.runtime_error what) = runtime_error what
of_path_error (invalid_argument what) = logic_error
of_path_error out_of_range = logic_error

-- A clock that has no file ends it with an exception.
unfoldable pub set_pl_clock : ClockAnswer → ℕ → ℕ → Result ResponseCode
set_pl_clock answer clk_n freq = elim (get_clock_if clk_n answer.if_dict) [
  | thrown e ↦ err (of_path_error e)
  | found file ↦ ok (
      if answer.opens
      then if answer.writes then ResponseCode.ok else driver_write_failed
      else driver_file_not_found)
]

unfoldable pub get_bus_operations : FpgaBridge → List BusOp
get_bus_operations h = h.operations

unfoldable pub clear_operations_vector : FpgaBridge → FpgaBridge
unfolding Bus.clear_operations
clear_operations_vector h = record h { busses = Bus.clear_operations h.busses }

unfoldable pub disable_bus_access : FpgaBridge → FpgaBridge
unfolding Bus.clear_operations Bus.disable_access
disable_bus_access h = record h { busses = Bus.clear_operations (Bus.disable_access h.busses) }

unfoldable pub enable_bus_access : FpgaBridge → FpgaBridge
unfolding Bus.enable_access
enable_bus_access h = record h { busses = Bus.enable_access h.busses }
