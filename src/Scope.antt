-- ===== src/Scope.antt =====
-- includes/hw_interface/scope_manager.hpp, src/hw_interface/scope_manager.cpp and
-- includes/hw_interface/hw_address_maps.hpp: the captured samples and the set-up of the scope. The
-- samples that the kernel gives are an argument; the emulated data and the pauses are left out.
pub mod Samples
pub mod Acquisition
use uscope_driver.Prelude.{
  ℕ, zero, suc, ◌+◌, ◌-◌, ◌*◌, ◌/◌, ◌^◌, String, Bool, true, false, List, [], ◌∷◌, ◌++◌, Option,
  none, some, ltb, ◌==◌, if◌then◌else◌, length, get_elem?, bit_and, bit_xor, u16, u32, u64, str_eq,
}
use uscope_driver.Prelude.Dict.{Dict, insert, lookup, nat_eq}
use uscope_driver.Exec.{
  Result, Exec, ok, err, fault, pure, raise, lift, gets, modify, zoom, ◌>>=◌, ◌>>◌,
}
use uscope_driver.Floats.{Float, FloatingPoint, float_to_uint32, uint32_to_float}
use uscope_driver.Response.{ResponseCode}
use uscope_driver.Metadata.{ChannelMetadata, of_raw, get_size, is_signed, is_float}
use uscope_driver.Bridge.{FpgaBridge, write_direct, read_direct}
use uscope_driver.Bridge

pub record ScopeInternalAm : Type 0 where
  pub trg_mode : ℕ
  pub trg_lvl : ℕ
  pub buf_low : ℕ
  pub buf_high : ℕ
  pub trg_src : ℕ
  pub trg_point : ℕ
  pub acq_mode : ℕ
  pub trg_rearm_status : ℕ

abbrev pub scope_int : ScopeInternalAm
scope_int = record {
  trg_mode = 0x0;
  trg_lvl = 0x4;
  buf_low = 0x8;
  buf_high = 0xc;
  trg_src = 0x10;
  trg_point = 0x14;
  acq_mode = 0x18;
  trg_rearm_status = 0x1C;
}

pub record ScopeTbAm : Type 0 where
  pub ctrl : ℕ
  pub period : ℕ
  pub threshold : ℕ

abbrev pub scope_tb : ScopeTbAm
scope_tb = record { ctrl = 0x0; period = 0x4; threshold = 0x8 }

pub record ScopeAddressMap : Type 0 where
  pub mux_base : ℕ
  pub tb_base : ℕ
  pub internal_base : ℕ

abbrev pub am : ScopeAddressMap
am = record { mux_base = 0x0; tb_base = 0x100; internal_base = 0x200 }

abbrev pub mux_ctrl : ℕ
mux_ctrl = 0x0

abbrev pub n_channels : ℕ
n_channels = 6

pub record AcquisitionMetadata : Type 0 where
  pub mode : String
  pub trigger_mode : String
  pub trigger_source : ℕ
  pub trigger_level : Float
  pub level_type : String
  pub trigger_point : ℕ
  pub prescaler : ℕ

pub record ScopeManager : Type 0 where
  pub hw : FpgaBridge
  pub scope_base_address : ℕ
  pub first_load : Bool
  pub scaling_factors : List Float
  pub channel_status : Dict ℕ Bool

abbrev pub on_hw : {A : Type 0} → Exec FpgaBridge A → Exec ScopeManager A
on_hw = zoom (λ s. s.hw) (λ h s. record s { hw = h })

-- The manager that the constructor makes, on a bridge; `one` is the float 1.
unfoldable pub make_scope_manager : Float → FpgaBridge → ScopeManager
make_scope_manager one hw = record {
  hw = hw;
  scope_base_address = 0;
  first_load = true;
  scaling_factors = one ∷ one ∷ one ∷ one ∷ one ∷ one ∷ [];
  channel_status = (0, true) ∷ (1, true) ∷ (2, true) ∷ (3, true) ∷ (4, true) ∷ (5, true) ∷ [];
}

-- `GET_DATA`, `GET_CHANNEL` and `GET_METADATA`, of a 64-bit sample.
unfoldable pub get_data : ℕ → ℕ
get_data number = bit_and number 0xffffffff

unfoldable pub get_channel : ℕ → ℕ
get_channel number = bit_and number 0x0000ffff00000000 / 2 ^ 32

unfoldable pub get_metadata : ℕ → ℕ
get_metadata number = bit_and number 0xffff000000000000 / 2 ^ 48

-- The `int32_t` is given by its 32-bit pattern.
unfoldable pub sign_extend : ℕ → ℕ → ℕ
sign_extend value bits =
    let mask = 2 ^ (bits - 1) in
    let masked = bit_and value (2 ^ bits - 1) in u32 (bit_xor masked mask + 2 ^ 32 - mask)

-- `int32_to_float` converts the number with a 32-bit pattern.
unfoldable pub scale_data : FloatingPoint → (ℕ → Float) → ℕ → ℕ → Float → Bool → Bool → Float
unfolding sign_extend
scale_data fp int32_to_float raw_sample size scaling_factor signed float =
    let masked = bit_and raw_sample (2 ^ size - 1) in
    let sample = if signed then sign_extend masked size else masked in
    if float
    then uint32_to_float raw_sample
    else fp.mul_float scaling_factor (int32_to_float sample)

-- The vectors of the channels, by the number of the channel.
abbrev pub Buffers : Type 0
Buffers = ℕ → List Float

abbrev pub push : ℕ → Float → Buffers → Buffers
push channel sample buffers c = if c == channel then buffers c ++ sample ∷ [] else buffers c

abbrev pub scaled : FloatingPoint → (ℕ → Float) → Float → ℕ → Float
scaled fp int32_to_float scaling_factor raw_sample =
    let metadata = of_raw (get_metadata raw_sample) in
    scale_data fp int32_to_float (get_data raw_sample) (get_size metadata) scaling_factor
      (is_signed metadata) (is_float metadata)

-- The loop over the samples. The channel is compared with the number of channels twice, the first
-- time with one too many, and the scaling factor is read in between.
unfoldable pub shunt_from :
    FloatingPoint → (ℕ → Float) → List Float → List ℕ → Buffers → Result Buffers
unfolding get_channel
shunt_from fp int32_to_float scaling_factors [] ret_data = ok ret_data
shunt_from fp int32_to_float scaling_factors (raw_sample ∷ buffer_in) ret_data =
    let channel_base = get_channel raw_sample in
    let skipped = shunt_from fp int32_to_float scaling_factors buffer_in ret_data in
    let pushed = λ (factor : Float).
      shunt_from fp int32_to_float scaling_factors buffer_in
        (push channel_base (scaled fp int32_to_float factor raw_sample) ret_data) in
    if ltb n_channels channel_base then skipped else elim (get_elem? scaling_factors channel_base) [
      | none ↦ err fault
      | some factor ↦ if ltb channel_base n_channels then pushed factor else skipped
    ]

unfoldable pub shunt_data : FloatingPoint → (ℕ → Float) → List ℕ → Exec ScopeManager Buffers
shunt_data fp int32_to_float buffer_in s =
    (shunt_from fp int32_to_float s.scaling_factors buffer_in (λ c. []), s)

-- The factors are logged by their first six entries, which must be there.
unfoldable pub set_scaling_factors : List Float → Exec ScopeManager ResponseCode
set_scaling_factors sf =
    if ltb (length sf) n_channels
    then raise fault
    else (do modify (λ s. record s { scaling_factors = sf }); pure ResponseCode.ok)

-- `status[i]`, which enters a missing key as false.
abbrev pub touch : ℕ → Dict ℕ Bool → Dict ℕ Bool
touch i status = elim (lookup i status) [ none ↦ insert i false status | some b ↦ status ]

-- The log of the new status reads the six entries, which enters those that are missing.
unfoldable pub set_channel_status : Dict ℕ Bool → Exec ScopeManager ResponseCode
set_channel_status status = do
  modify (λ s. record s {
    channel_status = touch 5 (touch 4 (touch 3 (touch 2 (touch 1 (touch 0 status)))));
  })
  pure ResponseCode.ok

-- The objects that `read_data` gives for the channels that are on, from channel `i` on.
unfoldable pub channels_from : ℕ → ℕ → Buffers → Exec ScopeManager (List (ℕ × List Float))
unfolding lookup
channels_from zero i ret_data = pure []
channels_from (suc left) i ret_data = do
  modify (λ s. record s { channel_status = touch i s.channel_status })
  on ← gets (λ s. lookup i s.channel_status)
  rest ← channels_from left (i + 1) ret_data
  pure (elim on [ none ↦ rest | some b ↦ if b then (i, ret_data i) ∷ rest else rest ])

-- `none` is the exception that there is nothing to read.
unfoldable pub read_data :
    FloatingPoint → (ℕ → Float) → Option (List ℕ) → Exec ScopeManager (List (ℕ × List Float))
read_data fp int32_to_float none = pure []
read_data fp int32_to_float (some raw_data) = do
  ret_data ← shunt_data fp int32_to_float raw_data
  channels_from n_channels 0 ret_data

unfoldable pub acquisition_status : ℕ → String
acquisition_status res =
    if res == 0
    then "wait"
    else if res == 1
    then "run"
    else if res == 2
    then "stop"
    else if res == 3
    then "free run"
    else "unknown"

unfoldable pub get_acquisition_status : ℕ → Exec ScopeManager String
get_acquisition_status random s =
    if s.scope_base_address == 0
    then (pure "not present") s
    else (do
      res ← on_hw (
          read_direct random
            (u64 (s.scope_base_address + am.internal_base + scope_int.trg_rearm_status)))
      pure (acquisition_status res))
        s

unfoldable pub trigger_code : String → ℕ
trigger_code trigger_mode =
    if str_eq trigger_mode "rising_edge"
    then 0
    else if str_eq trigger_mode "falling_edge"
    then 1
    else if str_eq trigger_mode "both"
    then 2
    else 0

unfoldable pub mode_code : String → ℕ
mode_code mode =
    if str_eq mode "continuous"
    then 0
    else if str_eq mode "single"
    then 1
    else if str_eq mode "free_running"
    then 2
    else 0

-- Both types of level are written as the pattern of the float.
unfoldable pub level_word : AcquisitionMetadata → ℕ
level_word a =
    if str_eq a.level_type "float"
    then float_to_uint32 a.trigger_level
    else float_to_uint32 a.trigger_level

unfoldable pub set_prescaler : ℕ → ℕ → Exec FpgaBridge (Unit {0})
set_prescaler base prescaler =
    if ltb 2 prescaler
    then (do
      write_direct (u64 (base + am.tb_base + scope_tb.ctrl)) 1
      write_direct (u64 (base + am.tb_base + scope_tb.period)) prescaler
      write_direct (u64 (base + am.tb_base + scope_tb.threshold)) 1)
    else pure tt

unfoldable pub write_acquisition : ℕ → AcquisitionMetadata → Exec FpgaBridge (Unit {0})
unfolding trigger_code mode_code level_word set_prescaler
write_acquisition base a = do
  write_direct (u64 (base + am.internal_base + scope_int.trg_mode)) (trigger_code a.trigger_mode)
  write_direct (u64 (base + am.internal_base + scope_int.trg_src))
      (u32 (a.trigger_source + 2 ^ 32 - 1))
  write_direct (u64 (base + am.internal_base + scope_int.trg_lvl)) (level_word a)
  write_direct (u64 (base + am.internal_base + scope_int.acq_mode)) (mode_code a.mode)
  write_direct (u64 (base + am.internal_base + scope_int.trg_point)) a.trigger_point
  set_prescaler base a.prescaler

unfoldable pub set_acquisition : AcquisitionMetadata → Exec ScopeManager ResponseCode
set_acquisition a s =
    if s.scope_base_address == 0
    then (pure ResponseCode.ok) s
    else (do on_hw (write_acquisition s.scope_base_address a); pure ResponseCode.ok) s

unfoldable pub set_scope_address : ℕ → ℕ → ℕ → Exec ScopeManager (Unit {0})
set_scope_address buffer addr buffer_offset = do
  on_hw (Bridge.set_scope_data buffer (u64 (addr + buffer_offset)))
  modify (λ s. record s { scope_base_address = addr })

-- The first call only clears the mark.
unfoldable pub disable_dma : Bool → Exec ScopeManager (Unit {0})
disable_dma status s =
    let write_addr = u64 (s.scope_base_address + am.mux_base + mux_ctrl) in
    if s.first_load
    then (ok tt, record s { first_load = false })
    else if write_addr == 0
    then (ok tt, s)
    else on_hw (write_direct write_addr (if status then 1 else 0)) s
