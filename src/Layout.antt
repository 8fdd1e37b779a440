-- ===== src/Layout.antt =====
-- The address map of the programmable logic in includes/deployment/deployer_base.hpp.
pub mod Document
pub mod RoundTrip
use uscope_driver.Prelude.{ℕ, String, [], ◌∷◌}
use uscope_driver.Decimal.{concat, to_string}

pub record LogicLayoutBases : Type 0 where
  pub cores_rom : ℕ
  pub cores_control : ℕ
  pub cores_inputs : ℕ
  pub noise_generator : ℕ
  pub waveform_generator : ℕ
  pub controller : ℕ
  pub scope_mux : ℕ
  pub hil_control : ℕ

pub record LogicLayoutOffsets : Type 0 where
  pub dma : ℕ
  pub hil_tb : ℕ
  pub controller : ℕ
  pub cores_rom : ℕ
  pub cores_control : ℕ
  pub cores_inputs : ℕ

pub record LogicLayout : Type 0 where
  pub bases : LogicLayoutBases
  pub offsets : LogicLayoutOffsets

-- The registers of the constant generator of a core.
pub record FcoreConstantEngine : Type 0 where
  pub const_lsb : ℕ
  pub const_hsb : ℕ
  pub const_dest : ℕ
  pub const_selector : ℕ
  pub clear_constant : ℕ
  pub active_channels : ℕ
  pub const_user : ℕ

abbrev pub fcore_constant_engine : FcoreConstantEngine
fcore_constant_engine = record {
  const_lsb = 0x0;
  const_hsb = 0x4;
  const_dest = 0x8;
  const_selector = 0xC;
  clear_constant = 0x10;
  active_channels = 0x14;
  const_user = 0x18;
}

-- The registers of the square wave generator.
pub record SquareWaveGen : Type 0 where
  pub active_channels : ℕ
  pub shape_selector : ℕ
  pub channel_selector : ℕ
  pub v_on : ℕ
  pub v_off : ℕ
  pub t_delay : ℕ
  pub t_on : ℕ
  pub period : ℕ
  pub dest_out : ℕ
  pub user_out : ℕ

abbrev pub square_wave_gen : SquareWaveGen
square_wave_gen = record {
  active_channels = 0x0;
  shape_selector = 0x4;
  channel_selector = 0x8;
  v_on = 0xC;
  v_off = 0x10;
  t_delay = 0x14;
  t_on = 0x18;
  period = 0x1C;
  dest_out = 0x20;
  user_out = 0x24;
}

-- The text of an address map, for the log.
unfoldable pub dump : LogicLayout → String
dump l = concat (
    "CORES ROM: BASE "
    ∷ to_string l.bases.cores_rom
    ∷ ", OFFSET "
    ∷ to_string l.offsets.cores_rom
    ∷ "\nCORES CONTROL: BASE "
    ∷ to_string l.bases.cores_control
    ∷ ", OFFSET "
    ∷ to_string l.offsets.cores_control
    ∷ "\nCORES INPUTS: BASE "
    ∷ to_string l.bases.cores_inputs
    ∷ ", OFFSET "
    ∷ to_string l.offsets.cores_inputs
    ∷ "\nDMA OFFSET: "
    ∷ to_string l.offsets.dma
    ∷ "\nCONTROLLER: BASE "
    ∷ to_string l.bases.controller
    ∷ ", OFFSET "
    ∷ to_string l.offsets.controller
    ∷ "\nHIL CONTROL: BASE "
    ∷ to_string l.bases.hil_control
    ∷ "\nSCOPE MUX: BASE "
    ∷ to_string l.bases.scope_mux
    ∷ "\nHIL TB: OFFSET "
    ∷ to_string l.offsets.hil_tb
    ∷ "\nNOISE GENERATOR: BASE "
    ∷ to_string l.bases.noise_generator
    ∷ "\nWAVEFORM GENERATOR: BASE "
    ∷ to_string l.bases.waveform_generator
    ∷ "\n"
    ∷ [])
