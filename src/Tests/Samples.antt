-- ===== src/Tests/Samples.antt =====
-- Sample states for the tests: a bus of 8 words each way, bridges and a deployer on it, slots.
use uscope_driver.Prelude.{ℕ, ◌+◌, ◌*◌, ◌/◌, Bool, true, false, [], ◌∷◌, ltb, ◌==◌}
use uscope_driver.Bus.{BusAccessor}
use uscope_driver.Bridge.{FpgaBridge}
use uscope_driver.BusMap.{HilBusMap, InterconnectSlot}
use uscope_driver.Floats.{FloatingPoint}
use uscope_driver.Layout.{LogicLayout}
use uscope_driver.Deployer.{DeployerBase}
use uscope_driver.Hil.{HilDeployer}

abbrev pub bus : Bool → BusAccessor
bus sink = record {
  control_addr = 0x100;
  core_addr = 0x800;
  n_registers = 8;
  n_fcore = 8;
  registers = λ i. i;
  fcore = λ i. 100 + i;
  sink_mode = sink;
  previous_sink_mode = false;
  operations = [];
}

abbrev pub bridge : Bool → Bool → FpgaBridge
bridge loaded sink = record { fpga_loaded = loaded; busses = bus sink }

abbrev pub slot : ℕ → ℕ → InterconnectSlot
slot io address = record {
  source_id = "source";
  source_name = "out";
  source_io_address = io;
  source_channel = 1;
  destination_id = "target";
  destination_name = "in";
  destination_bus_address = address;
  destination_channel = 2;
  metadata = record { is_float = true; width = 32; is_signed = true };
}

abbrev pub two_slots : HilBusMap
two_slots = slot 4 2 ∷ slot 5 9 ∷ []

abbrev pub layout : LogicLayout
layout = record {
  bases = record {
    cores_rom = 0x10000;
    cores_control = 0x20000;
    cores_inputs = 0x2000;
    noise_generator = 0x30000;
    waveform_generator = 0x40000;
    controller = 0x50000;
    scope_mux = 0x60000;
    hil_control = 0x70000;
  };
  offsets = record {
    dma = 0x1000;
    hil_tb = 0x1000;
    controller = 0;
    cores_rom = 0x1000;
    cores_control = 0x10000;
    cores_inputs = 0x1000;
  };
}

-- Whole numbers in place of floating point.
abbrev pub whole_numbers : FloatingPoint
whole_numbers = record {
  mul_float = ◌*◌;
  float_to_uint64 = λ f. f;
  one_float = 1;
  div_float = ◌/◌;
  fits_uint32 = λ d. ltb d 0x100000000;
  double_to_uint32 = λ d. d;
  double_to_float = λ d. d;
  is_zero = λ d. d == 0;
  float_to_double = λ f. f;
  one_double = 1;
  int_to_double = λ n. n;
  uint_to_double = λ n. n;
  add_double = ◌+◌;
  mul_double = ◌*◌;
  div_double = ◌/◌;
  less_double = ltb;
}

abbrev pub deployer : DeployerBase
deployer = record {
  hw = bridge true true;
  addresses = layout;
  ivs = [];
  active_random_inputs = 0;
  active_waveforms = 0;
  hil_clock_frequency = 1000;
  timebase_frequency = 100;
  bus_map = two_slots;
  bus_labels = [];
  inputs_labels = [];
  inputs =
      record {
        core = "target";
        name = "in";
        const_ip_addr = (0x22000, 0);
        channel = 0;
        dest = 3;
        is_float = false;
      }
      ∷ [];
}

abbrev pub hil_deployer : HilDeployer
hil_deployer = record {
  base = deployer;
  deployed_hash = 0;
  cores_idx = [];
  min_timebase = 0;
  n_channels = [];
  execution_order = [];
  timebase_divider = 1;
  full_cores_override = true;
}
