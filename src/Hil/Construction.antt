-- ===== src/Hil/Construction.antt =====
-- src/deployment/hil_deployer.cpp: the constructor of the deployer, with the members that
-- includes/deployment/hil_deployer.hpp and includes/deployment/deployer_base.hpp initialise.
use uscope_driver.Prelude.{true, [], Option, none, some}
use uscope_driver.Floats.{Float, FloatingPoint}
use uscope_driver.Layout.{LogicLayout}
use uscope_driver.Bridge.{FpgaBridge}
use uscope_driver.Deployer.{DeployerBase}
use uscope_driver.Hil.{HilDeployer}

-- The float 100e6.
abbrev pub default_clock_frequency : Float
default_clock_frequency = 0x4CBEBC20

abbrev pub clock_frequency : Option Float → Float
clock_frequency none = default_clock_frequency
clock_frequency (some f) = f

-- The members of `deployer_base`; the address map has no initial value, so it is an argument.
abbrev pub make_deployer_base :
    FloatingPoint → LogicLayout → FpgaBridge → Option Float → DeployerBase
make_deployer_base fp addresses hw clock_f = record {
  hw = hw;
  addresses = addresses;
  ivs = [];
  active_random_inputs = 0;
  active_waveforms = 0;
  hil_clock_frequency = clock_frequency clock_f;
  timebase_frequency = fp.int_to_double 0;
  bus_map = [];
  bus_labels = [];
  inputs_labels = [];
  inputs = [];
}

-- `clock_f` is the number in the environment's HIL_CLOCK_FREQ.
unfoldable pub make_hil_deployer :
    FloatingPoint → LogicLayout → FpgaBridge → Option Float → HilDeployer
make_hil_deployer fp addresses hw clock_f = record {
  base = make_deployer_base fp addresses hw clock_f;
  deployed_hash = 0;
  cores_idx = [];
  min_timebase = 0;
  n_channels = [];
  execution_order = [];
  timebase_divider = fp.one_double;
  full_cores_override = true;
}
