-- ===== src/Hil/Sequencer.antt =====
-- src/deployment/hil_deployer.cpp: the enables, the dividers and the shifts of the sequencer.
pub mod Registers
use uscope_driver.Prelude.{
  ℕ, zero, suc, ◌+◌, ◌-◌, ◌*◌, ◌^◌, Bool, true, false, List, [], ◌∷◌, ltb, ◌==◌, if◌then◌else◌,
  Option, none, some, u32, u64, get_elem?, bit_or,
}
use uscope_driver.Exec.{Exec, fault, pure, raise, gets, ◌>>=◌, ◌>>◌}
use uscope_driver.Floats.{Double, FloatingPoint}
use uscope_driver.Layout.{LogicLayout}
use uscope_driver.Deployer.{DeployerBase, write_register}
use uscope_driver.Deployer.Inputs.{at}

abbrev pub divisor_register : LogicLayout → ℕ → ℕ
divisor_register a i = u64 (a.bases.controller + a.offsets.controller + 0x4 + 4 * i)

abbrev pub shift_register : LogicLayout → ℕ → ℕ
shift_register a i = u64 (a.bases.controller + a.offsets.hil_tb + 8 + 4 * i)

-- `enable[i]` of a `std::bitset<32>`: past the last bit it is undefined.
abbrev pub check_enable : ℕ → Exec DeployerBase (Unit {0})
check_enable i = if ltb i 32 then pure tt else raise fault

-- The loop over the cores, with the cores left and the cores done. It returns the enables.
unfoldable pub setup_cores_from : ℕ → ℕ → ℕ → List ℕ → List ℕ → Exec DeployerBase ℕ
setup_cores_from zero i enable divisors shifts = pure enable
setup_cores_from (suc left) i enable divisors shifts = do
  check_enable i
  divisor ← at divisors i
  addresses ← gets (λ d. d.addresses)
  write_register (divisor_register addresses i) (u32 (divisor + 2 ^ 32 - 1))
  shift ← at shifts i
  write_register (shift_register addresses i) shift
  setup_cores_from left (i + 1) (bit_or enable (2 ^ i)) divisors shifts

-- The period of the time base, from the frequencies or else from the lengths of the programs.
abbrev pub period : FloatingPoint → DeployerBase → ℕ → ℕ
period fp d min_timebase =
    if fp.is_zero d.timebase_frequency
    then min_timebase
    else fp.double_to_uint32
        (fp.div_double (fp.float_to_double d.hil_clock_frequency) d.timebase_frequency)

unfoldable pub setup_sequencer :
    FloatingPoint → ℕ → List ℕ → List ℕ → ℕ → Exec DeployerBase (Unit {0})
setup_sequencer fp n_cores divisors shifts min_timebase = do
  enable ← setup_cores_from n_cores 0 0 divisors shifts
  addresses ← gets (λ d. d.addresses)
  value ← gets (λ d. period fp d min_timebase)
  write_register (u64 (addresses.bases.controller + addresses.offsets.hil_tb + 4)) value
  write_register (u64 (addresses.bases.controller + addresses.offsets.controller)) enable
