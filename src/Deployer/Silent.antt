-- ===== src/Deployer/Silent.antt =====
-- A deployer in sink mode leaves the mapped memories alone, whatever it is asked to do.
pub mod Setup
use uscope_driver.Prelude.{
  ℕ, ◌+◌, ◌≡◌, refl, String, Bool, true, false, List, [], ◌∷◌, Option, none, some, arith,
  if◌then◌else◌,
}
use uscope_driver.Exec.{Result, Exec, ok, err, pure, ◌>>=◌, ◌>>◌}
use uscope_driver.Exec.Keeps.{Keeps, Keeps-modify, Keeps-bind, Keeps-then, Keeps-pure, keeps_rules}
use uscope_driver.Bus
use uscope_driver.Bus.{BusAccessor}
use uscope_driver.Bridge.{
  FpgaBridge, single_write_register, apply_program, write_direct, write_proxied,
}
use uscope_driver.Deployer.{DeployerBase, write_register, load_core, setup_core}

-- A bus in sink mode with the memories of another one, and with the mode that it goes back to.
pub record IsSealed (origin b : BusAccessor) : Type 0 where
  pub sink : b.sink_mode ≡ true
  pub same_registers : b.registers ≡ origin.registers
  pub same_fcore : b.fcore ≡ origin.fcore
  pub same_previous : b.previous_sink_mode ≡ origin.previous_sink_mode

module _ (origin : BusAccessor) where
  abbrev pub Sealed : DeployerBase → Type 0
  Sealed d = IsSealed origin d.hw.busses

  pub write_register-Sealed : (address value : ℕ) → Keeps Sealed (write_register address value)
  unfolding write_register single_write_register Bus.write_register
  write_register-Sealed address value = record { run = λ d h. ground arith }

  pub load_core-Sealed : (address : ℕ) (program : List ℕ) → Keeps Sealed (load_core address program)
  unfolding load_core apply_program Bus.load_program
  load_core-Sealed address program = record { run = λ d h. ground arith }

  pub setup_core-Sealed : (address n : ℕ) → Keeps Sealed (setup_core address n)
  unfolding setup_core
  setup_core-Sealed address n = write_register-Sealed address n
