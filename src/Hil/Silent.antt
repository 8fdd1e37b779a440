-- ===== src/Hil/Silent.antt =====
-- A deployment in sink mode leaves the mapped memories alone.
pub mod Parts
pub mod Whole
pub mod Untouched
use uscope_driver.Exec.{Exec}
use uscope_driver.Exec.Keeps.{Keeps}
use uscope_driver.Bus.{BusAccessor}
use uscope_driver.Deployer.{DeployerBase}
use uscope_driver.Deployer.Silent.{Sealed}
use uscope_driver.Hil.{HilDeployer, on_base}

module _ (origin : BusAccessor) where
  abbrev pub SealedHil : HilDeployer → Type 0
  SealedHil h = Sealed origin h.base

  pub on_base-Sealed :
      {A : Type 0} (m : Exec DeployerBase A) → Keeps (Sealed origin) m → Keeps SealedHil (on_base m)
  on_base-Sealed m keeps = record { run = λ h sealed. keeps.run h.base sealed }
