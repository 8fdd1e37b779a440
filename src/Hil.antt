-- ===== src/Hil.antt =====
-- includes/deployment/hil_deployer.hpp and src/deployment/hil_deployer.cpp: the deployer of the
-- hardware-in-the-loop system. The programs, the slots and the values that it deploys are those of
-- the fCore toolchain, of which the driver reads the fields below.
pub mod Construction
pub mod Reciprocal
pub mod Timebase
pub mod Sequencer
pub mod InitialValues
pub mod Wiring
pub mod Deploy
pub mod Silent
pub mod Simulation
use uscope_driver.Prelude.{ℕ, String, Bool, List, Option, none, some}
use uscope_driver.Prelude.Dict.{Dict, lookup, string_eq}
use uscope_driver.Exec.{Exec, zoom}
use uscope_driver.Floats.{Double}
use uscope_driver.BusMap.{InterconnectSlot}
use uscope_driver.Deployer.{DeployerBase}
use uscope_driver.Deployer.Inputs.{DeployedCoreInput}
use uscope_driver.Deployer.Memories.{MemoryInitValue}

pub record ProgramLength : Type 0 where
  pub fixed_portion : ℕ
  pub per_channel_portion : ℕ

pub record DeployedProgram : Type 0 where
  pub name : String
  pub index : ℕ
  pub order : ℕ
  pub n_channels : ℕ
  pub sampling_frequency : ℕ
  pub binary : List ℕ
  pub program_length : ProgramLength
  pub inputs : List DeployedCoreInput

-- What the toolchain's dispatcher answers once it has the specifications.
pub record Deployment : Type 0 where
  pub programs : List DeployedProgram
  pub interconnect_slots : List InterconnectSlot
  pub memory_initializations : Dict String (List MemoryInitValue)
  pub inputs : String → List DeployedCoreInput

pub record HilDeployer : Type 0 where
  pub base : DeployerBase
  pub open base use *
  pub deployed_hash : ℕ
  pub cores_idx : Dict String ℕ
  pub min_timebase : ℕ
  pub n_channels : Dict String ℕ
  pub execution_order : Dict String ℕ
  pub timebase_divider : Double
  pub full_cores_override : Bool

abbrev pub on_base : {A : Type 0} → Exec DeployerBase A → Exec HilDeployer A
on_base = zoom (λ h. h.base) (λ d h. record h { base = d })

-- `map[key]` of a map to numbers: a missing key reads as zero.
unfoldable pub at_key : Dict String ℕ → String → ℕ
unfolding lookup
at_key m key = elim (lookup key m) [ none ↦ 0 | some v ↦ v ]
