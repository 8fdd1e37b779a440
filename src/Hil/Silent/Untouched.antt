-- ===== src/Hil/Silent/Untouched.antt =====
-- src/deployment/hil_deployer.cpp: the set-up that `get_hardware_sim_data` makes in sink mode.
use uscope_driver.Prelude.{ℕ, ◌≡◌, ◌∙◌, refl, Bool, true, false, ◌==◌, if◌then◌else◌}
use uscope_driver.Exec.{Result, Exec, Error, ok, err, pure, lift, ◌>>◌}
use uscope_driver.Bus.{BusAccessor}
use uscope_driver.Bridge.{enable_bus_access, disable_bus_access}
use uscope_driver.Hil.{Deployment, HilDeployer, on_base}
use uscope_driver.Hil.Deploy.{Platform, on_bridge, deploy, deploy_for_simulation}
use uscope_driver.Hil.Wiring.{start}
use uscope_driver.Hil.Silent.{SealedHil, on_base-Sealed}
use uscope_driver.Hil.Silent.Parts.{start-Sealed}
use uscope_driver.Hil.Silent.Whole.{deploy-Sealed}

-- The mode after a set-up for a simulation: as before if it returns, in sink mode if it fails.
abbrev mode_after : Bool → Result (Unit {0}) → Bool
mode_after mode (ok _) = mode
mode_after mode (err _) = true

-- How a set-up for a simulation leaves the bus that it started from.
pub record IsUntouched (b : BusAccessor) (outcome : Result (Unit {0}) × HilDeployer) : Type 0 where
  pub same_registers : outcome.1.base.hw.busses.registers ≡ b.registers
  pub same_fcore : outcome.1.base.hw.busses.fcore ≡ b.fcore
  pub sink : outcome.1.base.hw.busses.sink_mode ≡ mode_after b.sink_mode outcome.0

chosen-IsUntouched :
    (h : HilDeployer) (t : Bool) (m n : Exec HilDeployer (Unit {0}))
    → IsUntouched h.base.hw.busses (m h)
    → IsUntouched h.base.hw.busses (n h)
    → IsUntouched h.base.hw.busses ((if t then m else n) h)
chosen-IsUntouched h true m n km kn = km
chosen-IsUntouched h false m n km kn = kn

module _ (b origin : BusAccessor) (registers : origin.registers ≡ b.registers)
    (fcore : origin.fcore ≡ b.fcore) (previous : origin.previous_sink_mode ≡ b.sink_mode) where
  failed-IsUntouched : (e : Error) (h : HilDeployer) → SealedHil origin h → IsUntouched b (err e, h)
  failed-IsUntouched e h sealed = record {
    same_registers = sealed.same_registers ∙ registers;
    same_fcore = sealed.same_fcore ∙ fcore;
    sink = sealed.sink;
  }

  enabled-IsUntouched :
      (r : Result (Unit {0})) (h : HilDeployer)
      → SealedHil origin h
      → IsUntouched b ((lift r >> on_bridge enable_bus_access) h)
  unfolding enable_bus_access
  enabled-IsUntouched (err e) h sealed = failed-IsUntouched e h sealed
  enabled-IsUntouched (ok _) h sealed = record {
    same_registers = sealed.same_registers ∙ registers;
    same_fcore = sealed.same_fcore ∙ fcore;
    sink = sealed.same_previous ∙ previous;
  }

  started-IsUntouched :
      {A : Type 0} (r : Result A) (h : HilDeployer)
      → SealedHil origin h
      → IsUntouched b ((lift r >> (on_base start >> on_bridge enable_bus_access)) h)
  started-IsUntouched (err e) h sealed = failed-IsUntouched e h sealed
  started-IsUntouched (ok _) h sealed =
      let (r, h') = on_base start h in
      enabled-IsUntouched (on_base start h).0 (on_base start h).1
        ((on_base-Sealed origin start (start-Sealed origin)).run h sealed)

module _ {Specs : Type 0} (hash : Specs → ℕ) (set_specs : Specs → Result Deployment)
    (pl : Platform) where
  set_up-IsUntouched :
      (specs : Specs) (h : HilDeployer)
      → IsUntouched h.base.hw.busses (
          (on_bridge disable_bus_access
              >> (deploy hash set_specs pl specs >> (on_base start >> on_bridge enable_bus_access)))
            h)
  unfolding disable_bus_access
  set_up-IsUntouched specs h =
      let b = h.base.hw.busses in
      let h1 = (on_bridge disable_bus_access h).1 in
      let origin = h1.base.hw.busses in
      let kept =
        (deploy-Sealed origin hash set_specs pl specs).run h1 (record {
          sink = refl;
          same_registers = refl;
          same_fcore = refl;
          same_previous = refl;
        }) in
      started-IsUntouched b origin refl refl refl (deploy hash set_specs pl specs h1).0
        (deploy hash set_specs pl specs h1).1 kept

  -- The set-up for a simulation leaves the registers and the core memories as they are, whether or not
  -- the specifications are the deployed ones; the bus is in its former mode if the set-up returns,
  -- and is left in sink mode if it fails.
  pub deploy_for_simulation-IsUntouched :
      (specs : Specs) (h : HilDeployer)
      → IsUntouched h.base.hw.busses (deploy_for_simulation hash set_specs pl specs h)
  unfolding deploy_for_simulation
  deploy_for_simulation-IsUntouched specs h =
      chosen-IsUntouched h (h.deployed_hash == hash specs) (pure tt) _
        (record { same_registers = refl; same_fcore = refl; sink = refl })
        (set_up-IsUntouched specs h)
