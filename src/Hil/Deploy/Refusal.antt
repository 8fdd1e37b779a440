-- ===== src/Hil/Deploy/Refusal.antt =====
-- Deployments that are refused.
use uscope_driver.Prelude.{ℕ, ◌<◌, ◌≡◌, refl, true, [], arith, ltb, ◌==◌, length}
use uscope_driver.Exec.{Result, ok, err, runtime_error}
use uscope_driver.Bridge.{clear_operations_vector}
use uscope_driver.Hil.{Deployment, HilDeployer}
use uscope_driver.Hil.Deploy.{Platform, reset, deploy, deploy_for_simulation}

-- Specifications that the toolchain accepts with more than 32 cores are refused with an exception
-- before anything is written: the two memories are as they were and the log is empty. The hash of the
-- specifications is kept all the same, so a simulation of them that follows deploys nothing and
-- succeeds.
pub deploy_refused :
    {Specs : Type 0} (hash : Specs → ℕ) (set_specs : Specs → Result Deployment) (pl : Platform)
    (arguments : Specs) (specs : Deployment) (h : HilDeployer)
    → set_specs arguments ≡ ok specs
    → 32 < length specs.programs
    → let (result, after) = deploy hash set_specs pl arguments h in
      (result ≡ err (runtime_error "The HIL SYSTEM ONLY SUPPORTS UP TO 32 CORES AT ONCE"))
      × (after.base.hw.registers ≡ h.base.hw.registers)
      × (after.base.hw.fcore ≡ h.base.hw.fcore)
      × (after.base.hw.operations ≡ [])
      × (deploy_for_simulation hash set_specs pl arguments after ≡ (ok tt, after))
unfolding deploy deploy_for_simulation reset clear_operations_vector
deploy_refused hash set_specs pl arguments specs h accepted many =
    let above : ltb 32 (length specs.programs) ≡ true = ground arith in
    let same : (hash arguments == hash arguments) ≡ true = ground arith in
    rw (accepted, above) (refl, refl, refl, refl, rw same refl)
