-- ===== src/Frontend/Replies/Codes.antt =====
-- The codes that the components return to the handlers.
use uscope_driver.Prelude.{ℕ, String, Bool, List, arith}
use uscope_driver.Exec.{Result}
use uscope_driver.Exec.Yields.{Yields, yields_rules}
use uscope_driver.Floats.{Float, FloatingPoint}
use uscope_driver.Bridge
use uscope_driver.Bridge.{FpgaBridge, WriteObj, LoadAnswer, ClockAnswer, ReadResponse}
use uscope_driver.Scope
use uscope_driver.Scope.{ScopeManager, AcquisitionMetadata}
use uscope_driver.Timing
use uscope_driver.Timing.{TimingManager}
use uscope_driver.Prelude.Dict.{Dict}
use uscope_driver.Hil.{Deployment}
use uscope_driver.Hil
use uscope_driver.Hil.Deploy.{Platform}
use uscope_driver.Custom
use uscope_driver.Custom.{DeploymentOptions}
use uscope_driver.Frontend.Replies.{IsFinal}

pub single_write_register-IsFinal : (w : WriteObj) → Yields IsFinal (Bridge.single_write_register w)
unfolding Bridge.single_write_register
single_write_register-IsFinal w = search yields_rules

pub single_read_register-IsFinal :
    (random address : ℕ)
    → Yields (λ r. IsFinal r.response_code) (Bridge.single_read_register random address)
unfolding Bridge.single_read_register
single_read_register-IsFinal random address = record { run = λ h. ground arith }

pub apply_program-IsFinal :
    (address : ℕ) (program : List ℕ) → Yields IsFinal (Bridge.apply_program address program)
unfolding Bridge.apply_program
apply_program-IsFinal address program = search yields_rules

pub apply_filter-IsFinal :
    (address : ℕ) (taps : List ℕ) → Yields IsFinal (Bridge.apply_filter address taps)
unfolding Bridge.apply_filter
apply_filter-IsFinal address taps = search yields_rules

pub load_bitstream-IsFinal : (answer : LoadAnswer) → Yields IsFinal (Bridge.load_bitstream answer)
unfolding Bridge.load_bitstream
load_bitstream-IsFinal answer = record { run = λ h. ground arith }

pub set_scaling_factors-IsFinal : (sf : List Float) → Yields IsFinal (Scope.set_scaling_factors sf)
unfolding Scope.set_scaling_factors
set_scaling_factors-IsFinal sf = search yields_rules

pub set_channel_status-IsFinal :
    (status : Dict ℕ Bool) → Yields IsFinal (Scope.set_channel_status status)
unfolding Scope.set_channel_status
set_channel_status-IsFinal status = search yields_rules

pub set_acquisition-IsFinal : (a : AcquisitionMetadata) → Yields IsFinal (Scope.set_acquisition a)
unfolding Scope.set_acquisition
set_acquisition-IsFinal a = record { run = λ s. ground arith }

pub set_base_clock-IsFinal :
    (answer : ClockAnswer) (n f : ℕ) → Yields IsFinal (Timing.set_base_clock answer n f)
unfolding Timing.set_base_clock Timing.keep_clock Bridge.set_pl_clock
set_base_clock-IsFinal answer n f = record { run = λ t. ground arith }

pub set_generated_clock-IsFinal :
    (name : String) (m d p : ℕ) → Yields IsFinal (Timing.set_generated_clock name m d p)
unfolding Timing.set_generated_clock
set_generated_clock-IsFinal name m d p = record { run = λ t. ground arith }

deploy_cores-IsFinal :
    (pl : Platform) (specs : Deployment) → Yields IsFinal (Hil.Deploy.deploy_cores pl specs)
unfolding Hil.Deploy.deploy_cores
deploy_cores-IsFinal pl specs = search yields_rules depth 30 fits 5000

pub deploy_hil-IsFinal :
    {Specs : Type 0} (hash : Specs → ℕ) (set_specs : Specs → Result Deployment) (pl : Platform)
    (arguments : Specs)
    → Yields IsFinal (Hil.Deploy.deploy hash set_specs pl arguments)
unfolding Hil.Deploy.deploy
deploy_hil-IsFinal hash set_specs pl arguments =
    search (yields_rules, deploy_cores-IsFinal) depth 30 fits 5000

pub deploy_custom-IsFinal :
    (fp : FloatingPoint) (options : String → DeploymentOptions) (specs : Result Deployment)
    → Yields IsFinal (Custom.deploy fp options specs)
unfolding Custom.deploy
deploy_custom-IsFinal fp options specs = search yields_rules depth 30 fits 5000
