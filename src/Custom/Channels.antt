-- ===== src/Custom/Channels.antt =====
-- The numbers of channels that the cores are given.
use uscope_driver.Prelude.{◌≡◌, String, List, [], ◌∷◌, arith, max, if◌then◌else◌, u32}
use uscope_driver.Bus.{BusOp}
use uscope_driver.Bus.Memory.{write_op}
use uscope_driver.Deployer.{setup_core}
use uscope_driver.Deployer.Writes.{Logs, Logs-pure, Logs-write, Logs-then}
use uscope_driver.Hil.{DeployedProgram}
use uscope_driver.Custom.{DeploymentOptions, channels_of, setup_cores}

channels_of_lem :
    (opts : DeploymentOptions) (p : DeployedProgram)
    → channels_of opts p ≡ max p.n_channels (if opts.has_reciprocal then 11 else 8)
unfolding channels_of
channels_of_lem opts p = ground arith

-- One write for each core: the number of its channels, or that of the pipeline if it is greater.
abbrev pub channels_log : (String → DeploymentOptions) → List DeployedProgram → List BusOp
channels_log options [] = []
channels_log options (p ∷ programs) =
    write_op ((options p.name).control_address ∷ [])
      (u32 (max p.n_channels (if (options p.name).has_reciprocal then 11 else 8)))
    ∷ channels_log options programs

-- With the bridge loaded and in sink mode the set-up of the cores of other logic succeeds, and
-- writes for each core, in order, the greater of its own number of channels and the number that its
-- pipeline needs, which is 11 with reciprocals and 8 without.
pub setup_cores-Logs :
    (options : String → DeploymentOptions) (programs : List DeployedProgram)
    → Logs (setup_cores options programs) (channels_log options programs)
unfolding setup_cores setup_core
setup_cores-Logs options [] = Logs-pure
setup_cores-Logs options (p ∷ programs) = rw (channels_of_lem (options p.name) p) (
    Logs-then
      (setup_core (options p.name).control_address
        (max p.n_channels (if (options p.name).has_reciprocal then 11 else 8)))
      (setup_cores options programs) _ _ (Logs-write _ _) (setup_cores-Logs options programs))
