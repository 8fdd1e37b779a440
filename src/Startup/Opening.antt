-- ===== src/Startup/Opening.antt =====
-- src/uscope_driver.cpp: when the start comes to the files.
use uscope_driver.Prelude.{◌≡◌, ◌↔◌, String, Bool, true, false, Option, none, some, eq_iff, arith}
use uscope_driver.Prelude.Dict.{lookup}
use uscope_driver.Interfaces.{InterfacesDictionary, if_dict, set_arch, get_control_bus}
use uscope_driver.Interfaces.Paths.{IsKnown, HasPaths, set_arch_lem}
use uscope_driver.Startup.{Options, Outcome, opening, construct, start}

abbrev pub is_opening : Outcome → Bool
is_opening (opening c l f) = true
is_opening _ = false

-- The environment names one of the four architectures.
abbrev pub KnownArch : Option String → Type 0
KnownArch none = ⊥
KnownArch (some arch) = IsKnown arch

control-IsKnown :
    (d : InterfacesDictionary) (o : Options) → is_opening (construct o d) ≡ true → IsKnown d.arch
unfolding construct get_control_bus lookup
control-IsKnown d o h = ground (
  arith,
  eq_iff "zynq" d.arch,
  eq_iff "zynqmp" d.arch,
  eq_iff "emulate" d.arch,
  eq_iff "testing" d.arch,
)

construct_opens :
    (o : Options) (d : InterfacesDictionary) → HasPaths d → is_opening (construct o d) ≡ true
unfolding construct
construct_opens o d h = ground (arith, h.control_bus, h.cores_bus, h.data_bus)

start_known :
    (o : Options) (arch : Option String)
    → is_opening (start o arch) ≡ true
    → (o.read_version ≡ false) × KnownArch arch
unfolding start set_arch
start_known o none h = ground arith
start_known o (some arch) h =
    (ground arith, control-IsKnown (set_arch arch if_dict) o (ground arith))

-- The start finds the files of the buses and of the samples exactly if it is not asked for the version
-- and the environment names one of the four architectures.
pub start_lem :
    (o : Options) (arch : Option String)
    → (is_opening (start o arch) ≡ true) ↔ ((o.read_version ≡ false) × KnownArch arch)
unfolding start
start_lem o none = ground arith
start_lem o (some arch) = (
  λ h. start_known o (some arch) h,
  λ k. simp (k.0) (construct_opens o _ ((set_arch_lem arch if_dict).1 k.1)),
)
