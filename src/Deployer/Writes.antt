-- ===== src/Deployer/Writes.antt =====
-- The writes of a deployer on a loaded bridge in sink mode, as entries of the log.
use uscope_driver.Prelude.{
  ℕ, ◌≡◌, sym, ap, ◌∙◌, if◌then◌else◌, Bool, true, false, List, [], ◌∷◌, ◌++◌, arith, u32,
}
use mathlib.Core.List.{append-nil}
use uscope_driver.Exec.{Result, Exec, ok, pure, ◌>>◌}
use uscope_driver.Bus.{BusOp}
use uscope_driver.Bus.Memory.{write_op}
use uscope_driver.Bridge.Access.{log, log-log, single_write_register_sink}
use uscope_driver.Deployer.{DeployerBase, direct_write, write_register}

-- A deployer whose log has more entries.
abbrev pub logged : DeployerBase → List BusOp → DeployerBase
logged d ops = record d { hw = log d.hw ops }

pub logged-logged :
    (d : DeployerBase) (xs ys : List BusOp) → logged (logged d xs) ys ≡ logged d (xs ++ ys)
logged-logged d xs ys = ap (λ h. record d { hw = h }) (log-log d.hw xs ys)

pub logged-nil : (d : DeployerBase) → logged d [] ≡ d
logged-nil d =
    ap (λ l. record d { hw = record d.hw { busses = record d.hw.busses { operations = l } } })
      (append-nil d.hw.operations)

-- The bridge takes register writes and only logs them.
pub record IsDry (d : DeployerBase) : Type 0 where
  pub loaded : d.hw.fpga_loaded ≡ true
  pub sink : d.hw.sink_mode ≡ true

pub write_register_dry :
    (addr val : ℕ) (d : DeployerBase)
    → IsDry d
    → write_register addr val d ≡ (ok tt, logged d (write_op (addr ∷ []) (u32 val) ∷ []))
unfolding write_register
write_register_dry addr val d dry =
    ground (arith, single_write_register_sink (direct_write addr val) d.hw dry.loaded dry.sink)

-- With the bridge loaded and in sink mode `m` succeeds, adds the given operations to the log and
-- does nothing else.
pub record Logs (m : Exec DeployerBase (Unit {0})) (ops : List BusOp) : Type 0 where
  pub run : (d : DeployerBase) → IsDry d → m d ≡ (ok tt, logged d ops)

pub Logs-pure : Logs (pure tt) []
Logs-pure = record {
  run = λ d dry. ap {B = Result (Unit {0}) × DeployerBase} (λ g. (ok tt, g)) (sym (logged-nil d));
}

pub Logs-write :
    (addr val : ℕ) → Logs (write_register addr val) (write_op (addr ∷ []) (u32 val) ∷ [])
Logs-write addr val = record { run = λ d dry. write_register_dry addr val d dry }

pub IsDry-logged : (d : DeployerBase) (ops : List BusOp) → IsDry d → IsDry (logged d ops)
IsDry-logged d ops dry = record { loaded = dry.loaded; sink = dry.sink }

pub Logs-then :
    (m n : Exec DeployerBase (Unit {0})) (xs ys : List BusOp)
    → Logs m xs
    → Logs n ys
    → Logs (m >> n) (xs ++ ys)
Logs-then m n xs ys hm hn = record {
  run = λ d dry. rw (hm.run d dry) (
      hn.run (logged d xs) (IsDry-logged d xs dry)
      ∙ ap {B = Result (Unit {0}) × DeployerBase} (λ g. (ok tt, g)) (logged-logged d xs ys));
}

pub Logs-if :
    (b : Bool) (m n : Exec DeployerBase (Unit {0})) (xs ys : List BusOp)
    → Logs m xs
    → Logs n ys
    → Logs (if b then m else n) (if b then xs else ys)
Logs-if true m n xs ys hm hn = hm
Logs-if false m n xs ys hm hn = hn

pub ruleset logs_rules = (Logs-pure, Logs-write, Logs-then, Logs-if)
