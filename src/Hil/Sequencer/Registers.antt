-- ===== src/Hil/Sequencer/Registers.antt =====
-- What the sequencer's registers are given.
use mathlib.Core.List.{append_assoc}
use uscope_driver.Prelude.{
  ℕ, suc, ◌+◌, ◌-◌, ◌*◌, ◌^◌, ◌≡◌, refl, sym, ap, length-append, ◌∙◌, List, [], ◌∷◌, ◌++◌, arith,
  true, ltb, ◌≤◌, if◌then◌else◌, u32, u64, length, get_elem?-append, bit_or, or_of_disjoint,
}
use mathlib.Core.Path.{ap₂}
use native.Mathlib.Nat.{pow-suc, one-le-pow}
use uscope_driver.Exec.{Result, ok}
use uscope_driver.Bus.{BusOp}
use uscope_driver.Bus.Memory.{write_op}
use uscope_driver.Floats.{FloatingPoint}
use uscope_driver.Layout.{LogicLayout}
use uscope_driver.Deployer.{DeployerBase, write_register}
use uscope_driver.Deployer.Writes.{
  logged, logged-logged, logged-nil, IsDry, IsDry-logged, write_register_dry, Logs-then, Logs-write,
}
use uscope_driver.Hil.Sequencer.{
  divisor_register, shift_register, period, setup_cores_from, setup_sequencer,
}

-- The words for the cores from `i` on: the divider less one, and the shift.
abbrev pub cores_log : LogicLayout → ℕ → List ℕ → List ℕ → List BusOp
cores_log a i (divisor ∷ divisors) (shift ∷ shifts) =
    write_op (u64 (a.bases.controller + a.offsets.controller + 4 + 4 * i) ∷ [])
      (u32 (u32 (divisor + 2 ^ 32 - 1)))
    ∷ write_op (u64 (a.bases.controller + a.offsets.hil_tb + 8 + 4 * i) ∷ []) (u32 shift)
    ∷ cores_log a (i + 1) divisors shifts
cores_log a i _ _ = []

enable_next : (i enable : ℕ) → enable ≡ 2 ^ i - 1 → bit_or enable (2 ^ i) ≡ 2 ^ suc i - 1
enable_next i enable e =
    let pos = one-le-pow i 2 in
    let joined = or_of_disjoint i (2 ^ i - 1) 1 (omega arith) in
    let one : 1 * 2 ^ i ≡ 2 ^ i = omega arith in
    rw e (ap (λ (t : ℕ). bit_or (2 ^ i - 1) t) (sym one) ∙ joined ∙ omega (arith, pow-suc 2 i))

cores_dry :
    (ds ss before_d before_s : List ℕ) (i enable : ℕ) (d : DeployerBase)
    → IsDry d
    → length before_d ≡ i
    → length before_s ≡ i
    → length ss ≡ length ds
    → enable ≡ 2 ^ i - 1
    → i + length ds ≤ 32
    → setup_cores_from (length ds) i enable (before_d ++ ds) (before_s ++ ss) d
      ≡ (ok (2 ^ (i + length ds) - 1), logged d (cores_log d.addresses i ds ss))
unfolding setup_cores_from
cores_dry [] ss bd bs i enable d dry ld ls same e fits =
    ap₂ {C = Result ℕ × DeployerBase} (λ (k : ℕ) (g : DeployerBase). (ok k, g))
      (e ∙ ap (λ (t : ℕ). 2 ^ t - 1) (omega arith)) (sym (logged-nil d))
cores_dry (x ∷ ds) [] bd bs i enable d dry ld ls same e fits = absurd (omega (arith, same))
cores_dry (x ∷ ds) (y ∷ ss) bd bs i enable d dry ld ls same e fits =
    let in_range : ltb i 32 ≡ true = ground (arith, fits) in
    let first = write_op (divisor_register d.addresses i ∷ []) (u32 (u32 (x + 2 ^ 32 - 1))) in
    let second = write_op (shift_register d.addresses i ∷ []) (u32 y) in
    let d₁ = logged d (first ∷ []) in
    let d₂ = logged d₁ (second ∷ []) in
    let step : setup_cores_from (suc (length ds)) i enable (bd ++ x ∷ ds) (bs ++ y ∷ ss) d
        ≡ setup_cores_from (length ds) (i + 1) (bit_or enable (2 ^ i)) (bd ++ x ∷ ds) (bs ++ y ∷ ss)
            d₂ =
      ground (
        arith,
        in_range,
        get_elem?-append bd x ds i ld,
        get_elem?-append bs y ss i ls,
        write_register_dry (divisor_register d.addresses i) (u32 (x + 2 ^ 32 - 1)) d dry,
        write_register_dry (shift_register d.addresses i) y d₁ (IsDry-logged d (first ∷ []) dry),
      ) in
    let rest : setup_cores_from (length ds) (i + 1) (bit_or enable (2 ^ i)) (bd ++ x ∷ ds)
          (bs ++ y ∷ ss) d₂
        ≡ (ok (2 ^ (i + 1 + length ds) - 1), logged d₂ (cores_log d.addresses (i + 1) ds ss)) =
      rw (← append_assoc bd (x ∷ []) ds, ← append_assoc bs (y ∷ []) ss)
        (cores_dry ds ss (bd ++ x ∷ []) (bs ++ y ∷ []) (i + 1) (bit_or enable (2 ^ i)) d₂
          (IsDry-logged d₁ (second ∷ []) (IsDry-logged d (first ∷ []) dry))
          (omega (arith, length-append bd (x ∷ []))) (omega (arith, length-append bs (y ∷ [])))
          (omega (arith, same)) (enable_next i enable e ∙ ap (λ (t : ℕ). 2 ^ t - 1) (omega arith))
          (omega (arith, fits))) in
    step
    ∙ rest
    ∙ ap₂ {C = Result ℕ × DeployerBase} (λ (k : ℕ) (g : DeployerBase). (ok k, g))
        (ap (λ (t : ℕ). 2 ^ t - 1) (omega arith))
        (logged-logged d₁ (second ∷ []) (cores_log d.addresses (i + 1) ds ss)
          ∙ logged-logged d (first ∷ []) (second ∷ cores_log d.addresses (i + 1) ds ss))

-- With the bridge loaded and in sink mode, and a divider and a shift for each of at most 32 cores,
-- the sequencer gets the divider less one and the shift of each core at the core's two registers,
-- then the period of the time base, which is the least one where the time base has no frequency and
-- else the quotient of the clock by it, and last the enables, which are the lowest bits, one for
-- each core.
pub setup_sequencer_dry :
    (fp : FloatingPoint) (divisors shifts : List ℕ) (min_timebase : ℕ) (d : DeployerBase)
    → IsDry d
    → length shifts ≡ length divisors
    → length divisors ≤ 32
    → let a = d.addresses in
      setup_sequencer fp (length divisors) divisors shifts min_timebase d ≡ (
        ok tt,
        logged d (
            cores_log a 0 divisors shifts
            ++ write_op (u64 (a.bases.controller + a.offsets.hil_tb + 4) ∷ []) (
                u32 (
                  if fp.is_zero d.timebase_frequency
                  then min_timebase
                  else fp.double_to_uint32 (
                      fp.div_double
                        (fp.float_to_double d.hil_clock_frequency)
                        d.timebase_frequency)))
              ∷ write_op
                  (u64 (a.bases.controller + a.offsets.controller) ∷ [])
                  (u32 (2 ^ length divisors - 1))
              ∷ []),
      )
unfolding setup_sequencer
setup_sequencer_dry fp divisors shifts min_timebase d dry same fits =
    let a = d.addresses in
    let words = cores_log a 0 divisors shifts in
    let d₁ = logged d words in
    let cores : setup_cores_from (length divisors) 0 0 divisors shifts d
        ≡ (ok (2 ^ length divisors - 1), d₁) =
      cores_dry divisors shifts [] [] 0 0 d dry refl refl same (omega arith) (omega (arith, fits))
      ∙ ap {B = Result ℕ × DeployerBase} (λ (t : ℕ). (ok (2 ^ t - 1), d₁)) (omega arith) in
    let tail =
      Logs-then
        (write_register (u64 (a.bases.controller + a.offsets.hil_tb + 4))
          (period fp d min_timebase))
        (write_register (u64 (a.bases.controller + a.offsets.controller)) (2 ^ length divisors - 1))
        _ _ (Logs-write _ _) (Logs-write _ _) in
    rw cores (
      tail.run d₁ (IsDry-logged d words dry)
      ∙ ap {B = Result (Unit {0}) × DeployerBase} (λ g. (ok tt, g)) (logged-logged d words _))
