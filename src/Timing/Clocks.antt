-- ===== src/Timing/Clocks.antt =====
-- What setting a clock changes.
use uscope_driver.Prelude.{
  ℕ, zero, suc, ◌<◌, ◌≡◌, String, false, List, [], ◌∷◌, some, arith, ◌==◌, if◌then◌else◌, length,
  get_elem?, inl, inr,
}
use uscope_driver.Prelude.Dict.{lookup, string_eq}
use uscope_driver.Exec.{ok}
use uscope_driver.Interfaces.{thrown, found, get_clock_if, FilePath-cases}
use uscope_driver.Bridge.{FpgaBridge, ClockAnswer, set_pl_clock}
use uscope_driver.Timing.{
  TimingManager, ClockDefinition, set_at, set_base_clock, get_base_clock, set_generated_clock,
  get_generated_clock,
}

get_elem?-set_at :
    (xs : List ℕ) (i j v : ℕ)
    → i < length xs
    → get_elem? (set_at i v xs) j ≡ (if j == i then some v else get_elem? xs j)
get_elem?-set_at [] i j v h = absurd (omega (arith, h))
get_elem?-set_at (x ∷ xs) zero zero v h = ground arith
get_elem?-set_at (x ∷ xs) zero (suc j) v h = ground arith
get_elem?-set_at (x ∷ xs) (suc i) zero v h = ground arith
get_elem?-set_at (x ∷ xs) (suc i) (suc j) v h =
    ground (arith, get_elem?-set_at xs i j v (omega (arith, h)))

-- After a base clock that exists is set on a manager with a bridge, its frequency is the new one if
-- the clock has a file and the driver took it and otherwise the one before, and every other base
-- clock keeps its own.
pub get_base_clock-set_base_clock :
    (t : TimingManager) (h : FpgaBridge) (answer : ClockAnswer) (n k f : ℕ)
    → t.hw ≡ some h
    → n < length t.ps_pl_clk_f
    → (get_base_clock k (set_base_clock answer n f t).1).0 ≡ elim (get_clock_if n answer.if_dict) [
      | thrown e ↦ (get_base_clock k t).0
      | found file ↦
          if answer.opens
          then if answer.writes
            then if k == n then ok f else (get_base_clock k t).0
            else (get_base_clock k t).0
          else (get_base_clock k t).0
    ]
unfolding get_base_clock set_base_clock set_pl_clock
get_base_clock-set_base_clock t h answer n k f present within =
    elim (FilePath-cases (get_clock_if n answer.if_dict)) [
      | inl (e, failed) ↦ rw failed (ground arith)
      | inr (file, there) ↦ rw there (ground (arith, get_elem?-set_at t.ps_pl_clk_f n k f within))
    ]

-- On a manager with a bridge, setting a generated clock that is known and has no multiplier does not
-- change the frequency that is reported for it, whatever divider and phase are given.
pub get_generated_clock-set_generated_clock :
    (t : TimingManager) (h : FpgaBridge) (name : String) (c : ClockDefinition) (m d p : ℕ)
    → t.hw ≡ some h
    → lookup name t.generated_clocks ≡ some c
    → c.multiplier_present ≡ false
    → (get_generated_clock name (set_generated_clock name m d p t).1).0
      ≡ (get_generated_clock name t).0
unfolding get_generated_clock set_generated_clock
get_generated_clock-set_generated_clock t h name c m d p present known plain = ground arith
