-- ===== src/Hil/Timebase.antt =====
-- src/deployment/hil_deployer.cpp: the frequency of the time base, the dividers of the cores and the
-- instants at which they start. Double precision is a parameter; an unstable sort may order equal
-- elements as it likes, so the sort is a parameter too, which is given the comparator.
pub mod Frequency
pub mod Schedule
pub mod Order
use uscope_driver.Prelude.{
  ℕ, zero, suc, ◌+◌, ◌*◌, ◌/◌, ◌^◌, String, Bool, true, false, List, [], ◌∷◌, ◌++◌, ◌==◌, leb, ltb,
  if◌then◌else◌, u32, lcm, map,
}
use uscope_driver.Prelude.Dict.{Dict, insert, string_eq}
use uscope_driver.Exec.{
  Result, Exec, ok, err, out_of_fuel, fault, pure, raise, gets, modify, lift, ◌>>=◌, ◌>>◌,
}
use uscope_driver.Floats.{Double, FloatingPoint}
use uscope_driver.Hil.{DeployedProgram, HilDeployer, at_key}

-- A least common multiple that does not fit 32 bits is undefined.
unfoldable pub lcm32 : ℕ → ℕ → Result ℕ
lcm32 a b = if leb (2 ^ 32) (lcm a b) then err fault else ok (lcm a b)

unfoldable pub accumulate_lcm : ℕ → List ℕ → Result ℕ
accumulate_lcm acc [] = ok acc
accumulate_lcm acc (f ∷ frequencies) = elim (lcm32 acc f) [
  | err e ↦ err e
  | ok acc' ↦ accumulate_lcm acc' frequencies
]

-- The accumulator is an `int`, which is stored as a double.
unfoldable pub set_timebase_frequency : FloatingPoint → List ℕ → Exec HilDeployer (Unit {0})
set_timebase_frequency fp frequencies = do
  frequency ← lift (accumulate_lcm 1 frequencies)
  modify
      (λ h. record h { base = record h.base { timebase_frequency = fp.int_to_double frequency } })

-- The cycles of a program on a number of channels.
abbrev pub cycles : DeployedProgram → ℕ → ℕ
cycles p n = u32 (p.program_length.fixed_portion + u32 (n * p.program_length.per_channel_portion))

abbrev pub max_frequency : FloatingPoint → HilDeployer → DeployedProgram → Double
max_frequency fp h p =
    let clock_period = fp.float_to_double (fp.div_float fp.one_float h.hil_clock_frequency) in
    let total_length =
      fp.mul_double (fp.uint_to_double (cycles p (at_key h.n_channels p.name))) clock_period in
    fp.div_double fp.one_double total_length

abbrev pub too_fast : FloatingPoint → Double → Double → Double → Bool
too_fast fp frequency limit divider = fp.less_double limit (fp.div_double frequency divider)

-- `while(timebase_frequency/timebase_divider > max_frequency) timebase_divider += 1.0`
unfoldable pub raise_divider : ℕ → FloatingPoint → Double → Double → Double → Result Double
raise_divider zero fp frequency limit divider = err out_of_fuel
raise_divider (suc fuel) fp frequency limit divider =
    let rest = raise_divider fuel fp frequency limit (fp.add_double divider fp.one_double) in
    if too_fast fp frequency limit divider then rest else ok divider

abbrev pub core_divider : FloatingPoint → HilDeployer → DeployedProgram → ℕ
core_divider fp h p = fp.double_to_uint32 h.timebase_frequency / p.sampling_frequency

unfoldable pub calculate_divider : ℕ → FloatingPoint → DeployedProgram → Exec HilDeployer ℕ
calculate_divider fuel fp p h =
    if p.sampling_frequency == 0
    then (ok 1, h)
    else (do
      divider ←
          lift
            (raise_divider fuel fp h.timebase_frequency (max_frequency fp h p) h.timebase_divider)
      modify (λ h'. record h' { timebase_divider = divider })
      pure (core_divider fp h p))
        h

unfoldable pub calculate_timebase_divider :
    ℕ → FloatingPoint → List DeployedProgram → Exec HilDeployer (List ℕ)
calculate_timebase_divider fuel fp [] = pure []
calculate_timebase_divider fuel fp (p ∷ programs) = do
  divider ← calculate_divider fuel fp p
  dividers ← calculate_timebase_divider fuel fp programs
  pure (divider ∷ dividers)

pub record ShiftCalcData : Type 0 where
  pub name : String
  pub execution_order : ℕ
  pub program_length : ℕ

abbrev pub calc_data : HilDeployer → DeployedProgram → ShiftCalcData
calc_data h p = record {
  name = p.name;
  execution_order = at_key h.execution_order p.name;
  program_length = cycles p (at_key h.n_channels p.name);
}

abbrev pub inter_core_buffer : ℕ
inter_core_buffer = 90

-- Each core starts when the one before it is done and its buffer has passed.
unfoldable pub assign_shifts : ℕ → List ShiftCalcData → Dict String ℕ → Dict String ℕ
assign_shifts start [] ordered_shifts = ordered_shifts
assign_shifts start (c ∷ calc_data_v) ordered_shifts =
    assign_shifts (u32 (start + c.program_length + inter_core_buffer)) calc_data_v
      (insert c.name start ordered_shifts)

unfoldable pub add_lengths : ℕ → List ShiftCalcData → ℕ
add_lengths min_timebase [] = min_timebase
add_lengths min_timebase (c ∷ calc_data_v) =
    add_lengths (u32 (min_timebase + u32 (c.program_length + inter_core_buffer))) calc_data_v

-- `std::ranges::sort` with a comparator.
abbrev pub Sort : Type 0
Sort = (ShiftCalcData → ShiftCalcData → Bool) → List ShiftCalcData → List ShiftCalcData

-- The comparator of the sort.
abbrev pub before : ShiftCalcData → ShiftCalcData → Bool
before a b = ltb a.execution_order b.execution_order

-- The first element is read before any test, so there must be one.
unfoldable pub calculate_timebase_shift : Sort → List DeployedProgram → Exec HilDeployer (List ℕ)
calculate_timebase_shift sort [] h = (err fault, h)
calculate_timebase_shift sort (p ∷ programs) h =
    let calc_data_v = sort before (map (calc_data h) (p ∷ programs)) in
    let ordered_shifts = assign_shifts 2 calc_data_v [] in
    (
      ok (map (λ (q : DeployedProgram). at_key ordered_shifts q.name) (p ∷ programs)),
      record h { min_timebase = add_lengths h.min_timebase calc_data_v },
    )
