-- ===== src/Hil/Timebase/Frequency.antt =====
-- The frequency of the time base, and the dividers that come of it.
use uscope_driver.Prelude.{
  ℕ, zero, suc, ◌*◌, ◌/◌, ◌^◌, ◌<◌, ◌≡◌, refl, sym, ap, ◌∙◌, List, [], ◌∷◌, arith, map, some, lcm,
  lcm-pos, Divides, Divides-refl, Divides-trans, lcm-Divides, get_elem?,
}
use native.Mathlib.Nat.{mul-div_cancel}
use uscope_driver.Exec.{ok}
use uscope_driver.Floats.{FloatingPoint}
use uscope_driver.Hil.{DeployedProgram, HilDeployer}
use uscope_driver.Hil.Timebase.{lcm32, accumulate_lcm, set_timebase_frequency, core_divider}

abbrev AllDivide : List ℕ → ℕ → Type 0
AllDivide [] r = Unit
AllDivide (f ∷ fs) r = Divides f r × AllDivide fs r

accumulate_lcm-Divides :
    (acc : ℕ) (fs : List ℕ) (r : ℕ) → accumulate_lcm acc fs ≡ ok r → Divides acc r × AllDivide fs r
unfolding accumulate_lcm lcm32
accumulate_lcm-Divides acc [] r h = let e : r ≡ acc = ground arith in rw e (Divides-refl acc, tt)
accumulate_lcm-Divides acc (f ∷ fs) r h =
    let rest = accumulate_lcm-Divides (lcm acc f) fs r (ground arith) in
    let both = lcm-Divides acc f in
    (
      Divides-trans acc (lcm acc f) r both.0 rest.0,
      (Divides-trans f (lcm acc f) r both.1 rest.0, rest.1),
    )

AllDivide-get_elem? :
    (programs : List DeployedProgram) (r i : ℕ) (p : DeployedProgram)
    → AllDivide (map (λ q. q.sampling_frequency) programs) r
    → get_elem? programs i ≡ some p
    → Divides p.sampling_frequency r
AllDivide-get_elem? [] r i p h e = cc
AllDivide-get_elem? (q ∷ programs) r zero p h e = let same : p ≡ q = ground arith in rw same h.0
AllDivide-get_elem? (q ∷ programs) r (suc i) p h e = AllDivide-get_elem? programs r i p h.1 e

-- No core runs at frequency zero.
abbrev pub AllRun : List DeployedProgram → Type 0
AllRun [] = Unit
AllRun (q ∷ programs) = (0 < q.sampling_frequency) × AllRun programs

accumulate_lcm-pos :
    (acc : ℕ) (programs : List DeployedProgram) (r : ℕ)
    → 0 < acc
    → AllRun programs
    → accumulate_lcm acc (map (λ q. q.sampling_frequency) programs) ≡ ok r
    → 0 < r
unfolding accumulate_lcm lcm32
accumulate_lcm-pos acc [] r pos run h = let e : r ≡ acc = ground arith in rw e pos
accumulate_lcm-pos acc (q ∷ programs) r pos run h =
    accumulate_lcm-pos (lcm acc q.sampling_frequency) programs r
      (lcm-pos acc q.sampling_frequency pos run.0) run.1 (ground arith)

AllRun-get_elem? :
    (programs : List DeployedProgram) (i : ℕ) (p : DeployedProgram)
    → AllRun programs
    → get_elem? programs i ≡ some p
    → 0 < p.sampling_frequency
AllRun-get_elem? [] i p run e = cc
AllRun-get_elem? (q ∷ programs) zero p run e = let same : p ≡ q = ground arith in rw same run.0
AllRun-get_elem? (q ∷ programs) (suc i) p run e = AllRun-get_elem? programs i p run.1 e

set_timebase_frequency_lem :
    (fp : FloatingPoint) (h : HilDeployer) (fs : List ℕ) (r : ℕ)
    → accumulate_lcm 1 fs ≡ ok r
    → set_timebase_frequency fp fs h
      ≡ (ok tt, record h { base = record h.base { timebase_frequency = fp.int_to_double r } })
unfolding set_timebase_frequency
set_timebase_frequency_lem fp h fs r e = rw e refl

-- When no core runs at frequency zero and the least common multiple of the frequencies fits an
-- `int`, and doubles represent such numbers exactly, then the frequency of the time base is above
-- zero, and the divider that a core is given divides it into exactly the frequency that was asked
-- for that core.
pub core_divider_exact :
    (fp : FloatingPoint)
    → ((n : ℕ) → n < 2 ^ 31 → fp.double_to_uint32 (fp.int_to_double n) ≡ n)
    → (h : HilDeployer) (programs : List DeployedProgram) (r i : ℕ) (p : DeployedProgram)
    → AllRun programs
    → accumulate_lcm 1 (map (λ q. q.sampling_frequency) programs) ≡ ok r
    → r < 2 ^ 31
    → get_elem? programs i ≡ some p
    → let (result, h') = set_timebase_frequency fp (map (λ q. q.sampling_frequency) programs) h in
      (result ≡ ok tt)
      × (h'.base.timebase_frequency ≡ fp.int_to_double r)
      × (0 < r)
      × (core_divider fp h' p * p.sampling_frequency ≡ r)
core_divider_exact fp exact h programs r i p run computed fits found =
    let (k, e) =
      AllDivide-get_elem? programs r i p
        (accumulate_lcm-Divides 1 (map (λ q. q.sampling_frequency) programs) r computed).1 found in
    let quotient : r / p.sampling_frequency ≡ k =
      ap (λ t. t / p.sampling_frequency) e
      ∙ mul-div_cancel k (AllRun-get_elem? programs i p run found) in
    let above = accumulate_lcm-pos 1 programs r (omega arith) run computed in
    rw
      (
        set_timebase_frequency_lem fp h (map (λ q. q.sampling_frequency) programs) r computed,
        exact r fits,
        quotient,
      )
      (refl, refl, above, sym e)
