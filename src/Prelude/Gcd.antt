-- ===== src/Prelude/Gcd.antt =====
-- `std::gcd` and `std::lcm`, and divisibility with its quotient.
use Prim.Native.Nat.{ℕ, zero, suc, ◌+◌, ◌*◌, ◌/◌, ◌%◌, ◌<◌}
use mathlib.Core.Path.{◌≡◌, refl, sym, ap, ◌∙◌}
use mathlib.Core.Logic.{inl, inr}
use mathlib.Core.Bool.{false}
use native.Mathlib.Omega.{arith}
use native.Mathlib.Nat.{div-add-mod', mul_assoc, mul-div_cancel}
use uscope_driver.Prelude.Tests.{◌==◌, if◌then◌else◌, Bool-cases}

-- Euclid's algorithm: the second number falls in each round.
unfoldable pub gcd_from : ℕ → ℕ → ℕ → ℕ
gcd_from zero a b = a
gcd_from (suc fuel) a b = let rest = gcd_from fuel b (a % b) in if b == 0 then a else rest

unfoldable pub gcd : ℕ → ℕ → ℕ
unfolding gcd_from
gcd a b = gcd_from (suc b) a b

unfoldable pub lcm : ℕ → ℕ → ℕ
lcm a b = if a == 0 then 0 else if b == 0 then 0 else a / gcd a b * b

abbrev pub Divides : ℕ → ℕ → Type 0
Divides d n = (k : ℕ) × (n ≡ k * d)

pub Divides-refl : (a : ℕ) → Divides a a
Divides-refl a = (1, omega arith)

pub Divides-zero : (a : ℕ) → Divides a 0
Divides-zero a = (0, omega arith)

pub Divides-trans : (a b c : ℕ) → Divides a b → Divides b c → Divides a c
Divides-trans a b c (k, e) (m, f) = (m * k, f ∙ ap (λ (t : ℕ). m * t) e ∙ sym (mul_assoc m k a))

Divides-of_mod : (g a b : ℕ) → Divides g b → Divides g (a % b) → Divides g a
Divides-of_mod g a b (k, e) (m, f) =
    (a / b * k + m, omega (arith, div-add-mod' a b, ap (λ (t : ℕ). a / b * t) e, f))

gcd_from-Divides :
    (fuel a b : ℕ) → b < fuel → Divides (gcd_from fuel a b) a × Divides (gcd_from fuel a b) b
unfolding gcd_from
gcd_from-Divides zero a b h = elim h [ ]
gcd_from-Divides (suc fuel) a b h = elim (Bool-cases (b == 0)) [
  | inl done ↦ let e : b ≡ 0 = ground arith in rw e (Divides-refl a, Divides-zero a)
  | inr more ↦
      let (of_b, of_rest) = gcd_from-Divides fuel b (a % b) (ground arith) in
      rw more (Divides-of_mod (gcd_from fuel b (a % b)) a b of_b of_rest, of_b)
]

pub gcd-Divides : (a b : ℕ) → Divides (gcd a b) a × Divides (gcd a b) b
unfolding gcd
gcd-Divides a b = gcd_from-Divides (suc b) a b (omega arith)

lcm_parts :
    (a b g k m : ℕ) → 0 < a → a ≡ k * g → b ≡ m * g → Divides a (a / g * b) × Divides b (a / g * b)
lcm_parts a b g k m pos e f =
    let quotient : a / g ≡ k = rw e (mul-div_cancel k (grind arith)) in
    rw quotient ((m, omega (arith, ap (λ (t : ℕ). k * t) f, ap (λ (t : ℕ). m * t) e)), (k, refl))

-- Both numbers divide their least common multiple.
pub lcm-Divides : (a b : ℕ) → Divides a (lcm a b) × Divides b (lcm a b)
unfolding lcm
lcm-Divides a b = elim (Bool-cases (a == 0)) [
  | inl a_zero ↦ rw a_zero (Divides-zero a, Divides-zero b)
  | inr a_pos ↦ elim (Bool-cases (b == 0)) [
    | inl b_zero ↦ rw (a_pos, b_zero) (Divides-zero a, Divides-zero b)
    | inr b_pos ↦
        let ((k, e), (m, f)) = gcd-Divides a b in
        rw (a_pos, b_pos) (lcm_parts a b (gcd a b) k m (ground arith) e f)
  ]
]

quotient_pos : (a b g k : ℕ) → 0 < a → 0 < b → a ≡ k * g → 0 < a / g * b
quotient_pos a b g zero ha hb e = absurd (omega (arith, ha, e))
quotient_pos a b zero (suc k) ha hb e = absurd (omega (arith, ha, e))
quotient_pos a b (suc g) (suc k) ha hb e =
    let quotient : a / suc g ≡ suc k =
      ap (λ (t : ℕ). t / suc g) e ∙ mul-div_cancel (suc k) (omega arith) in
    rw quotient (grind arith)

pub lcm-pos : (a b : ℕ) → 0 < a → 0 < b → 0 < lcm a b
unfolding lcm
lcm-pos a b ha hb =
    let ((k, e), _) = gcd-Divides a b in
    let a_pos : (a == 0) ≡ false = ground (arith, ha) in
    let b_pos : (b == 0) ≡ false = ground (arith, hb) in
    rw (a_pos, b_pos) (quotient_pos a b (gcd a b) k ha hb e)
