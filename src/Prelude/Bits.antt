-- ===== src/Prelude/Bits.antt =====
-- Masks and unions of disjoint fields, as remainders and sums, at every width.
use Prim.Native.Nat.{
  ℕ, zero, suc, ◌+◌, ◌-◌, ◌*◌, ◌/◌, ◌%◌, ◌^◌, ◌≤◌, ◌<◌, min, max, bit_and, bit_or, digits, bit_xor,
  differ, bit_and-bitwise, bit_or-bitwise, bit_xor-bitwise,
}
use mathlib.Core.Path.{◌≡◌, refl, sym, ap, ◌∙◌}
use native.Mathlib.Nat.{pow-suc, mul_comm, div-div-eq-div-mul, one-le-pow}
use native.Mathlib.Omega.{arith}

-- Two amounts of fuel that both cover the first operand give the same digits.
same_digits :
    (z : ℕ → ℕ) (f : ℕ → ℕ → ℕ) (k l x y : ℕ) → x ≤ k → x ≤ l → digits z f k x y ≡ digits z f l x y
same_digits z f zero zero x y h j = refl
same_digits z f zero (suc l) zero y h j = refl
same_digits z f zero (suc l) (suc x) y h j = absurd (omega arith)
same_digits z f (suc k) zero zero y h j = refl
same_digits z f (suc k) zero (suc x) y h j = absurd (omega arith)
same_digits z f (suc k) (suc l) zero y h j = refl
same_digits z f (suc k) (suc l) (suc x) y h j =
    ap (λ (t : ℕ). t * 2 + f (suc x % 2) (y % 2))
      (same_digits z f k l (suc x / 2) (y / 2) (omega arith) (omega arith))

or_halves : (x y : ℕ) → bit_or x y ≡ bit_or (x / 2) (y / 2) * 2 + max (x % 2) (y % 2)
or_halves zero y = omega (arith, bit_or-bitwise 0 y, bit_or-bitwise 0 (y / 2))
or_halves (suc x) y = omega (
  arith,
  bit_or-bitwise (suc x) y,
  bit_or-bitwise (suc x / 2) (y / 2),
  same_digits (λ b. b) max x (suc x / 2) (suc x / 2) (y / 2) (omega arith) (omega arith),
)

pub and_halves : (x y : ℕ) → bit_and x y ≡ bit_and (x / 2) (y / 2) * 2 + min (x % 2) (y % 2)
and_halves zero y = omega (arith, bit_and-bitwise 0 y, bit_and-bitwise 0 (y / 2))
and_halves (suc x) y = omega (
  arith,
  bit_and-bitwise (suc x) y,
  bit_and-bitwise (suc x / 2) (y / 2),
  same_digits (λ b. 0) min x (suc x / 2) (suc x / 2) (y / 2) (omega arith) (omega arith),
)

pub zero-bit_or : (y : ℕ) → bit_or 0 y ≡ y
zero-bit_or y = omega (arith, bit_or-bitwise 0 y)

and-zero_fuel : (n x : ℕ) → x ≤ n → bit_and x 0 ≡ 0
and-zero_fuel zero x h = let e : x ≡ 0 = omega arith in omega (arith, ap (λ (t : ℕ). bit_and t 0) e)
and-zero_fuel (suc n) x h = omega (arith, and_halves x 0, and-zero_fuel n (x / 2) (omega arith))

-- A low field and a field above it.
pub or_of_disjoint : (k low high : ℕ) → low < 2 ^ k → bit_or low (high * 2 ^ k) ≡ low + high * 2 ^ k
or_of_disjoint zero low high h =
    let e : low ≡ 0 = omega arith in
    omega (arith, ap (λ (t : ℕ). bit_or t (high * 1)) e, zero-bit_or (high * 1))
or_of_disjoint (suc k) low high h = omega (
  arith,
  or_halves low (high * 2 ^ suc k),
  doubled,
  ap (λ (t : ℕ). bit_or (low / 2) t) halved,
  or_of_disjoint k (low / 2) high (omega (arith, pow-suc 2 k)),
)
  where
    doubled : high * 2 ^ suc k ≡ 2 * (high * 2 ^ k)
    doubled = omega (arith, ap (λ (t : ℕ). high * t) (pow-suc 2 k))

    halved : high * 2 ^ suc k / 2 ≡ high * 2 ^ k
    halved = omega (arith, doubled)

mod_double : (x m n : ℕ) → n ≡ 2 * m → 0 < m → x % n ≡ x / 2 % m * 2 + x % 2
mod_double x m n e h = rw e (grind arith)

-- A mask of the `k` low bits is the remainder by `2 ^ k`.
pub and-mask : (k x : ℕ) → bit_and x (2 ^ k - 1) ≡ x % 2 ^ k
and-mask zero x = omega (arith, and-zero_fuel x x (omega arith))
and-mask (suc k) x = omega (
  arith,
  and_halves x (2 ^ suc k - 1),
  pow-suc 2 k,
  one-le-pow k 2,
  ap (λ (t : ℕ). bit_and (x / 2) t) mask_half,
  and-mask k (x / 2),
  mod_double x (2 ^ k) (2 ^ suc k) (omega (arith, pow-suc 2 k)) (omega (arith, one-le-pow k 2)),
)
  where
    mask_half : (2 ^ suc k - 1) / 2 ≡ 2 ^ k - 1
    mask_half = omega (arith, pow-suc 2 k, one-le-pow k 2)

-- The bit `k` of a word.
abbrev pub bit : ℕ → ℕ → ℕ
bit k x = x / 2 ^ k % 2

half_pow : (k : ℕ) → 2 ^ suc k / 2 ≡ 2 ^ k
half_pow k = omega (arith, pow-suc 2 k)

bit-suc : (k x : ℕ) → bit (suc k) x ≡ bit k (x / 2)
bit-suc k x = ap (λ (t : ℕ). t % 2) (ap (λ (t : ℕ). x / t) (pow-suc 2 k) ∙ halved)
  where
    halved : x / (2 ^ k * 2) ≡ x / 2 / 2 ^ k
    halved = rw (mul_comm (2 ^ k) 2) (sym (div-div-eq-div-mul x 2 (2 ^ k)))

-- A mask of one bit.
pub and-bit : (k x : ℕ) → bit_and x (2 ^ k) ≡ bit k x * 2 ^ k
and-bit zero x = omega (arith, and-mask 1 x)
and-bit (suc k) x = omega (
  arith,
  and_halves x (2 ^ suc k),
  ap (λ (t : ℕ). bit_and (x / 2) t) (half_pow k),
  and-bit k (x / 2),
  pow-suc 2 k,
  ap (λ (t : ℕ). t * 2 ^ k) (bit-suc k x),
  ap (λ (t : ℕ). bit (suc k) x * t) (pow-suc 2 k),
)

half_div : (k y : ℕ) → y / 2 ^ suc k ≡ y / 2 / 2 ^ k
half_div k y = ap (λ (t : ℕ). y / t) (pow-suc 2 k) ∙ halved
  where
    halved : y / (2 ^ k * 2) ≡ y / 2 / 2 ^ k
    halved = rw (mul_comm (2 ^ k) 2) (sym (div-div-eq-div-mul y 2 (2 ^ k)))

-- A field under a mask, brought down to the lowest bits.
pub and-field : (k x m : ℕ) → bit_and x (m * 2 ^ k) / 2 ^ k ≡ bit_and (x / 2 ^ k) m
and-field zero x m =
    let e : m * 1 ≡ m = omega arith in let f : x / 1 ≡ x = omega arith in rw (e, f) (omega arith)
and-field (suc k) x m =
    let shifted : bit_and x (m * 2 ^ suc k) / 2 ≡ bit_and (x / 2) (m * 2 ^ k) =
      omega
        (arith, and_halves x (m * 2 ^ suc k), doubled, ap (λ (t : ℕ). bit_and (x / 2) t) halved) in
    half_div k (bit_and x (m * 2 ^ suc k))
    ∙ ap (λ (t : ℕ). t / 2 ^ k) shifted
    ∙ and-field k (x / 2) m
    ∙ ap (λ (t : ℕ). bit_and t m) (sym (half_div k x))
  where
    doubled : m * 2 ^ suc k ≡ 2 * (m * 2 ^ k)
    doubled = omega (arith, ap (λ (t : ℕ). m * t) (pow-suc 2 k))

    halved : m * 2 ^ suc k / 2 ≡ m * 2 ^ k
    halved = omega (arith, doubled)

or-zero_fuel : (n x : ℕ) → x ≤ n → bit_or x 0 ≡ x
or-zero_fuel zero x h = let e : x ≡ 0 = omega arith in rw e refl
or-zero_fuel (suc n) x h = omega (arith, or_halves x 0, or-zero_fuel n (x / 2) (omega arith))

-- Setting one bit.
pub or-bit : (k x : ℕ) → bit_or x (2 ^ k) ≡ x + (1 - bit k x) * 2 ^ k
or-bit zero x = omega (arith, or_halves x 1, or-zero_fuel (x / 2) (x / 2) (omega arith))
or-bit (suc k) x = omega (
  arith,
  or_halves x (2 ^ suc k),
  ap (λ (t : ℕ). bit_or (x / 2) t) (half_pow k),
  or-bit k (x / 2),
  pow-suc 2 k,
  ap (λ (t : ℕ). (1 - t) * 2 ^ k) (bit-suc k x),
  ap (λ (t : ℕ). (1 - bit (suc k) x) * t) (pow-suc 2 k),
)

or_comm_fuel : (n x y : ℕ) → x ≤ n → bit_or x y ≡ bit_or y x
or_comm_fuel zero x y h =
    let e : x ≡ 0 = omega arith in rw e (omega (arith, zero-bit_or y, or-zero_fuel y y))
or_comm_fuel (suc n) x y h =
    omega (arith, or_halves x y, or_halves y x, or_comm_fuel n (x / 2) (y / 2) (omega arith))

pub or_comm : (x y : ℕ) → bit_or x y ≡ bit_or y x
or_comm x y = or_comm_fuel x x y (omega arith)

xor_halves : (x y : ℕ) → bit_xor x y ≡ bit_xor (x / 2) (y / 2) * 2 + differ (x % 2) (y % 2)
xor_halves zero y = omega (arith, bit_xor-bitwise 0 y, bit_xor-bitwise 0 (y / 2))
xor_halves (suc x) y = omega (
  arith,
  bit_xor-bitwise (suc x) y,
  bit_xor-bitwise (suc x / 2) (y / 2),
  same_digits (λ b. b) differ x (suc x / 2) (suc x / 2) (y / 2) (omega arith) (omega arith),
)

differ_zero : (x : ℕ) → differ x 0 ≡ x
differ_zero zero = refl
differ_zero (suc x) = refl

xor_even : (k x : ℕ) → bit_xor x (2 ^ suc k) ≡ bit_xor (x / 2) (2 ^ k) * 2 + x % 2
xor_even k x =
    let even : 2 ^ suc k % 2 ≡ 0 = omega (arith, pow-suc 2 k) in
    xor_halves x (2 ^ suc k) ∙ rw (half_pow k, even, differ_zero (x % 2)) refl

-- Flipping the highest bit of a word.
pub xor-top :
    (k x : ℕ)
    → x < 2 ^ suc k
    → (x < 2 ^ k → bit_xor x (2 ^ k) ≡ x + 2 ^ k) × (2 ^ k ≤ x → bit_xor x (2 ^ k) ≡ x - 2 ^ k)
xor-top zero zero h = (λ l. refl, λ l. absurd (omega (arith, l)))
xor-top zero (suc zero) h = (λ l. absurd (omega (arith, l)), λ l. refl)
xor-top zero (suc (suc x)) h = absurd (omega (arith, h))
xor-top (suc k) x h =
    let (low, high) = xor-top k (x / 2) (omega (arith, h, pow-suc 2 (suc k))) in
    (
      λ l. omega (arith, xor_even k x, low (omega (arith, l, pow-suc 2 k)), pow-suc 2 k),
      λ l. omega (arith, xor_even k x, high (omega (arith, l, pow-suc 2 k)), pow-suc 2 k, l),
    )
