-- ===== src/Interfaces/Paths.antt =====
-- includes/hw_interface/interfaces_dictionary.hpp: for which architectures there are paths, and which
-- of them differ.
use uscope_driver.Prelude.{
  ℕ, zero, suc, ◌≡◌, ◌≢◌, ◌≤◌, ◌↔◌, ◌⊎◌, inl, inr, refl, sym, ◌∙◌, ap, String, Bool, true, false,
  List, [], ◌∷◌, str_eq, eq_iff, ◌&&◌, arith, ◌==◌, ==_iff,
}
use uscope_driver.Prelude.Dict.{lookup}
use uscope_driver.Decimal.{concat, to_string, digits}
use uscope_driver.Interfaces.{
  InterfacesDictionary, set_arch, FilePath, found, get_control_bus, get_cores_bus, get_data_bus,
  get_clock_if, get_buffer_address_if, get_fpga_flags_if, get_fpga_bitstream_if, get_fpga_state_if,
}

-- The four architectures of the tables.
abbrev pub IsKnown : String → Type 0
IsKnown arch = (arch ≡ "zynq") ⊎ ((arch ≡ "zynqmp") ⊎ ((arch ≡ "emulate") ⊎ (arch ≡ "testing")))

abbrev pub is_found : FilePath → Bool
is_found (found path) = true
is_found _ = false

-- Every getter returns, that of the clocks for the numbers up to three.
pub record HasPaths (d : InterfacesDictionary) : Type 0 where
  pub control_bus : is_found (get_control_bus d) ≡ true
  pub cores_bus : is_found (get_cores_bus d) ≡ true
  pub data_bus : is_found (get_data_bus d) ≡ true
  pub buffer_address : is_found (get_buffer_address_if d) ≡ true
  pub fpga_flags : is_found (get_fpga_flags_if d) ≡ true
  pub fpga_bitstream : is_found (get_fpga_bitstream_if d) ≡ true
  pub fpga_state : is_found (get_fpga_state_if d) ≡ true
  pub clock : (n : ℕ) → n ≤ 3 → is_found (get_clock_if n d) ≡ true

state-IsKnown : (d : InterfacesDictionary) → is_found (get_fpga_state_if d) ≡ true → IsKnown d.arch
unfolding get_fpga_state_if lookup
state-IsKnown d h = ground (
  arith,
  eq_iff "zynq" d.arch,
  eq_iff "zynqmp" d.arch,
  eq_iff "emulate" d.arch,
  eq_iff "testing" d.arch,
)

-- The getters without an argument, one after the other.
abbrev pub plain_paths : InterfacesDictionary → List FilePath
plain_paths d =
    get_control_bus d
    ∷ get_cores_bus d
    ∷ get_data_bus d
    ∷ get_buffer_address_if d
    ∷ get_fpga_flags_if d
    ∷ get_fpga_bitstream_if d
    ∷ get_fpga_state_if d
    ∷ []

abbrev all_found : List FilePath → Bool
all_found [] = true
all_found (p ∷ paths) = is_found p && all_found paths

module _ (d : InterfacesDictionary) where
  of_tests :
      all_found (plain_paths d) ≡ true
      → ((n : ℕ) → n ≤ 3 → is_found (get_clock_if n d) ≡ true)
      → HasPaths d
  of_tests plain clocks = record {
    control_bus = ground arith;
    cores_bus = ground arith;
    data_bus = ground arith;
    buffer_address = ground arith;
    fpga_flags = ground arith;
    fpga_bitstream = ground arith;
    fpga_state = ground arith;
    clock = clocks;
  }

IsKnown-HasPaths : (arch : String) → IsKnown arch → HasPaths (record { arch = arch })
unfolding get_control_bus get_cores_bus get_data_bus get_buffer_address_if get_fpga_flags_if
    get_fpga_bitstream_if get_fpga_state_if get_clock_if lookup
IsKnown-HasPaths arch (inl e) = rw e (of_tests _ refl (λ n h. ground arith))
IsKnown-HasPaths arch (inr (inl e)) = rw e (of_tests _ refl (λ n h. ground arith))
IsKnown-HasPaths arch (inr (inr (inl e))) = rw e (of_tests _ refl (λ n h. ground arith))
IsKnown-HasPaths arch (inr (inr (inr e))) = rw e (of_tests _ refl (λ n h. ground arith))

pub set_arch_lem :
    (arch : String) (d : InterfacesDictionary) → HasPaths (set_arch arch d) ↔ IsKnown arch
unfolding set_arch
set_arch_lem arch d =
    (λ h. state-IsKnown (record { arch = arch }) h.fpga_state, IsKnown-HasPaths arch)

abbrev text : FilePath → String
text (found path) = path
text _ = ""

abbrev Distinct : String → ℕ → ℕ → Type 0
Distinct arch n m =
    str_eq (text (get_clock_if n (record { arch = arch })))
      (text (get_clock_if m (record { arch = arch })))
    ≡ (n == m)

up_to_three : (P : ℕ → Type 0) → P 0 → P 1 → P 2 → P 3 → (n : ℕ) → n ≤ 3 → P n
up_to_three P p0 p1 p2 p3 zero h = p0
up_to_three P p0 p1 p2 p3 (suc zero) h = p1
up_to_three P p0 p1 p2 p3 (suc (suc zero)) h = p2
up_to_three P p0 p1 p2 p3 (suc (suc (suc zero))) h = p3
up_to_three P p0 p1 p2 p3 (suc (suc (suc (suc n)))) h = absurd (omega (arith, h))

abbrev AllDistinct : ℕ → ℕ → Type 0
AllDistinct n m = Distinct "zynq" n m × Distinct "zynqmp" n m × Distinct "testing" n m

all_distinct : (n : ℕ) → n ≤ 3 → (m : ℕ) → m ≤ 3 → AllDistinct n m
unfolding get_clock_if lookup concat to_string digits
all_distinct =
    up_to_three (λ n. (m : ℕ) → m ≤ 3 → AllDistinct n m)
      (up_to_three (λ m. AllDistinct 0 m) (refl, refl, refl) (refl, refl, refl) (refl, refl, refl)
        (refl, refl, refl))
      (up_to_three (λ m. AllDistinct 1 m) (refl, refl, refl) (refl, refl, refl) (refl, refl, refl)
        (refl, refl, refl))
      (up_to_three (λ m. AllDistinct 2 m) (refl, refl, refl) (refl, refl, refl) (refl, refl, refl)
        (refl, refl, refl))
      (up_to_three (λ m. AllDistinct 3 m) (refl, refl, refl) (refl, refl, refl) (refl, refl, refl)
        (refl, refl, refl))

of_Distinct :
    (arch : String) (n m : ℕ)
    → Distinct arch n m
    → get_clock_if n (record { arch = arch }) ≡ get_clock_if m (record { arch = arch })
    → n ≡ m
of_Distinct arch n m d e = (==_iff n m).0 (sym d ∙ (eq_iff _ _).1 (ap text e))

-- On the architectures with clocks of their own, different clocks have different files.
pub clock_paths_differ :
    (arch : String) (n m : ℕ) (d : InterfacesDictionary)
    → IsKnown arch
    → arch ≢ "emulate"
    → n ≤ 3
    → m ≤ 3
    → get_clock_if n (set_arch arch d) ≡ get_clock_if m (set_arch arch d)
    → n ≡ m
unfolding set_arch
clock_paths_differ arch n m d (inl e) other hn hm same =
    of_Distinct arch n m (rw e (all_distinct n hn m hm).0) same
clock_paths_differ arch n m d (inr (inl e)) other hn hm same =
    of_Distinct arch n m (rw e (all_distinct n hn m hm).1) same
clock_paths_differ arch n m d (inr (inr (inl e))) other hn hm same = absurd (other e)
clock_paths_differ arch n m d (inr (inr (inr e))) other hn hm same =
    of_Distinct arch n m (rw e (all_distinct n hn m hm).2) same
