-- ===== src/Timing.antt =====
-- includes/hw_interface/timing_manager.hpp and src/hw_interface/timing_manager.cpp: the clocks of the
-- programmable logic. The default constructor leaves the pointer to the bridge null.
pub mod Clocks
use uscope_driver.Prelude.{
  ℕ, zero, suc, ◌+◌, ◌*◌, ◌/◌, ◌%◌, ◌^◌, String, Bool, true, false, List, [], ◌∷◌, Option, none,
  some, leb, ◌==◌, if◌then◌else◌, length, get_elem?, u16, u32, u64,
}
use uscope_driver.Prelude.Dict.{Dict, insert, lookup, string_eq}
use uscope_driver.Exec.{Exec, ok, fault, pure, raise, gets, modify, lift, ◌>>=◌, ◌>>◌}
use uscope_driver.Response.{ResponseCode, as_integer}
use uscope_driver.Bridge.{FpgaBridge, ClockAnswer, get_pl_clock, set_pl_clock, write_direct}

pub record ClockDefinition : Type 0 where
  pub multiplier : ℕ
  pub divider : ℕ
  pub base_clock : ℕ
  pub generator_base_address : ℕ
  pub multiplier_present : Bool
  pub phase : ℕ

pub record TimingManager : Type 0 where
  pub hw : Option FpgaBridge
  pub ps_pl_clk_f : List ℕ
  pub generated_clocks : Dict String ClockDefinition

unfoldable pub make_timing_manager : FpgaBridge → TimingManager
make_timing_manager h = record {
  hw = some h;
  ps_pl_clk_f = get_pl_clock 0 ∷ get_pl_clock 1 ∷ get_pl_clock 2 ∷ get_pl_clock 3 ∷ [];
  generated_clocks = [];
}

-- A call through the pointer to the bridge.
abbrev pub on_hw : {A : Type 0} → Exec FpgaBridge A → Exec TimingManager A
on_hw m t = elim t.hw [
  | none ↦ raise fault t
  | some h ↦ let (result, h') = m h in (result, record t { hw = some h' })
]

abbrev pub set_at : ℕ → ℕ → List ℕ → List ℕ
set_at i v [] = []
set_at zero v (x ∷ xs) = v ∷ xs
set_at (suc i) v (x ∷ xs) = x ∷ set_at i v xs

-- The frequency is kept only when the driver took it.
unfoldable pub keep_clock : ResponseCode → ℕ → ℕ → Exec TimingManager (Unit {0})
unfolding as_integer
keep_clock resp clk_n clk_f t =
    if as_integer resp == 1
    then if leb (length t.ps_pl_clk_f) clk_n
      then (raise fault) t
      else (ok tt, record t { ps_pl_clk_f = set_at clk_n clk_f t.ps_pl_clk_f })
    else (ok tt, t)

unfoldable pub set_base_clock : ClockAnswer → ℕ → ℕ → Exec TimingManager ResponseCode
unfolding keep_clock
set_base_clock answer clk_n clk_f = do
  resp ← on_hw (lift (set_pl_clock answer clk_n (u32 clk_f)))
  keep_clock resp clk_n clk_f
  pure resp

unfoldable pub get_base_clock : ℕ → Exec TimingManager ℕ
get_base_clock clk_n t = elim (get_elem? t.ps_pl_clk_f clk_n) [
  | none ↦ raise fault t
  | some f ↦ (pure f) t
]

unfoldable pub add_generated_clock : String → ClockDefinition → Exec TimingManager (Unit {0})
add_generated_clock clock_name c =
    modify (λ t. record t { generated_clocks = insert clock_name c t.generated_clocks })

unfoldable pub setup_clock_divider : ℕ → ℕ → ℕ → Exec FpgaBridge (Unit {0})
setup_clock_divider base_address div phase = do
  write_direct (u64 (base_address + 0x4)) div
  write_direct (u64 (base_address + 0x8)) phase

-- The divider and the phase are set in a copy of the definition, the multiplier in the map itself.
-- The set-up of a PLL is empty.
unfoldable pub set_generated_clock : String → ℕ → ℕ → ℕ → Exec TimingManager ResponseCode
unfolding lookup setup_clock_divider
set_generated_clock clock_name m d p t = elim (lookup clock_name t.generated_clocks) [
  | none ↦ (ok ResponseCode.ok, t)
  | some c ↦
      if c.multiplier_present
      then (
        ok ResponseCode.ok,
        record t {
          generated_clocks = insert clock_name (record c { multiplier = u16 m }) t.generated_clocks;
        },
      )
      else (do
        on_hw (setup_clock_divider c.generator_base_address (u16 d) (u16 (u16 p)))
        pure ResponseCode.ok)
          t
]

abbrev pub no_clock : ClockDefinition
no_clock = record {
  multiplier = 0;
  divider = 0;
  base_clock = 0;
  generator_base_address = 0;
  multiplier_present = false;
  phase = 0;
}

-- A clock that is not there is entered, with zeros.
abbrev pub clock_at : String → Exec TimingManager ClockDefinition
clock_at clock_name t = elim (lookup clock_name t.generated_clocks) [
  | none ↦
      (ok no_clock, record t { generated_clocks = insert clock_name no_clock t.generated_clocks })
  | some c ↦ (ok c, t)
]

unfoldable pub get_generated_clock : String → Exec TimingManager ℕ
unfolding get_base_clock lookup
get_generated_clock clock_name = do
  c ← clock_at clock_name
  base_freq ← get_base_clock c.base_clock
  (if c.divider == 0 then raise fault else pure (u64 (base_freq * c.multiplier) / c.divider))
