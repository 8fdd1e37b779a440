-- ===== src/Tests/Hil.antt =====
-- Tests of the deployer of the hardware-in-the-loop system.
use uscope_driver.Prelude.{
  ℕ, zero, suc, ◌+◌, ◌*◌, ◌≤◌, ◌<◌, ◌≡◌, refl, false, List, [], ◌∷◌, ◌++◌, arith, lcm, gcd, String,
  Bool, get_elem?, some, map, if◌then◌else◌,
}
use uscope_driver.Exec.{ok, err, runtime_error}
use uscope_driver.Bus.Memory.{write_op}
use uscope_driver.Deployer.Writes.{logged}
use uscope_driver.Hil.Deploy.{Platform, deploy, deploy_for_simulation}
use uscope_driver.Hil.Deploy.Refusal.{deploy_refused}
use uscope_driver.Hil.{Deployment, DeployedProgram, HilDeployer, at_key}
use uscope_driver.Hil.Reciprocal.{FcoreOpcodes, check_reciprocal, check_reciprocal_lem}
use uscope_driver.Hil.Sequencer.{setup_sequencer}
use uscope_driver.Hil.Sequencer.Registers.{cores_log, setup_sequencer_dry}
use uscope_driver.Hil.Timebase.{
  ShiftCalcData, Sort, before, calc_data, calculate_timebase_shift, lcm32, accumulate_lcm,
  set_timebase_frequency, core_divider, assign_shifts, add_lengths, inter_core_buffer,
}
use uscope_driver.Hil.Timebase.Frequency.{core_divider_exact}
use uscope_driver.Hil.Timebase.Schedule.{add_lengths_covers}
use uscope_driver.Hil.Timebase.Order.{IsSorting, calculate_timebase_shift-starts}
use mathlib.Core.List.{Permᴰ}
use uscope_driver.Prelude.Dict.{lookup}
use uscope_driver.Tests.Samples.{deployer, hil_deployer, whole_numbers}
use uscope_driver.Tests.Deployer.{deployer-IsDry}

abbrev opcodes : FcoreOpcodes
opcodes = record { opcode_width = 5; opcode_ldc = 6; opcode_rec = 19 }

check_reciprocal_lem_example :
    check_reciprocal opcodes false (1 ∷ 0xC ∷ 0xC ∷ 6 ∷ 19 ∷ 51 ∷ []) ≡ 11
check_reciprocal_lem_example = check_reciprocal_lem opcodes false (1 ∷ 0xC ∷ 0xC ∷ 6 ∷ 19 ∷ 51 ∷ [])

setup_sequencer_dry_example :
    setup_sequencer whole_numbers 2 (3 ∷ 5 ∷ []) (2 ∷ 200 ∷ []) 0 deployer ≡ (
      ok tt,
      logged deployer (
          cores_log deployer.addresses 0 (3 ∷ 5 ∷ []) (2 ∷ 200 ∷ [])
          ++ write_op (0x51004 ∷ []) 10 ∷ write_op (0x50000 ∷ []) 3 ∷ []),
    )
setup_sequencer_dry_example =
    setup_sequencer_dry whole_numbers (3 ∷ 5 ∷ []) (2 ∷ 200 ∷ []) 0 deployer deployer-IsDry refl
      (omega arith)

abbrev program : ℕ → DeployedProgram
program frequency = record {
  name = "core";
  index = 0;
  order = 1;
  n_channels = 1;
  sampling_frequency = frequency;
  binary = [];
  program_length = record { fixed_portion = 10; per_channel_portion = 2 };
  inputs = [];
}

abbrev pub two_programs : List DeployedProgram
two_programs = program 4 ∷ program 6 ∷ []

frequencies-lcm : accumulate_lcm 1 (4 ∷ 6 ∷ []) ≡ ok 12
unfolding accumulate_lcm lcm32 lcm gcd
frequencies-lcm = refl

core_divider_exact_example :
    let (result, h') = set_timebase_frequency whole_numbers (4 ∷ 6 ∷ []) hil_deployer in
    (result ≡ ok tt)
    × (h'.base.timebase_frequency ≡ 12)
    × (0 < 12)
    × (core_divider whole_numbers h' (program 6) * 6 ≡ 12)
core_divider_exact_example =
    core_divider_exact whole_numbers (λ n fits. refl) hil_deployer two_programs 12 1 (program 6)
      (omega arith, (omega arith, tt)) frequencies-lcm (omega arith) refl

abbrev two_cores : List ShiftCalcData
two_cores =
    record { name = "a"; execution_order = 1; program_length = 40 }
    ∷ record { name = "b"; execution_order = 2; program_length = 25 }
    ∷ []

add_lengths_covers_example :
    at_key (assign_shifts 2 two_cores []) "b" + 25 + inter_core_buffer ≤ 2 + add_lengths 0 two_cores
add_lengths_covers_example =
    add_lengths_covers two_cores 1 (record { name = "b"; execution_order = 2; program_length = 25 })
      ((refl, tt), (tt, tt)) (omega arith) refl

-- Insertion by a comparator.
abbrev insert_by :
    (ShiftCalcData → ShiftCalcData → Bool) → ShiftCalcData → List ShiftCalcData → List ShiftCalcData
insert_by comparator c [] = c ∷ []
insert_by comparator c (d ∷ cs) =
    if comparator d c then d ∷ insert_by comparator c cs else c ∷ d ∷ cs

abbrev insertion_sort : Sort
insertion_sort comparator [] = []
insertion_sort comparator (c ∷ cs) = insert_by comparator c (insertion_sort comparator cs)

abbrev named : String → DeployedProgram
named n = record (program 4) { name = n }

-- The program that comes second in time comes first in the deployment.
abbrev late_and_early : List DeployedProgram
late_and_early = named "late" ∷ named "early" ∷ []

abbrev ordered_deployer : HilDeployer
ordered_deployer = record hil_deployer {
  execution_order = ("late", 2) ∷ ("early", 1) ∷ [];
  n_channels = ("late", 1) ∷ ("early", 3) ∷ [];
}

abbrev entries : List ShiftCalcData
entries = map (calc_data ordered_deployer) late_and_early

entries-IsSorting : IsSorting before entries (insertion_sort before entries)
unfolding at_key lookup
entries-IsSorting = record { permuted = Permᴰ.swap refl refl; ordered = by_places }
  where
    by_places :
        (i j : ℕ) (c d : ShiftCalcData)
        → i < j
        → get_elem? (insertion_sort before entries) i ≡ some c
        → get_elem? (insertion_sort before entries) j ≡ some d
        → before d c ≡ false
    by_places zero zero c d lt hc hd = absurd (omega (arith, lt))
    by_places zero (suc zero) c d lt hc hd = ground arith
    by_places zero (suc (suc j)) c d lt hc hd = cc
    by_places (suc i) zero c d lt hc hd = absurd (omega (arith, lt))
    by_places (suc zero) (suc zero) c d lt hc hd = absurd (omega (arith, lt))
    by_places (suc (suc i)) (suc j) c d lt hc hd = cc
    by_places (suc zero) (suc (suc j)) c d lt hc hd = cc

calculate_timebase_shift-starts_example :
    (shifts : List ℕ) × (first : ℕ) × (second : ℕ) × ((calculate_timebase_shift insertion_sort
        late_and_early ordered_deployer).0
      ≡ ok shifts)
    × (get_elem? shifts 1 ≡ some first)
    × (get_elem? shifts 0 ≡ some second)
    × (first + 16 + 90 ≤ second)
unfolding at_key lookup
calculate_timebase_shift-starts_example =
    calculate_timebase_shift-starts insertion_sort late_and_early ordered_deployer 1 0
      (named "early") (named "late") entries-IsSorting ((refl, tt), (tt, tt)) (omega arith) refl
      refl (omega arith)

abbrev repeat : ℕ → List DeployedProgram
repeat zero = []
repeat (suc n) = program 4 ∷ repeat n

abbrev pub large : Deployment
large = record {
  programs = repeat 33;
  interconnect_slots = [];
  memory_initializations = [];
  inputs = λ name. [];
}

abbrev pub platform : Platform
platform = record { opcodes = opcodes; fp = whole_numbers; sort = λ comparator l. l; fuel = 10 }

deploy_refused_example :
    let (result, after) = deploy (λ n. n) (λ n. ok large) platform 7 hil_deployer in
    (result ≡ err (runtime_error "The HIL SYSTEM ONLY SUPPORTS UP TO 32 CORES AT ONCE"))
    × (after.base.hw.registers ≡ hil_deployer.base.hw.registers)
    × (after.base.hw.fcore ≡ hil_deployer.base.hw.fcore)
    × (after.base.hw.operations ≡ [])
    × (deploy_for_simulation (λ n. n) (λ n. ok large) platform 7 after ≡ (ok tt, after))
deploy_refused_example =
    deploy_refused (λ n. n) (λ n. ok large) platform 7 large hil_deployer refl (omega arith)
