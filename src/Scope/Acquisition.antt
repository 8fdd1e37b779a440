-- ===== src/Scope/Acquisition.antt =====
-- The writes that set an acquisition up.
use uscope_driver.Prelude.{
  ℕ, ◌+◌, ◌-◌, ◌^◌, ◌<◌, ◌≡◌, inl, inr, Bool-cases, ap, ◌∙◌, Bool, true, List, [], ◌∷◌, ◌++◌, arith,
  ltb, if◌then◌else◌, ◌==◌, u32, u64,
}
use mathlib.Core.List.{append-nil}
use uscope_driver.Exec.{Result, Exec, ok, pure, ◌>>◌}
use uscope_driver.Response.{ResponseCode}
use uscope_driver.Bus.{BusOp}
use uscope_driver.Bus.Memory.{write_op}
use uscope_driver.Bridge.{FpgaBridge, write_direct}
use uscope_driver.Bridge.Access.{log, log-log, write_direct_sink}
use uscope_driver.Scope.{
  ScopeManager, AcquisitionMetadata, trigger_code, mode_code, level_word, set_prescaler,
  write_acquisition, set_acquisition, disable_dma,
}

-- In sink mode a loaded bridge only logs the given operations.
record Logs (m : Exec FpgaBridge (Unit {0})) (ops : List BusOp) : Type 0 where
  run : (h : FpgaBridge) → h.fpga_loaded ≡ true → h.sink_mode ≡ true → m h ≡ (ok tt, log h ops)

Logs-write :
    (address value : ℕ)
    → Logs (write_direct address value) (write_op (address ∷ []) (u32 value) ∷ [])
Logs-write address value = record {
  run = λ h loaded sink. write_direct_sink address value h loaded sink;
}

Logs-pure : Logs (pure tt) []
Logs-pure = record { run = λ h loaded sink. ground (arith, append-nil h.operations) }

Logs-then :
    (m n : Exec FpgaBridge (Unit {0})) (xs ys : List BusOp)
    → Logs m xs
    → Logs n ys
    → Logs (m >> n) (xs ++ ys)
Logs-then m n xs ys hm hn = record {
  run = λ h loaded sink. rw (hm.run h loaded sink) (
      hn.run (log h xs) loaded sink
      ∙ ap {B = Result (Unit {0}) × FpgaBridge} (λ g. (ok tt, g)) (log-log h xs ys));
}

write_then :
    (address value : ℕ) (n : Exec FpgaBridge (Unit {0})) (ys : List BusOp)
    → Logs n ys
    → Logs (write_direct address value >> n) (write_op (address ∷ []) (u32 value) ∷ ys)
write_then address value n ys hn =
    Logs-then (write_direct address value) n _ ys (Logs-write address value) hn

abbrev pub internal_register : ℕ → ℕ → ℕ
internal_register base register = u64 (base + 0x200 + register)

abbrev pub timebase_register : ℕ → ℕ → ℕ
timebase_register base register = u64 (base + 0x100 + register)

-- The words of the prescaler, which is used above two.
abbrev pub prescaler_log : ℕ → ℕ → List BusOp
prescaler_log base prescaler =
    if ltb 2 prescaler
    then write_op (timebase_register base 0x0 ∷ []) 1
      ∷ write_op (timebase_register base 0x4 ∷ []) (u32 prescaler)
      ∷ write_op (timebase_register base 0x8 ∷ []) 1
      ∷ []
    else []

set_prescaler-Logs :
    (base prescaler : ℕ) → Logs (set_prescaler base prescaler) (prescaler_log base prescaler)
unfolding set_prescaler
set_prescaler-Logs base prescaler = elim (Bool-cases (ltb 2 prescaler)) [
  | inl used ↦
      let threshold = write_direct (timebase_register base 0x8) 1 in
      let period = write_direct (timebase_register base 0x4) prescaler >> threshold in
      rw used (
        write_then (timebase_register base 0x0) 1 period _ (
          write_then (timebase_register base 0x4) prescaler threshold _
            (Logs-write (timebase_register base 0x8) 1)))
  | inr unused ↦ rw unused Logs-pure
]

-- The words of an acquisition: the trigger's mode, source and level, the mode, the trigger's point
-- and the prescaler.
abbrev pub acquisition_log : ℕ → AcquisitionMetadata → List BusOp
acquisition_log base a =
    write_op (internal_register base 0x0 ∷ []) (u32 (trigger_code a.trigger_mode))
    ∷ write_op (internal_register base 0x10 ∷ []) (u32 (u32 (a.trigger_source + 2 ^ 32 - 1)))
    ∷ write_op (internal_register base 0x4 ∷ []) (u32 a.trigger_level)
    ∷ write_op (internal_register base 0x18 ∷ []) (u32 (mode_code a.mode))
    ∷ write_op (internal_register base 0x14 ∷ []) (u32 a.trigger_point)
    ∷ prescaler_log base a.prescaler

level : (a : AcquisitionMetadata) → level_word a ≡ a.trigger_level
unfolding level_word
level a = ground arith

write_acquisition-Logs :
    (base : ℕ) (a : AcquisitionMetadata) → Logs (write_acquisition base a) (acquisition_log base a)
unfolding write_acquisition
write_acquisition-Logs base a =
    let prescaler = set_prescaler base a.prescaler in
    let point = write_direct (internal_register base 0x14) a.trigger_point >> prescaler in
    let mode = write_direct (internal_register base 0x18) (mode_code a.mode) >> point in
    let trigger_level = write_direct (internal_register base 0x4) a.trigger_level >> mode in
    let source =
      write_direct (internal_register base 0x10) (u32 (a.trigger_source + 2 ^ 32 - 1))
      >> trigger_level in
    rw (level a) (
      write_then (internal_register base 0x0) (trigger_code a.trigger_mode) source _ (
        write_then (internal_register base 0x10) (u32 (a.trigger_source + 2 ^ 32 - 1)) trigger_level
          _
          (write_then (internal_register base 0x4) a.trigger_level mode _ (
            write_then (internal_register base 0x18) (mode_code a.mode) point _ (
              write_then (internal_register base 0x14) a.trigger_point prescaler _
                (set_prescaler-Logs base a.prescaler))))))

-- A scope without an address is left alone. With the bridge loaded and in sink mode, any other
-- scope gets the words of the acquisition, in order, and nothing else changes; the call succeeds.
pub set_acquisition_dry :
    (a : AcquisitionMetadata) (s : ScopeManager)
    → s.hw.fpga_loaded ≡ true
    → s.hw.sink_mode ≡ true
    → set_acquisition a s ≡ (
      ok ResponseCode.ok,
      if s.scope_base_address == 0
          then s
          else record s { hw = log s.hw (acquisition_log s.scope_base_address a) },
    )
unfolding set_acquisition
set_acquisition_dry a s loaded sink =
    ground (arith, (write_acquisition-Logs s.scope_base_address a).run s.hw loaded sink)

-- After the first call, a call of `disable_dma` in sink mode logs one write of the status if the
-- control register of the multiplexer is not at address 0; the first call writes nothing.
pub disable_dma_twice :
    (first status : Bool) (s : ScopeManager)
    → s.first_load ≡ true
    → s.hw.fpga_loaded ≡ true
    → s.hw.sink_mode ≡ true
    → s.scope_base_address < 2 ^ 64
    → (disable_dma status (disable_dma first s).1).1.hw ≡ (
        if s.scope_base_address == 0
        then s.hw
        else log s.hw (write_op (s.scope_base_address ∷ []) (if status then 1 else 0) ∷ []))
unfolding disable_dma
disable_dma_twice first status s fresh loaded sink fits =
    let word : ℕ = if status then 1 else 0 in
    ground (arith, write_direct_sink s.scope_base_address word s.hw loaded sink)
