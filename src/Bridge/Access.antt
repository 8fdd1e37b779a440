-- ===== src/Bridge/Access.antt =====
-- When the bridge reaches the bus, and with what.
use mathlib.Core.List.{append-nil, append_assoc}
use uscope_driver.Prelude.{
  ℕ, ◌+◌, ◌≤◌, ◌≡◌, refl, ap, ◌∙◌, true, false, List, [], ◌∷◌, ◌++◌, none, some, arith, u32, u64,
  length, str_eq, if◌then◌else◌,
}
use uscope_driver.Exec.{Result, err, runtime_error, fault}
use uscope_driver.Response.{ResponseCode}
use uscope_driver.Bus
use uscope_driver.Bus.{BusAccessor, BusOp}
use uscope_driver.Bus.Memory.{fcore_index, overlay, load_program_lem, write_op}
use uscope_driver.Bridge.{
  FpgaBridge, WriteObj, write_direct, write_taps, apply_filter, apply_program, set_scope_data,
  single_write_register, single_read_register,
}

-- The calls that clients make of a bridge for single registers.
pub data RegisterCall : Type 0 where
  write : WriteObj → RegisterCall
  read : ℕ → ℕ → RegisterCall
  filter : ℕ → List ℕ → RegisterCall
  scope_buffer : ℕ → ℕ → RegisterCall

abbrev pub after_call : RegisterCall → FpgaBridge → FpgaBridge
after_call (write w) h = (single_write_register w h).1
after_call (read random address) h = (single_read_register random address h).1
after_call (filter address taps) h = (apply_filter address taps h).1
after_call (scope_buffer buffer address) h = (set_scope_data buffer address h).1

write_taps_unloaded :
    (address i : ℕ) (taps : List ℕ) (h : FpgaBridge)
    → h.fpga_loaded ≡ false
    → write_taps address i taps h ≡ (Result.ok tt, h)
unfolding write_taps
write_taps_unloaded address i [] h off = refl
write_taps_unloaded address i (tap ∷ taps) h off =
    ground (arith, write_taps_unloaded address (i + 1) taps h)

-- Before a bitstream is loaded no call for a register changes anything: neither the memories, nor
-- the log, nor the bridge, whether the call succeeds or fails.
pub unloaded_registers :
    (c : RegisterCall) (h : FpgaBridge) → h.fpga_loaded ≡ false → after_call c h ≡ h
unfolding single_write_register single_read_register apply_filter set_scope_data
unloaded_registers (write w) h off = ground arith
unloaded_registers (read random address) h off = ground arith
unloaded_registers (filter address taps) h off =
    ground (arith, write_taps_unloaded address 0 taps h)
unloaded_registers (scope_buffer buffer address) h off = ground arith

-- A program, though, is stored in the cores' memory also when no bitstream is loaded.
pub unloaded_program :
    (h : FpgaBridge) (address : ℕ) (program : List ℕ)
    → h.fpga_loaded ≡ false
    → h.sink_mode ≡ false
    → h.core_addr ≤ address
    → fcore_index h.busses address + length program ≤ h.n_fcore
    → ((apply_program address program h).0 ≡ Result.ok ResponseCode.ok)
      × ((apply_program address program h).1.fcore
          ≡ overlay h.fcore (fcore_index h.busses address) program)
unfolding apply_program
unloaded_program h address program off on low fits =
    ground (arith, load_program_lem h.busses address program on low fits)

-- A bridge with more operations in its log.
abbrev pub log : FpgaBridge → List BusOp → FpgaBridge
log h ops = record h { busses = record h.busses { operations = h.operations ++ ops } }

pub log-log : (h : FpgaBridge) (xs ys : List BusOp) → log (log h xs) ys ≡ log h (xs ++ ys)
log-log h xs ys =
    ap (λ l. record h { busses = record h.busses { operations = l } })
      (append_assoc h.operations xs ys)

pub write_direct_sink :
    (addr val : ℕ) (h : FpgaBridge)
    → h.fpga_loaded ≡ true
    → h.sink_mode ≡ true
    → write_direct addr val h ≡ (Result.ok tt, log h (write_op (addr ∷ []) (u32 val) ∷ []))
unfolding write_direct Bus.write_register
write_direct_sink addr val h loaded sink = ground arith

-- What a register write does to a loaded bridge in sink mode, for each kind of write object.
abbrev pub expected_write : WriteObj → Result ResponseCode × List BusOp
expected_write w =
    if str_eq w.kind "direct"
    then (Result.ok ResponseCode.ok, write_op (w.address ∷ []) (u32 w.value) ∷ [])
    else if str_eq w.kind "proxied"
    then elim w.proxy_type [
      | none ↦ (err fault, [])
      | some proxy_type ↦
          if str_eq proxy_type "axis_constant"
          then elim w.proxy_address [
            | none ↦ (err fault, [])
            | some proxy ↦ (
              Result.ok ResponseCode.ok,
              write_op (u32 w.address ∷ proxy ∷ []) (u32 w.value) ∷ [],
            )
          ]
          else (err (runtime_error "ERROR: Unrecognised write proxy type"), [])
    ]
    else (err (runtime_error "ERROR: Unrecognised register write type"), [])

-- On a loaded bridge in sink mode a register write logs one operation and succeeds if it is direct,
-- or proxied with a known proxy type and an address; otherwise it fails and logs nothing.
pub single_write_register_sink :
    (w : WriteObj) (h : FpgaBridge)
    → h.fpga_loaded ≡ true
    → h.sink_mode ≡ true
    → single_write_register w h ≡ ((expected_write w).0, log h (expected_write w).1)
unfolding single_write_register Bus.write_register
single_write_register_sink w h loaded sink = ground (arith, append-nil h.operations)

-- The log of a filter: each tap at the address, and its number at the next register.
abbrev pub filter_log : ℕ → ℕ → List ℕ → List BusOp
filter_log address i [] = []
filter_log address i (tap ∷ taps) =
    write_op (address ∷ []) (u32 tap)
    ∷ write_op (u64 (address + 4) ∷ []) (u32 i)
    ∷ filter_log address (i + 1) taps

write_taps_sink :
    (address i : ℕ) (taps : List ℕ) (h : FpgaBridge)
    → h.fpga_loaded ≡ true
    → h.sink_mode ≡ true
    → write_taps address i taps h ≡ (Result.ok tt, log h (filter_log address i taps))
unfolding write_taps
write_taps_sink address i [] h loaded sink = ground (arith, append-nil h.operations)
write_taps_sink address i (tap ∷ taps) h loaded sink =
    let first = write_op (address ∷ []) (u32 tap) in
    let second = write_op (u64 (address + 4) ∷ []) (u32 i) in
    let h₁ = log h (first ∷ []) in
    let h₂ = log h₁ (second ∷ []) in
    let step : write_taps address i (tap ∷ taps) h ≡ write_taps address (i + 1) taps h₂ =
      ground (arith, write_direct_sink address tap h, write_direct_sink (u64 (address + 4)) i h₁) in
    step
    ∙ write_taps_sink address (i + 1) taps h₂ loaded sink
    ∙ ap {B = Result (Unit {0}) × FpgaBridge} (λ g. (Result.ok tt, g))
        (log-log h₁ (second ∷ []) (filter_log address (i + 1) taps)
          ∙ log-log h (first ∷ []) (second ∷ filter_log address (i + 1) taps))

-- With the bitstream loaded and the accesses disabled, a filter succeeds and logs each of its taps
-- in order, followed by the index of the tap; nothing else changes.
pub apply_filter_sink :
    (address : ℕ) (taps : List ℕ) (h : FpgaBridge)
    → h.fpga_loaded ≡ true
    → h.sink_mode ≡ true
    → apply_filter address taps h ≡ (Result.ok ResponseCode.ok, log h (filter_log address 0 taps))
unfolding apply_filter
apply_filter_sink address taps h loaded sink =
    ground (arith, write_taps_sink address 0 taps h loaded sink)
