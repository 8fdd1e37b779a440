-- ===== src/Bus/Log.antt =====
-- The log of operations, and runs with the accesses disabled.
use uscope_driver.Prelude.{
  ℕ, ◌+◌, ◌≤◌, ◌≡◌, refl, sym, ap, ◌∙◌, true, List, [], ◌∷◌, ◌++◌, map, ◌⊎◌, inl, inr, u32, arith,
  length,
}
use mathlib.Core.List.{append-nil, append_assoc}
use uscope_driver.Bus.{
  BusAccessor, BusOp, control_plane_write, control_plane_read, rom_plane_write, write_register,
  write_words, read_register, read_words, load_program, store_program, store, disable_access,
  enable_access,
}
use uscope_driver.Bus.Memory.{fcore_index}

-- The calls that clients make of the bus; a read carries the number made up in sink mode.
pub data BusCall : Type 0 where
  writes : List ℕ → ℕ → BusCall
  reads : ℕ → List ℕ → BusCall
  loads : ℕ → List ℕ → BusCall

-- The state that a call leaves, whether it succeeded or not.
abbrev pub call : BusCall → BusAccessor → BusAccessor
call (writes addresses value) b = (write_register addresses value b).1
call (reads random address) b = (read_register random address b).1
call (loads address program) b = (load_program address program b).1

abbrev pub calls : List BusCall → BusAccessor → BusAccessor
calls [] b = b
calls (c ∷ cs) b = calls cs (call c b)

-- The entry that describes a call.
abbrev pub describe : BusCall → BusOp
describe (writes addresses value) = record {
  address = addresses;
  values = value ∷ [];
  kind = control_plane_write;
}
describe (reads random address) = record {
  address = address;
  values = 0 ∷ [];
  kind = control_plane_read;
}
describe (loads address program) = record {
  address = address ∷ [];
  values = program;
  kind = rom_plane_write;
}

call_sink :
    (c : BusCall) (b : BusAccessor)
    → b.sink_mode ≡ true
    → call c b ≡ record b { operations = b.operations ++ describe c ∷ [] }
unfolding write_register read_register load_program
call_sink (writes addresses value) b h = ground arith
call_sink (reads random address) b h = ground arith
call_sink (loads address program) b h = ground arith

-- In sink mode a sequence of calls changes nothing but the log, which gets the description of each
-- call, in order.
pub calls_sink :
    (cs : List BusCall) (b : BusAccessor)
    → b.sink_mode ≡ true
    → calls cs b ≡ record b { operations = b.operations ++ map describe cs }
calls_sink [] b h = ap (λ l. record b { operations = l }) (sym (append-nil _))
calls_sink (c ∷ cs) b h =
    ap (calls cs) (call_sink c b h)
    ∙ calls_sink cs (record b { operations = b.operations ++ describe c ∷ [] }) h
    ∙ ap (λ l. record b { operations = l })
        (append_assoc b.operations (describe c ∷ []) (map describe cs))

-- A run between `disable_access` and `enable_access` leaves the memories and the sink mode as they
-- were before, and adds the description of each of its calls to the log.
pub dry_run :
    (cs : List BusCall) (b : BusAccessor)
    → let after = enable_access (calls cs (disable_access b)) in
      (after.registers ≡ b.registers)
      × (after.fcore ≡ b.fcore)
      × (after.sink_mode ≡ b.sink_mode)
      × (after.operations ≡ b.operations ++ map describe cs)
unfolding disable_access enable_access
dry_run cs b = rw (calls_sink cs (disable_access b) refl) (refl, refl, refl, refl)

operations-write_words :
    (addresses : List ℕ) (value : ℕ) (b : BusAccessor)
    → (write_words addresses value b).1.operations ≡ b.operations
unfolding write_words
operations-write_words [] value b = refl
operations-write_words (a ∷ []) value b = ground arith
operations-write_words (a ∷ p ∷ r) value b = ground arith

operations-read_words :
    (addresses : List ℕ) (b : BusAccessor) → (read_words addresses b).1.operations ≡ b.operations
unfolding read_words
operations-read_words [] b = refl
operations-read_words (a ∷ []) b = ground arith
operations-read_words (a ∷ p ∷ r) b = refl

operations-store_program :
    (address i : ℕ) (program : List ℕ) (b : BusAccessor)
    → (store_program address i program b).1.operations ≡ b.operations
unfolding store_program
operations-store_program address i [] b = refl
operations-store_program address i (word ∷ program) b = ground (
  arith,
  operations-store_program address (i + 1) program
      (record b { fcore = store b.fcore (i + fcore_index b address) (u32 word) }),
)

-- Whether a call that runs to its end or fails reaches the log.
operations-call :
    (c : BusCall) (b : BusAccessor)
    → ((call c b).operations ≡ b.operations ++ describe c ∷ [])
      ⊎ ((call c b).operations ≡ b.operations)
unfolding write_register read_register load_program
operations-call (writes addresses value) b = ground (
  arith,
  operations-write_words addresses value
      (record b { operations = b.operations ++ describe (writes addresses value) ∷ [] }),
)
operations-call (reads random address) b = ground (
  arith,
  operations-read_words address
      (record b { operations = b.operations ++ describe (reads random address) ∷ [] }),
)
operations-call (loads address program) b =
    ground (arith, operations-store_program address 0 program b)

-- The log only grows: calls, in either mode and failing or not, keep every entry and add at most
-- one for each call.
pub calls_extend :
    (cs : List BusCall) (b : BusAccessor)
    → (added : List BusOp) × ((calls cs b).operations ≡ b.operations ++ added)
      × (length added ≤ length cs)
calls_extend [] b = ([], sym (append-nil _), omega arith)
calls_extend (c ∷ cs) b =
    let (added, e, short) = calls_extend cs (call c b) in
    elim (operations-call c b) [
      | inl one ↦ (
        describe c ∷ added,
        e ∙ ap (λ l. l ++ added) one ∙ append_assoc b.operations (describe c ∷ []) added,
        omega arith,
      )
      | inr same ↦ (added, e ∙ ap (λ l. l ++ added) same, omega arith)
    ]
