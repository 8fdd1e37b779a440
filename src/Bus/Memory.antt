-- ===== src/Bus/Memory.antt =====
-- What the operations of the bus do to the mapped words when the accesses are enabled.
use uscope_driver.Prelude.{
  ℕ, suc, ◌+◌, ◌-◌, ◌/◌, ◌≤◌, ◌<◌, ◌^◌, ◌≡◌, inl, inr, false, List, [], ◌∷◌, ◌++◌, fun_ext, sym, ap,
  ◌∙◌, some, arith, ltb, ◌==◌, Bool-cases, none, if◌then◌else◌, u32, length, get_elem?,
}
use uscope_driver.Exec.{Result, ok}
use uscope_driver.Bus.{
  BusAccessor, BusOp, control_plane_write, rom_plane_write, store, write_register, read_register,
  store_program, load_program,
}

-- The word of the control bus that an address names.
abbrev pub register_index : BusAccessor → ℕ → ℕ
register_index b address = (address - b.control_addr) / 4

abbrev pub fcore_index : BusAccessor → ℕ → ℕ
fcore_index b address = (address - b.core_addr) / 4

abbrev pub IsMapped : BusAccessor → ℕ → Type 0
IsMapped b address = (b.control_addr ≤ address) × (register_index b address < b.n_registers)

abbrev pub write_op : List ℕ → ℕ → BusOp
write_op addresses value = record {
  address = addresses;
  values = value ∷ [];
  kind = control_plane_write;
}

-- A read of one mapped register after a write to another returns the written value, cut to 32
-- bits, if both addresses name one word, and otherwise what a read returned before.
pub read_register-write_register :
    (b : BusAccessor) (a c value random : ℕ)
    → b.sink_mode ≡ false
    → IsMapped b a
    → IsMapped b c
    → (read_register random (c ∷ []) (write_register (a ∷ []) value b).1).0 ≡ (
        if register_index b c == register_index b a
        then ok (u32 value)
        else (read_register random (c ∷ []) b).0)
unfolding read_register write_register
read_register-write_register b a c value random on ma mc = ground arith

-- A proxied write leaves the value at the proxy's register and the register's address at the one
-- after it, and changes no other word.
pub write_register_proxied :
    (b : BusAccessor) (address proxy value : ℕ)
    → b.sink_mode ≡ false
    → proxy + 4 < 2 ^ 64
    → IsMapped b proxy
    → IsMapped b (proxy + 4)
    → let (result, after) = write_register (address ∷ proxy ∷ []) value b in
      (result ≡ ok tt)
      × ((i : ℕ)
          → after.registers i ≡ (
              if i == register_index b proxy
              then u32 value
              else if i == register_index b proxy + 1
              then u32 address
              else b.registers i))
unfolding write_register
write_register_proxied b address proxy value on fits mp mq = (ground arith, λ i. ground arith)

-- The memory with the words of a program laid over it from index `first` on.
abbrev pub overlay : (ℕ → ℕ) → ℕ → List ℕ → ℕ → ℕ
overlay memory first program j =
    if ltb j first
    then memory j
    else elim (get_elem? program (j - first)) [ none ↦ memory j | some word ↦ u32 word ]

overlay-nil : (memory : ℕ → ℕ) (first j : ℕ) → overlay memory first [] j ≡ memory j
overlay-nil memory first j = ground arith

overlay-cons :
    (memory : ℕ → ℕ) (first word : ℕ) (program : List ℕ) (j : ℕ)
    → overlay (store memory first (u32 word)) (suc first) program j
      ≡ overlay memory first (word ∷ program) j
overlay-cons memory first word program j = elim (Bool-cases (ltb first j)) [
  | inl above ↦ let e : j - first ≡ suc (j - suc first) = ground arith in rw e (ground arith)
  | inr below ↦ let e : j - first ≡ 0 = ground arith in rw e (ground arith)
]

store_program_lem :
    (b : BusAccessor) (address i : ℕ) (program : List ℕ)
    → b.core_addr ≤ address
    → i + fcore_index b address + length program ≤ b.n_fcore
    → store_program address i program b
      ≡ (ok tt, record b { fcore = overlay b.fcore (i + fcore_index b address) program })
unfolding store_program
store_program_lem b address i [] h fits =
    ap {B = Result (Unit {0}) × BusAccessor} (λ m. (ok tt, record b { fcore = m }))
      (fun_ext λ j. sym (overlay-nil b.fcore (i + fcore_index b address) j))
store_program_lem b address i (word ∷ program) h fits =
    let index = i + fcore_index b address in
    let b' = record b { fcore = store b.fcore index (u32 word) } in
    let next : i + 1 + fcore_index b address ≡ suc index = omega arith in
    let step : store_program address i (word ∷ program) b
        ≡ store_program address (i + 1) program b' =
      ground arith in
    step
    ∙ store_program_lem b' address (i + 1) program h (omega arith)
    ∙ ap {B = Result (Unit {0}) × BusAccessor} (λ m. (ok tt, record b { fcore = m }))
        (fun_ext λ j. rw next (overlay-cons b.fcore index word program j))

-- Outside sink mode a program that fits the mapping is stored word by word from the address on, and
-- nothing else of the memory changes; the log gets one operation that holds the whole program.
pub load_program_lem :
    (b : BusAccessor) (address : ℕ) (program : List ℕ)
    → b.sink_mode ≡ false
    → b.core_addr ≤ address
    → fcore_index b address + length program ≤ b.n_fcore
    → load_program address program b ≡ (
      ok tt,
      record b {
        fcore = overlay b.fcore (fcore_index b address) program;
        operations =
            b.operations
            ++ record { address = address ∷ []; values = program; kind = rom_plane_write } ∷ [];
      },
    )
unfolding load_program
load_program_lem b address program on h fits =
    ground (arith, store_program_lem b address 0 program h)
