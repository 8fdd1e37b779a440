-- ===== src/Bus.antt =====
-- includes/hw_interface/bus/bus_accessor.hpp and src/hw_interface/bus/bus_accessor.cpp: the two
-- mapped buses and the log of operations. A mapping is a function from word indices to words with
-- its length in words; an access past it is a fault. The mutex, the logging and the pause of one
-- microsecond between two words leave the state alone and are left out. The number that a read in
-- sink mode makes up is an argument.
pub mod Memory
pub mod Log
pub mod Planes
use uscope_driver.Prelude.{
  ℕ, ◌+◌, ◌-◌, ◌*◌, ◌/◌, ◌%◌, ◌^◌, String, Bool, true, false, List, [], ◌∷◌, ◌++◌, Option, none,
  some, ltb, leb, ◌==◌, if◌then◌else◌, u32, u64, str_eq,
}
use uscope_driver.Exec.{
  Result, Exec, ok, err, process_exit, fault, pure, raise, lift, gets, modify, ◌>>=◌, ◌>>◌,
}

abbrev pub zynq_registers_base_addr : ℕ
zynq_registers_base_addr = 0x43c00000

abbrev pub zynq_fcore_base_addr : ℕ
zynq_fcore_base_addr = 0x83c00000

abbrev pub zynqmp_registers_base_addr : ℕ
zynqmp_registers_base_addr = 0x400000000

abbrev pub zynqmp_fcore_base_addr : ℕ
zynqmp_fcore_base_addr = 0x500000000

pub data BusAccessType : Type 0 where
  control_plane_write rom_plane_write control_plane_read rom_plane_read : BusAccessType

pub record BusOp : Type 0 where
  pub address : List ℕ
  pub values : List ℕ
  pub kind : BusAccessType

pub record BusAccessor : Type 0 where
  pub control_addr : ℕ
  pub core_addr : ℕ
  pub n_registers : ℕ
  pub n_fcore : ℕ
  pub registers : ℕ → ℕ
  pub fcore : ℕ → ℕ
  pub sink_mode : Bool
  pub previous_sink_mode : Bool
  pub operations : List BusOp

-- What the constructor reads from its environment: variables, and whether the files open and map.
pub record BusEnvironment : Type 0 where
  pub arch : Option String
  pub mmap_n_pages_ctrl : Option ℕ
  pub mmap_n_pages_fcore : Option ℕ
  pub control_bus_opens : Bool
  pub cores_bus_opens : Bool
  pub control_bus_maps : Bool
  pub cores_bus_maps : Bool
  pub registers : ℕ → ℕ
  pub fcore : ℕ → ℕ

abbrev get_n_pages : Option ℕ → ℕ
get_n_pages none = 344000
get_n_pages (some n) = n

-- `n_pages*4096` is computed as an `int`.
abbrev overflows_int : ℕ → Bool
overflows_int n_pages = leb (2 ^ 31) (n_pages * 4096)

-- The four steps that can end the process, in the order of the source.
abbrev open_and_map : BusEnvironment → ℕ → ℕ → BusAccessor → Result BusAccessor
open_and_map env n_pages_ctrl n_pages_fcore b =
    if env.control_bus_opens
    then if env.cores_bus_opens
      then if overflows_int n_pages_ctrl
        then err fault
        else if env.control_bus_maps
        then if overflows_int n_pages_fcore
          then err fault
          else if env.cores_bus_maps
          then ok b
          else err process_exit
        else err process_exit
      else err process_exit
    else err process_exit

unfoldable pub make_bus_accessor : BusEnvironment → Result BusAccessor
make_bus_accessor env = elim env.arch [
  | none ↦ err process_exit
  | some arch ↦
      let n_pages_ctrl = get_n_pages env.mmap_n_pages_ctrl in
      let n_pages_fcore = get_n_pages env.mmap_n_pages_fcore in
      let zynqmp = str_eq arch "zynqmp" in
      open_and_map env n_pages_ctrl n_pages_fcore (record {
        control_addr = if zynqmp then zynqmp_registers_base_addr else zynq_registers_base_addr;
        core_addr = if zynqmp then zynqmp_fcore_base_addr else zynq_fcore_base_addr;
        n_registers = n_pages_ctrl * 1024;
        n_fcore = n_pages_fcore * 1024;
        registers = env.registers;
        fcore = env.fcore;
        sink_mode = false;
        previous_sink_mode = false;
        operations = [];
      })
]

unfoldable pub register_address_to_index : BusAccessor → ℕ → Result ℕ
register_address_to_index b address =
    if ltb address b.control_addr then err process_exit else ok ((address - b.control_addr) / 4)

unfoldable pub fcore_address_to_index : BusAccessor → ℕ → Result ℕ
fcore_address_to_index b address =
    if ltb address b.core_addr then err process_exit else ok ((address - b.core_addr) / 4)

abbrev pub store : (ℕ → ℕ) → ℕ → ℕ → ℕ → ℕ
store memory index value i = if i == index then value else memory i

-- `registers[index] = value`, which keeps the low 32 bits.
abbrev set_register : ℕ → ℕ → Exec BusAccessor (Unit {0})
set_register index value b =
    if ltb index b.n_registers
    then (ok tt, record b { registers = store b.registers index (u32 value) })
    else (err fault, b)

abbrev get_register : ℕ → Exec BusAccessor ℕ
get_register index b =
    if ltb index b.n_registers then (ok (b.registers index), b) else (err fault, b)

abbrev set_fcore : ℕ → ℕ → Exec BusAccessor (Unit {0})
set_fcore index value b =
    if ltb index b.n_fcore
    then (ok tt, record b { fcore = store b.fcore index (u32 value) })
    else (err fault, b)

abbrev push_operation : List ℕ → List ℕ → BusAccessType → BusAccessor → BusAccessor
push_operation address values kind b = record b {
  operations = b.operations ++ record { address = address; values = values; kind = kind } ∷ [];
}

-- `registers[register_address_to_index(address)] = data`
unfoldable pub write_word : ℕ → ℕ → Exec BusAccessor (Unit {0})
unfolding register_address_to_index
write_word address value = do
  index ← λ b. (register_address_to_index b address, b)
  set_register index value

-- Two addresses are the register behind a proxy and the proxy.
unfoldable pub write_words : List ℕ → ℕ → Exec BusAccessor (Unit {0})
unfolding write_word
write_words [] value = raise fault
write_words (address ∷ []) value = write_word address value
write_words (address ∷ proxy ∷ _) value = do
  write_word (u64 (proxy + 4)) address
  write_word proxy value

unfoldable pub write_register : List ℕ → ℕ → Exec BusAccessor (Unit {0})
unfolding write_words
write_register addresses value b =
    let logged = push_operation addresses (value ∷ []) control_plane_write b in
    if b.sink_mode then (ok tt, logged) else write_words addresses value logged

unfoldable pub read_words : List ℕ → Exec BusAccessor ℕ
unfolding register_address_to_index
read_words (address ∷ []) = do
  reg_n ← λ b. (register_address_to_index b address, b)
  get_register reg_n
read_words _ = pure 0

unfoldable pub read_register : ℕ → List ℕ → Exec BusAccessor ℕ
unfolding read_words
read_register random address b =
    let logged = push_operation address (0 ∷ []) control_plane_read b in
    if b.sink_mode then (ok (random % 100), logged) else read_words address logged

-- The loop of `load_program` outside sink mode, from word `i` on.
unfoldable pub store_program : ℕ → ℕ → List ℕ → Exec BusAccessor (Unit {0})
unfolding fcore_address_to_index
store_program address i [] = pure tt
store_program address i (word ∷ program) = do
  index ← λ b. (fcore_address_to_index b address, b)
  set_fcore (i + index) word
  store_program address (i + 1) program

unfoldable pub load_program : ℕ → List ℕ → Exec BusAccessor (Unit {0})
unfolding store_program
load_program address program b =
    let push = modify (push_operation (address ∷ []) program rom_plane_write) in
    if b.sink_mode then push b else (store_program address 0 program >> push) b

unfoldable pub disable_access : BusAccessor → BusAccessor
disable_access b = record b { previous_sink_mode = b.sink_mode; sink_mode = true }

unfoldable pub enable_access : BusAccessor → BusAccessor
enable_access b = record b { sink_mode = b.previous_sink_mode }

unfoldable pub clear_operations : BusAccessor → BusAccessor
clear_operations b = record b { operations = [] }
