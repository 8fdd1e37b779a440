-- ===== src/Tests/Bus.antt =====
-- Tests of the bus, the bridge and the channel metadata.
use uscope_driver.Prelude.{
  ℕ, ◌+◌, ◌≤◌, ◌≡◌, refl, false, List, [], ◌∷◌, ◌++◌, some, arith, length, map, ◌==◌, if◌then◌else◌,
}
use uscope_driver.Exec.{ok}
use uscope_driver.Bus.{
  BusOp, rom_plane_write, write_register, read_register, load_program, disable_access,
  enable_access,
}
use uscope_driver.Bus.Memory.{
  overlay, read_register-write_register, write_register_proxied, load_program_lem,
}
use uscope_driver.Bus.Log.{BusCall, writes, reads, calls, describe, dry_run, calls_extend}
use uscope_driver.Bridge.{WriteObj}
use uscope_driver.Bridge.Access.{filter, after_call, unloaded_registers}
use uscope_driver.Metadata.{ChannelMetadata}
use uscope_driver.Tests.Samples.{bus, bridge}

read_register-write_register_example :
    (read_register 7 (0x104 ∷ []) (write_register (0x104 ∷ []) 42 (bus false)).1).0 ≡ ok 42
read_register-write_register_example =
    read_register-write_register (bus false) 0x104 0x104 42 7 refl (omega arith, omega arith)
      (omega arith, omega arith)

write_register_proxied_example :
    let (result, after) = write_register (5 ∷ 0x108 ∷ []) 42 (bus false) in
    (result ≡ ok tt)
    × ((i : ℕ) → after.registers i ≡ (if i == 2 then 42 else if i == 3 then 5 else i))
write_register_proxied_example =
    write_register_proxied (bus false) 5 0x108 42 refl (omega arith) (omega arith, omega arith)
      (omega arith, omega arith)

load_program_lem_example : (load_program 0x804 (11 ∷ 12 ∷ []) (bus false)) ≡ (
  ok tt,
  record (bus false) {
    fcore = overlay (λ i. 100 + i) 1 (11 ∷ 12 ∷ []);
    operations =
        record { address = 0x804 ∷ []; values = 11 ∷ 12 ∷ []; kind = rom_plane_write } ∷ [];
  },
)
load_program_lem_example =
    load_program_lem (bus false) 0x804 (11 ∷ 12 ∷ []) refl (omega arith) (omega arith)

abbrev some_calls : List BusCall
some_calls = writes (0x104 ∷ []) 42 ∷ reads 7 (0x104 ∷ []) ∷ []

dry_run_example :
    let after = enable_access (calls some_calls (disable_access (bus false))) in
    (after.registers ≡ (bus false).registers)
    × (after.fcore ≡ (bus false).fcore)
    × (after.sink_mode ≡ false)
    × (after.operations ≡ map describe some_calls)
dry_run_example = dry_run some_calls (bus false)

calls_extend_example :
    (added : List BusOp) × ((calls some_calls (bus false)).operations ≡ [] ++ added)
    × (length added ≤ 2)
calls_extend_example = calls_extend some_calls (bus false)

unloaded_registers_example :
    after_call (filter 0x104 (1 ∷ 2 ∷ [])) (bridge false false) ≡ bridge false false
unloaded_registers_example =
    unloaded_registers (filter 0x104 (1 ∷ 2 ∷ [])) (bridge false false) refl

abbrev proxied_write : WriteObj
proxied_write = record {
  kind = "proxied";
  proxy_type = some "axis_constant";
  proxy_address = some 0x108;
  address = 5;
  value = 42;
}

abbrev float_channel : ChannelMetadata
float_channel = record { raw_metadata = 0x38 }
