-- ===== src/Deployer/Memories.antt =====
-- src/deployment/deployer_base.cpp: the initial state of a core's memories.
pub mod Registers
use uscope_driver.Prelude.{
  ℕ, zero, suc, ◌+◌, ◌*◌, ◌^◌, List, [], ◌∷◌, ◌==◌, if◌then◌else◌, bit_and, u32, u64, length,
  get_elem?, Option, none, some, map,
}
use uscope_driver.Exec.{Exec, fault, pure, raise, ◌>>=◌, ◌>>◌}
use uscope_driver.Floats.{Float, float_to_uint32}
use uscope_driver.Deployer.{DeployerBase, write_register}

-- The values of the toolchain's variant of floats and integers.
pub data MemoryValue : Type 0 where
  floats : List Float → MemoryValue
  integers : List ℕ → MemoryValue

pub record MemoryInitValue : Type 0 where
  pub address : List ℕ
  pub value : MemoryValue

-- The register of word `address` of channel `i`.
unfoldable pub channel_register : ℕ → ℕ → ℕ → ℕ
channel_register base_address address i =
    u64 (base_address + u32 ((bit_and address 0xFF + u32 (i * 2 ^ 8)) * 4))

abbrev first : List ℕ → Exec DeployerBase ℕ
first [] = raise fault
first (a ∷ _) = pure a

-- The loop over the channels, from channel `i` on.
unfoldable pub write_channels : ℕ → List ℕ → ℕ → List ℕ → Exec DeployerBase (Unit {0})
write_channels base_address address i [] = pure tt
write_channels base_address address i (v ∷ vect) = do
  a ← first address
  write_register (channel_register base_address a i) v
  write_channels base_address address (i + 1) vect

-- One value for each channel, or the first value at the address itself.
unfoldable pub write_values : ℕ → ℕ → List ℕ → List ℕ → Exec DeployerBase (Unit {0})
write_values base_address n_channels address vect =
    if length vect == n_channels
    then write_channels base_address address 0 vect
    else (do v ← first vect; a ← first address; write_register (u64 (base_address + u32 (a * 4))) v)

abbrev pub words : MemoryValue → List ℕ
words (floats vect) = map float_to_uint32 vect
words (integers vect) = vect

unfoldable pub setup_memories : ℕ → List MemoryInitValue → ℕ → Exec DeployerBase (Unit {0})
setup_memories base_address [] n_channels = pure tt
setup_memories base_address (init ∷ init_values) n_channels = do
  write_values base_address n_channels init.address (words init.value)
  setup_memories base_address init_values n_channels
