-- ===== src/Deployer/Memories/Registers.antt =====
-- Which registers the initial state of a core is written to.
use uscope_driver.Prelude.{
  ℕ, ◌+◌, ◌*◌, ◌%◌, ◌^◌, ◌<◌, ◌≡◌, ◌≢◌, refl, List, [], ◌∷◌, ◌++◌, arith, ◌==◌, if◌then◌else◌,
  and-mask, u32, u64, length,
}
use uscope_driver.Bus.{BusOp}
use uscope_driver.Bus.Memory.{write_op}
use uscope_driver.Deployer.{write_register}
use uscope_driver.Deployer.Writes.{Logs, Logs-pure, Logs-write, Logs-then, Logs-if}
use uscope_driver.Deployer.Memories.{
  MemoryInitValue, words, channel_register, write_channels, write_values, setup_memories,
}

-- The register of a channel lies in the 1 KiB of the channel, at the low byte of the address.
channel_register_lem :
    (base address i : ℕ)
    → base < 2 ^ 63
    → i < 2 ^ 20
    → channel_register base address i ≡ base + address % 256 * 4 + i * 1024
unfolding channel_register
channel_register_lem base address i hb hi = omega (arith, and-mask 8 address)

-- Two words of two channels share a register only if they are the same word of the same channel,
-- for words below 256 and up to 2^20 channels.
pub channel_register_injective :
    (base a b i j : ℕ)
    → base < 2 ^ 63
    → a < 256
    → b < 256
    → i < 2 ^ 20
    → j < 2 ^ 20
    → channel_register base a i ≡ channel_register base b j
    → (a ≡ b) × (i ≡ j)
channel_register_injective base a b i j hb ha hb' hi hj e =
    omega (arith, channel_register_lem base a i hb hi, channel_register_lem base b j hb hj)

-- The entries of the log for one word, from channel `i` on.
abbrev pub channels_log : ℕ → ℕ → ℕ → List ℕ → List BusOp
channels_log base address i [] = []
channels_log base address i (v ∷ vect) =
    write_op (channel_register base address i ∷ []) (u32 v) ∷ channels_log base address (i + 1) vect

channels-Logs :
    (base address : ℕ) (more : List ℕ) (i : ℕ) (vect : List ℕ)
    → Logs (write_channels base (address ∷ more) i vect) (channels_log base address i vect)
unfolding write_channels
channels-Logs base address more i [] = Logs-pure
channels-Logs base address more i (v ∷ vect) =
    Logs-then (write_register (channel_register base address i) v)
      (write_channels base (address ∷ more) (i + 1) vect) _ _ (Logs-write _ v)
      (channels-Logs base address more (i + 1) vect)

-- What one initialisation writes: a word for each channel when there are as many values as
-- channels, and otherwise the first value at the address itself.
abbrev pub init_log : ℕ → ℕ → MemoryInitValue → List BusOp
init_log base n_channels init = elim init.address [
  | [] ↦ []
  | address ∷ _ ↦
      if length (words init.value) == n_channels
      then channels_log base address 0 (words init.value)
      else elim (words init.value) [
        | [] ↦ []
        | v ∷ _ ↦ write_op (u64 (base + u32 (address * 4)) ∷ []) (u32 v) ∷ []
      ]
]

abbrev pub inits_log : ℕ → ℕ → List MemoryInitValue → List BusOp
inits_log base n_channels [] = []
inits_log base n_channels (init ∷ inits) =
    init_log base n_channels init ++ inits_log base n_channels inits

-- Every initialisation has an address and a value.
abbrev pub AllFilled : List MemoryInitValue → Type 0
AllFilled [] = Unit
AllFilled (init ∷ inits) = (init.address ≢ [] × (words init.value ≢ [])) × AllFilled inits

values-Logs :
    (base n_channels : ℕ) (address vect : List ℕ) (init : MemoryInitValue)
    → init.address ≡ address
    → words init.value ≡ vect
    → address ≢ []
    → vect ≢ []
    → Logs (write_values base n_channels address vect) (init_log base n_channels init)
unfolding write_values
values-Logs base n_channels [] vect init ea ev na nv = absurd (na refl)
values-Logs base n_channels (address ∷ more) [] init ea ev na nv = absurd (nv refl)
values-Logs base n_channels (address ∷ more) (v ∷ vect) init ea ev na nv =
    rw (ea, ev)
      (Logs-if (length (v ∷ vect) == n_channels) (write_channels base (address ∷ more) 0 (v ∷ vect))
        (write_register (u64 (base + u32 (address * 4))) v) _ _
        (channels-Logs base address more 0 (v ∷ vect)) (Logs-write _ v))

-- With the bridge loaded and in sink mode, initialisations that have an address and a value
-- succeed, and write in order a word for each channel, or one word at the address.
pub setup_memories-Logs :
    (base n_channels : ℕ) (inits : List MemoryInitValue)
    → AllFilled inits
    → Logs (setup_memories base inits n_channels) (inits_log base n_channels inits)
unfolding setup_memories
setup_memories-Logs base n_channels [] h = Logs-pure
setup_memories-Logs base n_channels (init ∷ inits) h =
    Logs-then (write_values base n_channels init.address (words init.value))
      (setup_memories base inits n_channels) _ _
      (values-Logs base n_channels init.address (words init.value) init refl refl h.0.0 h.0.1)
      (setup_memories-Logs base n_channels inits h.1)
