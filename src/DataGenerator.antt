-- ===== src/DataGenerator.antt =====
-- src/emulated_data_generator.cpp and includes/emulated_data_generator.hpp: samples for the scope
-- from a file, cut into buffers that are given out in turn, or made up. The numbers that are made up
-- and the content of the file are arguments.
pub mod Replay
use uscope_driver.Prelude.{
  ℕ, zero, suc, ◌+◌, ◌-◌, ◌*◌, ◌/◌, ◌%◌, ◌^◌, Bool, true, false, not, List, [], ◌∷◌, ◌++◌, Option,
  none, some, ◌==◌, if◌then◌else◌, leb, length, get_elem?, take, drop, u64,
}
use uscope_driver.Exec.{
  Result, Exec, ok, err, fault, process_exit, pure, raise, lift, modify, gets, choose, ◌>>=◌, ◌>>◌,
}
use uscope_driver.Floats.{Float, FloatingPoint}

abbrev pub n_channels : ℕ
n_channels = 7

-- The buffers of each channel, by its number.
abbrev pub Chunks : Type 0
Chunks = ℕ → List (List Float)

pub record EmulatedDataGenerator : Type 0 where
  pub chunks : Chunks
  pub chunk_counter : ℕ
  pub external_emulator_data : Bool
  pub buffer_size : ℕ

unfoldable pub make_generator : ℕ → EmulatedDataGenerator
make_generator size = record {
  chunks = λ i. [];
  chunk_counter = 0;
  external_emulator_data = false;
  buffer_size = size;
}

abbrev pub chunk_at : ℕ → ℕ → List Float → List Float
chunk_at buffer_size j raw = take buffer_size (drop (j * buffer_size) raw)

-- The loop over the buffers of a channel, from buffer `j` on.
unfoldable pub cut_from : ℕ → ℕ → ℕ → List Float → List (List Float)
cut_from buffer_size zero j raw = []
cut_from buffer_size (suc left) j raw =
    chunk_at buffer_size j raw ∷ cut_from buffer_size left (j + 1) raw

abbrev pub append_to : ℕ → List (List Float) → Chunks → Chunks
append_to i more chunks c = if c == i then chunks c ++ more else chunks c

-- A size that no channel can be cut by ends the process, and one of zero divides by zero.
unfoldable pub add_channel : ℕ → List Float → Exec EmulatedDataGenerator (Unit {0})
add_channel i raw g =
    if g.buffer_size == 0
    then (err fault, g)
    else if not (length raw % g.buffer_size == 0)
    then (err process_exit, g)
    else (
      ok tt,
      record g {
        chunks = append_to i (cut_from g.buffer_size (length raw / g.buffer_size) 0 raw) g.chunks;
      },
    )

-- The loop over the channels, from channel `i` on.
unfoldable pub add_channels : ℕ → ℕ → (ℕ → List Float) → Exec EmulatedDataGenerator (Unit {0})
add_channels zero i raw_data = pure tt
add_channels (suc left) i raw_data = do
  add_channel i (raw_data i)
  add_channels left (i + 1) raw_data

-- The array that the file holds, or the exception that its reading ends with.
unfoldable pub set_data_file : Result (ℕ → List Float) → Exec EmulatedDataGenerator (Unit {0})
set_data_file file = do
  raw_data ← lift file
  add_channels n_channels 0 raw_data
  modify (λ g. record g { external_emulator_data = true })

abbrev pub required : {A : Type 0} → Option A → Result A
required none = err fault
required (some a) = ok a

-- The current buffer of each channel, from channel `i` on.
unfoldable pub select_from : ℕ → ℕ → Exec EmulatedDataGenerator (List (List Float))
select_from zero i = pure []
select_from (suc left) i = do
  vec ← choose (λ g. lift (required (get_elem? (g.chunks i) g.chunk_counter)))
  rest ← select_from left (i + 1)
  pure (vec ∷ rest)

-- The counter is an `int`: counting past its largest value is undefined.
unfoldable pub next_chunk : Exec EmulatedDataGenerator (Unit {0})
next_chunk g =
    if g.chunk_counter == u64 (length (g.chunks 0) + 2 ^ 64 - 1)
    then (ok tt, record g { chunk_counter = 0 })
    else if leb (2 ^ 31 - 1) g.chunk_counter
    then (err fault, g)
    else (ok tt, record g { chunk_counter = g.chunk_counter + 1 })

-- A channel that is made up: `sample` gives each sample before the scaling.
abbrev pub make_up : FloatingPoint → (ℕ → Float) → Float → ℕ → ℕ → List Float
make_up fp sample factor zero j = []
make_up fp sample factor (suc left) j =
    fp.mul_float (sample j) factor ∷ make_up fp sample factor left (j + 1)

unfoldable pub synthesize :
    FloatingPoint → (ℕ → ℕ → Float) → List Float → ℕ → ℕ → ℕ → Result (List (List Float))
synthesize fp sample scaling_factors size zero i = ok []
synthesize fp sample scaling_factors size (suc left) i =
    let rest = synthesize fp sample scaling_factors size left (i + 1) in
    elim (get_elem? scaling_factors i) [
      | none ↦ err fault
      | some factor ↦ elim rest [
        | ok channels ↦ ok (make_up fp (sample i) factor size 0 ∷ channels)
        | err e ↦ err e
      ]
    ]

-- With a size of zero the loop over the times does not end in the range of its counter.
unfoldable pub get_data :
    FloatingPoint → (ℕ → ℕ → Float) → List Float → Exec EmulatedDataGenerator (List (List Float))
get_data fp sample scaling_factors g =
    if g.external_emulator_data
    then (do selected_data ← select_from n_channels 0; next_chunk; pure selected_data) g
    else if g.buffer_size == 0
    then (err fault, g)
    else (synthesize fp sample scaling_factors g.buffer_size n_channels 0, g)
