-- ===== src/Scope/Samples.antt =====
-- What becomes of the captured samples.
use uscope_driver.Prelude.{
  ℕ, zero, suc, ◌+◌, ◌-◌, ◌/◌, ◌%◌, ◌^◌, ◌≤◌, ◌<◌, ◌≡◌, refl, sym, ap, ◌∙◌, inl, inr, true, false,
  List, [], ◌∷◌, ◌++◌, arith, ltb, ◌==◌, if◌then◌else◌, Bool-cases, bit_and, and-mask, and-field,
  u16, xor-top, get_elem?, get_elem?-lt, get_elem?_of_lt, get_elem?_past, ltb→lt, ltb→le, length,
  some,
}
use native.Mathlib.Nat.{pow-suc, one-le-pow, mod-mod}
use mathlib.Core.List.{append-nil, append_assoc}
use uscope_driver.Exec.{Result, ok, err, fault}
use uscope_driver.Floats.{Float, FloatingPoint}
use uscope_driver.Metadata.{of_raw}
use uscope_driver.Metadata.RoundTrip.{fields}
use uscope_driver.Scope.{
  ScopeManager, Buffers, push, scaled, get_channel, get_metadata, get_data, scale_data, sign_extend,
  shunt_from, shunt_data, n_channels,
}

pow_le : (j k : ℕ) → j ≤ k → 2 ^ j ≤ 2 ^ k
pow_le j zero h = let e : j ≡ 0 = omega arith in rw e (omega arith)
pow_le j (suc k) h = elim (Bool-cases (ltb k j)) [
  | inl last ↦ let e : j ≡ suc k = ground arith in rw e (omega arith)
  | inr before ↦ omega (arith, pow_le j k (ltb→le k j before), pow-suc 2 k)
]

-- For widths from 1 to 31 the low bits of a value are extended with the highest of them: the pattern
-- is that of the number itself, or of the number less a power of two when the highest bit is set.
pub sign_extend_lem :
    (value k : ℕ)
    → k < 31
    → let low = value % 2 ^ suc k in
      sign_extend value (suc k) ≡ (if ltb low (2 ^ k) then low else low + 2 ^ 32 - 2 ^ suc k)
unfolding sign_extend
sign_extend_lem value k h =
    let low = value % 2 ^ suc k in
    let masked : bit_and value (2 ^ suc k - 1) ≡ low = and-mask (suc k) value in
    let index : suc k - 1 ≡ k = omega arith in
    let fits : low < 2 ^ suc k = omega (arith, one-le-pow (suc k) 2) in
    let room : 2 ^ suc k ≤ 2 ^ 32 = pow_le (suc k) 32 (omega (arith, h)) in
    let (small, large) = xor-top k low fits in
    elim (Bool-cases (ltb low (2 ^ k))) [
      | inl below ↦
          rw (masked, index, below, small (ltb→lt low (2 ^ k) below))
            (omega (arith, fits, room, ltb→lt low (2 ^ k) below))
      | inr above ↦
          rw (masked, index, above, large (ltb→le low (2 ^ k) above))
            (omega (arith, fits, room, ltb→le low (2 ^ k) above, pow-suc 2 k))
    ]

-- The fields of a sample: the channel in 16 bits above the 32 of the data.
abbrev pub channel_of : ℕ → ℕ
channel_of raw = raw / 2 ^ 32 % 2 ^ 16

get_channel_lem : (raw : ℕ) → get_channel raw ≡ channel_of raw
unfolding get_channel
get_channel_lem raw = and-field 32 raw 0xffff ∙ and-mask 16 (raw / 2 ^ 32)

-- The value of a sample. The 16 highest bits describe it: four bits hold the size less 8, the next
-- one the sign and the one after it whether the data are a float, which is not scaled.
abbrev pub value_of : FloatingPoint → (ℕ → Float) → Float → ℕ → Float
value_of fp int32_to_float factor raw =
    let word = raw % 2 ^ 32 in
    let metadata = raw / 2 ^ 48 % 2 ^ 16 in
    let size = metadata % 16 + 8 in
    let low = word % 2 ^ size in
    let number =
      if metadata / 16 % 2 == 0
      then low
      else if ltb low (2 ^ (metadata % 16 + 7))
      then low
      else low + 2 ^ 32 - 2 ^ size in
    if metadata / 32 % 2 == 0 then fp.mul_float factor (int32_to_float number) else word

metadata_lem :
    (raw : ℕ) → of_raw (get_metadata raw) ≡ record { raw_metadata = raw / 2 ^ 48 % 2 ^ 16 }
unfolding of_raw get_metadata
metadata_lem raw =
    ap (λ (t : ℕ). record { raw_metadata = t })
      (ap u16 (and-field 48 raw 0xffff ∙ and-mask 16 (raw / 2 ^ 48)) ∙ omega arith)

data_lem : (raw : ℕ) → get_data raw ≡ raw % 2 ^ 32
unfolding get_data
data_lem raw = and-mask 32 raw

number_lem :
    (word j : ℕ)
    → j < 16
    → sign_extend (bit_and word (2 ^ (j + 8) - 1)) (j + 8) ≡ (
        let low = word % 2 ^ (j + 8) in
        if ltb low (2 ^ (j + 7)) then low else low + 2 ^ 32 - 2 ^ (j + 8))
number_lem word j h =
    let e : j + 8 ≡ suc (j + 7) = omega arith in
    let low : word % 2 ^ suc (j + 7) % 2 ^ suc (j + 7) ≡ word % 2 ^ suc (j + 7) =
      mod-mod word (2 ^ suc (j + 7)) in
    rw (e, and-mask (suc (j + 7)) word)
      (sign_extend_lem (word % 2 ^ suc (j + 7)) (j + 7) (omega (arith, h)) ∙ rw low refl)

scaled_lem :
    (fp : FloatingPoint) (f : ℕ → Float) (factor : Float) (raw : ℕ)
    → scaled fp f factor raw ≡ value_of fp f factor raw
unfolding scale_data
scaled_lem fp f factor raw =
    let m = raw / 2 ^ 48 % 2 ^ 16 in
    let word = raw % 2 ^ 32 in
    rw (metadata_lem raw, data_lem raw)
      (simp fields (elim (Bool-cases (m / 32 % 2 == 0)) [
        | inr float ↦ rw float refl
        | inl scaled ↦ elim (Bool-cases (m / 16 % 2 == 0)) [
          | inl plain ↦ rw (scaled, plain, and-mask (m % 16 + 8) word) refl
          | inr signed ↦ rw (scaled, signed, number_lem word (m % 16) (omega arith)) refl
        ]
      ]))

-- The samples of a channel, each with its value, in the order of the buffer.
abbrev pub samples_of : FloatingPoint → (ℕ → Float) → Float → ℕ → List ℕ → List Float
samples_of fp int32_to_float factor channel [] = []
samples_of fp int32_to_float factor channel (raw_sample ∷ buffer_in) =
    if channel == channel_of raw_sample
    then value_of fp int32_to_float factor raw_sample
      ∷ samples_of fp int32_to_float factor channel buffer_in
    else samples_of fp int32_to_float factor channel buffer_in

-- The samples of a channel in the terms of the program.
abbrev sorted_in : FloatingPoint → (ℕ → Float) → Float → ℕ → List ℕ → List Float
sorted_in fp int32_to_float factor channel [] = []
sorted_in fp int32_to_float factor channel (raw_sample ∷ buffer_in) =
    if channel == get_channel raw_sample
    then scaled fp int32_to_float factor raw_sample
      ∷ sorted_in fp int32_to_float factor channel buffer_in
    else sorted_in fp int32_to_float factor channel buffer_in

sorted_in_lem :
    (fp : FloatingPoint) (f : ℕ → Float) (factor : Float) (channel : ℕ) (buffer_in : List ℕ)
    → sorted_in fp f factor channel buffer_in ≡ samples_of fp f factor channel buffer_in
sorted_in_lem fp f factor channel [] = refl
sorted_in_lem fp f factor channel (raw ∷ buffer_in) =
    let rest = sorted_in_lem fp f factor channel buffer_in in
    rw (get_channel_lem raw, scaled_lem fp f factor raw, rest) refl

-- No sample has the given channel.
abbrev pub IsFree : ℕ → List ℕ → Type 0
IsFree channel [] = Unit
IsFree channel (raw_sample ∷ buffer_in) =
    ((channel_of raw_sample == channel) ≡ false) × IsFree channel buffer_in

shunt_from_lem :
    (fp : FloatingPoint) (int32_to_float : ℕ → Float) (factors : List Float) (buffer_in : List ℕ)
    (buffers : Buffers) (c : ℕ) (factor : Float)
    → length factors ≡ n_channels
    → IsFree n_channels buffer_in
    → get_elem? factors c ≡ some factor
    → (result : Buffers) × (shunt_from fp int32_to_float factors buffer_in buffers ≡ ok result)
      × (result c ≡ buffers c ++ sorted_in fp int32_to_float factor c buffer_in)
unfolding shunt_from
shunt_from_lem fp f factors [] buffers c factor six free at_c =
    (buffers, refl, sym (append-nil (buffers c)))
shunt_from_lem fp f factors (raw ∷ buffer_in) buffers c factor six (other, free) at_c =
    let differs : (get_channel raw == n_channels) ≡ false = rw (get_channel_lem raw) other in
    elim (Bool-cases (ltb n_channels (get_channel raw))) [
      | inl outside ↦
          let (result, done, at) =
            shunt_from_lem fp f factors buffer_in buffers c factor six free at_c in
          let lt = get_elem?-lt factors c factor at_c in
          let outer : (c == get_channel raw) ≡ false = ground arith in
          (result, ground arith, at ∙ rw outer refl)
      | inr inside ↦
          let channel = get_channel raw in
          let (own, own_at) = get_elem?_of_lt factors channel (ground arith) in
          let known : ltb channel n_channels ≡ true = ground arith in
          let pushed : (own : Float)
              → get_elem? factors channel ≡ some own
              → push channel (scaled fp f own raw) buffers c ++ sorted_in fp f factor c buffer_in
                ≡ buffers c ++ sorted_in fp f factor c (raw ∷ buffer_in) =
            λ own own_at. elim (Bool-cases (c == channel)) [
              | inl same ↦
                  let e : own ≡ factor = ground arith in
                  rw (same, e)
                    (append_assoc (buffers c) (scaled fp f factor raw ∷ [])
                      (sorted_in fp f factor c buffer_in))
              | inr other ↦ rw other refl
            ] in
          let next = push channel (scaled fp f own raw) buffers in
          let (result, done, at) =
            shunt_from_lem fp f factors buffer_in next c factor six free at_c in
          (result, rw (inside, own_at, known) done, at ∙ pushed own own_at)
    ]

-- With six scaling factors and no sample of the channel numbered six, the samples are sorted into
-- the channels: each of the channels with a factor gets the values of its own samples, scaled by
-- that factor where they are no floats, in the order of the buffer, and the manager stays as it
-- was.
pub shunt_data_lem :
    (fp : FloatingPoint) (int32_to_float : ℕ → Float) (s : ScopeManager) (buffer_in : List ℕ)
    (c : ℕ) (factor : Float)
    → length s.scaling_factors ≡ n_channels
    → IsFree n_channels buffer_in
    → get_elem? s.scaling_factors c ≡ some factor
    → (result : Buffers) × (shunt_data fp int32_to_float buffer_in s ≡ (ok result, s))
      × (result c ≡ samples_of fp int32_to_float factor c buffer_in)
unfolding shunt_data
shunt_data_lem fp f s buffer_in c factor six free at_c =
    let (result, done, at) =
      shunt_from_lem fp f s.scaling_factors buffer_in (λ c. []) c factor six free at_c in
    (
      result,
      ap {B = Result Buffers × ScopeManager} (λ r. (r, s)) done,
      at ∙ sorted_in_lem fp f factor c buffer_in,
    )

-- With six scaling factors, a first sample of the channel numbered six reads a factor past the end.
pub shunt_data_junk :
    (fp : FloatingPoint) (int32_to_float : ℕ → Float) (s : ScopeManager) (raw_sample : ℕ)
    (buffer_in : List ℕ)
    → length s.scaling_factors ≡ n_channels
    → get_channel raw_sample ≡ 6
    → shunt_data fp int32_to_float (raw_sample ∷ buffer_in) s ≡ (err fault, s)
unfolding shunt_data shunt_from
shunt_data_junk fp f s raw_sample buffer_in six junk =
    rw (junk, get_elem?_past s.scaling_factors 6 (omega (arith, six))) refl
