-- ===== src/Metadata/RoundTrip.antt =====
-- The three fields of the channel metadata are independent.
use uscope_driver.Prelude.{
  ℕ, ◌+◌, ◌-◌, ◌*◌, ◌/◌, ◌%◌, ◌^◌, ◌<◌, ◌≡◌, ◌∙◌, Bool, true, false, not, ◌==◌, arith, bit_and,
  and-mask, and_halves, and-bit, or-bit, or_comm, or_of_disjoint, u32,
}
use uscope_driver.Metadata.{
  ChannelMetadata, get_size, is_signed, is_float, set_signed, set_size, set_float,
}

-- The fields of a description, as numbers.
pub get_size_lem : (m : ChannelMetadata) → get_size m ≡ m.raw_metadata % 16 + 8
unfolding get_size
get_size_lem m = omega (arith, and-mask 4 m.raw_metadata)

pub is_signed_lem : (m : ChannelMetadata) → is_signed m ≡ not (m.raw_metadata / 16 % 2 == 0)
unfolding is_signed
is_signed_lem m = ground (arith, and-bit 4 m.raw_metadata)

pub is_float_lem : (m : ChannelMetadata) → is_float m ≡ not (m.raw_metadata / 32 % 2 == 0)
unfolding is_float
is_float_lem m = ground (arith, and-bit 5 m.raw_metadata)

pub ruleset fields = (get_size_lem, is_signed_lem, is_float_lem)

-- The masks that clear a field of a 16-bit word.
clear_sign : (x : ℕ) → x < 2 ^ 16 → bit_and x 0xffef ≡ x - x / 16 % 2 * 16
clear_sign x h = omega (
  arith,
  and_halves x 0xffef,
  and_halves (x / 2) 0x7ff7,
  and_halves (x / 2 / 2) 0x3ffb,
  and_halves (x / 2 / 2 / 2) 0x1ffd,
  and_halves (x / 2 / 2 / 2 / 2) 0xffe,
  and-mask 11 (x / 2 / 2 / 2 / 2 / 2),
)

clear_float : (x : ℕ) → x < 2 ^ 16 → bit_and x 0xffdf ≡ x - x / 32 % 2 * 32
clear_float x h = omega (
  arith,
  and_halves x 0xffdf,
  and_halves (x / 2) 0x7fef,
  and_halves (x / 2 / 2) 0x3ff7,
  and_halves (x / 2 / 2 / 2) 0x1ffb,
  and_halves (x / 2 / 2 / 2 / 2) 0xffd,
  and_halves (x / 2 / 2 / 2 / 2 / 2) 0x7fe,
  and-mask 10 (x / 2 / 2 / 2 / 2 / 2 / 2),
)

clear_size : (x : ℕ) → x < 2 ^ 16 → bit_and x 0xfff0 ≡ x / 16 * 2 ^ 4
clear_size x h = omega (
  arith,
  and_halves x 0xfff0,
  and_halves (x / 2) 0x7ff8,
  and_halves (x / 2 / 2) 0x3ffc,
  and_halves (x / 2 / 2 / 2) 0x1ffe,
  and-mask 12 (x / 2 / 2 / 2 / 2),
)

-- The three fields read back as given, from a word of 16 bits.
abbrev pub Reads : ChannelMetadata → ℕ → Bool → Bool → Type 0
Reads m size signed float =
    (get_size m ≡ size) × (is_signed m ≡ signed) × (is_float m ≡ float) × (m.raw_metadata < 2 ^ 16)

raw-set_size :
    (s : ℕ) (m : ChannelMetadata)
    → m.raw_metadata < 2 ^ 16
    → (set_size s m).raw_metadata ≡ (s + 2 ^ 32 - 8) % 16 + m.raw_metadata / 16 * 16
unfolding set_size
raw-set_size s m h =
    let t = (s + 2 ^ 32 - 8) % 16 in
    let low : bit_and (u32 (s + 2 ^ 32 - 8)) 15 ≡ t =
      omega (arith, and-mask 4 (u32 (s + 2 ^ 32 - 8))) in
    rw (clear_size m.raw_metadata h, low)
      (or_comm (m.raw_metadata / 16 * 2 ^ 4) t
        ∙ or_of_disjoint 4 t (m.raw_metadata / 16) (omega arith))

-- On a word of 16 bits `set_size` gives the size a value between 8 and 23, which is the requested
-- size or differs from it by a multiple of 16, and keeps the sign and the type.
pub set_size-Reads :
    (s : ℕ) (m : ChannelMetadata)
    → m.raw_metadata < 2 ^ 16
    → s < 2 ^ 16
    → Reads (set_size s m) ((s + 8) % 16 + 8) (is_signed m) (is_float m)
set_size-Reads s m h b = simp fields (ground (arith, raw-set_size s m h))

-- On a word of 16 bits `set_signed` sets the sign and keeps the size and the type.
pub set_signed-Reads :
    (s : Bool) (m : ChannelMetadata)
    → m.raw_metadata < 2 ^ 16
    → Reads (set_signed s m) (get_size m) s (is_float m)
unfolding set_signed
set_signed-Reads true m h = simp fields (ground (arith, or-bit 4 m.raw_metadata))
set_signed-Reads false m h = simp fields (ground (arith, clear_sign m.raw_metadata h))

-- On a word of 16 bits `set_float` sets the type and keeps the size and the sign.
pub set_float-Reads :
    (f : Bool) (m : ChannelMetadata)
    → m.raw_metadata < 2 ^ 16
    → Reads (set_float f m) (get_size m) (is_signed m) f
unfolding set_float
set_float-Reads true m h = simp fields (ground (arith, or-bit 5 m.raw_metadata))
set_float-Reads false m h = simp fields (ground (arith, clear_float m.raw_metadata h))
