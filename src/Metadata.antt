-- ===== src/Metadata.antt =====
-- includes/hw_interface/channel_metadata.hpp: the 16 bits that describe a channel. Bits 0 to 3 hold
-- the size less 8, bit 4 the sign and bit 5 whether the samples are floats.
pub mod RoundTrip
use uscope_driver.Prelude.{
  ℕ, ◌+◌, ◌-◌, ◌*◌, ◌/◌, ◌%◌, ◌^◌, Bool, true, false, ◌==◌, if◌then◌else◌, not, bit_and, bit_or,
  u16, u32, u64,
}

pub record ChannelMetadata : Type 0 where
  pub raw_metadata : ℕ

unfoldable pub of_raw : ℕ → ChannelMetadata
of_raw r = record { raw_metadata = u16 r }

unfoldable pub get_size : ChannelMetadata → ℕ
get_size m = u16 (bit_and m.raw_metadata 0xf + 8)

unfoldable pub is_signed : ChannelMetadata → Bool
is_signed m = not (bit_and m.raw_metadata 0x10 / 2 ^ 4 == 0)

unfoldable pub is_float : ChannelMetadata → Bool
is_float m = not (bit_and m.raw_metadata 0x20 / 2 ^ 5 == 0)

-- `~0x10` as an `int` keeps all other bits of the 16.
unfoldable pub set_signed : Bool → ChannelMetadata → ChannelMetadata
set_signed s m =
    if s
    then record { raw_metadata = bit_or m.raw_metadata 0x10 }
    else record { raw_metadata = bit_and m.raw_metadata 0xffef }

-- `s-8` is an `int`: below 8 it is negative, and its low bits are those modulo a power of two.
unfoldable pub set_size : ℕ → ChannelMetadata → ChannelMetadata
set_size s m = record {
  raw_metadata = bit_or (bit_and m.raw_metadata 0xfff0) (bit_and (u32 (s + 2 ^ 32 - 8)) 0x000f);
}

unfoldable pub set_float : Bool → ChannelMetadata → ChannelMetadata
set_float f m =
    if f
    then record { raw_metadata = bit_or m.raw_metadata 0x20 }
    else record { raw_metadata = bit_and m.raw_metadata 0xffdf }

unfoldable pub get_high_side_field : ℕ → ChannelMetadata → ℕ
get_high_side_field dest m =
    let metadata = u32 (m.raw_metadata * 2 ^ 16) in
    let combined_hsf = bit_or metadata dest in u64 (combined_hsf * 2 ^ 32)
