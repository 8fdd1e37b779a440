-- ===== src/Deployer/Outputs/Entries.antt =====
-- What the entries of an output DMA contain, and where they are written.
use mathlib.Core.List.{append_assoc}
use mathlib.Core.Path.{ap₂}
use uscope_driver.Prelude.{
  ℕ, ◌+◌, ◌*◌, ◌/◌, ◌%◌, ◌^◌, ◌-◌, ◌==◌, u8, u64, bit_or, refl, if◌then◌else◌, ◌≤◌, ◌<◌, ◌≡◌, ap,
  ◌∙◌, inl, inr, String, List, [], ◌∷◌, none, arith, ltb, Bool-cases, and-mask, or_of_disjoint,
  or_comm, u32,
}
use uscope_driver.Prelude.Dict.{insert, nat_eq, string_eq}
use uscope_driver.Exec.{Result, ok, err, runtime_error}
use uscope_driver.Decimal.{concat, to_string}
use uscope_driver.Bus.{BusOp}
use uscope_driver.Bus.Memory.{write_op}
use uscope_driver.BusMap.{InterconnectSlot}
use uscope_driver.Deployer.{DeployerBase, get_metadata_value}
use uscope_driver.Deployer.Writes.{logged, IsDry, write_register_dry}
use uscope_driver.Deployer.Outputs.{
  check_entry, portion, entry_metadata, signal_name, bus_dest, find_iv, entry_mapping,
  mapping_address, metadata_address, setup_output_entry,
}

-- The fields of a slot fit the fields of an entry.
pub record Fits (e : InterconnectSlot) : Type 0 where
  pub source_address : e.source_io_address ≤ 0xfff
  pub bus_address : e.destination_bus_address ≤ 0xfff
  pub source_channel : e.source_channel ≤ 0xF
  pub destination_channel : e.destination_channel ≤ 0xF

portion_lem :
    (address channel : ℕ) → portion address channel ≡ address % 2 ^ 12 + channel % 2 ^ 4 * 2 ^ 12
unfolding portion
portion_lem address channel =
    rw (and-mask 12 address, and-mask 4 channel)
      (rw (or_of_disjoint 12 (address % 2 ^ 12) (channel % 2 ^ 4) (omega arith)) (omega arith))

entry_mapping_lem :
    (e : InterconnectSlot)
    → entry_mapping e
      ≡ u32 (
          portion e.source_io_address e.source_channel
          + portion e.destination_bus_address e.destination_channel * 2 ^ 16)
unfolding entry_mapping
entry_mapping_lem e =
    let low = portion e.source_io_address e.source_channel in
    let high = portion e.destination_bus_address e.destination_channel in
    ap u32 (
      or_comm (high * 2 ^ 16) low
      ∙ or_of_disjoint 16 low high
          (omega (arith, portion_lem e.source_io_address e.source_channel)))

-- The word of an entry that fits holds its four fields side by side, so they can be read back.
pub entry_mapping_fields :
    (e : InterconnectSlot)
    → Fits e
    → (entry_mapping e % 2 ^ 12 ≡ e.source_io_address)
      × (entry_mapping e / 2 ^ 12 % 2 ^ 4 ≡ e.source_channel)
      × (entry_mapping e / 2 ^ 16 % 2 ^ 12 ≡ e.destination_bus_address)
      × (entry_mapping e / 2 ^ 28 ≡ e.destination_channel)
      × (entry_mapping e < 2 ^ 32)
entry_mapping_fields e fits = omega (
  arith,
  entry_mapping_lem e,
  portion_lem e.source_io_address e.source_channel,
  portion_lem e.destination_bus_address e.destination_channel,
)

-- An entry with a field that does not fit is refused with an exception, and the deployer and the
-- hardware are left as they were.
pub setup_output_entry_refused :
    (e : InterconnectSlot) (dma_address io n_channels : ℕ) (d : DeployerBase)
    → ¬ Fits e
    → (message : String) × (setup_output_entry e dma_address io n_channels d
        ≡ (err (runtime_error message), d))
unfolding setup_output_entry check_entry
setup_output_entry_refused e dma_address io n_channels d misfit =
    elim (Bool-cases (ltb 0xfff e.source_io_address)) [
      | inl a ↦ ("The maximum source address in an interconnect is 0xFFF", ground arith)
      | inr a' ↦ elim (Bool-cases (ltb 0xfff e.destination_bus_address)) [
        | inl b ↦ ("The maximum destination address in an interconnect is 0xFFF", ground arith)
        | inr b' ↦ elim (Bool-cases (ltb 0xF e.source_channel)) [
          | inl c ↦ ("The maximum number source of channels in an interconnect is 16", ground arith)
          | inr c' ↦ (
            "The maximum number destination of channels in an interconnect is 16",
            ground (arith, misfit),
          )
        ]
      ]
    ]

-- The word that routes an entry: its four fields side by side.
abbrev pub entry_word : InterconnectSlot → ℕ
entry_word e =
    e.source_io_address
    + e.source_channel * 2 ^ 12
    + e.destination_bus_address * 2 ^ 16
    + e.destination_channel * 2 ^ 28

-- The word that describes the signal of an entry: the width less 8, bit 4 for a sign and bit 5 for a
-- float, which has 32 bits and a sign.
abbrev pub description : InterconnectSlot → ℕ
description e =
    if e.metadata.is_float
    then 0x38
    else if e.metadata.is_signed
    then bit_or (u32 (u8 e.metadata.width + 2 ^ 32 - 8)) 0x10
    else u32 (u8 e.metadata.width + 2 ^ 32 - 8)

-- The two words of an entry, each at its own register, of which there is one for each entry.
abbrev pub entry_log : InterconnectSlot → ℕ → ℕ → List BusOp
entry_log e dma_address io =
    write_op (u64 (dma_address + 12 + u32 (io * 4)) ∷ []) (entry_word e)
    ∷ write_op (u64 (dma_address + 76 + u32 (io * 4)) ∷ []) (u32 (description e))
    ∷ []

-- The deployer with the label of a slot: the names of the core and of the signal, and the channel
-- where there are several, at the place where the signal goes.
abbrev pub labelled : InterconnectSlot → ℕ → DeployerBase → DeployerBase
labelled e n_channels d = record d {
  bus_labels =
      insert (e.destination_bus_address + e.destination_channel * 2 ^ 16)
        (if n_channels == 1
          then concat (e.source_id ∷ "." ∷ e.source_name ∷ [])
          else concat
              (e.source_id ∷ "." ∷ e.source_name ∷ "[" ∷ to_string e.source_channel ∷ "]" ∷ []))
        d.bus_labels;
}

entry_word_lem : (e : InterconnectSlot) → Fits e → u32 (entry_mapping e) ≡ entry_word e
entry_word_lem e fits = omega (
  arith,
  entry_mapping_lem e,
  portion_lem e.source_io_address e.source_channel,
  portion_lem e.destination_bus_address e.destination_channel,
  fits.source_address,
  fits.bus_address,
  fits.source_channel,
  fits.destination_channel,
)

bus_dest_lem :
    (e : InterconnectSlot)
    → Fits e
    → bus_dest e ≡ e.destination_bus_address + e.destination_channel * 2 ^ 16
unfolding bus_dest
bus_dest_lem e fits =
    let address : e.destination_bus_address % 2 ^ 12 ≡ e.destination_bus_address =
      omega (arith, fits.bus_address) in
    let channel : e.destination_channel % 2 ^ 4 ≡ e.destination_channel =
      omega (arith, fits.destination_channel) in
    rw (and-mask 12 e.destination_bus_address, and-mask 4 e.destination_channel, address, channel)
      (or_of_disjoint 16 e.destination_bus_address e.destination_channel
        (omega (arith, fits.bus_address)))

entry_metadata_lem : (e : InterconnectSlot) → entry_metadata e ≡ description e
unfolding entry_metadata get_metadata_value
entry_metadata_lem e = elim (Bool-cases e.metadata.is_float) [
  | inl float ↦ rw float refl
  | inr integer ↦ rw integer refl
]

-- The words of an entry and its label, in the terms of the program.
abbrev written : InterconnectSlot → ℕ → ℕ → List BusOp
written e dma_address io =
    write_op (mapping_address dma_address io ∷ []) (u32 (entry_mapping e))
    ∷ write_op (metadata_address dma_address io ∷ []) (u32 (entry_metadata e))
    ∷ []

abbrev with_label : InterconnectSlot → ℕ → DeployerBase → DeployerBase
with_label e n_channels d = record d {
  bus_labels = insert (bus_dest e) (signal_name e n_channels) d.bus_labels;
}

written_lem :
    (e : InterconnectSlot) (dma_address io : ℕ)
    → Fits e
    → written e dma_address io ≡ entry_log e dma_address io
unfolding mapping_address metadata_address
written_lem e dma_address io fits =
    ap₂
      (λ (routing description : ℕ).
        write_op (u64 (dma_address + 12 + u32 (io * 4)) ∷ []) routing
        ∷ write_op (u64 (dma_address + 76 + u32 (io * 4)) ∷ []) (u32 description)
        ∷ [])
      (entry_word_lem e fits) (entry_metadata_lem e)

with_label_lem :
    (e : InterconnectSlot) (n_channels : ℕ) (d : DeployerBase)
    → Fits e
    → with_label e n_channels d ≡ labelled e n_channels d
unfolding signal_name
with_label_lem e n_channels d fits =
    ap
      (λ (place : ℕ). record d {
        bus_labels = insert place (signal_name e n_channels) d.bus_labels;
      })
      (bus_dest_lem e fits)

setup_output_entry-written :
    (e : InterconnectSlot) (dma_address io n_channels : ℕ) (d : DeployerBase)
    → IsDry d
    → Fits e
    → find_iv d e ≡ none
    → setup_output_entry e dma_address io n_channels d
      ≡ (ok tt, with_label e n_channels (logged d (written e dma_address io)))
unfolding setup_output_entry check_entry
setup_output_entry-written e dma_address io n_channels d dry fits plain =
    let word = write_op (mapping_address dma_address io ∷ []) (u32 (entry_mapping e)) in
    let d' = with_label e n_channels (logged d (word ∷ [])) in
    ground (
      arith,
      write_register_dry (mapping_address dma_address io) (entry_mapping e) d dry,
      write_register_dry (metadata_address dma_address io) (entry_metadata e) d' dry',
      append_assoc d.hw.operations (word ∷ [])
          (write_op (metadata_address dma_address io ∷ []) (u32 (entry_metadata e)) ∷ []),
    )
  where
    dry' : IsDry (
        with_label e n_channels
          (logged d (write_op (mapping_address dma_address io ∷ []) (u32 (entry_mapping e)) ∷ [])))
    dry' = record { loaded = dry.loaded; sink = dry.sink }

-- With the bridge loaded and in sink mode, an entry that fits and has no initial values is written
-- as two words, and its signal is labelled.
pub setup_output_entry_dry :
    (e : InterconnectSlot) (dma_address io n_channels : ℕ) (d : DeployerBase)
    → IsDry d
    → Fits e
    → find_iv d e ≡ none
    → setup_output_entry e dma_address io n_channels d
      ≡ (ok tt, labelled e n_channels (logged d (entry_log e dma_address io)))
setup_output_entry_dry e dma_address io n_channels d dry fits plain =
    setup_output_entry-written e dma_address io n_channels d dry fits plain
    ∙ ap {B = Result (Unit {0}) × DeployerBase} (λ g. (ok tt, g))
        (with_label_lem e n_channels (logged d (written e dma_address io)) fits
          ∙ ap (λ (ops : List BusOp). labelled e n_channels (logged d ops))
              (written_lem e dma_address io fits))
