-- ===== src/Deployer/Outputs.antt =====
-- src/deployment/deployer_base.cpp: the entries of a core's output DMA.
pub mod Entries
pub mod Dma
use uscope_driver.Prelude.{
  ℕ, zero, suc, ◌+◌, ◌*◌, ◌^◌, String, Bool, true, false, List, [], ◌∷◌, Option, none, some, ltb,
  ◌==◌, if◌then◌else◌, bit_and, bit_or, u16, u32, u64, str_eq, get_elem?,
}
use uscope_driver.Prelude.Dict.{lookup, insert, nat_eq, string_eq}
use uscope_driver.Decimal.{concat, to_string}
use uscope_driver.Exec.{
  Exec, ok, err, runtime_error, fault, pure, raise, modify, choose, ◌>>=◌, ◌>>◌,
}
use uscope_driver.BusMap.{InterconnectSlot}
use uscope_driver.Deployer.{DeployerBase, write_register, get_metadata_value}

-- The checks of an entry, in the order of the source.
unfoldable pub check_entry : InterconnectSlot → Exec DeployerBase (Unit {0})
check_entry e =
    if ltb 0xfff e.source_io_address
    then raise (runtime_error "The maximum source address in an interconnect is 0xFFF")
    else if ltb 0xfff e.destination_bus_address
    then raise (runtime_error "The maximum destination address in an interconnect is 0xFFF")
    else if ltb 0xF e.source_channel
    then raise (runtime_error "The maximum number source of channels in an interconnect is 16")
    else if ltb 0xF e.destination_channel
    then raise (runtime_error "The maximum number destination of channels in an interconnect is 16")
    else pure tt

-- An address of 12 bits under a channel of 4.
unfoldable pub portion : ℕ → ℕ → ℕ
portion address channel = u16 (bit_or (bit_and address 0xFFF) (bit_and channel 0xF * 2 ^ 12))

unfoldable pub entry_mapping : InterconnectSlot → ℕ
unfolding portion
entry_mapping e =
    let source_portion = portion e.source_io_address e.source_channel in
    let destination_portion = portion e.destination_bus_address e.destination_channel in
    u32 (bit_or (destination_portion * 2 ^ 16) source_portion)

unfoldable pub mapping_address : ℕ → ℕ → ℕ
mapping_address dma_address io_progressive = u64 (dma_address + 3 * 4 + u32 (io_progressive * 4))

unfoldable pub metadata_address : ℕ → ℕ → ℕ
metadata_address dma_address io_progressive =
    let n_dma_channels : ℕ = 16 in
    u64 (dma_address + 4 * (n_dma_channels + 3) + u32 (io_progressive * 4))

unfoldable pub bus_dest : InterconnectSlot → ℕ
bus_dest e =
    bit_or (bit_and e.destination_bus_address 0xFFF) (bit_and e.destination_channel 0xF * 2 ^ 16)

unfoldable pub signal_name : InterconnectSlot → ℕ → String
signal_name e n_channels =
    if n_channels == 1
    then concat (e.source_id ∷ "." ∷ e.source_name ∷ [])
    else concat (e.source_id ∷ "." ∷ e.source_name ∷ "[" ∷ to_string e.source_channel ∷ "]" ∷ [])

-- The initial values of a signal, if there are any.
abbrev pub find_iv : DeployerBase → InterconnectSlot → Option (List ℕ)
find_iv d e = elim (lookup e.source_id d.ivs) [
  | none ↦ none
  | some of_core ↦ lookup e.source_name of_core
]

abbrev pub write_iv : InterconnectSlot → ℕ → ℕ → Option (List ℕ) → Exec DeployerBase (Unit {0})
write_iv e dma_address io_progressive none = pure tt
write_iv e dma_address io_progressive (some iv) = do
  write_register (u64 (dma_address + 8)) io_progressive
  elim (get_elem? iv e.source_channel) [
    | none ↦ raise fault
    | some value ↦ write_register (u64 (dma_address + 4)) value
  ]

unfoldable pub entry_metadata : InterconnectSlot → ℕ
unfolding get_metadata_value
entry_metadata e =
    if e.metadata.is_float
    then get_metadata_value 32 true true
    else get_metadata_value e.metadata.width e.metadata.is_signed false

unfoldable pub setup_output_entry : InterconnectSlot → ℕ → ℕ → ℕ → Exec DeployerBase (Unit {0})
setup_output_entry e dma_address io_progressive n_channels = do
  check_entry e
  write_register (mapping_address dma_address io_progressive) (entry_mapping e)
  modify
      (λ d. record d { bus_labels = insert (bus_dest e) (signal_name e n_channels) d.bus_labels })
  choose (λ d. write_iv e dma_address io_progressive (find_iv d e))
  write_register (metadata_address dma_address io_progressive) (entry_metadata e)

-- The loop of `setup_output_dma`; it returns the number of entries.
unfoldable pub setup_entries : List InterconnectSlot → ℕ → String → ℕ → ℕ → Exec DeployerBase ℕ
setup_entries [] address core_name n_channels current_io = pure current_io
setup_entries (i ∷ slots) address core_name n_channels current_io =
    let skip = setup_entries slots address core_name n_channels current_io in
    let next = setup_entries slots address core_name n_channels (current_io + 1) in
    if str_eq i.source_id core_name
    then setup_output_entry i address current_io n_channels >> next
    else skip

unfoldable pub setup_output_dma : ℕ → String → ℕ → Exec DeployerBase ℕ
setup_output_dma address core_name n_channels = do
  current_io ← choose (λ d. setup_entries d.bus_map address core_name n_channels 0)
  write_register address current_io
  pure (u16 current_io)
