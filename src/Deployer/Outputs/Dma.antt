-- ===== src/Deployer/Outputs/Dma.antt =====
-- The whole output DMA of a core.
use mathlib.Core.Path.{ap₂}
use uscope_driver.Prelude.{
  ℕ, ◌+◌, ◌^◌, ◌<◌, ◌≡◌, refl, ap, sym, inl, inr, ◌∙◌, String, List, [], ◌∷◌, ◌++◌, none, arith,
  if◌then◌else◌, Bool-cases, u16, u32, str_eq, length,
}
use uscope_driver.Exec.{Result, ok, ◌>>◌}
use uscope_driver.Bus.{BusOp}
use uscope_driver.Bus.Memory.{write_op}
use uscope_driver.BusMap.{InterconnectSlot}
use uscope_driver.Deployer.{DeployerBase}
use uscope_driver.Deployer.Writes.{logged, logged-logged, logged-nil, IsDry, write_register_dry}
use uscope_driver.Deployer.Outputs.{
  mapping_address, metadata_address, setup_output_entry, setup_entries, setup_output_dma, find_iv,
}
use uscope_driver.Deployer.Outputs.Entries.{Fits, entry_log, labelled, setup_output_entry_dry}

-- The slots that a core drives, in order.
abbrev pub slots_of : String → List InterconnectSlot → List InterconnectSlot
slots_of core_name [] = []
slots_of core_name (e ∷ slots) =
    if str_eq e.source_id core_name then e ∷ slots_of core_name slots else slots_of core_name slots

-- The words of the entries from number `io` on.
abbrev pub entries_log : ℕ → ℕ → List InterconnectSlot → List BusOp
entries_log address io [] = []
entries_log address io (e ∷ slots) = entry_log e address io ++ entries_log address (io + 1) slots

abbrev pub label_all : ℕ → List InterconnectSlot → DeployerBase → DeployerBase
label_all n_channels [] d = d
label_all n_channels (e ∷ slots) d = label_all n_channels slots (labelled e n_channels d)

-- Every slot fits its entry and has no initial values.
abbrev pub AllPlain : DeployerBase → List InterconnectSlot → Type 0
AllPlain d [] = Unit
AllPlain d (e ∷ slots) = (Fits e × (find_iv d e ≡ none)) × AllPlain d slots

logged-label_all :
    (n : ℕ) (slots : List InterconnectSlot) (d : DeployerBase) (ops : List BusOp)
    → label_all n slots (logged d ops) ≡ logged (label_all n slots d) ops
logged-label_all n [] d ops = refl
logged-label_all n (e ∷ slots) d ops = logged-label_all n slots (labelled e n d) ops

AllPlain-after :
    (e : InterconnectSlot) (n : ℕ) (ops : List BusOp) (slots : List InterconnectSlot)
    (d : DeployerBase)
    → AllPlain d slots
    → AllPlain (labelled e n (logged d ops)) slots
AllPlain-after e n ops [] d h = tt
AllPlain-after e n ops (s ∷ slots) d h = (h.0, AllPlain-after e n ops slots d h.1)

IsDry-label_all :
    (n : ℕ) (slots : List InterconnectSlot) (d : DeployerBase)
    → IsDry d
    → IsDry (label_all n slots d)
IsDry-label_all n [] d dry = dry
IsDry-label_all n (e ∷ slots) d dry =
    IsDry-label_all n slots (labelled e n d) (record { loaded = dry.loaded; sink = dry.sink })

setup_entries_dry :
    (slots : List InterconnectSlot) (address : ℕ) (core_name : String) (n io : ℕ) (d : DeployerBase)
    → IsDry d
    → AllPlain d (slots_of core_name slots)
    → setup_entries slots address core_name n io d ≡ (
      ok (io + length (slots_of core_name slots)),
      label_all n
          (slots_of core_name slots)
          (logged d (entries_log address io (slots_of core_name slots))),
    )
unfolding setup_entries
setup_entries_dry [] address core_name n io d dry plain = ground (arith, logged-nil d)
setup_entries_dry (e ∷ slots) address core_name n io d dry plain =
    elim (Bool-cases (str_eq e.source_id core_name)) [
      | inl own ↦
          let plain' = rw own at plain in
          let rest = slots_of core_name slots in
          let word = entry_log e address io in
          let d' = labelled e n (logged d word) in
          let dry' : IsDry d' = record { loaded = dry.loaded; sink = dry.sink } in
          let step : (setup_output_entry e address io n
                  >> setup_entries slots address core_name n (io + 1))
                d
              ≡ setup_entries slots address core_name n (io + 1) d' =
            ground (arith, setup_output_entry_dry e address io n d dry plain'.0.0 plain'.0.1) in
          rw own (
            step
            ∙ setup_entries_dry slots address core_name n (io + 1) d' dry'
                (AllPlain-after e n word rest d plain'.1)
            ∙ ap₂ {C = Result ℕ × DeployerBase}
                (λ (k : ℕ) (g : DeployerBase). (ok k, label_all n rest (labelled e n g)))
                (omega arith) (logged-logged d word (entries_log address (io + 1) rest)))
      | inr other ↦
          rw other (setup_entries_dry slots address core_name n io d dry (rw other at plain))
    ]

-- With the bridge loaded and in sink mode, and slots that fit and have no initial values, the DMA
-- of a core gets the two words of each of its slots, the routing and the description of the signal,
-- numbered from 0 in the order of the map, and last of all the number of slots, which is returned;
-- each signal is labelled.
pub setup_output_dma_dry :
    (address : ℕ) (core_name : String) (n : ℕ) (d : DeployerBase)
    → IsDry d
    → AllPlain d (slots_of core_name d.bus_map)
    → let own = slots_of core_name d.bus_map in
      setup_output_dma address core_name n d ≡ (
        ok (u16 (length own)),
        label_all n own (
            logged d
              (entries_log address 0 own ++ write_op (address ∷ []) (u32 (length own)) ∷ [])),
      )
unfolding setup_output_dma
setup_output_dma_dry address core_name n d dry plain =
    let own = slots_of core_name d.bus_map in
    let words = entries_log address 0 own in
    let d' = label_all n own (logged d words) in
    let count = write_op (address ∷ []) (u32 (length own)) ∷ [] in
    let entries : setup_entries d.bus_map address core_name n 0 d ≡ (ok (length own), d') =
      setup_entries_dry d.bus_map address core_name n 0 d dry plain
      ∙ ap {B = Result ℕ × DeployerBase} (λ (k : ℕ). (ok k, d')) (omega arith) in
    let together : logged d' count ≡ label_all n own (logged d (words ++ count)) =
      sym (logged-label_all n own (logged d words) count)
      ∙ ap (label_all n own) (logged-logged d words count) in
    let dry' : IsDry (logged d words) = record { loaded = dry.loaded; sink = dry.sink } in
    rw
      (
        entries,
        write_register_dry address (length own) d' (IsDry-label_all n own (logged d words) dry'),
      )
      (ap {B = Result ℕ × DeployerBase} (λ g. (ok (u16 (length own)), g)) together)

-- From the seventeenth entry on an entry word is written to the register that describes the entry
-- sixteen places before it.
pub dma_registers_overlap :
    (dma j : ℕ) → dma < 2 ^ 63 → j < 2 ^ 29 → mapping_address dma (j + 16) ≡ metadata_address dma j
unfolding mapping_address metadata_address
dma_registers_overlap dma j fits hj = omega arith
