-- ===== src/Hil/InitialValues.antt =====
-- src/deployment/hil_deployer.cpp: `setup_interconnect_iv` collects the initial values of the signals
-- that the interconnect carries.
use uscope_driver.Prelude.{
  ℕ, zero, suc, String, List, [], ◌∷◌, none, some, ltb, ◌==◌, ◌&&◌, if◌then◌else◌, str_eq, length,
}
use uscope_driver.Prelude.Dict.{Dict, insert, lookup, string_eq}
use uscope_driver.Exec.{Exec, pure, modify, ◌>>=◌, ◌>>◌}
use uscope_driver.BusMap.{InterconnectSlot}
use uscope_driver.Deployer.{DeployerBase}
use uscope_driver.Deployer.Inputs.{DeployedCoreInput, InputValues, input_word}
use uscope_driver.Hil.{DeployedProgram}

-- The first word of each entry.
unfoldable pub entry_words : List InputValues → Exec DeployerBase (List ℕ)
entry_words [] = pure []
entry_words (v ∷ vs) = do word ← input_word (v ∷ []); rest ← entry_words vs; pure (word ∷ rest)

-- The loop that reads the only entry once for each channel.
unfoldable pub repeat_word : ℕ → List InputValues → Exec DeployerBase (List ℕ)
repeat_word zero vs = pure []
repeat_word (suc n) vs = do word ← input_word vs; rest ← repeat_word n vs; pure (word ∷ rest)

unfoldable pub initial_values : ℕ → List InputValues → Exec DeployerBase (List ℕ)
initial_values n_channels values =
    if length values == 1 && ltb 1 n_channels
    then repeat_word n_channels values
    else entry_words values

-- `ivs[id][name] = data`
unfoldable pub set_iv : String → String → List ℕ → DeployerBase → DeployerBase
unfolding lookup
set_iv id name words d =
    let of_core : Dict String (List ℕ) = elim (lookup id d.ivs) [ none ↦ [] | some m ↦ m ] in
    record d { ivs = insert id (insert name words of_core) d.ivs }

unfoldable pub iv_of_inputs :
    InterconnectSlot → ℕ → List DeployedCoreInput → Exec DeployerBase (Unit {0})
iv_of_inputs slot n_channels [] = pure tt
iv_of_inputs slot n_channels (input ∷ inputs) =
    (if str_eq input.name slot.destination_name
      then (do
        words ← initial_values n_channels input.values
        modify (set_iv slot.source_id slot.source_name words))
      else pure tt)
    >> iv_of_inputs slot n_channels inputs

unfoldable pub iv_of_programs :
    InterconnectSlot → List DeployedProgram → Exec DeployerBase (Unit {0})
iv_of_programs slot [] = pure tt
iv_of_programs slot (p ∷ programs) =
    (if str_eq p.name slot.destination_id then iv_of_inputs slot p.n_channels p.inputs else pure tt)
    >> iv_of_programs slot programs

unfoldable pub setup_interconnect_iv :
    List InterconnectSlot → List DeployedProgram → Exec DeployerBase (Unit {0})
setup_interconnect_iv [] programs = pure tt
setup_interconnect_iv (slot ∷ slots) programs = do
  iv_of_programs slot programs
  setup_interconnect_iv slots programs
