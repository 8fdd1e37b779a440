-- ===== src/Emulator.antt =====
-- includes/deployment/hil_emulator.hpp and src/deployment/hil_emulator.cpp: the front of the fCore
-- emulator. The emulator's dispatcher is a parameter.
use uscope_driver.Prelude.{ℕ, String, Bool, true, false, [], ◌∷◌, Option, none, some}
use uscope_driver.Decimal.{concat}
use uscope_driver.Exec.{Exec, catch_runtime, fault, pure, raise, ◌>>=◌, ◌>>◌}

-- A run ends at a breakpoint, which it describes, or at the end.
pub record EmulatorDispatcher (Json Emu : Type 0) : Type 0 where
  pub set_specs : Json → Exec Emu (Unit {0})
  pub process : Exec Emu (Unit {0})
  pub emulate : Exec Emu (Option Json)
  pub get_results : Exec Emu Json
  pub disassemble : Exec Emu Json
  pub add_breakpoint : String → ℕ → Exec Emu (Unit {0})
  pub remove_breakpoint : String → ℕ → Exec Emu (Unit {0})
  pub step_over : Exec Emu Json
  pub continue_emulation : Exec Emu (Option Json)
  pub set_multichannel_debug : Bool → Exec Emu (Unit {0})
  pub get_breakpoints : String → Exec Emu Json
  pub dump : Json → String
  pub complete : Json → Json

pub record EmulationResults : Type 0 where
  pub results : String
  pub results_valid : Bool
  pub duplicates : String
  pub code : ℕ

pub data CommandType : Type 0 where
  command_add_breakpoint command_remove_breakpoint command_step_over : CommandType
  command_resume_emulation command_initialize_emulation command_start_emulation : CommandType
  command_get_breakpoints : CommandType

-- The fields that a request leaves alone hold what their constructors gave, or nothing.
pub record InteractiveCommand (Json : Type 0) : Type 0 where
  pub type : Option CommandType
  pub id : String
  pub target_instruction : ℕ
  pub spec : Json

module _ {Json Emu : Type 0} (emu_manager : EmulatorDispatcher Json Emu) where
  abbrev emulated : Json → Exec Emu EmulationResults
  emulated specs = do
    emu_manager.set_specs specs
    emu_manager.process
    emu_manager.emulate
    results ← emu_manager.get_results
    pure (record {
      results = emu_manager.dump results;
      results_valid = true;
      duplicates = "";
      code = 1;
    })

  unfoldable pub emulate : Json → Exec Emu EmulationResults
  emulate specs = catch_runtime (emulated specs) (λ what. pure (record {
    results = concat ("EMULATION ERROR:\n" ∷ what ∷ []);
    results_valid = false;
    duplicates = "";
    code = 7;
  }))

  unfoldable pub disassemble : Json → Exec Emu Json
  disassemble specs = do emu_manager.set_specs specs; emu_manager.disassemble

  unfoldable pub add_breakpoint : String → ℕ → Exec Emu String
  add_breakpoint core_id line = do emu_manager.add_breakpoint core_id line; pure "ok"

  unfoldable pub remove_breakpoint : String → ℕ → Exec Emu String
  remove_breakpoint core_id line = do emu_manager.remove_breakpoint core_id line; pure "ok"

  unfoldable pub step_over : Exec Emu String
  step_over = do ret ← emu_manager.step_over; pure (emu_manager.dump ret)

  unfoldable pub continue_execution : Exec Emu String
  continue_execution = do
    res ← emu_manager.continue_emulation
    pure (elim res [ none ↦ "{}" | some val ↦ emu_manager.dump val ])

  unfoldable pub initialize_emulation : Json → Exec Emu String
  initialize_emulation specs = do emu_manager.set_specs specs; emu_manager.process; pure "{}"

  -- `complete` makes the object of the status and of the results.
  unfoldable pub run_emulation : Exec Emu String
  run_emulation = do
    emu_manager.set_multichannel_debug false
    res ← emu_manager.emulate
    elim res [
      | none ↦ do
        results ← emu_manager.get_results
        pure (emu_manager.dump (emu_manager.complete results))
      | some val ↦ pure (emu_manager.dump val)
    ]

  unfoldable pub get_breakpoints : String → Exec Emu String
  get_breakpoints core_id = do
    ret ← emu_manager.get_breakpoints core_id
    pure (emu_manager.dump ret)

  -- A command whose type was never set is read all the same, which is undefined.
  unfoldable pub run_command : InteractiveCommand Json → Exec Emu String
  unfolding add_breakpoint remove_breakpoint step_over continue_execution initialize_emulation
      run_emulation get_breakpoints
  run_command c = elim c.type [
    | none ↦ raise fault
    | some type ↦ elim type [
      | command_initialize_emulation ↦ initialize_emulation c.spec
      | command_start_emulation ↦ run_emulation
      | command_add_breakpoint ↦ add_breakpoint c.id c.target_instruction
      | command_remove_breakpoint ↦ remove_breakpoint c.id c.target_instruction
      | command_step_over ↦ step_over
      | command_resume_emulation ↦ continue_execution
      | command_get_breakpoints ↦ get_breakpoints c.id
    ]
  ]
