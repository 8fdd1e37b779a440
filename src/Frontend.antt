-- ===== src/Frontend.antt =====
-- The state behind the commands, what their handlers learn from outside the program, and the replies.
-- The fCore toolchain, the schema validator, the clock files and the kernel's files are parameters.
pub mod ControlEndpoints
pub mod ScopeEndpoints
pub mod CoresEndpoints
pub mod DebugEndpoint
pub mod PlatformEndpoints
pub mod CommandProcessor
pub mod Replies
pub mod Caught
use uscope_driver.Prelude.{ℕ, String, Bool, List, [], ◌∷◌, Option, none, some}
use uscope_driver.Decimal.{concat}
use uscope_driver.Exec.{Result, Exec, zoom}
use uscope_driver.Floats.{Float, Double}
use uscope_driver.Response.{ResponseCode, invalid_arg, internal_error}
use uscope_driver.Bridge.{FpgaBridge, LoadAnswer, ClockAnswer}
use uscope_driver.Scope.{ScopeManager}
use uscope_driver.Timing.{TimingManager}
use uscope_driver.Hil.{HilDeployer, Deployment}
use uscope_driver.Hil.Deploy.{Platform}
use uscope_driver.Custom.{CustomDeployer, DeploymentOptions}
use uscope_driver.Json.{JsonLibrary}
use uscope_driver.Emulator.{EmulatorDispatcher, EmulationResults}

-- The documents of command.hpp that arguments are validated against.
pub data Schema : Type 0 where
  command write_register load_program compile_program_schema apply_filter_schema : Schema

-- The levels that the driver sets, and the others that the logger may have.
pub data LogLevel : Type 0 where
  warn info trace other_level : LogLevel

-- `round`, `ceil` and `floor`, and the conversions to and from 64 bits.
pub record Rounding : Type 0 where
  pub round : Double → Double
  pub ceil : Double → Double
  pub floor : Double → Double
  pub double_to_uint64 : Double → ℕ
  pub uint64_to_double : ℕ → Double
  pub equal : Double → Double → Bool

-- What the compiler of the toolchain answers: the executable, or else its errors.
pub record CompilerAnswer : Type 0 where
  pub compiled : Bool
  pub executable : List ℕ
  pub errors : String

-- `none` of a validation is that the document fits, `some` is the message that it does not.
pub record World (Json Emu : Type 0) : Type 0 where
  pub json : JsonLibrary Json
  pub invalid : Schema → Json → Option String
  pub rounding : Rounding
  pub decode : String → Result (List ℕ)
  pub load_answer : List ℕ → LoadAnswer
  pub clock_answer : ClockAnswer
  pub random : ℕ
  pub buffer : ℕ
  pub samples : Option (List ℕ)
  pub int32_to_float : ℕ → Float
  pub stoi : String → Result ℕ
  pub platform : Platform
  pub hash : Json → ℕ
  pub set_specs : Json → Result Deployment
  pub custom_specs : Json → Result Deployment
  pub custom_options : Json → String → DeploymentOptions
  pub emu_manager : EmulatorDispatcher Json Emu
  pub compile : List String → List String → Json → Result CompilerAnswer
  pub driver_versions : String
  pub toolchain_versions : String
  pub module_version : Result String
  pub hardware_version : Result String

-- All the bridges of the process are one. The bridges inside the components are replaced by it when
-- a command enters the component, except that of the clocks, whose pointer is never set.
pub record Driver (Emu : Type 0) : Type 0 where
  pub hw : FpgaBridge
  pub scope : ScopeManager
  pub hil : HilDeployer
  pub custom : CustomDeployer
  pub tm : TimingManager
  pub emulator : Emu
  pub log_level : LogLevel

pub data Payload (Json : Type 0) : Type 0 where
  nothing : Payload Json
  message : String → Payload Json
  document : Json → Payload Json
  number : ℕ → Payload Json
  real : Float → Payload Json
  channels : List (ℕ × List Float) → Payload Json
  deployment_failure : ResponseCode → String → Payload Json
  emulation : EmulationResults → Payload Json
  executable : List ℕ → Payload Json
  compilation_error : String → Payload Json
  simulation : String → String → String → String → Payload Json

pub record Reply (Json : Type 0) : Type 0 where
  pub response_code : ResponseCode
  pub payload : Payload Json

-- `if(!validate_schema(…)) return …;` before the rest of a handler.
abbrev pub validated : {A : Type 0} → Option String → (String → A) → A → A
validated none refuse rest = rest
validated (some error_message) refuse rest = refuse error_message

module _ {Json : Type 0} where
  abbrev pub reply : ResponseCode → Payload Json → Reply Json
  reply code payload = record { response_code = code; payload = payload }

  -- A refusal, with the message of the handler and that of the validation.
  abbrev pub refusal : String → String → Reply Json
  refusal what error_message = reply invalid_arg (message (concat (what ∷ error_message ∷ [])))

  abbrev pub internal_driver_error : Reply Json
  internal_driver_error = reply internal_error (message "DRIVER ERROR: Internal driver error\n")

module _ {Emu A : Type 0} where
  abbrev pub on_hw : Exec FpgaBridge A → Exec (Driver Emu) A
  on_hw = zoom (λ d. d.hw) (λ h d. record d { hw = h })

  abbrev pub on_scope : Exec ScopeManager A → Exec (Driver Emu) A
  on_scope = zoom (λ d. record d.scope { hw = d.hw }) (λ s d. record d { scope = s; hw = s.hw })

  abbrev pub on_hil : Exec HilDeployer A → Exec (Driver Emu) A
  on_hil =
      zoom (λ d. record d.hil { base = record d.hil.base { hw = d.hw } })
        (λ h d. record d { hil = h; hw = h.base.hw })

  abbrev pub on_custom : Exec CustomDeployer A → Exec (Driver Emu) A
  on_custom =
      zoom (λ d. record d.custom { base = record d.custom.base { hw = d.hw } })
        (λ c d. record d { custom = c; hw = c.base.hw })

  abbrev pub on_tm : Exec TimingManager A → Exec (Driver Emu) A
  on_tm = zoom (λ d. d.tm) (λ t d. record d { tm = t })

  abbrev pub on_emulator : Exec Emu A → Exec (Driver Emu) A
  on_emulator = zoom (λ d. d.emulator) (λ e d. record d { emulator = e })
