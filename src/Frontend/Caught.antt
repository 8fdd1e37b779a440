-- ===== src/Frontend/Caught.antt =====
-- src/server_frontend/endpoints/cores_endpoints.cpp and src/deployment/hil_emulator.cpp: the runtime
-- errors that become replies.
use uscope_driver.Prelude.{◌≢◌, subst, String, Option, none, some}
use uscope_driver.Exec.{
  Result, ok, err, runtime_error, logic_error, json_error, process_exit, fault, out_of_fuel, Exec,
  pure, continue, recover, catch_runtime, zoom, ◌>>=◌,
}
use uscope_driver.Emulator.{emulate}
use uscope_driver.Frontend.{World, Driver, validated}
use uscope_driver.Frontend.CoresEndpoints.{
  process_deploy_hil, process_compile_program, process_emulate_hil,
}

abbrev IsQuiet : {A : Type 0} → Result A → Type 0
IsQuiet (ok a) = Unit
IsQuiet (err (runtime_error what)) = ⊥
IsQuiet (err logic_error) = Unit
IsQuiet (err json_error) = Unit
IsQuiet (err process_exit) = Unit
IsQuiet (err fault) = Unit
IsQuiet (err out_of_fuel) = Unit

-- An action that never ends with a runtime error.
record Quiet {S A : Type 0} (m : Exec S A) : Type 0 where
  run : (s : S) → IsQuiet (m s).0

Quiet-pure : {S A : Type 0} (a : A) → Quiet {S = S} (pure a)
Quiet-pure a = record { run = λ s. tt }

recover-IsQuiet :
    {S A : Type 0} (r : Result A) (handler : String → Exec S A) (s : S)
    → ((what : String) → Quiet (handler what))
    → IsQuiet (recover r handler s).0
recover-IsQuiet (ok a) handler s h = tt
recover-IsQuiet (err (runtime_error what)) handler s h = (h what).run s
recover-IsQuiet (err logic_error) handler s h = tt
recover-IsQuiet (err json_error) handler s h = tt
recover-IsQuiet (err process_exit) handler s h = tt
recover-IsQuiet (err fault) handler s h = tt
recover-IsQuiet (err out_of_fuel) handler s h = tt

Quiet-catch :
    {S A : Type 0} (m : Exec S A) (handler : String → Exec S A)
    → ((what : String) → Quiet (handler what))
    → Quiet (catch_runtime m handler)
Quiet-catch m handler h = record { run = λ s. recover-IsQuiet (m s).0 handler (m s).1 h }

continue-IsQuiet :
    {S A B : Type 0} (r : Result A) (f : A → B) (s : S)
    → IsQuiet r
    → IsQuiet (continue r (λ a. pure (f a)) s).0
continue-IsQuiet (ok a) f s h = tt
continue-IsQuiet (err (runtime_error what)) f s h = h
continue-IsQuiet (err logic_error) f s h = tt
continue-IsQuiet (err json_error) f s h = tt
continue-IsQuiet (err process_exit) f s h = tt
continue-IsQuiet (err fault) f s h = tt
continue-IsQuiet (err out_of_fuel) f s h = tt

Quiet-map : {S A B : Type 0} (m : Exec S A) (f : A → B) → Quiet m → Quiet (m >>= λ a. pure (f a))
Quiet-map m f h = record { run = λ s. continue-IsQuiet (m s).0 f (m s).1 (h.run s) }

Quiet-zoom :
    {S T A : Type 0} (get : S → T) (put : T → S → S) (m : Exec T A)
    → Quiet m
    → Quiet (zoom get put m)
Quiet-zoom get put m h = record { run = λ s. h.run (get s) }

Quiet-validated :
    {S A : Type 0} (o : Option String) (refuse : String → Exec S A) (m : Exec S A)
    → ((what : String) → Quiet (refuse what))
    → Quiet m
    → Quiet (validated o refuse m)
Quiet-validated none refuse m hr hm = hm
Quiet-validated (some e) refuse m hr hm = hr e

ruleset quiet_rules = (Quiet-pure, Quiet-catch, Quiet-map, Quiet-zoom, Quiet-validated)

quiet_lem : {A : Type 0} (r : Result A) (what : String) → IsQuiet r → r ≢ err (runtime_error what)
quiet_lem r what quiet = λ e. subst IsQuiet e quiet

module _ {Json Emu : Type 0} (w : World Json Emu) (arguments : Json) where
  process_deploy_hil-Quiet : Quiet (process_deploy_hil w arguments)
  unfolding process_deploy_hil
  process_deploy_hil-Quiet = search quiet_rules

  process_compile_program-Quiet : Quiet (process_compile_program w arguments)
  unfolding process_compile_program
  process_compile_program-Quiet = search quiet_rules

  emulate-Quiet : Quiet (emulate w.emu_manager arguments)
  unfolding emulate
  emulate-Quiet = search quiet_rules

  process_emulate_hil-Quiet : Quiet (process_emulate_hil w arguments)
  unfolding process_emulate_hil
  process_emulate_hil-Quiet = search (quiet_rules, emulate-Quiet)

  -- A deployment, a compilation and an emulation never end with a runtime error, whatever their
  -- arguments and whatever the toolchain answers.
  pub runtime_errors_caught :
      (d : Driver Emu) (what : String)
      → ((process_deploy_hil w arguments d).0 ≢ err (runtime_error what))
        × ((process_compile_program w arguments d).0 ≢ err (runtime_error what))
        × ((process_emulate_hil w arguments d).0 ≢ err (runtime_error what))
  runtime_errors_caught d what = (
    quiet_lem _ what (process_deploy_hil-Quiet.run d),
    quiet_lem _ what (process_compile_program-Quiet.run d),
    quiet_lem _ what (process_emulate_hil-Quiet.run d),
  )
