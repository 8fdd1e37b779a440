-- ===== src/Tests/Frontend.antt =====
-- Tests of the commands.
use uscope_driver.Prelude.{◌≡◌, ◌≢◌, ◌↔◌, refl, true, false, [], ◌∷◌, none, ◌==◌}
use uscope_driver.Exec.{ok, err, json_error, runtime_error, pure}
use uscope_driver.Response.{invalid_arg, internal_error, invalid_cmd_schema}
use uscope_driver.Layout.Document.{parse_layout_object, dump_layout_object}
use uscope_driver.Decimal.{concat}
use uscope_driver.Frontend.ControlEndpoints
use uscope_driver.Layout.RoundTrip.{parse_layout_object-dump_layout_object}
use uscope_driver.Emulator.{EmulatorDispatcher}
use uscope_driver.Hil.Deploy.{deploy_for_simulation}
use uscope_driver.Hil.Silent.Untouched.{IsUntouched, deploy_for_simulation-IsUntouched}
use uscope_driver.Frontend.{World, Driver, info, Reply, refusal}
use uscope_driver.Frontend.CommandProcessor.{
  process_command, process_body, contains, is_known, ResponseObj,
}
use uscope_driver.Frontend.Replies.Answers.{process_command_codes, process_command_refused}
use uscope_driver.Frontend.ControlEndpoints.{process_single_write_register, check_float_intness}
use uscope_driver.Frontend.Caught.{runtime_errors_caught}
use uscope_driver.Frontend.CoresEndpoints.{
  process_deploy_hil, process_compile_program, process_emulate_hil,
}
use uscope_driver.Tests.Samples.{bridge, deployer, hil_deployer, layout}
use uscope_driver.Tests.Hil.{platform, large}
use uscope_driver.Tests.Scope.{scope}
use uscope_driver.Tests.Documents.{Doc, documents, documents-IsFaithful, empty, number, words}

abbrev dispatcher : EmulatorDispatcher Doc (Unit {0})
dispatcher = record {
  set_specs = λ j. pure tt;
  process = pure tt;
  emulate = pure none;
  get_results = pure (number 0);
  disassemble = pure (number 0);
  add_breakpoint = λ id line. pure tt;
  remove_breakpoint = λ id line. pure tt;
  step_over = pure (number 0);
  continue_emulation = pure none;
  set_multichannel_debug = λ b. pure tt;
  get_breakpoints = λ id. pure (number 0);
  dump = λ j. "";
  complete = λ j. j;
}

abbrev pub world : World Doc (Unit {0})
world = record {
  json = documents;
  invalid = λ s j. none;
  rounding = record {
    round = λ d. d;
    ceil = λ d. d;
    floor = λ d. d;
    double_to_uint64 = λ d. d;
    uint64_to_double = λ n. n;
    equal = λ a b. a == b;
  };
  decode = λ s. ok [];
  load_answer = λ decoded. record { ioctl_failed = false; status = 1 };
  clock_answer = record { if_dict = record { arch = "testing" }; opens = true; writes = true };
  random = 7;
  buffer = 0x4000;
  samples = none;
  int32_to_float = λ n. n;
  stoi = λ s. ok 0;
  platform = platform;
  hash = λ j. 1;
  set_specs = λ j. ok large;
  custom_specs = λ j. ok large;
  custom_options =
      λ j name. record { rom_address = 0; control_address = 0; has_reciprocal = false };
  emu_manager = dispatcher;
  compile = λ sources headers io. err json_error;
  driver_versions = "1";
  toolchain_versions = "2";
  module_version = ok "3";
  hardware_version = ok "4";
}

abbrev pub driver : Driver (Unit {0})
driver = record {
  hw = bridge true false;
  scope = scope;
  hil = hil_deployer;
  custom = record { base = deployer; cores_idx = [] };
  tm = record { hw = none; ps_pl_clk_f = 1 ∷ 2 ∷ 3 ∷ 4 ∷ []; generated_clocks = [] };
  emulator = tt;
  log_level = info;
}

abbrev refused_read : Reply Doc
refused_read =
    refusal "DRIVER ERROR:The argument for the single read register call must be a numeric value\n"
      ""

abbrev refused_answer : ResponseObj Doc
refused_answer = record { cmd = "register_read"; body = refused_read }

-- A text is no address to read from.
read_refused :
    process_command world "register_read" (words "x") driver ≡ (ok refused_answer, driver)
unfolding process_command process_body contains ControlEndpoints.process_command
    ControlEndpoints.process_single_read_register concat
read_refused = refl

process_command_codes_example :
    (refused_answer.cmd ≡ "register_read")
    × (invalid_arg ≢ internal_error)
    × ((invalid_arg ≡ invalid_cmd_schema) ↔ (is_known "register_read" ≡ false))
process_command_codes_example =
    process_command_codes world "register_read" (words "x") driver driver refused_answer
      read_refused

process_command_refused_example : driver ≡ driver
process_command_refused_example =
    process_command_refused world "register_read" (words "x") driver driver refused_answer
      read_refused refl

deploy_for_simulation-IsUntouched_example :
    IsUntouched hil_deployer.base.hw.busses
      (deploy_for_simulation (λ n. n) (λ n. ok large) platform 7 hil_deployer)
deploy_for_simulation-IsUntouched_example =
    deploy_for_simulation-IsUntouched (λ n. n) (λ n. ok large) platform 7 hil_deployer

parse_layout_object-dump_layout_object_example :
    parse_layout_object documents (dump_layout_object documents layout) layout ≡ (ok tt, layout)
parse_layout_object-dump_layout_object_example =
    parse_layout_object-dump_layout_object documents documents-IsFaithful layout layout

runtime_errors_caught_example :
    ((process_deploy_hil world empty driver).0 ≢ err (runtime_error "failed"))
    × ((process_compile_program world empty driver).0 ≢ err (runtime_error "failed"))
    × ((process_emulate_hil world empty driver).0 ≢ err (runtime_error "failed"))
runtime_errors_caught_example = runtime_errors_caught world empty driver "failed"
