-- ===== src/Frontend/Replies/Cores.antt =====
-- The replies of the handlers on the cores.
use uscope_driver.Exec.Yields.{Yields, yields_rules}
use uscope_driver.Frontend.{World, Driver}
use uscope_driver.Frontend.Replies.{Sound, IsFinalReply, final-Sound, coded-IsFinal, sound_rules}
use uscope_driver.Frontend.Replies.Codes.{
  apply_program-IsFinal, deploy_hil-IsFinal, deploy_custom-IsFinal,
}
use uscope_driver.Frontend.DebugEndpoint.{process_hil_debug}
use uscope_driver.Frontend.CoresEndpoints.{
  process_apply_program, process_deploy_hil, deploy_by_mode, process_emulate_hil,
  process_hil_select_out, process_hil_set_in, process_hil_start, process_hil_stop,
  process_hil_disassemble, process_hil_hardware_sim, process_compile_program,
  process_set_hil_address_map, process_get_hil_address_map, process_get_sampling_frequency,
}

module _ {Json Emu : Type 0} (w : World Json Emu) where
  pub process_apply_program-Sound : (arguments : Json) → Sound (process_apply_program w arguments)
  unfolding process_apply_program
  process_apply_program-Sound arguments =
      search (sound_rules, yields_rules, apply_program-IsFinal) depth 30 fits 5000

  deploy_by_mode-IsFinal :
      (arguments : Json) → Yields {S = Driver Emu} IsFinalReply (deploy_by_mode w arguments)
  deploy_by_mode-IsFinal arguments =
      search (coded-IsFinal, yields_rules, deploy_hil-IsFinal, deploy_custom-IsFinal) depth 20 fits
        5000

  pub process_deploy_hil-Sound : (arguments : Json) → Sound (process_deploy_hil w arguments)
  unfolding process_deploy_hil
  process_deploy_hil-Sound arguments = search (final-Sound, yields_rules, deploy_by_mode-IsFinal)

  pub process_emulate_hil-Sound : (arguments : Json) → Sound (process_emulate_hil w arguments)
  unfolding process_emulate_hil
  process_emulate_hil-Sound arguments = search (final-Sound, yields_rules)

  pub process_hil_select_out-Sound : (arguments : Json) → Sound (process_hil_select_out w arguments)
  unfolding process_hil_select_out
  process_hil_select_out-Sound arguments = search (final-Sound, yields_rules) depth 30 fits 5000

  pub process_hil_set_in-Sound : (arguments : Json) → Sound (process_hil_set_in w arguments)
  unfolding process_hil_set_in
  process_hil_set_in-Sound arguments = search (final-Sound, yields_rules) depth 30 fits 5000

  pub process_hil_start-Sound : Sound (process_hil_start w)
  unfolding process_hil_start
  process_hil_start-Sound = search (final-Sound, yields_rules)

  pub process_hil_stop-Sound : Sound (process_hil_stop w)
  unfolding process_hil_stop
  process_hil_stop-Sound = search (final-Sound, yields_rules)

  pub process_get_sampling_frequency-Sound : Sound (process_get_sampling_frequency w)
  unfolding process_get_sampling_frequency
  process_get_sampling_frequency-Sound = search (final-Sound, yields_rules)

  pub process_compile_program-Sound :
      (arguments : Json) → Sound (process_compile_program w arguments)
  unfolding process_compile_program
  process_compile_program-Sound arguments = search (sound_rules, yields_rules) depth 30 fits 5000

  pub process_hil_disassemble-Sound :
      (arguments : Json) → Sound (process_hil_disassemble w arguments)
  unfolding process_hil_disassemble
  process_hil_disassemble-Sound arguments = search (final-Sound, yields_rules)

  pub process_hil_hardware_sim-Sound :
      (arguments : Json) → Sound (process_hil_hardware_sim w arguments)
  unfolding process_hil_hardware_sim
  process_hil_hardware_sim-Sound arguments = search (final-Sound, yields_rules)

  pub process_set_hil_address_map-Sound :
      (arguments : Json) → Sound (process_set_hil_address_map w arguments)
  unfolding process_set_hil_address_map
  process_set_hil_address_map-Sound arguments = search (final-Sound, yields_rules)

  pub process_get_hil_address_map-Sound : Sound (process_get_hil_address_map w)
  unfolding process_get_hil_address_map
  process_get_hil_address_map-Sound = search (final-Sound, yields_rules)

  pub process_hil_debug-Sound : (arguments : Json) → Sound (process_hil_debug w arguments)
  unfolding process_hil_debug
  process_hil_debug-Sound arguments = search (sound_rules, yields_rules) depth 30 fits 5000
