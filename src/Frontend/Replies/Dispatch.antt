-- ===== src/Frontend/Replies/Dispatch.antt =====
-- The replies of the endpoints and of the dispatcher.
use uscope_driver.Prelude.{
  ◌≡◌, ◌≢◌, refl, String, Bool, true, false, if◌then◌else◌, str_eq, arith, ◌||◌,
}
use uscope_driver.Exec.{ok, Exec}
use uscope_driver.Exec.Yields.{yields_rules}
use uscope_driver.Response.{ResponseCode, invalid_arg, invalid_cmd_schema, internal_error}
use uscope_driver.Frontend.{World, Driver, Reply, reply, message}
use uscope_driver.Frontend.Replies.{Sound, Allowed, final-Sound}
use uscope_driver.Frontend.Replies.Handlers
use uscope_driver.Frontend.Replies.Cores
use uscope_driver.Frontend.ControlEndpoints
use uscope_driver.Frontend.ScopeEndpoints
use uscope_driver.Frontend.CoresEndpoints
use uscope_driver.Frontend.PlatformEndpoints
use uscope_driver.Frontend.CommandProcessor.{
  contains, control_commands, scope_commands, core_commands, platform_commands,
  infrastructure_commands, is_known, process_body,
}

all_false :
    (a b c d e : Bool)
    → (a || b || c || d || e) ≡ false
    → (a ≡ false) × (b ≡ false) × (c ≡ false) × (d ≡ false) × (e ≡ false)
all_false a b c d e h = ground arith

module _ {Json Emu : Type 0} (w : World Json Emu) where
  -- A branch that is taken may use its test.
  chain-Sound :
      (t : Bool) (m n : Exec (Driver Emu) (Reply Json))
      → (t ≡ true → Sound m)
      → (t ≡ false → Sound n)
      → Sound (if t then m else n)
  chain-Sound true m n hm hn = hm refl
  chain-Sound false m n hm hn = hn refl

  control-Sound :
      (c : String) (arguments : Json)
      → contains control_commands c ≡ true
      → Sound (ControlEndpoints.process_command w c arguments)
  unfolding contains ControlEndpoints.process_command
  control-Sound c arguments known =
      chain-Sound (str_eq c "load_bitstream") _ _
        (λ _. Handlers.process_load_bitstream-Sound w arguments)
        (λ e0.
          chain-Sound (str_eq c "register_write") _ _
            (λ _. Handlers.process_single_write_register-Sound w arguments)
            (λ e1.
              chain-Sound (str_eq c "register_read") _ _
                (λ _. Handlers.process_single_read_register-Sound w arguments)
                (λ e2.
                  chain-Sound (str_eq c "apply_filter") _ _
                    (λ _. Handlers.process_apply_filter-Sound w arguments)
                    (λ e3. absurd (ground arith)))))

  scope-Sound :
      (c : String) (arguments : Json)
      → contains scope_commands c ≡ true
      → Sound (ScopeEndpoints.process_command w c arguments)
  unfolding contains ScopeEndpoints.process_command
  scope-Sound c arguments known =
      chain-Sound (str_eq c "read_data") _ _ (λ _. Handlers.process_read_data-Sound w)
        (λ e0.
          chain-Sound (str_eq c "set_scaling_factors") _ _
            (λ _. Handlers.process_set_scaling_factors-Sound w arguments)
            (λ e1.
              chain-Sound (str_eq c "disable_scope_dma") _ _
                (λ _. Handlers.process_disable_dma-Sound w arguments)
                (λ e2.
                  chain-Sound (str_eq c "set_channel_status") _ _
                    (λ _. Handlers.process_set_channel_status-Sound w arguments)
                    (λ e3.
                      chain-Sound (str_eq c "get_acquisition_status") _ _
                        (λ _. Handlers.process_get_acquisition_status-Sound w)
                        (λ e4.
                          chain-Sound (str_eq c "set_acquisition") _ _
                            (λ _. Handlers.process_set_acquisition-Sound w arguments)
                            (λ e5.
                              chain-Sound (str_eq c "set_scope_address") _ _
                                (λ _. Handlers.process_set_scope_address-Sound w arguments)
                                (λ e6. absurd (ground arith))))))))

  cores-Sound :
      (c : String) (arguments : Json)
      → contains core_commands c ≡ true
      → Sound (CoresEndpoints.process_command w c arguments)
  unfolding contains CoresEndpoints.process_command
  cores-Sound c arguments known =
      chain-Sound (str_eq c "apply_program") _ _
        (λ _. Cores.process_apply_program-Sound w arguments)
        (λ e0.
          chain-Sound (str_eq c "deploy_hil") _ _ (λ _. Cores.process_deploy_hil-Sound w arguments)
            (λ e1.
              chain-Sound (str_eq c "emulate_hil") _ _
                (λ _. Cores.process_emulate_hil-Sound w arguments)
                (λ e2.
                  chain-Sound (str_eq c "hil_select_out") _ _
                    (λ _. Cores.process_hil_select_out-Sound w arguments)
                    (λ e3.
                      chain-Sound (str_eq c "hil_set_in") _ _
                        (λ _. Cores.process_hil_set_in-Sound w arguments)
                        (λ e4.
                          chain-Sound (str_eq c "hil_start") _ _
                            (λ _. Cores.process_hil_start-Sound w)
                            (λ e5.
                              chain-Sound (str_eq c "hil_stop") _ _
                                (λ _. Cores.process_hil_stop-Sound w)
                                (λ e6.
                                  chain-Sound (str_eq c "hil_debug") _ _
                                    (λ _. Cores.process_hil_debug-Sound w arguments)
                                    (λ e7.
                                      chain-Sound (str_eq c "hil_disassemble") _ _
                                        (λ _. Cores.process_hil_disassemble-Sound w arguments)
                                        (λ e8.
                                          chain-Sound (str_eq c "hil_hardware_sim") _ _
                                            (λ _. Cores.process_hil_hardware_sim-Sound w arguments)
                                            (λ e9.
                                              chain-Sound (str_eq c "compile_program") _ _
                                                (λ _.
                                                  Cores.process_compile_program-Sound w arguments)
                                                (λ e10.
                                                  chain-Sound (str_eq c "set_hil_address_map") _ _
                                                    (λ _.
                                                      Cores.process_set_hil_address_map-Sound w
                                                        arguments)
                                                    (λ e11.
                                                      chain-Sound (str_eq c "get_hil_address_map") _
                                                        _
                                                        (λ _.
                                                          Cores.process_get_hil_address_map-Sound w)
                                                        (λ e12.
                                                          chain-Sound
                                                            (str_eq c "get_sampling_frequency") _ _
                                                            (λ _.
                                                            Cores.process_get_sampling_frequency-Sound
                                                            w)
                                                            (λ e13.
                                                            absurd (ground arith)))))))))))))))

  platform-Sound :
      (c : String) (arguments : Json)
      → contains platform_commands c ≡ true
      → Sound (PlatformEndpoints.process_command w c arguments)
  unfolding contains PlatformEndpoints.process_command
  platform-Sound c arguments known =
      chain-Sound (str_eq c "set_pl_clock") _ _ (λ _. Handlers.process_set_clock-Sound w arguments)
        (λ e0.
          chain-Sound (str_eq c "get_clock") _ _ (λ _. Handlers.process_get_clock-Sound w arguments)
            (λ e1.
              chain-Sound (str_eq c "get_version") _ _
                (λ _. Handlers.process_get_version-Sound w arguments)
                (λ e2.
                  chain-Sound (str_eq c "set_debug_level") _ _
                    (λ _. Handlers.process_set_debug_level-Sound w arguments)
                    (λ e3.
                      chain-Sound (str_eq c "get_debug_level") _ _
                        (λ _. Handlers.process_get_debug_level-Sound w)
                        (λ e4. absurd (ground arith))))))

  pub process_body-Sound :
      (c : String) (arguments : Json) → is_known c ≡ true → Sound (process_body w c arguments)
  unfolding process_body is_known
  process_body-Sound c arguments known =
      chain-Sound (contains control_commands c) _ _ (control-Sound c arguments) (λ e0.
        chain-Sound (contains scope_commands c) _ _ (scope-Sound c arguments) (λ e1.
          chain-Sound (contains core_commands c) _ _ (cores-Sound c arguments) (λ e2.
            chain-Sound (contains platform_commands c) _ _ (platform-Sound c arguments) (λ e3.
              chain-Sound (contains infrastructure_commands c) _ _
                (λ _. search (final-Sound, yields_rules)) (λ e4. absurd (ground arith))))))

  pub unknown_body :
      (c : String) (arguments : Json)
      → is_known c ≡ false
      → (d : Driver Emu)
      → process_body w c arguments d
        ≡ (ok (reply invalid_cmd_schema (message "DRIVER ERROR: Unknown command received\n")), d)
  unfolding process_body is_known
  unknown_body c arguments unknown d =
      let (e0, e1, e2, e3, e4) =
        all_false (contains control_commands c) (contains scope_commands c)
          (contains core_commands c) (contains platform_commands c)
          (contains infrastructure_commands c) unknown in
      rw (e0, e1, e2, e3, e4)

  pub Allowed-code :
      (code : ResponseCode) (d d' : Driver Emu)
      → Allowed code d d'
      → (code ≢ internal_error) × (code ≢ invalid_cmd_schema) × (code ≡ invalid_arg → d' ≡ d)
  Allowed-code code d d' h = ground arith
