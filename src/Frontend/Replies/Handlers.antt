-- ===== src/Frontend/Replies/Handlers.antt =====
-- The replies of the handlers on the registers, on the scope and on the platform.
use uscope_driver.Prelude.{arith}
use uscope_driver.Exec.{Exec, pure, ◌>>=◌}
use uscope_driver.Bridge.{ReadResponse}
use uscope_driver.Exec.Yields.{Yields, Yields-pass, Yields-pure, yields_rules}
use uscope_driver.Frontend.{World, Driver, reply, number}
use uscope_driver.Frontend.Replies.{Sound, Reads, IsFinal, IsFinalReply, coded-IsFinal, sound_rules}
use uscope_driver.Frontend.Replies.Codes.{
  single_write_register-IsFinal, single_read_register-IsFinal, apply_filter-IsFinal,
  load_bitstream-IsFinal, set_scaling_factors-IsFinal, set_channel_status-IsFinal,
  set_acquisition-IsFinal, set_base_clock-IsFinal, set_generated_clock-IsFinal,
}
use uscope_driver.Frontend.ControlEndpoints.{
  process_load_bitstream, process_single_read_register, process_single_write_register,
  process_apply_filter,
}
use uscope_driver.Frontend.ScopeEndpoints.{
  process_read_data, process_set_scaling_factors, process_set_channel_status,
  process_get_acquisition_status, process_set_acquisition, process_set_scope_address,
  invalid_address, process_disable_dma,
}
use uscope_driver.Frontend.PlatformEndpoints.{
  process_get_clock, process_set_clock, set_primary, set_generated, process_get_version,
  process_set_debug_level, process_get_debug_level,
}

module _ {Json Emu : Type 0} (w : World Json Emu) where
  answered-IsFinal :
      (m : Exec (Driver Emu) ReadResponse)
      → Yields (λ r. IsFinal r.response_code) m
      → Yields IsFinalReply (
          m >>= λ response.
          pure (reply {Json = Json} response.response_code (number response.payload)))
  answered-IsFinal m h =
      Yields-pass (λ r. IsFinal r.response_code) IsFinalReply m _ h
        (λ r final. Yields-pure IsFinalReply (reply r.response_code (number r.payload)) final)

  pub process_load_bitstream-Sound : (arguments : Json) → Sound (process_load_bitstream w arguments)
  unfolding process_load_bitstream
  process_load_bitstream-Sound arguments =
      search (sound_rules, yields_rules, load_bitstream-IsFinal) depth 20 fits 5000

  pub process_single_read_register-Sound :
      (arguments : Json) → Sound (process_single_read_register w arguments)
  unfolding process_single_read_register
  process_single_read_register-Sound arguments =
      search (sound_rules, yields_rules, single_read_register-IsFinal, answered-IsFinal) depth 20
        fits 5000

  pub process_apply_filter-Sound : (arguments : Json) → Sound (process_apply_filter w arguments)
  unfolding process_apply_filter
  process_apply_filter-Sound arguments =
      search (sound_rules, yields_rules, apply_filter-IsFinal) depth 30 fits 5000

  pub process_single_write_register-Sound :
      (arguments : Json) → Sound (process_single_write_register w arguments)
  unfolding process_single_write_register
  process_single_write_register-Sound arguments =
      search (sound_rules, yields_rules, single_write_register-IsFinal) depth 40 fits 5000

  pub process_read_data-Sound : Sound (process_read_data w)
  unfolding process_read_data
  process_read_data-Sound = search (sound_rules, yields_rules)

  pub process_set_scaling_factors-Sound :
      (arguments : Json) → Sound (process_set_scaling_factors w arguments)
  unfolding process_set_scaling_factors
  process_set_scaling_factors-Sound arguments =
      search (sound_rules, yields_rules, set_scaling_factors-IsFinal) depth 20 fits 5000

  pub process_set_channel_status-Sound :
      (arguments : Json) → Sound (process_set_channel_status w arguments)
  unfolding process_set_channel_status
  process_set_channel_status-Sound arguments =
      search (sound_rules, yields_rules, set_channel_status-IsFinal) depth 20 fits 5000

  pub process_get_acquisition_status-Sound : Sound (process_get_acquisition_status w)
  unfolding process_get_acquisition_status
  process_get_acquisition_status-Sound = search (sound_rules, yields_rules)

  pub process_set_acquisition-Sound :
      (arguments : Json) → Sound (process_set_acquisition w arguments)
  unfolding process_set_acquisition
  process_set_acquisition-Sound arguments =
      search (sound_rules, yields_rules, set_acquisition-IsFinal) depth 20 fits 5000

  invalid_address-Reads : (address : Json) → Reads {Emu = Emu} (invalid_address w address)
  invalid_address-Reads address = record { run = λ d. ground arith }

  pub process_set_scope_address-Sound :
      (arguments : Json) → Sound (process_set_scope_address w arguments)
  unfolding process_set_scope_address
  process_set_scope_address-Sound arguments =
      search (sound_rules, yields_rules, invalid_address-Reads) depth 30 fits 5000

  pub process_disable_dma-Sound : (arguments : Json) → Sound (process_disable_dma w arguments)
  unfolding process_disable_dma
  process_disable_dma-Sound arguments = search (sound_rules, yields_rules) depth 20 fits 5000

  pub process_get_clock-Sound : (arguments : Json) → Sound (process_get_clock w arguments)
  unfolding process_get_clock
  process_get_clock-Sound arguments = search (sound_rules, yields_rules) depth 30 fits 5000

  set_primary-IsFinal :
      (arguments : Json) → Yields {S = Driver Emu} IsFinalReply (set_primary w arguments)
  set_primary-IsFinal arguments =
      search (yields_rules, coded-IsFinal, set_base_clock-IsFinal) depth 20 fits 5000

  set_generated-IsFinal :
      (arguments : Json) → Yields {S = Driver Emu} IsFinalReply (set_generated w arguments)
  set_generated-IsFinal arguments =
      search (yields_rules, coded-IsFinal, set_generated_clock-IsFinal) depth 30 fits 5000

  pub process_set_clock-Sound : (arguments : Json) → Sound (process_set_clock w arguments)
  unfolding process_set_clock
  process_set_clock-Sound arguments =
      search (sound_rules, set_primary-IsFinal, set_generated-IsFinal) depth 20 fits 5000

  pub process_get_version-Sound : (arguments : Json) → Sound (process_get_version w arguments)
  unfolding process_get_version
  process_get_version-Sound arguments = search (sound_rules, yields_rules) depth 20 fits 5000

  pub process_set_debug_level-Sound :
      (arguments : Json) → Sound (process_set_debug_level w arguments)
  unfolding process_set_debug_level
  process_set_debug_level-Sound arguments = search (sound_rules, yields_rules) depth 20 fits 5000

  pub process_get_debug_level-Sound : Sound (process_get_debug_level w)
  unfolding process_get_debug_level
  process_get_debug_level-Sound = search (sound_rules, yields_rules)
