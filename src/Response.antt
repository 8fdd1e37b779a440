-- ===== src/Response.antt =====
-- includes/server_frontend/infrastructure/response.hpp: the codes of the responses.
use uscope_driver.Prelude.{ℕ, ◌≡◌, arith}

pub data ResponseCode : Type 0 where
  ok bitstream_not_found invalid_cmd_schema invalid_arg bitstream_load_failed : ResponseCode
  internal_error emulation_error deployment_error hil_bus_conflict_warning : ResponseCode
  driver_file_not_found driver_write_failed : ResponseCode

unfoldable pub as_integer : ResponseCode → ℕ
as_integer ResponseCode.ok = 1
as_integer bitstream_not_found = 2
as_integer invalid_cmd_schema = 3
as_integer invalid_arg = 4
as_integer bitstream_load_failed = 5
as_integer internal_error = 6
as_integer emulation_error = 7
as_integer deployment_error = 8
as_integer hil_bus_conflict_warning = 9
as_integer driver_file_not_found = 10
as_integer driver_write_failed = 11

-- The client can tell the codes apart by their numbers.
pub as_integer_injective : (c d : ResponseCode) → as_integer c ≡ as_integer d → c ≡ d
unfolding as_integer
as_integer_injective c d h = ground arith
