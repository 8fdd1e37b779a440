-- ===== src/Bridge/Construction.antt =====
-- src/hw_interface/fpga_bridge.cpp: the constructor of a bridge, which finds out whether the FPGA is
-- loaded already. Every manager and every deployer has a bridge of its own, and they share the mark.
use uscope_driver.Prelude.{String, true, Option, none, some, if◌then◌else◌, str_eq}
use uscope_driver.Bridge.{FpgaBridge}
use uscope_driver.Interfaces.{InterfacesDictionary, FilePath, PathError, found, get_fpga_state_if}
use uscope_driver.Interfaces

-- How a constructor ends: with a bridge, by a call of `exit`, or with an exception.
pub data Construction : Type 0 where
  made : FpgaBridge → Construction
  exited : Construction
  thrown : PathError → Construction

-- `read_word` is the first word of a file.
abbrev with_state : (String → String) → FilePath → FpgaBridge → Construction
with_state read_word (found path) h =
    if str_eq (read_word path) "operating" then made (record h { fpga_loaded = true }) else made h
with_state read_word (Interfaces.thrown e) h = thrown e

unfoldable pub make_fpga_bridge :
    (String → String) → Option String → InterfacesDictionary → FpgaBridge → Construction
make_fpga_bridge read_word none d h = exited
make_fpga_bridge read_word (some arch) d h = with_state read_word (get_fpga_state_if d) h
