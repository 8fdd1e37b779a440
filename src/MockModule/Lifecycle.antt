-- ===== src/MockModule/Lifecycle.antt =====
-- mock_module/mock_module.c: the loading and the unloading of the module. What the kernel's
-- registrations answer is an argument.
pub mod Resources
use uscope_driver.Prelude.{
  ℕ, zero, suc, ◌+◌, Bool, any, true, false, List, [], ◌∷◌, Option, none, some, ◌==◌, not,
  if◌then◌else◌,
}
use uscope_driver.Exec.{Exec, ok, fault, Result, pure, raise, gets, modify, choose, ◌>>=◌, ◌>>◌}
use uscope_driver.MockModule.{
  MockModule, Resource, extend, withdraw, chrdev_region, device_class, scope_data, sample_buffer,
  bitstream_memory, page, device_name, cdev, device_node, platform_clock, rate_file,
  n_minor_numbers,
}

-- The answers of the kernel during the loading. A code is the absolute value of an error number, or
-- 0; a device that is refused is an error pointer. `sample_memory` is what `vmalloc` gives, with
-- whatever it contains.
pub record Registrations : Type 0 where
  pub region_code : ℕ
  pub data_allocated : Bool
  pub cdev_code : ℕ → ℕ
  pub clock_code : ℕ → ℕ
  pub file_code : ℕ → ℕ
  pub sample_memory : Option (List ℕ)
  pub bitstream_found : Bool

unfoldable pub acquire : Resource → Exec MockModule (Unit {0})
acquire r m = (ok tt, record m { held = extend r m.held })

unfoldable pub give_back : Resource → Exec MockModule (Unit {0})
give_back r m = (ok tt, record m { held = withdraw r m.held })

module _ (a : Registrations) where
  -- The loop over the devices, from device `i` on. Each device of the module's data gets a name,
  -- whose memory a last reference would give back. A device that is refused is only logged.
  unfoldable pub add_devices : ℕ → ℕ → Exec MockModule (Unit {0})
  add_devices zero i = pure tt
  add_devices (suc left) i = do
    acquire (device_name i)
    (if a.cdev_code i == 0 then (do acquire (cdev i); acquire (device_node i)) else pure tt)
    add_devices left (i + 1)

  -- The loop over the clocks, which looks at the first one each time, and ends the loading with the
  -- code, or goes on. A file on an error pointer is undefined.
  unfoldable pub add_clocks : ℕ → ℕ → Exec MockModule (Option ℕ)
  add_clocks zero i = pure none
  add_clocks (suc left) i =
      let rest = add_clocks left (i + 1) in
      (if a.clock_code i == 0 then acquire (platform_clock i) else pure tt)
      >> (if not (a.clock_code 0 == 0)
          then (do give_back device_class; give_back chrdev_region; pure (some (a.clock_code 0)))
          else if not (a.clock_code i == 0)
          then raise fault
          else if a.file_code i == 0
          then (do acquire (rate_file i); rest)
          else pure (some a.region_code))

  unfoldable pub allocate_samples : Exec MockModule (Unit {0})
  allocate_samples m = elim a.sample_memory [
    | none ↦ (ok tt, record m { read_data_buffer = none })
    | some memory ↦
        (ok tt, record m { read_data_buffer = some memory; held = extend sample_buffer m.held })
  ]

  unfoldable pub finish_init : Option ℕ → Exec MockModule ℕ
  finish_init (some code) = pure code
  finish_init none = do
    allocate_samples
    (if a.bitstream_found then acquire bitstream_memory else pure tt)
    pure 0

  abbrev set_up : Exec MockModule ℕ
  set_up = do
    acquire chrdev_region
    acquire device_class
    (if a.data_allocated then acquire scope_data else raise fault)
    modify (λ m. record m { new_data_available = 0 })
    add_devices n_minor_numbers 0
    stopped ← add_clocks 4 0
    finish_init stopped

  -- `ucube_lkm_init`, and the code that it returns.
  unfoldable pub init : Exec MockModule ℕ
  init = do
    modify (λ m. record m { fpga_loaded = false })
    (if a.region_code == 0 then set_up else pure a.region_code)

-- The module before it is loaded: its static variables are zero.
abbrev pub unloaded : MockModule
unloaded = record {
  read_data_buffer = none;
  new_data_available = 0;
  fpga_loaded = false;
  mock_page = none;
  held = λ r. false;
}

-- The file of a clock that is not there is reached through a null or error pointer.
unfoldable pub remove_clocks : ℕ → ℕ → Exec MockModule (Unit {0})
remove_clocks zero i = pure tt
remove_clocks (suc left) i = do
  there ← gets (λ m. m.held (platform_clock i))
  (if there then give_back (rate_file i) else raise fault)
  give_back (platform_clock i)
  remove_clocks left (i + 1)

unfoldable pub remove_devices : ℕ → ℕ → Exec MockModule (Unit {0})
remove_devices zero i = pure tt
remove_devices (suc left) i = do
  give_back (cdev i)
  give_back (device_node i)
  remove_devices left (i + 1)

-- `ucube_lkm_exit`. The module's data and the names of its devices are left to the last
-- references to the devices, which are never given up.
unfoldable pub exit : Exec MockModule (Unit {0})
exit = do
  give_back sample_buffer
  give_back bitstream_memory
  remove_clocks 4 0
  remove_devices n_minor_numbers 0
  give_back device_class
  give_back chrdev_region
  page_there ← gets (λ m. m.mock_page)
  elim page_there [ none ↦ pure tt | some contents ↦ give_back page ]
