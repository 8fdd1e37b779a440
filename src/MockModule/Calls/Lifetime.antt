-- ===== src/MockModule/Calls/Lifetime.antt =====
-- mock_module/mock_module.c: the module from its loading to its unloading.
use uscope_driver.Prelude.{
  ◌<◌, ◌==◌, false, ℕ, ◌≡◌, refl, List, [], ◌∷◌, some, if◌then◌else◌, arith, length,
}
use uscope_driver.Exec.{ok, err, fault, ◌>>◌}
use uscope_driver.MockModule.{
  Copy, clip, Resource, kernel_buffer_size, returned, read, read_samples, read_status, ioctl,
  ioctl_new_data_available,
}
use uscope_driver.MockModule.Lifecycle.{Registrations, init, unloaded, exit}
use uscope_driver.MockModule.Lifecycle.Resources.{
  IsComplete, RefusesFile, loaded, init_complete, init_refused, exit_lem, left_over_lem, is_kept,
}
use uscope_driver.MockModule.Calls.{Call, run, AllFair, any_loads}
use uscope_driver.MockModule.Calls.Reached.{IsWorking, run-Works}

-- The kernel has the memory of the samples too.
pub record HasSamples (a : Registrations) (memory : List ℕ) : Type 0 where
  pub found : a.sample_memory ≡ some memory
  pub sized : length memory ≡ kernel_buffer_size

module _ (a : Registrations) (memory : List ℕ) (h : IsComplete a) (k : HasSamples a memory) where
  pub loaded-IsWorking : IsWorking a (loaded a)
  loaded-IsWorking = record {
    buffer = memory;
    buffered = k.found;
    sized = k.sized;
    quiet = refl;
    holds = λ r. ground arith;
  }

  -- A module that is loaded with nothing refused, used by any calls and unloaded again has all calls
  -- return. It then holds of the kernel the memory of its own data and the names of its four devices,
  -- which it has no more use for, and nothing else, whichever device files were refused.
  pub lifetime :
      (page_size : ℕ) (cs : List Call)
      → AllFair cs
      → let r = (do init a; run page_size cs; exit) unloaded in
        (r.0 ≡ ok tt) × ((q : Resource) → r.1.held q ≡ is_kept q)
  lifetime page_size cs fair =
      let w = run-Works a page_size cs (loaded a) loaded-IsWorking fair in
      let m = (run page_size cs (loaded a)).1 in
      rw (init_complete a h, w.returns, exit_lem a m w.working.holds)
        (refl, left_over_lem a m w.working.holds)

  -- After the loading and any calls the status file reads `1` exactly if one of them wrote a
  -- bitstream, and `0` otherwise.
  pub status_lem :
      (page_size count : ℕ) (cs : List Call) (copy : Copy)
      → AllFair cs
      → ((byte : ℕ) → copy (byte ∷ []) ≡ (0, byte ∷ []))
      → ((do init a; run page_size cs; read copy 3 count) unloaded).0
        ≡ ok
            (record { delivered = (if any_loads cs then b'1' else b'0') ∷ []; result = returned 1 })
  unfolding read read_status
  status_lem page_size count cs copy fair whole =
      let w = run-Works a page_size cs (loaded a) loaded-IsWorking fair in
      rw (init_complete a h, w.returns, w.marked, whole) refl

  -- After the loading and any calls, samples that were written included, the module says that there
  -- are no new samples.
  pub no_new_data :
      (page_size : ℕ) (cs : List Call)
      → AllFair cs
      → ((do init a; run page_size cs; ioctl 0 ioctl_new_data_available) unloaded).0
        ≡ ok (returned 0)
  unfolding ioctl
  no_new_data page_size cs fair =
      let w = run-Works a page_size cs (loaded a) loaded-IsWorking fair in
      rw (init_complete a h, w.returns, w.working.quiet) refl

clip_nonzero : (count : ℕ) → 0 < count → (clip count == 0) ≡ false
unfolding clip
clip_nonzero count pos = ground arith

-- A refused file of a clock is reported as a successful loading, and every read of samples, of a byte
-- at least, is then a fault.
pub refused_file_faults :
    (a : Registrations) (j : ℕ) (copy : Copy) (count : ℕ)
    → RefusesFile a j
    → 0 < count
    → ((init a unloaded).0 ≡ ok 0) × (((do init a; read copy 0 count) unloaded).0 ≡ err fault)
unfolding read read_samples
refused_file_faults a j copy count h pos =
    let (e, b) = init_refused a j h in
    let wanted : (clip count == 0) ≡ false = clip_nonzero count pos in
    rw (e, b, wanted) (refl, refl)
