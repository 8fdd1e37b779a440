-- ===== src/Tests/Device.antt =====
-- Tests of the kernel module and of the samples that are read from it.
use uscope_driver.Prelude.{
  ℕ, zero, suc, ◌+◌, ◌*◌, ◌%◌, ◌<◌, ◌≡◌, refl, true, false, List, [], ◌∷◌, some, arith, length,
  ◌==◌, if◌then◌else◌,
}
use uscope_driver.Exec.{ok, err, fault, ◌>>◌}
use uscope_driver.MockModule.{
  Copy, efault, Resource, Reading, returned, refused, read, write, ioctl, ioctl_new_data_available,
  kernel_buffer_size, zeroed,
}
use uscope_driver.MockModule.Lifecycle.{Registrations, init, unloaded, exit}
use uscope_driver.MockModule.Lifecycle.Resources.{is_kept, IsComplete, RefusesFile}
use uscope_driver.MockModule.Calls.{Call, reading, writing, asking, touching, storing, run, AllFair}
use uscope_driver.MockModule.Calls.Lifetime.{
  HasSamples, lifetime, status_lem, no_new_data, refused_file_faults,
}
use uscope_driver.MockModule.Calls.Samples.{IsWhole, IsWhole-IsCopy, read-write}
use uscope_driver.Scope.{Buffers, shunt_data}
use uscope_driver.ScopeAccessor.{n_words, get_scope_data}
use uscope_driver.ScopeAccessor.Words.{bytes_of, AllWords, length-zeroed}
use uscope_driver.ScopeAccessor.Mocked.{get_scope_data-write}
use uscope_driver.ScopeAccessor.FailedRead.{failed_read}
use uscope_driver.Floats.{Float}
use uscope_driver.DataGenerator.{EmulatedDataGenerator, n_channels, make_generator, set_data_file}
use uscope_driver.DataGenerator.Replay.{Fills, play, joined, play-set_data_file}
use uscope_driver.Tests.Samples.{whole_numbers}
use uscope_driver.Tests.Scope.{scope}

-- A kernel that refuses the second device file only.
abbrev kernel : Registrations
kernel = record {
  region_code = 0;
  data_allocated = true;
  cdev_code = λ i. if i == 1 then 16 else 0;
  clock_code = λ i. 0;
  file_code = λ i. 0;
  sample_memory = some (zeroed kernel_buffer_size);
  bitstream_found = true;
}

kernel-IsComplete : IsComplete kernel
kernel-IsComplete = record {
  region = refl;
  allocated = refl;
  clocks = λ i. refl;
  files = λ i. refl;
}

kernel-HasSamples : HasSamples kernel (zeroed kernel_buffer_size)
kernel-HasSamples = record { found = refl; sized = length-zeroed kernel_buffer_size }

abbrev copy_all : Copy
copy_all bytes = (0, bytes)

copy_all-IsWhole : IsWhole copy_all
copy_all-IsWhole bytes = refl

-- A bitstream is written, and samples, and registers are stored through a mapping.
abbrev calls : List Call
calls =
    writing copy_all 3 (1 ∷ 2 ∷ [])
    ∷ touching true
    ∷ storing 4 7
    ∷ writing copy_all 0 (5 ∷ 6 ∷ [])
    ∷ reading copy_all 0 2
    ∷ asking 0 9
    ∷ []

calls_fair : AllFair calls
calls_fair = let k = IsWhole-IsCopy copy_all copy_all-IsWhole in (k, (tt, (tt, (k, (k, (tt, tt))))))

lifetime_example :
    let r = (do init kernel; run 4096 calls; exit) unloaded in
    (r.0 ≡ ok tt) × ((q : Resource) → r.1.held q ≡ is_kept q)
lifetime_example =
    lifetime kernel (zeroed kernel_buffer_size) kernel-IsComplete kernel-HasSamples 4096 calls
      calls_fair

status_lem_example :
    ((do init kernel; run 4096 calls; read copy_all 3 1) unloaded).0
    ≡ ok (record { delivered = b'1' ∷ []; result = returned 1 })
status_lem_example =
    status_lem kernel (zeroed kernel_buffer_size) kernel-IsComplete kernel-HasSamples 4096 1 calls
      copy_all calls_fair (λ byte. refl)

no_new_data_example :
    ((do init kernel; run 4096 calls; ioctl 0 ioctl_new_data_available) unloaded).0
    ≡ ok (returned 0)
no_new_data_example =
    no_new_data kernel (zeroed kernel_buffer_size) kernel-IsComplete kernel-HasSamples 4096 calls
      calls_fair

read-write_example :
    ((do
      init kernel
      run 4096 calls
      write copy_all 0 (7 ∷ 8 ∷ 9 ∷ [])
      run 4096 (reading copy_all 0 3 ∷ [])
      read copy_all 0 2)
      unloaded).0
    ≡ ok (record { delivered = 7 ∷ 8 ∷ []; result = returned 2 })
read-write_example =
    read-write kernel (zeroed kernel_buffer_size) kernel-IsComplete kernel-HasSamples 4096 2 calls
      (reading copy_all 0 3 ∷ []) copy_all copy_all (7 ∷ 8 ∷ 9 ∷ []) calls_fair
      (IsWhole-IsCopy copy_all copy_all-IsWhole, tt) (refl, tt) copy_all-IsWhole copy_all-IsWhole
      (omega arith) (omega arith)

abbrev strict_kernel : Registrations
strict_kernel = record kernel { file_code = λ i. if i == 2 then 12 else 0 }

strict_kernel-RefusesFile : RefusesFile strict_kernel 2
strict_kernel-RefusesFile = record {
  region = refl;
  allocated = refl;
  clocks = λ i. refl;
  small = omega arith;
  file = λ e. omega (arith, e);
}

refused_file_faults_example :
    ((init strict_kernel unloaded).0 ≡ ok 0)
    × (((do init strict_kernel; read copy_all 0 16) unloaded).0 ≡ err fault)
refused_file_faults_example =
    refused_file_faults strict_kernel 2 copy_all 16 strict_kernel-RefusesFile (omega arith)

-- As many samples as the array has room for, of channel 1.
unfoldable samples : ℕ → List ℕ
samples zero = []
samples (suc n) = (0x100000000 + n % 1024) ∷ samples n

length-samples : (n : ℕ) → length (samples n) ≡ n
unfolding samples
length-samples zero = refl
length-samples (suc n) = omega (arith, length-samples n)

samples-AllWords : (n : ℕ) → AllWords (samples n)
unfolding samples
samples-AllWords zero = tt
samples-AllWords (suc n) = (omega arith, samples-AllWords n)

get_scope_data-write_example :
    (r : Reading) × (((do
      init kernel
      run 4096 calls
      write copy_all 0 (bytes_of (samples n_words))
      run 4096 (touching false ∷ [])
      read copy_all 0 (n_words * 8))
        unloaded).0
      ≡ ok r)
    × (get_scope_data r ≡ ok (samples n_words))
get_scope_data-write_example =
    get_scope_data-write kernel (zeroed kernel_buffer_size) kernel-IsComplete kernel-HasSamples 4096
      calls (touching false ∷ []) copy_all copy_all (samples n_words) calls_fair (tt, tt) (refl, tt)
      copy_all-IsWhole copy_all-IsWhole (length-samples n_words) (samples-AllWords n_words)

failed_read_example :
    (raw_data : List ℕ) × (result : Buffers) × (get_scope_data
        (record { delivered = []; result = refused efault })
      ≡ ok raw_data)
    × (shunt_data whole_numbers (λ n. n) raw_data scope ≡ (ok result, scope))
    × (length (result 0) ≡ n_words)
failed_read_example = failed_read whole_numbers (λ n. n) scope efault 0 1 refl refl

-- Two buffers of two samples for each channel.
abbrev recorded : ℕ → List Float
recorded c = 1 ∷ 2 ∷ 3 ∷ c ∷ []

recorded-Fills : Fills 2 2 recorded
recorded-Fills = record {
  sized = omega arith;
  some_chunk = omega arith;
  small = omega arith;
  full = λ c. refl;
}

play-set_data_file_example :
    (r : List (List (List Float))) × (g : EmulatedDataGenerator) × (set_data_file
        (ok recorded)
        (make_generator 2)
      ≡ (ok tt, g))
    × (play whole_numbers (λ i j. 0) [] 2 g ≡ (ok r, g))
    × ((c : ℕ) → c < n_channels → joined c r ≡ recorded c)
play-set_data_file_example =
    play-set_data_file 2 2 recorded recorded-Fills whole_numbers (λ i j. 0) []
