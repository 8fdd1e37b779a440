-- ===== src/MockModule/Lifecycle/Resources.antt =====
-- mock_module/mock_module.c: what the module holds of the kernel after its loading, and what it
-- gives back.
use uscope_driver.Prelude.{
  ℕ, zero, suc, ◌+◌, ◌≡◌, ◌<◌, ◌≤◌, refl, inl, inr, Bool, true, false, List, Option, none, some,
  ◌==◌, ◌≢◌, if◌then◌else◌, arith, Bool-cases, Option-cases, ap, ltb, fun_ext,
}
use uscope_driver.Exec.{ok, ◌>>=◌}
use uscope_driver.MockModule.{
  MockModule, Resource, Holdings, same, extend, withdraw, chrdev_region, device_class, scope_data,
  sample_buffer, bitstream_memory, page, device_name, cdev, device_node, platform_clock, rate_file,
  n_minor_numbers,
}
use uscope_driver.MockModule.Lifecycle.{
  Registrations, acquire, give_back, add_devices, add_clocks, finish_init, allocate_samples, init,
  unloaded, exit, remove_clocks, remove_devices,
}

-- The kernel refuses nothing that the loading looks at: the region, the memory of the module's data,
-- the clocks and their files.
pub record IsComplete (a : Registrations) : Type 0 where
  pub region : a.region_code ≡ 0
  pub allocated : a.data_allocated ≡ true
  pub clocks : (i : ℕ) → a.clock_code i ≡ 0
  pub files : (i : ℕ) → a.file_code i ≡ 0

abbrev pub device : Bool → ℕ → Holdings → Holdings
device added i held q =
    if same (device_node i) q
    then if added then true else held q
    else if same (cdev i) q
    then if added then true else held q
    else extend (device_name i) held q

device_refused :
    (i : ℕ) (held : Holdings) (q : Resource) → extend (device_name i) held q ≡ device false i held q
device_refused i held (device_node j) = ground arith
device_refused i held (cdev j) = ground arith
device_refused i held q = refl

device_added :
    (i : ℕ) (held : Holdings) (q : Resource)
    → extend (device_node i) (extend (cdev i) (extend (device_name i) held)) q
      ≡ device true i held q
device_added i held q = refl

abbrev pub with_devices : Registrations → ℕ → ℕ → Holdings → Holdings
with_devices a zero i held = held
with_devices a (suc left) i held = with_devices a left (i + 1) (device (a.cdev_code i == 0) i held)

abbrev pub with_clocks : ℕ → ℕ → Holdings → Holdings
with_clocks zero i held = held
with_clocks (suc left) i held =
    with_clocks left (i + 1) (extend (rate_file i) (extend (platform_clock i) held))

add_devices_lem :
    (a : Registrations) (left i : ℕ) (m : MockModule)
    → add_devices a left i m ≡ (ok tt, record m { held = with_devices a left i m.held })
unfolding add_devices acquire
add_devices_lem a zero i m = refl
add_devices_lem a (suc left) i m = elim (Bool-cases (a.cdev_code i == 0)) [
  | inl e ↦ rw (e, add_devices_lem a left (i + 1)) refl
  | inr e ↦ rw (e, add_devices_lem a left (i + 1), fun_ext (device_refused i m.held)) refl
]

add_clocks_lem :
    (a : Registrations) (h : IsComplete a) (left i : ℕ) (m : MockModule)
    → add_clocks a left i m ≡ (ok none, record m { held = with_clocks left i m.held })
unfolding add_clocks acquire
add_clocks_lem a h zero i m = refl
add_clocks_lem a h (suc left) i m =
    rw (h.clocks i, h.clocks 0, h.files i, add_clocks_lem a h left (i + 1)) refl

abbrev pub optional : Bool → Resource → Holdings → Holdings
optional there r held = if there then extend r held else held

abbrev pub is_some {ℓ} : {A : Type ℓ} → Option A → Bool
is_some none = false
is_some (some a) = true

-- The module after a loading in which nothing was refused.
abbrev pub loaded : Registrations → MockModule
loaded a = record {
  read_data_buffer = a.sample_memory;
  new_data_available = 0;
  fpga_loaded = false;
  mock_page = none;
  held = optional a.bitstream_found bitstream_memory (
      optional (is_some a.sample_memory) sample_buffer (
        with_clocks 4 0 (
          with_devices a n_minor_numbers 0
            (extend scope_data (extend device_class (extend chrdev_region (λ q. false)))))));
}

abbrev finished : Registrations → MockModule → MockModule
finished a m = record m {
  read_data_buffer = a.sample_memory;
  held =
      optional a.bitstream_found bitstream_memory
        (optional (is_some a.sample_memory) sample_buffer m.held);
}

finish_init_lem : (a : Registrations) (m : MockModule) → finish_init a none m ≡ (ok 0, finished a m)
unfolding finish_init allocate_samples acquire
finish_init_lem a m = ground arith

pub init_complete : (a : Registrations) → IsComplete a → init a unloaded ≡ (ok 0, loaded a)
unfolding init acquire
init_complete a h =
    simp
      (
        h.region,
        h.allocated,
        add_devices_lem a n_minor_numbers,
        add_clocks_lem a h 4,
        finish_init_lem a,
      )
      refl

-- The module holds what the loading left it, and the page of the mappings if there is one.
abbrev pub Holds : Registrations → MockModule → Type 0
Holds a m =
    (r : Resource) → m.held r ≡ (if same page r then is_some m.mock_page else (loaded a).held r)

abbrev without_clocks : Holdings → Holdings
without_clocks held = withdraw (platform_clock 3) (
    withdraw (rate_file 3) (
      withdraw (platform_clock 2) (
        withdraw (rate_file 2) (
          withdraw (platform_clock 1)
            (withdraw (rate_file 1) (withdraw (platform_clock 0) (withdraw (rate_file 0) held)))))))

abbrev without_devices : Holdings → Holdings
without_devices held = withdraw (device_node 3) (
    withdraw (cdev 3) (
      withdraw (device_node 2) (
        withdraw (cdev 2) (
          withdraw (device_node 1)
            (withdraw (cdev 1) (withdraw (device_node 0) (withdraw (cdev 0) held)))))))

abbrev without_page : Option (List ℕ) → Holdings → Holdings
without_page mock_page held = if is_some mock_page then withdraw page held else held

-- What is left of the holdings `held` after the unloading.
abbrev left_over : Option (List ℕ) → Holdings → Holdings
left_over mock_page held = without_page mock_page (
    withdraw chrdev_region (
      withdraw device_class (
        without_devices
          (without_clocks (withdraw bitstream_memory (withdraw sample_buffer held))))))

-- The data of the module and the names of its four devices.
abbrev pub is_kept : Resource → Bool
is_kept scope_data = true
is_kept (device_name i) = ltb i 4
is_kept _ = false

module _ (a : Registrations) (m : MockModule) (h : Holds a m) where
  clocks_there :
      (m.held (platform_clock 0) ≡ true)
      × (m.held (platform_clock 1) ≡ true)
      × (m.held (platform_clock 2) ≡ true)
      × (m.held (platform_clock 3) ≡ true)
  clocks_there = (
    ground (arith, h (platform_clock 0)),
    ground (arith, h (platform_clock 1)),
    ground (arith, h (platform_clock 2)),
    ground (arith, h (platform_clock 3)),
  )

  pub exit_lem : exit m ≡ (ok tt, record m { held = left_over m.mock_page m.held })
  unfolding exit give_back remove_clocks remove_devices
  exit_lem =
      let (t0, t1, t2, t3) = clocks_there in
      elim (Option-cases m.mock_page) [
        | inl e ↦ simp (t0, t1, t2, t3, e) refl
        | inr (contents, e) ↦ simp (t0, t1, t2, t3, e) refl
      ]

  -- Only the data of the module and the names of its devices are left.
  pub left_over_lem : (r : Resource) → left_over m.mock_page m.held r ≡ is_kept r
  left_over_lem (device_name i) = ground (arith, h (device_name i))
  left_over_lem (cdev i) = ground (arith, h (cdev i))
  left_over_lem (device_node i) = ground (arith, h (device_node i))
  left_over_lem (platform_clock i) = ground (arith, h (platform_clock i))
  left_over_lem (rate_file i) = ground (arith, h (rate_file i))
  left_over_lem r = ground (arith, h r)

-- The kernel refuses the file of clock `j`, and nothing that the loading looks at before.
pub record RefusesFile (a : Registrations) (j : ℕ) : Type 0 where
  pub region : a.region_code ≡ 0
  pub allocated : a.data_allocated ≡ true
  pub clocks : (i : ℕ) → a.clock_code i ≡ 0
  pub small : j < 4
  pub file : a.file_code j ≢ 0

add_clocks_refused :
    (a : Registrations) (j : ℕ) (h : RefusesFile a j) (left i : ℕ) (m : MockModule)
    → i ≤ j
    → j < i + left
    → (add_clocks a left i m).0 ≡ ok (some a.region_code)
      × ((add_clocks a left i m).1.read_data_buffer ≡ m.read_data_buffer)
unfolding add_clocks acquire
add_clocks_refused a j h zero i m le lt = absurd (omega arith)
add_clocks_refused a j h (suc left) i m le lt =
    let ih = λ (m' : MockModule) (le' : i + 1 ≤ j).
      add_clocks_refused a j h left (i + 1) m' le' (omega arith) in
    elim (Bool-cases (a.file_code i == 0)) [
      | inl e ↦ rw (h.clocks i, h.clocks 0, e) (ih _ (ground (arith, h.file)))
      | inr e ↦ rw (h.clocks i, h.clocks 0, e) (refl, refl)
    ]

stopped_clocks :
    (a : Registrations) (j : ℕ) (h : RefusesFile a j) (m : MockModule)
    → ((add_clocks a 4 0 >>= finish_init a) m).0 ≡ ok 0
      × (((add_clocks a 4 0 >>= finish_init a) m).1.read_data_buffer ≡ m.read_data_buffer)
unfolding finish_init
stopped_clocks a j h m =
    let (e, b) = add_clocks_refused a j h 4 0 m (omega arith) (omega (arith, h.small)) in
    rw (e, b) (ap ok h.region, refl)

-- A refused file of a clock ends the loading as if it had succeeded, with no buffer.
pub init_refused :
    (a : Registrations) (j : ℕ) (h : RefusesFile a j)
    → (init a unloaded).0 ≡ ok 0 × ((init a unloaded).1.read_data_buffer ≡ none)
unfolding init acquire
init_refused a j h =
    simp (h.region, h.allocated, add_devices_lem a n_minor_numbers) (stopped_clocks a j h _)
