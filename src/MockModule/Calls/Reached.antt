-- ===== src/MockModule/Calls/Reached.antt =====
-- mock_module/mock_module.c: what holds after any calls on a loaded module.
use uscope_driver.Prelude.{
  ℕ, ◌≡◌, ◌≤◌, refl, Bool, true, false, List, [], ◌∷◌, Option, none, some, ◌||◌, ◌==◌,
  if◌then◌else◌, arith, ap, inl, inr, Bool-cases, length, take, drop, length-append, length-drop,
  length-take_le,
}
use uscope_driver.Exec.{Exec, Result, ok, pure, ◌>>◌}
use uscope_driver.MockModule.{
  Copy, IsCopy, MockModule, Holdings, extend, Resource, ioctl_new_data_available, page, same,
  kernel_buffer_size, read, read_samples, deliver, read_status, write, write_samples, clip, ioctl,
  page_fault, find_page, map_page, overwrite,
}
use uscope_driver.MockModule.Lifecycle.{Registrations}
use uscope_driver.MockModule.Lifecycle.Resources.{Holds}
use uscope_driver.MockModule.Calls.{
  Call, reading, writing, asking, touching, storing, handle, run, store, IsFair, AllFair, loads,
  any_loads,
}

-- The module works: its buffer is there and whole, no new data are announced, and it holds what
-- its loading left it and the page of the mappings.
pub record IsWorking (a : Registrations) (m : MockModule) : Type 0 where
  pub buffer : List ℕ
  pub buffered : m.read_data_buffer ≡ some buffer
  pub sized : length buffer ≡ kernel_buffer_size
  pub quiet : m.new_data_available ≡ 0
  pub holds : Holds a m

pub clip_le : (n : ℕ) → clip n ≤ kernel_buffer_size
unfolding clip
clip_le n = ground arith

three_not_zero : (minor : ℕ) → (minor == 3) ≡ true → (minor == 0) ≡ false
three_not_zero minor e = ground arith

length-overwrite :
    (arrived buffer : List ℕ)
    → length arrived ≤ length buffer
    → length (overwrite arrived buffer) ≡ length buffer
length-overwrite arrived buffer h = omega (
  arith,
  length-append arrived (drop (length arrived) buffer),
  length-drop (length arrived) buffer h,
)

-- A call that returns, on a module that works before and after it; the mark of a loaded bitstream is
-- set where `sets` says so.
pub record Works (a : Registrations) (before sets : Bool) {A : Type 0} (r : Result A × MockModule)
    : Type 0 where
  pub value : A
  pub returns : r.0 ≡ ok value
  pub working : IsWorking a r.1
  pub marked : r.1.fpga_loaded ≡ (before || sets)

module _ {a : Registrations} {before sets : Bool} {A : Type 0} where
  Works-if :
      (t : Bool) (x y : Result A × MockModule)
      → Works a before sets x
      → Works a before sets y
      → Works a before sets (if t then x else y)
  Works-if true x y hx hy = hx
  Works-if false x y hx hy = hy

  Works-then :
      (x : Exec MockModule A) (m : MockModule)
      → Works a before sets (x m)
      → Works a before sets ((x >> pure (tt {0})) m)
  Works-then x m h = record {
    value = tt;
    returns = rw h.returns refl;
    working = rw h.returns h.working;
    marked = rw h.returns h.marked;
  }

Works-ok :
    (a : Registrations) (m : MockModule) {A : Type 0} (r : A)
    → IsWorking a m
    → Works a m.fpga_loaded false (ok r, m)
Works-ok a m r h = record { value = r; returns = refl; working = h; marked = ground arith }

module _ (a : Registrations) (m : MockModule) (h : IsWorking a m) where
  read_samples-Works :
      (copy : Copy) (count : ℕ) (o : Option (List ℕ))
      → o ≡ some h.buffer
      → Works a m.fpga_loaded false (read_samples copy count o m)
  unfolding read_samples deliver
  read_samples-Works copy count none e = cc
  read_samples-Works copy count (some buffer) e =
      Works-if ((copy (take count buffer)).0 == 0) _ _
        (Works-ok a (record m { new_data_available = 0 }) _
          (record {
            buffer = h.buffer;
            buffered = h.buffered;
            sized = h.sized;
            quiet = refl;
            holds = h.holds;
          }))
        (Works-ok a m _ h)

  read-Works :
      (copy : Copy) (minor count : ℕ) → Works a m.fpga_loaded false (read copy minor count m)
  unfolding read read_status
  read-Works copy minor count =
      Works-if (minor == 0) _ _ (read_samples-Works copy (clip count) m.read_data_buffer h.buffered)
        (Works-if (minor == 3) _ _
          (Works-if ((copy ((if m.fpga_loaded then b'1' else b'0') ∷ [])).0 == 0) _ _
            (Works-ok a m _ h) (Works-ok a m _ h))
          (Works-ok a m _ h))

  overwritten :
      (arrived buffer : List ℕ)
      → length arrived ≤ kernel_buffer_size
      → some buffer ≡ some h.buffer
      → IsWorking a (record m { read_data_buffer = some (overwrite arrived buffer) })
  overwritten arrived buffer le e = record {
    buffer = overwrite arrived buffer;
    buffered = refl;
    sized = omega (
      arith,
      h.sized,
      ap length same_buffer,
      length-overwrite arrived buffer (omega (arith, h.sized, ap length same_buffer)),
    );
    quiet = h.quiet;
    holds = h.holds;
  }
    where
      same_buffer : buffer ≡ h.buffer
      same_buffer = cc

  write_samples-Works :
      (copy : Copy) (bytes : List ℕ) (o : Option (List ℕ))
      → IsCopy copy
      → length bytes ≤ kernel_buffer_size
      → o ≡ some h.buffer
      → Works a m.fpga_loaded false (write_samples copy bytes o m)
  unfolding write_samples
  write_samples-Works copy bytes none k le e = cc
  write_samples-Works copy bytes (some buffer) k le e =
      let new = overwritten (copy bytes).1 buffer (omega (arith, k.bounded bytes)) e in
      Works-if ((copy bytes).0 == 0) _ _ (Works-ok a _ _ new) (Works-ok a _ _ new)

  loaded-IsWorking : IsWorking a (record m { fpga_loaded = true })
  loaded-IsWorking = record {
    buffer = h.buffer;
    buffered = h.buffered;
    sized = h.sized;
    quiet = h.quiet;
    holds = h.holds;
  }

  pub write-Works :
      (copy : Copy) (minor : ℕ) (bytes : List ℕ)
      → IsCopy copy
      → Works a m.fpga_loaded (minor == 3) (write copy minor bytes m)
  unfolding write
  write-Works copy minor bytes k = elim (Bool-cases (minor == 3)) [
    | inl e ↦
        rw (e, three_not_zero minor e)
          (record { value = _; returns = refl; working = loaded-IsWorking; marked = ground arith })
    | inr e ↦ rw e (
        Works-if (minor == 0) _ _
          (write_samples-Works copy (take (clip (length bytes)) bytes) m.read_data_buffer k
            (omega (arith, length-take_le (clip (length bytes)) bytes, clip_le (length bytes)))
            h.buffered)
          (Works-ok a m _ h))
  ]

  ioctl-Works : (minor cmd : ℕ) → Works a m.fpga_loaded false (ioctl minor cmd m)
  unfolding ioctl
  ioctl-Works minor cmd =
      Works-if (minor == 0) _ _
        (Works-if (cmd == ioctl_new_data_available) _ _ (Works-ok a m _ h) (Works-ok a m _ h))
        (Works-ok a m _ h)

  stored : (i byte : ℕ) → IsWorking a (record m { mock_page = store i byte m.mock_page })
  stored i byte = record {
    buffer = h.buffer;
    buffered = h.buffered;
    sized = h.sized;
    quiet = h.quiet;
    holds = λ r. ground (arith, h.holds r);
  }

  paged :
      (held : Holdings) (contents : List ℕ)
      → ((r : Resource) → held r ≡ (if same page r then true else m.held r))
      → IsWorking a (record m { mock_page = some contents; held = held })
  paged held contents k = record {
    buffer = h.buffer;
    buffered = h.buffered;
    sized = h.sized;
    quiet = h.quiet;
    holds = λ r. ground (arith, k r, h.holds r);
  }

  mapped-Works :
      (page_size : ℕ) (page_left : Bool) (o : Option (List ℕ))
      → m.mock_page ≡ o
      → Works a m.fpga_loaded false (map_page page_size (find_page page_size page_left o m) m)
  unfolding find_page map_page
  mapped-Works page_size page_left (some contents) e =
      Works-ok a _ _ (paged m.held _ (λ r. ground (arith, h.holds r)))
  mapped-Works page_size true none e = Works-ok a _ _ (paged (extend page m.held) _ (λ r. refl))
  mapped-Works page_size false none e = Works-ok a m _ h

  page_fault-Works :
      (page_size : ℕ) (page_left : Bool)
      → Works a m.fpga_loaded false (page_fault page_size page_left m)
  unfolding page_fault
  page_fault-Works page_size page_left = mapped-Works page_size page_left m.mock_page refl

  pub handle-Works :
      (page_size : ℕ) (c : Call) → IsFair c → Works a m.fpga_loaded (loads c) (handle page_size c m)
  unfolding handle
  handle-Works page_size (reading copy minor count) k =
      Works-then (read copy minor count) m (read-Works copy minor count)
  handle-Works page_size (writing copy minor bytes) k =
      Works-then (write copy minor bytes) m (write-Works copy minor bytes k)
  handle-Works page_size (asking minor cmd) k =
      Works-then (ioctl minor cmd) m (ioctl-Works minor cmd)
  handle-Works page_size (touching page_left) k =
      Works-then (page_fault page_size page_left) m (page_fault-Works page_size page_left)
  handle-Works page_size (storing i byte) k = Works-ok a _ _ (stored i byte)

-- Calls on a module that works all return and leave it working, and a bitstream counts as loaded
-- after them exactly if it did before or one of them wrote to its file.
pub run-Works :
    (a : Registrations) (page_size : ℕ) (cs : List Call) (m : MockModule)
    → IsWorking a m
    → AllFair cs
    → Works a m.fpga_loaded (any_loads cs) (run page_size cs m)
unfolding run
run-Works a page_size [] m h k = Works-ok a m _ h
run-Works a page_size (c ∷ cs) m h k =
    let first = handle-Works a m h page_size c k.0 in
    let rest = run-Works a page_size cs (handle page_size c m).1 first.working k.1 in
    rw first.returns (record {
      value = tt;
      returns = rest.returns;
      working = rest.working;
      marked = ground (arith, rest.marked, first.marked);
    })
