-- ===== src/MockModule/Calls/Samples.antt =====
-- mock_module/mock_module.c: the samples that a process writes and another one reads.
use uscope_driver.Prelude.{
  ℕ, ◌≡◌, ◌≤◌, refl, Bool, true, false, ◌∙◌, ap, take-length, take-append, ◌==◌, List, [], ◌∷◌,
  Option, none, some, if◌then◌else◌, arith, length, take,
}
use uscope_driver.Exec.{Exec, Result, ok, pure, ◌>>◌, err, fault}
use uscope_driver.MockModule.Calls.{
  Call, handle, run, reading, writing, asking, touching, storing, AllFair,
}
use uscope_driver.MockModule.Lifecycle.{Registrations, init, unloaded}
use uscope_driver.MockModule.Lifecycle.Resources.{IsComplete, loaded, init_complete}
use uscope_driver.MockModule.Calls.Reached.{IsWorking, handle-Works, write-Works, run-Works}
use uscope_driver.MockModule.Calls.Lifetime.{HasSamples, loaded-IsWorking}
use uscope_driver.MockModule.{
  Copy, IsCopy, MockModule, kernel_buffer_size, returned, read, read_samples, deliver, write,
  write_samples, clip, overwrite, ioctl, page_fault, map_page, find_page, read_status,
}

-- A copy that leaves nothing out.
abbrev pub IsWhole : Copy → Type 0
IsWhole copy = (bytes : List ℕ) → copy bytes ≡ (0, bytes)

-- A write to the file of the samples.
abbrev pub writes_samples : Call → Bool
writes_samples (writing copy minor bytes) = minor == 0
writes_samples _ = false

abbrev pub NoSamples : List Call → Type 0
NoSamples [] = Unit {0}
NoSamples (c ∷ cs) = (writes_samples c ≡ false) × NoSamples cs

-- The samples that a handler leaves.
abbrev pub after : {A : Type 0} → Result A × MockModule → Option (List ℕ)
after r = r.1.read_data_buffer

after-if :
    {A : Type 0} (t : Bool) (x y : Result A × MockModule) (o : Option (List ℕ))
    → after x ≡ o
    → after y ≡ o
    → after (if t then x else y) ≡ o
after-if true x y o hx hy = hx
after-if false x y o hx hy = hy

after-deliver :
    (copy : Copy) (count : ℕ) (bytes : List ℕ) (m : MockModule)
    → after (deliver copy count bytes m) ≡ m.read_data_buffer
unfolding deliver
after-deliver copy count bytes m = after-if _ _ _ _ refl refl

after-read_samples :
    (copy : Copy) (count : ℕ) (o : Option (List ℕ)) (m : MockModule)
    → after (read_samples copy count o m) ≡ m.read_data_buffer
unfolding read_samples
after-read_samples copy count none m =
    after-if (count == 0) (deliver copy 0 [] m) (err fault, m) _ (after-deliver copy 0 [] m) refl
after-read_samples copy count (some buffer) m = after-deliver copy count (take count buffer) m

after-map_page :
    (page_size : ℕ) (page_left : Bool) (o : Option (List ℕ)) (m : MockModule)
    → after (map_page page_size (find_page page_size page_left o m) m) ≡ m.read_data_buffer
unfolding map_page find_page
after-map_page page_size page_left (some contents) m = refl
after-map_page page_size true none m = refl
after-map_page page_size false none m = refl

after-then :
    {A : Type 0} (x : Exec MockModule A) (m : MockModule)
    → after ((x >> pure (tt {0})) m) ≡ after (x m)
after-then x m = ground arith

after-handle :
    (page_size : ℕ) (c : Call) (m : MockModule)
    → writes_samples c ≡ false
    → after (handle page_size c m) ≡ m.read_data_buffer
unfolding handle read read_status write ioctl page_fault
after-handle page_size (reading copy minor count) m h = rw (after-then (read copy minor count) m) (
    after-if (minor == 0) _ _ _ (after-read_samples copy (clip count) m.read_data_buffer m)
      (after-if (minor == 3) _ _ _ (after-if _ _ _ _ refl refl) refl))
after-handle page_size (writing copy minor bytes) m h =
    rw (after-then (write copy minor bytes) m, h) (after-if (minor == 3) _ _ _ refl refl)
after-handle page_size (asking minor cmd) m h =
    rw (after-then (ioctl minor cmd) m)
      (after-if (minor == 0) _ _ _ (after-if _ _ _ _ refl refl) refl)
after-handle page_size (touching page_left) m h =
    rw (after-then (page_fault page_size page_left) m)
      (after-map_page page_size page_left m.mock_page m)
after-handle page_size (storing i byte) m h = refl

after-run :
    (a : Registrations) (page_size : ℕ) (cs : List Call) (m : MockModule)
    → IsWorking a m
    → AllFair cs
    → NoSamples cs
    → after (run page_size cs m) ≡ m.read_data_buffer
unfolding run
after-run a page_size [] m h k n = refl
after-run a page_size (c ∷ cs) m h k n =
    let first = handle-Works a m h page_size c k.0 in
    let rest = after-run a page_size cs (handle page_size c m).1 first.working k.1 n.1 in
    rw first.returns (rest ∙ after-handle page_size c m n.0)

clip_fits : (n : ℕ) → n ≤ kernel_buffer_size → clip n ≡ n
unfolding clip
clip_fits n h = ground arith

pub IsWhole-IsCopy : (copy : Copy) → IsWhole copy → IsCopy copy
IsWhole-IsCopy copy w = record {
  whole = λ bytes e. rw (w bytes) refl;
  bounded = λ bytes. rw (w bytes) (omega arith);
}

write_lem :
    (copy : Copy) (m : MockModule) (buffer bytes : List ℕ)
    → IsWhole copy
    → length bytes ≤ kernel_buffer_size
    → m.read_data_buffer ≡ some buffer
    → after (write copy 0 bytes m) ≡ some (overwrite bytes buffer)
unfolding write write_samples
write_lem copy m buffer bytes w fits e =
    simp (e, clip_fits (length bytes) fits, take-length bytes, w bytes) refl

read_lem :
    (copy : Copy) (m : MockModule) (buffer : List ℕ) (count : ℕ)
    → IsWhole copy
    → count ≤ kernel_buffer_size
    → m.read_data_buffer ≡ some buffer
    → (read copy 0 count m).0
      ≡ ok (record { delivered = take count buffer; result = returned count })
unfolding read read_samples deliver
read_lem copy m buffer count w fits e = simp (e, clip_fits count fits, w (take count buffer)) refl

-- Samples that fit the buffer and are written, after any calls and with any calls but other writes of
-- samples behind them, are what a read of no more bytes gives.
pub read-write :
    (a : Registrations) (memory : List ℕ) (h : IsComplete a) (k : HasSamples a memory)
    (page_size count : ℕ) (before between : List Call) (copy copy' : Copy) (bytes : List ℕ)
    → AllFair before
    → AllFair between
    → NoSamples between
    → IsWhole copy
    → IsWhole copy'
    → count ≤ length bytes
    → length bytes ≤ kernel_buffer_size
    → ((do
      init a
      run page_size before
      write copy 0 bytes
      run page_size between
      read copy' 0 count)
        unloaded).0
      ≡ ok (record { delivered = take count bytes; result = returned count })
read-write a memory h k page_size count before between copy copy' bytes fb ft n w w' le fits =
    let first = run-Works a page_size before (loaded a) (loaded-IsWorking a memory h k) fb in
    let m = (run page_size before (loaded a)).1 in
    let second = write-Works a m first.working copy 0 bytes (IsWhole-IsCopy copy w) in
    let m' = (write copy 0 bytes m).1 in
    let third = run-Works a page_size between m' second.working ft in
    let buffer = overwrite bytes first.working.buffer in
    rw (init_complete a h, first.returns, second.returns, third.returns)
      (read_lem copy' (run page_size between m').1 buffer count w' (omega (arith, le, fits)) (
          after-run a page_size between m' second.working ft n
          ∙ write_lem copy m first.working.buffer bytes w fits first.working.buffered)
        ∙ ap (λ (d : List ℕ). ok (record { delivered = d; result = returned count }))
            (take-append count bytes _ le))
