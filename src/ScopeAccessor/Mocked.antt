-- ===== src/ScopeAccessor/Mocked.antt =====
-- src/hw_interface/bus/scope_accessor.cpp on the sample file of mock_module/mock_module.c, and
-- what src/hw_interface/scope_manager.cpp makes of a read that fails.
use uscope_driver.Prelude.{ℕ, ◌*◌, ◌≡◌, ap, ◌∙◌, List, arith, length, take, take-length, sym}
use uscope_driver.Exec.{ok, ◌>>◌}
use uscope_driver.MockModule.{Copy, Reading, write, read}
use uscope_driver.MockModule.Lifecycle.{Registrations, init, unloaded}
use uscope_driver.MockModule.Lifecycle.Resources.{IsComplete}
use uscope_driver.MockModule.Calls.{Call, run, AllFair}
use uscope_driver.MockModule.Calls.Lifetime.{HasSamples}
use uscope_driver.MockModule.Calls.Samples.{IsWhole, NoSamples, read-write}
use uscope_driver.ScopeAccessor.{n_words, get_scope_data, words_of}
use uscope_driver.ScopeAccessor.Words.{
  bytes_of, AllWords, length-bytes_of, words_of-bytes_of, filled_full,
}

-- The words whose bytes a process wrote to the sample file of the module, after any calls and with
-- any but other writes of samples behind them, are the scope data, if they fill the array.
pub get_scope_data-write :
    (a : Registrations) (memory : List ℕ) (h : IsComplete a) (k : HasSamples a memory)
    (page_size : ℕ) (before between : List Call) (copy copy' : Copy) (samples : List ℕ)
    → AllFair before
    → AllFair between
    → NoSamples between
    → IsWhole copy
    → IsWhole copy'
    → length samples ≡ n_words
    → AllWords samples
    → (r : Reading) × (((do
      init a
      run page_size before
      write copy 0 (bytes_of samples)
      run page_size between
      read copy' 0 (n_words * 8))
          unloaded).0
        ≡ ok r)
      × (get_scope_data r ≡ ok samples)
unfolding get_scope_data
get_scope_data-write a memory h k page_size before between copy copy' samples fb ft n w w' full
      words =
    let len : length (bytes_of samples) ≡ n_words * 8 =
      omega (arith, full, length-bytes_of samples) in
    let whole : take (n_words * 8) (bytes_of samples) ≡ bytes_of samples =
      ap (λ (j : ℕ). take j (bytes_of samples)) (sym len) ∙ take-length (bytes_of samples) in
    (
      _,
      read-write a memory h k page_size (n_words * 8) before between copy copy' (bytes_of samples)
          fb ft n w w' (omega (arith, len)) (omega (arith, len)),
      rw (whole, filled_full (bytes_of samples) len)
          (ap ok (
            ap (λ (j : ℕ). words_of j (bytes_of samples)) (sym full)
            ∙ words_of-bytes_of samples words)),
    )
