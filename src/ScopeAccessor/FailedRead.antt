-- ===== src/ScopeAccessor/FailedRead.antt =====
-- src/hw_interface/bus/scope_accessor.cpp with src/hw_interface/scope_manager.cpp: a read of the
-- sample file that fails.
use uscope_driver.Prelude.{
  ℕ, zero, suc, ◌≡◌, refl, ap, ◌∙◌, List, [], some, arith, length, get_elem?, ◌==◌, if◌then◌else◌,
  Bool-cases, inl, inr,
}
use uscope_driver.Exec.{ok}
use uscope_driver.Floats.{Float, FloatingPoint}
use uscope_driver.MockModule.{Errno, refused, zeroed}
use uscope_driver.Scope
use uscope_driver.Scope.{ScopeManager, Buffers, shunt_data, get_channel}
use uscope_driver.Scope.Samples.{IsFree, samples_of, shunt_data_lem}
use uscope_driver.ScopeAccessor.{n_words, get_scope_data}
use uscope_driver.ScopeAccessor.Words.{zero_words}

zeroed-IsFree : (n : ℕ) → IsFree Scope.n_channels (zeroed n)
unfolding zeroed get_channel
zeroed-IsFree zero = tt
zeroed-IsFree (suc n) = (refl, zeroed-IsFree n)

length-samples_of :
    (fp : FloatingPoint) (int32_to_float : ℕ → Float) (factor : Float) (c n : ℕ)
    → length (samples_of fp int32_to_float factor c (zeroed n)) ≡ (if c == 0 then n else 0)
unfolding zeroed get_channel
length-samples_of fp f factor c zero = ground arith
length-samples_of fp f factor c (suc n) = elim (Bool-cases (c == 0)) [
  | inl e ↦ rw e (ap suc (length-samples_of fp f factor c n ∙ rw e refl))
  | inr e ↦ rw e (length-samples_of fp f factor c n ∙ rw e refl)
]

-- A read that fails before it delivers anything is taken for 1024 samples of each of six channels:
-- with six scaling factors they are sorted in, and channel 0 gets all of them.
pub failed_read :
    (fp : FloatingPoint) (int32_to_float : ℕ → Float) (s : ScopeManager) (e : Errno) (c : ℕ)
    (factor : Float)
    → length s.scaling_factors ≡ Scope.n_channels
    → get_elem? s.scaling_factors c ≡ some factor
    → (raw_data : List ℕ) × (result : Buffers) × (get_scope_data
          (record { delivered = []; result = refused e })
        ≡ ok raw_data)
      × (shunt_data fp int32_to_float raw_data s ≡ (ok result, s))
      × (length (result c) ≡ (if c == 0 then n_words else 0))
unfolding get_scope_data
failed_read fp f s e c factor six at_c =
    let (result, done, at) =
      shunt_data_lem fp f s (zeroed n_words) c factor six (zeroed-IsFree n_words) at_c in
    (
      zeroed n_words,
      result,
      ap ok (zero_words n_words),
      done,
      rw at (length-samples_of fp f factor c n_words),
    )
