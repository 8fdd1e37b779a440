-- ===== src/ScopeAccessor.antt =====
-- src/hw_interface/bus/scope_accessor.cpp and includes/hw_interface/bus/scope_accessor.hpp: the words
-- that a read of the sample file gives. The read is an argument.
pub mod Words
pub mod Mocked
pub mod FailedRead
use uscope_driver.Prelude.{
  ℕ, zero, suc, ◌+◌, ◌*◌, ◌^◌, String, Bool, List, [], ◌∷◌, ◌++◌, ◌==◌, if◌then◌else◌, length, take,
  drop,
}
use uscope_driver.Exec.{Result, ok, err, runtime_error}
use uscope_driver.MockModule.{Return, returned, refused, Reading, zeroed}

abbrev pub n_channels : ℕ
n_channels = 6

abbrev pub buffer_size : ℕ
buffer_size = 1024

abbrev pub n_words : ℕ
n_words = n_channels * buffer_size

-- The word that eight bytes in memory are, the lowest first.
abbrev pub word_of : List ℕ → ℕ
word_of [] = 0
word_of (byte ∷ bytes) = byte + 256 * word_of bytes

-- An array of 64-bit words, from the bytes of its memory.
unfoldable pub words_of : ℕ → List ℕ → List ℕ
words_of zero memory = []
words_of (suc n) memory = word_of (take 8 memory) ∷ words_of n (drop 8 memory)

-- The memory of the array after a read into it, which was all zeros.
abbrev pub filled : List ℕ → List ℕ
filled delivered = delivered ++ drop (length delivered) (zeroed (n_words * 8))

-- A failed read is only logged.
abbrev pub checked : Return → List ℕ → Result (List ℕ)
checked (returned read_data) words =
    if read_data == 0 then err (runtime_error "nothing to read") else ok words
checked (refused e) words = ok words

unfoldable pub get_scope_data : Reading → Result (List ℕ)
get_scope_data r = checked r.result (words_of n_words (filled r.delivered))
