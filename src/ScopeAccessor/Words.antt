-- ===== src/ScopeAccessor/Words.antt =====
-- src/hw_interface/bus/scope_accessor.cpp: 64-bit words and the bytes that they are in memory.
use uscope_driver.Prelude.{
  ℕ, zero, suc, ◌*◌, ◌/◌, ◌%◌, ◌^◌, ◌≡◌, ◌<◌, refl, List, [], ◌∷◌, ◌++◌, arith, length, drop_all,
}
use uscope_driver.ScopeAccessor.{word_of, words_of, n_words, filled}
use uscope_driver.MockModule.{zeroed}
use mathlib.Core.List.{append-nil}

-- The bytes of a word, the lowest first.
abbrev pub bytes_from : ℕ → ℕ → List ℕ
bytes_from zero w = []
bytes_from (suc n) w = w % 256 ∷ bytes_from n (w / 256)

abbrev pub bytes_of : List ℕ → List ℕ
bytes_of [] = []
bytes_of (w ∷ ws) = bytes_from 8 w ++ bytes_of ws

abbrev pub AllWords : List ℕ → Type 0
AllWords [] = Unit {0}
AllWords (w ∷ ws) = (w < 2 ^ 64) × AllWords ws

word_of-bytes_from : (w : ℕ) → w < 2 ^ 64 → word_of (bytes_from 8 w) ≡ w
word_of-bytes_from w h = omega arith

pub length-bytes_of : (ws : List ℕ) → length (bytes_of ws) ≡ length ws * 8
length-bytes_of [] = refl
length-bytes_of (w ∷ ws) = omega (arith, length-bytes_of ws)

-- Words are read back from their bytes.
pub words_of-bytes_of : (ws : List ℕ) → AllWords ws → words_of (length ws) (bytes_of ws) ≡ ws
unfolding words_of
words_of-bytes_of [] h = refl
words_of-bytes_of (w ∷ ws) h = rw (word_of-bytes_from w h.0, words_of-bytes_of ws h.1) refl

pub length-zeroed : (n : ℕ) → length (zeroed n) ≡ n
unfolding zeroed
length-zeroed zero = refl
length-zeroed (suc n) = omega (arith, length-zeroed n)

-- A read that fills the array leaves nothing of its zeros.
pub filled_full : (bytes : List ℕ) → length bytes ≡ n_words * 8 → filled bytes ≡ bytes
filled_full bytes h =
    rw
      (drop_all (length bytes) (zeroed (n_words * 8))
        (omega (arith, h, length-zeroed (n_words * 8))))
      (append-nil bytes)

pub zero_words : (n : ℕ) → words_of n (zeroed (n * 8)) ≡ zeroed n
unfolding words_of zeroed
zero_words zero = refl
zero_words (suc n) =
    let e : suc n * 8 ≡ suc (suc (suc (suc (suc (suc (suc (suc (n * 8)))))))) = omega arith in
    rw (e, zero_words n) refl
