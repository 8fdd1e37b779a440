-- ===== src/Decimal.antt =====
-- `std::to_string` of an unsigned number, and the concatenation of texts.
use Prim.Native.String.{◌++◌ as append}
use uscope_driver.Prelude.{
  ℕ, zero, suc, ◌/◌, ◌%◌, String, List, [], ◌∷◌, ◌==◌, ltb, if◌then◌else◌, ◌≡◌, refl,
}

-- The texts one after the other.
unfoldable pub concat : List String → String
concat [] = ""
concat (s ∷ texts) = append s (concat texts)

abbrev digit : ℕ → String
digit d =
    if d == 0
    then "0"
    else if d == 1
    then "1"
    else if d == 2
    then "2"
    else if d == 3
    then "3"
    else if d == 4
    then "4"
    else if d == 5
    then "5"
    else if d == 6
    then "6"
    else if d == 7
    then "7"
    else if d == 8
    then "8"
    else "9"

-- Each round divides the number by ten, so a fuel above the number is enough.
unfoldable pub digits : ℕ → ℕ → String
digits zero n = ""
digits (suc fuel) n =
    let rest = digits fuel (n / 10) in if ltb n 10 then digit n else append rest (digit (n % 10))

unfoldable pub to_string : ℕ → String
unfolding digits
to_string n = digits (suc n) n

to_string_large : to_string 18446744073709551615 ≡ "18446744073709551615"
unfolding to_string
to_string_large = refl
