-- ===== src/Buffer/MixedTests.antt =====
-- Values of each kind that come back.
use etcs.Base.{◌≡◌, refl, arith, true, false, none, List, [], ◌∷◌}
use etcs.Buffer.{new}
use etcs.Buffer.Bounds.{new-IsValid}
use etcs.Buffer.Tokens.{unread}
use etcs.Buffer.Numbers.{pos, negsuc, digits, from_chars, to_chars, scan_digits}
use etcs.Buffer.Mixed.{Value, uint, int, flag, text, insert_values, extract_values}
use etcs.Buffer.Reading.{extract_values-insert_values}

-- the largest word, a negative number, a Boolean, and a text with a quote and a comma
abbrev mixed : List Value
mixed = uint 18446744073709551615 ∷ int (negsuc 6) ∷ flag true ∷ text (34 ∷ 44 ∷ []) ∷ []

abbrev old_values : List Value
old_values = uint 0 ∷ int (pos 0) ∷ flag false ∷ text [] ∷ []

extract_values-insert_values_example :
    ((extract_values old_values (insert_values (7 ∷ []) (new 64) mixed)).0 ≡ mixed)
    × (unread (extract_values old_values (insert_values (7 ∷ []) (new 64) mixed)).1 ≡ [])
unfolding new digits
extract_values-insert_values_example =
    extract_values-insert_values (7 ∷ []) old_values mixed refl
      (omega arith, (omega arith, (tt, (tt, tt)))) (new-IsValid (omega arith) (omega arith)) refl
      (omega arith)

-- One more than the largest word is an error, as is a sign on an unsigned number.
too_large : from_chars 18446744073709551615 (to_chars 18446744073709551616) ≡ none
unfolding from_chars scan_digits digits
too_large = refl

no_sign : from_chars 18446744073709551615 (b'-' ∷ b'1' ∷ []) ≡ none
unfolding from_chars scan_digits
no_sign = refl
