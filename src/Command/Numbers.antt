-- ===== src/Command/Numbers.antt =====
-- `std::stoull` in base 10, which reads the index of a `kill`: white space, a sign and digits.
use etcs.Base.{ℕ, ◌+◌, ◌-◌, ◌*◌, ◌%◌, ◌^◌, [], ◌∷◌, Option, none, some, ltb, ◌==◌, if◌then◌else◌}
use etcs.Base.Strings.{Str, is_digit, is_space}

unfoldable pub skip_spaces : Str → Str
skip_spaces [] = []
skip_spaces (c ∷ s) = if is_space c then skip_spaces s else c ∷ s

-- The digits at the front as a number, and what follows them.
unfoldable pub read_digits : ℕ → Str → ℕ × Str
read_digits n [] = (n, [])
read_digits n (c ∷ s) =
    let rest = read_digits (10 * n + (c - b'0')) s in if is_digit c then rest else (n, c ∷ s)

-- `none` where a value is out of range.
abbrev pub in_range : ℕ × Str → Option (ℕ × Str)
in_range (n, s) = if ltb n (2 ^ 64) then some (n, s) else none

abbrev pub read_number : Str → Option (ℕ × Str)
read_number [] = none
read_number (c ∷ s) = if is_digit c then in_range (read_digits 0 (c ∷ s)) else none

-- A number after a minus sign is negated modulo 2 ^ 64.
abbrev pub negated : Option (ℕ × Str) → Option (ℕ × Str)
negated none = none
negated (some (n, s)) = some ((2 ^ 64 - n) % 2 ^ 64, s)

abbrev pub read_signed : Str → Option (ℕ × Str)
read_signed [] = none
read_signed (c ∷ s) =
    if c == b'-'
    then negated (read_number s)
    else (if c == b'+' then read_number s else read_number (c ∷ s))

unfoldable pub stoull : Str → Option (ℕ × Str)
unfolding skip_spaces read_digits
stoull s = read_signed (skip_spaces s)
