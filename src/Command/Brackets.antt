-- ===== src/Command/Brackets.antt =====
-- core/Command.h, the scans of a line for a closing bracket and for the arrow of a stream.
use etcs.Base.{
  ℕ, suc, Bool, true, false, not, ◌&&◌, ◌||◌, [], ◌∷◌, Option, none, some, ◌==◌, if◌then◌else◌,
  drop,
}
use etcs.Base.Strings.{Str}

-- The variables of the loops. `depth` is `opened - closed`; `skip` says that the last character was
-- the backslash of an escape, where the source counts `i` on.
pub record Scan : Type 0 where
  pub opened : ℕ
  pub closed : ℕ
  pub in_single : Bool
  pub in_double : Bool
  pub skip : Bool

abbrev pub new_scan : Scan
new_scan = record { opened = 0; closed = 0; in_single = false; in_double = false; skip = false }

abbrev pub is_plain : Scan → Bool
is_plain t = not (t.skip || (t.in_single || t.in_double))

-- What a bracket outside quotes does.
abbrev count_bracket : ℕ → Scan → Scan
count_bracket c t =
    if c == b'('
    then record t { opened = suc t.opened }
    else (if c == b')' then record t { closed = suc t.closed } else t)

unfoldable pub read_quoted : ℕ → Scan → Scan
read_quoted c t =
    if (t.in_single || t.in_double) && c == b'\\'
    then record t { skip = true }
    else (if c == b'\'' && not t.in_double
        then record t { in_single = not t.in_single }
        else (if c == b'"' && not t.in_single
            then record t { in_double = not t.in_double }
            else (if t.in_single || t.in_double then t else count_bracket c t)))

unfoldable pub read : ℕ → Scan → Scan
unfolding read_quoted
read c t = if t.skip then record t { skip = false } else read_quoted c t

-- A closing bracket that brings the depth to 0.
abbrev pub closes : ℕ → Scan → Bool
closes c t = is_plain t && (c == b')' && t.opened == suc t.closed)

unfoldable pub closing_from : Str → ℕ → Scan → Option ℕ
unfolding read
closing_from [] i t = none
closing_from (c ∷ s) i t =
    let rest = closing_from s (suc i) (read c t) in if closes c t then some i else rest

unfoldable pub find_closing_bracket : Str → ℕ → Option ℕ
find_closing_bracket s opening = closing_from (drop opening s) opening new_scan

abbrev pub is_arrow : ℕ → ℕ → Scan → Bool
is_arrow c d t = is_plain t && (t.opened == t.closed && (c == b'-' && d == b'>'))

unfoldable pub arrow_from : Str → ℕ → Scan → Option ℕ
unfolding read
arrow_from [] i t = none
arrow_from (c ∷ []) i t = none
arrow_from (c ∷ d ∷ s) i t =
    let rest = arrow_from (d ∷ s) (suc i) (read c t) in if is_arrow c d t then some i else rest

unfoldable pub find_stream_arrow : Str → Option ℕ
find_stream_arrow s = arrow_from s 0 new_scan
