-- ===== src/Buffer/Tests.antt =====
-- Buffers of sixteen bytes and more at concrete calls.
use etcs.Base.{ℕ, ◌≡◌, refl, true, List, [], ◌∷◌, some, arith, ◌↔◌}
use etcs.Base.Memory.{memcpy}
use etcs.Buffer.{TBuffer, new, read_raw, eq, write_string_sanitized}
use etcs.Buffer.Bounds.{IsValid}
use etcs.Buffer.Contents.{contents, read_raw_lem}
use etcs.Buffer.Order.{eq_iff}
use etcs.Buffer.Tokens.{insert_string, unread}
use etcs.Buffer.Calls.{Call}

-- `ab` is written, `b` is unread
abbrev ab : TBuffer 16
ab = record {
  buf = 97 ∷ 98 ∷ 0 ∷ 0 ∷ 0 ∷ 0 ∷ 0 ∷ 0 ∷ 0 ∷ 0 ∷ 0 ∷ 0 ∷ 0 ∷ 0 ∷ 0 ∷ 0 ∷ [];
  written = 2;
  read_offset = 1;
}

-- `ab` again, with other bytes behind it
abbrev ab_dirty : TBuffer 16
ab_dirty = record ab { buf = 97 ∷ 98 ∷ 0 ∷ 99 ∷ 0 ∷ 0 ∷ 0 ∷ 0 ∷ 0 ∷ 0 ∷ 0 ∷ 0 ∷ 0 ∷ 0 ∷ 0 ∷ 0 ∷ [] }

abbrev abc : TBuffer 16
abc = record ab {
  buf = 97 ∷ 98 ∷ 99 ∷ 0 ∷ 0 ∷ 0 ∷ 0 ∷ 0 ∷ 0 ∷ 0 ∷ 0 ∷ 0 ∷ 0 ∷ 0 ∷ 0 ∷ 0 ∷ [];
  written = 3;
}

abbrev b_only : TBuffer 16
b_only = record ab {
  buf = 98 ∷ 0 ∷ 0 ∷ 0 ∷ 0 ∷ 0 ∷ 0 ∷ 0 ∷ 0 ∷ 0 ∷ 0 ∷ 0 ∷ 0 ∷ 0 ∷ 0 ∷ 0 ∷ [];
  written = 1;
}

ab-IsValid : IsValid ab
ab-IsValid = record {
  size = refl;
  nonempty = omega arith;
  small = omega arith;
  extent = omega arith;
  offset = omega arith;
  terminated = λ _. refl;
}

ab_dirty-IsValid : IsValid ab_dirty
ab_dirty-IsValid = record {
  size = refl;
  nonempty = omega arith;
  small = omega arith;
  extent = omega arith;
  offset = omega arith;
  terminated = λ _. refl;
}

abc-IsValid : IsValid abc
abc-IsValid = record {
  size = refl;
  nonempty = omega arith;
  small = omega arith;
  extent = omega arith;
  offset = omega arith;
  terminated = λ _. refl;
}

b_only-IsValid : IsValid b_only
b_only-IsValid = record {
  size = refl;
  nonempty = omega arith;
  small = omega arith;
  extent = omega arith;
  offset = omega arith;
  terminated = λ _. refl;
}

new_32-IsValid : IsValid (new 32)
unfolding new
new_32-IsValid = record {
  size = refl;
  nonempty = omega arith;
  small = omega arith;
  extent = omega arith;
  offset = omega arith;
  terminated = λ _. refl;
}

read_raw_lem_example :
    let (out, r) = read_raw abc 2 in
    (out ≡ some (98 ∷ 99 ∷ [])) × (unread r ≡ []) × (contents r ≡ 97 ∷ 98 ∷ 99 ∷ [])
read_raw_lem_example = read_raw_lem 2 abc-IsValid (omega arith)

eq_iff_example : (eq ab ab_dirty ≡ true) ↔ (contents ab ≡ contents ab_dirty)
eq_iff_example = eq_iff ab-IsValid ab_dirty-IsValid

-- a quote and a backslash, the empty string, and a text with a blank and a comma
abbrev texts : List (List ℕ)
texts = (34 ∷ 92 ∷ []) ∷ [] ∷ (97 ∷ 32 ∷ 44 ∷ 98 ∷ []) ∷ []

abbrev four_calls : List Call
four_calls =
    Call.inserts (1 ∷ [])
    ∷ Call.writes_raw (7 ∷ 7 ∷ [])
    ∷ Call.writes_string (7 ∷ 7 ∷ 7 ∷ 7 ∷ [])
    ∷ Call.extracts
    ∷ []

-- A comma becomes a blank, and a token ends at it.
sanitized : contents (write_string_sanitized (new 16) (97 ∷ 44 ∷ 98 ∷ [])).1 ≡ 97 ∷ 32 ∷ 98 ∷ []
unfolding new write_string_sanitized memcpy
sanitized = refl

-- A string that does not fit is cut, and its quote is closed.
cut :
    contents (insert_string (new 8) (97 ∷ 98 ∷ 99 ∷ 100 ∷ 101 ∷ 102 ∷ []))
    ≡ 34 ∷ 97 ∷ 98 ∷ 99 ∷ 100 ∷ 34 ∷ 32 ∷ []
unfolding new insert_string
cut = refl
