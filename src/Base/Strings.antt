-- ===== src/Base/Strings.antt =====
-- Text as the codes of its characters, and what the C++ library does on it.
use Prim.Native.Char.{code}
use Prim.Native.String.{String}
use Prim.Native.Nat.{ℕ, zero, suc, ◌+◌, ◌-◌, ◌*◌, ◌%◌, ◌^◌}
use mathlib.Core.Path.{◌≡◌, refl}
use mathlib.Core.Bool.{Bool, true, false, not, ◌&&◌, ◌||◌}
use mathlib.Core.List.{List, [], ◌∷◌, ◌++◌}
use mathlib.Core.Option.{Option, none, some}
use etcs.Base.Tests.{ltb, leb, ◌==◌, if◌then◌else◌}
use etcs.Base.Lists.{length, take, drop}
pub mod Search

abbrev pub Str : Type 0
Str = List ℕ

-- `String` has its own `[]` and `∷`.
abbrev pub codes : String → Str
codes String.[] = []
codes (String.◌∷◌ c s) = code c ∷ codes s

unfoldable pub same : Str → Str → Bool
same [] [] = true
same [] (d ∷ t) = false
same (c ∷ s) [] = false
same (c ∷ s) (d ∷ t) = c == d && same s t

abbrev pub is_nil : Str → Bool
is_nil [] = true
is_nil (c ∷ s) = false

unfoldable pub every : (ℕ → Bool) → Str → Bool
every p [] = true
every p (c ∷ s) = p c && every p s

-- The character classes of the C locale.
abbrev within : ℕ → ℕ → ℕ → Bool
within lo hi c = leb lo c && leb c hi

unfoldable pub is_upper : ℕ → Bool
is_upper c = within b'A' b'Z' c

unfoldable pub is_lower : ℕ → Bool
is_lower c = within b'a' b'z' c

unfoldable pub is_digit : ℕ → Bool
is_digit c = within b'0' b'9' c

unfoldable pub is_space : ℕ → Bool
is_space c = c == b' ' || within 9 13 c

-- A space or a tab.
unfoldable pub is_blank : ℕ → Bool
is_blank c = c == b' ' || c == 9

abbrev pub is_text : ℕ → Bool
is_text c = not (is_blank c)

-- What `isalnum(c) || c == '_'` says.
unfoldable pub is_word : ℕ → Bool
unfolding is_upper is_lower is_digit
is_word c = is_upper c || (is_lower c || (is_digit c || c == b'_'))

abbrev pub next_index : Option ℕ → Option ℕ
next_index none = none
next_index (some i) = some (suc i)

-- `find_first_of`, `find_first_not_of` and `find` of one character.
unfoldable pub find_if : (ℕ → Bool) → Str → Option ℕ
find_if p [] = none
find_if p (c ∷ s) = if p c then some 0 else next_index (find_if p s)

abbrev pub find_char : ℕ → Str → Option ℕ
find_char c s = find_if (◌==◌ c) s

abbrev pub or_here : Bool → Option ℕ → Option ℕ
or_here here none = if here then some 0 else none
or_here here (some i) = some (suc i)

-- `find_last_not_of`
unfoldable pub find_last_if : (ℕ → Bool) → Str → Option ℕ
find_last_if p [] = none
find_last_if p (c ∷ s) = or_here (p c) (find_last_if p s)

-- `find("::")`
unfoldable pub find_scope : Str → Option ℕ
find_scope [] = none
find_scope (c ∷ []) = none
find_scope (c ∷ d ∷ s) = if c == b':' && d == b':' then some 0 else next_index (find_scope (d ∷ s))

abbrev pub has_scope : Str → Bool
has_scope s = elim (find_scope s) [ some i ↦ true | none ↦ false ]

abbrev pub substr : Str → ℕ → ℕ → Str
substr s from count = take count (drop from s)

-- What `>>` reads from a stream one after another: the runs without white space.
abbrev put_word : Str → List Str → List Str
put_word [] words = words
put_word (c ∷ s) words = (c ∷ s) ∷ words

unfoldable pub words_from : Str → Str → List Str
words_from word [] = put_word word []
words_from word (c ∷ s) =
    let rest = words_from (if is_space c then [] else word ++ c ∷ []) s in
    if is_space c then put_word word rest else rest

abbrev pub words : Str → List Str
words s = words_from [] s

-- What getline reads up to each of the separators, and after the last.
unfoldable pub split_from : ℕ → Str → Str → List Str
split_from sep item [] = item ∷ []
split_from sep item (c ∷ s) =
    let rest = split_from sep (if c == sep then [] else item ++ c ∷ []) s in
    if c == sep then item ∷ rest else rest

abbrev pub split : ℕ → Str → List Str
split sep s = split_from sep [] s
