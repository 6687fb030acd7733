-- ===== src/Command/Names.antt =====
-- core/Command.h, the checks of names and types in a line.
use etcs.Base.{
  ℕ, suc, ◌+◌, ◌-◌, Bool, true, false, not, ◌&&◌, [], ◌∷◌, Option, none, some, if◌then◌else◌, take,
  drop,
}
use etcs.Base.Strings.{
  Str, codes, same, is_nil, every, is_upper, is_lower, is_word, is_text, find_if, find_last_if,
  find_scope, has_scope, substr,
}

abbrev pub trim_to : Str → ℕ → Option ℕ → Str
trim_to s b none = []
trim_to s b (some e) = substr s b (suc (e - b))

abbrev pub trim_from : Str → Option ℕ → Str
trim_from s none = []
trim_from s (some b) = trim_to s b (find_last_if is_text s)

unfoldable pub trim : Str → Str
trim s = trim_from s (find_if is_text s)

abbrev pub is_uppercase_start : Str → Bool
is_uppercase_start [] = false
is_uppercase_start (c ∷ s) = is_upper c

abbrev pub is_lowercase_start : Str → Bool
is_lowercase_start [] = false
is_lowercase_start (c ∷ s) = is_lower c

abbrev pub is_scope : Str → Str → Bool
is_scope origin tag = is_uppercase_start origin && (is_uppercase_start tag && not (has_scope tag))

abbrev pub scope_at : Str → Option ℕ → Option (Str × Str)
scope_at s none = none
scope_at s (some pos) =
    let origin = take pos s in
    let tag = drop (pos + 2) s in if is_scope origin tag then some (origin, tag) else none

-- A string that does not start upper-case counts empty ones in.
unfoldable pub split_module_tag : Str → Option (Str × Str)
split_module_tag s = scope_at s (find_scope s)

unfoldable pub is_valid_local_name : Str → Bool
unfolding every
is_valid_local_name s = not (is_nil s) && (not (same s (codes "root")) && every is_word s)

abbrev is_some : Option (Str × Str) → Bool
is_some none = false
is_some (some p) = true

unfoldable pub is_valid_requires_tag : Str → Bool
unfolding split_module_tag every
is_valid_requires_tag s =
    is_uppercase_start s && (if has_scope s then is_some (split_module_tag s) else every is_word s)
