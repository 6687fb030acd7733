-- ===== src/Command/Declared.antt =====
-- core/Command.h, a declaration `Module::Tag name`, by itself and in the lines that acquire one.
use etcs.Base.{
  ℕ, suc, ◌+◌, ◌≡◌, refl, ap, ap₂, ◌∙◌, Bool, true, false, not, [], ◌∷◌, ◌++◌, Option, none, some,
  if◌then◌else◌, length, drop, arith,
}
use etcs.Base.Results.{ok}
use etcs.Base.Strings.{Str, every, is_word, is_blank, is_text, find_if, has_scope}
use etcs.Base.Strings.Search.{
  every-append, every_weaken, find_if-append, take-append, drop_next-append, find_scope-append,
  find_scope-none,
}
use etcs.Command.Names.{
  trim, is_valid_local_name, is_uppercase_start, is_scope, split_module_tag, scope_at,
}
use etcs.Command.Words.{word_text, word_colon, trim_text, trim_word, name_words}
use etcs.Command.Calls.{parse_typed_declaration, declare_at, declare_as}
use etcs.Command.Dotted.{if_true}

-- The type's two names in words, upper-case each.
pub record IsType (origin tag : Str) : Type 0 where
  pub origin_words : every is_word origin ≡ true
  pub tag_words : every is_word tag ≡ true
  pub origin_upper : is_uppercase_start origin ≡ true
  pub tag_upper : is_uppercase_start tag ≡ true

abbrev pub print_type : Str → Str → Str
print_type origin tag = origin ++ b':' ∷ b':' ∷ tag

abbrev pub print_declaration : Str → Str → Str → Str
print_declaration origin tag name = print_type origin tag ++ b' ' ∷ name

word_is_text : (c : ℕ) → is_word c ≡ true → is_text c ≡ true
word_is_text c h = ap not (word_text c h)

pub type_text : (o t : Str) → IsType o t → every is_text (print_type o t) ≡ true
unfolding every is_blank
type_text o t h =
    every-append is_text o (b':' ∷ b':' ∷ t)
      (every_weaken is_word is_text word_is_text o h.origin_words)
      (every_weaken is_word is_text word_is_text t h.tag_words)

type_scope : (o t : Str) → IsType o t → is_scope o t ≡ true
type_scope o t h =
    let none_in : has_scope t ≡ false =
      ap is_found (find_scope-none is_word t word_colon h.tag_words) in
    ground (arith, h.origin_upper, h.tag_upper)
  where
    is_found : Option ℕ → Bool
    is_found p = elim p [ some i ↦ true | none ↦ false ]

pub drop_two : (s : Str) (c d : ℕ) (t : Str) → drop (length s + 2) (s ++ c ∷ d ∷ t) ≡ t
drop_two [] c d t = refl
drop_two (x ∷ s) c d t =
    let next : suc (length s) + 2 ≡ suc (length s + 2) = omega arith in
    ap (λ k. drop k (x ∷ (s ++ c ∷ d ∷ t))) next ∙ drop_two s c d t

split_module_tag-print_type :
    (o t : Str) → IsType o t → split_module_tag (print_type o t) ≡ some (o, t)
unfolding split_module_tag
split_module_tag-print_type o t h =
    ap (scope_at (print_type o t)) (find_scope-append is_word o t word_colon h.origin_words)
    ∙ (ap₂ pick (take-append o (b':' ∷ b':' ∷ t)) (drop_two o b':' b':' t)
        ∙ if_true (is_scope o t) _ _ (type_scope o t h))
  where
    pick : Str → Str → Option (Str × Str)
    pick x y = if is_scope x y then some (x, y) else none

text_not_blank : (c : ℕ) → is_text c ≡ true → is_blank c ≡ false
text_not_blank c h = ground arith

pub find_blank :
    (s t : Str) → every is_text s ≡ true → find_if is_blank (s ++ b' ' ∷ t) ≡ some (length s)
unfolding is_blank
find_blank s t h = find_if-append is_blank is_text s b' ' t text_not_blank h refl

-- A declaration that is written from a type and a valid name is read back as these.
pub parse_typed_declaration-print :
    (o t n : Str)
    → IsType o t
    → is_valid_local_name n ≡ true
    → parse_typed_declaration (print_declaration o t n)
      ≡ ok (record { origin = o; tag = t; name = n })
unfolding parse_typed_declaration
parse_typed_declaration-print o t n h valid =
    let text = type_text o t h in
    let line = print_declaration o t n in
    ap (declare_at line) (find_blank (print_type o t) n text)
    ∙ (ap₂ (λ scope name. declare_as scope name (split_module_tag scope))
          (ap trim (take-append (print_type o t) (b' ' ∷ n)) ∙ trim_text (print_type o t) text)
          (ap trim (drop_next-append (print_type o t) b' ' n) ∙ trim_word n (name_words n valid))
        ∙ (ap (declare_as (print_type o t) n) (split_module_tag-print_type o t h)
            ∙ if_true (is_valid_local_name n) _ _ valid))
