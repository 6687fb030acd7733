-- ===== src/Command/Acquiring.antt =====
-- core/Command.h, the lines that spawn, attach or ensure an entity, alone or as a child.
use etcs.Base.{ℕ, ◌≡◌, refl, sym, ap, ap₂, ◌∙◌, subst, true, false, not, [], ◌∷◌, ◌++◌, ◌==◌, arith}
use etcs.Base.Results.{ok, bind, map_err}
use etcs.Base.Strings.{
  Str, codes, same, every, is_nil, is_word, is_upper, is_lower, is_digit, is_blank, is_text,
  find_if, find_char,
}
use etcs.Base.Strings.Search.{
  every-append, every_weaken, find_if-none, take-append, drop_next-append,
}
use etcs.Command
use etcs.Command.{AcquireVerb}
use etcs.Command.Names.{trim, is_valid_local_name}
use etcs.Command.Words.{word_text, trim-name, name_words}
use etcs.Command.Brackets.{find_stream_arrow}
use etcs.Command.Scans.{print_call, is_quiet, arrow_from_quiet, quiet-IsArgument}
use etcs.Command.Dotted.{if_false, concat_assoc}
use etcs.Command.Declared.{
  IsType, print_type, print_declaration, find_blank, parse_typed_declaration-print,
}
use etcs.Command.Operations.{acquire_child, parse_operation, parse_call}
use etcs.Command.Lines.{
  acquire_command, parse_verb, verb_at, dot_first, parse_plain, stream_at, parse_text, parse_line,
}
use etcs.Command.RoundTrip.{parse_text_full, parse_line-print_call}

abbrev pub verb_text : AcquireVerb → Str
verb_text Command.spawn = codes "spawn"
verb_text Command.attach = codes "attach"
verb_text Command.ensure = codes "ensure"

abbrev pub print_acquire : AcquireVerb → Str → Str → Str → Str
print_acquire verb origin tag name = verb_text verb ++ b' ' ∷ print_declaration origin tag name

word_quiet : (c : ℕ) → is_word c ≡ true → is_quiet c ≡ true
unfolding is_quiet is_word
word_quiet c h = ground arith

quiet_words : (s : Str) → every is_word s ≡ true → every is_quiet s ≡ true
quiet_words s h = every_weaken is_word is_quiet word_quiet s h

declaration_quiet :
    (o t n : Str)
    → IsType o t
    → is_valid_local_name n ≡ true
    → every is_quiet (print_declaration o t n) ≡ true
unfolding every is_quiet is_word is_upper is_lower is_digit
declaration_quiet o t n h valid =
    every-append is_quiet (print_type o t) (b' ' ∷ n)
      (every-append is_quiet o (b':' ∷ b':' ∷ t) (quiet_words o h.origin_words)
        (quiet_words t h.tag_words))
      (quiet_words n (name_words n valid))

-- Trimming leaves a declaration, also behind a word.
trim-declaration :
    (c : ℕ) (s n : Str)
    → is_blank c ≡ false
    → is_valid_local_name n ≡ true
    → trim (c ∷ (s ++ b' ' ∷ n)) ≡ c ∷ (s ++ b' ' ∷ n)
trim-declaration c s n h valid =
    subst (λ (x : Str). trim (c ∷ x) ≡ c ∷ x) (concat_assoc s b' ' [] n)
      (trim-name c (s ++ b' ' ∷ []) n h valid)

declaration_tidy :
    (o t n : Str)
    → IsType o t
    → is_valid_local_name n ≡ true
    → trim (print_declaration o t n) ≡ print_declaration o t n
unfolding every
declaration_tidy [] t n h valid = let up = h.origin_upper in absurd (cc)
declaration_tidy (c ∷ o) t n h valid =
    trim-declaration c (o ++ b':' ∷ b':' ∷ t) n (word_text c (ground (arith, h.origin_words))) valid

-- The declaration of a line, read into a command.
declared :
    (text : Str) (verb : AcquireVerb) (o t n : Str)
    → IsType o t
    → is_valid_local_name n ≡ true
    → acquire_command text verb (print_declaration o t n)
      ≡ ok (Command.acquire (record { verb = verb; origin = o; tag = t; name = n }))
declared text verb o t n h valid =
    ap
      (λ d. bind (map_err (Command.declaration text) d) (λ d.
        ok (
          Command.acquire (record { verb = verb; origin = d.origin; tag = d.tag; name = d.name }))))
      (parse_typed_declaration-print o t n h valid)

parse_verb-verb_text :
    (verb : AcquireVerb) (line rest : Str)
    → parse_verb line (verb_text verb) rest ≡ acquire_command (verb_text verb) verb rest
unfolding parse_verb same
parse_verb-verb_text Command.spawn line rest = refl
parse_verb-verb_text Command.attach line rest = refl
parse_verb-verb_text Command.ensure line rest = refl

verb_words : (verb : AcquireVerb) → every is_word (verb_text verb) ≡ true
unfolding every is_word is_upper is_lower is_digit
verb_words Command.spawn = refl
verb_words Command.attach = refl
verb_words Command.ensure = refl

line_tidy :
    (verb : AcquireVerb) (o t n : Str)
    → is_valid_local_name n ≡ true
    → trim (print_acquire verb o t n) ≡ print_acquire verb o t n
unfolding is_blank
line_tidy verb o t n valid = begins (verb_text verb) (starts verb)
  where
    IsStart : Str → Type 0
    IsStart v = (c : ℕ) × ((w : Str) × ((v ≡ c ∷ w) × (is_blank c ≡ false)))

    starts : (v : AcquireVerb) → IsStart (verb_text v)
    starts Command.spawn = (b's', (codes "pawn", (refl, refl)))
    starts Command.attach = (b'a', (codes "ttach", (refl, refl)))
    starts Command.ensure = (b'e', (codes "nsure", (refl, refl)))

    begins :
        (v : Str)
        → IsStart v
        → trim (v ++ b' ' ∷ print_declaration o t n) ≡ v ++ b' ' ∷ print_declaration o t n
    begins v (c, (w, (e, text))) =
        subst
          (λ (x : Str).
            trim (x ++ b' ' ∷ print_declaration o t n) ≡ x ++ b' ' ∷ print_declaration o t n)
          (sym e)
          (subst (λ (x : Str). trim (c ∷ x) ≡ c ∷ x)
            (concat_assoc w b' ' (print_type o t) (b' ' ∷ n))
            (trim-declaration c (w ++ b' ' ∷ print_type o t) n text valid))

print_acquire_full : (verb : AcquireVerb) (o t n : Str) → is_nil (print_acquire verb o t n) ≡ false
print_acquire_full Command.spawn o t n = refl
print_acquire_full Command.attach o t n = refl
print_acquire_full Command.ensure o t n = refl

quiet_no_dot : (c : ℕ) → is_quiet c ≡ true → (b'.' == c) ≡ false
unfolding is_quiet is_word is_upper is_lower is_digit
quiet_no_dot c h = ground arith

line_quiet :
    (verb : AcquireVerb) (o t n : Str)
    → IsType o t
    → is_valid_local_name n ≡ true
    → every is_quiet (print_acquire verb o t n) ≡ true
unfolding every is_quiet is_word is_upper is_lower is_digit
line_quiet verb o t n h valid =
    every-append is_quiet (verb_text verb) (b' ' ∷ print_declaration o t n)
      (quiet_words (verb_text verb) (verb_words verb)) (declaration_quiet o t n h valid)

-- A line that spawns, attaches or ensures an entity gives back its parts: written with a type of two
-- upper-case names in word characters and with a valid name.
pub parse_line-print_acquire :
    (verb : AcquireVerb) (origin tag name : Str)
    → IsType origin tag
    → is_valid_local_name name ≡ true
    → parse_line (print_acquire verb origin tag name)
      ≡ ok (Command.acquire (record { verb = verb; origin = origin; tag = tag; name = name }))
unfolding parse_line parse_plain find_stream_arrow
parse_line-print_acquire verb o t n h valid =
    let line = print_acquire verb o t n in
    let v = verb_text verb in
    let quiet = line_quiet verb o t n h valid in
    let text = every_weaken is_word is_text (λ c w. ap not (word_text c w)) v (verb_words verb) in
    ap parse_text (line_tidy verb o t n valid)
    ∙ (parse_text_full line (print_acquire_full verb o t n)
        ∙ (ap (stream_at line) (arrow_from_quiet line 0 quiet)
            ∙ (if_false (dot_first (find_char b'.' line) (find_if is_blank line)) _ _ (
                  ap (λ d. dot_first d (find_if is_blank line))
                    (find_if-none (◌==◌ b'.') is_quiet line quiet_no_dot quiet))
                ∙ (ap (verb_at line) (find_blank v (print_declaration o t n) text)
                    ∙ (ap₂ (parse_verb line) (take-append v (b' ' ∷ print_declaration o t n)) (
                          ap trim (drop_next-append v b' ' (print_declaration o t n))
                          ∙ declaration_tidy o t n h valid)
                        ∙ (parse_verb-verb_text verb line (print_declaration o t n)
                            ∙ declared v verb o t n h valid))))))

parse_operation-verb_text :
    (verb : AcquireVerb) (receiver payload : Str)
    → parse_call (record { receiver = receiver; member = verb_text verb; payload = payload })
      ≡ acquire_child verb
          (record { receiver = receiver; member = verb_text verb; payload = payload })
unfolding parse_call parse_operation same is_lower
parse_operation-verb_text Command.spawn receiver payload = refl
parse_operation-verb_text Command.attach receiver payload = refl
parse_operation-verb_text Command.ensure receiver payload = refl

verb_full : (verb : AcquireVerb) → is_nil (verb_text verb) ≡ false
verb_full Command.spawn = refl
verb_full Command.attach = refl
verb_full Command.ensure = refl

-- A line that acquires a child gives back its parts: written with a valid name of the parent, a type
-- of two upper-case names in word characters and a valid name.
pub parse_line_child :
    (verb : AcquireVerb) (parent origin tag name : Str)
    → is_valid_local_name parent ≡ true
    → IsType origin tag
    → is_valid_local_name name ≡ true
    → parse_line (print_call parent (verb_text verb) (print_declaration origin tag name))
      ≡ ok (
          Command.child_acquire
            (record { verb = verb; parent_name = parent; origin = origin; tag = tag; name = name }))
parse_line_child verb parent o t n valid_parent h valid =
    parse_line-print_call parent (verb_text verb) (print_declaration o t n) valid_parent
      (verb_full verb, verb_words verb) (declaration_tidy o t n h valid)
      (quiet-IsArgument (print_declaration o t n) (declaration_quiet o t n h valid))
    ∙ (parse_operation-verb_text verb parent (print_declaration o t n)
        ∙ ap
            (λ d. bind (map_err (Command.declaration (verb_text verb)) d) (λ d. ok (
              Command.child_acquire (record {
                verb = verb;
                parent_name = parent;
                origin = d.origin;
                tag = d.tag;
                name = d.name;
              }))))
            (parse_typed_declaration-print o t n h valid))
