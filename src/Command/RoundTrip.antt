-- ===== src/Command/RoundTrip.antt =====
-- core/Command.h, lines that are written from their parts read back as these parts.
use etcs.Base.{
  ℕ, suc, ◌≡◌, refl, ap, ◌∙◌, subst, Bool, true, false, ◌||◌, [], ◌∷◌, ◌++◌, Option, none, some,
  length, arith,
}
use etcs.Base.Results.{ok, err, bind, map_err}
use etcs.Base.Strings.{
  Str, codes, same, every, is_nil, is_word, is_blank, find_if, find_char, next_index,
}
use etcs.Command
use etcs.Command.{AcquireVerb}
use etcs.Command.Names.{trim, is_valid_local_name, is_lowercase_start}
use etcs.Command.Words.{word_text, trim-ends, name_words}
use etcs.Command.Brackets.{find_stream_arrow}
use etcs.Command.Scans.{IsArgument, print_call, find_stream_arrow_call}
use etcs.Command.WellFormed.{IsMember}
use etcs.Command.Dotted.{if_true, if_false, concat_assoc, find_dot, parse_dotted-print_call}
use etcs.Command.Operations.{plain_action, parse_call, parse_operation}
use etcs.Command.Lines.{dot_first, parse_plain, stream_at, parse_text, parse_line}

dot_first_next :
    (n : ℕ) (o : Option ℕ)
    → dot_first (some n) o ≡ true
    → dot_first (some (suc n)) (next_index o) ≡ true
dot_first_next n none h = refl
dot_first_next n (some i) h = ground arith

dot_first_here : (o : Option ℕ) → dot_first (some 0) (next_index o) ≡ true
dot_first_here none = refl
dot_first_here (some i) = ground arith

-- No blank stands before the end of a word and of the character after it.
first_before :
    (s : Str) (d : ℕ) (t : Str)
    → every is_word s ≡ true
    → is_blank d ≡ false
    → dot_first (some (length s)) (find_if is_blank (s ++ d ∷ t)) ≡ true
unfolding every find_if
first_before [] d t h e =
    ap (dot_first (some 0)) (if_false (is_blank d) (some 0) (next_index (find_if is_blank t)) e)
    ∙ dot_first_here (find_if is_blank t)
first_before (c ∷ s) d t h e =
    ap (dot_first (some (suc (length s)))) (
      if_false (is_blank c) (some 0) (next_index (find_if is_blank (s ++ d ∷ t)))
        (word_text c (ground arith)))
    ∙ dot_first_next (length s) (find_if is_blank (s ++ d ∷ t))
        (first_before s d t (ground arith) e)

pub print_call_end : (r m p : Str) → (r ++ b'.' ∷ (m ++ b'(' ∷ p)) ++ b')' ∷ [] ≡ print_call r m p
print_call_end r m p =
    concat_assoc r b'.' (m ++ b'(' ∷ p) (b')' ∷ [])
    ∙ ap (λ s. r ++ b'.' ∷ s) (concat_assoc m b'(' p (b')' ∷ []))

pub trim-print_call :
    (r m p : Str) → is_valid_local_name r ≡ true → trim (print_call r m p) ≡ print_call r m p
unfolding is_valid_local_name every is_blank
trim-print_call [] m p valid = absurd (cc)
trim-print_call (c ∷ r) m p valid =
    subst (λ (s : Str). trim (c ∷ s) ≡ c ∷ s) (print_call_end r m p)
      (trim-ends c (r ++ b'.' ∷ (m ++ b'(' ∷ p)) b')' (word_text c (ground arith)) refl)

pub print_call_full :
    (r m p : Str) → is_valid_local_name r ≡ true → is_nil (print_call r m p) ≡ false
unfolding is_valid_local_name
print_call_full [] m p valid = refl
print_call_full (c ∷ r) m p valid = refl

pub parse_text_full :
    (s : Str) → is_nil s ≡ false → parse_text s ≡ stream_at s (find_stream_arrow s)
unfolding parse_text
parse_text_full [] h = absurd (cc)
parse_text_full (c ∷ s) h = refl

-- A line that is one call, written with a valid name, an action of word characters and a payload that
-- is trimmed and balanced, does what the call does.
pub parse_line-print_call :
    (receiver member payload : Str)
    → is_valid_local_name receiver ≡ true
    → IsMember member
    → trim payload ≡ payload
    → IsArgument payload
    → parse_line (print_call receiver member payload)
      ≡ parse_call (record { receiver = receiver; member = member; payload = payload })
unfolding parse_line parse_plain is_blank
parse_line-print_call r m p valid (full, words) tidy content =
    let line = print_call r m p in
    let word_r = name_words r valid in
    ap parse_text (trim-print_call r m p valid)
    ∙ (parse_text_full line (print_call_full r m p valid)
        ∙ (ap (stream_at line) (find_stream_arrow_call r m p word_r words content)
            ∙ (if_true (dot_first (find_char b'.' line) (find_if is_blank line)) _ _ (
                  ap (λ o. dot_first o (find_if is_blank line)) (find_dot r m p word_r)
                  ∙ first_before r b'.' _ word_r refl)
                ∙ ap (λ c. bind (map_err Command.dotted c) parse_call)
                    (parse_dotted-print_call r m p valid (full, words) tidy content))))

-- An action line gives back its parts: written with a valid name, an action of word characters that
-- does not start lower-case, and a payload that is trimmed and has its brackets and quotes balanced.
pub parse_line_action :
    (receiver action payload : Str)
    → is_valid_local_name receiver ≡ true
    → IsMember action
    → is_lowercase_start action ≡ false
    → trim payload ≡ payload
    → IsArgument payload
    → parse_line (print_call receiver action payload)
      ≡ ok (plain_action (record { receiver = receiver; member = action; payload = payload }))
unfolding parse_call
parse_line_action r m p valid member title tidy content =
    parse_line-print_call r m p valid member tidy content
    ∙ if_false (is_lowercase_start m) _ _ title

-- The members that start lower-case and mean something.
abbrev pub is_operation : Str → Bool
is_operation m =
    same m (codes "spawn")
    || (same m (codes "attach")
        || (same m (codes "ensure") || (same m (codes "kill") || same m (codes "unflag"))))

none_of : (a b : Bool) → (a || b) ≡ false → (a ≡ false) × (b ≡ false)
none_of a b h = ground arith

-- A call whose member starts lower-case and is none of the five operations is refused with that
-- member, whatever its payload: where the call is written with a valid name, a member of word
-- characters and a payload that is trimmed and has its brackets and quotes balanced.
pub parse_line_reserved :
    (receiver member payload : Str)
    → is_valid_local_name receiver ≡ true
    → IsMember member
    → is_lowercase_start member ≡ true
    → is_operation member ≡ false
    → trim payload ≡ payload
    → IsArgument payload
    → parse_line (print_call receiver member payload) ≡ err (Command.not_an_operation member)
unfolding parse_call parse_operation
parse_line_reserved r m p valid word lower other tidy content =
    let (spawn, rest₁) = none_of (same m (codes "spawn")) _ other in
    let (attach, rest₂) = none_of (same m (codes "attach")) _ rest₁ in
    let (ensure, rest₃) = none_of (same m (codes "ensure")) _ rest₂ in
    let (kill, unflag) = none_of (same m (codes "kill")) _ rest₃ in
    parse_line-print_call r m p valid word tidy content
    ∙ (if_true (is_lowercase_start m) _ _ lower
        ∙ (if_false (same m (codes "spawn")) _ _ spawn
            ∙ (if_false (same m (codes "attach")) _ _ attach
                ∙ (if_false (same m (codes "ensure")) _ _ ensure
                    ∙ (if_false (same m (codes "kill")) _ _ kill
                        ∙ if_false (same m (codes "unflag")) _ _ unflag)))))
