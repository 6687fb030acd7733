-- ===== src/Command/Streams.antt =====
-- core/Command.h, a line that joins two calls to a stream.
use etcs.Base.{
  ◌+◌, ◌≡◌, refl, sym, ap, ap₂, ◌∙◌, subst, true, false, ◌&&◌, ◌||◌, [], ◌∷◌, ◌++◌, some, length,
  arith, length-append,
}
use etcs.Base.Results.{ok, bind, map_err}
use etcs.Base.Strings.{Str, is_nil, is_blank}
use etcs.Base.Strings.Search.{take-append}
use etcs.Command
use etcs.Command.Names.{trim, is_valid_local_name, is_uppercase_start}
use etcs.Command.Words.{trim-ends, name_words, StartsWithText, name-StartsWithText}
use etcs.Command.Brackets.{find_stream_arrow}
use etcs.Command.Scans.{IsArgument, print_call, call_then, find_stream_arrow_between}
use etcs.Command.WellFormed.{IsMember}
use etcs.Command.Calls.{DottedCall, parse_dotted}
use etcs.Command.Dotted.{if_true, if_false, concat_assoc, parse_dotted-print_call}
use etcs.Command.Declared.{drop_two}
use etcs.Command.Operations.{stream_action, join_stream, stream_of, parse_stream}
use etcs.Command.Lines.{stream_at, parse_text, parse_line}
use etcs.Command.RoundTrip.{parse_text_full, trim-print_call, print_call_end, print_call_full}

-- What a call is written from: a valid name, an action of word characters that starts upper-case,
-- and a payload that is trimmed and balanced.
pub record IsModuleCall (call : DottedCall) : Type 0 where
  pub name : is_valid_local_name call.receiver ≡ true
  pub member : IsMember call.member
  pub upper : is_uppercase_start call.member ≡ true
  pub tidy : trim call.payload ≡ call.payload
  pub content : IsArgument call.payload

abbrev pub print : DottedCall → Str
print call = print_call call.receiver call.member call.payload

abbrev pub print_stream : DottedCall → DottedCall → Str
print_stream prod cons = print prod ++ b'-' ∷ b'>' ∷ print cons

call_then-print : (r m p rest : Str) → print_call r m p ++ rest ≡ call_then r m p rest
call_then-print r m p rest =
    concat_assoc r b'.' (m ++ b'(' ∷ (p ++ b')' ∷ [])) rest
    ∙ (ap (λ s. r ++ b'.' ∷ s) (concat_assoc m b'(' (p ++ b')' ∷ []) rest)
        ∙ ap (λ s. r ++ b'.' ∷ (m ++ b'(' ∷ s)) (concat_assoc p b')' [] rest))

length-print : (r m p : Str) → length r + (length m + (length p + 3)) ≡ length (print_call r m p)
length-print r m p = omega (
  arith,
  length-append r (b'.' ∷ (m ++ b'(' ∷ (p ++ b')' ∷ []))),
  length-append m (b'(' ∷ (p ++ b')' ∷ [])),
  length-append p (b')' ∷ []),
)

print_nonempty : (a : DottedCall) → IsModuleCall a → is_nil (print a) ≡ false
print_nonempty a h = print_call_full a.receiver a.member a.payload h.name

trim-print : (a : DottedCall) → IsModuleCall a → trim (print a) ≡ print a
trim-print a h = trim-print_call a.receiver a.member a.payload h.name

-- A string that begins as a call and ends as one stays.
trim-print_stream : (a b : DottedCall) → IsModuleCall a → trim (print_stream a b) ≡ print_stream a b
unfolding is_blank
trim-print_stream a b h = begins (name-StartsWithText a.receiver h.name)
  where
    begins : StartsWithText a.receiver → trim (print_stream a b) ≡ print_stream a b
    begins (c, (w, (e, text))) =
        let rest = b'.' ∷ (a.member ++ b'(' ∷ (a.payload ++ b')' ∷ [])) in
        let end = b'>' ∷ (b.receiver ++ b'.' ∷ (b.member ++ b'(' ∷ b.payload)) in
        subst
          (λ (x : Str).
            trim ((x ++ rest) ++ b'-' ∷ b'>' ∷ print b) ≡ (x ++ rest) ++ b'-' ∷ b'>' ∷ print b)
          (sym e)
          (subst (λ (x : Str). trim (c ∷ x) ≡ c ∷ x)
            (concat_assoc (w ++ rest) b'-' end (b')' ∷ [])
              ∙ ap (λ s. (w ++ rest) ++ b'-' ∷ b'>' ∷ s)
                  (print_call_end b.receiver b.member b.payload))
            (trim-ends c ((w ++ rest) ++ b'-' ∷ end) b')' text refl))

arrow_found :
    (a b : DottedCall)
    → IsModuleCall a
    → find_stream_arrow (print_stream a b) ≡ some (length (print a))
arrow_found a b h =
    ap find_stream_arrow (call_then-print a.receiver a.member a.payload (b'-' ∷ b'>' ∷ print b))
    ∙ (find_stream_arrow_between a.receiver a.member a.payload (print b)
          (name_words a.receiver h.name) h.member.1 h.content
        ∙ ap some (length-print a.receiver a.member a.payload))

parsed : (a : DottedCall) → IsModuleCall a → parse_dotted (print a) ≡ ok a
parsed a h = parse_dotted-print_call a.receiver a.member a.payload h.name h.member h.tidy h.content

stream_of-print :
    (a b : DottedCall)
    → IsModuleCall a
    → IsModuleCall b
    → stream_of (print a) (print b) ≡ ok (stream_action a b)
stream_of-print a b h k =
    if_false (is_nil (print a) || is_nil (print b)) _ _
      (ground (arith, print_nonempty a h, print_nonempty b k))
    ∙ (ap₂
          (λ x y.
            bind (map_err Command.stream_producer x)
              (λ prod. bind (map_err Command.stream_consumer y) (λ cons. join_stream prod cons)))
          (parsed a h) (parsed b k)
        ∙ if_true (is_uppercase_start a.member && is_uppercase_start b.member) _ _
            (ground (arith, h.upper, k.upper)))

-- A stream line, two calls of modules with an arrow between, gives back both: each written with a
-- valid name, an action of word characters that starts upper-case, and a payload that is trimmed and
-- has its brackets and quotes balanced.
pub parse_line-print_stream :
    (prod cons : DottedCall)
    → IsModuleCall prod
    → IsModuleCall cons
    → parse_line (print_stream prod cons) ≡ ok (stream_action prod cons)
unfolding parse_line parse_stream
parse_line-print_stream a b h k =
    let line = print_stream a b in
    ap parse_text (trim-print_stream a b h)
    ∙ (parse_text_full line (stream_nonempty a.receiver h.name)
        ∙ (ap (stream_at line) (arrow_found a b h)
            ∙ (ap₂ stream_of
                  (ap trim (take-append (print a) (b'-' ∷ b'>' ∷ print b)) ∙ trim-print a h)
                  (ap trim (drop_two (print a) b'-' b'>' (print b)) ∙ trim-print b k)
                ∙ stream_of-print a b h k)))
  where
    stream_nonempty :
        (r : Str)
        → is_valid_local_name r ≡ true
        → is_nil (print_call r a.member a.payload ++ b'-' ∷ b'>' ∷ print b) ≡ false
    stream_nonempty [] valid = refl
    stream_nonempty (c ∷ r) valid = refl
