-- ===== src/Command/Lines.antt =====
-- core/Command.h, parse_line.
use etcs.Base.{
  ℕ, suc, ◌+◌, ◌-◌, Bool, true, false, ◌||◌, List, [], ◌∷◌, Option, none, some, ltb, if◌then◌else◌,
  take, drop,
}
use etcs.Base.Results.{Result, ok, err, bind, map_err}
use etcs.Base.Strings.{
  Str, codes, same, is_nil, every, is_space, is_blank, find_if, find_char, find_scope, has_scope,
  substr, words, words_from, split, split_from,
}
use etcs.Command
use etcs.Command.{
  Command, CmdError, AcquireVerb, CmdScript, DottedError, DeclarationError, BindingError, Removed,
}
use etcs.Command.Names.{trim, is_uppercase_start, is_valid_local_name, is_valid_requires_tag}
use etcs.Command.Brackets.{find_stream_arrow}
use etcs.Command.Operations.{Parsed, parse_stream, parse_call}
use etcs.Command.Calls.{parse_dotted, parse_typed_declaration, parse_bindings, removed_construct}

-- The tags of a list: an empty one is passed over, and the first that is none ends the list.
unfoldable pub collect_tags : List Str → Result CmdError (List Str)
unfolding trim is_valid_requires_tag
collect_tags [] = ok []
collect_tags (item ∷ items) =
    let tag = trim item in
    let rest = collect_tags items in
    if is_nil tag
    then rest
    else (if is_valid_requires_tag tag
        then bind rest (λ tags. ok (tag ∷ tags))
        else err (Command.requires_bad_tag tag))

unfoldable pub requires_named : Str → List Str → Parsed
unfolding find_scope is_valid_local_name
requires_named name tags =
    if has_scope name
    then err (Command.requires_type name)
    else (if is_valid_local_name name
        then ok (Command.requires (record { name = name; tags = tags }))
        else err (Command.requires_bad_name name))

abbrev pub require_some : Str → List Str → Parsed
require_some name [] = err Command.requires_no_tags
require_some name (tag ∷ tags) = requires_named name (tag ∷ tags)

abbrev pub tags_to : Str → ℕ → Option ℕ → Parsed
tags_to rest opening none = err Command.requires_unbalanced
tags_to rest opening (some k) =
    if every is_space (drop (suc (opening + k)) rest)
    then bind (collect_tags (split b',' (substr rest (suc opening) (k - 1))))
        (λ tags. require_some (trim (take opening rest)) tags)
    else err Command.requires_trailing

abbrev pub tags_at : Str → Option ℕ → Parsed
tags_at rest none = requires_named rest []
tags_at rest (some opening) = tags_to rest opening (find_char b']' (drop opening rest))

unfoldable pub parse_requires : Str → Parsed
unfolding find_if requires_named every trim collect_tags split_from
parse_requires rest =
    if is_nil rest then err Command.requires_name else tags_at rest (find_char b'[' rest)

abbrev pub acquire_command : Str → AcquireVerb → Str → Parsed
acquire_command text verb rest =
    bind (map_err (Command.declaration text) (parse_typed_declaration rest)) (λ d.
      ok (Command.acquire (record { verb = verb; origin = d.origin; tag = d.tag; name = d.name })))

-- The first token is the script, and none stands for an empty name.
abbrev pub script_of : Str → (CmdScript → Command) → List Str → Parsed
script_of verb make [] = ok (make (record { script = []; bindings = [] }))
script_of verb make (script ∷ tokens) =
    bind (map_err (Command.binding verb) (parse_bindings tokens))
      (λ bs. ok (make (record { script = script; bindings = bs })))

unfoldable pub parse_script : Str → (CmdScript → Command) → Str → Parsed
unfolding words_from parse_bindings
parse_script verb make rest =
    if is_nil rest then err (Command.script_name verb) else script_of verb make (words rest)

abbrev pub up_to : Str → Option ℕ → Str
up_to s none = s
up_to s (some i) = take i s

abbrev pub refuse_at : Str → Str → Option ℕ → Parsed
refuse_at line verb (some i) = err (Command.no_entity line (up_to verb (find_char b'(' verb)))
refuse_at line verb none =
    if is_uppercase_start verb
    then err (Command.bare_type line)
    else err (Command.unknown_command verb)

-- The errors for a line with no known verb.
abbrev pub refuse_line : Str → Str → Option Removed → Parsed
refuse_line line verb (some why) = err (Command.removed verb why)
refuse_line line verb none = refuse_at line verb (find_char b'(' line)

unfoldable pub parse_verb : Str → Str → Str → Parsed
unfolding same parse_requires parse_script removed_construct find_if parse_typed_declaration
parse_verb line verb rest =
    if same verb (codes "exit") || same verb (codes "quit")
    then ok Command.exit
    else (if same verb (codes "requires")
        then parse_requires rest
        else (if same verb (codes "spawn")
            then acquire_command verb Command.spawn rest
            else (if same verb (codes "attach")
                then acquire_command verb Command.attach rest
                else (if same verb (codes "ensure")
                    then acquire_command verb Command.ensure rest
                    else (if same verb (codes "detach")
                        then parse_script verb Command.detach rest
                        else (if same verb (codes "run")
                            then parse_script verb Command.run rest
                            else refuse_line line verb (removed_construct verb)))))))

abbrev pub verb_at : Str → Option ℕ → Parsed
verb_at line none = parse_verb line line []
verb_at line (some sp) = parse_verb line (take sp line) (trim (drop (suc sp) line))

-- Whether the first dot comes before any blank.
abbrev pub dot_first : Option ℕ → Option ℕ → Bool
dot_first none sp = false
dot_first (some dot) none = true
dot_first (some dot) (some sp) = ltb dot sp

unfoldable pub parse_plain : Str → Parsed
unfolding find_if parse_dotted parse_call parse_verb trim
parse_plain line =
    if dot_first (find_char b'.' line) (find_if is_blank line)
    then bind (map_err Command.dotted (parse_dotted line)) (λ call. parse_call call)
    else verb_at line (find_if is_blank line)

abbrev pub stream_at : Str → Option ℕ → Parsed
stream_at line none = parse_plain line
stream_at line (some arrow) = parse_stream line arrow

unfoldable pub parse_text : Str → Parsed
unfolding find_stream_arrow parse_plain parse_stream
parse_text [] = err Command.empty_line
parse_text (c ∷ line) = stream_at (c ∷ line) (find_stream_arrow (c ∷ line))

unfoldable pub parse_line : Str → Parsed
unfolding trim parse_text
parse_line raw = parse_text (trim raw)
