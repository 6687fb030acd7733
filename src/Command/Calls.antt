-- ===== src/Command/Calls.antt =====
-- core/Command.h, the parts of a line: a dotted call, a typed declaration, the bindings of a script.
use etcs.Base.{ℕ, suc, ◌-◌, ◌||◌, List, [], ◌∷◌, Option, none, some, ltb, if◌then◌else◌, take, drop}
use etcs.Base.Results.{Result, ok, err, bind}
use etcs.Base.Strings.{
  Str, codes, same, is_nil, every, is_word, is_space, is_blank, find_if, find_char, substr,
}
use etcs.Command.{
  DottedError, no_bracket, no_receiver, bad_receiver, no_action, bad_action, unbalanced, trailing,
  DeclarationError, no_name, bad_type, bad_name, BindingError, bad_binding, bad_binding_name,
  Removed, ambient_context, as_name, browse, control,
}
use etcs.Command.Names.{trim, split_module_tag, is_valid_local_name}
use etcs.Command.Brackets.{find_closing_bracket}

pub record DottedCall : Type 0 where
  pub receiver : Str
  pub member : Str
  pub payload : Str

abbrev pub closed_at : Str → ℕ → Str → Str → Option ℕ → Result DottedError DottedCall
closed_at s opening receiver member none = err unbalanced
closed_at s opening receiver member (some close) =
    if every is_space (drop (suc close) s)
    then ok (record {
      receiver = receiver;
      member = member;
      payload = trim (substr s (suc opening) (close - opening - 1));
    })
    else err trailing

-- The checks of both names, then of the brackets.
unfoldable pub check_call : Str → ℕ → Str → Str → Result DottedError DottedCall
unfolding is_valid_local_name every find_closing_bracket trim
check_call s opening receiver member =
    if is_valid_local_name receiver
    then (if is_nil member
        then err no_action
        else (if every is_word member
            then closed_at s opening receiver member (find_closing_bracket s opening)
            else err (bad_action member)))
    else err (bad_receiver receiver)

abbrev pub dotted_at : Str → ℕ → Option ℕ → Result DottedError DottedCall
dotted_at s opening none = err no_receiver
dotted_at s opening (some dot) =
    if ltb opening dot
    then err no_receiver
    else check_call s opening (trim (take dot s)) (trim (substr s (suc dot) (opening - dot - 1)))

abbrev pub bracket_at : Str → Option ℕ → Result DottedError DottedCall
bracket_at s none = err no_bracket
bracket_at s (some opening) = dotted_at s opening (find_char b'.' s)

unfoldable pub parse_dotted : Str → Result DottedError DottedCall
unfolding check_call find_if
parse_dotted s = bracket_at s (find_char b'(' s)

pub record Declaration : Type 0 where
  pub origin : Str
  pub tag : Str
  pub name : Str

abbrev pub declare_as : Str → Str → Option (Str × Str) → Result DeclarationError Declaration
declare_as scope name none = err (bad_type scope)
declare_as scope name (some (origin, tag)) =
    if is_valid_local_name name
    then ok (record { origin = origin; tag = tag; name = name })
    else err (bad_name name)

abbrev pub declare_at : Str → Option ℕ → Result DeclarationError Declaration
declare_at s none = err no_name
declare_at s (some sp) =
    let scope = trim (take sp s) in
    declare_as scope (trim (drop (suc sp) s)) (split_module_tag scope)

unfoldable pub parse_typed_declaration : Str → Result DeclarationError Declaration
unfolding find_if trim split_module_tag is_valid_local_name
parse_typed_declaration s = declare_at s (find_if is_blank s)

abbrev pub bind_names : Str → Str → Result BindingError (Str × Str)
bind_names child parent =
    if is_valid_local_name child
    then (if is_valid_local_name parent then ok (child, parent) else err (bad_binding_name parent))
    else err (bad_binding_name child)

abbrev pub bind_at : Str → Option ℕ → Result BindingError (Str × Str)
bind_at token none = err (bad_binding token)
bind_at token (some eq) = bind_names (take eq token) (drop (suc eq) token)

-- On the tokens of the rest of the line.
unfoldable pub parse_bindings : List Str → Result BindingError (List (Str × Str))
unfolding find_if is_valid_local_name
parse_bindings [] = ok []
parse_bindings (token ∷ tokens) =
    let rest = parse_bindings tokens in
    bind (bind_at token (find_char b'=' token)) (λ b. bind rest (λ bs. ok (b ∷ bs)))

unfoldable pub removed_construct : Str → Option Removed
unfolding same
removed_construct verb =
    if same verb (codes "context")
    then some ambient_context
    else (if same verb (codes "as")
        then some as_name
        else (if same verb (codes "list") || same verb (codes "select")
            then some browse
            else (if same verb (codes "jobs") || same verb (codes "signal")
                then some control
                else none)))
