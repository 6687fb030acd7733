-- ===== src/Command/Sound.antt =====
-- core/Command.h, every command that parse_line gives is well formed.
use etcs.Base.{
  ℕ, suc, ◌+◌, ◌-◌, ◌≡◌, refl, Bool, true, false, ◌&&◌, ◌||◌, List, [], ◌∷◌, Option, none, some,
  if◌then◌else◌, take, drop, arith,
}
use etcs.Base.Results.{map_err, Ensures, Ensures-if, Ensures-bind, Ensures-map_err}
use etcs.Base.Strings.{
  Str, codes, same, is_nil, every, is_space, is_blank, find_char, find_if, has_scope, substr, split,
  words,
}
use etcs.Command
use etcs.Command.{Command, CmdScript, AcquireVerb, Removed, CmdError}
use etcs.Command.Names.{
  trim, is_uppercase_start, is_lowercase_start, is_valid_local_name, is_valid_requires_tag,
}
use etcs.Command.Brackets.{find_stream_arrow}
use etcs.Command.Numbers.{stoull}
use etcs.Command.Calls.{
  DottedCall, parse_dotted, parse_typed_declaration, parse_bindings, removed_construct,
}
use etcs.Command.Operations.{
  Parsed, join_stream, parse_stream, acquire_child, kill_number, kill_indexed, kill_at, parse_kill,
  parse_unflag, parse_operation, parse_call,
}
use etcs.Command.Lines.{
  collect_tags, requires_named, require_some, tags_to, tags_at, parse_requires, acquire_command,
  script_of, parse_script, refuse_line, refuse_at, parse_verb, verb_at, dot_first, parse_plain,
  stream_at, parse_text, parse_line,
}
use etcs.Command.WellFormed.{
  IsWellFormed, AreTags, AreBindings, IsCall, IsDeclared, Fits, parse_dotted-IsCall,
  parse_typed_declaration-IsDeclared, parse_bindings-AreBindings, stoull-Fits,
}

-- The result of a line is an error or well formed.
abbrev pub Sound : Parsed → Type 0
Sound r = Ensures IsWellFormed r

Sound-if : (b : Bool) (x y : Parsed) → Sound x → Sound y → Sound (if b then x else y)
Sound-if true x y h k = h
Sound-if false x y h k = k

both : (a b : Bool) → (a && b) ≡ true → (a ≡ true) × (b ≡ true)
both a b h = ground arith

either : (a b : Bool) → (a || b) ≡ false → (a ≡ false) × (b ≡ false)
either a b h = ground arith

parse_stream-Sound : (line : Str) (arrow : ℕ) → Sound (parse_stream line arrow)
unfolding parse_stream
parse_stream-Sound line arrow =
    let lhs = trim (take arrow line) in
    let rhs = trim (drop (arrow + 2) line) in
    Sound-if (is_nil lhs || is_nil rhs) _ _ tt (
      Ensures-bind IsCall IsWellFormed (map_err Command.stream_producer (parse_dotted lhs)) _
        (Ensures-map_err IsCall Command.stream_producer (parse_dotted lhs)
          (parse_dotted-IsCall lhs))
        (λ prod p.
          Ensures-bind IsCall IsWellFormed (map_err Command.stream_consumer (parse_dotted rhs)) _
            (Ensures-map_err IsCall Command.stream_consumer (parse_dotted rhs)
              (parse_dotted-IsCall rhs))
            (λ cons c. joined prod cons p c)))
  where
    joined : (prod cons : DottedCall) → IsCall prod → IsCall cons → Sound (join_stream prod cons)
    joined prod cons (receiver, member) (c_receiver, c_member) =
        Ensures-if IsWellFormed (is_uppercase_start prod.member && is_uppercase_start cons.member) _
          _
          (λ e.
            let (up, c_up) =
              both (is_uppercase_start prod.member) (is_uppercase_start cons.member) e in
            (receiver, member, (up, c_receiver, c_member, c_up)))
          (λ e. tt)

acquire_child-Sound :
    (verb : AcquireVerb) (call : DottedCall) → IsCall call → Sound (acquire_child verb call)
acquire_child-Sound verb call (receiver, member) =
    Ensures-bind IsDeclared IsWellFormed
      (map_err (Command.declaration call.member) (parse_typed_declaration call.payload)) _
      (Ensures-map_err IsDeclared (Command.declaration call.member)
        (parse_typed_declaration call.payload) (parse_typed_declaration-IsDeclared call.payload))
      (λ d (scope, name). (receiver, scope, name))

kill_indexed-Sound :
    (receiver label idx : Str)
    → is_valid_local_name receiver ≡ true
    → Sound (kill_indexed receiver label idx)
kill_indexed-Sound receiver label idx valid =
    Sound-if (is_nil idx) _ _ (valid, tt) (numbered (stoull idx) (stoull-Fits idx))
  where
    numbered : (r : Option (ℕ × Str)) → Fits r → Sound (kill_number receiver label idx r)
    numbered none h = tt
    numbered (some (n, rest)) h = Sound-if (is_nil rest) _ _ (valid, h) tt

parse_kill-Sound : (call : DottedCall) → IsCall call → Sound (parse_kill call)
unfolding parse_kill
parse_kill-Sound call (valid, member) =
    Sound-if (is_nil call.payload) _ _ tt (at (find_if is_blank call.payload))
  where
    at : (sp : Option ℕ) → Sound (kill_at call sp)
    at none = kill_indexed-Sound call.receiver call.payload [] valid
    at (some sp) =
        kill_indexed-Sound call.receiver (take sp call.payload) (trim (drop (suc sp) call.payload))
          valid

parse_unflag-Sound : (call : DottedCall) → IsCall call → Sound (parse_unflag call)
unfolding parse_unflag
parse_unflag-Sound call (valid, member) =
    Ensures-if IsWellFormed (is_nil call.payload) _ _ (λ e. tt) (λ e. (valid, e))

parse_operation-Sound : (call : DottedCall) → IsCall call → Sound (parse_operation call)
unfolding parse_operation
parse_operation-Sound call h =
    Sound-if (same call.member (codes "spawn")) _ _ (acquire_child-Sound Command.spawn call h) (
      Sound-if (same call.member (codes "attach")) _ _ (acquire_child-Sound Command.attach call h) (
        Sound-if (same call.member (codes "ensure")) _ _ (acquire_child-Sound Command.ensure call h)
          (Sound-if (same call.member (codes "kill")) _ _ (parse_kill-Sound call h)
            (Sound-if (same call.member (codes "unflag")) _ _ (parse_unflag-Sound call h) tt))))

parse_call-Sound : (call : DottedCall) → IsCall call → Sound (parse_call call)
unfolding parse_call
parse_call-Sound call (receiver, member) =
    Ensures-if IsWellFormed (is_lowercase_start call.member) _ _
      (λ e. parse_operation-Sound call (receiver, member))
      (λ e. (receiver, member, (e, refl, refl, refl)))

collect_tags-AreTags : (items : List Str) → Ensures AreTags (collect_tags items)
unfolding collect_tags
collect_tags-AreTags [] = tt
collect_tags-AreTags (item ∷ items) =
    let rest = collect_tags-AreTags items in
    Ensures-if AreTags (is_nil (trim item)) _ _ (λ e. rest)
      (λ e.
        Ensures-if AreTags (is_valid_requires_tag (trim item)) _ _
          (λ tag. Ensures-bind AreTags AreTags (collect_tags items) _ rest (λ tags h. (tag, h)))
          (λ e. tt))

requires_named-Sound :
    (name : Str) (tags : List Str) → AreTags tags → Sound (requires_named name tags)
unfolding requires_named
requires_named-Sound name tags h =
    Sound-if (has_scope name) _ _ tt
      (Ensures-if IsWellFormed (is_valid_local_name name) _ _ (λ e. (e, h)) (λ e. tt))

parse_requires-Sound : (rest : Str) → Sound (parse_requires rest)
unfolding parse_requires
parse_requires-Sound rest = Sound-if (is_nil rest) _ _ tt (at (find_char b'[' rest))
  where
    tagged : (name : Str) (tags : List Str) → AreTags tags → Sound (require_some name tags)
    tagged name [] h = tt
    tagged name (t ∷ ts) h = requires_named-Sound name (t ∷ ts) h

    to : (i : ℕ) (k : Option ℕ) → Sound (tags_to rest i k)
    to i none = tt
    to i (some k) =
        let body = split b',' (substr rest (suc i) (k - 1)) in
        Sound-if (every is_space (drop (suc (i + k)) rest)) _ _
          (Ensures-bind AreTags IsWellFormed (collect_tags body) _ (collect_tags-AreTags body)
            (λ tags h. tagged (trim (take i rest)) tags h))
          tt

    at : (i : Option ℕ) → Sound (tags_at rest i)
    at none = requires_named-Sound rest [] tt
    at (some i) = to i (find_char b']' (drop i rest))

acquire_command-Sound :
    (text : Str) (verb : AcquireVerb) (rest : Str) → Sound (acquire_command text verb rest)
acquire_command-Sound text verb rest =
    Ensures-bind IsDeclared IsWellFormed
      (map_err (Command.declaration text) (parse_typed_declaration rest)) _
      (Ensures-map_err IsDeclared (Command.declaration text) (parse_typed_declaration rest)
        (parse_typed_declaration-IsDeclared rest))
      (λ d h. h)

parse_script-Sound :
    (verb : Str) (make : CmdScript → Command) (rest : Str)
    → ((c : CmdScript) → AreBindings c.bindings → IsWellFormed (make c))
    → Sound (parse_script verb make rest)
unfolding parse_script
parse_script-Sound verb make rest made = Sound-if (is_nil rest) _ _ tt (scripted (words rest))
  where
    scripted : (tokens : List Str) → Sound (script_of verb make tokens)
    scripted [] = made (record { script = []; bindings = [] }) tt
    scripted (script ∷ tokens) =
        Ensures-bind AreBindings IsWellFormed
          (map_err (Command.binding verb) (parse_bindings tokens)) _
          (Ensures-map_err AreBindings (Command.binding verb) (parse_bindings tokens)
            (parse_bindings-AreBindings tokens))
          (λ bs h. made (record { script = script; bindings = bs }) h)

refuse_line-Sound : (line verb : Str) (why : Option Removed) → Sound (refuse_line line verb why)
refuse_line-Sound line verb (some why) = tt
refuse_line-Sound line verb none = at (find_char b'(' line)
  where
    at : (i : Option ℕ) → Sound (refuse_at line verb i)
    at (some i) = tt
    at none = Sound-if (is_uppercase_start verb) _ _ tt tt

parse_verb-Sound : (line verb rest : Str) → Sound (parse_verb line verb rest)
unfolding parse_verb
parse_verb-Sound line verb rest =
    Sound-if (same verb (codes "exit") || same verb (codes "quit")) _ _ tt (
      Sound-if (same verb (codes "requires")) _ _ (parse_requires-Sound rest) (
        Sound-if (same verb (codes "spawn")) _ _ (acquire_command-Sound verb Command.spawn rest) (
          Sound-if (same verb (codes "attach")) _ _ (acquire_command-Sound verb Command.attach rest)
            (Sound-if (same verb (codes "ensure")) _ _
              (acquire_command-Sound verb Command.ensure rest)
              (Sound-if (same verb (codes "detach")) _ _
                (parse_script-Sound verb Command.detach rest (λ c h. h))
                (Sound-if (same verb (codes "run")) _ _
                  (parse_script-Sound verb Command.run rest (λ c h. h))
                  (refuse_line-Sound line verb (removed_construct verb))))))))

parse_plain-Sound : (line : Str) → Sound (parse_plain line)
unfolding parse_plain
parse_plain-Sound line =
    Sound-if (dot_first (find_char b'.' line) (find_if is_blank line)) _ _
      (Ensures-bind IsCall IsWellFormed (map_err Command.dotted (parse_dotted line)) _
        (Ensures-map_err IsCall Command.dotted (parse_dotted line) (parse_dotted-IsCall line))
        parse_call-Sound)
      (at (find_if is_blank line))
  where
    at : (sp : Option ℕ) → Sound (verb_at line sp)
    at none = parse_verb-Sound line line []
    at (some sp) = parse_verb-Sound line (take sp line) (trim (drop (suc sp) line))

-- Whatever the line, parse_line gives an error or a command whose names are all valid, whose types
-- are two upper-case parts, whose tags, actions, flags and bindings are as the grammar asks, whose
-- stream joins two module actions, and whose index fits 64 bits.
pub parse_line-Sound : (raw : Str) → Sound (parse_line raw)
unfolding parse_line parse_text
parse_line-Sound raw = text (trim raw)
  where
    at : (line : Str) (arrow : Option ℕ) → Sound (stream_at line arrow)
    at line none = parse_plain-Sound line
    at line (some arrow) = parse_stream-Sound line arrow

    text : (line : Str) → Sound (parse_text line)
    text [] = tt
    text (c ∷ line) = at (c ∷ line) (find_stream_arrow (c ∷ line))
