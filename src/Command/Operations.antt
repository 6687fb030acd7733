-- ===== src/Command/Operations.antt =====
-- core/Command.h, parse_line on a stream and on one dotted call.
use etcs.Base.{
  ℕ, suc, ◌+◌, true, false, ◌&&◌, ◌||◌, [], Option, none, some, if◌then◌else◌, take, drop,
}
use etcs.Base.Results.{Result, ok, err, bind, map_err}
use etcs.Base.Strings.{Str, codes, same, is_nil, is_blank, find_if}
use etcs.Command
use etcs.Command.{
  Command, CmdError, AcquireVerb, CmdScript, DottedError, DeclarationError, BindingError, Removed,
}
use etcs.Command.Names.{trim, is_uppercase_start, is_lowercase_start}
use etcs.Command.Numbers.{stoull}
use etcs.Command.Calls.{DottedCall, parse_dotted, parse_typed_declaration}

abbrev pub Parsed : Type 0
Parsed = Result CmdError Command

-- A call that a module acts on.
abbrev pub plain_action : DottedCall → Command
plain_action call = Command.action (record {
  receiver = call.receiver;
  action = call.member;
  payload = call.payload;
  is_stream = false;
  consumer_receiver = [];
  consumer_action = [];
  consumer_payload = [];
})

abbrev pub stream_action : DottedCall → DottedCall → Command
stream_action prod cons = Command.action (record {
  receiver = prod.receiver;
  action = prod.member;
  payload = prod.payload;
  is_stream = true;
  consumer_receiver = cons.receiver;
  consumer_action = cons.member;
  consumer_payload = cons.payload;
})

abbrev pub join_stream : DottedCall → DottedCall → Parsed
join_stream prod cons =
    if is_uppercase_start prod.member && is_uppercase_start cons.member
    then ok (stream_action prod cons)
    else err Command.stream_reserved

abbrev pub stream_of : Str → Str → Parsed
stream_of lhs rhs =
    if is_nil lhs || is_nil rhs
    then err Command.stream_shape
    else bind (map_err Command.stream_producer (parse_dotted lhs)) (λ prod.
      bind (map_err Command.stream_consumer (parse_dotted rhs)) (λ cons. join_stream prod cons))

unfoldable pub parse_stream : Str → ℕ → Parsed
unfolding trim parse_dotted
parse_stream line arrow = stream_of (trim (take arrow line)) (trim (drop (arrow + 2) line))

abbrev pub acquire_child : AcquireVerb → DottedCall → Parsed
acquire_child verb call =
    bind (map_err (Command.declaration call.member) (parse_typed_declaration call.payload)) (λ d.
      ok (
        Command.child_acquire (record {
          verb = verb;
          parent_name = call.receiver;
          origin = d.origin;
          tag = d.tag;
          name = d.name;
        })))

abbrev pub kill_command : Str → Str → Option ℕ → Parsed
kill_command receiver label index =
    ok (Command.kill (record { receiver = receiver; label = label; index = index }))

abbrev pub kill_number : Str → Str → Str → Option (ℕ × Str) → Parsed
kill_number receiver label idx none = err (Command.kill_index idx)
kill_number receiver label idx (some (n, rest)) =
    if is_nil rest then kill_command receiver label (some n) else err (Command.kill_index idx)

-- Without an index text the kill has none.
abbrev pub kill_indexed : Str → Str → Str → Parsed
kill_indexed receiver label idx =
    if is_nil idx
    then kill_command receiver label none
    else kill_number receiver label idx (stoull idx)

abbrev pub kill_at : DottedCall → Option ℕ → Parsed
kill_at call none = kill_indexed call.receiver call.payload []
kill_at call (some sp) =
    kill_indexed call.receiver (take sp call.payload) (trim (drop (suc sp) call.payload))

unfoldable pub parse_kill : DottedCall → Parsed
unfolding find_if trim stoull
parse_kill call =
    if is_nil call.payload
    then err Command.kill_label
    else kill_at call (find_if is_blank call.payload)

unfoldable pub parse_unflag : DottedCall → Parsed
parse_unflag call =
    if is_nil call.payload
    then err Command.unflag_name
    else ok (Command.unflag (record { receiver = call.receiver; flag = call.payload }))

-- A member that starts lower-case.
unfoldable pub parse_operation : DottedCall → Parsed
unfolding same parse_kill parse_unflag parse_typed_declaration
parse_operation call =
    if same call.member (codes "spawn")
    then acquire_child Command.spawn call
    else (if same call.member (codes "attach")
        then acquire_child Command.attach call
        else (if same call.member (codes "ensure")
            then acquire_child Command.ensure call
            else (if same call.member (codes "kill")
                then parse_kill call
                else (if same call.member (codes "unflag")
                    then parse_unflag call
                    else err (Command.not_an_operation call.member)))))

unfoldable pub parse_call : DottedCall → Parsed
unfolding parse_operation
parse_call call =
    if is_lowercase_start call.member then parse_operation call else ok (plain_action call)
