-- ===== src/Command/Tests.antt =====
-- Lines of a script and what they give.
use etcs.Base.{◌≡◌, refl, true, some}
use etcs.Base.Results.{ok, err}
use etcs.Base.Strings.{
  codes, same, every, is_blank, is_upper, is_lower, is_digit, is_space, is_word, find_if,
  find_last_if,
}
use etcs.Command
use etcs.Command.Names.{trim, is_valid_local_name}
use etcs.Command.Brackets.{arrow_from, closing_from, read, read_quoted}
use etcs.Command.Scans.{IsArgument, print_call}
use etcs.Command.WellFormed.{IsMember}
use etcs.Command.Calls.{DottedCall}
use etcs.Command.Operations.{kill_command, stream_action}
use etcs.Command.Lines.{parse_line}
use etcs.Command.Sound.{Sound, parse_line-Sound}
use etcs.Command.RoundTrip.{parse_line_reserved}
use etcs.Command.Declared.{IsType}
use etcs.Command.Acquiring.{print_acquire, parse_line-print_acquire}
use etcs.Command.Streams.{IsModuleCall, print_stream, parse_line-print_stream}

kill_line :
    parse_line (codes "web.kill(Listen 12)") ≡ kill_command (codes "web") (codes "Listen") (some 12)
unfolding parse_line is_blank find_last_if arrow_from is_word closing_from is_space
kill_line = refl

unbalanced_line : parse_line (codes "web.Say(a (b)") ≡ err (Command.dotted Command.unbalanced)
unfolding parse_line is_blank find_last_if arrow_from is_word closing_from
unbalanced_line = refl

-- A number in front of a sign wraps round as stoull has it.
negative_kill :
    parse_line (codes "web.kill(Listen -1)")
    ≡ kill_command (codes "web") (codes "Listen") (some 18446744073709551615)
unfolding parse_line is_blank find_last_if arrow_from is_word closing_from is_space
negative_kill = refl

parse_line-Sound_example : Sound (parse_line (codes " requires win [Gate, Render::Window]"))
parse_line-Sound_example = parse_line-Sound (codes " requires win [Gate, Render::Window]")

win_valid : is_valid_local_name (codes "win") ≡ true
unfolding is_valid_local_name same is_word is_upper is_lower is_digit
win_valid = refl

web_valid : is_valid_local_name (codes "web_1") ≡ true
unfolding is_valid_local_name same is_word is_upper is_lower is_digit
web_valid = refl

title-IsMember : IsMember (codes "Title")
unfolding every is_word is_upper is_lower is_digit
title-IsMember = (refl, refl)

title_tidy : trim (codes "a ')' b") ≡ codes "a ')' b"
unfolding trim find_if find_last_if is_blank
title_tidy = refl

-- A quoted bracket does not close the call.
title-IsArgument : IsArgument (codes "a ')' b")
unfolding read read_quoted
title-IsArgument = (refl, (refl, (refl, (refl, (refl, (refl, (refl, (refl, refl))))))))

close-IsMember : IsMember (codes "close")
unfolding every is_word is_upper is_lower is_digit
close-IsMember = (refl, refl)

parse_line_reserved_example :
    parse_line (print_call (codes "win") (codes "close") (codes "a ')' b"))
    ≡ err (Command.not_an_operation (codes "close"))
unfolding is_lower same
parse_line_reserved_example =
    parse_line_reserved (codes "win") (codes "close") (codes "a ')' b") win_valid close-IsMember
      refl refl title_tidy title-IsArgument

window-IsType : IsType (codes "Render") (codes "Window")
unfolding every is_word is_upper is_lower is_digit
window-IsType = record {
  origin_words = refl;
  tag_words = refl;
  origin_upper = refl;
  tag_upper = refl;
}

parse_line-print_acquire_example :
    parse_line (print_acquire Command.ensure (codes "Render") (codes "Window") (codes "win"))
    ≡ ok (
        Command.acquire (record {
          verb = Command.ensure;
          origin = codes "Render";
          tag = codes "Window";
          name = codes "win";
        }))
parse_line-print_acquire_example =
    parse_line-print_acquire Command.ensure (codes "Render") (codes "Window") (codes "win")
      window-IsType win_valid

abbrev title_call : DottedCall
title_call = record { receiver = codes "win"; member = codes "Title"; payload = codes "a ')' b" }

title_call-IsModuleCall : IsModuleCall title_call
unfolding is_upper
title_call-IsModuleCall = record {
  name = win_valid;
  member = title-IsMember;
  upper = refl;
  tidy = title_tidy;
  content = title-IsArgument;
}

parse_line-print_stream_example :
    parse_line (print_stream title_call title_call) ≡ ok (stream_action title_call title_call)
parse_line-print_stream_example =
    parse_line-print_stream title_call title_call title_call-IsModuleCall title_call-IsModuleCall
