-- ===== src/Command.antt =====
-- core/Command.h, the lines of a script: the commands that a line can give, and the errors. A string
-- is the list of its characters' codes, `origin` is the source's `module`, and a message is a constructor with the strings it quotes.
pub mod Names
pub mod Words
pub mod Scans
pub mod Brackets
pub mod Numbers
pub mod Calls
pub mod Operations
pub mod Lines
pub mod WellFormed
pub mod Sound
pub mod Dotted
pub mod Declared
pub mod RoundTrip
pub mod Acquiring
pub mod Streams
mod Tests
use etcs.Base.{ℕ, Bool, List, Option}
use etcs.Base.Strings.{Str}

pub data AcquireVerb : Type 0 where
  spawn : AcquireVerb
  attach : AcquireVerb
  ensure : AcquireVerb

pub record CmdRequires : Type 0 where
  pub name : Str
  pub tags : List Str

pub record CmdAcquire : Type 0 where
  pub verb : AcquireVerb
  pub origin : Str
  pub tag : Str
  pub name : Str

pub record CmdChildAcquire : Type 0 where
  pub verb : AcquireVerb
  pub parent_name : Str
  pub origin : Str
  pub tag : Str
  pub name : Str

pub record CmdAction : Type 0 where
  pub receiver : Str
  pub action : Str
  pub payload : Str
  pub is_stream : Bool
  pub consumer_receiver : Str
  pub consumer_action : Str
  pub consumer_payload : Str

-- `has_index` and `index` as one optional number.
pub record CmdKill : Type 0 where
  pub receiver : Str
  pub label : Str
  pub index : Option ℕ

pub record CmdUnflag : Type 0 where
  pub receiver : Str
  pub flag : Str

-- CmdRun and CmdDetach have the same fields.
pub record CmdScript : Type 0 where
  pub script : Str
  pub bindings : List (Str × Str)

pub data Command : Type 0 where
  requires : CmdRequires → Command
  acquire : CmdAcquire → Command
  child_acquire : CmdChildAcquire → Command
  action : CmdAction → Command
  kill : CmdKill → Command
  unflag : CmdUnflag → Command
  detach : CmdScript → Command
  run : CmdScript → Command
  exit : Command

pub data DottedError : Type 0 where
  no_bracket : DottedError
  no_receiver : DottedError
  bad_receiver : Str → DottedError
  no_action : DottedError
  bad_action : Str → DottedError
  unbalanced : DottedError
  trailing : DottedError

pub data DeclarationError : Type 0 where
  no_name : DeclarationError
  bad_type : Str → DeclarationError
  bad_name : Str → DeclarationError

pub data BindingError : Type 0 where
  bad_binding : Str → BindingError
  bad_binding_name : Str → BindingError

pub data Removed : Type 0 where
  ambient_context : Removed
  as_name : Removed
  browse : Removed
  control : Removed

-- CmdError is the error of a result.
pub data CmdError : Type 0 where
  empty_line : CmdError
  stream_shape : CmdError
  stream_producer : DottedError → CmdError
  stream_consumer : DottedError → CmdError
  stream_reserved : CmdError
  dotted : DottedError → CmdError
  declaration : Str → DeclarationError → CmdError
  kill_label : CmdError
  kill_index : Str → CmdError
  unflag_name : CmdError
  not_an_operation : Str → CmdError
  requires_name : CmdError
  requires_unbalanced : CmdError
  requires_trailing : CmdError
  requires_bad_tag : Str → CmdError
  requires_no_tags : CmdError
  requires_type : Str → CmdError
  requires_bad_name : Str → CmdError
  script_name : Str → CmdError
  binding : Str → BindingError → CmdError
  removed : Str → Removed → CmdError
  no_entity : Str → Str → CmdError
  bare_type : Str → CmdError
  unknown_command : Str → CmdError
