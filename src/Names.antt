-- ===== src/Names.antt =====
-- core/Command.h, GlobalNames and ExecutionContext: what the names of a script are bound to. A hash
-- map is the function of its lookups, `origin` is the source's `module`; the mutex goes with each operation of the global table.
pub mod Scoping
mod Tests
use etcs.Base.{ℕ, Bool, true, false, not, ◌&&◌, ◌||◌, Option, none, some, ◌==◌, if◌then◌else◌}
use etcs.Base.Strings.{Str, same, is_nil}

pub record NameBinding : Type 0 where
  pub rid : ℕ
  pub origin : Str
  pub tag : Str

abbrev pub Table : Type 0
Table = Str → Option NameBinding

unfoldable pub no_names : Table
no_names name = none

abbrev pub set_name : Table → Str → Option NameBinding → Table
set_name table name b other = if same name other then b else table other

-- GlobalNames::record. A null RID and an empty name are not recorded.
unfoldable pub record_name : Table → Str → NameBinding → Table
record_name global name b =
    if is_nil name || b.rid == 0 then global else set_name global name (some b)

unfoldable pub forget : Table → Str → Table
forget global name = set_name global name none

pub record ExecutionContext : Type 0 where
  pub names : Table
  pub owned : ℕ → Bool
  pub lost_rid : ℕ
  pub is_root : Bool

unfoldable pub new_context : Bool → ExecutionContext
unfolding no_names
new_context is_root = record {
  names = no_names;
  owned = λ rid. false;
  lost_rid = 0;
  is_root = is_root;
}

unfoldable pub own : ℕ → ExecutionContext → ExecutionContext
own rid c = if rid == 0 then c else record c { owned = λ other. rid == other || c.owned other }

unfoldable pub note_lost : ℕ → ExecutionContext → ExecutionContext
note_lost rid c = record c { lost_rid = rid }

-- The context and the global table behind a binding.
unfoldable pub bind_name : Str → NameBinding → ExecutionContext → Table → ExecutionContext × Table
unfolding own record_name
bind_name name b c global = (
  own b.rid (record c { names = set_name c.names name (some b) }),
  if c.is_root then record_name global name b else global,
)

abbrev pub or_global : Option NameBinding → Option NameBinding → Option NameBinding
or_global (some b) other = some b
or_global none other = other

unfoldable pub lookup : Str → ExecutionContext → Table → Option NameBinding
lookup name c global = or_global (c.names name) (global name)

abbrev rid_or_null : Option NameBinding → ℕ
rid_or_null none = 0
rid_or_null (some b) = b.rid

unfoldable pub resolve_name : Str → ExecutionContext → Table → ℕ
unfolding lookup
resolve_name name c global = rid_or_null (lookup name c global)

abbrev pub is_bound : Option NameBinding → Bool
is_bound none = false
is_bound (some b) = true

unfoldable pub introduced : Str → ExecutionContext → Bool
introduced name c = is_bound (c.names name)

unfoldable pub has_name : Str → ExecutionContext → Table → Bool
unfolding lookup
has_name name c global = is_bound (lookup name c global)
