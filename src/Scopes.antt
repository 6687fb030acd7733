-- ===== src/Scopes.antt =====
-- core/Bundles.h, Scope: the calls in flight of an entity, in the order of their creation, each with
-- its own flag and the context that it is given. Where the flag of a new entry lies is an argument.
pub mod Calls
pub mod Views
mod Tests
use etcs.Base.{
  ℕ, zero, suc, ◌+◌, Bool, true, false, not, ◌&&◌, ◌||◌, List, [], ◌∷◌, ◌++◌, Option, none, some,
  ◌==◌, if◌then◌else◌,
}
use etcs.Base.Strings.{Str, same}
use etcs.Signals.{SignalContext, FlagKind, Flags, null, context, interrupt}

pub record Entry : Type 0 where
  pub flag : ℕ
  pub ctx : SignalContext
  pub label : Str
  pub id : ℕ

pub record Scope : Type 0 where
  pub entries : List Entry
  pub next_id : ℕ

unfoldable pub new_scope : Scope
new_scope = record { entries = []; next_id = 1 }

pub record Registration : Type 0 where
  pub ctx : SignalContext
  pub id : ℕ
  pub first_of_label : Bool

pub record Removal : Type 0 where
  pub found : Bool
  pub last_of_label : Bool
  pub label : Str

abbrev pub put_flag : Flags → ℕ → Bool → Flags
put_flag store flag b other = if flag == other then b else store other

unfoldable pub has_label : Str → List Entry → Bool
has_label label [] = false
has_label label (e ∷ es) = same e.label label || has_label label es

abbrev pub with_interrupt : ℕ → (FlagKind → Option ℕ) → FlagKind → Option ℕ
with_interrupt flag flags interrupt = some flag
with_interrupt flag flags kind = flags kind

-- A copy of the context that was handed in, above which stands a snapshot of it.
abbrev pub derive : ℕ → SignalContext → SignalContext
derive flag null = context (with_interrupt flag (λ kind. none)) false null null
derive flag (context flags root up provider) =
    context (with_interrupt flag flags) root (context flags root up provider) provider

unfoldable pub register_context :
    Str → SignalContext → ℕ → Scope → Flags → Registration × (Scope × Flags)
unfolding has_label
register_context label incoming flag s store =
    let ctx = derive flag incoming in
    (
      record { ctx = ctx; id = s.next_id; first_of_label = not (has_label label s.entries) },
      (
        record {
          entries =
              s.entries ++ record { flag = flag; ctx = ctx; label = label; id = s.next_id } ∷ [];
          next_id = suc s.next_id;
        },
        put_flag store flag false,
      ),
    )

-- The first entry with the id, if any.
unfoldable pub find_entry : ℕ → List Entry → Option Entry
find_entry id [] = none
find_entry id (e ∷ es) = if e.id == id then some e else find_entry id es

unfoldable pub erase_entry : ℕ → List Entry → List Entry
erase_entry id [] = []
erase_entry id (e ∷ es) = if e.id == id then es else e ∷ erase_entry id es

abbrev removal_of : List Entry → Option Entry → Removal
removal_of rest none = record { found = false; last_of_label = false; label = [] }
removal_of rest (some e) = record {
  found = true;
  last_of_label = not (has_label e.label rest);
  label = e.label;
}

unfoldable pub unregister_context : ℕ → Scope → Removal × Scope
unfolding find_entry erase_entry has_label
unregister_context id s =
    let rest = erase_entry id s.entries in
    (removal_of rest (find_entry id s.entries), record s { entries = rest })

-- The number of flags that are raised.
unfoldable pub interrupt_label : Str → List Entry → Flags → ℕ × Flags
interrupt_label label [] store = (0, store)
interrupt_label label (e ∷ es) store =
    let (n, later) =
      interrupt_label label es (if same e.label label then put_flag store e.flag true else store) in
    (if same e.label label then suc n else n, later)

unfoldable pub interrupt_from : Str → ℕ → ℕ → List Entry → Flags → Bool × Flags
interrupt_from label index seen [] store = (false, store)
interrupt_from label index seen (e ∷ es) store =
    let rest =
      interrupt_from label index (if same e.label label then suc seen else seen) es store in
    if same e.label label && seen == index then (true, put_flag store e.flag true) else rest

unfoldable pub interrupt_at : Str → ℕ → List Entry → Flags → Bool × Flags
unfolding interrupt_from
interrupt_at label index entries store = interrupt_from label index 0 entries store

unfoldable pub interrupt_all : List Entry → Flags → Flags
interrupt_all [] store = store
interrupt_all (e ∷ es) store = interrupt_all es (put_flag store e.flag true)

pub record View : Type 0 where
  pub label : Str
  pub index : ℕ
  pub interrupted : Bool

-- The counters by label, one of them counted on.
abbrev pub count_on : (Str → ℕ) → Str → Str → ℕ
count_on counters label other = if same label other then suc (counters other) else counters other

unfoldable pub collect_from : Flags → (Str → ℕ) → List Entry → List View
collect_from store counters [] = []
collect_from store counters (e ∷ es) =
    record { label = e.label; index = counters e.label; interrupted = store e.flag }
    ∷ collect_from store (count_on counters e.label) es

unfoldable pub collect : Flags → List Entry → List View
unfolding collect_from
collect store entries = collect_from store (λ label. 0) entries
