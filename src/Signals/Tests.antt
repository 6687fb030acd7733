-- ===== src/Signals/Tests.antt =====
-- A call inside the closure of a shell.
use etcs.Base.{ℕ, ◌≡◌, refl, true, false, ◌||◌, Option, some}
use etcs.Signals.{SignalContext, FlagKind, Flags, null, context, interrupt, walk, raise_closure}
use etcs.Signals.Closure.{raise_closure_lem, edge_flag, exists, hears, is_flag}

-- Every flag at one address.
abbrev flags_at : ℕ → FlagKind → Option ℕ
flags_at flag kind = some flag

abbrev process : SignalContext
process = context (flags_at 1) false null null

abbrev shell : SignalContext
shell = context (flags_at 2) true process null

abbrev inner_call : SignalContext
inner_call = context (flags_at 3) false shell null

abbrev none_raised : Flags
none_raised flag = false

-- The process is above the edge of the closure.
raise_closure_lem_example :
    let (done, store') = raise_closure interrupt none_raised inner_call in
    let target = edge_flag interrupt inner_call in
    (done ≡ exists target)
    × (walk interrupt store' inner_call ≡ (walk interrupt none_raised inner_call || exists target))
    × (walk interrupt store' process
        ≡ (walk interrupt none_raised process || hears interrupt target process))
    × (store' 1 ≡ (none_raised 1 || is_flag target (some 1)))
raise_closure_lem_example = raise_closure_lem interrupt none_raised inner_call process 1

-- The raise stops at the shell.
shell_raised : (raise_closure interrupt none_raised inner_call).1 2 ≡ true
unfolding raise_closure
shell_raised = refl

process_clear : (raise_closure interrupt none_raised inner_call).1 1 ≡ false
unfolding raise_closure
process_clear = refl
