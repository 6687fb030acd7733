-- ===== src/Signals.antt =====
-- core/SignalContext.h, SignalContext: the flags that a call listens to, and the contexts above it. A
-- pointer to a flag is its address, the flags are the function of their addresses, and a pointer to a
-- context is the context, with `null` for none: contexts are not changed while they are pointed at, and
-- chains that lead back to themselves, on which the source does not end, are left out.
pub mod Closure
mod Tests
use etcs.Base.{ℕ, suc, ◌+◌, max, ◌==◌, Bool, true, false, ◌||◌, Option, none, some, if◌then◌else◌}

pub data FlagKind : Type 0 where
  interrupt : FlagKind
  terminate : FlagKind
  hangup : FlagKind
  pause : FlagKind
  resume : FlagKind
  user1 : FlagKind
  user2 : FlagKind

pub data SignalContext : Type 0 where
  null : SignalContext
  context :
      (flags : FlagKind → Option ℕ) (closure_root : Bool) (up provider : SignalContext)
      → SignalContext

abbrev pub Flags : Type 0
Flags = ℕ → Bool

abbrev pub raised : Flags → Option ℕ → Bool
raised store none = false
raised store (some flag) = store flag

unfoldable pub walk : FlagKind → Flags → SignalContext → Bool
walk kind store null = false
walk kind store (context flags root up provider) =
    raised store (flags kind) || (walk kind store up || walk kind store provider)

unfoldable pub is_interrupted : Flags → SignalContext → Bool
unfolding walk
is_interrupted store c = walk interrupt store c

abbrev pub or_before : Option ℕ → Option ℕ → Option ℕ
or_before none before = before
or_before (some flag) before = some flag

-- The outermost flag on the way up to the root of the closure, `before` if there is none.
unfoldable pub outermost : FlagKind → Option ℕ → SignalContext → Option ℕ
outermost kind before null = before
outermost kind before (context flags root up provider) =
    let here = or_before (flags kind) before in
    let above = outermost kind here up in if root then here else above

abbrev pub raise : Flags → Option ℕ → Bool × Flags
raise store none = (false, store)
raise store (some flag) = (true, λ other. if flag == other then true else store other)

unfoldable pub raise_closure : FlagKind → Flags → SignalContext → Bool × Flags
unfolding outermost
raise_closure kind store c = raise store (outermost kind none c)

unfoldable pub closure_root : SignalContext → SignalContext
closure_root null = null
closure_root (context flags root up provider) =
    let above = closure_root up in if root then context flags root up provider else above

unfoldable pub chain_depth : SignalContext → ℕ
chain_depth null = 0
chain_depth (context flags root up provider) = suc (max (chain_depth up) (chain_depth provider))

unfoldable pub provider_depth : SignalContext → ℕ
provider_depth null = 0
provider_depth (context flags root up provider) = suc (provider_depth provider)
