-- ===== src/Scopes/Calls.antt =====
-- core/Bundles.h, what interrupts a call that Scope has registered.
use etcs.Base.{ℕ, ◌≡◌, ◌||◌, arith}
use etcs.Base.Strings.{Str}
use etcs.Signals.{SignalContext, Flags, null, context, walk, is_interrupted}
use etcs.Scopes.{Scope, register_context}

-- A call's context is interrupted exactly if its own flag is raised or the context that was handed in
-- is interrupted, whatever the flags.
pub register_context_interrupted :
    (label : Str) (incoming : SignalContext) (flag : ℕ) (s : Scope) (before store : Flags)
    → is_interrupted store (register_context label incoming flag s before).0.ctx
      ≡ (store flag || is_interrupted store incoming)
unfolding register_context is_interrupted walk
register_context_interrupted label null flag s before store = ground arith
register_context_interrupted label (context flags root up provider) flag s before store =
    ground arith
