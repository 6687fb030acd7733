-- ===== src/Scopes/Tests.antt =====
-- Three calls in flight, two of them with one label.
use etcs.Base.{◌≡◌, refl, true, false, ◌||◌, List, [], ◌∷◌, map, some}
use etcs.Base.Strings.{codes, same}
use etcs.Signals.{SignalContext, Flags, null, context, is_interrupted, raise_closure, interrupt}
use etcs.Scopes.{Entry, new_scope, register_context, interrupt_at, collect}
use etcs.Scopes.Calls.{register_context_interrupted}
use etcs.Scopes.Views.{AreApart, mark, collect-interrupt_at}

abbrev process : SignalContext
process = context (λ kind. some 1) false null null

-- The edge of a closure.
abbrev shell : SignalContext
shell = context (λ kind. some 2) true process null

abbrev none_raised : Flags
none_raised flag = false

register_context_interrupted_example :
    is_interrupted none_raised
      (register_context (codes "Listen") shell 7 new_scope none_raised).0.ctx
    ≡ (none_raised 7 || is_interrupted none_raised shell)
register_context_interrupted_example =
    register_context_interrupted (codes "Listen") shell 7 new_scope none_raised none_raised

-- A call that is handed the edge of a closure is an edge itself: what it raises stays its own.
own_edge :
    (raise_closure interrupt none_raised
        (register_context (codes "Run") shell 7 new_scope none_raised).0.ctx).1
      2
    ≡ false
unfolding raise_closure register_context
own_edge = refl

abbrev calls : List Entry
calls =
    record { flag = 10; ctx = process; label = codes "Listen"; id = 1 }
    ∷ record { flag = 11; ctx = process; label = codes "Run"; id = 2 }
    ∷ record { flag = 12; ctx = process; label = codes "Listen"; id = 3 }
    ∷ []

calls-AreApart : AreApart calls
calls-AreApart = ((refl, (refl, tt)), ((refl, tt), (tt, tt)))

collect-interrupt_at_example :
    collect (interrupt_at (codes "Listen") 1 calls none_raised).1 calls
    ≡ map (mark (codes "Listen") 1) (collect none_raised calls)
collect-interrupt_at_example =
    collect-interrupt_at (codes "Listen") 1 none_raised calls calls-AreApart

second_listen : (interrupt_at (codes "Listen") 1 calls none_raised).1 12 ≡ true
unfolding interrupt_at same
second_listen = refl
