-- ===== src/Signals/Closure.antt =====
-- core/SignalContext.h, who hears a flag that a closure raises.
use mathlib.Core.Option.{some-injective, none-ne-some}
use etcs.Base.{
  ℕ, ◌≡◌, refl, sym, ap, subst, ◌∙◌, Bool, true, false, ◌||◌, Option, none, some, List, [], ◌∷◌,
  if◌then◌else◌, ◌==◌, arith,
}
use etcs.Signals.{
  SignalContext, FlagKind, Flags, null, context, raised, walk, outermost, or_before, raise,
  raise_closure,
}

abbrev own_and : Option ℕ → List ℕ → List ℕ
own_and none above = above
own_and (some flag) above = flag ∷ above

-- The flags of a kind from a context up to the edge of its closure, the edge's included and no
-- further, the context's own first.
abbrev pub closure_flags : FlagKind → SignalContext → List ℕ
closure_flags kind null = []
closure_flags kind (context flags root up provider) =
    let above = closure_flags kind up in own_and (flags kind) (if root then [] else above)

abbrev pub last : List ℕ → Option ℕ
last [] = none
last (flag ∷ []) = some flag
last (flag ∷ next ∷ flags) = last (next ∷ flags)

-- The flag by which a closure is told: that of its edge, or the nearest to the edge.
abbrev pub edge_flag : FlagKind → SignalContext → Option ℕ
edge_flag kind c = last (closure_flags kind c)

abbrev pub is_flag : Option ℕ → Option ℕ → Bool
is_flag (some flag) (some other) = flag == other
is_flag (some flag) none = false
is_flag none other = false

abbrev pub exists : Option ℕ → Bool
exists none = false
exists (some flag) = true

-- Whether a context listens to a flag: it, or one above it or among its providers, has it.
abbrev pub hears : FlagKind → Option ℕ → SignalContext → Bool
hears kind target null = false
hears kind target (context flags root up provider) =
    is_flag target (flags kind) || (hears kind target up || hears kind target provider)

last_or : Option ℕ → List ℕ → Option ℕ
last_or before [] = before
last_or before (flag ∷ flags) = last_or (some flag) flags

last_or_lem : (flag : ℕ) (flags : List ℕ) → last_or (some flag) flags ≡ last (flag ∷ flags)
unfolding last_or
last_or_lem flag [] = refl
last_or_lem flag (next ∷ flags) = last_or_lem next flags

outermost-last_or :
    (kind : FlagKind) (before : Option ℕ) (c : SignalContext)
    → outermost kind before c ≡ last_or before (closure_flags kind c)
unfolding outermost last_or
outermost-last_or kind before null = refl
outermost-last_or kind before (context flags root up provider) =
    at (flags kind) root (outermost-last_or kind (or_before (flags kind) before) up)
  where
    at :
        (own : Option ℕ) (r : Bool)
        → outermost kind (or_before own before) up
          ≡ last_or (or_before own before) (closure_flags kind up)
        → (if r then or_before own before else outermost kind (or_before own before) up)
          ≡ last_or before (own_and own (if r then [] else closure_flags kind up))
    at none true e = refl
    at (some flag) true e = refl
    at none false e = e
    at (some flag) false e = e

outermost-edge_flag :
    (kind : FlagKind) (c : SignalContext) → outermost kind none c ≡ edge_flag kind c
unfolding last_or
outermost-edge_flag kind c = outermost-last_or kind none c ∙ at (closure_flags kind c)
  where
    at : (flags : List ℕ) → last_or none flags ≡ last flags
    at [] = refl
    at (flag ∷ flags) = last_or_lem flag flags

raised_lem :
    (store : Flags) (target own : Option ℕ)
    → raised (raise store target).1 own ≡ (raised store own || is_flag target own)
raised_lem store none none = refl
raised_lem store none (some other) = ground arith
raised_lem store (some flag) none = refl
raised_lem store (some flag) (some other) = ground arith

walk_lem :
    (kind : FlagKind) (store : Flags) (target : Option ℕ) (x : SignalContext)
    → walk kind (raise store target).1 x ≡ (walk kind store x || hears kind target x)
unfolding walk
walk_lem kind store target null = refl
walk_lem kind store target (context flags root up provider) = ground (
  arith,
  raised_lem store target (flags kind),
  walk_lem kind store target up,
  walk_lem kind store target provider,
)

hears_last :
    (kind : FlagKind) (flag : ℕ) (c : SignalContext)
    → edge_flag kind c ≡ some flag
    → hears kind (some flag) c ≡ true
hears_last kind flag null e = absurd (none-ne-some flag e)
hears_last kind flag (context flags root up provider) e =
    at (flags kind) root (closure_flags kind up) e (hears_last kind flag up)
  where
    at :
        (own : Option ℕ) (r : Bool) (above : List ℕ)
        → last (own_and own (if r then [] else above)) ≡ some flag
        → (last above ≡ some flag → hears kind (some flag) up ≡ true)
        → (is_flag (some flag) own
            || (hears kind (some flag) up || hears kind (some flag) provider))
          ≡ true
    at none true above e h = absurd (none-ne-some flag e)
    at none false above e h = ground (arith, h e)
    at (some f) true above e h = let same = some-injective f flag e in ground (arith, same)
    at (some f) false [] e h = let same = some-injective f flag e in ground (arith, same)
    at (some f) false (g ∷ above) e h = ground (arith, h e)

hears_edge :
    (kind : FlagKind) (c : SignalContext) (target : Option ℕ)
    → edge_flag kind c ≡ target
    → hears kind target c ≡ exists target
hears_edge kind null none e = refl
hears_edge kind (context flags root up provider) none e =
    let h = nothing_heard kind in ground (arith, h up, h provider)
  where
    nothing_heard : (kind : FlagKind) (x : SignalContext) → hears kind none x ≡ false
    nothing_heard kind null = refl
    nothing_heard kind (context flags root up provider) =
        ground (arith, nothing_heard kind up, nothing_heard kind provider)
hears_edge kind c (some flag) e = hears_last kind flag c e

-- Raising a flag of a closure raises one flag: that of the closure's edge or, where the edge has
-- none of the kind, the one nearest to it on the way down to the context. It says whether there is
-- one. The context then hears it, any other context hears it exactly if it listens to that flag, so
-- none above the edge that has not the same flag, and no other flag is changed.
pub raise_closure_lem :
    (kind : FlagKind) (store : Flags) (c x : SignalContext) (other : ℕ)
    → let (done, store') = raise_closure kind store c in
      let target = edge_flag kind c in
      (done ≡ exists target)
      × (walk kind store' c ≡ (walk kind store c || exists target))
      × (walk kind store' x ≡ (walk kind store x || hears kind target x))
      × (store' other ≡ (store other || is_flag target (some other)))
unfolding raise_closure
raise_closure_lem kind store c x other = subst Told (sym (outermost-edge_flag kind c)) (
  ends (edge_flag kind c),
  walk_lem kind store (edge_flag kind c) c
      ∙ ap (λ (h : Bool). walk kind store c || h) (hears_edge kind c (edge_flag kind c) refl),
  walk_lem kind store (edge_flag kind c) x,
  raised_lem store (edge_flag kind c) (some other),
)
  where
    ends : (t : Option ℕ) → (raise store t).0 ≡ exists t
    ends none = refl
    ends (some flag) = refl

    Told : Option ℕ → Type 0
    Told t =
        ((raise store t).0 ≡ exists (edge_flag kind c))
        × (walk kind (raise store t).1 c ≡ (walk kind store c || exists (edge_flag kind c)))
        × (walk kind (raise store t).1 x ≡ (walk kind store x || hears kind (edge_flag kind c) x))
        × ((raise store t).1 other ≡ (store other || is_flag (edge_flag kind c) (some other)))
