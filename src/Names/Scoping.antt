-- ===== src/Names/Scoping.antt =====
-- core/Command.h, which binding a name has after another binding was made.
use etcs.Base.{
  ℕ, ◌≡◌, refl, ap, ◌∙◌, Bool, true, false, not, ◌&&◌, ◌||◌, [], ◌∷◌, Option, none, some, ◌==◌,
  if◌then◌else◌, arith,
}
use etcs.Base.Strings.{Str, same, is_nil}
use etcs.Names.{
  NameBinding, Table, ExecutionContext, bind_name, record_name, own, lookup, set_name, introduced,
  is_bound, or_global,
}

pub same_self : (s : Str) → same s s ≡ true
unfolding same
same_self [] = refl
same_self (c ∷ s) = ground (arith, same_self s)

own_names : (rid : ℕ) (c : ExecutionContext) → (own rid c).names ≡ c.names
unfolding own
own_names rid c = keep (rid == 0)
  where
    keep :
        (b : Bool)
        → (if b then c else record c { owned = λ other. rid == other || c.owned other }).names
          ≡ c.names
    keep true = refl
    keep false = refl

record_name_other :
    (global : Table) (name other : Str) (b : NameBinding)
    → same name other ≡ false
    → record_name global name b other ≡ global other
unfolding record_name
record_name_other global name other b differ = refuse (is_nil name || b.rid == 0)
  where
    put : (d : Bool) → d ≡ false → (if d then some b else global other) ≡ global other
    put true e = cc
    put false e = refl

    refuse : (r : Bool) → (if r then global else set_name global name (some b)) other ≡ global other
    refuse true = refl
    refuse false = put (same name other) differ

-- A context that binds a name finds that binding, and under every other name what it found before.
lookup-bind_name :
    (name other : Str) (b : NameBinding) (c : ExecutionContext) (global : Table)
    → lookup other (bind_name name b c global).0 (bind_name name b c global).1
      ≡ (if same name other then some b else lookup other c global)
unfolding bind_name lookup
lookup-bind_name name other b c global =
    ap (λ (t : Table). or_global (t other) ((bind_name name b c global).1 other))
      (own_names b.rid (record c { names = set_name c.names name (some b) }))
    ∙ split (same name other) refl
  where
    table :
        (root : Bool)
        → same name other ≡ false
        → (if root then record_name global name b else global) other ≡ global other
    table true differ = record_name_other global name other b differ
    table false differ = refl

    split :
        (d : Bool)
        → same name other ≡ d
        → or_global (if d then some b else c.names other) ((bind_name name b c global).1 other)
          ≡ (if d then some b else or_global (c.names other) (global other))
    split true e = refl
    split false e = ap (or_global (c.names other)) (table c.is_root e)

-- Another context finds under the name its own binding; else the new one, if a root context made it
-- and neither the name is empty nor the RID null; and else what it found before.
lookup_elsewhere :
    (name : Str) (b : NameBinding) (c d : ExecutionContext) (global : Table)
    → lookup name d (bind_name name b c global).1 ≡ (
        if introduced name d || not (c.is_root && (not (is_nil name) && not (b.rid == 0)))
        then lookup name d global
        else some b)
unfolding bind_name lookup record_name introduced
lookup_elsewhere name b c d global = split (d.names name) c.is_root (is_nil name) (b.rid == 0)
  where
    bound :
        (n z : Bool)
        → (if n || z then global else set_name global name (some b)) name
          ≡ (if not (not n && not z) then global name else some b)
    bound true z = refl
    bound false true = refl
    bound false false = ap (λ (q : Bool). if q then some b else global name) (same_self name)

    split :
        (own_one : Option NameBinding) (root n z : Bool)
        → or_global own_one (
            (if root then (if n || z then global else set_name global name (some b)) else global)
              name)
          ≡ (if is_bound own_one || not (root && (not n && not z))
              then or_global own_one (global name)
              else some b)
    split (some x) root n z = refl
    split none false n z = refl
    split none true n z = bound n z

-- Under any other name it finds what it found before.
lookup_elsewhere_other :
    (name other : Str) (b : NameBinding) (c d : ExecutionContext) (global : Table)
    → same name other ≡ false
    → lookup other d (bind_name name b c global).1 ≡ lookup other d global
unfolding bind_name lookup
lookup_elsewhere_other name other b c d global differ = split c.is_root
  where
    split :
        (root : Bool)
        → or_global (d.names other) ((if root then record_name global name b else global) other)
          ≡ or_global (d.names other) (global other)
    split true = ap (or_global (d.names other)) (record_name_other global name other b differ)
    split false = refl

-- Who sees a binding. The context that makes it finds it under its name, and under every other name
-- what it found before. Any other context finds under that name its own binding; else the new one, if
-- a root context made it and neither the name is empty nor the RID null; and else what it found
-- before, as it does under every other name.
pub bind_name-lookup :
    (name other : Str) (b : NameBinding) (c d : ExecutionContext) (global : Table)
    → same name other ≡ false
    → let (c', global') = bind_name name b c global in
      (lookup name c' global' ≡ some b)
      × (lookup other c' global' ≡ lookup other c global)
      × (lookup name d global' ≡ (
          if introduced name d || not (c.is_root && (not (is_nil name) && not (b.rid == 0)))
          then lookup name d global
          else some b))
      × (lookup other d global' ≡ lookup other d global)
bind_name-lookup name other b c d global differ = (
  lookup-bind_name name name b c global
      ∙ ap (λ (t : Bool). if t then some b else lookup name c global) (same_self name),
  lookup-bind_name name other b c global
      ∙ ap (λ (t : Bool). if t then some b else lookup other c global) differ,
  lookup_elsewhere name b c d global,
  lookup_elsewhere_other name other b c d global differ,
)
