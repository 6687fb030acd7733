-- ===== src/Names/Tests.antt =====
-- Two scripts and a name that one of them binds.
use etcs.Base.{◌≡◌, refl, true, false, not, ◌&&◌, ◌||◌, ◌==◌, some, if◌then◌else◌}
use etcs.Base.Strings.{codes, same, is_nil}
use etcs.Names.{NameBinding, new_context, no_names, bind_name, lookup, introduced, resolve_name}
use etcs.Names.Scoping.{bind_name-lookup}

abbrev window : NameBinding
window = record { rid = 7; origin = codes "Render"; tag = codes "Window" }

names_differ : same (codes "win") (codes "pad") ≡ false
unfolding same
names_differ = refl

-- A root script binds `win`, and a script beside it looks.
bind_name-lookup_example :
    let (c', global') = bind_name (codes "win") window (new_context true) no_names in
    (lookup (codes "win") c' global' ≡ some window)
    × (lookup (codes "pad") c' global' ≡ lookup (codes "pad") (new_context true) no_names)
    × (lookup (codes "win") (new_context false) global' ≡ (
        if introduced (codes "win") (new_context false)
          || not
              ((new_context true).is_root && (not (is_nil (codes "win")) && not (window.rid == 0)))
        then lookup (codes "win") (new_context false) no_names
        else some window))
    × (lookup (codes "pad") (new_context false) global'
        ≡ lookup (codes "pad") (new_context false) no_names)
bind_name-lookup_example =
    bind_name-lookup (codes "win") (codes "pad") window (new_context true) (new_context false)
      no_names names_differ

resolved :
    resolve_name
      (codes "win")
      (new_context false)
      (bind_name (codes "win") window (new_context true) no_names).1
    ≡ 7
unfolding resolve_name bind_name same new_context
resolved = refl
