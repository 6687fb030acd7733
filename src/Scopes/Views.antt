-- ===== src/Scopes/Views.antt =====
-- core/Bundles.h, interruptAt ends the call that collect shows under the same label and index.
use etcs.Base.{
  ℕ, suc, ◌<◌, ◌≡◌, refl, sym, ap, ap₂, ◌∙◌, Bool, true, false, ◌&&◌, List, [], ◌∷◌, map,
  if◌then◌else◌, ◌==◌, arith,
}
use etcs.Base.Strings.{Str, same}
use etcs.Signals.{Flags}
use etcs.Scopes.{
  Entry, View, put_flag, interrupt_from, interrupt_at, collect_from, collect, count_on,
}

pub same_sound : (s t : Str) → same s t ≡ true → s ≡ t
unfolding same
same_sound [] [] h = refl
same_sound [] (d ∷ t) h = cc
same_sound (c ∷ s) [] h = cc
same_sound (c ∷ s) (d ∷ t) h =
    let tails : same s t ≡ true = ground arith in
    let heads : c ≡ d = ground arith in ap₂ (λ x (y : Str). x ∷ y) heads (same_sound s t tails)

-- No entry's flag is at this address.
abbrev pub IsAway : ℕ → List Entry → Type 0
IsAway flag [] = Unit
IsAway flag (e ∷ es) = ((e.flag == flag) ≡ false) × IsAway flag es

-- Each entry has a flag of its own.
abbrev pub AreApart : List Entry → Type 0
AreApart [] = Unit
AreApart (e ∷ es) = IsAway e.flag es × AreApart es

abbrev pub mark : Str → ℕ → View → View
mark label index v =
    if same v.label label && v.index == index then record v { interrupted = true } else v

-- A flag elsewhere does not show.
collect_from-put_flag :
    (flag : ℕ) (store : Flags) (counters : Str → ℕ) (es : List Entry)
    → IsAway flag es
    → collect_from (put_flag store flag true) counters es ≡ collect_from store counters es
unfolding collect_from
collect_from-put_flag flag store counters [] away = refl
collect_from-put_flag flag store counters (e ∷ es) (here, rest) =
    ap₂
      (λ (b : Bool) (vs : List View).
        record { label = e.label; index = counters e.label; interrupted = b } ∷ vs)
      (ground arith) (collect_from-put_flag flag store (count_on counters e.label) es rest)

-- A call changes no flag but the entries'.
interrupt_from_elsewhere :
    (label : Str) (index seen flag : ℕ) (es : List Entry) (store : Flags)
    → IsAway flag es
    → (interrupt_from label index seen es store).1 flag ≡ store flag
unfolding interrupt_from
interrupt_from_elsewhere label index seen flag [] store away = refl
interrupt_from_elsewhere label index seen flag (e ∷ es) store (here, rest) =
    at (same e.label label && seen == index) (
      interrupt_from_elsewhere label index (if same e.label label then suc seen else seen) flag es
        store rest)
  where
    later : Bool × Flags
    later = interrupt_from label index (if same e.label label then suc seen else seen) es store

    at :
        (b : Bool)
        → later.1 flag ≡ store flag
        → (if b then (true, put_flag store e.flag true) else later).1 flag ≡ store flag
    at true h = ground arith
    at false h = h

-- A view that is past the index is not marked.
mark_past :
    (label : Str) (index : ℕ) (store : Flags) (counters : Str → ℕ) (es : List Entry)
    → index < counters label
    → map (mark label index) (collect_from store counters es) ≡ collect_from store counters es
unfolding collect_from
mark_past label index store counters [] past = refl
mark_past label index store counters (e ∷ es) past =
    ap₂ (λ (v : View) (vs : List View). v ∷ vs) (unmarked (same e.label label) refl)
      (mark_past label index store (count_on counters e.label) es (counted (same e.label label)))
  where
    view : View
    view = record { label = e.label; index = counters e.label; interrupted = store e.flag }

    counted : (b : Bool) → index < (if b then suc (counters label) else counters label)
    counted true = omega arith
    counted false = past

    unmarked : (b : Bool) → same e.label label ≡ b → mark label index view ≡ view
    unmarked true h =
        let level : counters e.label ≡ counters label = ap counters (same_sound e.label label h) in
        ground arith
    unmarked false h = ground arith

collect-interrupt_from :
    (label : Str) (index : ℕ) (store : Flags) (counters : Str → ℕ) (es : List Entry)
    → AreApart es
    → collect_from (interrupt_from label index (counters label) es store).1 counters es
      ≡ map (mark label index) (collect_from store counters es)
unfolding collect_from interrupt_from
collect-interrupt_from label index store counters [] apart = refl
collect-interrupt_from label index store counters (e ∷ es) (away, apart) =
    at (same e.label label) (counters label == index) refl refl
      (collect-interrupt_from label index store (count_on counters e.label) es apart)
  where
    next : Bool → ℕ
    next b = if b then suc (counters label) else counters label

    rest : Bool → Bool × Flags
    rest b = interrupt_from label index (next b) es store

    view : Bool → View
    view b = record { label = e.label; index = counters e.label; interrupted = b }

    tail : Flags → List View
    tail after = collect_from after (count_on counters e.label) es

    unmarked :
        (b c : Bool)
        → same e.label label ≡ b
        → (counters label == index) ≡ c
        → (b && c) ≡ false
        → mark label index (view (store e.flag)) ≡ view (store e.flag)
    unmarked true true f g h = cc
    unmarked true false f g h =
        let level : counters e.label ≡ counters label = ap counters (same_sound e.label label f) in
        ground arith
    unmarked false c f g h = ground arith

    marked :
        same e.label label ≡ true
        → (counters label == index) ≡ true
        → mark label index (view (store e.flag)) ≡ view true
    marked f g =
        let level : counters e.label ≡ counters label = ap counters (same_sound e.label label f) in
        ground arith

    kept :
        (b c : Bool)
        → same e.label label ≡ b
        → (counters label == index) ≡ c
        → (b && c) ≡ false
        → tail (rest b).1 ≡ map (mark label index) (tail store)
        → view ((rest b).1 e.flag) ∷ tail (rest b).1
          ≡ mark label index (view (store e.flag)) ∷ map (mark label index) (tail store)
    kept b c f g h later =
        ap₂ (λ (v : View) (vs : List View). v ∷ vs)
          (ap view (interrupt_from_elsewhere label index (next b) e.flag es store away)
            ∙ sym (unmarked b c f g h))
          later

    at :
        (b c : Bool)
        → same e.label label ≡ b
        → (counters label == index) ≡ c
        → tail (rest b).1 ≡ map (mark label index) (tail store)
        → view ((if b && c then (true, put_flag store e.flag true) else rest b).1 e.flag)
            ∷ tail (if b && c then (true, put_flag store e.flag true) else rest b).1
          ≡ mark label index (view (store e.flag)) ∷ map (mark label index) (tail store)
    at true true f g later =
        ap₂ (λ (v : View) (vs : List View). v ∷ vs) (ap view (ground arith) ∙ sym (marked f g))
          (collect_from-put_flag e.flag store (count_on counters e.label) es away
            ∙ sym (mark_past label index store (count_on counters e.label) es (ground arith)))
    at true false f g later = kept true false f g refl later
    at false c f g later = kept false c f g refl later

-- What a user sees is what a kill targets: after interruptAt the views are those from before, with the
-- one of that label and index marked as interrupted, where each entry has a flag of its own.
pub collect-interrupt_at :
    (label : Str) (index : ℕ) (store : Flags) (entries : List Entry)
    → AreApart entries
    → collect (interrupt_at label index entries store).1 entries
      ≡ map (mark label index) (collect store entries)
unfolding collect interrupt_at
collect-interrupt_at label index store entries apart =
    collect-interrupt_from label index store (λ label. 0) entries apart
