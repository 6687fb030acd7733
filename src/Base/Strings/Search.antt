-- ===== src/Base/Strings/Search.antt =====
-- What the searches of Strings find in a string that is put together from parts.
use Prim.Native.Nat.{ℕ, suc}
use mathlib.Core.Path.{◌≡◌, refl, ap}
use mathlib.Core.Bool.{Bool, true, false}
use mathlib.Core.List.{[], ◌∷◌, ◌++◌}
use mathlib.Core.Option.{none, some}
use native.Mathlib.Omega.{arith}
use etcs.Base.Tests.{◌==◌}
use etcs.Base.Lists.{length, take, drop}
use etcs.Base.Strings.{Str, every, find_if, find_last_if, find_scope, or_here}

pub every_weaken :
    (p q : ℕ → Bool)
    → ((c : ℕ) → p c ≡ true → q c ≡ true)
    → (s : Str) → every p s ≡ true
    → every q s ≡ true
unfolding every
every_weaken p q le [] h = refl
every_weaken p q le (c ∷ s) h = ground (arith, le c, every_weaken p q le s)

pub every-append :
    (p : ℕ → Bool) (s t : Str) → every p s ≡ true → every p t ≡ true → every p (s ++ t) ≡ true
unfolding every
every-append p [] t h k = k
every-append p (c ∷ s) t h k = ground (arith, every-append p s t)

pub find_if-append :
    (p q : ℕ → Bool) (s : Str) (d : ℕ) (t : Str)
    → ((c : ℕ) → q c ≡ true → p c ≡ false)
    → every q s ≡ true
    → p d ≡ true
    → find_if p (s ++ d ∷ t) ≡ some (length s)
unfolding find_if every
find_if-append p q [] d t le h e = ground arith
find_if-append p q (c ∷ s) d t le h e = ground (arith, le c, find_if-append p q s d t le)

pub find_if-none :
    (p q : ℕ → Bool) (s : Str)
    → ((c : ℕ) → q c ≡ true → p c ≡ false)
    → every q s ≡ true
    → find_if p s ≡ none
unfolding find_if every
find_if-none p q [] le h = refl
find_if-none p q (c ∷ s) le h = ground (arith, le c, find_if-none p q s le)

pub find_last_if-append :
    (p : ℕ → Bool) (s : Str) (d : ℕ) → p d ≡ true → find_last_if p (s ++ d ∷ []) ≡ some (length s)
unfolding find_last_if
find_last_if-append p [] d e = ground arith
find_last_if-append p (c ∷ s) d e = ap (or_here (p c)) (find_last_if-append p s d e)

pub take-append : (s t : Str) → take (length s) (s ++ t) ≡ s
take-append [] t = refl
take-append (c ∷ s) t = ap (◌∷◌ c) (take-append s t)

pub drop-append : (s t : Str) → drop (length s) (s ++ t) ≡ t
drop-append [] t = refl
drop-append (c ∷ s) t = drop-append s t

pub drop_next-append : (s : Str) (d : ℕ) (t : Str) → drop (suc (length s)) (s ++ d ∷ t) ≡ t
drop_next-append [] d t = refl
drop_next-append (c ∷ s) d t = drop_next-append s d t

pub take_all : (s : Str) → take (length s) s ≡ s
take_all [] = refl
take_all (c ∷ s) = ap (◌∷◌ c) (take_all s)

pub find_scope-append :
    (q : ℕ → Bool) (s t : Str)
    → ((c : ℕ) → q c ≡ true → (c == b':') ≡ false)
    → every q s ≡ true
    → find_scope (s ++ b':' ∷ b':' ∷ t) ≡ some (length s)
unfolding find_scope every
find_scope-append q [] t le h = refl
find_scope-append q (c ∷ []) t le h = ground (arith, le c)
find_scope-append q (c ∷ d ∷ s) t le h = ground (arith, le c, find_scope-append q (d ∷ s) t le)

pub find_scope-none :
    (q : ℕ → Bool) (s : Str)
    → ((c : ℕ) → q c ≡ true → (c == b':') ≡ false)
    → every q s ≡ true
    → find_scope s ≡ none
unfolding find_scope every
find_scope-none q [] le h = refl
find_scope-none q (c ∷ []) le h = refl
find_scope-none q (c ∷ d ∷ s) le h = ground (arith, le c, find_scope-none q (d ∷ s) le)
