-- ===== src/Flat/Tests.antt =====
-- A map with numbers for keys.
use etcs.Base.{ℕ, ◌*◌, ◌≡◌, refl, true, false, Option, none, some, ltb, arith}
use etcs.Flat.{Order, Pair, FlatMap, find, insert, reserve, place_pair, subscript}
use etcs.Flat.Find.{IsSorted, IsAnswer, find-IsAnswer}
use etcs.Flat.Insert.{IsEntry, IsWellFormed, subscript_total}

ltb_asym : (a b : ℕ) → ltb a b ≡ true → ltb b a ≡ false
ltb_asym a b h = ground arith

ltb_between : (a b c : ℕ) → ltb a b ≡ false → ltb b c ≡ false → ltb a c ≡ false
ltb_between a b c h k = ground arith

abbrev numbers : Order ℕ
numbers = record { lt = ltb; asym = ltb_asym; between = ltb_between }

abbrev junk : ℕ → Pair ℕ ℕ
junk i = record { first = 99; second = i }

abbrev no_pairs : FlatMap ℕ ℕ
no_pairs = record { data_at = junk; size = 0; capacity = 0 }

-- Seven pairs in an array of seven, which the next insertion makes larger.
abbrev full : FlatMap ℕ ℕ
full = record { data_at = λ i. record { first = 2 * i; second = 10 * i }; size = 7; capacity = 7 }

full-IsSorted : IsSorted numbers full
full-IsSorted i j before inside = ground (arith, before)

full-IsWellFormed : IsWellFormed numbers full
full-IsWellFormed = record { sorted = full-IsSorted; fits = omega arith; small = omega arith }

find_four : find numbers 4 full ≡ some 2
unfolding find
find_four = refl

find-IsAnswer_example : IsAnswer numbers 4 full (find numbers 4 full)
find-IsAnswer_example = find-IsAnswer numbers 4 full full-IsSorted

subscript_total_example :
    (i : ℕ) × ((n : FlatMap ℕ ℕ) × ((subscript numbers true junk 0 7 full ≡ some (i, n))
        × IsEntry numbers junk 7 full i n))
subscript_total_example = subscript_total numbers junk 7 full 0 full-IsWellFormed

abbrev capacity_of : Option (ℕ × FlatMap ℕ ℕ) → ℕ
capacity_of none = 0
capacity_of (some (i, n)) = n.capacity

first_array : capacity_of (subscript numbers true junk 0 7 no_pairs) ≡ 8
unfolding subscript insert find reserve place_pair
first_array = refl
