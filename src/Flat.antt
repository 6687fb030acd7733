-- ===== src/Flat.antt =====
-- core/Bundles.h, FlatMap: an array of pairs that is sorted by key. What stands in memory from `data`
-- on is a function of the index, the array is its first `capacity` pairs, and a pointer to a pair is
-- its index, with `none` for `end()`. The arena's `allocateRaw` is taken to serve.
pub mod Find
pub mod Insert
mod Tests
use etcs.Base.{
  ℕ, zero, suc, ◌+◌, ◌-◌, ◌*◌, ◌/◌, ◌%◌, ◌^◌, ◌≡◌, Bool, true, false, Option, none, some, ltb, leb,
  ◌==◌, if◌then◌else◌,
}

-- What the map asks of the keys' `operator<`: a strict weak order.
pub record Order {ℓ} (K : Type ℓ) : Type ℓ where
  pub lt : K → K → Bool
  pub asym : (a b : K) → lt a b ≡ true → lt b a ≡ false
  pub between : (a b c : K) → lt a b ≡ false → lt b c ≡ false → lt a c ≡ false

pub record Pair {ℓ κ} (K : Type ℓ) (V : Type κ) : Type (ℓ ⊔ κ) where
  pub first : K
  pub second : V

pub record FlatMap {ℓ κ} (K : Type ℓ) (V : Type κ) : Type (ℓ ⊔ κ) where
  pub data_at : ℕ → Pair K V
  pub size : ℕ
  pub capacity : ℕ

abbrev pub is_found : Option ℕ → Bool
is_found none = false
is_found (some i) = true

module _ {ℓ κ} {K : Type ℓ} {V : Type κ} (order : Order K) where
  unfoldable pub find_between : ℕ → K → FlatMap K V → ℕ → ℕ → Option ℕ
  find_between zero key m low high = none
  find_between (suc fuel) key m low high =
      let mid = low + (high - low) / 2 in
      let less = order.lt (m.data_at mid).first key in
      let rest =
        find_between fuel key m (if less then suc mid else low) (if less then high else mid) in
      if ltb low high
      then (if less then rest else (if order.lt key (m.data_at mid).first then rest else some mid))
      else none

  -- One round more than there are pairs is enough; see Find.
  unfoldable pub find : K → FlatMap K V → Option ℕ
  unfolding find_between
  find key m = find_between (suc m.size) key m 0 m.size

  unfoldable pub count : K → FlatMap K V → ℕ
  unfolding find
  count key m = if is_found (find key m) then 1 else 0

  -- A new array of the arena, `fresh` before it is written, with the pairs of the old one copied.
  unfoldable pub reserve : (ℕ → Pair K V) → ℕ → FlatMap K V → FlatMap K V
  reserve fresh new_capacity m = if leb new_capacity m.capacity then m else record m {
    data_at = λ i. if ltb i m.size then m.data_at i else fresh i;
    capacity = new_capacity;
  }

  -- The loop of `insert`: the index below which the key is not less than the last pair's.
  unfoldable pub gap : K → FlatMap K V → ℕ → ℕ
  gap key m zero = 0
  gap key m (suc i) =
      let rest = gap key m i in if order.lt key (m.data_at i).first then rest else suc i

  -- The pairs from the gap up to the size are moved up by one.
  abbrev pub open_at : (ℕ → Pair K V) → ℕ → ℕ → Pair K V → ℕ → Pair K V
  open_at data_at size i pair j =
      if ltb size j
      then data_at j
      else if ltb j i
      then data_at j
      else if j == i
      then pair
      else data_at (j - 1)

  abbrev pub grown : (ℕ → Pair K V) → FlatMap K V → FlatMap K V
  grown fresh m =
      if leb m.capacity m.size
      then reserve fresh (if m.capacity == 0 then 8 else m.capacity * 2 % 2 ^ 32) m
      else m

  -- `insert` into the array; `none` where it writes past its end.
  unfoldable pub place_pair : K → V → FlatMap K V → Option (FlatMap K V)
  unfolding gap
  place_pair key value m =
      if ltb m.size m.capacity
      then some (record m {
        data_at =
            open_at m.data_at m.size (gap key m m.size) (record { first = key; second = value });
        size = suc m.size % 2 ^ 32;
      })
      else none

  unfoldable pub insert : (ℕ → Pair K V) → K → V → FlatMap K V → Option (FlatMap K V)
  unfolding reserve place_pair
  insert fresh key value m = place_pair key value (grown fresh m)

  abbrev pub at_found : FlatMap K V → Option ℕ → Option (ℕ × FlatMap K V)
  at_found m none = none
  at_found m (some i) = some (i, m)

  abbrev pub found_in : K → Option (FlatMap K V) → Option (ℕ × FlatMap K V)
  found_in key none = none
  found_in key (some larger) = at_found larger (find key larger)

  abbrev pub subscript_at :
      Bool → K → FlatMap K V → Option (FlatMap K V) → Option ℕ → Option (ℕ × FlatMap K V)
  subscript_at has_arena key m larger (some i) = some (i, m)
  subscript_at has_arena key m larger none = if has_arena then found_in key larger else none

  -- `operator[]`, which throws where a key is missing and no arena is set.
  unfoldable pub subscript : Bool → (ℕ → Pair K V) → V → K → FlatMap K V → Option (ℕ × FlatMap K V)
  unfolding find insert
  subscript has_arena fresh empty_value key m =
      subscript_at has_arena key m (insert fresh key empty_value m) (find key m)

  abbrev value_at : FlatMap K V → V → Option ℕ → V
  value_at m empty_value none = empty_value
  value_at m empty_value (some i) = (m.data_at i).second

  -- The constant `operator[]`.
  unfoldable pub read_only : V → K → FlatMap K V → V
  unfolding find
  read_only empty_value key m = value_at m empty_value (find key m)
