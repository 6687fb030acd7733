-- ===== src/Flat/Find.antt =====
-- core/Bundles.h, the binary search of FlatMap.
use etcs.Base.{
  ℕ, zero, suc, ◌+◌, ◌-◌, ◌/◌, ◌≤◌, ◌<◌, ◌≡◌, refl, subst, Bool, true, false, not, ◌||◌, Option,
  none, some, ltb, if◌then◌else◌, arith, dec_lt,
}
use etcs.Flat.{Order, FlatMap, find_between, find}

module _ {ℓ κ} {K : Type ℓ} {V : Type κ} (order : Order K) where
  -- No key is less than one before it.
  abbrev pub IsSorted : FlatMap K V → Type 0
  IsSorted m =
      (i j : ℕ) → i < j → j < m.size → order.lt (m.data_at j).first (m.data_at i).first ≡ false

  -- Neither key is less than the other.
  abbrev pub meets : K → FlatMap K V → ℕ → Bool
  meets key m i = not (order.lt (m.data_at i).first key || order.lt key (m.data_at i).first)

  -- The answer of a search: an index whose key meets the sought one, or no index has such a key.
  abbrev pub IsAnswer : K → FlatMap K V → Option ℕ → Type 0
  IsAnswer key m none = (i : ℕ) → i < m.size → meets key m i ≡ false
  IsAnswer key m (some i) = (i < m.size) × (meets key m i ≡ true)

  module _ (key : K) (m : FlatMap K V) (sorted : IsSorted m) where
    abbrev Below : ℕ → Type 0
    Below low = (i : ℕ) → i < low → order.lt (m.data_at i).first key ≡ true

    abbrev Above : ℕ → Type 0
    Above high = (i : ℕ) → high ≤ i → i < m.size → order.lt key (m.data_at i).first ≡ true

    Below-next :
        (mid : ℕ) → mid < m.size → order.lt (m.data_at mid).first key ≡ true → Below (suc mid)
    Below-next mid inside less i h = elim (dec_lt i mid) [
      | yes before ↦ ground (
        arith,
        sorted i mid before inside,
        order.between (m.data_at mid).first (m.data_at i).first key,
      )
      | no last ↦
          let same : mid ≡ i = omega arith in
          subst (λ k. order.lt (m.data_at k).first key ≡ true) same less
    ]

    Above-next : (mid : ℕ) → mid < m.size → order.lt key (m.data_at mid).first ≡ true → Above mid
    Above-next mid inside less i h below = elim (dec_lt mid i) [
      | yes after ↦ ground (
        arith,
        sorted mid i after below,
        order.between key (m.data_at i).first (m.data_at mid).first,
      )
      | no first ↦
          let same : mid ≡ i = omega arith in
          subst (λ k. order.lt key (m.data_at k).first ≡ true) same less
    ]

    find_between-IsAnswer :
        (fuel low high : ℕ)
        → high < fuel + low
        → high ≤ m.size
        → Below low
        → Above high
        → IsAnswer key m (find_between order fuel key m low high)
    unfolding find_between
    find_between-IsAnswer zero low high enough inside below above =
        λ i h. ground (arith, below i, above i)
    find_between-IsAnswer (suc fuel) low high enough inside below above =
        step (ltb low high) (order.lt (m.data_at mid).first key)
          (order.lt key (m.data_at mid).first) refl refl refl (find_between-IsAnswer fuel)
      where
        mid : ℕ
        mid = low + (high - low) / 2

        next : Bool → Option ℕ
        next less =
            find_between order fuel key m (if less then suc mid else low)
              (if less then high else mid)

        step :
            (open_range less more : Bool)
            → ltb low high ≡ open_range
            → order.lt (m.data_at mid).first key ≡ less
            → order.lt key (m.data_at mid).first ≡ more
            → ((l h : ℕ)
                → h < fuel + l
                → h ≤ m.size
                → Below l
                → Above h
                → IsAnswer key m (find_between order fuel key m l h))
            → IsAnswer key m (
                if open_range
                then (if less then next less else (if more then next less else some mid))
                else none)
        step false less more e f g again = λ i h. ground (arith, below i, above i)
        step true true more e f g again =
            again (suc mid) high (ground arith) inside (Below-next mid (ground arith) f) above
        step true false true e f g again =
            again low mid (ground arith) (ground arith) below (Above-next mid (ground arith) g)
        step true false false e f g again = (ground arith, ground arith)

  -- On a sorted map the binary search gives a pair whose key meets the sought one, and none only if
  -- the map has no such pair.
  pub find-IsAnswer : (key : K) (m : FlatMap K V) → IsSorted m → IsAnswer key m (find order key m)
  unfolding find
  find-IsAnswer key m sorted =
      find_between-IsAnswer key m sorted (suc m.size) 0 m.size (omega arith) (omega arith)
        (λ i h. absurd (omega arith)) (λ i h below. absurd (omega arith))
