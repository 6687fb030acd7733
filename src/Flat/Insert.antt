-- ===== src/Flat/Insert.antt =====
-- core/Bundles.h, the insertion of FlatMap, and its operator[].
use etcs.Base.{
  ℕ, zero, suc, ◌^◌, ◌%◌, ◌==◌, leb, ◌-◌, ◌≤◌, ◌<◌, ◌≡◌, refl, sym, ap, ap₂, subst, ◌∙◌, Bool, true,
  false, not, ◌||◌, Option, none, some, if◌then◌else◌, arith, Bool-cases, inl, inr, dec_lt,
  ℕ_discrete,
}
use etcs.Flat.{
  Order, Pair, FlatMap, find, gap, reserve, grown, place_pair, insert, subscript, subscript_at,
  open_at, at_found, found_in, is_found,
}
use etcs.Flat.Find.{IsSorted, IsAnswer, meets, find-IsAnswer}

module _ {ℓ κ} {K : Type ℓ} {V : Type κ} (order : Order K) (key : K) (m : FlatMap K V) where
  gap_le : (n : ℕ) → gap order key m n ≤ n
  unfolding gap
  gap_le zero = omega arith
  gap_le (suc n) = ground (arith, gap_le n)

  -- From the gap on every key is greater.
  gap_above : (n j : ℕ) → gap order key m n ≤ j → j < n → order.lt key (m.data_at j).first ≡ true
  unfolding gap
  gap_above zero j h below = absurd (omega arith)
  gap_above (suc n) j h below = step (order.lt key (m.data_at n).first) refl h (gap_above n j)
    where
      step :
          (b : Bool)
          → order.lt key (m.data_at n).first ≡ b
          → (if b then gap order key m n else suc n) ≤ j
          → (gap order key m n ≤ j → j < n → order.lt key (m.data_at j).first ≡ true)
          → order.lt key (m.data_at j).first ≡ true
      step false e h again = absurd (omega arith)
      step true e h again = elim (ℕ_discrete j n) [
        | yes same ↦ subst (λ k. order.lt key (m.data_at k).first ≡ true) (sym same) e
        | no other ↦ again h (ground arith)
      ]

  -- Up to the gap none is.
  gap_below :
      (n j : ℕ)
      → n ≤ m.size
      → IsSorted order m
      → j < gap order key m n
      → order.lt key (m.data_at j).first ≡ false
  unfolding gap
  gap_below zero j inside sorted h = absurd (omega arith)
  gap_below (suc n) j inside sorted h =
      step (order.lt key (m.data_at n).first) refl h (gap_below n j (omega arith) sorted)
    where
      step :
          (b : Bool)
          → order.lt key (m.data_at n).first ≡ b
          → j < (if b then gap order key m n else suc n)
          → (j < gap order key m n → order.lt key (m.data_at j).first ≡ false)
          → order.lt key (m.data_at j).first ≡ false
      step true e h again = again h
      step false e h again = elim (ℕ_discrete j n) [
        | yes same ↦ subst (λ k. order.lt key (m.data_at k).first ≡ false) (sym same) e
        | no other ↦
            order.between key (m.data_at n).first (m.data_at j).first e
              (sorted j n (ground arith) (omega arith))
      ]

  -- Where an index stands after a pair was put at `g`, and what it holds.
  data Stands (g : ℕ) (pair : Pair K V) (j : ℕ) : Type (ℓ ⊔ κ) where
    before_gap : j < g → open_at order m.data_at m.size g pair j ≡ m.data_at j → Stands g pair j
    in_gap : j ≡ g → open_at order m.data_at m.size g pair j ≡ pair → Stands g pair j
    after_gap :
        g < j → open_at order m.data_at m.size g pair j ≡ m.data_at (j - 1) → Stands g pair j

  stands : (g : ℕ) (pair : Pair K V) (j : ℕ) → j ≤ m.size → Stands g pair j
  stands g pair j within = elim (dec_lt j g) [
    | yes below ↦ before_gap below (ground arith)
    | no above ↦ elim (ℕ_discrete j g) [
      | yes same ↦ in_gap same (ground arith)
      | no other ↦ after_gap (omega arith) (ground arith)
    ]
  ]

  less_by :
      {x y a b : Pair K V}
      → x ≡ a
      → y ≡ b
      → order.lt a.first b.first ≡ false
      → order.lt x.first y.first ≡ false
  less_by p q h = ap₂ (λ (x y : Pair K V). order.lt x.first y.first) p q ∙ h

  -- A pair between those that are not greater and those that are not less.
  open_at-IsSorted :
      (g : ℕ) (pair : Pair K V)
      → IsSorted order m
      → ((i : ℕ) → i < g → order.lt pair.first (m.data_at i).first ≡ false)
      → ((j : ℕ) → g ≤ j → j < m.size → order.lt (m.data_at j).first pair.first ≡ false)
      → (i j : ℕ) → i < j
      → j < suc m.size
      → g ≤ m.size
      → order.lt
          (open_at order m.data_at m.size g pair j).first
          (open_at order m.data_at m.size g pair i).first
        ≡ false
  open_at-IsSorted g pair sorted low high i j before inside within =
      at (stands g pair i (omega arith)) (stands g pair j (omega arith))
    where
      at :
          Stands g pair i
          → Stands g pair j
          → order.lt
              (open_at order m.data_at m.size g pair j).first
              (open_at order m.data_at m.size g pair i).first
            ≡ false
      at (before_gap p e) (before_gap q f) = less_by f e (sorted i j before (omega arith))
      at (before_gap p e) (in_gap q f) = less_by f e (low i p)
      at (before_gap p e) (after_gap q f) =
          less_by f e (sorted i (j - 1) (omega arith) (omega arith))
      at (in_gap p e) (before_gap q f) = absurd (omega arith)
      at (in_gap p e) (in_gap q f) = absurd (omega arith)
      at (in_gap p e) (after_gap q f) = less_by f e (high (j - 1) (omega arith) (omega arith))
      at (after_gap p e) (before_gap q f) = absurd (omega arith)
      at (after_gap p e) (in_gap q f) = absurd (omega arith)
      at (after_gap p e) (after_gap q f) =
          less_by f e (sorted (i - 1) (j - 1) (omega arith) (omega arith))

  abbrev pub new_pair : V → Pair K V
  new_pair value = record { first = key; second = value }

  -- Each pair is still there, and the new one is.
  abbrev pub Holds : Pair K V → FlatMap K V → Type (ℓ ⊔ κ)
  Holds pair n = (i : ℕ) × ((i < n.size) × (n.data_at i ≡ pair))

  -- A map that has the pairs of this one and a further pair, in a larger array.
  pub record Extends (value : V) (n : FlatMap K V) : Type (ℓ ⊔ κ) where
    pub sorted : IsSorted order n
    pub fits : n.size ≤ n.capacity
    pub count : n.size ≡ suc m.size
    pub new_one : Holds (new_pair value) n
    pub kept : (j : ℕ) → j < m.size → Holds (m.data_at j) n

  moved :
      (pair : Pair K V) (i : ℕ)
      → i < m.size
      → (i < gap order key m m.size → ⊥)
      → open_at order m.data_at m.size (gap order key m m.size) pair (suc i) ≡ m.data_at i
  moved pair i inside above =
      let back : suc i - 1 ≡ i = omega arith in
      let at : open_at order m.data_at m.size (gap order key m m.size) pair (suc i)
          ≡ m.data_at (suc i - 1) =
        ground arith in
      at ∙ ap m.data_at back

  unmoved :
      (pair : Pair K V) (i : ℕ)
      → i < m.size
      → i < gap order key m m.size
      → open_at order m.data_at m.size (gap order key m m.size) pair i ≡ m.data_at i
  unmoved pair i inside below = ground arith

  put_in :
      (pair : Pair K V)
      → open_at order m.data_at m.size (gap order key m m.size) pair (gap order key m m.size) ≡ pair
  put_in pair =
      elim (stands (gap order key m m.size) pair (gap order key m m.size) (gap_le m.size)) [
        | before_gap h e ↦ absurd (omega arith)
        | in_gap h e ↦ e
        | after_gap h e ↦ absurd (omega arith)
      ]

  -- A pair is placed where the array has room for it.
  place_pair-Extends :
      (value : V)
      → IsSorted order m
      → m.size < m.capacity
      → m.capacity < 2 ^ 32
      → (n : FlatMap K V) × ((place_pair order key value m ≡ some n) × Extends value n)
  unfolding place_pair
  place_pair-Extends value sorted room small =
      let fits = gap_le m.size in
      let size : suc m.size % 2 ^ 32 ≡ suc m.size = omega arith in
      let pair = new_pair value in
      (
        record m {
          data_at = open_at order m.data_at m.size (gap order key m m.size) pair;
          size = suc m.size % 2 ^ 32;
        },
        (
          ground arith,
          record {
            sorted = λ i j before inside.
                open_at-IsSorted (gap order key m m.size) pair sorted
                  (λ i below. gap_below m.size i (omega arith) sorted below)
                  (λ j above inside.
                    order.asym key (m.data_at j).first (gap_above m.size j above inside))
                  i j before (omega arith) fits;
            fits = omega arith;
            count = size;
            new_one = (gap order key m m.size, (omega arith, put_in pair));
            kept = λ i inside. elim (dec_lt i (gap order key m m.size)) [
              | yes below ↦ (i, (omega arith, unmoved pair i inside below))
              | no above ↦ (suc i, (omega arith, moved pair i inside above))
            ];
          },
        ),
      )

  lt_self : order.lt key key ≡ false
  lt_self = elim (Bool-cases (order.lt key key)) [
    | inl less ↦ order.asym key key less
    | inr not_less ↦ not_less
  ]

-- The pairs are in order and inside the array, which is not so large that its double wraps.
pub record IsWellFormed {ℓ κ} {K : Type ℓ} {V : Type κ} (order : Order K) (m : FlatMap K V)
    : Type (ℓ ⊔ κ) where
  pub sorted : IsSorted order m
  pub fits : m.size ≤ m.capacity
  pub small : m.capacity < 2 ^ 31

module _ {ℓ κ} {K : Type ℓ} {V : Type κ} (order : Order K) (fresh : ℕ → Pair K V) (key : K)
    (m : FlatMap K V) where
  -- The array with room for one more pair.
  record IsRoomy (g : FlatMap K V) : Type (ℓ ⊔ κ) where
    size : g.size ≡ m.size
    room : m.size < g.capacity
    small : g.capacity < 2 ^ 32
    same : (i : ℕ) → i < m.size → g.data_at i ≡ m.data_at i

  grown-IsRoomy : IsWellFormed order m → IsRoomy (grown order fresh m)
  unfolding reserve
  grown-IsRoomy w = elim (Bool-cases (leb m.capacity m.size)) [
    | inl full ↦ elim (Bool-cases (m.capacity == 0)) [
      | inl empty ↦
          let none_yet : m.size ≡ 0 = ground (arith, w.fits) in
          record {
            size = ground (arith, full, empty);
            room = ground (arith, full, empty);
            small = ground (arith, full, empty);
            same = λ i inside. absurd (omega (arith, none_yet));
          }
      | inr some_room ↦ record {
        size = ground (arith, full, some_room, w.fits);
        room = ground (arith, full, some_room, w.fits, w.small);
        small = ground (arith, full, some_room, w.fits, w.small);
        same = λ i inside. ground (arith, full, some_room, w.fits, w.small);
      }
    ]
    | inr room ↦ record {
      size = ground (arith, room);
      room = ground (arith, room);
      small = ground (arith, room, w.small);
      same = λ i inside. ground (arith, room);
    }
  ]

  -- An insertion into a well-formed map grows its array where it is full, and puts the pair in.
  pub insert-Extends :
      (value : V)
      → IsWellFormed order m
      → (n : FlatMap K V) × ((insert order fresh key value m ≡ some n)
          × Extends order key m value n)
  unfolding insert
  insert-Extends value w =
      let g = grown order fresh m in
      let r = grown-IsRoomy w in
      let (n, (e, x)) =
        place_pair-Extends order key g value
          (λ i j before inside.
            less_by order key m (r.same j (omega (arith, r.size)))
              (r.same i (omega (arith, r.size))) (w.sorted i j before (omega (arith, r.size))))
          (omega (arith, r.size, r.room)) r.small in
      (
        n,
        (
          e,
          record {
            sorted = x.sorted;
            fits = x.fits;
            count = x.count ∙ ap suc r.size;
            new_one = x.new_one;
            kept = λ j inside.
                subst (λ (p : Pair K V). Holds order key m p n) (r.same j inside)
                  (x.kept j (omega (arith, r.size)));
          },
        ),
      )

  -- What operator[] gives: an index with such a key in a sorted map inside its array, that has every
  -- pair of the old one and, where that had no such key, one pair more.
  pub record IsEntry (i : ℕ) (n : FlatMap K V) : Type (ℓ ⊔ κ) where
    pub sorted : IsSorted order n
    pub fits : n.size ≤ n.capacity
    pub inside : i < n.size
    pub meets_key : meets order key n i ≡ true
    pub count : n.size ≡ (if is_found (find order key m) then m.size else suc m.size)
    pub kept : (j : ℕ) → j < m.size → Holds order key m (m.data_at j) n

  -- On a map whose pairs are in order and inside an array of fewer than 2 ^ 31 pairs, and with an
  -- arena, operator[] never writes past the array, whatever stood in the new one where it grows. It
  -- gives a pair whose key meets the sought one, in a sorted map inside its array that still has
  -- every pair, and one more exactly where there was no such key.
  pub subscript_total :
      (empty_value : V)
      → IsWellFormed order m
      → (i : ℕ) × ((n : FlatMap K V) × ((subscript order true fresh empty_value key m ≡ some (i, n))
            × IsEntry i n))
  unfolding subscript
  subscript_total empty_value w =
      at (find order key m) refl (find-IsAnswer order key m w.sorted) (insert-Extends empty_value w)
    where
      Outcome : Option (ℕ × FlatMap K V) → Type (ℓ ⊔ κ)
      Outcome r = (i : ℕ) × ((n : FlatMap K V) × ((r ≡ some (i, n)) × IsEntry i n))

      again :
          find order key m ≡ none
          → (n : FlatMap K V) → Extends order key m empty_value n
          → (o : Option ℕ) → IsAnswer order key n o
          → Outcome (at_found order n o)
      again missing n x (some i) (inside, met) = (
        i,
        (
          n,
          (
            refl,
            record {
              sorted = x.sorted;
              fits = x.fits;
              inside = inside;
              meets_key = met;
              count = x.count ∙ sym (ap (λ o. if is_found o then m.size else suc m.size) missing);
              kept = x.kept;
            },
          ),
        ),
      )
      again missing n x none absent =
          let (g, (inside, holds)) = x.new_one in
          let nowhere = absent g inside in
          let met : meets order key n g ≡ true =
            ap (λ (p : Pair K V). not (order.lt p.first key || order.lt key p.first)) holds
            ∙ ap (λ b. not (b || b)) (lt_self order key m) in
          absurd (cc)

      at :
          (o : Option ℕ)
          → find order key m ≡ o
          → IsAnswer order key m o
          → ((n : FlatMap K V) × ((insert order fresh key empty_value m ≡ some n)
                × Extends order key m empty_value n))
          → Outcome (subscript_at order true key m (insert order fresh key empty_value m) o)
      at (some i) e (inside, met) x = (
        i,
        (
          m,
          (
            refl,
            record {
              sorted = w.sorted;
              fits = w.fits;
              inside = inside;
              meets_key = met;
              count = sym (ap (λ o. if is_found o then m.size else suc m.size) e);
              kept = λ j below. (j, (below, refl));
            },
          ),
        ),
      )
      at none e absent (n, (put, x)) =
          subst (λ l. Outcome (found_in order key l)) (sym put)
            (again e n x (find order key n) (find-IsAnswer order key n x.sorted))
