-- ===== src/Base/Bounded.antt =====
-- Tests of every number below a bound.
use etcs.Base.{ℕ, refl, zero, suc, ◌<◌, ◌≡◌, Bool, true, false, ◌||◌, arith}

unfoldable pub any_below : ℕ → (ℕ → Bool) → Bool
any_below zero test = false
any_below (suc n) test = test n || any_below n test

pub any_below_none :
    (n : ℕ) (test : ℕ → Bool) (j : ℕ) → any_below n test ≡ false → j < n → test j ≡ false
unfolding any_below
any_below_none zero test j h below = absurd (omega arith)
any_below_none (suc n) test j h below = ground (arith, any_below_none n test j)

pub any_below_some :
    (n : ℕ) (test : ℕ → Bool) → any_below n test ≡ true → (j : ℕ) × (j < n) × (test j ≡ true)
unfolding any_below
any_below_some zero test h = absurd (cc)
any_below_some (suc n) test h = pick (test n) refl (any_below_some n test)
  where
    pick :
        (b : Bool)
        → test n ≡ b
        → (any_below n test ≡ true → (j : ℕ) × (j < n) × (test j ≡ true))
        → (j : ℕ) × (j < suc n) × (test j ≡ true)
    pick true e rest = (n, omega arith, e)
    pick false e rest = let (j, below, found) = rest (ground arith) in (j, omega arith, found)

pub any_below_found :
    (n : ℕ) (test : ℕ → Bool) (j : ℕ) → j < n → test j ≡ true → any_below n test ≡ true
unfolding any_below
any_below_found zero test j below h = absurd (omega arith)
any_below_found (suc n) test j below h = ground (arith, any_below_found n test j)
