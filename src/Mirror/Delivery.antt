-- ===== src/Mirror/Delivery.antt =====
-- core/MirrorBuffer.h, `fillAndCopyInto`: frames come off a pipe that gives its bytes in any chunks.
use etcs.Base.{
  ℕ, suc, ◌+◌, ◌≤◌, ◌≡◌, refl, sym, subst, ap, Bool, not, true, false, List, [], ◌∷◌, Option, none,
  some, length, if◌then◌else◌, arith, inl, inr, ◌⊎◌,
}
use etcs.Buffer.Tokens.{unread}
use etcs.Mirror.{ReadOutcome, gives, nothing_yet, end_of_file, read_error, read_pipe}
use etcs.Mirror.Pipe.{Reader, extract, after_read, compacted, fill_loop, fill_and_copy_into, space}
use etcs.Mirror.Chunks.{
  Awaits, Delivers, IsShort, extract_lem, compacted_lem, fill_loop-round, fill_loop-gives,
  fill_loop-waits, arrived,
}

-- Calls that neither fail nor stop: how many of them give bytes.
abbrev pub patient : List ReadOutcome → Bool
patient [] = true
patient (gives k ∷ os) = patient os
patient (nothing_yet stop ∷ os) = if stop then false else patient os
patient (end_of_file ∷ os) = false
patient (read_error ∷ os) = false

abbrev pub chunks : List ReadOutcome → ℕ
chunks [] = 0
chunks (gives k ∷ os) = suc (chunks os)
chunks (nothing_yet stop ∷ os) = chunks os
chunks (end_of_file ∷ os) = chunks os
chunks (read_error ∷ os) = chunks os

-- Whether a call has returned `true`.
abbrev pub delivered : Option Bool → Bool
delivered none = false
delivered (some found) = found

module _ {m n : ℕ} where
  -- `true` is returned with the frame delivered, anything else with nothing lost.
  abbrev pub IsFaithful : List ℕ → List ℕ → Option Bool × Reader m n × List ReadOutcome → Type 0
  IsFaithful f rest (result, r, os) =
      ((delivered result ≡ true) × Delivers f rest r)
      ⊎ ((delivered result ≡ false) × Awaits f rest r)

  pub fill_and_copy_into-waits :
      (os : List ReadOutcome) (r : Reader m n)
      → (extract r).0 ≡ false
      → (extract r).1 ≡ r
      → r.read_fd ≡ true
      → fill_and_copy_into os r ≡ fill_loop os r
  unfolding fill_and_copy_into
  fill_and_copy_into-waits os r missing same opened =
      rw (missing, same) (ap (λ b. if not b then (some false, r, os) else fill_loop os r) opened)

  module _ (f rest : List ℕ) (fits : length f ≤ n) (whole : 9 + length f ≤ m) where
    -- What holds of a call's result: it is faithful, and with enough chunks it is the frame.
    IsServed : List ReadOutcome → Reader m n → Option Bool × Reader m n × List ReadOutcome → Type 0
    IsServed os r result =
        IsFaithful f rest result
        × (patient os ≡ true
            → 8 + length f ≤ length (unread r.in_) + chunks os
            → delivered result.0 ≡ true)

    module _ (os : List ReadOutcome) (r : Reader m n) (s : IsShort f rest r) where
      round :
          (o : ReadOutcome)
          → IsServed (o ∷ os) r (
              after_read
                (fill_loop os)
                os
                (compacted r)
                (read_pipe (compacted r).pipe (space (compacted r).in_) o))
          → IsServed (o ∷ os) r (fill_loop (o ∷ os) r)
      round o = subst (IsServed (o ∷ os) r) (sym (fill_loop-round f rest fits whole o os r s))

      stopped :
          (o : ReadOutcome)
          → patient (o ∷ os) ≡ false
          → IsServed (o ∷ os) r (some false, compacted r, os)
      unfolding IsServed
      stopped o h =
          (inr (refl, (compacted_lem f rest fits whole r s).0.awaits), λ p more. absurd (cc))

    fill_loop-IsServed :
        (os : List ReadOutcome) (r : Reader m n) → IsShort f rest r → IsServed os r (fill_loop os r)
    unfolding IsServed after_read fill_loop
    fill_loop-IsServed [] r s =
        subst (IsServed [] r) (sym (fill_loop-waits f rest fits whole r s)) (
          inr (refl, (compacted_lem f rest fits whole r s).0.awaits),
          λ p more. absurd (omega (arith, s.short)),
        )
    fill_loop-IsServed (gives k ∷ os) r s = elim (fill_loop-gives f rest fits whole k os r s) [
      | inl e ↦ subst (IsServed (gives k ∷ os) r) (sym e.0) (inl (refl, e.1), λ p more. refl)
      | inr e ↦
          let later = fill_loop-IsServed os (arrived (compacted r) k) e.1 in
          subst (IsServed (gives k ∷ os) r) (sym e.0)
            (later.0, λ p more. later.1 p (omega (arith, e.2)))
    ]
    fill_loop-IsServed (nothing_yet true ∷ os) r s =
        round os r s (nothing_yet true) (stopped os r s (nothing_yet true) refl)
    fill_loop-IsServed (nothing_yet false ∷ os) r s =
        let c = compacted_lem f rest fits whole r s in
        let later = fill_loop-IsServed os (compacted r) c.0 in
        round os r s (nothing_yet false)
          (later.0, λ p more. later.1 p (omega (arith, ap length c.2)))
    fill_loop-IsServed (end_of_file ∷ os) r s =
        round os r s end_of_file (stopped os r s end_of_file refl)
    fill_loop-IsServed (read_error ∷ os) r s =
        round os r s read_error (stopped os r s read_error refl)

    fill_and_copy_into-IsServed :
        (os : List ReadOutcome) (r : Reader m n)
        → Awaits f rest r
        → IsServed os r (fill_and_copy_into os r)
    unfolding fill_and_copy_into IsServed
    fill_and_copy_into-IsServed os r a = elim (extract_lem f rest fits whole r a) [
      | inl e ↦ rw e.0 (inl (refl, e.1), λ p more. refl)
      | inr e ↦
          subst (IsServed os r) (sym (fill_and_copy_into-waits os r e.0 e.1 a.opened))
            (fill_loop-IsServed os r (record { awaits = a; short = e.2 }))
    ]

    -- Where the stream begins with a frame that fits both buffers, a read of it returns `true` with
    -- just that frame delivered and the rest of the stream left, or it has delivered nothing and
    -- lost nothing, however the pipe cuts the bytes into chunks and wherever the calls stop or fail.
    pub fill_and_copy_into-IsFaithful :
        (os : List ReadOutcome) (r : Reader m n)
        → Awaits f rest r
        → IsFaithful f rest (fill_and_copy_into os r)
    unfolding IsServed
    fill_and_copy_into-IsFaithful os r a = (fill_and_copy_into-IsServed os r a).0

    -- It returns `true` where no call of the operating system fails, ends the file or tells it to
    -- stop, and there are as many that give bytes as the frame has bytes not yet at hand.
    pub fill_and_copy_into-delivered :
        (os : List ReadOutcome) (r : Reader m n)
        → Awaits f rest r
        → patient os ≡ true
        → 8 + length f ≤ length (unread r.in_) + chunks os
        → delivered (fill_and_copy_into os r).0 ≡ true
    unfolding IsServed
    fill_and_copy_into-delivered os r a = (fill_and_copy_into-IsServed os r a).1
