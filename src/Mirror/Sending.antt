-- ===== src/Mirror/Sending.antt =====
-- core/MirrorBuffer.h, what `flushStaged` and `stageAndFlush` put on the pipe.
use mathlib.Core.List.{append_assoc, append-nil}
use etcs.Base.{
  ℕ, suc, ◌+◌, ◌-◌, ◌<◌, ◌≤◌, ◌≡◌, refl, sym, subst, ap, ◌∙◌, Bool, true, false, List, [], ◌∷◌,
  ◌++◌, Option, none, some, ltb, if◌then◌else◌, min, take, drop, arith, ◌⊎◌, inl, inr, Bool-cases,
}
use etcs.Mirror.{WriteOutcome, accepts, would_block, fails}
use etcs.Mirror.Frames.{take-take-drop}
use etcs.Mirror.Pipe.{Writer, push_bytes, reset_page, flush_round, flush_loop}

-- Whether a call has returned `true`.
abbrev pub returned : Option Bool → Bool
returned none = false
returned (some done) = done

-- Calls that neither fail nor stop, and how many of them take bytes.
abbrev pub is_patient : List WriteOutcome → Bool
is_patient [] = true
is_patient (accepts k ∷ os) = is_patient os
is_patient (would_block stop ∷ os) = if stop then false else is_patient os
is_patient (fails ∷ os) = false

abbrev pub accepted : List WriteOutcome → ℕ
accepted [] = 0
accepted (accepts k ∷ os) = suc (accepted os)
accepted (would_block stop ∷ os) = accepted os
accepted (fails ∷ os) = accepted os

-- The writer with the first bytes of its staging page on the pipe.
abbrev pub pushed : Writer → ℕ → Writer
pushed w sent = record w { pipe = w.pipe ++ take sent w.buffer }

push_bytes-pushed :
    (w : Writer) (sent n : ℕ) → push_bytes (pushed w sent) sent n ≡ pushed w (sent + n)
unfolding push_bytes
push_bytes-pushed w sent n =
    ap (λ p. record w { pipe = p })
      (append_assoc w.pipe (take sent w.buffer) (take n (drop sent w.buffer))
        ∙ ap (λ t. w.pipe ++ t) (take-take-drop sent n w.buffer))

-- What a flush has done: all of the page is on the pipe and the page is reset, or some of it is and
-- the page is as it was.
abbrev pub IsFlushed : Writer → ℕ → Option Bool × Writer → Type 0
IsFlushed w total (result, w') =
    ((returned result ≡ true) × (w' ≡ reset_page (pushed w total)))
    ⊎ ((returned result ≡ false) × ((k : ℕ) × (k < total) × (w' ≡ pushed w k)))

module _ (w : Writer) (total : ℕ) where
  IsDone : List WriteOutcome → ℕ → Option Bool × Writer → Type 0
  IsDone os sent result =
      IsFlushed w total result
      × (is_patient os ≡ true → total ≤ sent + accepted os → returned result.0 ≡ true)

  all_sent : (os : List WriteOutcome) → IsDone os total (some true, reset_page (pushed w total))
  unfolding IsDone
  all_sent os = (inl (refl, refl), λ p h. refl)

  given_up :
      (os : List WriteOutcome) (sent : ℕ) (result : Option Bool)
      → sent < total
      → returned result ≡ false
      → (is_patient os ≡ true → total ≤ sent + accepted os → returned result ≡ true)
      → IsDone os sent (result, pushed w sent)
  unfolding IsDone
  given_up os sent result h e p = (inr (e, (sent, h, refl)), p)

  flush_loop-ends :
      (os : List WriteOutcome) (x : Writer) (sent : ℕ)
      → ltb sent total ≡ false
      → flush_loop os total x sent ≡ (some true, reset_page x)
  unfolding flush_loop
  flush_loop-ends [] x sent h = rw h refl
  flush_loop-ends (o ∷ os) x sent h = rw h refl

  flush_loop-waits :
      (x : Writer) (sent : ℕ) → ltb sent total ≡ true → flush_loop [] total x sent ≡ (none, x)
  unfolding flush_loop
  flush_loop-waits x sent h = rw h refl

  flush_loop-round :
      (o : WriteOutcome) (os : List WriteOutcome) (x : Writer) (sent : ℕ)
      → ltb sent total ≡ true
      → flush_loop (o ∷ os) total x sent ≡ flush_round (flush_loop os total) o x sent total
  unfolding flush_loop
  flush_loop-round o os x sent h = rw h refl

  -- One round, where the rounds after it do what they should.
  flush_round-IsDone :
      (o : WriteOutcome) (os : List WriteOutcome) (sent : ℕ)
      → sent < total
      → ((s : ℕ) → s ≤ total → IsDone os s (flush_loop os total (pushed w s) s))
      → IsDone (o ∷ os) sent (flush_round (flush_loop os total) o (pushed w sent) sent total)
  unfolding flush_round IsDone
  flush_round-IsDone (accepts k) os sent h later =
      let n = min (suc k) (total - sent) in
      let next = later (sent + n) (omega arith) in
      subst (λ x. IsDone (accepts k ∷ os) sent (flush_loop os total x (sent + n)))
        (sym (push_bytes-pushed w sent n)) (next.0, λ p more. next.1 p (omega arith))
  flush_round-IsDone (would_block true) os sent h later =
      given_up (would_block true ∷ os) sent (some false) h refl (λ p more. absurd (cc))
  flush_round-IsDone (would_block false) os sent h later = later sent (omega arith)
  flush_round-IsDone fails os sent h later =
      given_up (fails ∷ os) sent (some false) h refl (λ p more. absurd (cc))

  flush_loop-IsDone :
      (os : List WriteOutcome) (sent : ℕ)
      → sent ≤ total
      → IsDone os sent (flush_loop os total (pushed w sent) sent)
  flush_loop-IsDone [] sent h = elim (Bool-cases (ltb sent total)) [
    | inl e ↦
        let less : sent < total = ground (arith, e) in
        subst (IsDone [] sent) (sym (flush_loop-waits (pushed w sent) sent e))
          (given_up [] sent none less refl (λ p more. absurd (omega arith)))
    | inr e ↦
        let whole : sent ≡ total = ground (arith, e) in
        subst (λ s. IsDone [] s (flush_loop [] total (pushed w s) s)) (sym whole)
          (subst (IsDone [] total) (sym (flush_loop-ends [] (pushed w total) total (ground arith)))
            (all_sent []))
  ]
  flush_loop-IsDone (o ∷ os) sent h = elim (Bool-cases (ltb sent total)) [
    | inl e ↦
        let less : sent < total = ground (arith, e) in
        subst (IsDone (o ∷ os) sent) (sym (flush_loop-round o os (pushed w sent) sent e))
          (flush_round-IsDone o os sent less (flush_loop-IsDone os))
    | inr e ↦
        let whole : sent ≡ total = ground (arith, e) in
        subst (λ s. IsDone (o ∷ os) s (flush_loop (o ∷ os) total (pushed w s) s)) (sym whole)
          (subst (IsDone (o ∷ os) total)
            (sym (flush_loop-ends (o ∷ os) (pushed w total) total (ground arith)))
            (all_sent (o ∷ os)))
  ]

  -- The loop from the start of the page.
  pub flush_loop_lem :
      (os : List WriteOutcome)
      → IsFlushed w total (flush_loop os total w 0)
        × (is_patient os ≡ true → total ≤ accepted os → returned (flush_loop os total w 0).0 ≡ true)
  unfolding IsDone
  flush_loop_lem os =
      let start : pushed w 0 ≡ w = ap (λ p. record w { pipe = p }) (append-nil w.pipe) in
      let d =
        subst (λ x. IsDone os 0 (flush_loop os total x 0)) start
          (flush_loop-IsDone os 0 (omega arith)) in
      (d.0, λ p more. d.1 p (omega arith))
