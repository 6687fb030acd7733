-- ===== src/Mirror/Starved.antt =====
-- core/MirrorBuffer.h, `fillAndCopyInto` where nothing has been written: it never returns `true`.
use etcs.Base.{
  ℕ, ◌≡◌, refl, sym, subst, ap, ◌∙◌, true, false, List, [], ◌∷◌, length, arith, Bool-cases, inl,
  inr, Option, Bool, ◌==◌,
}
use etcs.Buffer.TokenBounds.{InArray}
use etcs.Buffer.Tokens.{unread}
use etcs.Mirror.{ReadOutcome, gives, nothing_yet, end_of_file, read_error, read_pipe, read_some}
use etcs.Mirror.Pipe.{
  Reader, try_extract_into, extract, after_read, compacted, fill_loop, fill_and_copy_into, space,
}
use etcs.Mirror.Receiving.{compact_lem, length-unread}
use etcs.Mirror.Delivery.{delivered, fill_and_copy_into-waits}

module _ {m n : ℕ} where
  pub record IsStarved (r : Reader m n) : Type 0 where
    pub front : InArray r.in_
    pub room : InArray r.out
    pub opened : r.read_fd ≡ true
    pub nothing : unread r.in_ ≡ []
    pub dry : r.pipe ≡ []

  abbrev IsIdle : Option Bool × Reader m n × List ReadOutcome → Type 0
  IsIdle (result, r, os) = (delivered result ≡ false) × IsStarved r

  extract-IsStarved : (r : Reader m n) → IsStarved r → extract r ≡ (false, r)
  unfolding extract try_extract_into
  extract-IsStarved r s =
      let e : length (unread r.in_) ≡ 0 = ap length s.nothing in
      ground (arith, e, length-unread s.front, s.front)

  compacted-IsStarved : (r : Reader m n) → IsStarved r → IsStarved (compacted r)
  unfolding compacted
  compacted-IsStarved r s =
      let c = compact_lem r.in_ s.front in
      record {
        front = c.0;
        room = s.room;
        opened = s.opened;
        nothing = c.1 ∙ s.nothing;
        dry = s.dry;
      }

  after_read-IsIdle :
      (os : List ReadOutcome) (r : Reader m n) (k : ℕ) (o : ReadOutcome)
      → IsStarved r
      → ((x : Reader m n) → IsStarved x → IsIdle (fill_loop os x))
      → IsIdle (after_read (fill_loop os) os r (read_pipe r.pipe k o))
  unfolding after_read read_pipe read_some
  after_read-IsIdle os r k (gives j) s next =
      subst (λ p. IsIdle (after_read (fill_loop os) os r (read_pipe p k (gives j)))) (sym s.dry)
        (next r s)
  after_read-IsIdle os r k (nothing_yet true) s next = (refl, s)
  after_read-IsIdle os r k (nothing_yet false) s next = next r s
  after_read-IsIdle os r k end_of_file s next = (refl, s)
  after_read-IsIdle os r k read_error s next = (refl, s)

  fill_loop-IsIdle :
      (os : List ReadOutcome) (r : Reader m n) → IsStarved r → IsIdle (fill_loop os r)
  unfolding fill_loop
  fill_loop-IsIdle [] r s = elim (Bool-cases (space (compacted r).in_ == 0)) [
    | inl e ↦ rw e (refl, compacted-IsStarved r s)
    | inr e ↦ rw e (refl, compacted-IsStarved r s)
  ]
  fill_loop-IsIdle (o ∷ os) r s = elim (Bool-cases (space (compacted r).in_ == 0)) [
    | inl e ↦ rw e (refl, compacted-IsStarved r s)
    | inr e ↦ rw e (
        after_read-IsIdle os (compacted r) (space (compacted r).in_) o (compacted-IsStarved r s)
          (fill_loop-IsIdle os))
  ]

  pub fill_and_copy_into-IsIdle :
      (os : List ReadOutcome) (r : Reader m n) → IsStarved r → IsIdle (fill_and_copy_into os r)
  fill_and_copy_into-IsIdle os r s =
      let e = extract-IsStarved r s in
      subst IsIdle
        (sym (fill_and_copy_into-waits os r (ap (λ t. t.0) e) (ap (λ t. t.1) e) s.opened))
        (fill_loop-IsIdle os r s)
