-- ===== src/Mirror/InOrder.antt =====
-- core/MirrorBuffer.h, the order of delivery: payloads come out of reads as they went into writes.
use mathlib.Core.List.{append_assoc, append-nil}
use etcs.Base.{
  ap₂, ℕ, ◌+◌, ◌<◌, ◌≤◌, ◌≡◌, refl, sym, subst, ap, ◌∙◌, true, false, List, [], ◌∷◌, ◌++◌, length,
  arith, inl, inr,
}
use etcs.Buffer.{TBuffer}
use etcs.Buffer.Contents.{contents}
use etcs.Buffer.TokenBounds.{InArray}
use etcs.Buffer.Tokens.{unread}
use etcs.Mirror.{WriteOutcome, ReadOutcome}
use etcs.Mirror.Frames.{frame, wire}
use etcs.Mirror.Pipe.{Writer, stage_and_flush, fill_and_copy_into}
use etcs.Mirror.Sending.{returned}
use etcs.Mirror.Staging.{IsOpen, staged_bytes}
use etcs.Mirror.Writes.{size_lem, stage_and_flush-IsWritten, stage_and_flush-refused}
use etcs.Mirror.Chunks.{stream, Awaits}
use etcs.Mirror.Link.{
  Link, Step, write_done, write_refused, read_done, read_missed, Reaches, stay, go, write_call,
  read_call,
}
use etcs.Mirror.Starved.{IsStarved, fill_and_copy_into-IsIdle}
use etcs.Mirror.Delivery.{delivered, fill_and_copy_into-IsFaithful}

-- Every payload fits the frame of the reader and its output.
abbrev pub AllFit : ℕ → ℕ → List (List ℕ) → Type 0
AllFit m n [] = Unit {0}
AllFit m n (p ∷ ps) = (length p ≤ n) × (9 + length p ≤ m) × AllFit m n ps

AllFit-append :
    (m n : ℕ) (ps : List (List ℕ)) (p : List ℕ)
    → AllFit m n ps
    → length p ≤ n
    → 9 + length p ≤ m
    → AllFit m n (ps ++ p ∷ [])
AllFit-append m n [] p a h k = (h, k, tt)
AllFit-append m n (q ∷ ps) p a h k = (a.0, a.1, AllFit-append m n ps p a.2 h k)

wire-append : (ps : List (List ℕ)) (p : List ℕ) → wire (ps ++ p ∷ []) ≡ wire ps ++ frame p
wire-append [] p = append-nil (frame p)
wire-append (q ∷ ps) p =
    ap (λ t. frame q ++ t) (wire-append ps p) ∙ sym (append_assoc (frame q) (wire ps) (frame p))

nil-append {ℓ} : {A : Type ℓ} (xs ys : List A) → xs ++ ys ≡ [] → (xs ≡ []) × (ys ≡ [])
nil-append [] ys e = (refl, e)
nil-append (x ∷ xs) ys e = absurd (cc)

-- A writer whose pipe alone has changed.
same_writer : (w : Writer) (pipe : List ℕ) → IsOpen w → IsOpen (record w { pipe = pipe })
same_writer w pipe o = record {
  opened = o.opened;
  alive = o.alive;
  inside = o.inside;
  buffered = o.buffered;
  small = o.small;
}

module _ {m n : ℕ} where
  -- What holds between calls, with the payloads that are under way.
  pub record Carries (pending : List (List ℕ)) (l : Link m n) : Type 0 where
    pub writable : IsOpen l.writer
    pub flushed : staged_bytes l.writer ≡ []
    pub front : InArray l.reader.in_
    pub room : InArray l.reader.out
    pub readable : l.reader.read_fd ≡ true
    pub shared : l.writer.pipe ≡ l.reader.pipe
    pub coming : stream l.reader ≡ wire pending
    pub in_order : l.sent ≡ l.received ++ pending
    pub fit : AllFit m n pending

  awaits :
      (p : List ℕ) (ps : List (List ℕ)) (l : Link m n)
      → Carries (p ∷ ps) l
      → Awaits p (wire ps) l.reader
  awaits p ps l c = record {
    front = c.front;
    room = c.room;
    opened = c.readable;
    coming = c.coming;
  }

  starved : (l : Link m n) → Carries [] l → IsStarved l.reader
  starved l c =
      let e = nil-append (unread l.reader.in_) l.reader.pipe c.coming in
      record { front = c.front; room = c.room; opened = c.readable; nothing = e.0; dry = e.1 }

  read_done_lem :
      (pending : List (List ℕ)) (l : Link m n) (os : List ReadOutcome)
      → Carries pending l
      → delivered (fill_and_copy_into os l.reader).0 ≡ true
      → (rest : List (List ℕ)) × Carries rest (record (read_call os l) {
        received = l.received ++ unread (fill_and_copy_into os l.reader).1.out ∷ [];
      })
  read_done_lem [] l os c h =
      let i = fill_and_copy_into-IsIdle os l.reader (starved l c) in absurd (cc)
  read_done_lem (p ∷ ps) l os c h =
      elim (fill_and_copy_into-IsFaithful p (wire ps) c.fit.0 c.fit.1 os l.reader
        (awaits p ps l c)) [
          | inl (e, d) ↦ (
            ps,
            record {
              writable = same_writer l.writer (fill_and_copy_into os l.reader).1.pipe c.writable;
              flushed = c.flushed;
              front = d.front;
              room = d.room;
              readable = d.opened;
              shared = refl;
              coming = d.left;
              in_order =
                  c.in_order
                  ∙ sym (append_assoc l.received (p ∷ []) ps)
                  ∙ ap (λ q. (l.received ++ q ∷ []) ++ ps) (sym d.delivered);
              fit = c.fit.2;
            },
          )
          | inr (e, a) ↦ absurd (cc)
        ]

  read_missed_lem :
      (pending : List (List ℕ)) (l : Link m n) (os : List ReadOutcome)
      → Carries pending l
      → delivered (fill_and_copy_into os l.reader).0 ≡ false
      → Carries pending (read_call os l)
  read_missed_lem [] l os c h =
      let (e, s) = fill_and_copy_into-IsIdle os l.reader (starved l c) in
      record {
        writable = same_writer l.writer (fill_and_copy_into os l.reader).1.pipe c.writable;
        flushed = c.flushed;
        front = s.front;
        room = s.room;
        readable = s.opened;
        shared = refl;
        coming = ap₂ (λ a b. a ++ b) s.nothing s.dry;
        in_order = c.in_order;
        fit = c.fit;
      }
  read_missed_lem (p ∷ ps) l os c h =
      elim (fill_and_copy_into-IsFaithful p (wire ps) c.fit.0 c.fit.1 os l.reader
        (awaits p ps l c)) [
          | inl (e, d) ↦ absurd (cc)
          | inr (e, a) ↦ record {
            writable = same_writer l.writer (fill_and_copy_into os l.reader).1.pipe c.writable;
            flushed = c.flushed;
            front = a.front;
            room = a.room;
            readable = a.opened;
            shared = refl;
            coming = a.coming;
            in_order = c.in_order;
            fit = c.fit;
          }
        ]

  write_done_lem :
      (pending : List (List ℕ)) (l : Link m n) (os : List WriteOutcome) (payload : TBuffer n)
      → Carries pending l
      → InArray payload
      → 9 + payload.written ≤ m
      → l.writer.page.written + 8 + payload.written ≤ l.writer.page.capacity
      → returned (stage_and_flush os l.writer payload).0 ≡ true
      → Carries
          (pending ++ contents payload ∷ [])
          (record (write_call os payload l) { sent = l.sent ++ contents payload ∷ [] })
  write_done_lem pending l os payload c p whole room h =
      let f = contents payload in
      let w = stage_and_flush-IsWritten os c.writable p room in
      elim w.1 [
        | inl (e, added, cleared) ↦ record {
          writable = w.0;
          flushed = cleared;
          front = c.front;
          room = c.room;
          readable = c.readable;
          shared = refl;
          coming =
              ap (λ t. unread l.reader.in_ ++ t)
                (added
                  ∙ ap (λ t. l.writer.pipe ++ (t ++ frame f)) c.flushed
                  ∙ ap (λ t. t ++ frame f) c.shared)
              ∙ sym (append_assoc (unread l.reader.in_) l.reader.pipe (frame f))
              ∙ ap (λ t. t ++ frame f) c.coming
              ∙ sym (wire-append pending f);
          in_order = ap (λ t. t ++ f ∷ []) c.in_order ∙ append_assoc l.received pending (f ∷ []);
          fit =
              AllFit-append m n pending f c.fit (omega (arith, size_lem p, p.extent))
                (omega (arith, size_lem p));
        }
        | inr (e, more) ↦ absurd (cc)
      ]

  write_refused_lem :
      (pending : List (List ℕ)) (l : Link m n) (os : List WriteOutcome) (payload : TBuffer n)
      → Carries pending l
      → InArray payload
      → l.writer.page.capacity < l.writer.page.written + 8 + payload.written
      → Carries pending (write_call os payload l)
  write_refused_lem pending l os payload c p full =
      subst
        (λ w. Carries pending (record l { writer = w; reader = record l.reader { pipe = w.pipe } }))
        (sym (ap (λ t. t.1) (stage_and_flush-refused os c.writable p full)))
        (record {
          writable = c.writable;
          flushed = c.flushed;
          front = c.front;
          room = c.room;
          readable = c.readable;
          shared = refl;
          coming = ap (λ t. unread l.reader.in_ ++ t) c.shared ∙ c.coming;
          in_order = c.in_order;
          fit = c.fit;
        })

  pub Step-Carries :
      {l l' : Link m n} (pending : List (List ℕ))
      → Carries pending l
      → Step l l'
      → (rest : List (List ℕ)) × Carries rest l'
  Step-Carries {l} pending c (write_done os payload p whole room h) =
      (pending ++ contents payload ∷ [], write_done_lem pending l os payload c p whole room h)
  Step-Carries {l} pending c (write_refused os payload p full) =
      (pending, write_refused_lem pending l os payload c p full)
  Step-Carries {l} pending c (read_done os h) = read_done_lem pending l os c h
  Step-Carries {l} pending c (read_missed os h) = (pending, read_missed_lem pending l os c h)

  -- From a state that carries some payloads, over writes that return `true` or find no room and reads
  -- that return anything, in any order, however the operating system cuts their bytes into chunks:
  -- the payloads received are the first of those sent, unchanged and in order, and exactly the others
  -- are under way.
  pub Reaches-Carries :
      {l l' : Link m n} {pending : List (List ℕ)}
      → Carries pending l
      → Reaches l l'
      → (rest : List (List ℕ)) × Carries rest l'
  Reaches-Carries {pending} c stay = (pending, c)
  Reaches-Carries c (go before step) =
      let (rest, d) = Reaches-Carries c before in Step-Carries rest d step
