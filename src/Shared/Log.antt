-- ===== src/Shared/Log.antt =====
-- core/SharedPage.h, a SequentialSharedPage as the list of the payloads written to it.
use etcs.Base.{
  ℕ, zero, suc, ◌+◌, ◌*◌, ◌≤◌, ◌<◌, ◌≡◌, refl, sym, ap, subst, ◌∙◌, arith, Bool, true, false, not,
  List, [], ◌∷◌, ◌++◌, Option, none, some, ◌⊎◌, inl, inr, ltb, leb, ◌==◌, if◌then◌else◌, length,
  take, get_elem?,
}
use etcs.Base.Maps.{update, update_self, update_ne}
use etcs.Base.Memory.{size_mod, add_size}
use etcs.Shared.Sequential.{
  SequentialFrame, SequentialSharedPage, frame_header, new_frame, append, write, scan, acquire_read,
}

-- A frame that is complete and holds a payload under a number.
abbrev Holds : SequentialFrame → ℕ → List ℕ → Type 0
Holds f seq payload =
    (f.sequence ≡ seq)
    × (f.payload_size ≡ length payload)
    × (f.ready ≡ true)
    × (f.payload ≡ payload)

-- Frames from an offset and a number on, one behind the other, up to the ends of both.
abbrev pub Chain : (ℕ → SequentialFrame) → ℕ → ℕ → List (List ℕ) → ℕ → ℕ → Type 0
Chain buffer offset seq [] upto next = (offset ≡ upto) × (seq ≡ next)
Chain buffer offset seq (payload ∷ payloads) upto next =
    Holds (buffer offset) seq payload
    × Chain buffer (offset + (frame_header + length payload)) (suc seq) payloads upto next

-- A live page whose frames hold these payloads in order.
pub record IsLog (p : SequentialSharedPage) (payloads : List (List ℕ)) : Type 0 where
  pub chain : Chain p.buffer 0 0 payloads p.cursor p.sequence
  pub within : p.cursor ≤ p.capacity
  pub addressable : p.capacity < size_mod
  pub live : p.tombstoned ≡ false

Chain-within :
    (buffer : ℕ → SequentialFrame) (offset seq : ℕ) (payloads : List (List ℕ)) (upto next : ℕ)
    → Chain buffer offset seq payloads upto next
    → (offset + length payloads * 32 ≤ upto) × (seq + length payloads ≡ next)
Chain-within buffer offset seq [] upto next (e, f) = (omega arith, omega arith)
Chain-within buffer offset seq (payload ∷ payloads) upto next (here, rest) =
    let (low, count) =
      Chain-within buffer (offset + (frame_header + length payload)) (suc seq) payloads upto next
        rest in
    (omega arith, omega arith)

-- A frame written at or past the end extends the chain.
Chain-extended :
    (buffer : ℕ → SequentialFrame) (offset seq : ℕ) (payloads : List (List ℕ)) (upto next : ℕ)
    (frame : SequentialFrame) (payload : List ℕ)
    → Chain buffer offset seq payloads upto next
    → Holds frame next payload
    → Chain
        (update buffer upto frame)
        offset
        seq
        (payloads ++ (payload ∷ []))
        (upto + (frame_header + length payload))
        (suc next)
Chain-extended buffer offset seq [] upto next frame payload (e, f) new = (
  subst (λ (g : SequentialFrame). Holds g seq payload)
      (sym (update_self buffer upto frame) ∙ ap (update buffer upto frame) (sym e))
      (subst (λ (n : ℕ). Holds frame n payload) (sym f) new),
  (ap (λ (o : ℕ). o + (frame_header + length payload)) e, ap suc f),
)
Chain-extended buffer offset seq (first ∷ payloads) upto next frame payload (here, rest) new =
    let (low, count) =
      Chain-within buffer (offset + (frame_header + length first)) (suc seq) payloads upto next
        rest in
    (
      subst (λ (g : SequentialFrame). Holds g seq first)
          (sym (update_ne buffer upto offset frame (λ e. omega arith))) here,
      Chain-extended buffer (offset + (frame_header + length first)) (suc seq) payloads upto next
          frame payload rest new,
    )

-- What `write` does to a log: the payload is its next entry, or the page is full and unchanged.
abbrev pub Written :
    SequentialSharedPage → List (List ℕ) → List ℕ → Option (ℕ × SequentialSharedPage) → Type 0
Written p payloads payload r =
    (r ≡ some (18446744073709551615, p)) × (p.capacity < p.cursor + (32 + length payload))
    ⊎ (q : SequentialSharedPage) × (r ≡ some (length payloads, q))
      × IsLog q (payloads ++ (payload ∷ []))

next_seq : (n : ℕ) → n + 1 < size_mod → suc n ≡ add_size n 1
next_seq n h = omega arith

append-IsLog :
    (p : SequentialSharedPage) (rid : ℕ) (payloads : List (List ℕ)) (payload : List ℕ)
    → IsLog p payloads
    → p.cursor + (frame_header + length payload) ≤ p.capacity
    → (p.sequence ≡ length payloads) × IsLog (append p rid payload) (payloads ++ (payload ∷ []))
unfolding append
append-IsLog p rid payloads payload log room =
    let (low, count) = Chain-within p.buffer 0 0 payloads p.cursor p.sequence log.chain in
    let big = log.addressable in
    let frame = new_frame p.sequence rid payload in
    let upto = p.cursor + (frame_header + length payload) in
    (
      omega arith,
      record {
        chain =
            subst
              (λ (n : ℕ).
                Chain (update p.buffer p.cursor frame) 0 0 (payloads ++ (payload ∷ [])) upto n)
              (next_seq p.sequence (omega arith))
              (Chain-extended p.buffer 0 0 payloads p.cursor p.sequence frame payload log.chain
                (refl, refl, refl, refl));
        within = room;
        addressable = log.addressable;
        live = log.live;
      },
    )

-- A write to a log either reports that the page is full, which it is for this payload, and changes
-- nothing, or gives the number of entries and leaves the log with the payload as its last entry.
pub write-IsLog :
    (p : SequentialSharedPage) (rid : ℕ) (payloads : List (List ℕ)) (payload : List ℕ)
    → IsLog p payloads
    → Written p payloads payload (write p rid payload)
unfolding write
write-IsLog p rid payloads payload log =
    call p.tombstoned (ltb p.capacity (p.cursor + (frame_header + length payload))) log.live refl
  where
    call :
        (dead full : Bool)
        → dead ≡ false
        → ltb p.capacity (p.cursor + (frame_header + length payload)) ≡ full
        → Written p payloads payload (
            if dead
            then none
            else if full
            then some (18446744073709551615, p)
            else some (p.sequence, append p rid payload))
    call true full dead e = absurd (cc)
    call false true dead e =
        inl (refl, over p.capacity (p.cursor + (frame_header + length payload)) e)
      where
        over : (c n : ℕ) → ltb c n ≡ true → c < n
        over c n h = ground arith
    call false false dead e =
        let (seq, log2) = append-IsLog p rid payloads payload log (under p.capacity _ e) in
        inr (append p rid payload, ap (λ (n : ℕ). some (n, append p rid payload)) seq, log2)
      where
        under : (c n : ℕ) → ltb c n ≡ false → n ≤ c
        under c n h = ground arith

-- One round of the scan on a test of where it is, of the frame's flag and of its number.
abbrev visit : Bool → Bool → Bool → Option (List ℕ) → Option (List ℕ) → Option (List ℕ)
visit inside ready hit found rest =
    if inside then if not ready then none else if hit then found else rest else none

visit_end :
    (inside ready hit : Bool) (x y : Option (List ℕ))
    → inside ≡ false
    → visit inside ready hit x y ≡ none
visit_end true ready hit x y e = absurd (cc)
visit_end false ready hit x y e = refl

visit_found :
    (inside ready hit : Bool) (x y : Option (List ℕ))
    → inside ≡ true
    → ready ≡ true
    → hit ≡ true
    → visit inside ready hit x y ≡ x
visit_found true true true x y e f g = refl
visit_found false ready hit x y e f g = absurd (cc)
visit_found true false hit x y e f g = absurd (cc)
visit_found true true false x y e f g = absurd (cc)

visit_next :
    (inside ready hit : Bool) (x y : Option (List ℕ))
    → inside ≡ true
    → ready ≡ true
    → hit ≡ false
    → visit inside ready hit x y ≡ y
visit_next true true false x y e f g = refl
visit_next false ready hit x y e f g = absurd (cc)
visit_next true false hit x y e f g = absurd (cc)
visit_next true true true x y e f g = absurd (cc)

beyond : (a b : ℕ) → b < a → leb a b ≡ false
beyond a b h = ground arith

inside_le : (a b : ℕ) → a ≤ b → leb a b ≡ true
inside_le a b h = ground arith

is_hit : (a b : ℕ) → a ≡ b → (a == b) ≡ true
is_hit a b h = ground arith

is_miss : (a b : ℕ) → a < b → (a == b) ≡ false
is_miss a b h = ground arith

take_all : (xs : List ℕ) → take (length xs) xs ≡ xs
take_all [] = refl
take_all (x ∷ xs) = ap (◌∷◌ x) (take_all xs)

abbrev entry : SequentialSharedPage → ℕ → Option (List ℕ)
entry p offset = some (take (p.buffer offset).payload_size (p.buffer offset).payload)

abbrev onward : SequentialSharedPage → ℕ → ℕ → ℕ → Option (List ℕ)
onward p fuel expected_seq offset =
    scan fuel p expected_seq (offset + (frame_header + (p.buffer offset).payload_size))

-- The scan finds an entry by its number, with enough rounds for the bytes that are left.
scan_lem :
    (p : SequentialSharedPage) (fuel offset seq : ℕ) (payloads : List (List ℕ)) (i : ℕ)
    → Chain p.buffer offset seq payloads p.cursor p.sequence
    → p.cursor ≤ offset + fuel
    → scan (suc fuel) p (seq + i) offset ≡ get_elem? payloads i
unfolding scan
scan_lem p fuel offset seq [] i (e, f) h =
    visit_end (leb (offset + frame_header) p.cursor) (p.buffer offset).ready
      ((p.buffer offset).sequence == seq + i) (entry p offset) (onward p fuel (seq + i) offset)
      (beyond (offset + frame_header) p.cursor (omega arith))
scan_lem p fuel offset seq (payload ∷ payloads) zero ((number, size, ready, bytes), rest) h =
    let (low, count) =
      Chain-within p.buffer (offset + (frame_header + length payload)) (suc seq) payloads p.cursor
        p.sequence rest in
    visit_found (leb (offset + frame_header) p.cursor) (p.buffer offset).ready
      ((p.buffer offset).sequence == seq + 0) (entry p offset) (onward p fuel (seq + 0) offset)
      (inside_le (offset + frame_header) p.cursor (omega arith)) ready
      (is_hit (p.buffer offset).sequence (seq + 0) (omega arith))
    ∙ ap some (
        ap (take (p.buffer offset).payload_size) bytes
        ∙ ap (λ (n : ℕ). take n payload) size
        ∙ take_all payload)
scan_lem p zero offset seq (payload ∷ payloads) (suc i) ((number, size, ready, bytes), rest) h =
    let (low, count) =
      Chain-within p.buffer (offset + (frame_header + length payload)) (suc seq) payloads p.cursor
        p.sequence rest in
    absurd (omega arith)
scan_lem p (suc fuel) offset seq (payload ∷ payloads) (suc i) ((number, size, ready, bytes), rest)
      h =
    let (low, count) =
      Chain-within p.buffer (offset + (frame_header + length payload)) (suc seq) payloads p.cursor
        p.sequence rest in
    let shifted : seq + suc i ≡ suc seq + i = omega arith in
    visit_next (leb (offset + frame_header) p.cursor) (p.buffer offset).ready
      ((p.buffer offset).sequence == seq + suc i) (entry p offset)
      (onward p (suc fuel) (seq + suc i) offset)
      (inside_le (offset + frame_header) p.cursor (omega arith)) ready
      (is_miss (p.buffer offset).sequence (seq + suc i) (omega arith))
    ∙ ap (λ (n : ℕ). scan (suc fuel) p (seq + suc i) (offset + (frame_header + n))) size
    ∙ ap (λ (n : ℕ). scan (suc fuel) p n (offset + (frame_header + length payload))) shifted
    ∙ scan_lem p fuel (offset + (frame_header + length payload)) (suc seq) payloads i rest
        (omega arith)

-- Reading a log by number gives that entry, and nothing past the last one.
pub acquire_read-IsLog :
    (p : SequentialSharedPage) (payloads : List (List ℕ)) (i : ℕ)
    → IsLog p payloads
    → acquire_read p i ≡ some (get_elem? payloads i)
unfolding acquire_read
acquire_read-IsLog p payloads i log =
    ap (λ (dead : Bool). if dead then none else some (scan (suc p.cursor) p i 0)) log.live
    ∙ ap some (
        ap (λ (n : ℕ). scan (suc p.cursor) p n 0) plain
        ∙ scan_lem p p.cursor 0 0 payloads i log.chain (omega arith))
  where
    plain : i ≡ 0 + i
    plain = omega arith
