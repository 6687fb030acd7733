-- ===== src/Ring/Calls/Quiet.antt =====
-- Between calls a page is quiet: all that is claimed is written and published.
use etcs.Base.{
  ℕ, zero, suc, ◌+◌, ◌-◌, ◌%◌, ◌^◌, ◌<◌, ◌≤◌, ◌≡◌, ◌≢◌, refl, sym, ap, subst, ◌∙◌, true, false,
  some, arith, ℕ_discrete, inl, inr, ◌⊎◌,
}
use etcs.Base.Maps.{update_self, update_ne}
use etcs.Base.Memory.{add_size, size_mod}
use etcs.Buffer.{TBuffer}
use etcs.Ring.{
  Page, slot, slot_index, uint64_max, gap_is_open, can_advance, clear_ready, set_ready,
  store_header, store_payload,
}
use etcs.Ring.Index.{HasGeometry, slot_index_lem, mod_ne}
use etcs.Ring.Calls.{advance, try_advance_publisher, fill, write, is_full, mark_consumed}

pub record IsQuiet {n : ℕ} (p : Page n) : Type 0 where
  pub geometry : HasGeometry p
  pub short : p.slot_count ≤ 2 ^ 62
  pub published : p.publisher_cursor ≡ (p.sequence + uint64_max) % size_mod
  pub behind : p.consumer_cursor ≤ p.sequence
  pub fits : p.sequence ≤ p.consumer_cursor + p.slot_count
  pub small : p.sequence < uint64_max
  pub written :
      (s : ℕ)
      → p.consumer_cursor ≤ s
      → s < p.sequence
      → ((slot p s).ready ≡ true) × ((slot p s).sequence ≡ s)
  pub past : (s : ℕ) → (slot p s).ready ≡ true → (slot p s).sequence < p.sequence

module _ {n : ℕ} where
  -- Two numbers less than a lap apart have two slots.
  pub index_ne :
      {p : Page n} (a b : ℕ)
      → HasGeometry p
      → a < b
      → b < a + p.slot_count
      → slot_index p a ≢ slot_index p b
  index_ne {p} a b g h k e =
      mod_ne p.slot_count a b h k (sym (slot_index_lem g a) ∙ e ∙ slot_index_lem g b)

  pub fill-slot_self :
      (p : Page n) (seq rid : ℕ) (payload : TBuffer n)
      → slot (fill p seq rid payload) seq
        ≡ set_ready
            (store_payload (store_header (clear_ready (slot p seq)) seq rid payload) payload)
  unfolding fill
  fill-slot_self p seq rid payload = update_self p.buffer (slot_index p seq) _

  pub fill-slot_ne :
      (p : Page n) (seq s rid : ℕ) (payload : TBuffer n)
      → slot_index p seq ≢ slot_index p s
      → slot (fill p seq rid payload) s ≡ slot p s
  unfolding fill
  fill-slot_ne p seq s rid payload h = update_ne p.buffer (slot_index p seq) (slot_index p s) _ h

  pub fill-slot_count :
      (p : Page n) (seq rid : ℕ) (payload : TBuffer n)
      → (fill p seq rid payload).slot_count ≡ p.slot_count
  unfolding fill
  fill-slot_count p seq rid payload = refl

  pub fill-publisher_cursor :
      (p : Page n) (seq rid : ℕ) (payload : TBuffer n)
      → (fill p seq rid payload).publisher_cursor ≡ p.publisher_cursor
  unfolding fill
  fill-publisher_cursor p seq rid payload = refl

  -- A filled slot is ready under its number.
  pub fill_ready :
      (p : Page n) (seq rid : ℕ) (payload : TBuffer n)
      → ((slot (fill p seq rid payload) seq).ready ≡ true)
        × ((slot (fill p seq rid payload) seq).sequence ≡ seq)
        × ((slot (fill p seq rid payload) seq).writer_rid ≡ rid)
  unfolding clear_ready set_ready store_header store_payload
  fill_ready p seq rid payload = ground (arith, fill-slot_self p seq rid payload)

  -- The walk stops where the next slot is not ready, or is of another lap.
  advance_stops : (fuel : ℕ) (p : Page n) → can_advance p ≡ false → advance fuel p ≡ p
  unfolding advance
  advance_stops zero p h = refl
  advance_stops (suc fuel) p h = ground arith

  advance_once :
      (fuel : ℕ) (p : Page n)
      → can_advance p ≡ true
      → can_advance (record p { publisher_cursor = add_size p.publisher_cursor 1 }) ≡ false
      → advance (suc (suc fuel)) p ≡ record p { publisher_cursor = add_size p.publisher_cursor 1 }
  unfolding advance
  advance_once fuel p h k = rw (h, k)

  -- The slot of a number in a filled page: the filled one, or as it was.
  fill-slot_cases :
      (p : Page n) (seq s rid : ℕ) (payload : TBuffer n)
      → (slot (fill p seq rid payload) s ≡ slot (fill p seq rid payload) seq)
        ⊎ (slot (fill p seq rid payload) s ≡ slot p s)
  unfolding fill
  fill-slot_cases p seq s rid payload = elim (ℕ_discrete (slot_index p seq) (slot_index p s)) [
    | yes e ↦ inl (ap (fill p seq rid payload).buffer (sym e))
    | no e ↦ inr (fill-slot_ne p seq s rid payload e)
  ]

  -- In a filled page what is ready was claimed.
  fill-past :
      (p : Page n) (seq rid s : ℕ) (payload : TBuffer n)
      → ((slot p s).ready ≡ true → (slot p s).sequence < seq)
      → (slot (fill p seq rid payload) s).ready ≡ true
      → (slot (fill p seq rid payload) s).sequence < seq + 1
  fill-past p seq rid s payload past h =
      ground (arith, fill_ready p seq rid payload, fill-slot_cases p seq s rid payload)

  gap_shut :
      (p : Page n) (seq : ℕ) → add_size p.publisher_cursor 1 ≡ seq → gap_is_open p seq ≡ false
  unfolding gap_is_open
  gap_shut p seq e = ground arith

  -- The writer of the slot behind the cursor moves it, by one where the next slot is of another lap.
  try_advance_one :
      (p : Page n) (seq : ℕ)
      → 0 < p.slot_count
      → add_size p.publisher_cursor 1 ≡ seq
      → ((slot p seq).ready ≡ true) × ((slot p seq).sequence ≡ seq)
      → can_advance (record p { publisher_cursor = seq }) ≡ false
      → try_advance_publisher p seq ≡ record p { publisher_cursor = seq }
  unfolding try_advance_publisher
  try_advance_one p seq pos e here stop = rw shut (
      ap (λ k. advance k p) fuel
      ∙ advance_once (p.slot_count - 1) p go halt
      ∙ ap (λ c. record p { publisher_cursor = c }) e)
    where
      fuel : suc p.slot_count ≡ suc (suc (p.slot_count - 1))
      fuel = omega arith

      shut : gap_is_open p seq ≡ false
      shut = gap_shut p seq e

      go : can_advance p ≡ true
      go = rw e (ground arith)

      halt : can_advance (record p { publisher_cursor = add_size p.publisher_cursor 1 }) ≡ false
      halt = rw e stop

  -- What a successful write leaves behind.
  unfoldable pub written_page : Page n → ℕ → TBuffer n → Page n
  written_page p rid payload =
      record (fill (record p { sequence = p.sequence + 1 }) p.sequence rid payload) {
        publisher_cursor = p.sequence;
      }

  stop_lem :
      (p : Page n) (next : ℕ)
      → add_size p.publisher_cursor 1 ≡ next
      → ((slot p next).ready ≡ true → (slot p next).sequence < next)
      → can_advance p ≡ false
  stop_lem p next e h = rw e (ground arith)

  is_full_lem :
      (p : Page n)
      → p.consumer_cursor ≤ p.sequence
      → p.sequence < p.consumer_cursor + p.slot_count
      → p.sequence < uint64_max
      → p.slot_count ≤ 2 ^ 62
      → is_full p ≡ false
  unfolding is_full
  is_full_lem p a b c d = ground arith

  -- A full page takes nothing.
  pub write_full :
      (p : Page n) (rid : ℕ) (payload : TBuffer n)
      → IsQuiet p
      → p.tombstoned ≡ false
      → p.sequence ≡ p.consumer_cursor + p.slot_count
      → write p rid payload ≡ some (uint64_max, p)
  unfolding write is_full
  write_full p rid payload q alive e = ground arith

  write_claims :
      (p : Page n) (rid : ℕ) (payload : TBuffer n)
      → p.tombstoned ≡ false
      → is_full p ≡ false
      → write p rid payload
        ≡ some (
          p.sequence,
          try_advance_publisher
              (fill (record p { sequence = add_size p.sequence 1 }) p.sequence rid payload)
              p.sequence,
        )
  unfolding write
  write_claims p rid payload alive room = cc

  pub write_quiet :
      {p : Page n} (rid : ℕ) (payload : TBuffer n)
      → IsQuiet p
      → p.tombstoned ≡ false
      → p.sequence + 1 < uint64_max
      → p.sequence < p.consumer_cursor + p.slot_count
      → write p rid payload ≡ some (p.sequence, written_page p rid payload)
  unfolding written_page
  write_quiet {p} rid payload q alive small room =
      write_claims p rid payload alive open_ring
      ∙ ap
          (λ k. some (
            p.sequence,
            try_advance_publisher (fill (record p { sequence = k }) p.sequence rid payload)
                p.sequence,
          ))
          next
      ∙ ap (λ r. some (p.sequence, r)) (try_advance_one filled p.sequence pos behind_us ready stop)
    where
      filled : Page n
      filled = fill (record p { sequence = p.sequence + 1 }) p.sequence rid payload

      open_ring : is_full p ≡ false
      open_ring = is_full_lem p q.behind room q.small q.short

      next : add_size p.sequence 1 ≡ p.sequence + 1
      next = omega (arith, small)

      some_slots : 0 < p.slot_count
      some_slots = omega (arith, q.behind)

      pos : 0 < filled.slot_count
      pos =
          rw (fill-slot_count (record p { sequence = p.sequence + 1 }) p.sequence rid payload)
            some_slots

      cursor : add_size p.publisher_cursor 1 ≡ p.sequence
      cursor = rw q.published (omega (arith, q.small))

      behind_us : add_size filled.publisher_cursor 1 ≡ p.sequence
      behind_us =
          rw (fill-publisher_cursor (record p { sequence = p.sequence + 1 }) p.sequence rid payload)
            cursor

      ready :
          ((slot filled p.sequence).ready ≡ true) × ((slot filled p.sequence).sequence ≡ p.sequence)
      ready =
          let f = fill_ready (record p { sequence = p.sequence + 1 }) p.sequence rid payload in
          (f.0, f.1)

      stop : can_advance (record filled { publisher_cursor = p.sequence }) ≡ false
      stop =
          stop_lem (record filled { publisher_cursor = p.sequence }) (p.sequence + 1) next
            (fill-past (record p { sequence = p.sequence + 1 }) p.sequence rid (p.sequence + 1)
              payload (q.past (p.sequence + 1)))

  -- Reading the slot of a number in the page that a write leaves behind.
  pub written_page-slot :
      (p : Page n) (rid s : ℕ) (payload : TBuffer n)
      → slot (written_page p rid payload) s
        ≡ slot (fill (record p { sequence = p.sequence + 1 }) p.sequence rid payload) s
  unfolding written_page fill
  written_page-slot p rid s payload = refl

  pub written_page-slot_old :
      {p : Page n} (rid s : ℕ) (payload : TBuffer n)
      → IsQuiet p
      → p.consumer_cursor ≤ s
      → s < p.sequence
      → p.sequence < p.consumer_cursor + p.slot_count
      → slot (written_page p rid payload) s ≡ slot p s
  written_page-slot_old {p} rid s payload q lo hi room =
      written_page-slot p rid s payload
      ∙ fill-slot_ne (record p { sequence = p.sequence + 1 }) p.sequence s rid payload
          (λ e. index_ne {p = p} s p.sequence q.geometry hi (omega arith) (sym e))

  -- The slot of `s` is ready under `s`.
  abbrev pub Holds : Page n → ℕ → Type 0
  Holds p s = ((slot p s).ready ≡ true) × ((slot p s).sequence ≡ s)

  written_page-Holds :
      {p : Page n} (rid s : ℕ) (payload : TBuffer n)
      → IsQuiet p
      → p.sequence < p.consumer_cursor + p.slot_count
      → p.consumer_cursor ≤ s
      → s < p.sequence + 1
      → Holds (written_page p rid payload) s
  written_page-Holds {p} rid s payload q room lo hi = elim (ℕ_discrete p.sequence s) [
    | yes e ↦ subst (Holds (written_page p rid payload)) e (rw new f.0)
    | no ne ↦
        rw (written_page-slot_old rid s payload q lo (omega arith) room)
          (q.written s lo (omega arith))
  ]
    where
      filled : Page n
      filled = fill (record p { sequence = p.sequence + 1 }) p.sequence rid payload

      new :
          slot (written_page p rid payload) p.sequence
          ≡ slot (fill (record p { sequence = p.sequence + 1 }) p.sequence rid payload) p.sequence
      new = written_page-slot p rid p.sequence payload

      f : Holds filled p.sequence × ((slot filled p.sequence).writer_rid ≡ rid)
      f =
          let g = fill_ready (record p { sequence = p.sequence + 1 }) p.sequence rid payload in
          ((g.0, g.1), g.2)

  pub write-IsQuiet :
      {p : Page n} (rid : ℕ) (payload : TBuffer n)
      → IsQuiet p
      → p.sequence + 1 < uint64_max
      → p.sequence < p.consumer_cursor + p.slot_count
      → IsQuiet (written_page p rid payload)
  unfolding written_page fill
  write-IsQuiet {p} rid payload q small room = record {
    geometry = record { bits = q.geometry.bits; count = q.geometry.count; mask = q.geometry.mask };
    short = q.short;
    published = omega arith;
    behind = omega arith;
    fits = omega arith;
    small = omega arith;
    written = λ s lo hi. written_page-Holds rid s payload q room lo hi;
    past = λ s h.
        fill-past (record p { sequence = p.sequence + 1 }) p.sequence rid s payload (q.past s) h;
  }

  pub mark_consumed-slot_ne :
      (p : Page n) (seq s : ℕ)
      → slot_index p seq ≢ slot_index p s
      → slot (mark_consumed p seq) s ≡ slot p s
  unfolding mark_consumed
  mark_consumed-slot_ne p seq s h = update_ne p.buffer (slot_index p seq) (slot_index p s) _ h

  mark_consumed-slot_self :
      (p : Page n) (seq s : ℕ)
      → slot_index p seq ≡ slot_index p s
      → (slot (mark_consumed p seq) s).ready ≡ false
  unfolding mark_consumed clear_ready
  mark_consumed-slot_self p seq s h =
      ground (arith, update_self p.buffer (slot_index p seq) (clear_ready (slot p seq)))

  mark_consumed-past :
      {p : Page n} (seq s : ℕ)
      → IsQuiet p
      → (slot (mark_consumed p seq) s).ready ≡ true
      → (slot (mark_consumed p seq) s).sequence < p.sequence
  mark_consumed-past {p} seq s q h = elim (ℕ_discrete (slot_index p seq) (slot_index p s)) [
    | yes e ↦ let no_more = mark_consumed-slot_self p seq s e in cc
    | no ne ↦ let same = mark_consumed-slot_ne p seq s ne in rw same (q.past s (rw same at h))
  ]

  pub mark_consumed-IsQuiet :
      {p : Page n}
      → IsQuiet p
      → p.consumer_cursor < p.sequence
      → IsQuiet (mark_consumed p p.consumer_cursor)
  unfolding mark_consumed
  mark_consumed-IsQuiet {p} q more = record {
    geometry = record { bits = q.geometry.bits; count = q.geometry.count; mask = q.geometry.mask };
    short = q.short;
    published = q.published;
    behind = omega arith;
    fits = omega arith;
    small = q.small;
    written = λ s lo hi.
        let above : p.consumer_cursor < s = omega arith in
        rw
          (mark_consumed-slot_ne p p.consumer_cursor s
            (index_ne {p = p} p.consumer_cursor s q.geometry above (omega arith)))
          (q.written s (omega arith) hi);
    past = λ s h. mark_consumed-past p.consumer_cursor s q h;
  }
