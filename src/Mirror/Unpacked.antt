-- ===== src/Mirror/Unpacked.antt =====
-- core/MirrorBuffer.h, `unpack` on what `packConsumer` or `packProducer` wrote.
use mathlib.Core.List.{append_assoc}
use etcs.Base.{
  ℕ, ◌-◌, ◌≤◌, ◌≡◌, refl, ap, ap₂, ◌∙◌, Bool, true, false, List, [], ◌∷◌, ◌++◌, ◌==◌, if◌then◌else◌,
  length, arith,
}
use etcs.Base.Memory.{c_str}
use etcs.Buffer.{TBuffer}
use etcs.Buffer.Bounds.{IsValid}
use etcs.Buffer.Tokens.{unread, extract_string}
use etcs.Buffer.Numbers.{ℤ, pos, extract_uint, extract_int, extract_bool}
use etcs.Buffer.RoundTrip.{Starts}
use etcs.Buffer.Mixed.{
  Value, uint, int, flag, text, encode_value, encode_values, AllInRange, same_kind, extract_value,
}
use etcs.Buffer.Reading.{Taken, extract_value_lem, encode_values-Starts}
use etcs.Mirror.Packing.{WrapStageIdentity, mask_words, stage_values, extract_words, unpack_stages}

uint_of : Value → ℕ
uint_of (uint v) = v
uint_of v = 0

int_value : Value → ℤ
int_value (int v) = v
int_value v = pos 0

flag_of : Value → Bool
flag_of (flag v) = v
flag_of v = false

text_of : Value → List ℕ
text_of (text v) = v
text_of v = []

-- A name without a zero byte in it.
abbrev pub IsName : List ℕ → Type 0
IsName s = c_str s ≡ s

abbrev pub AreNames : List WrapStageIdentity → Type 0
AreNames [] = Unit {0}
AreNames ((name, tag) ∷ stages) = IsName name × IsName tag × AreNames stages

module _ {m : ℕ} (rest : List ℕ) (st : Starts rest) where
  -- The next value of a sequence is taken, and the others stand in front.
  next_lem :
      {b : TBuffer m} (old v : Value) (vs : List Value)
      → same_kind old v ≡ true
      → AllInRange (v ∷ vs)
      → IsValid b
      → unread b ≡ encode_values (v ∷ vs) ++ rest
      → Taken v (encode_values vs ++ rest) (extract_value old b)
  next_lem old v vs k a valid e =
      extract_value_lem old v (encode_values vs ++ rest) k a.0 valid
        (e ∙ append_assoc (encode_value v) (encode_values vs) rest)
        (encode_values-Starts vs rest a.1 st)

  pub next_uint :
      {b : TBuffer m} (old v : ℕ) (vs : List Value)
      → AllInRange (uint v ∷ vs)
      → IsValid b
      → unread b ≡ encode_values (uint v ∷ vs) ++ rest
      → Taken v (encode_values vs ++ rest) (extract_uint b old)
  unfolding uint_of
  next_uint old v vs a valid e =
      let t = next_lem (uint old) (uint v) vs refl a valid e in (ap uint_of t.0, t.1, t.2)

  pub next_int :
      {b : TBuffer m} (old v : ℤ) (vs : List Value)
      → AllInRange (int v ∷ vs)
      → IsValid b
      → unread b ≡ encode_values (int v ∷ vs) ++ rest
      → Taken v (encode_values vs ++ rest) (extract_int b old)
  unfolding int_value
  next_int old v vs a valid e =
      let t = next_lem (int old) (int v) vs refl a valid e in (ap int_value t.0, t.1, t.2)

  pub next_flag :
      {b : TBuffer m} (v : Bool) (vs : List Value)
      → AllInRange (flag v ∷ vs)
      → IsValid b
      → unread b ≡ encode_values (flag v ∷ vs) ++ rest
      → Taken v (encode_values vs ++ rest) (extract_bool b)
  unfolding flag_of
  next_flag v vs a valid e =
      let t = next_lem (flag false) (flag v) vs refl a valid e in (ap flag_of t.0, t.1, t.2)

  next_text :
      {b : TBuffer m} (v : List ℕ) (vs : List Value)
      → AllInRange (text v ∷ vs)
      → IsValid b
      → unread b ≡ encode_values (text v ∷ vs) ++ rest
      → Taken v (encode_values vs ++ rest) (extract_string b)
  unfolding text_of
  next_text v vs a valid e =
      let t = next_lem (text []) (text v) vs refl a valid e in (ap text_of t.0, t.1, t.2)

  pub words_lem :
      (olds ws : List ℕ) (vs : List Value) (b : TBuffer m)
      → length olds ≡ length ws
      → AllInRange (mask_words ws ++ vs)
      → IsValid b
      → unread b ≡ encode_values (mask_words ws ++ vs) ++ rest
      → Taken ws (encode_values vs ++ rest) (extract_words olds b) × AllInRange vs
  words_lem [] [] vs b k a valid e = ((refl, e, valid), a)
  words_lem [] (w ∷ ws) vs b k a valid e = absurd (omega arith)
  words_lem (old ∷ olds) [] vs b k a valid e = absurd (omega arith)
  words_lem (old ∷ olds) (w ∷ ws) vs b k a valid e =
      let one = next_uint old w (mask_words ws ++ vs) a valid e in
      let more = words_lem olds ws vs (extract_uint b old).1 (omega arith) a.1 one.2 one.1 in
      ((ap₂ ◌∷◌ one.0 more.0.0, more.0.1, more.0.2), more.1)

  pub stages_lem :
      (stages : List WrapStageIdentity) (room : ℕ) (b : TBuffer m)
      → length stages ≤ room
      → AreNames stages
      → AllInRange (stage_values stages)
      → IsValid b
      → unread b ≡ encode_values (stage_values stages) ++ rest
      → Taken stages rest (unpack_stages (length stages) room b)
  stages_lem [] room b h z a valid e = (refl, e, valid)
  stages_lem ((name, tag) ∷ stages) room b h z a valid e =
      let one = next_text name (text tag ∷ stage_values stages) a valid e in
      let two = next_text tag (stage_values stages) a.1 one.2 one.1 in
      let more =
        stages_lem stages (room - 1) (extract_string (extract_string b).1).1 (omega arith) z.2 a.1.1
          two.2 two.1 in
      let some_room : (room == 0) ≡ false = ground (arith, h) in
      let first = extract_string b in
      let later = unpack_stages (length stages) (room - 1) (extract_string first.1).1 in
      (
        ap
              (λ none_left.
                if none_left
                then later.0
                else (c_str first.0, c_str (extract_string first.1).0) ∷ later.0)
              some_room
            ∙ ap₂ ◌∷◌ (ap₂ (λ x y. (c_str x, c_str y)) one.0 two.0 ∙ ap₂ (λ x y. (x, y)) z.0 z.1)
                more.0,
        more.1,
        more.2,
      )
