-- ===== src/Buffer/RoundTrip.antt =====
-- Strings written by `operator<<` come back from `operator>>`, in order and unchanged.
use mathlib.Core.List.{append_assoc, append-nil}
use etcs.Base.{
  ℕ, zero, suc, ◌++◌, ◌+◌, ◌^◌, ◌<◌, ◌≤◌, ◌≡◌, refl, sym, ap, ◌∙◌, false, List, [], ◌∷◌, length,
  drop, if◌then◌else◌, arith, length-append, length-set, length-drop, leb, Bool-cases, inl, inr,
}
use etcs.Base.Memory.{sub_size, take-set_above, take-set_end}
use etcs.Buffer.{TBuffer}
use etcs.Buffer.Bounds.{IsValid}
use etcs.Buffer.TokenBounds.{InArray, put-InArray, insert_string-IsValid, extract_string-IsValid}
use etcs.Buffer.Contents.{contents, length-contents, drop-append, drop-drop}
use etcs.Buffer.Tokens.{
  put, put_escaped, end_token, insert_string, extract_string, quoted, token, unread, needs_escape,
  is_delimiter, delimiters_length,
}

-- What a string looks like inside its quotes.
abbrev pub escape : List ℕ → List ℕ
escape [] = []
escape (c ∷ cs) = if needs_escape c then 92 ∷ c ∷ escape cs else c ∷ escape cs

-- The whole token, with the blank behind it.
abbrev pub encode : List ℕ → List ℕ
encode val = b'"' ∷ (escape val ++ b'"' ∷ b' ' ∷ [])

-- The token without the blank.
abbrev front : List ℕ → List ℕ
front val = b'"' ∷ (escape val ++ b'"' ∷ [])

encode_lem : (val : List ℕ) → encode val ≡ front val ++ b' ' ∷ []
encode_lem val = ap (◌∷◌ b'"') (sym (append_assoc (escape val) (b'"' ∷ []) (b' ' ∷ [])))

quoted-plain :
    (c : ℕ) (xs acc : List ℕ) (cur : ℕ)
    → needs_escape c ≡ false
    → quoted b'"' (c ∷ xs) acc cur ≡ quoted b'"' xs (acc ++ c ∷ []) (cur + 1)
unfolding quoted
quoted-plain c [] acc cur h = ground arith
quoted-plain c (d ∷ xs) acc cur h = ground arith

quoted-close : (xs acc : List ℕ) (cur : ℕ) → quoted b'"' (b'"' ∷ xs) acc cur ≡ (acc, cur + 1)
unfolding quoted
quoted-close [] acc cur = refl
quoted-close (d ∷ xs) acc cur = refl

quoted-escaped :
    (c : ℕ) (xs acc : List ℕ) (cur : ℕ)
    → quoted b'"' (92 ∷ c ∷ xs) acc cur ≡ quoted b'"' xs (acc ++ c ∷ []) (cur + 2)
unfolding quoted
quoted-escaped c xs acc cur = refl

-- The loop over a quoted token undoes the escaping and stops behind the closing quote.
quoted-escape :
    (val rest acc : List ℕ) (cur : ℕ)
    → quoted b'"' (escape val ++ b'"' ∷ rest) acc cur ≡ (acc ++ val, cur + length (escape val) + 1)
quoted-escape [] rest acc cur = ground (arith, quoted-close rest acc cur, append-nil acc)
quoted-escape (c ∷ cs) rest acc cur = elim (Bool-cases (needs_escape c)) [
  | inl e ↦ rw e (
      ground (
        arith,
        quoted-escaped c (escape cs ++ b'"' ∷ rest) acc cur,
        quoted-escape cs rest (acc ++ c ∷ []) (cur + 2),
        append_assoc acc (c ∷ []) cs,
      ))
  | inr e ↦ rw e (
      ground (
        arith,
        quoted-plain c (escape cs ++ b'"' ∷ rest) acc cur e,
        quoted-escape cs rest (acc ++ c ∷ []) (cur + 1),
        append_assoc acc (c ∷ []) cs,
      ))
]

module _ {n : ℕ} where
  contents-put :
      {b : TBuffer n} (c : ℕ)
      → b.written < n
      → InArray b
      → contents (put b c) ≡ contents b ++ c ∷ []
  unfolding put
  contents-put {b} c h v = ground (arith, take-set_end b.buf b.written c)

  put-offset : (b : TBuffer n) (c : ℕ) → (put b c).read_offset ≡ b.read_offset
  unfolding put
  put-offset b c = refl

  -- A buffer with more bytes behind those that it held.
  pub record Appends (b : TBuffer n) (xs : List ℕ) (r : TBuffer n) : Type 0 where
    pub bytes : contents r ≡ contents b ++ xs
    pub count : r.written ≡ b.written + length xs
    pub offset : r.read_offset ≡ b.read_offset
    pub valid : InArray r

  pub Appends-append :
      {b r t : TBuffer n} (xs ys : List ℕ)
      → Appends b xs r
      → Appends r ys t
      → Appends b (xs ++ ys) t
  Appends-append {b} xs ys v w =
      ground (arith, append_assoc (contents b) xs ys, length-append xs ys)

  put-Appends : {b : TBuffer n} (c : ℕ) → b.written < n → InArray b → Appends b (c ∷ []) (put b c)
  put-Appends {b} c h v = record {
    bytes = contents-put c h v;
    count = (put-InArray c h v).1;
    offset = put-offset b c;
    valid = (put-InArray c h v).0;
  }

  room : (w : ℕ) → n < 2 ^ 63 → w + 3 < n → leb (sub_size n 3) w ≡ false
  room w h k = ground arith

  -- Where there is room for all of it, the loop appends the escaped string.
  put_escaped-Appends :
      (val : List ℕ) (b : TBuffer n)
      → b.written + length (escape val) + 3 ≤ n
      → InArray b
      → Appends b (escape val) (put_escaped b val)
  unfolding put_escaped
  put_escaped-Appends [] b h v = ground (arith, append-nil (contents b))
  put_escaped-Appends (c ∷ cs) b h v = elim (Bool-cases (needs_escape c)) [
    | inl e ↦
        let h' : b.written + suc (suc (length (escape cs))) + 3 ≤ n = rw e at h in
        let one = put-Appends {b = b} 92 (omega arith) v in
        let two = put-Appends {b = put b 92} c (omega (arith, one.count)) one.valid in
        let both = Appends-append (92 ∷ []) (c ∷ []) one two in
        let rest =
          put_escaped-Appends cs (put (put b 92) c) (omega (arith, both.count)) both.valid in
        rw (e, room b.written v.small (omega arith))
          (Appends-append (92 ∷ c ∷ []) (escape cs) both rest)
    | inr e ↦
        let h' : b.written + suc (length (escape cs)) + 3 ≤ n = rw e at h in
        let one = put-Appends {b = b} c (omega arith) v in
        let rest = put_escaped-Appends cs (put b c) (omega (arith, one.count)) one.valid in
        rw (e, room b.written v.small (omega arith)) (Appends-append (c ∷ []) (escape cs) one rest)
  ]

  pub end_token-Appends :
      {b : TBuffer n} → b.written + 2 ≤ n → InArray b → Appends b (b' ' ∷ []) (end_token b)
  unfolding end_token
  end_token-Appends {b} h v =
      let one = put-Appends {b = b} b' ' (omega arith) v in
      ground (
        arith,
        one,
        length-set (put b b' ').buf (b.written + 1) 0,
        take-set_above (put b b' ').buf (b.written + 1) (b.written + 1) 0,
      )

  -- A string that fits goes in as one token.
  pub insert_string-Appends :
      {b : TBuffer n} (val : List ℕ)
      → b.written + length (encode val) < n
      → b.written + 4 < n
      → InArray b
      → Appends b (encode val) (insert_string b val)
  unfolding insert_string
  insert_string-Appends {b} val h k v =
      let e = length-append (escape val) (b'"' ∷ b' ' ∷ []) in
      let open_quote = put-Appends {b = b} b'"' (omega arith) v in
      let inside =
        put_escaped-Appends val (put b b'"') (omega (arith, open_quote.count)) open_quote.valid in
      let start = Appends-append (b'"' ∷ []) (escape val) open_quote inside in
      let close_quote =
        put-Appends {b = put_escaped (put b b'"') val} b'"' (omega (arith, start.count))
          start.valid in
      let body = Appends-append (b'"' ∷ escape val) (b'"' ∷ []) start close_quote in
      let blank =
        end_token-Appends {b = put (put_escaped (put b b'"') val) b'"'}
          (omega (arith, start.count, close_quote.count)) close_quote.valid in
      rw (fits b.written v.small k)
        (rw (encode_lem val) (Appends-append (front val) (b' ' ∷ []) body blank))
    where
      fits : (w : ℕ) → n < 2 ^ 63 → w + 4 < n → leb (sub_size n 4) w ≡ false
      fits w h k = ground arith

  pub in_array : {b : TBuffer n} → IsValid b → InArray b
  in_array v = ground arith

  -- What has been written and not yet read grows by the token.
  pub unread-insert_string :
      {b : TBuffer n} (val : List ℕ)
      → b.written + length (encode val) < n
      → b.written + 4 < n
      → IsValid b
      → unread (insert_string b val) ≡ unread b ++ encode val
  unread-insert_string {b} val h k v = ground (
    arith,
    insert_string-Appends {b = b} val h k,
    drop-append b.read_offset (contents b) (encode val),
    length-contents v,
  )

-- The bytes behind a token do not begin with another delimiter.
abbrev pub Starts : List ℕ → Type 0
Starts [] = Unit {0}
Starts (c ∷ cs) = is_delimiter c ≡ false

pub delimiters_length-Starts : (rest : List ℕ) → Starts rest → delimiters_length (b' ' ∷ rest) ≡ 1
unfolding delimiters_length
delimiters_length-Starts [] h = refl
delimiters_length-Starts (c ∷ cs) h = ground arith

pub drop-length-append {ℓ} : {A : Type ℓ} (xs ys : List A) → drop (length xs) (xs ++ ys) ≡ ys
drop-length-append [] ys = refl
drop-length-append (x ∷ xs) ys = drop-length-append xs ys

token-front :
    (start : ℕ) (val rest : List ℕ)
    → token start (front val ++ rest) ≡ (val, start + length (front val))
unfolding token
token-front start val rest = ground (
  arith,
  append_assoc (escape val) (b'"' ∷ []) rest,
  quoted-escape val rest [] (start + 1),
  length-append (escape val) (b'"' ∷ []),
)

module _ {n : ℕ} where
  -- Taking a token off the front gives the string, and leaves what stands behind it.
  pub extract_string-encode :
      {b : TBuffer n} (val rest : List ℕ)
      → IsValid b
      → unread b ≡ encode val ++ rest
      → Starts rest
      → ((extract_string b).0 ≡ val)
        × (unread (extract_string b).1 ≡ rest)
        × ((extract_string b).1.written ≡ b.written)
  unfolding extract_string
  extract_string-encode {b} val rest v e h =
      ground (arith, more, tok, blank, behind, delimiters_length-Starts rest h)
    where
      here : unread b ≡ front val ++ b' ' ∷ rest
      here = e ∙ ap (λ t. t ++ rest) (encode_lem val) ∙ append_assoc (front val) (b' ' ∷ []) rest

      more : b.read_offset < b.written
      more = omega (
        arith,
        ap length here,
        length-append (front val) (b' ' ∷ rest),
        length-drop b.read_offset (contents b),
        length-contents v,
      )

      tok : token b.read_offset (unread b) ≡ (val, b.read_offset + length (front val))
      tok = rw here (token-front b.read_offset val (b' ' ∷ rest))

      blank : drop (b.read_offset + length (front val)) (contents b) ≡ b' ' ∷ rest
      blank =
          sym (drop-drop b.read_offset (length (front val)) (contents b))
          ∙ ap (drop (length (front val))) here
          ∙ drop-length-append (front val) (b' ' ∷ rest)

      behind : drop (b.read_offset + length (front val) + 1) (contents b) ≡ rest
      behind =
          sym (drop-drop (b.read_offset + length (front val)) 1 (contents b)) ∙ ap (drop 1) blank

abbrev pub encode_all : List (List ℕ) → List ℕ
encode_all [] = []
encode_all (v ∷ vs) = encode v ++ encode_all vs

encode_all-Starts : (vs : List (List ℕ)) → Starts (encode_all vs)
encode_all-Starts [] = tt
encode_all-Starts (v ∷ vs) = refl

-- A client that writes strings one after another, and one that takes as many.
abbrev pub insert_all : {n : ℕ} → TBuffer n → List (List ℕ) → TBuffer n
insert_all b [] = b
insert_all b (v ∷ vs) = insert_all (insert_string b v) vs

abbrev pub extract_all : {n : ℕ} → ℕ → TBuffer n → List (List ℕ) × TBuffer n
extract_all zero b = ([], b)
extract_all (suc k) b =
    let (v, b') = extract_string b in let (vs, b'') = extract_all k b' in (v ∷ vs, b'')

module _ {n : ℕ} where
  insert_all_lem :
      (vs : List (List ℕ)) (b : TBuffer n)
      → IsValid b
      → b.written + length (encode_all vs) + 2 < n
      → IsValid (insert_all b vs) × (unread (insert_all b vs) ≡ unread b ++ encode_all vs)
  insert_all_lem [] b v h = (v, sym (append-nil (unread b)))
  insert_all_lem (s ∷ vs) b v h =
      let size = length-append (encode s) (encode_all vs) in
      let body = length-append (escape s) (b'"' ∷ b' ' ∷ []) in
      let a = insert_string-Appends {b = b} s (omega arith) (omega arith) (in_array v) in
      let u = unread-insert_string {b = b} s (omega arith) (omega arith) v in
      let rest =
        insert_all_lem vs (insert_string b s) (insert_string-IsValid s (omega arith) v)
          (omega (arith, a.count)) in
      (
        rest.0,
        rest.1
            ∙ ap (λ t. t ++ encode_all vs) u
            ∙ append_assoc (unread b) (encode s) (encode_all vs),
      )

  extract_all_lem :
      (vs : List (List ℕ)) (b : TBuffer n)
      → IsValid b
      → unread b ≡ encode_all vs
      → ((extract_all (length vs) b).0 ≡ vs) × (unread (extract_all (length vs) b).1 ≡ [])
  extract_all_lem [] b v e = (refl, e)
  extract_all_lem (s ∷ vs) b v e =
      let one = extract_string-encode s (encode_all vs) v e (encode_all-Starts vs) in
      let rest = extract_all_lem vs (extract_string b).1 (extract_string-IsValid v) one.1 in
      (ground (arith, one, rest), rest.1)

  -- Strings of any bytes, quotes, backslashes, blanks and commas included, that are written one
  -- after another into a buffer with nothing unread and with room for their escaped forms, come
  -- back one by one in order, and then nothing is left unread.
  pub extract_all-insert_all :
      {b : TBuffer n} (vs : List (List ℕ))
      → IsValid b
      → unread b ≡ []
      → b.written + length (encode_all vs) + 2 < n
      → ((extract_all (length vs) (insert_all b vs)).0 ≡ vs)
        × (unread (extract_all (length vs) (insert_all b vs)).1 ≡ [])
  extract_all-insert_all {b} vs v e h =
      let w = insert_all_lem vs b v h in
      extract_all_lem vs (insert_all b vs) w.0 (w.1 ∙ ap (λ t. t ++ encode_all vs) e)
