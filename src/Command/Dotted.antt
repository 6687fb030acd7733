-- ===== src/Command/Dotted.antt =====
-- core/Command.h, parse_dotted on a printed call.
use etcs.Base.{
  ℕ, zero, suc, ◌+◌, ◌-◌, ◌≤◌, ◌≡◌, refl, sym, ap, ap₂, ◌∙◌, subst, Bool, true, false, not, [], ◌∷◌,
  ◌++◌, some, ltb, ◌==◌, if◌then◌else◌, length, take, drop, arith, length-append,
}
use etcs.Base.Results.{ok}
use etcs.Base.Strings.{Str, every, is_nil, is_word, is_space, find_char, substr}
use etcs.Base.Strings.Search.{
  every-append, every_weaken, find_if-append, take-append, drop-append, drop_next-append,
}
use etcs.Command.Names.{trim, is_valid_local_name}
use etcs.Command.Words.{word_dot, word_bracket, trim_word, name_words}
use etcs.Command.Brackets.{find_closing_bracket, closing_from, new_scan, read, read_quoted}
use etcs.Command.Scans.{IsArgument, in_call, closing_from_content, print_call}
use etcs.Command.WellFormed.{IsMember}
use etcs.Command.Calls.{DottedCall, parse_dotted, check_call, bracket_at, dotted_at, closed_at}

pub if_true {ℓ} : {A : Type ℓ} (b : Bool) (x y : A) → b ≡ true → (if b then x else y) ≡ x
if_true b x y e = ap (λ (c : Bool). if c then x else y) e

pub if_false {ℓ} : {A : Type ℓ} (b : Bool) (x y : A) → b ≡ false → (if b then x else y) ≡ y
if_false b x y e = ap (λ (c : Bool). if c then x else y) e

pub concat_assoc : (r : Str) (d : ℕ) (m x : Str) → (r ++ d ∷ m) ++ x ≡ r ++ d ∷ (m ++ x)
concat_assoc [] d m x = refl
concat_assoc (c ∷ r) d m x = ap (◌∷◌ c) (concat_assoc r d m x)

abbrev pub away : ℕ → ℕ → Bool
away d c = not (d == c)

pub away_find : (d c : ℕ) → away d c ≡ true → (d == c) ≡ false
away_find d c h = ground arith

word_away_bracket : (c : ℕ) → is_word c ≡ true → away b'(' c ≡ true
word_away_bracket c h = ground (arith, word_bracket c h)

word_away_dot : (c : ℕ) → is_word c ≡ true → away b'.' c ≡ true
word_away_dot c h = ground (arith, word_dot c h)

pub find_char-append :
    (d : ℕ) (s t : Str)
    → ((c : ℕ) → is_word c ≡ true → away d c ≡ true)
    → every is_word s ≡ true
    → find_char d (s ++ d ∷ t) ≡ some (length s)
find_char-append d s t apart h =
    find_if-append (◌==◌ d) (away d) s d t (away_find d) (every_weaken is_word (away d) apart s h)
      (ground arith)

drop_past : (s : Str) (n : ℕ) → length s ≤ n → drop n s ≡ []
drop_past [] zero h = refl
drop_past [] (suc n) h = refl
drop_past (c ∷ s) zero h = absurd (omega arith)
drop_past (c ∷ s) (suc n) h = drop_past s n (omega arith)

module _ (r m p : Str) where
  -- The name and the action.
  abbrev front : Str
  front = r ++ b'.' ∷ m

  abbrev behind : Str
  behind = p ++ b')' ∷ []

  print_call-front : front ++ b'(' ∷ behind ≡ print_call r m p
  print_call-front = concat_assoc r b'.' m (b'(' ∷ behind)

  find_bracket :
      every is_word r ≡ true
      → every is_word m ≡ true
      → find_char b'(' (print_call r m p) ≡ some (length front)
  unfolding every
  find_bracket word_r word_m =
      subst (λ (s : Str). find_char b'(' s ≡ some (length front)) print_call-front
        (find_if-append (◌==◌ b'(') (away b'(') front b'(' behind (away_find b'(')
          (every-append (away b'(') r (b'.' ∷ m)
            (every_weaken is_word (away b'(') word_away_bracket r word_r)
            (every_weaken is_word (away b'(') word_away_bracket m word_m))
          refl)

  pub find_dot : every is_word r ≡ true → find_char b'.' (print_call r m p) ≡ some (length r)
  find_dot word_r = find_char-append b'.' r (m ++ b'(' ∷ behind) word_away_dot word_r

  receiver_part : take (length r) (print_call r m p) ≡ r
  receiver_part = take-append r (b'.' ∷ (m ++ b'(' ∷ behind))

  length-front : length front - length r - 1 ≡ length m
  length-front = omega (arith, length-append r (b'.' ∷ m))

  member_part : substr (print_call r m p) (suc (length r)) (length front - length r - 1) ≡ m
  member_part =
      ap (take (length front - length r - 1)) (drop_next-append r b'.' (m ++ b'(' ∷ behind))
      ∙ (ap (λ n. take n (m ++ b'(' ∷ behind)) length-front ∙ take-append m (b'(' ∷ behind))

  find_closing :
      IsArgument p
      → find_closing_bracket (print_call r m p) (length front)
        ≡ some (length p + suc (length front))
  unfolding find_closing_bracket closing_from read read_quoted
  find_closing content =
      ap (λ s. closing_from s (length front) new_scan)
        (ap (drop (length front)) (sym print_call-front) ∙ drop-append front (b'(' ∷ behind))
      ∙ closing_from_content p (suc (length front)) in_call [] content

  payload_part :
      substr
        (print_call r m p)
        (suc (length front))
        (length p + suc (length front) - length front - 1)
      ≡ p
  payload_part =
      let size : length p + suc (length front) - length front - 1 ≡ length p = omega arith in
      ap₂ take size
        (ap (drop (suc (length front))) (sym print_call-front) ∙ drop_next-append front b'(' behind)
      ∙ take-append p (b')' ∷ [])

  behind_part : drop (suc (length p + suc (length front))) (print_call r m p) ≡ []
  behind_part =
      ap (drop (suc (length p + suc (length front)))) (sym print_call-front)
      ∙ drop_past (front ++ b'(' ∷ behind) (suc (length p + suc (length front)))
          (omega (arith, length-append front (b'(' ∷ behind), length-append p (b')' ∷ [])))

  abbrev call : DottedCall
  call = record { receiver = r; member = m; payload = p }

  close_call :
      trim p ≡ p
      → closed_at (print_call r m p) (length front) r m (some (length p + suc (length front)))
        ≡ ok call
  unfolding every
  close_call tidy =
      if_true (every is_space (drop (suc (length p + suc (length front))) (print_call r m p))) _ _
        (ap (every is_space) behind_part)
      ∙ ap (λ s. ok (record { receiver = r; member = m; payload = s }))
          (ap trim payload_part ∙ tidy)

  check_call_parts :
      is_valid_local_name r ≡ true
      → IsMember m
      → trim p ≡ p
      → IsArgument p
      → check_call (print_call r m p) (length front) r m ≡ ok call
  unfolding check_call
  check_call_parts valid (full, words) tidy content =
      if_true (is_valid_local_name r) _ _ valid
      ∙ (if_false (is_nil m) _ _ full
          ∙ (if_true (every is_word m) _ _ words
              ∙ (ap (closed_at (print_call r m p) (length front) r m) (find_closing content)
                  ∙ close_call tidy)))

  dotted_parts :
      is_valid_local_name r ≡ true
      → IsMember m
      → trim p ≡ p
      → IsArgument p
      → dotted_at (print_call r m p) (length front) (some (length r)) ≡ ok call
  dotted_parts valid (full, words) tidy content =
      let line = print_call r m p in
      if_false (ltb (length front) (length r)) _ _ (ground (arith, length-append r (b'.' ∷ m)))
      ∙ (ap₂ (check_call line (length front))
            (ap trim receiver_part ∙ trim_word r (name_words r valid))
            (ap trim member_part ∙ trim_word m words)
          ∙ check_call_parts valid (full, words) tidy content)

-- A dotted call that is written with a valid name, an action of word characters, and a payload that
-- is trimmed and has its brackets and quotes balanced, is read back as these three.
pub parse_dotted-print_call :
    (receiver member payload : Str)
    → is_valid_local_name receiver ≡ true
    → IsMember member
    → trim payload ≡ payload
    → IsArgument payload
    → parse_dotted (print_call receiver member payload)
      ≡ ok (record { receiver = receiver; member = member; payload = payload })
unfolding parse_dotted
parse_dotted-print_call r m p valid (full, words) tidy content =
    let line = print_call r m p in
    ap (bracket_at line) (find_bracket r m p (name_words r valid) words)
    ∙ (ap (dotted_at line (length (front r m p))) (find_dot r m p (name_words r valid))
        ∙ dotted_parts r m p valid (full, words) tidy content)
