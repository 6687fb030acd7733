-- ===== src/Command/Words.antt =====
-- core/Command.h, names and trimmed strings: what the searches of a line find around them.
use etcs.Base.{
  ℕ, suc, ◌+◌, ◌-◌, ◌≡◌, refl, ap, ◌∙◌, true, false, not, [], ◌∷◌, ◌++◌, some, ◌==◌, length, take,
  arith, length-append,
}
use etcs.Base.Strings.{
  Str, every, is_word, is_blank, is_text, is_upper, is_lower, is_digit, find_if, find_last_if,
  or_here,
}
use etcs.Base.Strings.Search.{find_last_if-append, take_all, every_weaken}
use etcs.Command.Names.{trim, trim_from, trim_to, is_valid_local_name}

-- The punctuation of a line is in no name.
pub word_text : (c : ℕ) → is_word c ≡ true → is_blank c ≡ false
unfolding is_word is_blank is_upper is_lower is_digit
word_text c h = ground arith

pub word_dot : (c : ℕ) → is_word c ≡ true → (c == b'.') ≡ false
unfolding is_word is_upper is_lower is_digit
word_dot c h = ground arith

pub word_bracket : (c : ℕ) → is_word c ≡ true → (c == b'(') ≡ false
unfolding is_word is_upper is_lower is_digit
word_bracket c h = ground arith

pub word_colon : (c : ℕ) → is_word c ≡ true → (c == b':') ≡ false
unfolding is_word is_upper is_lower is_digit
word_colon c h = ground arith

trim_whole :
    (s : Str) (e : ℕ)
    → find_if is_text s ≡ some 0
    → find_last_if is_text s ≡ some e
    → suc e ≡ length s
    → trim s ≡ s
unfolding trim
trim_whole s e first last size =
    let whole : suc (e - 0) ≡ length s = omega (arith, size) in
    ap (trim_from s) first ∙ (ap (trim_to s 0) last ∙ (ap (λ n. take n s) whole ∙ take_all s))

length-concat : (s : Str) (d : ℕ) → suc (length s) ≡ length (s ++ d ∷ [])
length-concat [] d = refl
length-concat (c ∷ s) d = ap suc (length-concat s d)

-- A string that begins and ends with text stays.
pub trim-ends :
    (c : ℕ) (s : Str) (d : ℕ)
    → is_blank c ≡ false
    → is_blank d ≡ false
    → trim (c ∷ (s ++ d ∷ [])) ≡ c ∷ (s ++ d ∷ [])
unfolding find_if
trim-ends c s d h k =
    trim_whole (c ∷ (s ++ d ∷ [])) (suc (length s)) (ground arith)
      (find_last_if-append is_text (c ∷ s) d (ap not k)) (ap suc (length-concat s d))

find_last_if-every :
    (c : ℕ) (s : Str)
    → every is_text (c ∷ s) ≡ true
    → find_last_if is_text (c ∷ s) ≡ some (length s)
unfolding every find_last_if
find_last_if-every c [] h = ground arith
find_last_if-every c (d ∷ s) h = ap (or_here (is_text c)) (find_last_if-every d s (ground arith))

-- A string without blanks stays.
pub trim_text : (s : Str) → every is_text s ≡ true → trim s ≡ s
unfolding every find_if trim
trim_text [] h = refl
trim_text (c ∷ s) h = trim_whole (c ∷ s) (length s) (ground arith) (find_last_if-every c s h) refl

word_not_blank : (c : ℕ) → is_word c ≡ true → is_text c ≡ true
word_not_blank c h = ap not (word_text c h)

pub trim_word : (s : Str) → every is_word s ≡ true → trim s ≡ s
trim_word s h = trim_text s (every_weaken is_word is_text word_not_blank s h)

-- What a valid name has.
pub name_words : (s : Str) → is_valid_local_name s ≡ true → every is_word s ≡ true
unfolding is_valid_local_name
name_words s h = ground arith

find_last_if-words :
    (s : Str) (d : ℕ) (t : Str)
    → every is_text (d ∷ t) ≡ true
    → find_last_if is_text (s ++ d ∷ t) ≡ some (length s + length t)
unfolding find_last_if
find_last_if-words [] d t h =
    let same : length t ≡ 0 + length t = omega arith in find_last_if-every d t h ∙ ap some same
find_last_if-words (c ∷ s) d t h =
    let next : suc (length s + length t) ≡ suc (length s) + length t = omega arith in
    ap (or_here (is_text c)) (find_last_if-words s d t h) ∙ ap some next

-- A string that begins with text and ends with a name stays.
pub trim-name :
    (c : ℕ) (s n : Str)
    → is_blank c ≡ false
    → is_valid_local_name n ≡ true
    → trim (c ∷ (s ++ n)) ≡ c ∷ (s ++ n)
unfolding find_if is_valid_local_name
trim-name c s [] h valid = absurd (cc)
trim-name c s (d ∷ t) h valid =
    trim_whole (c ∷ (s ++ d ∷ t)) (suc (length s) + length t) (ground arith)
      (find_last_if-words (c ∷ s) d t
        (every_weaken is_word is_text word_not_blank (d ∷ t) (name_words (d ∷ t) valid)))
      (omega (arith, length-append s (d ∷ t)))

-- The string has a first character, which is no blank.
abbrev pub StartsWithText : Str → Type 0
StartsWithText s = (c : ℕ) × ((w : Str) × ((s ≡ c ∷ w) × (is_blank c ≡ false)))

pub name-StartsWithText : (s : Str) → is_valid_local_name s ≡ true → StartsWithText s
unfolding is_valid_local_name every
name-StartsWithText [] valid = absurd (cc)
name-StartsWithText (c ∷ s) valid = (c, (s, (refl, word_text c (ground arith))))
