-- ===== src/Command/Scans.antt =====
-- core/Command.h, what the scans for a closing bracket and for an arrow find in a printed call.
use etcs.Base.{
  ℕ, suc, ◌+◌, ◌<◌, ◌≡◌, refl, sym, subst, Bool, true, false, ◌||◌, [], ◌∷◌, ◌++◌, Option, none,
  some, ◌==◌, length, arith,
}
use etcs.Base.Strings.{Str, every, is_word, is_upper, is_lower, is_digit}
use etcs.Command.Brackets.{
  Scan, new_scan, is_plain, closes, is_arrow, read, read_quoted, closing_from, arrow_from,
  find_stream_arrow,
}

-- Read from here, no bracket of the payload closes the call, and the end is outside quotes with only
-- the call's own bracket open.
abbrev pub IsContent : Scan → Str → Type 0
IsContent t [] = (is_plain t ≡ true) × (t.opened ≡ suc t.closed)
IsContent t (c ∷ p) = (closes c t ≡ false) × IsContent (read c t) p

-- The scan behind the bracket that opens a call.
abbrev pub in_call : Scan
in_call = record { opened = 1; closed = 0; in_single = false; in_double = false; skip = false }

abbrev pub IsArgument : Str → Type 0
IsArgument p = IsContent in_call p

pub closing_from_content :
    (p : Str) (i : ℕ) (t : Scan) (rest : Str)
    → IsContent t p
    → closing_from (p ++ b')' ∷ rest) i t ≡ some (length p + i)
unfolding closing_from
closing_from_content [] i t rest (plain, deep) = ground arith
closing_from_content (c ∷ p) i t rest (stays, later) =
    ground (arith, closing_from_content p (suc i) (read c t) rest later)

read_word : (c : ℕ) (t : Scan) → is_plain t ≡ true → is_word c ≡ true → read c t ≡ t
unfolding read read_quoted is_word is_upper is_lower is_digit
read_word c t plain h = ground arith

-- A character that begins no arrow is passed over.
arrow_from_step :
    (c : ℕ) (s : Str) (i : ℕ) (t : Scan) (found : Option ℕ)
    → ((d : ℕ) → is_arrow c d t ≡ false)
    → arrow_from s (suc i) (read c t) ≡ found
    → arrow_from (c ∷ s) i t ≡ found
unfolding arrow_from
arrow_from_step c [] i t found e h = h
arrow_from_step c (d ∷ s) i t found e h = ground (arith, e d)

word_dash : (c : ℕ) (t : Scan) (d : ℕ) → is_word c ≡ true → is_arrow c d t ≡ false
unfolding is_word is_upper is_lower is_digit
word_dash c t d h = ground arith

-- A word has no arrow and leaves the scan.
pub arrow_from_word :
    (r s : Str) (i : ℕ) (t : Scan) (found : Option ℕ)
    → is_plain t ≡ true
    → every is_word r ≡ true
    → ((j : ℕ) → j ≡ length r + i → arrow_from s j t ≡ found)
    → arrow_from (r ++ s) i t ≡ found
unfolding every
arrow_from_word [] s i t found plain word h = h i (omega arith)
arrow_from_word (c ∷ r) s i t found plain word h =
    arrow_from_step c (r ++ s) i t found (λ d. word_dash c t d (ground arith))
      (subst (λ (u : Scan). arrow_from (r ++ s) (suc i) u ≡ found)
        (sym (read_word c t plain (ground arith)))
        (arrow_from_word r s (suc i) t found plain (ground arith) (λ j e. h j (omega arith))))

read_deep :
    (c : ℕ) (t : Scan)
    → t.closed < t.opened
    → closes c t ≡ false
    → (read c t).closed < (read c t).opened
unfolding read read_quoted
read_deep c t deep stays = ground arith

deep_no_arrow : (c d : ℕ) (t : Scan) → t.closed < t.opened → is_arrow c d t ≡ false
deep_no_arrow c d t deep = ground arith

-- Outside brackets and quotes.
abbrev pub IsTop : Scan → Type 0
IsTop t = (is_plain t ≡ true) × (t.opened ≡ t.closed)

read_close : (t : Scan) → is_plain t ≡ true → t.opened ≡ suc t.closed → IsTop (read b')' t)
unfolding read read_quoted
read_close t plain deep = (ground arith, ground arith)

-- Inside the brackets of a call the depth is never 0, and behind them it is.
pub arrow_from_content :
    (p rest : Str) (i : ℕ) (t : Scan) (found : Option ℕ)
    → t.closed < t.opened
    → IsContent t p
    → ((j : ℕ) (u : Scan) → j ≡ suc (length p + i) → IsTop u → arrow_from rest j u ≡ found)
    → arrow_from (p ++ b')' ∷ rest) i t ≡ found
arrow_from_content [] rest i t found deep (plain, own) h =
    arrow_from_step b')' rest i t found (λ d. deep_no_arrow b')' d t deep)
      (h (suc i) (read b')' t) (omega arith) (read_close t plain own))
arrow_from_content (c ∷ p) rest i t found deep (stays, later) h =
    arrow_from_step c (p ++ b')' ∷ rest) i t found (λ d. deep_no_arrow c d t deep)
      (arrow_from_content p rest (suc i) (read c t) found (read_deep c t deep stays) later
        (λ j u e top. h j u (omega arith) top))

-- A call, as it is written in a line, before what follows it.
abbrev pub call_then : Str → Str → Str → Str → Str
call_then receiver member payload rest =
    receiver ++ b'.' ∷ (member ++ b'(' ∷ (payload ++ b')' ∷ rest))

abbrev pub print_call : Str → Str → Str → Str
print_call receiver member payload = call_then receiver member payload []

arrow_from_call :
    (receiver member payload rest : Str) (found : Option ℕ)
    → every is_word receiver ≡ true
    → every is_word member ≡ true
    → IsArgument payload
    → ((j : ℕ) (u : Scan)
        → j ≡ length receiver + (length member + (length payload + 3))
        → IsTop u
        → arrow_from rest j u ≡ found)
    → find_stream_arrow (call_then receiver member payload rest) ≡ found
unfolding find_stream_arrow read read_quoted
arrow_from_call receiver member payload rest found r m content h =
    arrow_from_word receiver _ 0 new_scan found refl r (λ j e.
      arrow_from_step b'.' _ j new_scan found (λ d. refl)
        (arrow_from_word member _ (suc j) new_scan found refl m (λ k f.
          arrow_from_step b'(' _ k new_scan found (λ d. refl)
            (arrow_from_content payload rest (suc k) in_call found (omega arith) content
              (λ l u g top. h l u (omega arith) top)))))

pub find_stream_arrow_call :
    (receiver member payload : Str)
    → every is_word receiver ≡ true
    → every is_word member ≡ true
    → IsArgument payload
    → find_stream_arrow (print_call receiver member payload) ≡ none
unfolding arrow_from
find_stream_arrow_call receiver member payload r m content =
    arrow_from_call receiver member payload [] none r m content (λ j u e top. refl)

-- The arrow behind a call is found.
pub find_stream_arrow_between :
    (receiver member payload rest : Str)
    → every is_word receiver ≡ true
    → every is_word member ≡ true
    → IsArgument payload
    → find_stream_arrow (call_then receiver member payload (b'-' ∷ b'>' ∷ rest))
      ≡ some (length receiver + (length member + (length payload + 3)))
unfolding arrow_from
find_stream_arrow_between receiver member payload rest r m content =
    arrow_from_call receiver member payload (b'-' ∷ b'>' ∷ rest) _ r m content
      (λ j u e (plain, top). ground arith)

-- The characters of a declaration: words, colons and blanks.
unfoldable pub is_quiet : ℕ → Bool
unfolding is_word
is_quiet c = is_word c || (c == b':' || c == b' ')

read_quiet : (c : ℕ) (t : Scan) → is_plain t ≡ true → is_quiet c ≡ true → read c t ≡ t
unfolding read read_quoted is_quiet is_word is_upper is_lower is_digit
read_quiet c t plain h = ground arith

quiet_dash : (c d : ℕ) (t : Scan) → is_quiet c ≡ true → is_arrow c d t ≡ false
unfolding is_quiet is_word is_upper is_lower is_digit
quiet_dash c d t h = ground arith

quiet_stays : (c : ℕ) (t : Scan) → is_quiet c ≡ true → closes c t ≡ false
unfolding is_quiet is_word is_upper is_lower is_digit
quiet_stays c t h = ground arith

pub arrow_from_quiet : (s : Str) (i : ℕ) → every is_quiet s ≡ true → arrow_from s i new_scan ≡ none
unfolding every arrow_from
arrow_from_quiet [] i h = refl
arrow_from_quiet (c ∷ s) i h =
    arrow_from_step c s i new_scan none (λ d. quiet_dash c d new_scan (ground arith))
      (subst (λ (u : Scan). arrow_from s (suc i) u ≡ none)
        (sym (read_quiet c new_scan refl (ground arith)))
        (arrow_from_quiet s (suc i) (ground arith)))

pub quiet-IsArgument : (s : Str) → every is_quiet s ≡ true → IsArgument s
unfolding every
quiet-IsArgument [] h = (refl, refl)
quiet-IsArgument (c ∷ s) h = (
  quiet_stays c in_call (ground arith),
  subst (λ (u : Scan). IsContent u s) (sym (read_quiet c in_call refl (ground arith)))
      (quiet-IsArgument s (ground arith)),
)
