-- ===== src/Command/WellFormed.antt =====
-- core/Command.h, what the parts of an accepted line satisfy.
use etcs.Base.{
  ℕ, suc, ◌+◌, ◌^◌, ◌<◌, ◌≡◌, refl, Bool, true, false, List, [], ◌∷◌, Option, none, some, ltb, ◌==◌,
  if◌then◌else◌, take, drop, arith,
}
use etcs.Base.Results.{Ensures, Ensures-if, Ensures-bind}
use etcs.Base.Strings.{
  Str, is_nil, every, is_word, is_space, is_digit, find_char, find_if, find_scope, is_blank,
}
use etcs.Command.{Command, CmdAction}
use etcs.Command.Names.{
  trim, is_scope, is_uppercase_start, is_lowercase_start, is_valid_local_name,
  is_valid_requires_tag, split_module_tag, scope_at,
}
use etcs.Command.Brackets.{find_closing_bracket}
use etcs.Command.Numbers.{
  stoull, skip_spaces, read_digits, in_range, read_number, negated, read_signed,
}
use etcs.Command.Calls.{
  DottedCall, Declaration, closed_at, dotted_at, bracket_at, declare_as, declare_at, bind_at,
  check_call, parse_dotted, parse_typed_declaration, parse_bindings,
}

abbrev pub IsMember : Str → Type 0
IsMember s = (is_nil s ≡ false) × (every is_word s ≡ true)

abbrev pub AreTags : List Str → Type 0
AreTags [] = Unit
AreTags (t ∷ ts) = (is_valid_requires_tag t ≡ true) × AreTags ts

abbrev pub AreBindings : List (Str × Str) → Type 0
AreBindings [] = Unit
AreBindings ((a, b) ∷ bs) =
    (is_valid_local_name a ≡ true) × (is_valid_local_name b ≡ true) × AreBindings bs

abbrev pub IsIndex : Option ℕ → Type 0
IsIndex none = Unit
IsIndex (some n) = n < 2 ^ 64

-- A stream names two module actions; a call that is none leaves the consumer empty.
abbrev pub IsConsumer : Bool → CmdAction → Type 0
IsConsumer true c =
    (is_uppercase_start c.action ≡ true)
    × (is_valid_local_name c.consumer_receiver ≡ true)
    × IsMember c.consumer_action
    × (is_uppercase_start c.consumer_action ≡ true)
IsConsumer false c =
    (is_lowercase_start c.action ≡ false)
    × (c.consumer_receiver ≡ [])
    × (c.consumer_action ≡ [])
    × (c.consumer_payload ≡ [])

-- Every name is valid, every type is in two upper-case parts, every tag of a list is one, an index
-- fits 64 bits, and actions, flags and bindings are as the grammar asks.
abbrev pub IsWellFormed : Command → Type 0
IsWellFormed (Command.requires c) = (is_valid_local_name c.name ≡ true) × AreTags c.tags
IsWellFormed (Command.acquire c) =
    (is_scope c.origin c.tag ≡ true) × (is_valid_local_name c.name ≡ true)
IsWellFormed (Command.child_acquire c) =
    (is_valid_local_name c.parent_name ≡ true)
    × (is_scope c.origin c.tag ≡ true)
    × (is_valid_local_name c.name ≡ true)
IsWellFormed (Command.action c) =
    (is_valid_local_name c.receiver ≡ true) × IsMember c.action × IsConsumer c.is_stream c
IsWellFormed (Command.kill c) = (is_valid_local_name c.receiver ≡ true) × IsIndex c.index
IsWellFormed (Command.unflag c) = (is_valid_local_name c.receiver ≡ true) × (is_nil c.flag ≡ false)
IsWellFormed (Command.detach c) = AreBindings c.bindings
IsWellFormed (Command.run c) = AreBindings c.bindings
IsWellFormed Command.exit = Unit

abbrev pub IsCall : DottedCall → Type 0
IsCall call = (is_valid_local_name call.receiver ≡ true) × IsMember call.member

abbrev pub IsDeclared : Declaration → Type 0
IsDeclared d = (is_scope d.origin d.tag ≡ true) × (is_valid_local_name d.name ≡ true)

pub parse_dotted-IsCall : (s : Str) → Ensures IsCall (parse_dotted s)
unfolding parse_dotted check_call
parse_dotted-IsCall s = bracketed (find_char b'(' s)
  where
    closed :
        (i : ℕ) (r m : Str) (close : Option ℕ)
        → is_valid_local_name r ≡ true
        → is_nil m ≡ false
        → every is_word m ≡ true
        → Ensures IsCall (closed_at s i r m close)
    closed i r m none valid full word = tt
    closed i r m (some close) valid full word =
        Ensures-if IsCall (every is_space (drop (suc close) s)) _ _ (λ e. (valid, (full, word)))
          (λ e. tt)

    checked : (i : ℕ) (r m : Str) → Ensures IsCall (check_call s i r m)
    checked i r m =
        Ensures-if IsCall (is_valid_local_name r) _ _
          (λ valid.
            Ensures-if IsCall (is_nil m) _ _ (λ e. tt)
              (λ full.
                Ensures-if IsCall (every is_word m) _ _
                  (λ word. closed i r m (find_closing_bracket s i) valid full word) (λ e. tt)))
          (λ e. tt)

    dotted : (i : ℕ) (dot : Option ℕ) → Ensures IsCall (dotted_at s i dot)
    dotted i none = tt
    dotted i (some dot) = Ensures-if IsCall (ltb i dot) _ _ (λ e. tt) (λ e. checked i _ _)

    bracketed : (i : Option ℕ) → Ensures IsCall (bracket_at s i)
    bracketed none = tt
    bracketed (some i) = dotted i (find_char b'.' s)

-- What is said of the pair that a split gives.
abbrev Splits : Option (Str × Str) → Type 0
Splits none = Unit
Splits (some (origin, tag)) = is_scope origin tag ≡ true

split_module_tag_scope : (s : Str) → Splits (split_module_tag s)
unfolding split_module_tag
split_module_tag_scope s = at (find_scope s)
  where
    when : (o t : Str) (b : Bool) → is_scope o t ≡ b → Splits (if b then some (o, t) else none)
    when o t true e = e
    when o t false e = tt

    at : (pos : Option ℕ) → Splits (scope_at s pos)
    at none = tt
    at (some pos) =
        when (take pos s) (drop (pos + 2) s) (is_scope (take pos s) (drop (pos + 2) s)) refl

pub parse_typed_declaration-IsDeclared : (s : Str) → Ensures IsDeclared (parse_typed_declaration s)
unfolding parse_typed_declaration
parse_typed_declaration-IsDeclared s = at (find_if is_blank s)
  where
    named :
        (scope name : Str) (p : Option (Str × Str))
        → Splits p
        → Ensures IsDeclared (declare_as scope name p)
    named scope name none h = tt
    named scope name (some (origin, tag)) h =
        Ensures-if IsDeclared (is_valid_local_name name) _ _ (λ e. (h, e)) (λ e. tt)

    at : (sp : Option ℕ) → Ensures IsDeclared (declare_at s sp)
    at none = tt
    at (some sp) =
        named (trim (take sp s)) (trim (drop (suc sp) s)) (split_module_tag (trim (take sp s)))
          (split_module_tag_scope (trim (take sp s)))

abbrev IsBinding : Str × Str → Type 0
IsBinding (a, b) = (is_valid_local_name a ≡ true) × (is_valid_local_name b ≡ true)

bind_at-IsBinding : (token : Str) (eq : Option ℕ) → Ensures IsBinding (bind_at token eq)
bind_at-IsBinding token none = tt
bind_at-IsBinding token (some eq) =
    Ensures-if IsBinding (is_valid_local_name (take eq token)) _ _
      (λ a.
        Ensures-if IsBinding (is_valid_local_name (drop (suc eq) token)) _ _ (λ b. (a, b))
          (λ e. tt))
      (λ e. tt)

pub parse_bindings-AreBindings : (tokens : List Str) → Ensures AreBindings (parse_bindings tokens)
unfolding parse_bindings
parse_bindings-AreBindings [] = tt
parse_bindings-AreBindings (token ∷ tokens) =
    Ensures-bind IsBinding AreBindings (bind_at token (find_char b'=' token)) _
      (bind_at-IsBinding token (find_char b'=' token))
      (λ (a, b) (va, vb).
        Ensures-bind AreBindings AreBindings (parse_bindings tokens) _
          (parse_bindings-AreBindings tokens) (λ bs h. (va, vb, h)))

-- A number that stoull reads fits 64 bits.
abbrev pub Fits : Option (ℕ × Str) → Type 0
Fits none = Unit
Fits (some (n, rest)) = n < 2 ^ 64

pub stoull-Fits : (s : Str) → Fits (stoull s)
unfolding stoull
stoull-Fits s = signed (skip_spaces s)
  where
    when :
        (n : ℕ) (rest : Str) (b : Bool)
        → ltb n (2 ^ 64) ≡ b
        → Fits (if b then some (n, rest) else none)
    when n rest true e = ground arith
    when n rest false e = tt

    digits : (r : Option (ℕ × Str)) (b : Bool) → Fits r → Fits (if b then r else none)
    digits r true h = h
    digits r false h = tt

    number : (t : Str) → Fits (read_number t)
    number [] = tt
    number (c ∷ t) = digits (in_range (read_digits 0 (c ∷ t))) (is_digit c) (
        when (read_digits 0 (c ∷ t)).0 (read_digits 0 (c ∷ t)).1
          (ltb (read_digits 0 (c ∷ t)).0 (2 ^ 64)) refl)

    minus : (r : Option (ℕ × Str)) → Fits (negated r)
    minus none = tt
    minus (some (n, rest)) = omega arith

    either : (x y : Option (ℕ × Str)) (b : Bool) → Fits x → Fits y → Fits (if b then x else y)
    either x y true h k = h
    either x y false h k = k

    signed : (t : Str) → Fits (read_signed t)
    signed [] = tt
    signed (c ∷ t) =
        either (negated (read_number t)) (if c == b'+' then read_number t else read_number (c ∷ t))
          (c == b'-') (minus (read_number t))
          (either (read_number t) (read_number (c ∷ t)) (c == b'+') (number t) (number (c ∷ t)))
