-- ===== src/Mirror/WrapTests.antt =====
-- A payload that comes back through a wrapper: where the theorem applies.
use etcs.Base.{
  ℕ, ◌+◌, ◌-◌, ◌≡◌, refl, sym, ap, ap₂, ◌∙◌, arith, true, false, List, [], ◌∷◌, map, replicate,
  take, zero, suc, length-map,
}
use etcs.Base.Memory.{memcpy}
use etcs.Buffer.{TBuffer, new}
use etcs.Buffer.Bounds.{new-IsValid}
use etcs.Buffer.Contents.{contents}
use etcs.Buffer.TokenBounds.{InArray}
use etcs.Mirror.{ReadOutcome, gives}
use etcs.Mirror.Frames.{le_bytes}
use etcs.Mirror.Pipe.{Reader}
use etcs.Mirror.Chunks.{Awaits}
use etcs.Mirror.Wraps.{IWireWrapper, WrapChain, read_raw_pipe, wrap_all, stage_copy}
use etcs.Mirror.Unwrapped.{IsInverse, Unwraps, read_raw_pipe-wrapped}

take-map : (k : ℕ) (f : ℕ → ℕ) (xs : List ℕ) → take k (map f xs) ≡ map f (take k xs)
take-map zero f xs = refl
take-map (suc k) f [] = refl
take-map (suc k) f (x ∷ xs) = ap (◌∷◌ (f x)) (take-map k f xs)

-- A wrapper that counts each byte up by one.
abbrev up : IWireWrapper 24
up = record {
  wrap = λ b. record b { buf = map (λ c. c + 1) b.buf };
  unwrap = λ b. record b { buf = map (λ c. c - 1) b.buf };
  close = λ b. b;
}

back : (xs : List ℕ) → map (λ c. c - 1) (map (λ c. c + 1) xs) ≡ xs
back [] = refl
back (x ∷ xs) = let e : x + 1 - 1 ≡ x = omega arith in ap₂ ◌∷◌ e (back xs)

up-IsInverse : IsInverse up
up-IsInverse = record {
  reads = λ b c e.
      take-map b.written (λ x. x - 1) b.buf
      ∙ ap (map (λ x. x - 1)) e
      ∙ sym (take-map c.written (λ x. x - 1) c.buf);
  keeps = λ b v. record {
    size = length-map b.buf (λ x. x - 1) ∙ v.size;
    small = v.small;
    extent = v.extent;
    offset = v.offset;
  };
  undoes = λ b. ap (take b.written) (back b.buf);
}

abbrev original : TBuffer 6
original = record { buf = 97 ∷ 98 ∷ 99 ∷ 0 ∷ 0 ∷ 0 ∷ []; written = 3; read_offset = 0 }

original-InArray : InArray original
original-InArray = record {
  size = refl;
  small = omega arith;
  extent = omega arith;
  offset = omega arith;
}

abbrev chain : WrapChain 24
chain = record { is_producer = false; wrap_chain = up ∷ [] }

abbrev reader : Reader 24 24
reader = record {
  in_ = record { buf = replicate 24 0; written = 0; read_offset = 0 };
  out = new 24;
  read_fd = true;
  pipe = 3 ∷ 0 ∷ 0 ∷ 0 ∷ 0 ∷ 0 ∷ 0 ∷ 0 ∷ 98 ∷ 99 ∷ 100 ∷ 7 ∷ [];
}

reader-Awaits : Awaits (contents (wrap_all (up ∷ []) (stage_copy original))) (7 ∷ []) reader
unfolding wrap_all stage_copy le_bytes new memcpy
reader-Awaits = record {
  front = record { size = refl; small = omega arith; extent = omega arith; offset = omega arith };
  room = record { size = refl; small = omega arith; extent = omega arith; offset = omega arith };
  opened = refl;
  coming = refl;
}

abbrev eleven : List ReadOutcome
eleven = replicate 11 (gives 0)

read_raw_pipe-wrapped_example :
    Unwraps original (7 ∷ []) (read_raw_pipe eleven chain reader (new 6))
unfolding wrap_all stage_copy memcpy new
read_raw_pipe-wrapped_example =
    read_raw_pipe-wrapped eleven chain reader (new 6) original (7 ∷ []) refl (up-IsInverse, tt)
      (new-IsValid (omega arith) (omega arith)) original-InArray (omega arith) reader-Awaits
      (omega arith) refl (omega arith)
