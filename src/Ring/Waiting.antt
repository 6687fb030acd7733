-- ===== src/Ring/Waiting.antt =====
-- core/LMAXSequentialSharedPage.h, how long a thread that spins pauses, and the sizes of a page.
use etcs.Base.{
  ℕ, zero, suc, ◌+◌, ◌-◌, ◌*◌, ◌/◌, ◌^◌, ◌≤◌, ◌≡◌, refl, arith, Bool, true, false, ltb, ◌==◌,
  if◌then◌else◌,
}
use etcs.Base.Align.{align_up}
use Prim.Native.Nat.{bit_or}

pub data Pause : Type 0 where
  relaxation : Pause
  yielding : Pause
  sleeping : ℕ → Pause

-- The sleep's exponent: one more for each halving of `n`, and at most `limit`.
unfoldable pub sleep_shift : ℕ → ℕ → ℕ
sleep_shift zero n = 0
sleep_shift (suc limit) n = let rest = sleep_shift limit (n / 2) in if n == 0 then 0 else suc rest

-- `progressiveYield`, with the limits that the build sets.
module _ (hint_limit yield_limit sleep_max_shift : ℕ) where
  unfoldable pub pause : ℕ → Pause
  unfolding sleep_shift
  pause counter =
      if ltb counter (hint_limit / 4)
      then relaxation
      else if ltb counter yield_limit
      then yielding
      else sleeping (2 ^ sleep_shift sleep_max_shift ((counter - yield_limit) / 64))

  unfoldable pub next_counter : ℕ → ℕ
  next_counter counter = if ltb counter 1073741824 then suc counter else counter

-- `roundUpToPowerOfTwo`
unfoldable pub smear : ℕ → ℕ → ℕ
smear v shift = bit_or v (v / 2 ^ shift)

unfoldable pub round_up_to_power_of_two : ℕ → ℕ
unfolding smear
round_up_to_power_of_two v =
    if v == 0 then 1 else suc (smear (smear (smear (smear (smear (smear (v - 1) 1) 2) 4) 8) 16) 32)

-- The page's own fields, rounded up to the alignment of the slots.
unfoldable pub header_size : ℕ → ℕ → ℕ
header_size page_bytes slot_align = align_up page_bytes slot_align

unfoldable pub calculate_required_memory : ℕ → ℕ → ℕ → ℕ
calculate_required_memory header_bytes slot_size slot_count = header_bytes + slot_size * slot_count

sleep_shift_le : (limit n : ℕ) → sleep_shift limit n ≤ limit
unfolding sleep_shift
sleep_shift_le zero n = omega arith
sleep_shift_le (suc limit) n = ground (arith, sleep_shift_le limit (n / 2))

-- A pause of at most some length.
abbrev pub IsBounded : ℕ → Pause → Type 0
IsBounded limit relaxation = Unit
IsBounded limit yielding = Unit
IsBounded limit (sleeping microseconds) = (sh : ℕ) × (microseconds ≡ 2 ^ sh) × (sh ≤ limit)

-- Whatever the limits, a pause sleeps for a power of two of microseconds with at most the largest
-- exponent, and a counter of at most 2 ^ 30 stays so.
pub pause-IsBounded :
    (hint_limit yield_limit sleep_max_shift counter : ℕ)
    → counter ≤ 2 ^ 30
    → IsBounded sleep_max_shift (pause hint_limit yield_limit sleep_max_shift counter)
      × (next_counter hint_limit yield_limit sleep_max_shift counter ≤ 2 ^ 30)
unfolding pause next_counter
pause-IsBounded hint_limit yield_limit sleep_max_shift counter h =
    (choose (ltb counter (hint_limit / 4)) (ltb counter yield_limit), ground arith)
  where
    shift : ℕ
    shift = sleep_shift sleep_max_shift ((counter - yield_limit) / 64)

    choose :
        (early middle : Bool)
        → IsBounded sleep_max_shift
            (if early then relaxation else if middle then yielding else sleeping (2 ^ shift))
    choose true middle = tt
    choose false true = tt
    choose false false =
        (shift, refl, sleep_shift_le sleep_max_shift ((counter - yield_limit) / 64))
