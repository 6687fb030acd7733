-- ===== src/Ring/Tests.antt =====
-- Runs of the sizes and pauses, and where their theorem applies.
use etcs.Base.{◌≡◌, refl}
use etcs.Ring.Waiting.{round_up_to_power_of_two}

round_up_run : round_up_to_power_of_two 100 ≡ 128
unfolding round_up_to_power_of_two
round_up_run = refl
