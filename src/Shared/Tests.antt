-- ===== src/Shared/Tests.antt =====
-- Runs of the shared pages, and where their theorems apply.
use etcs.Base.{ℕ, ◌+◌, ◌<◌, ◌≡◌, refl, arith, false, [], ◌∷◌, none, some}
use etcs.Base.Maps.{update}
use etcs.Shared.{SharedPage, begin_write}
use etcs.Shared.Race.{third, fourth, acquire_write_overlaps}
use etcs.Shared.Sequential.{SequentialSharedPage, allocate, write, acquire_read, append}
use etcs.Shared.Log.{IsLog, Written, write-IsLog, acquire_read-IsLog}

abbrev page : SharedPage
page = record {
  capacity = 100;
  written = 50;
  tombstoned = false;
  reader_rid = 7;
  producers_live = 2;
}

acquire_write_overlaps_example :
    ((begin_write page 60).0 ≡ none)
    × ((begin_write (begin_write page 60).1 10).0 ≡ none)
    × (x : ℕ) × (y : ℕ) × ((third page 60 10 20).0 ≡ some x)
    × ((fourth page 60 10 20 20).0 ≡ some y)
    × (x < y + 20)
    × (y < x + 20)
acquire_write_overlaps_example =
    acquire_write_overlaps page 60 10 20 20 refl (omega arith) (omega arith) (omega arith)
      (omega arith) (omega arith)

abbrev one : SequentialSharedPage
one = append (allocate 144 48 7) 3 (1 ∷ 2 ∷ [])

one-IsLog : IsLog one ((1 ∷ 2 ∷ []) ∷ [])
unfolding append allocate update
one-IsLog = record {
  chain = ((refl, refl, refl, refl), (refl, refl));
  within = omega arith;
  addressable = omega arith;
  live = refl;
}

write-IsLog_example : Written one ((1 ∷ 2 ∷ []) ∷ []) (5 ∷ []) (write one 4 (5 ∷ []))
write-IsLog_example = write-IsLog one 4 ((1 ∷ 2 ∷ []) ∷ []) (5 ∷ []) one-IsLog

acquire_read-IsLog_example : acquire_read one 0 ≡ some (some (1 ∷ 2 ∷ []))
acquire_read-IsLog_example = acquire_read-IsLog one ((1 ∷ 2 ∷ []) ∷ []) 0 one-IsLog
