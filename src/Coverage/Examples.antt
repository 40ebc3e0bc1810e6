-- ===== src/Coverage/Examples.antt =====
-- The program's own tests of the tracker, and the theorems at their data.
use mavlink_companion_log_se.Base.{ℕ, ◌≡◌, refl, List, ◌∷◌, true, false, some, arith, replicate}
use mavlink_companion_log_se.Coverage.{Tracker, tracker_for, record_chunk, all_slots_received}
use mavlink_companion_log_se.Coverage.Invariant.{
  IsTracked, tracker_for-IsTracked, record_chunk-IsTracked,
}

abbrev zeros : List ℕ
zeros = replicate 90 0

abbrev two_slots : Tracker
unfolding tracker_for
two_slots = tracker_for 180

first_slot : Tracker
unfolding record_chunk
first_slot = (record_chunk two_slots 0 (some zeros) 90 true).0

conflict_run : (record_chunk first_slot 0 (some (1 ∷ zeros)) 90 true).1 ≡ false
unfolding first_slot record_chunk tracker_for
conflict_run = refl

both_run : all_slots_received (record_chunk first_slot 90 (some zeros) 90 true).0 ≡ true
unfolding first_slot record_chunk tracker_for all_slots_received
both_run = refl

first_slot-IsTracked : IsTracked first_slot
unfolding first_slot two_slots
first_slot-IsTracked =
    record_chunk-IsTracked (tracker_for 180) 0 (some zeros) 90 true
      (tracker_for-IsTracked 180 (omega arith))

record_chunk-IsTracked_example : IsTracked (record_chunk first_slot 90 (some zeros) 90 true).0
record_chunk-IsTracked_example =
    record_chunk-IsTracked first_slot 90 (some zeros) 90 true first_slot-IsTracked
