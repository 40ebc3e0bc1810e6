-- ===== src/Recorder/Examples.antt =====
-- A recording that is started and stopped, and one whose medium is pulled out.
use mavlink_companion_log_se.Base.{◌≡◌, refl, [], ◌∷◌, true, false, some}
use mavlink_companion_log_se.Recorder.{
  World, new_recorder, reap_if_exited, launch, is_recording, start, snapshot, media_lost,
  start_call, snapshot_call, call, calls,
}
use mavlink_companion_log_se.Recorder.Sound.{IsSound, calls-IsSound}

abbrev fine : World
fine = record {
  exited = false;
  media_writable = true;
  spawned = some 42;
  now = 1000;
  free_bytes = some 7;
}

abbrev pulled : World
pulled = record fine { exited = true; media_writable = false }

pulled_run :
    (calls (start_call fine ∷ snapshot_call pulled ∷ []) (new_recorder true 5)).last_crash_reason
    ≡ some media_lost
unfolding calls call start snapshot reap_if_exited launch is_recording
pulled_run = refl

calls-IsSound_example :
    IsSound (calls (start_call fine ∷ snapshot_call pulled ∷ []) (new_recorder true 5))
calls-IsSound_example = calls-IsSound (start_call fine ∷ snapshot_call pulled ∷ []) true 5
