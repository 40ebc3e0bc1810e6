-- ===== src/Recorder/Sound.antt =====
-- What holds of the recorder after any calls.
use mavlink_companion_log_se.Base.{
  ℕ, ◌≡◌, refl, List, [], ◌∷◌, Bool, true, false, none, some, arith, inl, inr, ◌⊎◌,
}
use mavlink_companion_log_se.Recorder.{
  Recorder, World, new_recorder, is_recording, reap_if_exited, launch, start, stop, snapshot,
  started, already_recording, Call, start_call, stop_call, snapshot_call, call, calls,
}

-- While it records, no crash is reported; while it does not, no sync thread is left running.
abbrev pub IsSound : Recorder → Type 0
IsSound r =
    ((is_recording r ≡ false) ⊎ (r.last_crash_reason ≡ none))
    × ((is_recording r ≡ true) ⊎ (r.sync_active ≡ false))

reap_if_exited-IsSound : (w : World) (r : Recorder) → IsSound r → IsSound (reap_if_exited w r)
unfolding reap_if_exited is_recording
reap_if_exited-IsSound w r h = ground arith

start-IsSound : (w : World) (r : Recorder) → IsSound r → IsSound (start w r).0
unfolding start launch is_recording
start-IsSound w r h = let reaped = reap_if_exited-IsSound w r h in ground arith

stop-IsSound : (w : World) (r : Recorder) → IsSound r → IsSound (stop w r).0
unfolding stop is_recording
stop-IsSound w r h = let reaped = reap_if_exited-IsSound w r h in ground arith

call-IsSound : (c : Call) (r : Recorder) → IsSound r → IsSound (call c r)
unfolding call snapshot
call-IsSound (start_call w) r h = start-IsSound w r h
call-IsSound (stop_call w) r h = stop-IsSound w r h
call-IsSound (snapshot_call w) r h = reap_if_exited-IsSound w r h

calls-keep : (cs : List Call) (r : Recorder) → IsSound r → IsSound (calls cs r)
unfolding calls
calls-keep [] r h = h
calls-keep (c ∷ cs) r h = calls-keep cs (call c r) (call-IsSound c r h)

-- After any calls of `start`, `stop` and `snapshot`, whatever the system answers: while it records, the
-- recorder reports no crash, and while it does not, no periodic sync is left running.
pub calls-IsSound :
    (cs : List Call) (enabled : Bool) (interval : ℕ)
    → IsSound (calls cs (new_recorder enabled interval))
unfolding is_recording
calls-IsSound cs enabled interval =
    calls-keep cs (new_recorder enabled interval) (inl refl, inr refl)

-- Once a `start` has started a recording, as long as its process runs, another `start` reports the running
-- one and changes nothing; a `stop` interrupts exactly that process, and leaves nothing for a second `stop`.
pub start-stop :
    (w w' : World) (r : Recorder)
    → (start w r).1 ≡ started
    → w'.exited ≡ false
    → let s = (start w r).0 in
      (start w' s ≡ (s, already_recording))
      × ((stop w' s).1 ≡ true)
      × ((stop w' (stop w' s).0).1 ≡ false)
      × ((child : ℕ) × (w.spawned ≡ some child)
          × ((stop w' s).0.interrupted ≡ child ∷ r.interrupted))
unfolding start stop launch reap_if_exited is_recording
start-stop w w' r e running = (ground arith, ground arith, ground arith, ground arith)
