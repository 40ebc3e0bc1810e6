-- ===== src/Recorder.antt =====
-- src/VideoRecorder.cpp outside of Windows: the recorder's subprocess as its process id, and what the system
-- answers to a call as a `World`. The periodic sync and the watcher that kills are threads of their own and
-- not modelled; of the first the flag that stops it is.
pub mod Sound
mod Examples
use mavlink_companion_log_se.Base.{
  ℕ, ◌-◌, ◌/◌, List, [], ◌∷◌, Bool, true, false, not, ltb, Option, none, some, if◌then◌else◌,
}
use mavlink_companion_log_se.Base.Bits.{u32}

pub data StartResult : Type 0 where
  started already_recording disabled no_media failed : StartResult

pub data CrashReason : Type 0 where
  media_lost recorder_crashed : CrashReason

-- No process id is the source's -1.
pub record Recorder : Type 0 where
  pub enabled : Bool
  pub fsync_interval_sec : ℕ
  pub pid : Option ℕ
  pub start_time : ℕ
  pub last_crash_reason : Option CrashReason
  pub sync_active : Bool
  -- The processes that have been told to stop, the last first.
  pub interrupted : List ℕ

-- Whether the subprocess has exited, whether the medium can be written, the process that a spawn gives, the
-- clock in milliseconds, and the free bytes if they can be read.
pub record World : Type 0 where
  pub exited : Bool
  pub media_writable : Bool
  pub spawned : Option ℕ
  pub now : ℕ
  pub free_bytes : Option ℕ

pub record Snapshot : Type 0 where
  pub enabled : Bool
  pub active : Bool
  pub duration_sec : ℕ
  pub free_bytes : ℕ
  pub crash_reason : Option CrashReason

abbrev pub new_recorder : Bool → ℕ → Recorder
new_recorder enabled interval = record {
  enabled = enabled;
  fsync_interval_sec = interval;
  pid = none;
  start_time = 0;
  last_crash_reason = none;
  sync_active = false;
  interrupted = [];
}

unfoldable pub is_recording : Recorder → Bool
is_recording r = elim r.pid [ none ↦ false | some child ↦ true ]

unfoldable pub reap_if_exited : World → Recorder → Recorder
reap_if_exited w r = elim r.pid [
  | none ↦ r
  | some child ↦
      if w.exited
      then record r {
        last_crash_reason = some (if w.media_writable then recorder_crashed else media_lost);
        pid = none;
        sync_active = false;
      }
      else r
]

-- The end of `start`, from the spawn on.
unfoldable pub launch : World → Recorder → Recorder × StartResult
launch w r = elim w.spawned [
  | none ↦ (r, failed)
  | some child ↦ (
    record r {
      pid = some child;
      start_time = w.now;
      last_crash_reason = none;
      sync_active = if ltb 0 r.fsync_interval_sec then true else r.sync_active;
    },
    started,
  )
]

unfoldable pub start : World → Recorder → Recorder × StartResult
start w r =
    let reaped = reap_if_exited w r in
    if not r.enabled
    then (r, disabled)
    else if is_recording reaped
    then (reaped, already_recording)
    else if not w.media_writable
    then (reaped, no_media)
    else launch w reaped

unfoldable pub stop : World → Recorder → Recorder × Bool
stop w r =
    let reaped = reap_if_exited w r in
    elim reaped.pid [
      | none ↦ (reaped, false)
      | some child ↦ (
        record reaped { interrupted = child ∷ reaped.interrupted; sync_active = false; pid = none },
        true,
      )
    ]

unfoldable pub snapshot : World → Recorder → Recorder × Snapshot
snapshot w r =
    let reaped = reap_if_exited w r in
    (
      reaped,
      record {
        enabled = r.enabled;
        active = is_recording reaped;
        duration_sec = if is_recording reaped then u32 ((w.now - reaped.start_time) / 1000) else 0;
        free_bytes = elim w.free_bytes [ none ↦ 0 | some n ↦ n ];
        crash_reason = reaped.last_crash_reason;
      },
    )

pub data Call : Type 0 where
  start_call stop_call snapshot_call : World → Call

unfoldable pub call : Call → Recorder → Recorder
call (start_call w) r = (start w r).0
call (stop_call w) r = (stop w r).0
call (snapshot_call w) r = (snapshot w r).0

unfoldable pub calls : List Call → Recorder → Recorder
calls [] r = r
calls (c ∷ cs) r = calls cs (call c r)
