-- ===== src/Types.antt =====
-- include/mcls/Types.hpp: log entries, results and failure reasons.
use mavlink_companion_log_se.Base.{
  ℕ, Bool, true, false, ◌&&◌, ◌==◌, List, [], ◌∷◌, ◌≡◌, refl, arith,
}

pub record LogEntry : Type 0 where
  pub id : ℕ
  pub num_logs : ℕ
  pub last_log_num : ℕ
  pub time_utc : ℕ
  pub size : ℕ

-- Texts are the codes of their characters.
abbrev pub Text : Type 0
Text = List ℕ

unfoldable pub text_eq : Text → Text → Bool
text_eq [] [] = true
text_eq [] (b ∷ bs) = false
text_eq (a ∷ as') [] = false
text_eq (a ∷ as') (b ∷ bs) = a == b && text_eq as' bs

pub eq_of_text_eq : (s t : Text) → text_eq s t ≡ true → s ≡ t
unfolding text_eq
eq_of_text_eq [] [] e = refl
eq_of_text_eq [] (b ∷ bs) e = cc
eq_of_text_eq (a ∷ as') [] e = cc
eq_of_text_eq (a ∷ as') (b ∷ bs) e = ground (arith, eq_of_text_eq as' bs)

pub text_eq_refl : (s : Text) → text_eq s s ≡ true
unfolding text_eq
text_eq_refl [] = refl
text_eq_refl (a ∷ as') = ground (arith, text_eq_refl as')

pub record Candidate : Type 0 where
  pub sha256 : Text
  pub probe_sha256 : Text
  pub probe_bytes : ℕ
  pub filename : Text

pub data ArchiveResult : Type 0 where
  skipped_duplicate downloaded failed cancelled : ArchiveResult

pub data FailureReason : Type 0 where
  none log_data_timeout empty_payload no_progress incomplete_download verification_failed
        parse_failed reread_mismatch overlap_conflict storage_error cancelled transport_send_failed
        transport_closed link_timeout :
      FailureReason

-- include/mcls/ArchiveSummary.hpp.
pub data FcRereadMode : Type 0 where
  none sample full : FcRereadMode

unfoldable pub is_transport_failure : FailureReason → Bool
is_transport_failure FailureReason.transport_send_failed = true
is_transport_failure FailureReason.transport_closed = true
is_transport_failure FailureReason.link_timeout = true
is_transport_failure _ = false

pub record CycleResult : Type 0 where
  pub downloaded : ℕ
  pub skipped : ℕ
  pub failed : ℕ
  pub cancelled : ℕ
  pub all_archived : Bool
  pub last_failure_reason : FailureReason

abbrev pub empty_cycle : CycleResult
empty_cycle = record {
  downloaded = 0;
  skipped = 0;
  failed = 0;
  cancelled = 0;
  all_archived = false;
  last_failure_reason = FailureReason.none;
}
