-- ===== src/Reread/Archived.antt =====
-- `archiveOne` of src/LogDownloader.cpp over the sample re-read: what a reported download has been compared with.
use mavlink_companion_log_se.Base.{
  ℕ, suc, ◌+◌, ◌^◌, ◌≤◌, ◌<◌, ◌≡◌, sym, ap, ◌∙◌, subst, List, [], ◌∷◌, Bool, true, false, none,
  some, length, get_elem?, drop, get_elem?-drop, length-take, length-drop, arith, inl, inr,
}
use mavlink_companion_log_se.Base.Run.{finished, Upto}
use mavlink_companion_log_se.Types.{Text, LogEntry, ArchiveResult, FcRereadMode}
use mavlink_companion_log_se.LogProtocol.{chunk_size}
use mavlink_companion_log_se.FcSample.{build_fc_sample_offsets}
use mavlink_companion_log_se.FcSample.Offsets.{Samples, build_fc_sample_offsets_lem}
use mavlink_companion_log_se.LogDownloader.Inbox.{Inbox, clear_data_chunks}
use mavlink_companion_log_se.LogDownloader.Archive.{
  Settings, Answers, Downloader, verify_fc_sample_reread, archive_one,
}
use mavlink_companion_log_se.LogDownloader.Verified.{
  was_downloaded, was_skipped, was_kept, archive_one-Outcome,
}
use mavlink_companion_log_se.StreamDownload.Filled.{get_elem?-take}
use mavlink_companion_log_se.Reread.{
  RereadSettings, Outside, reread_loop, reread_sample, verify_fc_reread,
}
use mavlink_companion_log_se.Reread.Sampled.{Matches, AllMatch, PassesIf, reread_loop-AllMatch}
use mavlink_companion_log_se.Reread.Waited.{AllAsksCarry}

-- The offsets that the settings choose for a log.
abbrev pub sampled : RereadSettings → LogEntry → Text → List ℕ
sampled cfg entry sha256 =
    build_fc_sample_offsets entry.size cfg.sample_count entry.id entry.size sha256

-- The file has the whole chunk of the log at an offset.
abbrev pub HasChunk : (ℕ → ℕ) → List ℕ → ℕ → Type 0
HasChunk log file x = (i : ℕ) → i < chunk_size → get_elem? file (x + i) ≡ some (log (x + i))

abbrev pub HasChunks : (ℕ → ℕ) → List ℕ → List ℕ → Type 0
HasChunks log file [] = Unit {0}
HasChunks log file (x ∷ xs) = HasChunk log file x × HasChunks log file xs

Matches-HasChunk :
    (log : ℕ → ℕ) (signed_char : Bool) (file : List ℕ) (x : ℕ)
    → x + chunk_size ≤ length file
    → Matches log signed_char file x
    → HasChunk log file x
Matches-HasChunk log signed_char file x inside m i lt =
    let len = length-take chunk_size (drop x file) in
    sym (get_elem?-drop x i file)
    ∙ sym (get_elem?-take chunk_size i (drop x file) lt)
    ∙ m.0 i (omega (arith, len, length-drop x file))

AllMatch-HasChunks :
    (log : ℕ → ℕ) (signed_char : Bool) (file : List ℕ) (lo : ℕ) (xs : List ℕ)
    → Samples (length file) lo xs
    → AllMatch log signed_char file xs
    → HasChunks log file xs
AllMatch-HasChunks log signed_char file lo [] s m = tt
AllMatch-HasChunks log signed_char file lo (x ∷ xs) s m = (
  Matches-HasChunk log signed_char file x s.1 m.0,
  AllMatch-HasChunks log signed_char file (suc x) xs s.3 m.1,
)

sample-AllMatch :
    (log : ℕ → ℕ) (max_queued id : ℕ) (o : Outside) (file : List ℕ) (q : Inbox) (xs : List ℕ)
    → AllAsksCarry log id o.asks
    → o.file ≡ some file
    → PassesIf (AllMatch log o.signed_char file xs) (elim xs [
      | [] ↦ finished (q, true)
      | x ∷ xs ↦ elim o.file [
        | none ↦ finished (q, false)
        | some file ↦
            reread_loop o.signed_char max_queued id file (x ∷ xs) o.asks true (clear_data_chunks q)
      ]
    ])
unfolding clear_data_chunks
sample-AllMatch log max_queued id o file q [] carry opens = λ e. tt
sample-AllMatch log max_queued id o file q (x ∷ xs) carry opens =
    rw (opens, Upto)
      (reread_loop-AllMatch log o.signed_char max_queued id file (x ∷ xs) o.asks true
        (clear_data_chunks q) carry tt)

-- Whatever the schedule of the answers, if they carry bytes of the log: a sample re-read that passes has the file
-- match at each sampled offset.
pub verify_fc_reread-AllMatch :
    (log : ℕ → ℕ) (cfg : RereadSettings) (entry : LogEntry) (sha256 : Text) (o : Outside)
    (file : List ℕ) (q : Inbox)
    → cfg.verify_fc_reread ≡ FcRereadMode.sample
    → AllAsksCarry log entry.id o.asks
    → o.file ≡ some file
    → PassesIf
        (AllMatch log o.signed_char file (sampled cfg entry sha256))
        (verify_fc_reread cfg entry sha256 o q)
unfolding verify_fc_reread reread_sample
verify_fc_reread-AllMatch log cfg entry sha256 o file q mode carry opens =
    rw (mode, Upto, verify_fc_reread)
      (sample-AllMatch log cfg.timing.max_queued_log_data entry.id o file q
        (sampled cfg entry sha256) carry opens)

reread_answer :
    (cfg : Settings) (a : Answers)
    → cfg.verify_fc_reread ≡ FcRereadMode.sample
    → verify_fc_sample_reread cfg a ≡ true
    → a.rereads ≡ true
unfolding verify_fc_sample_reread
reread_answer cfg a mode passed =
    sym (ap (λ m. elim m [ FcRereadMode.none ↦ true | _ ↦ a.rereads ]) mode) ∙ passed

-- Where the re-read samples and its answers carry bytes of the log: if `archiveOne` reports a download after
-- that re-read of a file as long as the log's entry says, below 2 ^ 32 bytes, then the file has the bytes of the log
-- at each sampled offset, 90 of them.
pub archive_one-reread :
    (log : ℕ → ℕ) (rereads : RereadSettings) (cfg : Settings) (a : Answers) (entry : LogEntry)
    (o : Outside) (file : List ℕ) (d : Downloader) (q q' : Inbox)
    → rereads.verify_fc_reread ≡ FcRereadMode.sample
    → cfg.verify_fc_reread ≡ FcRereadMode.sample
    → AllAsksCarry log entry.id o.asks
    → o.file ≡ some file
    → length file ≡ entry.size
    → entry.size < 2 ^ 32
    → verify_fc_reread rereads entry a.session.sha256 o q ≡ finished (q', a.rereads)
    → (archive_one cfg a entry d).1 ≡ ArchiveResult.downloaded
    → HasChunks log file (sampled rereads entry a.session.sha256)
archive_one-reread log rereads cfg a entry o file d q q' mode cfg_mode carry opens whole small ran
      downloaded =
    let passes =
      subst
        (λ r. PassesIf (AllMatch log o.signed_char file (sampled rereads entry a.session.sha256)) r)
        ran
        (verify_fc_reread-AllMatch log rereads entry a.session.sha256 o file q mode carry opens) in
    let chosen =
      (build_fc_sample_offsets_lem entry.size rereads.sample_count entry.id entry.size
        a.session.sha256 small).0 in
    elim (archive_one-Outcome cfg a entry d) [
      | was_downloaded e verified f found rows ↦
          AllMatch-HasChunks log o.signed_char file 0 (sampled rereads entry a.session.sha256)
            (subst (λ n. Samples n 0 (sampled rereads entry a.session.sha256)) (sym whole) chosen)
            (passes (reread_answer cfg a cfg_mode verified.reread))
      | was_skipped e c found success hash length' rows ↦ absurd (cc (sym e ∙ downloaded))
      | was_kept e rows ↦
          absurd (elim e [ inl f ↦ cc (sym f ∙ downloaded) | inr c ↦ cc (sym c ∙ downloaded) ])
    ]
