-- ===== src/StreamDownload/Examples.antt =====
-- A log of 180 bytes in two chunks, that arrive out of order and one of them twice.
use mavlink_companion_log_se.Base.{
  ℕ, zero, suc, ◌<◌, ◌≡◌, refl, List, [], ◌∷◌, Bool, true, false, some, replicate, get_elem?, arith,
  ◌⊎◌,
}
use mavlink_companion_log_se.Sha256.{finalize_hex}
use mavlink_companion_log_se.Sha256.Digest.{digest_of, sha256_digest}
use mavlink_companion_log_se.ReceivedRanges.{Span, covers, complete, gaps}
use mavlink_companion_log_se.LogDownloader.Inbox.{LogDataChunk}
use mavlink_companion_log_se.StreamDownload.{
  Params, Stream, new_stream, end_offset, write_length, process_chunks,
}
use mavlink_companion_log_se.StreamDownload.Hashed.{written_all, process_chunks_digest}
use mavlink_companion_log_se.StreamDownload.Filled.{IsOf, read_at, process_chunks_file}
use mavlink_companion_log_se.StreamDownload.Requests.{
  request_merged_gaps, request_merged_gaps_missing, request_gaps, request_gap, request_start,
  requests_from, request_count, coalesce,
}
use mavlink_companion_log_se.StreamDownload.Begins.{AllRest, request_merged_gaps_lem}
use mavlink_companion_log_se.LogProtocol.{align_down_to_chunk}
use mavlink_companion_log_se.ReceivedRanges.Gaps.{asked}

abbrev params : Params
params = record {
  byte_offset = 0;
  byte_count = 180;
  probe_bytes = 100;
  write_file = true;
  detect_overlap_conflict = true;
}

-- Every byte of the log is a 7.
abbrev chunk : ℕ → LogDataChunk
chunk offset = record { id = 1; offset = offset; count = 2; bytes = 7 ∷ 7 ∷ [] }

abbrev arrived : List LogDataChunk
arrived = chunk 90 ∷ chunk 0 ∷ chunk 90 ∷ []

written_run : written_all params arrived ≡ replicate 6 7
unfolding write_length end_offset
written_run = refl

process_chunks_digest_example :
    (r : Stream × Bool) × (process_chunks params arrived (new_stream 180) ≡ some r)
    × ((r.1 ≡ false)
        ⊎ (digest_of (finalize_hex r.0.hasher) ≡ some (sha256_digest (written_all params arrived))))
unfolding write_length end_offset
process_chunks_digest_example = process_chunks_digest params arrived 180 (omega arith)

sevens : (i : ℕ) → i < 2 → get_elem? {A = ℕ} (7 ∷ 7 ∷ []) i ≡ some 7
sevens zero h = refl
sevens (suc zero) h = refl
sevens (suc (suc i)) h = absurd (omega arith)

chunk-IsOf : (offset : ℕ) → offset < 180 → IsOf (λ x. 7) (chunk offset)
chunk-IsOf offset h = record { len = refl; range = omega arith; data' = sevens }

process_chunks_file_example :
    (r : Stream × Bool) × (process_chunks params arrived (new_stream 180) ≡ some r)
    × ((r.1 ≡ false)
        ⊎ (((covers r.0.ranges 91 ≡ false) ⊎ (read_at r.0.file 91 ≡ some 7))
            × ((complete r.0.ranges 180 ≡ false) ⊎ (read_at r.0.file 91 ≡ some 7))))
process_chunks_file_example =
    process_chunks_file (λ x. 7) params arrived 180 91 refl
      (chunk-IsOf 90 (omega arith), (chunk-IsOf 0 (omega arith), (chunk-IsOf 90 (omega arith), tt)))
      (omega arith)

abbrev received : List Span
received = record { first = 0; second = 100 } ∷ record { first = 270; second = 300 } ∷ []

request_merged_gaps_lem_example : AllRest (gaps received 450) (request_merged_gaps received 450)
request_merged_gaps_lem_example =
    request_merged_gaps_lem received 450 (omega arith, (omega arith, omega arith, tt))
      (omega arith, (omega arith, tt)) (omega arith)

asks_run : asked (request_merged_gaps received 450) 200 ≡ true
unfolding asked request_merged_gaps gaps request_gaps request_gap request_start requests_from
    request_count coalesce align_down_to_chunk
asks_run = refl

request_merged_gaps_missing_example : (200 < 450) × (covers received 200 ≡ false)
request_merged_gaps_missing_example =
    request_merged_gaps_missing received 450 200 (omega arith, (omega arith, omega arith, tt))
      (omega arith, (omega arith, tt)) (omega arith) asks_run
