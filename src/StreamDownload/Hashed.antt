-- ===== src/StreamDownload/Hashed.antt =====
-- What the hasher of a download has taken: the chunks in the order of their arrival.
use mavlink_companion_log_se.Base.{
  ℕ, ◌*◌, ◌^◌, ◌<◌, ◌≡◌, refl, sym, ap, ◌∙◌, List, [], ◌∷◌, ◌++◌, Bool, true, false, none, some,
  length, inl, inr, ◌⊎◌,
}
use mavlink_companion_log_se.Sha256.{fresh, finalize_hex, absorb}
use mavlink_companion_log_se.Sha256.Stream.{absorb-nil, absorb-append, absorb-finalized}
use mavlink_companion_log_se.Sha256.Digest.{digest_of, sha256_digest, finalize_hex-absorb}
use mavlink_companion_log_se.LogDownloader.Inbox.{LogDataChunk}
use mavlink_companion_log_se.StreamDownload.{
  Params, Stream, new_stream, process_chunk, process_chunks,
}
use mavlink_companion_log_se.StreamDownload.Taken.{written, went, stopped, process_chunk-Processed}

-- The kept bytes of all chunks, in the order of arrival, repeats included.
abbrev pub written_all : Params → List LogDataChunk → List ℕ
written_all p [] = []
written_all p (c ∷ cs) = written p c ++ written_all p cs

-- The loop goes on from the state after a chunk, or has stopped.
pub process_chunks-went :
    (p : Params) (c : LogDataChunk) (cs : List LogDataChunk) (s s' : Stream)
    → process_chunk p c s ≡ some (s', true)
    → process_chunks p (c ∷ cs) s ≡ process_chunks p cs s'
unfolding process_chunks
process_chunks-went p c cs s s' e =
    ap
      (λ r. elim r [
        | none ↦ none
        | some (x, false) ↦ some (x, false)
        | some (x, true) ↦ process_chunks p cs x
      ])
      e

pub process_chunks-stopped :
    (p : Params) (c : LogDataChunk) (cs : List LogDataChunk) (s s' : Stream)
    → process_chunk p c s ≡ some (s', false)
    → process_chunks p (c ∷ cs) s ≡ some (s', false)
unfolding process_chunks
process_chunks-stopped p c cs s s' e =
    ap
      (λ r. elim r [
        | none ↦ none
        | some (x, false) ↦ some (x, false)
        | some (x, true) ↦ process_chunks p cs x
      ])
      e

process_chunks-absorb :
    (p : Params) (cs : List LogDataChunk) (s : Stream)
    → s.hasher.finalized ≡ false
    → (r : Stream × Bool) × (process_chunks p cs s ≡ some r)
      × ((r.1 ≡ false) ⊎ (r.0.hasher ≡ absorb s.hasher (written_all p cs)))
unfolding process_chunks
process_chunks-absorb p [] s e = ((s, true), refl, inr (sym (absorb-nil s.hasher)))
process_chunks-absorb p (c ∷ cs) s e = elim (process_chunk-Processed p c s e) [
  | stopped s' done ↦ ((s', false), process_chunks-stopped p c cs s s' done, inl refl)
  | went s' done taken ↦
      let open' : s'.hasher.finalized ≡ false =
        ap (λ h. h.finalized) taken.hasher ∙ absorb-finalized s.hasher (written p c) ∙ e in
      let (r, rest, verdict) = process_chunks-absorb p cs s' open' in
      (
        r,
        process_chunks-went p c cs s s' done ∙ rest,
        elim verdict [
          | inl stop ↦ inl stop
          | inr all ↦ inr (
              all
              ∙ ap (λ h. absorb h (written_all p cs)) taken.hasher
              ∙ sym (absorb-append s.hasher (written p c) (written_all p cs)))
        ],
      )
]

-- Processing chunks never throws, and unless an overlap conflict stops it, the digest of the download is
-- that of the kept bytes in the order of their arrival, a repeated chunk counted as often as it came.
-- The kept bytes have fewer than 2 ^ 64 bits.
pub process_chunks_digest :
    (p : Params) (cs : List LogDataChunk) (total : ℕ)
    → length (written_all p cs) * 8 < 2 ^ 64
    → (r : Stream × Bool) × (process_chunks p cs (new_stream total) ≡ some r)
      × ((r.1 ≡ false)
          ⊎ (digest_of (finalize_hex r.0.hasher) ≡ some (sha256_digest (written_all p cs))))
unfolding new_stream fresh
process_chunks_digest p cs total small =
    let (r, done, verdict) = process_chunks-absorb p cs (new_stream total) refl in
    (
      r,
      done,
      elim verdict [
        | inl stop ↦ inl stop
        | inr all ↦ inr (
            ap (λ h. digest_of (finalize_hex h)) all ∙ finalize_hex-absorb (written_all p cs) small)
      ],
    )
