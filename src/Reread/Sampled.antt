-- ===== src/Reread/Sampled.antt =====
-- What a sample re-read that passes shows of the downloaded file.
use mavlink_companion_log_se.Base.{
  ℕ, ◌<◌, ◌≡◌, refl, ap, ap₂, subst, List, [], ◌∷◌, Bool, true, false, ◌&&◌, ◌==◌, Option, none,
  some, length, take, drop, arith, Bool-cases, inl, inr,
}
use mavlink_companion_log_se.Base.Run.{Run, finished, fault, unfinished, Upto}
use mavlink_companion_log_se.LogProtocol.{chunk_size}
use mavlink_companion_log_se.LogDownloader.Inbox.{Inbox}
use mavlink_companion_log_se.StreamDownload.Session.Inbound.{Queued}
use mavlink_companion_log_se.Reread.{
  wait_for_log_data, char_to_int, equals_char, same_bytes, Ask, read_window, reread_loop,
}
use mavlink_companion_log_se.Reread.Waited.{AllAsksCarry, BytesAt, Waited, wait-Waited}

equals_char-eq :
    (signed_char : Bool) (b c : ℕ)
    → equals_char signed_char b c ≡ true
    → (b ≡ c) × (signed_char ≡ true → c < 128)
unfolding equals_char char_to_int
equals_char-eq true b c h = (ground arith, λ e. ground arith)
equals_char-eq false b c h = (ground arith, λ e. absurd cc)

-- Each byte is one that a signed `char` holds as it is.
abbrev pub AllLow : List ℕ → Type 0
AllLow [] = Unit {0}
AllLow (b ∷ bs) = (b < 128) × AllLow bs

pub same_bytes-eq :
    (signed_char : Bool) (bs cs : List ℕ)
    → same_bytes signed_char bs cs ≡ true
    → (bs ≡ cs) × (signed_char ≡ true → AllLow cs)
unfolding same_bytes
same_bytes-eq signed_char [] [] h = (refl, λ e. tt)
same_bytes-eq signed_char [] (c ∷ cs) h = absurd cc
same_bytes-eq signed_char (b ∷ bs) [] h = absurd cc
same_bytes-eq signed_char (b ∷ bs) (c ∷ cs) h =
    let first = equals_char-eq signed_char b c (ground arith) in
    let rest = same_bytes-eq signed_char bs cs (ground arith) in
    (ap₂ (λ x xs. x ∷ xs) first.0 rest.0, λ e. (first.1 e, rest.1 e))

-- The file at an offset: its bytes there are those of the log, and there are some; a signed `char` holds them.
abbrev pub Matches : (ℕ → ℕ) → Bool → List ℕ → ℕ → Type 0
Matches log signed_char file x =
    BytesAt log x (take chunk_size (drop x file))
    × (0 < length (take chunk_size (drop x file)))
    × (signed_char ≡ true → AllLow (take chunk_size (drop x file)))

abbrev pub AllMatch : (ℕ → ℕ) → Bool → List ℕ → List ℕ → Type 0
AllMatch log signed_char file [] = Unit {0}
AllMatch log signed_char file (x ∷ xs) =
    Matches log signed_char file x × AllMatch log signed_char file xs

-- If the re-read passes, then each offset matches.
abbrev pub PassesIf : Type 0 → Run (Inbox × Bool) → Type 0
PassesIf P r = Upto (Unit {0}) (λ (e : Inbox × Bool). e.1 ≡ true → P) r

window-Matches :
    (log : ℕ → ℕ) (signed_char good : Bool) (file : List ℕ) (x : ℕ) (bytes : List ℕ)
    → BytesAt log x bytes
    → 0 < length bytes
    → same_bytes signed_char bytes (read_window good file x) ≡ true
    → Matches log signed_char file x
unfolding read_window
window-Matches log signed_char true file x bytes at some_bytes same =
    let (e, low) = same_bytes-eq signed_char bytes (take chunk_size (drop x file)) same in
    (subst (λ bs. BytesAt log x bs) e at, subst (λ bs. 0 < length bs) e some_bytes, low)
window-Matches log signed_char false file x bytes at some_bytes same =
    let e = (same_bytes-eq signed_char bytes [] same).0 in
    absurd (omega (arith, some_bytes, ap (λ (bs : List ℕ). length bs) e))

PassesIf-both : (P Q : Type 0) (r : Run (Inbox × Bool)) → P → PassesIf Q r → PassesIf (P × Q) r
PassesIf-both P Q (finished e) p q = λ passed. (p, q passed)
PassesIf-both P Q fault p q = q
PassesIf-both P Q unfinished p q = tt

module _ (log : ℕ → ℕ) (signed_char : Bool) (max_queued id : ℕ) (file : List ℕ) where
  asked-AllMatch :
      (x : ℕ) (xs : List ℕ) (as' : List Ask) (good : Bool) (o : Option (Inbox × Option (List ℕ)))
      → Waited log id x o
      → ((g : Bool) (q : Inbox)
          → Queued log id q.data_chunks
          → PassesIf
              (AllMatch log signed_char file xs)
              (reread_loop signed_char max_queued id file xs as' g q))
      → PassesIf (AllMatch log signed_char file (x ∷ xs)) (elim o [
        | none ↦ fault
        | some (q1, none) ↦ finished (q1, false)
        | some (q1, some chunk) ↦ elim (same_bytes signed_char chunk (read_window good file x)) [
          | false ↦ finished (q1, false)
          | true ↦
              reread_loop signed_char max_queued id file xs as'
                (good && length (read_window good file x) == chunk_size)
                q1
        ]
      ])
  asked-AllMatch x xs as' good none w next = elim w [ ]
  asked-AllMatch x xs as' good (some (q, none)) w next = λ e. absurd cc
  asked-AllMatch x xs as' good (some (q, some bytes)) w next =
      elim (Bool-cases (same_bytes signed_char bytes (read_window good file x))) [
        | inl same ↦
            rw (same, Upto)
              (PassesIf-both (Matches log signed_char file x) (AllMatch log signed_char file xs)
                (reread_loop signed_char max_queued id file xs as'
                  (good && length (read_window good file x) == chunk_size) q)
                (window-Matches log signed_char good file x bytes w.0 w.1 same)
                (next (good && length (read_window good file x) == chunk_size) q w.2))
        | inr differ ↦ rw (differ, Upto) (λ e. absurd cc)
      ]

  pub reread_loop-AllMatch :
      (xs : List ℕ) (as' : List Ask) (good : Bool) (q : Inbox)
      → AllAsksCarry log id as'
      → Queued log id q.data_chunks
      → PassesIf
          (AllMatch log signed_char file xs)
          (reread_loop signed_char max_queued id file xs as' good q)
  unfolding reread_loop
  reread_loop-AllMatch [] as' good q carry p = λ e. tt
  reread_loop-AllMatch (x ∷ xs) [] good q carry p = tt
  reread_loop-AllMatch (x ∷ xs) (a ∷ as') good q carry p = elim (Bool-cases a.sent) [
    | inl sent ↦
        rw (sent, Upto, reread_loop)
          (asked-AllMatch x xs as' good (wait_for_log_data max_queued id x a.polls q)
            (wait-Waited log max_queued id x a.polls q carry.0 p)
            (λ g q'. reread_loop-AllMatch xs as' g q' carry.1))
    | inr unsent ↦ rw (unsent, Upto, reread_loop) (λ e. absurd cc)
  ]
