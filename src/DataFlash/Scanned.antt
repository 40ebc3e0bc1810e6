-- ===== src/DataFlash/Scanned.antt =====
-- The scan ends, and its counts are within the buffer.
use mavlink_companion_log_se.Base.{
  ℕ, zero, suc, ◌+◌, ◌≤◌, ◌<◌, ◌≡◌, refl, List, Bool, true, false, ◌&&◌, not, ◌==◌, ltb, leb,
  Option, none, some, if◌then◌else◌, length, get_or, arith, inl, inr, ◌⊎◌, leb→le,
}
use mavlink_companion_log_se.DataFlash.{
  ValidationResult, Scan, truncated_fmt, past_end, no_fmt, empty_buffer, Next, go_on, stop_with,
  fmt_size, skip_byte, count_bad, read_fmt, read_message, scan_step, failed_with, finish, scan,
  new_scan, validate_bytes,
}

-- The counts of a scan are at most its position.
abbrev InPlace : List ℕ → Scan → Type 0
InPlace data' s =
    (s.pos ≤ length data')
    × (s.bytes_scanned ≤ s.pos)
    × (s.resync_count ≤ s.pos)
    × (s.bad_message_count ≤ s.pos)

-- A pass goes on further along, or stops.
abbrev Advances : List ℕ → Scan → Next → Type 0
Advances data' s (go_on s') = InPlace data' s' × (s.pos < s'.pos)
Advances data' s (stop_with e s') = InPlace data' s'

Advances-if :
    (data' : List ℕ) (s : Scan) (b : Bool) (x y : Next)
    → (b ≡ true → Advances data' s x)
    → (b ≡ false → Advances data' s y)
    → Advances data' s (if b then x else y)
Advances-if data' s true x y t f = t refl
Advances-if data' s false x y t f = f refl

skip-InPlace :
    (data' : List ℕ) (s : Scan)
    → s.pos + 3 ≤ length data'
    → InPlace data' s
    → InPlace data' (skip_byte s) × (s.pos < (skip_byte s).pos)
unfolding skip_byte
skip-InPlace data' s room p = (omega (arith, p), omega (arith, p))

stopped-InPlace :
    (data' : List ℕ) (s : Scan)
    → InPlace data' s
    → InPlace data' (record s { bytes_scanned = s.pos })
stopped-InPlace data' s p = omega (arith, p)

-- What a message of `n` bytes sets, whatever it does to the formats.
message-Advances :
    (data' : List ℕ) (s : Scan) (n : ℕ) (known : Bool) (f : ℕ → Option ℕ)
    → 0 < n
    → s.pos + n ≤ length data'
    → InPlace data' s
    → Advances data' s (
        go_on
          (record s { formats = f; have_fmt = known; pos = s.pos + n; bytes_scanned = s.pos + n }))
message-Advances data' s n known f some_bytes fits p = (omega (arith, p), omega arith)

read_fmt-Advances :
    (data' : List ℕ) (s : Scan) → InPlace data' s → Advances data' s (read_fmt data' s)
unfolding read_fmt
read_fmt-Advances data' s p =
    let f : ℕ → Option ℕ = λ t.
      if t == get_or data' (s.pos + 3) 0 then some (get_or data' (s.pos + 4) 0) else s.formats t in
    Advances-if data' s (ltb (length data') (s.pos + fmt_size))
      (stop_with truncated_fmt (record s { bytes_scanned = s.pos }))
      (go_on (record s {
        formats = f;
        have_fmt = true;
        pos = s.pos + fmt_size;
        bytes_scanned = s.pos + fmt_size;
      }))
      (λ over. stopped-InPlace data' s p)
      (λ fits. message-Advances data' s fmt_size true f (ground arith) (ground arith) p)

read_message-Advances :
    (data' : List ℕ) (n : ℕ) (s : Scan)
    → s.pos + 3 ≤ length data'
    → InPlace data' s
    → Advances data' s (read_message data' n s)
unfolding read_message count_bad
read_message-Advances data' n s room p =
    let rest : Next =
      if ltb (length data') (s.pos + n)
      then stop_with past_end (record s { bytes_scanned = s.pos })
      else go_on (record s { pos = s.pos + n; bytes_scanned = s.pos + n }) in
    Advances-if data' s (ltb n 3) (go_on (count_bad (record s { pos = s.pos + 1 }))) rest
      (λ short. (omega (arith, p), omega arith))
      (λ long.
        Advances-if data' s (ltb (length data') (s.pos + n))
          (stop_with past_end (record s { bytes_scanned = s.pos }))
          (go_on (record s { pos = s.pos + n; bytes_scanned = s.pos + n }))
          (λ over. stopped-InPlace data' s p)
          (λ fits. message-Advances data' s n s.have_fmt s.formats (ground arith) (ground arith) p))

known-Advances :
    (data' : List ℕ) (s : Scan) (o : Option ℕ)
    → s.pos + 3 ≤ length data'
    → InPlace data' s
    → Advances data' s (elim o [
      | none ↦ go_on (count_bad (skip_byte s))
      | some msg_len ↦ read_message data' msg_len s
    ])
unfolding count_bad skip_byte
known-Advances data' s none room p = (omega (arith, p), omega arith)
known-Advances data' s (some n) room p = read_message-Advances data' n s room p

scan_step-Advances :
    (data' : List ℕ) (s : Scan)
    → s.pos + 3 ≤ length data'
    → InPlace data' s
    → Advances data' s (scan_step data' s)
unfolding scan_step
scan_step-Advances data' s room p =
    let msg_type = get_or data' (s.pos + 2) 0 in
    let known : Next = elim (s.formats msg_type) [
      | none ↦ go_on (count_bad (skip_byte s))
      | some msg_len ↦ read_message data' msg_len s
    ] in
    let formatted : Next = if not s.have_fmt then go_on (skip_byte s) else known in
    Advances-if data' s (not (get_or data' s.pos 0 == 0xA3 && get_or data' (s.pos + 1) 0 == 0x95))
      (go_on (skip_byte s)) (if msg_type == 0x80 then read_fmt data' s else formatted)
      (λ no_head. skip-InPlace data' s room p)
      (λ head.
        Advances-if data' s (msg_type == 0x80) (read_fmt data' s) formatted
          (λ fmt. read_fmt-Advances data' s p)
          (λ other.
            Advances-if data' s (not s.have_fmt) (go_on (skip_byte s)) known
              (λ none_yet. skip-InPlace data' s room p)
              (λ have. known-Advances data' s (s.formats msg_type) room p)))

-- What a result of the scan says.
abbrev pub Measured : List ℕ → ValidationResult → Type 0
Measured data' r =
    (r.bytes_scanned ≤ length data')
    × (r.resync_count ≤ length data')
    × (r.bad_message_count ≤ length data')
    × ((r.ok ≡ false) ⊎ (r.error ≡ none))

abbrev pub Ends : List ℕ → Option ValidationResult → Type 0
Ends data' o = (r : ValidationResult) × (o ≡ some r) × Measured data' r

Measured-if :
    (data' : List ℕ) (b : Bool) (x y : ValidationResult)
    → Measured data' x
    → Measured data' y
    → Measured data' (if b then x else y)
Measured-if data' true x y p q = p
Measured-if data' false x y p q = q

finish-Measured : (data' : List ℕ) (s : Scan) → InPlace data' s → Measured data' (finish s)
unfolding finish failed_with
finish-Measured data' s p =
    Measured-if data' (not s.have_fmt) (failed_with no_fmt s)
      (record (failed_with no_fmt s) { ok = true; error = none })
      (omega (arith, p), omega (arith, p), omega (arith, p), inl refl)
      (omega (arith, p), omega (arith, p), omega (arith, p), inr refl)

-- What is left of the scan after a pass, if the rest ends.
pass-Ends :
    (fuel : ℕ) (data' : List ℕ) (s : Scan) (n : Next)
    → length data' < s.pos + suc fuel
    → Advances data' s n
    → ((s' : Scan)
        → length data' < s'.pos + fuel
        → InPlace data' s'
        → Ends data' (scan fuel data' s'))
    → Ends data'
        (elim n [ go_on s' ↦ scan fuel data' s' | stop_with e s' ↦ some (failed_with e s') ])
unfolding failed_with
pass-Ends fuel data' s (go_on s') enough p rest = rest s' (omega (arith, p)) p.0
pass-Ends fuel data' s (stop_with e s') enough p rest =
    (failed_with e s', refl, (omega (arith, p), omega (arith, p), omega (arith, p), inl refl))

loop-Ends :
    (fuel : ℕ) (data' : List ℕ) (s : Scan) (b : Bool)
    → leb (s.pos + 3) (length data') ≡ b
    → length data' < s.pos + suc fuel
    → InPlace data' s
    → ((s' : Scan)
        → length data' < s'.pos + fuel
        → InPlace data' s'
        → Ends data' (scan fuel data' s'))
    → Ends data' (elim b [
      | false ↦ some (finish s)
      | true ↦ elim (scan_step data' s) [
        | go_on s' ↦ scan fuel data' s'
        | stop_with e s' ↦ some (failed_with e s')
      ]
    ])
loop-Ends fuel data' s false e enough p rest = (finish s, refl, finish-Measured data' s p)
loop-Ends fuel data' s true e enough p rest =
    pass-Ends fuel data' s (scan_step data' s) enough (scan_step-Advances data' s (leb→le _ _ e) p)
      rest

scan-Ends :
    (fuel : ℕ) (data' : List ℕ) (s : Scan)
    → length data' < s.pos + fuel
    → InPlace data' s
    → Ends data' (scan fuel data' s)
unfolding scan
scan-Ends zero data' s enough p = absurd (omega (arith, p))
scan-Ends (suc fuel) data' s enough p =
    loop-Ends fuel data' s (leb (s.pos + 3) (length data')) refl enough p
      (λ s' e q. scan-Ends fuel data' s' e q)

-- For every buffer the scan ends with a result: the bytes it counts as scanned, its resyncs and its bad messages
-- are each at most the bytes of the buffer, and it is not both valid and an error.
pub validate_bytes_lem : (data' : List ℕ) → Ends data' (validate_bytes data')
unfolding validate_bytes failed_with new_scan
validate_bytes_lem data' = ends data' (length data' == 0)
  where
    ends :
        (data' : List ℕ) (b : Bool)
        → Ends data' (
            if b
            then some (failed_with empty_buffer new_scan)
            else scan (suc (length data')) data' new_scan)
    ends data' true =
        (failed_with empty_buffer new_scan, refl, (omega arith, omega arith, omega arith, inl refl))
    ends data' false = scan-Ends (suc (length data')) data' new_scan (omega arith) (omega arith)
