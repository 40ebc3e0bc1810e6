-- ===== src/Sha256/Digest.antt =====
-- The streaming hash as one function of the whole message: pad the message, cut it into blocks, compress.
use mavlink_companion_log_se.Base.{
  ℕ, zero, suc, ◌+◌, ◌*◌, ◌/◌, ◌^◌, ◌<◌, ◌≡◌, refl, sym, ap, ◌∙◌, List, [], ◌∷◌, ◌++◌, false,
  length, length-append, length-take, length-drop, take, drop, take-append-drop, arith, Option,
  some, none,
}
use mavlink_companion_log_se.Sha256.{
  Sha, fresh, absorb, transform, update, finalize_hex, clone, hash_hex, pad_and_finalize,
  state_bytes, bytes_to_hex,
}
use mavlink_companion_log_se.Sha256.Constants.{initial_state}
use mavlink_companion_log_se.Sha256.Stream.{
  Holds, Holds-absorb_block, absorb-append, absorb-len, absorb-total, absorb-finalized,
}
use mavlink_companion_log_se.Sha256.Padding.{padding, length-padding, pad_and_finalize-absorb}

-- The message cut into `n` blocks of 64 bytes, each compressed into the state.
unfoldable pub compress_blocks : ℕ → List ℕ → List ℕ → List ℕ
compress_blocks zero state message = state
compress_blocks (suc n) state message =
    compress_blocks n (transform state (take 64 message)) (drop 64 message)

unfoldable pub sha256_digest : List ℕ → List ℕ
sha256_digest m =
    bytes_to_hex
      (state_bytes (compress_blocks ((length m + 72) / 64) initial_state (m ++ padding (length m))))

absorb-compress :
    (n : ℕ) (s : Sha) (st m : List ℕ)
    → Holds s st []
    → length m ≡ n * 64
    → (absorb s m).state ≡ compress_blocks n st m
unfolding compress_blocks absorb
absorb-compress zero s st [] v h = v.state
absorb-compress zero s st (x ∷ m) v h = absurd (omega arith)
absorb-compress (suc n) s st m v h =
    ap (λ l. (absorb s l).state) (sym (take-append-drop 64 m))
    ∙ ap (λ r. r.state) (absorb-append s (take 64 m) (drop 64 m))
    ∙ absorb-compress n (absorb s (take 64 m)) (transform st (take 64 m)) (drop 64 m)
        (Holds-absorb_block s st [] (take 64 m) v (omega arith) (omega (arith, length-take 64 m)))
        (omega (arith, length-drop 64 m))

fresh-Holds : Holds fresh initial_state []
unfolding fresh
fresh-Holds = record { state = refl; len = refl; kept = refl; room = refl }

-- The state after finalising a fresh context that has absorbed `m`.
final_state :
    (m : List ℕ)
    → length m * 8 < 2 ^ 64
    → (pad_and_finalize (absorb fresh m)).0.state
      ≡ compress_blocks ((length m + 72) / 64) initial_state (m ++ padding (length m))
unfolding fresh
final_state m h =
    ap (λ r. r.state)
      (pad_and_finalize-absorb (absorb fresh m)
        (omega (arith, absorb-len fresh m, absorb-total fresh m))
        (omega (arith, absorb-total fresh m)))
    ∙ ap (λ n. (absorb (absorb fresh m) (padding n)).state) counted
    ∙ ap (λ r. r.state) (sym (absorb-append fresh m (padding (length m))))
    ∙ absorb-compress _ fresh initial_state (m ++ padding (length m)) fresh-Holds
        (omega (arith, length-append m (padding (length m)), length-padding (length m)))
  where
    counted : (absorb fresh m).total_bytes ≡ length m
    counted = omega (arith, absorb-total fresh m)

-- The digest that `finalizeHex` returns, if it does not throw.
abbrev pub digest_of : Option (Sha × List ℕ) → Option (List ℕ)
digest_of none = none
digest_of (some (_, digest)) = some digest

fresh-open : fresh.finalized ≡ false
unfolding fresh
fresh-open = refl

digest-state : (s : Sha) → (pad_and_finalize s).1 ≡ state_bytes (pad_and_finalize s).0.state
unfolding pad_and_finalize
digest-state s = refl

finalize_hex-open :
    (s : Sha)
    → s.finalized ≡ false
    → digest_of (finalize_hex s) ≡ some (bytes_to_hex (pad_and_finalize s).1)
unfolding finalize_hex
finalize_hex-open s e = ground arith

update-open : (s : Sha) (bs : List ℕ) → s.finalized ≡ false → update s bs ≡ some (absorb s bs)
unfolding update
update-open s bs e = ground arith

pub finalize_hex-absorb :
    (m : List ℕ)
    → length m * 8 < 2 ^ 64
    → digest_of (finalize_hex (absorb fresh m)) ≡ some (sha256_digest m)
unfolding sha256_digest
finalize_hex-absorb m h =
    finalize_hex-open (absorb fresh m) (absorb-finalized fresh m ∙ fresh-open)
    ∙ ap (λ d. some (bytes_to_hex d)) (digest-state (absorb fresh m))
    ∙ ap (λ w. some (bytes_to_hex (state_bytes w))) (final_state m h)

-- `hashHex` does not throw, and gives the message with its padding, cut into 64-byte blocks that
-- `transform` takes from the initial state, printed by `bytes_to_hex`.
pub hash_hex-digest : (m : List ℕ) → length m * 8 < 2 ^ 64 → hash_hex m ≡ some (sha256_digest m)
unfolding hash_hex
hash_hex-digest m h =
    rw (update-open fresh m fresh-open, hash_hex)
      (hex_of (finalize_hex (absorb fresh m)) (finalize_hex-absorb m h))
  where
    hex_of :
        (r : Option (Sha × List ℕ)) {d : List ℕ}
        → digest_of r ≡ some d
        → (elim r [ none ↦ none | some (_, digest) ↦ some digest ]) ≡ some d
    hex_of none e = cc
    hex_of (some (_, digest)) e = e

-- A context that takes a message in two parts hashes as the whole message, and a clone made between
-- the parts hashes as the first: neither the split nor the clone shows in the digests.
pub update-clone :
    (xs ys : List ℕ) (s t : Sha)
    → length (xs ++ ys) * 8 < 2 ^ 64
    → update fresh xs ≡ some s
    → update s ys ≡ some t
    → (digest_of (finalize_hex (clone s)) ≡ some (sha256_digest xs))
      × (digest_of (finalize_hex t) ≡ some (sha256_digest (xs ++ ys)))
unfolding clone
update-clone xs ys s t h p q = (
  rw (← s_is) (finalize_hex-absorb xs (omega (arith, length-append xs ys))),
  rw (← t_is) (finalize_hex-absorb (xs ++ ys) h),
)
  where
    s_is : absorb fresh xs ≡ s
    s_is = ground (arith, update-open fresh xs fresh-open)

    t_is : absorb fresh (xs ++ ys) ≡ t
    t_is = ground (
      arith,
      s_is,
      fresh-open,
      absorb-finalized fresh xs,
      update-open s ys,
      absorb-append fresh xs ys,
    )
