-- ===== src/Sha256/Examples.antt =====
-- Known digests.
use mavlink_companion_log_se.Sha256.{clone}
use mavlink_companion_log_se.Sha256.Digest.{sha256_digest, digest_of, update-clone}
use mavlink_companion_log_se.Sha256.Standard.{IsSha256, hash_hex-IsSha256}
use mavlink_companion_log_se.Base.{arith, ℕ, ◌≡◌, refl, List, [], ◌∷◌, some}
use Prim.Native.Char.{code}
use Prim.Native.String.{String}
use mavlink_companion_log_se.Sha256.{
  hash_hex, update, finalize_hex, fresh, pad_and_finalize, pad_zeros, big_endian, state_bytes,
  bytes_to_hex, absorb, push_byte, transform,
}

abbrev codes : String → List ℕ
codes String.[] = []
codes (String.◌∷◌ c s) = code c ∷ codes s

abc :
    hash_hex (codes "abc")
    ≡ some (codes "ba7816bf8f01cfea414140de5dae2223b00361a396177a9cb410ff61f20015ad")
unfolding hash_hex update finalize_hex fresh pad_and_finalize pad_zeros big_endian state_bytes
    bytes_to_hex absorb push_byte transform
abc = refl

hash_hex-IsSha256_example :
    (digest : List ℕ) × (hash_hex (codes "abc") ≡ some digest) × IsSha256 (codes "abc") digest
hash_hex-IsSha256_example = hash_hex-IsSha256 (codes "abc") (omega arith)

update-clone_example :
    (digest_of (finalize_hex (clone (absorb fresh (codes "a")))) ≡ some (sha256_digest (codes "a")))
    × (digest_of (finalize_hex (absorb (absorb fresh (codes "a")) (codes "bc")))
        ≡ some (sha256_digest (codes "abc")))
unfolding update fresh absorb push_byte
update-clone_example =
    update-clone (codes "a") (codes "bc") (absorb fresh (codes "a"))
      (absorb (absorb fresh (codes "a")) (codes "bc")) (omega arith) refl refl
