-- ===== src/Sha256/Stream.antt =====
-- The buffer of the stream: what `absorb` does to a context that holds a partial block.
use mavlink_companion_log_se.Base.{
  ℕ, zero, suc, ◌+◌, ◌%◌, ◌^◌, ◌<◌, ◌≡◌, refl, sym, ap, ◌∙◌, List, [], ◌∷◌, ◌++◌, length, take, set,
  length-set, length-append, append_assoc, append-nil, arith,
}
use mavlink_companion_log_se.Base.Bits.{u64}
use mavlink_companion_log_se.Sha256.{Sha, push_byte, absorb, transform}

pub absorb-nil : (s : Sha) → absorb s [] ≡ s
unfolding absorb
absorb-nil s = refl

pub absorb-append : (s : Sha) (xs ys : List ℕ) → absorb s (xs ++ ys) ≡ absorb (absorb s xs) ys
unfolding absorb
absorb-append s [] ys = refl
absorb-append s (x ∷ xs) ys = absorb-append (push_byte s x) xs ys

-- `s` has compressed up to the state `st` and keeps the bytes `p` of an unfinished block.
pub record Holds (s : Sha) (st p : List ℕ) : Type 0 where
  pub state : s.state ≡ st
  pub len : s.buffer_len ≡ length p
  pub kept : take (length p) s.buffer ≡ p
  pub room : length s.buffer ≡ 64

take-set-suc :
    (xs : List ℕ) (i b : ℕ) → i < length xs → take (suc i) (set xs i b) ≡ take i xs ++ b ∷ []
take-set-suc [] i b h = absurd (omega arith)
take-set-suc (x ∷ xs) zero b h = refl
take-set-suc (x ∷ xs) (suc i) b h = ap (◌∷◌ x) (take-set-suc xs i b (omega arith))

take_all : (xs : List ℕ) → take (length xs) xs ≡ xs
take_all [] = refl
take_all (x ∷ xs) = ap (◌∷◌ x) (take_all xs)

module _ (s : Sha) (st p : List ℕ) (b : ℕ) (v : Holds s st p) where
  length-snoc : length (p ++ b ∷ []) ≡ suc (length p)
  length-snoc = omega (arith, length-append p (b ∷ []))

  kept-snoc : length p < 64 → take (suc (length p)) (set s.buffer (length p) b) ≡ p ++ b ∷ []
  kept-snoc h =
      take-set-suc s.buffer (length p) b (omega (arith, v.room)) ∙ ap (λ q. q ++ b ∷ []) v.kept

  whole : suc (length p) ≡ 64 → set s.buffer (length p) b ≡ p ++ b ∷ []
  whole h =
      sym (take_all (set s.buffer (length p) b))
      ∙ ap (λ n. take n (set s.buffer (length p) b)) {y = suc (length p)}
          (omega (arith, v.room, length-set s.buffer (length p) b))
      ∙ kept-snoc (omega arith)

  Holds-push : suc (length p) < 64 → Holds (push_byte s b) st (p ++ b ∷ [])
  unfolding push_byte
  Holds-push h = record {
    state = ground (arith, v.state, v.len);
    len = ground (arith, v.len, length-snoc);
    kept = rw length-snoc (ground (arith, v.len, kept-snoc (omega arith)));
    room = ground (arith, v.len, v.room, length-set s.buffer (length p) b);
  }

  Holds-push_full : suc (length p) ≡ 64 → Holds (push_byte s b) (transform st (p ++ b ∷ [])) []
  unfolding push_byte
  Holds-push_full h = record {
    state = ground (arith, v.len, v.state, whole h);
    len = ground (arith, v.len);
    kept = refl;
    room = ground (arith, v.len, v.room, length-set s.buffer (length p) b);
  }

pub Holds-absorb :
    (s : Sha) (st p bs : List ℕ)
    → Holds s st p
    → length p + length bs < 64
    → Holds (absorb s bs) st (p ++ bs)
unfolding absorb
Holds-absorb s st p [] v h = rw append-nil v
Holds-absorb s st p (b ∷ bs) v h = rw (← append_assoc p (b ∷ []) bs) (
    Holds-absorb (push_byte s b) st (p ++ b ∷ []) bs (Holds-push s st p b v (omega arith))
      (omega (arith, length-append p (b ∷ []))))

-- The bytes that complete a block compress it.
pub Holds-absorb_block :
    (s : Sha) (st p bs : List ℕ)
    → Holds s st p
    → length p < 64
    → length p + length bs ≡ 64
    → Holds (absorb s bs) (transform st (p ++ bs)) []
unfolding absorb
Holds-absorb_block s st p [] v lt h = absurd (omega arith)
Holds-absorb_block s st p (b ∷ []) v lt h = Holds-push_full s st p b v (omega arith)
Holds-absorb_block s st p (b ∷ c ∷ bs) v lt h = rw (← append_assoc p (b ∷ []) (c ∷ bs)) (
    Holds-absorb_block (push_byte s b) st (p ++ b ∷ []) (c ∷ bs)
      (Holds-push s st p b v (omega arith)) (omega (arith, length-append p (b ∷ [])))
      (omega (arith, length-append p (b ∷ []))))

-- What the byte loop does to the length of the buffer and to the counter.
pub absorb-len :
    (s : Sha) (bs : List ℕ)
    → s.buffer_len < 64
    → (absorb s bs).buffer_len ≡ (s.buffer_len + length bs) % 64
unfolding absorb push_byte
absorb-len s [] h = omega arith
absorb-len s (b ∷ bs) h = ground (arith, absorb-len (push_byte s b) bs)

pub absorb-total :
    (s : Sha) (bs : List ℕ)
    → s.total_bytes < 2 ^ 64
    → (absorb s bs).total_bytes ≡ u64 (s.total_bytes + length bs)
unfolding absorb push_byte
absorb-total s [] h = omega arith
absorb-total s (b ∷ bs) h = ground (arith, absorb-total (push_byte s b) bs)

pub absorb-finalized : (s : Sha) (bs : List ℕ) → (absorb s bs).finalized ≡ s.finalized
unfolding absorb push_byte
absorb-finalized s [] = refl
absorb-finalized s (b ∷ bs) = ground (arith, absorb-finalized (push_byte s b) bs)
