-- ===== src/Sha256/Compression.antt =====
-- The compression function of FIPS 180-4, section 6.2.2, and that `transform` of src/Sha256.cpp is one.
use mavlink_companion_log_se.Base.{
  ℕ, zero, suc, ◌+◌, ◌-◌, ◌*◌, ◌/◌, ◌%◌, ◌^◌, ◌≤◌, ◌<◌, ◌≡◌, bit_and, bit_or, bit_xor, refl, sym,
  ap, ◌∙◌, List, [], ◌∷◌, ◌++◌, ltb, get_or, Bool-cases, inl, inr, length, length-append, arith,
  subst,
}
use mavlink_companion_log_se.Base.Bits.{not32}
use mavlink_companion_log_se.Sha256.{
  rotr, ch, maj, sig0, sig1, ep0, ep1, load_words, extend_words, Vars, round, rounds, transform,
}
use mavlink_companion_log_se.Sha256.Constants.{round_constants}

-- The functions of section 4.1.2, on words of 32 bits.
abbrev turn : ℕ → ℕ → ℕ
turn n x = bit_or (x / 2 ^ n) (x * 2 ^ (32 - n) % 2 ^ 32)

abbrev xor3 : ℕ → ℕ → ℕ → ℕ
xor3 x y z = bit_xor (bit_xor x y) z

abbrev big_sigma_0 : ℕ → ℕ
big_sigma_0 x = xor3 (turn 2 x) (turn 13 x) (turn 22 x)

abbrev big_sigma_1 : ℕ → ℕ
big_sigma_1 x = xor3 (turn 6 x) (turn 11 x) (turn 25 x)

abbrev small_sigma_0 : ℕ → ℕ
small_sigma_0 x = xor3 (turn 7 x) (turn 18 x) (x / 2 ^ 3)

abbrev small_sigma_1 : ℕ → ℕ
small_sigma_1 x = xor3 (turn 17 x) (turn 19 x) (x / 2 ^ 10)

abbrev choice : ℕ → ℕ → ℕ → ℕ
choice x y z = bit_xor (bit_and x y) (bit_and (not32 x) z)

abbrev majority : ℕ → ℕ → ℕ → ℕ
majority x y z = xor3 (bit_and x y) (bit_and x z) (bit_and y z)

-- Step 1: the message schedule of a block.
abbrev pub word : List ℕ → ℕ → ℕ
word w t = get_or w t 0

abbrev loaded_word : List ℕ → ℕ → ℕ
loaded_word block t =
    bit_or
      (bit_or (bit_or (word block (t * 4 + 0) * 2 ^ 24 % 2 ^ 32) (word block (t * 4 + 1) * 2 ^ 16))
        (word block (t * 4 + 2) * 2 ^ 8))
      (word block (t * 4 + 3))

abbrev mixed : ℕ → ℕ → ℕ → ℕ → ℕ
mixed w2 w7 w15 w16 = (small_sigma_1 w2 + w7 + small_sigma_0 w15 + w16) % 2 ^ 32

abbrev next_word : List ℕ → ℕ → ℕ
next_word w t = mixed (word w (t - 2)) (word w (t - 7)) (word w (t - 15)) (word w (t - 16))

pub record IsSchedule (block w : List ℕ) : Type 0 where
  pub len : length w ≡ 64
  pub loaded : (t : ℕ) → t < 16 → word w t ≡ loaded_word block t
  pub extended : (t : ℕ) → 16 ≤ t → t < 64 → word w t ≡ next_word w t

-- Steps 2 and 3: the working variables through the rounds.
abbrev step : ℕ → ℕ → Vars → Vars
step k w v =
    let t1 = (v.h + big_sigma_1 v.e + choice v.e v.f v.g + k + w) % 2 ^ 32 in
    let t2 = (big_sigma_0 v.a + majority v.a v.b v.c) % 2 ^ 32 in
    record {
      a = (t1 + t2) % 2 ^ 32;
      b = v.a;
      c = v.b;
      d = v.c;
      e = (v.d + t1) % 2 ^ 32;
      f = v.e;
      g = v.f;
      h = v.g;
    }

pub steps : List ℕ → List ℕ → Vars → Vars
steps [] ws v = v
steps (k ∷ ks) [] v = v
steps (k ∷ ks) (w ∷ ws) v = steps ks ws (step k w v)

abbrev vars_of : List ℕ → Vars
vars_of s = record {
  a = word s 0;
  b = word s 1;
  c = word s 2;
  d = word s 3;
  e = word s 4;
  f = word s 5;
  g = word s 6;
  h = word s 7;
}

-- Step 4: the next hash value.
abbrev sum : List ℕ → Vars → List ℕ
sum s v =
    (word s 0 + v.a) % 2 ^ 32
    ∷ (word s 1 + v.b) % 2 ^ 32
    ∷ (word s 2 + v.c) % 2 ^ 32
    ∷ (word s 3 + v.d) % 2 ^ 32
    ∷ (word s 4 + v.e) % 2 ^ 32
    ∷ (word s 5 + v.f) % 2 ^ 32
    ∷ (word s 6 + v.g) % 2 ^ 32
    ∷ (word s 7 + v.h) % 2 ^ 32
    ∷ []

pub record Compresses (ks state block next : List ℕ) : Type 0 where
  pub schedule : List ℕ
  pub is_schedule : IsSchedule block schedule
  pub summed : next ≡ sum state (steps ks schedule (vars_of state))

rounds-steps : (ks ws : List ℕ) (v : Vars) → rounds ks ws v ≡ steps ks ws v
unfolding rounds steps round sig0 sig1 ch maj rotr
rounds-steps [] ws v = refl
rounds-steps (k ∷ ks) [] v = refl
rounds-steps (k ∷ ks) (w ∷ ws) v = rounds-steps ks ws (step k w v)

word-append : (w ys : List ℕ) (t : ℕ) → t < length w → word (w ++ ys) t ≡ word w t
word-append [] ys t h = absurd (omega arith)
word-append (x ∷ w) ys zero h = refl
word-append (x ∷ w) ys (suc t) h = word-append w ys t (omega arith)

word-append_end : (w : List ℕ) (x : ℕ) → word (w ++ x ∷ []) (length w) ≡ x
word-append_end [] x = refl
word-append_end (y ∷ w) x = word-append_end w x

length-load_words : (n i : ℕ) (block : List ℕ) → length (load_words n i block) ≡ n
unfolding load_words
length-load_words zero i block = refl
length-load_words (suc n) i block = omega (arith, length-load_words n (i + 1) block)

word-load_words :
    (n i : ℕ) (block : List ℕ) (t : ℕ)
    → t < n
    → word (load_words n i block) t ≡ loaded_word block (i + t)
unfolding load_words
word-load_words zero i block t h = absurd (omega arith)
word-load_words (suc n) i block zero h = ap (loaded_word block) (omega arith)
word-load_words (suc n) i block (suc t) h =
    word-load_words n (i + 1) block t (omega arith) ∙ ap (loaded_word block) (omega arith)

-- What `extend_words` makes of the first `i` words.
record Extends (n i : ℕ) (w r : List ℕ) : Type 0 where
  len : length r ≡ i + n
  kept : (t : ℕ) → t < i → word r t ≡ word w t
  extended : (t : ℕ) → i ≤ t → t < i + n → word r t ≡ next_word r t

Extends-next :
    (n i : ℕ) (w r : List ℕ)
    → 16 ≤ i
    → length w ≡ i
    → Extends n (i + 1) (w ++ next_word w i ∷ []) r
    → Extends (suc n) i w r
Extends-next n i w r b l e = record {
  len = omega (arith, e.len);
  kept = kept;
  extended = λ t h h'. elim (Bool-cases (ltb i t)) [
    | inl above ↦ e.extended t (ground arith) (omega arith)
    | inr at ↦ subst (λ k. word r k ≡ next_word r k) (ground arith) here
  ];
}
  where
    kept : (t : ℕ) → t < i → word r t ≡ word w t
    kept t h = e.kept t (omega arith) ∙ word-append w (next_word w i ∷ []) t (omega arith)

    here : word r i ≡ next_word r i
    here =
        e.kept i (omega arith)
        ∙ ap (word (w ++ next_word w i ∷ [])) (sym l)
        ∙ word-append_end w (next_word w i)
        ∙ sym (
            rw
              (
                kept (i - 2) (omega arith),
                kept (i - 7) (omega arith),
                kept (i - 15) (omega arith),
                kept (i - 16) (omega arith),
              )
              refl)

extend_words-Extends :
    (n i : ℕ) (w : List ℕ) → 16 ≤ i → length w ≡ i → Extends n i w (extend_words n i w)
unfolding extend_words ep0 ep1 rotr
extend_words-Extends zero i w b l = record {
  len = omega arith;
  kept = λ t h. refl;
  extended = λ t h h'. absurd (omega arith);
}
extend_words-Extends (suc n) i w b l = Extends-next n i w _ b l (
    extend_words-Extends n (i + 1) (w ++ next_word w i ∷ []) (omega arith)
      (omega (arith, length-append w (next_word w i ∷ []))))

-- `transform` is the compression function of the standard with the code's constants.
pub transform-Compresses :
    (state block : List ℕ) → Compresses round_constants state block (transform state block)
unfolding transform
transform-Compresses state block = record {
  schedule = extend_words 48 16 first;
  is_schedule = record {
    len = e.len;
    loaded =
        λ t h. e.kept t h ∙ word-load_words 16 0 block t h ∙ ap (loaded_word block) (omega arith);
    extended = λ t h h'. e.extended t h h';
  };
  summed = ap (sum state) (rounds-steps round_constants (extend_words 48 16 first) (vars_of state));
}
  where
    first : List ℕ
    first = load_words 16 0 block

    e : Extends 48 16 first (extend_words 48 16 first)
    e = extend_words-Extends 48 16 first (omega arith) (length-load_words 16 0 block)
