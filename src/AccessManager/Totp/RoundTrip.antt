-- ===== src/AccessManager/Totp/RoundTrip.antt =====
-- Decoding the base-32 text of totp.mjs gives the bytes back.
use mathlib.Core.Path.{ap₂, subst}
use dsh_docker.Prelude.{
  ℕ, zero, suc, ◌+◌, ◌-◌, ◌*◌, ◌/◌, ◌%◌, ◌^◌, ◌<◌, ◌≡◌, refl, inl, inr, ap, sym, ◌∙◌, List, [], ◌∷◌,
  ◌++◌, some, true, arith,
}
use dsh_docker.Prelude.Tests.{leb, Bool-cases, if◌then◌else◌}
use dsh_docker.Prelude.Lists.{length, All}
use dsh_docker.Prelude.Text.{Text}
use dsh_docker.AccessManager.Totp.Base32.{
  word, letter, index_of, in_alphabet, flush, encode_from, base32_encode, decode_from, all_letters,
  base32_decode, valid_totp_secret,
}

index_of-letter : (d : ℕ) → d < 32 → index_of (letter d) ≡ d
unfolding index_of letter
index_of-letter d h = ground arith

in_alphabet-letter : (d : ℕ) → d < 32 → in_alphabet (letter d) ≡ true
unfolding in_alphabet letter
in_alphabet-letter d h = ground arith

abbrev next : ℕ → ℕ → ℕ
next buffer byte = (buffer * 256) % word + byte

abbrev shifted : ℕ → ℕ → ℕ
shifted buffer digit = (buffer * 32) % word + digit

encode_0 :
    (b x : ℕ) (xs : List ℕ)
    → encode_from b 0 (x ∷ xs) ≡ letter ((next b x / 2 ^ 3) % 32) ∷ encode_from (next b x) 3 xs
unfolding encode_from flush
encode_0 b x xs = refl

encode_1 :
    (b x : ℕ) (xs : List ℕ)
    → encode_from b 1 (x ∷ xs) ≡ letter ((next b x / 2 ^ 4) % 32) ∷ encode_from (next b x) 4 xs
unfolding encode_from flush
encode_1 b x xs = refl

encode_2 :
    (b x : ℕ) (xs : List ℕ)
    → encode_from b 2 (x ∷ xs)
      ≡ letter ((next b x / 2 ^ 5) % 32)
        ∷ letter ((next b x / 2 ^ 0) % 32)
        ∷ encode_from (next b x) 0 xs
unfolding encode_from flush
encode_2 b x xs = refl

encode_3 :
    (b x : ℕ) (xs : List ℕ)
    → encode_from b 3 (x ∷ xs)
      ≡ letter ((next b x / 2 ^ 6) % 32)
        ∷ letter ((next b x / 2 ^ 1) % 32)
        ∷ encode_from (next b x) 1 xs
unfolding encode_from flush
encode_3 b x xs = refl

encode_4 :
    (b x : ℕ) (xs : List ℕ)
    → encode_from b 4 (x ∷ xs)
      ≡ letter ((next b x / 2 ^ 7) % 32)
        ∷ letter ((next b x / 2 ^ 2) % 32)
        ∷ encode_from (next b x) 2 xs
unfolding encode_from flush
encode_4 b x xs = refl

decode_step :
    (buffer bits digit : ℕ) (cs : Text)
    → digit < 32
    → decode_from buffer bits (letter digit ∷ cs) ≡ (
        if leb 8 (bits + 5)
        then ((shifted buffer digit / 2 ^ (bits + 5 - 8)) % 256)
          ∷ decode_from (shifted buffer digit) (bits + 5 - 8) cs
        else decode_from (shifted buffer digit) (bits + 5) cs)
unfolding decode_from
decode_step buffer bits digit cs h = elim (Bool-cases (leb 8 (bits + 5))) [
  | inl e ↦ rw (index_of-letter digit h, e)
  | inr e ↦ rw (index_of-letter digit h, e)
]

decode_nil : (buffer bits : ℕ) → decode_from buffer bits [] ≡ []
unfolding decode_from
decode_nil buffer bits = refl

abbrev Bytes : List ℕ → Type 0
Bytes = All (λ x. x < 256)

mutual
  unfolding encode_from

  decode_0 : (d b : ℕ) (xs : List ℕ) → Bytes xs → decode_from d 0 (encode_from b 0 xs) ≡ xs
  decode_0 d b [] h = decode_nil d 0
  decode_0 d b (x ∷ xs) h =
      let d1 = shifted d ((next b x / 2 ^ 3) % 32) in
      rw
        (
          encode_0 b x xs,
          decode_step d 0 ((next b x / 2 ^ 3) % 32) (encode_from (next b x) 3 xs) (omega arith),
        )
        (decode_3 d1 (next b x) x xs (omega arith) (omega arith) h.0 h.1)

  decode_3 :
      (d b last : ℕ) (xs : List ℕ)
      → d % 32 ≡ last / 8
      → b % 8 ≡ last % 8
      → last < 256
      → Bytes xs
      → decode_from d 5 (encode_from b 3 xs) ≡ last ∷ xs
  decode_3 d b last [] p q l h =
      rw (decode_step d 5 ((b * 2 ^ 2) % 32) [] (omega arith), decode_nil)
        (ap (λ (t : ℕ). t ∷ []) (omega arith))
  decode_3 d b last (x ∷ xs) p q l h =
      let d1 = shifted d ((next b x / 2 ^ 6) % 32) in
      let d2 = shifted d1 ((next b x / 2 ^ 1) % 32) in
      let out1 : (d1 / 2 ^ 2) % 256 ≡ last = omega arith in
      rw
        (
          encode_3 b x xs,
          decode_step d 5 ((next b x / 2 ^ 6) % 32)
              (letter ((next b x / 2 ^ 1) % 32) ∷ encode_from (next b x) 1 xs) (omega arith),
          decode_step d1 2 ((next b x / 2 ^ 1) % 32) (encode_from (next b x) 1 xs) (omega arith),
        )
        (ap₂ (λ (t : ℕ) (r : List ℕ). t ∷ r) out1
          (decode_1 d2 (next b x) x xs (omega arith) (omega arith) h.0 h.1))

  decode_1 :
      (d b last : ℕ) (xs : List ℕ)
      → d % 128 ≡ last / 2
      → b % 2 ≡ last % 2
      → last < 256
      → Bytes xs
      → decode_from d 7 (encode_from b 1 xs) ≡ last ∷ xs
  decode_1 d b last [] p q l h =
      rw (decode_step d 7 ((b * 2 ^ 4) % 32) [] (omega arith), decode_nil)
        (ap (λ (t : ℕ). t ∷ []) (omega arith))
  decode_1 d b last (x ∷ xs) p q l h =
      let d1 = shifted d ((next b x / 2 ^ 4) % 32) in
      let out1 : (d1 / 2 ^ 4) % 256 ≡ last = omega arith in
      rw
        (
          encode_1 b x xs,
          decode_step d 7 ((next b x / 2 ^ 4) % 32) (encode_from (next b x) 4 xs) (omega arith),
        )
        (ap₂ (λ (t : ℕ) (r : List ℕ). t ∷ r) out1
          (decode_4 d1 (next b x) x xs (omega arith) (omega arith) h.0 h.1))

  decode_4 :
      (d b last : ℕ) (xs : List ℕ)
      → d % 16 ≡ last / 16
      → b % 16 ≡ last % 16
      → last < 256
      → Bytes xs
      → decode_from d 4 (encode_from b 4 xs) ≡ last ∷ xs
  decode_4 d b last [] p q l h =
      rw (decode_step d 4 ((b * 2 ^ 1) % 32) [] (omega arith), decode_nil)
        (ap (λ (t : ℕ). t ∷ []) (omega arith))
  decode_4 d b last (x ∷ xs) p q l h =
      let d1 = shifted d ((next b x / 2 ^ 7) % 32) in
      let d2 = shifted d1 ((next b x / 2 ^ 2) % 32) in
      let out1 : (d1 / 2 ^ 1) % 256 ≡ last = omega arith in
      rw
        (
          encode_4 b x xs,
          decode_step d 4 ((next b x / 2 ^ 7) % 32)
              (letter ((next b x / 2 ^ 2) % 32) ∷ encode_from (next b x) 2 xs) (omega arith),
          decode_step d1 1 ((next b x / 2 ^ 2) % 32) (encode_from (next b x) 2 xs) (omega arith),
        )
        (ap₂ (λ (t : ℕ) (r : List ℕ). t ∷ r) out1
          (decode_2 d2 (next b x) x xs (omega arith) (omega arith) h.0 h.1))

  decode_2 :
      (d b last : ℕ) (xs : List ℕ)
      → d % 64 ≡ last / 4
      → b % 4 ≡ last % 4
      → last < 256
      → Bytes xs
      → decode_from d 6 (encode_from b 2 xs) ≡ last ∷ xs
  decode_2 d b last [] p q l h =
      rw (decode_step d 6 ((b * 2 ^ 3) % 32) [] (omega arith), decode_nil)
        (ap (λ (t : ℕ). t ∷ []) (omega arith))
  decode_2 d b last (x ∷ xs) p q l h =
      let d1 = shifted d ((next b x / 2 ^ 5) % 32) in
      let d2 = shifted d1 ((next b x / 2 ^ 0) % 32) in
      let out1 : (d1 / 2 ^ 3) % 256 ≡ last = omega arith in
      let out2 : (d2 / 2 ^ 0) % 256 ≡ x = omega arith in
      rw
        (
          encode_2 b x xs,
          decode_step d 6 ((next b x / 2 ^ 5) % 32)
              (letter ((next b x / 2 ^ 0) % 32) ∷ encode_from (next b x) 0 xs) (omega arith),
          decode_step d1 3 ((next b x / 2 ^ 0) % 32) (encode_from (next b x) 0 xs) (omega arith),
        )
        (ap₂ (λ (t : ℕ) (r : List ℕ). t ∷ r) out1
          (ap₂ (λ (t : ℕ) (r : List ℕ). t ∷ r) out2 (decode_0 d2 (next b x) xs h.1)))

all_letters-append :
    (xs ys : Text) → all_letters xs ≡ true → all_letters ys ≡ true → all_letters (xs ++ ys) ≡ true
unfolding all_letters
all_letters-append [] ys h g = g
all_letters-append (x ∷ xs) ys h g = ground (arith, all_letters-append xs ys)

all_letters-flush : (fuel buffer bits : ℕ) → all_letters (flush fuel buffer bits).0 ≡ true
unfolding flush all_letters
all_letters-flush zero buffer bits = refl
all_letters-flush (suc fuel) buffer bits = ground (
  arith,
  all_letters-flush fuel buffer (bits - 5),
  in_alphabet-letter ((buffer / 2 ^ (bits - 5)) % 32),
)

all_letters-encode :
    (buffer bits : ℕ) (xs : List ℕ) → all_letters (encode_from buffer bits xs) ≡ true
unfolding encode_from all_letters
all_letters-encode buffer bits [] =
    ground (arith, in_alphabet-letter ((buffer * 2 ^ (5 - bits)) % 32))
all_letters-encode buffer bits (x ∷ xs) =
    let flushed = flush 3 (next buffer x) (bits + 8) in
    all_letters-append flushed.0 (encode_from (next buffer x) flushed.1 xs)
      (all_letters-flush 3 (next buffer x) (bits + 8))
      (all_letters-encode (next buffer x) flushed.1 xs)

decode_some :
    (c : ℕ) (cs : Text)
    → all_letters (c ∷ cs) ≡ true
    → base32_decode (c ∷ cs) ≡ some (decode_from 0 0 (c ∷ cs))
unfolding base32_decode
decode_some c cs h = rw h

-- Decoding the base-32 text of at least one byte gives the bytes back.
pub base32_decode-encode :
    (x : ℕ) (xs : List ℕ)
    → x < 256
    → All (λ y. y < 256) xs
    → base32_decode (base32_encode (x ∷ xs)) ≡ some (x ∷ xs)
unfolding base32_encode
base32_decode-encode x xs h hs =
    let first = letter ((next 0 x / 2 ^ 3) % 32) in
    let rest = encode_from (next 0 x) 3 xs in
    ap base32_decode (encode_0 0 x xs)
    ∙ decode_some first rest (
        subst (λ (t : Text). all_letters t ≡ true) (encode_0 0 x xs)
          (all_letters-encode 0 0 (x ∷ xs)))
    ∙ ap (λ (t : Text). some (decode_from 0 0 t)) (sym (encode_0 0 x xs))
    ∙ ap some (decode_0 0 0 (x ∷ xs) (h, hs))

-- The text of 20 bytes, as a generated secret is, is a valid secret.
pub valid_totp_secret-encode :
    (bytes : List ℕ)
    → length bytes ≡ 20
    → All (λ y. y < 256) bytes
    → valid_totp_secret (base32_encode bytes) ≡ true
unfolding valid_totp_secret
valid_totp_secret-encode [] n h = absurd (omega arith)
valid_totp_secret-encode (x ∷ xs) n h = rw (base32_decode-encode x xs h.0 h.1) (ground arith)
