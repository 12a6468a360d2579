-- ===== src/AccessManager/Totp/Base32.antt =====
-- container/control-plane/services/access-manager/lib/totp.mjs: the base-32 text of a secret. The
-- buffer is a 32-bit word: `<<` drops what leaves it, `>>> n & m` reads bits of it, and an `|` of a
-- byte under zero bits is a sum.
use dsh_docker.Prelude.{
  ℕ, zero, suc, ◌+◌, ◌-◌, ◌*◌, ◌/◌, ◌%◌, ◌^◌, List, [], ◌∷◌, ◌++◌, Option, none, some, Bool, true,
  false, ◌&&◌, ◌||◌,
}
use dsh_docker.Prelude.Tests.{leb, ltb, ◌==◌, if◌then◌else◌}
use dsh_docker.Prelude.Lists.{length}
use dsh_docker.Prelude.Text.{Text}

abbrev pub word : ℕ
word = 2 ^ 32

-- `BASE32_ALPHABET[digit]`: A to Z, then 2 to 7.
unfoldable pub letter : ℕ → ℕ
letter d = if ltb d 26 then b'A' + d else b'2' + (d - 26)

-- `BASE32_ALPHABET.indexOf(character)`, of a character in [A-Z2-7].
unfoldable pub index_of : ℕ → ℕ
index_of c = if leb b'A' c then c - b'A' else (c - b'2') + 26

-- `/[A-Z2-7]/`
unfoldable pub in_alphabet : ℕ → Bool
in_alphabet c = (leb b'A' c && leb c b'Z') || (leb b'2' c && leb c b'7')

-- The inner loop of the encoder, `(buffer >>> (bits - 5)) & 31`. Behind a byte at most 12 bits
-- wait, so two rounds are enough; `fuel` counts them.
unfoldable pub flush : ℕ → ℕ → ℕ → Text × ℕ
flush zero buffer bits = ([], bits)
flush (suc fuel) buffer bits =
    let (rest, left) = flush fuel buffer (bits - 5) in
    if leb 5 bits then (letter ((buffer / 2 ^ (bits - 5)) % 32) ∷ rest, left) else ([], bits)

-- The outer loop and the last letter.
unfoldable pub encode_from : ℕ → ℕ → List ℕ → Text
encode_from buffer bits [] = if ltb 0 bits then letter ((buffer * 2 ^ (5 - bits)) % 32) ∷ [] else []
encode_from buffer bits (byte ∷ bytes) =
    let buffer' = (buffer * 256) % word + byte in
    let (letters, left) = flush 3 buffer' (bits + 8) in letters ++ encode_from buffer' left bytes

unfoldable pub base32_encode : List ℕ → Text
unfolding encode_from flush letter
base32_encode value = encode_from 0 0 value

-- The loop of the decoder.
unfoldable pub decode_from : ℕ → ℕ → Text → List ℕ
decode_from buffer bits [] = []
decode_from buffer bits (c ∷ cs) =
    let buffer' = (buffer * 32) % word + index_of c in
    let rest = decode_from buffer' (if leb 8 (bits + 5) then bits + 5 - 8 else bits + 5) cs in
    if leb 8 (bits + 5) then ((buffer' / 2 ^ (bits + 5 - 8)) % 256) ∷ rest else rest

unfoldable pub all_letters : Text → Bool
all_letters [] = true
all_letters (c ∷ cs) = in_alphabet c && all_letters cs

unfoldable pub base32_decode : Text → Option (List ℕ)
unfolding decode_from all_letters in_alphabet index_of
base32_decode [] = none
base32_decode (c ∷ cs) = if all_letters (c ∷ cs) then some (decode_from 0 0 (c ∷ cs)) else none

abbrev has_20_bytes : Option (List ℕ) → Bool
has_20_bytes none = false
has_20_bytes (some bytes) = length bytes == 20

unfoldable pub valid_totp_secret : Text → Bool
unfolding base32_decode
valid_totp_secret secret = has_20_bytes (base32_decode secret)
