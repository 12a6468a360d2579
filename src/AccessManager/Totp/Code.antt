-- ===== src/AccessManager/Totp/Code.antt =====
-- totp.mjs: `totpCode` and `verifyTotpCode`. HMAC-SHA-1 is the parameter `hmac`, which gives 20
-- bytes for a key and a message.
use dsh_docker.Prelude.{
  ℕ, zero, suc, ◌+◌, ◌-◌, ◌*◌, ◌/◌, ◌%◌, ◌^◌, ◌<◌, ◌≡◌, List, [], ◌∷◌, ◌++◌, Option, none, some,
  Bool, true, false, ◌&&◌, not,
}
use dsh_docker.Prelude.Tests.{leb, ltb, ◌==◌, if◌then◌else◌}
use dsh_docker.Prelude.Lists.{length, get_elem?, All, replicate}
use dsh_docker.Prelude.Text.{Text, text_eq}
use dsh_docker.AccessManager.Totp.Base32.{base32_decode}

-- HMAC-SHA-1, of which the code relies on the length and the range of its output.
pub record Hmac : Type 0 where
  pub apply : List ℕ → List ℕ → List ℕ
  pub length_20 : (key message : List ℕ) → length (apply key message) ≡ 20
  pub bytes : (key message : List ℕ) → All (λ b. b < 256) (apply key message)

-- `counterBuffer`: eight bytes, the highest first.
unfoldable pub big_endian : ℕ → ℕ → List ℕ
big_endian zero n = []
big_endian (suc k) n = ((n / 256 ^ k) % 256) ∷ big_endian k n

abbrev pub counter_buffer : ℕ → List ℕ
counter_buffer counter = big_endian 8 counter

abbrev pub byte_at : List ℕ → ℕ → ℕ
byte_at bytes i = elim (get_elem? bytes i) [ none ↦ 0 | some b ↦ b ]

-- `bytes.readUInt32BE(position)`
abbrev pub read_32 : List ℕ → ℕ → ℕ
read_32 bytes i =
    byte_at bytes i * 2 ^ 24
    + byte_at bytes (i + 1) * 2 ^ 16
    + byte_at bytes (i + 2) * 2 ^ 8
    + byte_at bytes (i + 3)

-- `String(value)`, with fuel for one digit less than its rounds.
unfoldable pub decimal : ℕ → ℕ → Text
decimal zero n = []
decimal (suc fuel) n =
    let rest = decimal fuel (n / 10) in
    if ltb n 10 then (b'0' + n) ∷ [] else rest ++ ((b'0' + n % 10) ∷ [])

-- `text.padStart(width, '0')`
abbrev pub pad_start : ℕ → Text → Text
pad_start width text = replicate (width - length text) b'0' ++ text

abbrev pub is_digit : ℕ → Bool
is_digit c = leb b'0' c && leb c b'9'

-- `CODE_PATTERN`
unfoldable pub is_code : Text → Bool
is_code (a ∷ b ∷ c ∷ d ∷ e ∷ f ∷ []) =
    is_digit a && (is_digit b && (is_digit c && (is_digit d && (is_digit e && is_digit f))))
is_code _ = false

-- `(hmac.readUInt32BE(position) & 0x7fffffff) % 1_000_000`, where the last of the 20 bytes gives
-- the position.
abbrev pub truncated : List ℕ → ℕ
truncated bytes = (read_32 bytes (byte_at bytes 19 % 16) % 2 ^ 31) % 1_000_000

module _ (hmac : Hmac) where
  abbrev pub code_for : List ℕ → ℕ → Text
  code_for key counter =
      pad_start 6 (decimal 6 (truncated (hmac.apply key (counter_buffer counter))))

  -- The offset is `ahead - behind`. `none` is an exception: of an invalid secret, or of a counter
  -- below zero, which fits no unsigned number.
  unfoldable pub totp_code : Text → ℕ → ℕ → ℕ → Option Text
  totp_code secret now ahead behind = elim (base32_decode secret) [
    | none ↦ none
    | some key ↦
        if not (length key == 20)
        then none
        else if ltb (now / 30_000 + ahead) behind
        then none
        else some (code_for key (now / 30_000 + ahead - behind))
  ]

  -- The rounds that are left, and the index of the next.
  unfoldable pub verify_loop : ℕ → Text → Text → ℕ → ℕ → ℕ → Option Bool
  verify_loop zero code secret now window i = some false
  verify_loop (suc rounds) code secret now window i =
      let rest = verify_loop rounds code secret now window (i + 1) in
      elim (totp_code secret now i window) [
        | none ↦ none
        | some expected ↦ if text_eq code expected then some true else rest
      ]

  unfoldable pub verify_totp_code : Text → Text → ℕ → ℕ → Option Bool
  verify_totp_code code secret now window =
      if not (is_code code)
      then some false
      else verify_loop (2 * window + 1) code secret now window 0
