-- ===== src/AccessManager/Totp/CodeLaws.antt =====
-- Codes of totp.mjs: their form, and the times at which they are accepted.
use dsh_docker.Prelude.{
  ℕ, zero, suc, ◌+◌, ◌-◌, ◌*◌, ◌/◌, ◌≤◌, ◌<◌, ◌≡◌, ◌↔◌, inl, inr, List, some, true, false, arith,
}
use dsh_docker.Prelude.Tests.{ltb, ◌==◌, lt→ltb, Bool-cases}
use dsh_docker.Prelude.Lists.{length}
use dsh_docker.Prelude.Text.{Text, text_eq, text_eq_iff}
use dsh_docker.AccessManager.Totp.Base32.{base32_decode}
use dsh_docker.AccessManager.Totp.Code.{
  Hmac, truncated, decimal, pad_start, is_code, counter_buffer, code_for, totp_code, verify_loop,
  verify_totp_code,
}

is_code-pad : (v : ℕ) → v < 1_000_000 → is_code (pad_start 6 (decimal 6 v)) ≡ true
unfolding is_code decimal
is_code-pad v h = elim (Bool-cases (ltb v 10)) [
  | inl a ↦ rw a (ground arith)
  | inr a ↦ elim (Bool-cases (ltb (v / 10) 10)) [
    | inl b ↦ rw (a, b) (ground arith)
    | inr b ↦ elim (Bool-cases (ltb (v / 10 / 10) 10)) [
      | inl c ↦ rw (a, b, c) (ground arith)
      | inr c ↦ elim (Bool-cases (ltb (v / 10 / 10 / 10) 10)) [
        | inl d ↦ rw (a, b, c, d) (ground arith)
        | inr d ↦ elim (Bool-cases (ltb (v / 10 / 10 / 10 / 10) 10)) [
          | inl e ↦ rw (a, b, c, d, e) (ground arith)
          | inr e ↦
              rw (a, b, c, d, e, lt→ltb (v / 10 / 10 / 10 / 10 / 10) 10 (omega arith))
                (ground arith)
        ]
      ]
    ]
  ]
]

truncated-lt : (bytes : List ℕ) → truncated bytes < 1_000_000
truncated-lt bytes = omega arith

is_code-code_for :
    (hmac : Hmac) (key : List ℕ) (counter : ℕ) → is_code (code_for hmac key counter) ≡ true
is_code-code_for hmac key counter =
    let bytes = hmac.apply key (counter_buffer counter) in
    is_code-pad (truncated bytes) (truncated-lt bytes)

-- A secret of 20 bytes, at a time that is at least the window after the epoch.
pub record IsUsable (secret : Text) (key : List ℕ) (now window : ℕ) : Type 0 where
  pub decoded : base32_decode secret ≡ some key
  pub length_20 : length key ≡ 20
  pub late : window ≤ now / 30_000

module _ (hmac : Hmac) (secret : Text) (key : List ℕ) (now window : ℕ)
    (u : IsUsable secret key now window) where
  totp_code-some :
      (i : ℕ)
      → totp_code hmac secret now i window ≡ some (code_for hmac key (now / 30_000 + i - window))
  unfolding totp_code
  totp_code-some i = rw (u.decoded, totp_code) (ground (arith, u.length_20, u.late))

  later :
      (i target : ℕ) (code : Text)
      → text_eq code (code_for hmac key (now / 30_000 + i - window)) ≡ false
      → i ≤ target
      → code ≡ code_for hmac key (now / 30_000 + target - window)
      → i + 1 ≤ target
  later i target code miss h e = elim (Bool-cases (i == target)) [
    | inl same ↦
        let equal : i ≡ target = ground arith in
        let hit =
          (text_eq_iff code (code_for hmac key (now / 30_000 + i - window))).1 (rw equal e) in
        absurd (ground arith)
    | inr other ↦ ground arith
  ]

  loop_finds :
      (rounds i target : ℕ) (code : Text)
      → i ≤ target
      → target < i + rounds
      → code ≡ code_for hmac key (now / 30_000 + target - window)
      → verify_loop hmac rounds code secret now window i ≡ some true
  unfolding verify_loop
  loop_finds zero i target code h k e = absurd (omega arith)
  loop_finds (suc rounds) i target code h k e =
      rw (totp_code-some i, verify_loop)
        (elim (Bool-cases (text_eq code (code_for hmac key (now / 30_000 + i - window)))) [
          | inl hit ↦ rw hit
          | inr miss ↦
              rw miss (
                loop_finds rounds (i + 1) target code (later i target code miss h e) (omega arith)
                  e)
        ])

  loop_sound :
      (rounds i : ℕ) (code : Text)
      → verify_loop hmac rounds code secret now window i ≡ some true
      → (j : ℕ) × (i ≤ j)
        × (j < i + rounds)
        × (code ≡ code_for hmac key (now / 30_000 + j - window))
  unfolding verify_loop
  loop_sound zero i code h = cc
  loop_sound (suc rounds) i code h =
      elim (Bool-cases (text_eq code (code_for hmac key (now / 30_000 + i - window)))) [
        | inl hit ↦ (i, omega arith, omega arith, (text_eq_iff code _).0 hit)
        | inr miss ↦
            let (j, a, b, c) =
              loop_sound rounds (i + 1) code (rw (totp_code-some i, verify_loop, miss) at h) in
            (j, omega arith, omega arith, c)
      ]

  accepted_loop :
      (code : Text)
      → verify_totp_code hmac code secret now window ≡ some true
      → verify_loop hmac (2 * window + 1) code secret now window 0 ≡ some true
  unfolding verify_totp_code
  accepted_loop code h = elim (Bool-cases (is_code code)) [
    | inl form ↦ rw (form, verify_totp_code) at h
    | inr bad ↦ cc (rw (bad, verify_totp_code) at h)
  ]

  -- For a secret of 20 bytes, at a time that is at least the window after the epoch, a code is
  -- accepted exactly when it is the code of one of the counters from the window before the time's
  -- own to the window behind it.
  pub verify_totp_code_iff :
      (code : Text)
      → (verify_totp_code hmac code secret now window ≡ some true)
        ↔ ((j : ℕ) × (j ≤ 2 * window) × (code ≡ code_for hmac key (now / 30_000 + j - window)))
  unfolding verify_totp_code
  verify_totp_code_iff code = (
    λ h.
        let (j, a, b, c) = loop_sound (2 * window + 1) 0 code (accepted_loop code h) in
        (j, omega arith, c),
    λ g.
        let (j, a, c) = g in
        let form : is_code code ≡ true =
          rw c (is_code-code_for hmac key (now / 30_000 + j - window)) in
        rw (form, verify_totp_code)
          (loop_finds (2 * window + 1) 0 j code (omega arith) (omega arith) c),
  )
