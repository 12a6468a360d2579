-- ===== src/AccessManager/Totp/Tests.antt =====
-- Concrete runs of totp.mjs, with a digest that keeps its argument and an HMAC that is always zero.
use dsh_docker.Prelude.{
  ◌↔◌, ◌≡◌, ◌≤◌, ◌-◌, ◌+◌, ◌*◌, ℕ, List, refl, [], ◌∷◌, some, true, false, arith,
}
use dsh_docker.Prelude.Lists.{replicate}
use dsh_docker.Prelude.Text.{Text, text_eq, codes}
use dsh_docker.Prelude.Map.{get, put, retain}
use dsh_docker.AccessManager.Account.{Account}
use dsh_docker.AccessManager.Totp.Base32.{base32_encode}
use dsh_docker.AccessManager.Totp.RoundTrip.{base32_decode-encode}
use dsh_docker.AccessManager.Totp.RetryLimiter.{
  Entry, Settings, Limiter, retry_in, free, rate, retry, record_failure, key_of,
}
use dsh_docker.AccessManager.Totp.RetryLaws.{entry_at, retry-retry_in}
use dsh_docker.AccessManager.Totp.Code.{Hmac, verify_totp_code, code_for}
use dsh_docker.AccessManager.Totp.CodeLaws.{IsUsable, verify_totp_code_iff}
use dsh_docker.AccessManager.Totp.Flows.{Flow, Store, create_enrollment, without_session, prune}

abbrev digest : Text → Text
digest t = t

abbrev account : Account
account = record {
  account_id = codes "a";
  revision = 1;
  main_version = 1;
  additional_enabled = false;
  additional_version = 1;
  access_version = 1;
}

abbrev bytes : List ℕ
bytes = replicate 20 255

abbrev zero_hmac : Hmac
zero_hmac = record {
  apply = λ _ _. replicate 20 0;
  length_20 = λ _ _. refl;
  bytes = λ _ _. ground arith;
}

abbrev settings : Settings
settings = record {
  threshold = 2;
  retry_ms = 30_000;
  daily_window_ms = 86_400_000;
  source_daily_limit = 3;
  global_daily_limit = 5;
}

-- One failure, at 1000.
abbrev once : Entry
once = record { consecutive_failures = 1; blocked_until = 0; failures_in_window = 1000 ∷ [] }

abbrev once_failed : Limiter
once_failed = record {
  settings = settings;
  entries = (key_of (codes "a") (codes "b"), once) ∷ [];
  global_failures = (codes "a", 1000 ∷ []) ∷ [];
}

abbrev twice_failed : Limiter
twice_failed = record once_failed {
  entries =
      (
        key_of (codes "a") (codes "b"),
        record {
          consecutive_failures = 2;
          blocked_until = 32_000;
          failures_in_window = 1000 ∷ 2000 ∷ [];
        },
      )
      ∷ [];
  global_failures = (codes "a", 1000 ∷ 2000 ∷ []) ∷ [];
}

abbrev often : Entry
often = record {
  consecutive_failures = 3;
  blocked_until = 33_000;
  failures_in_window = 1000 ∷ 2000 ∷ 3000 ∷ [];
}

abbrev often_failed : Limiter
often_failed = record once_failed {
  entries = (key_of (codes "a") (codes "b"), often) ∷ [];
  global_failures = (codes "a", 1000 ∷ 2000 ∷ 3000 ∷ []) ∷ [];
}

fails_again : record_failure once_failed (codes "a") (codes "b") 2000 ≡ twice_failed
unfolding record_failure get put text_eq
fails_again = refl

waits : (retry twice_failed (codes "a") (codes "b") 2000).1 ≡ retry_in 30
unfolding retry get put text_eq
waits = refl

is_free : (retry once_failed (codes "a") (codes "b") 2000).1 ≡ free
unfolding retry get put text_eq
is_free = refl

is_limited : (retry often_failed (codes "a") (codes "b") 4000).1 ≡ rate 86_397
unfolding retry get put text_eq
is_limited = refl

finds_once : entry_at once_failed (codes "a") (codes "b") ≡ some once
unfolding get text_eq
finds_once = refl

finds_often : entry_at often_failed (codes "a") (codes "b") ≡ some often
unfolding get text_eq
finds_often = refl

retry-retry_in_example : (retry twice_failed (codes "a") (codes "b") 32_000).1 ≡ free
retry-retry_in_example =
    retry-retry_in twice_failed (codes "a") (codes "b") 2000 32_000 30 waits (omega arith)

encodes : base32_encode (102 ∷ 111 ∷ 111 ∷ []) ≡ codes "MZXW6"
unfolding base32_encode
encodes = refl

usable : IsUsable (base32_encode bytes) bytes 60_000 1
usable = record {
  decoded = base32_decode-encode 255 (replicate 19 255) (omega arith) (ground arith);
  length_20 = refl;
  late = omega arith;
}

verify_totp_code_iff_example :
    (verify_totp_code zero_hmac (codes "000000") (base32_encode bytes) 60_000 1 ≡ some true)
    ↔ ((j : ℕ) × (j ≤ 2 * 1) × (codes "000000" ≡ code_for zero_hmac bytes (2 + j - 1)))
verify_totp_code_iff_example =
    verify_totp_code_iff zero_hmac (base32_encode bytes) bytes 60_000 1 usable (codes "000000")

abbrev empty_store : Store
empty_store = record {
  enrollment_ttl_ms = 300;
  login_ttl_ms = 300;
  enrollments = [];
  disables = [];
  logins = [];
}

abbrev flow : Flow
flow = record {
  account_id = codes "a";
  revision = 1;
  session_id = codes "s";
  secret = some (codes "MZXW6");
  confirmed = false;
  expires_at = 400;
}

enrolls :
    get
      (codes "dshte_t")
      (create_enrollment digest empty_store account
        (codes "s")
        (codes "t")
        (102 ∷ 111 ∷ 111 ∷ [])
        100
        100).0.enrollments
    ≡ some flow
unfolding create_enrollment get put text_eq base32_encode without_session retain prune
enrolls = refl
