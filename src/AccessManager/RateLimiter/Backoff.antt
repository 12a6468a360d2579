-- ===== src/AccessManager/RateLimiter/Backoff.antt =====
-- How a run of failures holds the next attempt back: `release(false)` against `checkRetry`.
use native.Mathlib.Nat.{pow-le-pow_right}
use dsh_docker.Prelude.{
  ℕ, ◌+◌, ◌-◌, ◌*◌, ◌^◌, ◌≤◌, ◌<◌, ◌≡◌, refl, ◌↔◌, inl, inr, none, some, arith, max,
}
use dsh_docker.Prelude.Tests.{ltb, if◌then◌else◌, ◌==◌, Option-cases}
use dsh_docker.Prelude.Text.{Text, text_eq, text_eq_refl}
use dsh_docker.Prelude.Map.{get, get-put, get-delete}
use dsh_docker.AccessManager.RateLimiter.Windows.{ceil_seconds}
use dsh_docker.AccessManager.RateLimiter.Limiter.{
  Config, Limiter, Retry, Ticket, ok, err, retry_required, key_of, is_reset, current_retry,
  check_retry, next_failures, backoff_ms, failed_retry, settle_failure, settle_success,
}

pub backoff_ms-le : (c : Config) (n : ℕ) → backoff_ms c n ≤ c.max_backoff_ms
unfolding backoff_ms
backoff_ms-le c n = ground arith

scaled_mono : (b i j : ℕ) → i ≤ j → b * 2 ^ i ≤ b * 2 ^ j
scaled_mono b i j h = grind (arith, pow-le-pow_right {n = 2} (omega arith) h)

-- The backoff never shortens as a run of failures grows, never passes the longest backoff, and is
-- 0 below the threshold.
pub backoff_ms_mono :
    (c : Config) (m n : ℕ)
    → m ≤ n
    → (backoff_ms c m ≤ backoff_ms c n)
      × (backoff_ms c n ≤ c.max_backoff_ms)
      × (m < c.backoff_threshold → backoff_ms c m ≡ 0)
unfolding backoff_ms
backoff_ms_mono c m n h =
    let scaled =
      scaled_mono c.initial_backoff_ms (m - c.backoff_threshold) (n - c.backoff_threshold) in
    (ground (arith, scaled), ground arith, λ low. ground arith)

get-settle_failure :
    (l : Limiter) (t : Ticket) (failed_at : ℕ)
    → get (key_of t) (settle_failure l t failed_at).consecutive_failures
      ≡ some (failed_retry l (key_of t) failed_at)
unfolding settle_failure
get-settle_failure l t failed_at = ground (
  arith,
  get-put (key_of t) (key_of t) (failed_retry l (key_of t) failed_at) l.consecutive_failures,
  text_eq_refl (key_of t),
)

-- What the check does with a run of failures that it finds.
check_retry_found :
    (l : Limiter) (key : Text) (now : ℕ) (r : Retry)
    → get key l.consecutive_failures ≡ some r
    → (check_retry l key now).1 ≡ (
        if is_reset l.consecutive_reset_ms now r
        then ok tt
        else if ltb now r.blocked_until
        then err (retry_required (max 1 (ceil_seconds (r.blocked_until - now))))
        else ok tt)
unfolding check_retry current_retry
check_retry_found l key now r e = ground arith

check_retry_missing :
    (l : Limiter) (key : Text) (now : ℕ)
    → get key l.consecutive_failures ≡ none
    → (check_retry l key now).1 ≡ ok tt
unfolding check_retry current_retry
check_retry_missing l key now e = ground arith

failed_retry_fields :
    (l : Limiter) (key : Text) (failed_at : ℕ)
    → let wait = backoff_ms l.config (next_failures l (get key l.consecutive_failures) failed_at) in
      ((failed_retry l key failed_at).blocked_until ≡ (if wait == 0 then 0 else failed_at + wait))
      × ((failed_retry l key failed_at).last_failure_at ≡ failed_at)
unfolding failed_retry
failed_retry_fields l key failed_at = (refl, refl)

config-settle_failure :
    (l : Limiter) (t : Ticket) (failed_at : ℕ) → (settle_failure l t failed_at).config ≡ l.config
unfolding settle_failure
config-settle_failure l t failed_at = refl

-- After a failed attempt the retry check lets its key through exactly from the end of the backoff
-- of its run of failures on, where no backoff is longer than the time after which a run is
-- forgotten.
pub check_retry-settle_failure :
    (l : Limiter) (t : Ticket) (failed_at now : ℕ)
    → failed_at ≤ now
    → l.max_backoff_ms ≤ l.consecutive_reset_ms
    → ((check_retry (settle_failure l t failed_at) (key_of t) now).1 ≡ ok tt) ↔ (
        failed_at
          + backoff_ms l.config (next_failures l (get (key_of t) l.consecutive_failures) failed_at)
        ≤ now)
check_retry-settle_failure l t failed_at now h k =
    let run = next_failures l (get (key_of t) l.consecutive_failures) failed_at in
    let found =
      check_retry_found (settle_failure l t failed_at) (key_of t) now
        (failed_retry l (key_of t) failed_at) (get-settle_failure l t failed_at) in
    let fields = failed_retry_fields l (key_of t) failed_at in
    let same = config-settle_failure l t failed_at in
    let bound = backoff_ms-le l.config run in (λ e. ground arith, λ e. ground arith)

-- A refusal of the retry check names a wait of at least one second, and once that many seconds
-- have passed the check lets the key through.
pub check_retry-retry_required :
    (l : Limiter) (key : Text) (now later seconds : ℕ)
    → (check_retry l key now).1 ≡ err (retry_required seconds)
    → now + 1000 * seconds ≤ later
    → (1 ≤ seconds) × ((check_retry l key later).1 ≡ ok tt)
check_retry-retry_required l key now later seconds e h =
    elim (Option-cases (get key l.consecutive_failures)) [
      | inl missing ↦ cc (check_retry_missing l key now missing)
      | inr (r, found) ↦
          let before = check_retry_found l key now r found in
          let after = check_retry_found l key later r found in (ground arith, ground arith)
    ]

-- A success ends the run of its own key and leaves that of every other.
pub get-settle_success :
    (l : Limiter) (t : Ticket) (key : Text)
    → let l' = settle_success l t in
      (get key l'.consecutive_failures
        ≡ (if text_eq (key_of t) key then none else get key l.consecutive_failures))
      × (get key l'.sources ≡ (if text_eq (key_of t) key then none else get key l.sources))
unfolding settle_success
get-settle_success l t key =
    (get-delete (key_of t) key l.consecutive_failures, get-delete (key_of t) key l.sources)
