-- ===== src/AccessManager/RateLimiter/Tests.antt =====
-- Concrete runs of the limiter of rate-limiter.mjs, with the settings of its constructor.
use dsh_docker.Prelude.{ℕ, ◌≤◌, ◌≡◌, refl, List, [], ◌∷◌, none, some, false, arith}
use dsh_docker.Prelude.Tests.{if◌then◌else◌}
use dsh_docker.Prelude.Text.{Text, codes, text_eq}
use dsh_docker.Prelude.Map.{get, put}
use dsh_docker.AccessManager.RateLimiter.Windows.{
  tagged, Failure, time, Window, retry_after_seconds, retry_after_ms, window_wait,
}
use dsh_docker.AccessManager.RateLimiter.Keys.{retry_key}
use dsh_docker.AccessManager.RateLimiter.Limiter.{
  Config, Limiter, Ticket, ok, err, retry_required, check_retry, enter, settle_failure,
  settle_success, failed_retry, current_retry,
}
use dsh_docker.AccessManager.RateLimiter.Waits.{retry_after-suffices}
use dsh_docker.AccessManager.RateLimiter.Backoff.{check_retry-retry_required, get-settle_success}
use dsh_docker.AccessManager.RateLimiter.Admission.{EnterOutcome}
use dsh_docker.AccessManager.RateLimiter.Room.{EnterRoom, enter_room}
use dsh_docker.AccessManager.RateLimiter.Attempts.{
  enters, releases, checks, Inv, start, run, run-Inv,
}
use dsh_docker.AccessManager.RateLimiter.Recording.{next_array, next_array-detached}

abbrev hour : ℕ
hour = 3_600_000

abbrev day : ℕ
day = 86_400_000

abbrev source_windows : List Window
source_windows =
    record { limit = 12; window_ms = hour } ∷ record { limit = 24; window_ms = day } ∷ []

abbrev global_windows : List Window
global_windows =
    record { limit = 20; window_ms = 60_000 }
    ∷ record { limit = 60; window_ms = hour }
    ∷ record { limit = 120; window_ms = day }
    ∷ []

abbrev defaults : Config
defaults = record {
  window_ms = 60_000;
  max_concurrent = 2;
  backoff_threshold = 5;
  initial_backoff_ms = 30_000;
  max_backoff_ms = 900_000;
  consecutive_reset_ms = day;
  source_windows = source_windows;
  global_windows = global_windows;
}

abbrev admin : Text
admin = codes "admin"

abbrev main_credential : Text
main_credential = codes "main"

abbrev browser : Text
browser = codes "10.0.0.1"

abbrev key : Text
key = retry_key admin browser main_credential

abbrev ticket : Ticket
ticket = record {
  account = admin;
  source = browser;
  credential = main_credential;
  address = 0;
  released = false;
}

-- One attempt is under way, and four in a row have failed.
abbrev busy : Limiter
busy = record {
  config = defaults;
  global = [];
  sources = (key, 0) ∷ [];
  heap = [] ∷ [];
  consecutive_failures =
      (key, record { failures = 4; blocked_until = 0; last_failure_at = 1000 }) ∷ [];
  active = 1;
  last_prune_at = some 1000;
}

-- Two failures in a window of two.
abbrev two_failures : List Failure
two_failures = time 100 ∷ time 700 ∷ []

abbrev pair_window : List Window
pair_window = record { limit = 2; window_ms = 1000 } ∷ []

fifth_failure : (check_retry (settle_failure busy ticket 2000) key 2000).1 ≡ err (retry_required 30)
unfolding check_retry current_retry settle_failure failed_retry get put text_eq retry_key
fifth_failure = refl

window_waits : retry_after_seconds two_failures pair_window 900 ≡ 1
unfolding retry_after_seconds retry_after_ms window_wait
window_waits = refl

run-Inv_example : Inv defaults (
    run
      (start defaults)
      (enters admin browser main_credential 5 6 ∷ releases 0 false 7 8 9 ∷ checks key 10 ∷ []))
run-Inv_example =
    run-Inv defaults
      (enters admin browser main_credential 5 6 ∷ releases 0 false 7 8 9 ∷ checks key 10 ∷ [])
      (omega arith) (omega arith)

-- A failure of the key is on record.
abbrev failing : Limiter
failing = record busy { global = tagged 1500 main_credential ∷ []; heap = (time 1500 ∷ []) ∷ [] }

enter_room_example :
    EnterOutcome failing 2001 (enter failing admin browser main_credential 2000 2001)
    × EnterRoom failing
        (retry_key admin browser main_credential)
        2000
        2001
        (enter failing admin browser main_credential 2000 2001)
unfolding get
enter_room_example =
    enter_room failing admin browser main_credential 2000 2001 (omega arith) (omega arith)
      (refl, tt)

retry_after-suffices_example : retry_after_seconds two_failures pair_window 1900 ≡ 0
unfolding retry_after_seconds retry_after_ms window_wait
retry_after-suffices_example =
    retry_after-suffices two_failures pair_window 900 1900 (omega arith) (omega arith) (omega arith)

check_retry-retry_required_example :
    (1 ≤ 30) × ((check_retry (settle_failure busy ticket 2000) key 32_000).1 ≡ ok tt)
check_retry-retry_required_example =
    check_retry-retry_required (settle_failure busy ticket 2000) key 2000 32_000 30 fifth_failure
      (omega arith)

get-settle_success_example :
    (get key (settle_success busy ticket).consecutive_failures
      ≡ (if text_eq key key then none else get key busy.consecutive_failures))
    × (get key (settle_success busy ticket).sources
        ≡ (if text_eq key key then none else get key busy.sources))
get-settle_success_example = get-settle_success busy ticket key

next_array-detached_example :
    next_array (settle_failure (settle_success busy ticket) ticket 2000) key ≡ []
next_array-detached_example = next_array-detached busy ticket ticket 2000 refl
