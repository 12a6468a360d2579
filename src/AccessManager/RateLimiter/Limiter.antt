-- ===== src/AccessManager/RateLimiter/Limiter.antt =====
-- rate-limiter.mjs: the class `AuthenticationLimiter`. The arrays of the sources live on a heap,
-- since an attempt holds on to its array while the map may lose it. Each `this.clock()` of the
-- source is an argument.
use dsh_docker.Prelude.{
  ℕ, ◌+◌, ◌-◌, ◌*◌, ◌^◌, List, [], ◌∷◌, ◌++◌, Option, none, some, Bool, true, false, min, max, not,
}
use dsh_docker.Prelude.Tests.{ltb, leb, if◌then◌else◌, ◌==◌}
use dsh_docker.Prelude.Lists.{length, get_elem?, set}
use dsh_docker.Prelude.Text.{Text}
use dsh_docker.Prelude.Map.{Map, get, put, delete, retain}
use dsh_docker.AccessManager.RateLimiter.Windows.{
  Failure, time, tagged, Window, prune, retry_after_seconds, ceil_seconds, max_window_ms,
}
use dsh_docker.AccessManager.RateLimiter.Keys.{retry_key}

pub record Config : Type 0 where
  pub window_ms : ℕ
  pub max_concurrent : ℕ
  pub backoff_threshold : ℕ
  pub initial_backoff_ms : ℕ
  pub max_backoff_ms : ℕ
  pub consecutive_reset_ms : ℕ
  pub source_windows : List Window
  pub global_windows : List Window

pub record Retry : Type 0 where
  pub failures : ℕ
  pub blocked_until : ℕ
  pub last_failure_at : ℕ

-- `sources` maps a key to the address of its array; `none` stands for -Infinity.
pub record Limiter : Type 0 where
  pub config : Config
  pub open config use *
  pub global : List Failure
  pub sources : Map ℕ
  pub heap : List (List Failure)
  pub consecutive_failures : Map Retry
  pub active : ℕ
  pub last_prune_at : Option ℕ

pub data AccessError : Type 0 where
  retry_required : ℕ → AccessError
  rate_limited : ℕ → AccessError

pub data Result {ℓ} (A : Type ℓ) : Type ℓ where
  ok : A → Result A
  err : AccessError → Result A

-- What the closure `release` holds.
pub record Ticket : Type 0 where
  pub account : Text
  pub source : Text
  pub credential : Text
  pub address : ℕ
  pub released : Bool

pub record SourceStatus : Type 0 where
  pub failures : ℕ
  pub retry_after : ℕ

abbrev pub key_of : Ticket → Text
key_of t = retry_key t.account t.source t.credential

unfoldable pub init : Config → Limiter
init c = record {
  config = c;
  global = [];
  sources = [];
  heap = [];
  consecutive_failures = [];
  active = 0;
  last_prune_at = none;
}

abbrev pub read_array : List (List Failure) → ℕ → List Failure
read_array heap a = elim (get_elem? heap a) [ none ↦ [] | some values ↦ values ]

-- Whether a run of failures has been forgotten.
abbrev pub is_reset : ℕ → ℕ → Retry → Bool
is_reset reset_ms now r = leb (r.last_failure_at + reset_ms) now

abbrev pub is_empty {ℓ} : {A : Type ℓ} → List A → Bool
is_empty [] = true
is_empty (_ ∷ _) = false

-- The first loop of `pruneExpiredSources`.
unfoldable pub prune_sources : ℕ → ℕ → Map ℕ → List (List Failure) → Map ℕ × List (List Failure)
prune_sources now window_ms [] heap = ([], heap)
prune_sources now window_ms ((k, a) ∷ m) heap =
    let values = prune (read_array heap a) now window_ms in
    let (m', heap') = prune_sources now window_ms m (set heap a values) in
    (if is_empty values then m' else (k, a) ∷ m', heap')

pub recently_pruned : Option ℕ → ℕ → ℕ → Bool
recently_pruned none now window_ms = false
recently_pruned (some last) now window_ms = ltb now (last + window_ms)

unfoldable pub prune_expired_sources : Limiter → ℕ → Limiter
unfolding recently_pruned
prune_expired_sources l now =
    let (sources', heap') = prune_sources now (max_window_ms l.source_windows) l.sources l.heap in
    if recently_pruned l.last_prune_at now l.window_ms then l else record l {
      last_prune_at = some now;
      sources = sources';
      heap = heap';
      consecutive_failures =
          retain (λ _ r. not (is_reset l.consecutive_reset_ms now r)) l.consecutive_failures;
    }

-- `currentRetry` forgets a run of failures that is old enough.
unfoldable pub current_retry : Limiter → Text → ℕ → Limiter × Option Retry
current_retry l key now = elim (get key l.consecutive_failures) [
  | none ↦ (l, none)
  | some r ↦
      if is_reset l.consecutive_reset_ms now r
      then (record l { consecutive_failures = delete key l.consecutive_failures }, none)
      else (l, some r)
]

unfoldable pub check_retry : Limiter → Text → ℕ → Limiter × Result (Unit {0})
unfolding current_retry
check_retry l key now =
    let (l', retry) = current_retry l key now in
    elim retry [
      | none ↦ (l', ok tt)
      | some r ↦
          if ltb now r.blocked_until
          then (l', err (retry_required (max 1 (ceil_seconds (r.blocked_until - now)))))
          else (l', ok tt)
    ]

-- `this.sources.get(key) ?? []`
unfoldable pub source_array : Limiter → Text → Limiter × ℕ
source_array l key = elim (get key l.sources) [
  | some a ↦ (l, a)
  | none ↦ (record l { heap = l.heap ++ ([] ∷ []) }, length l.heap)
]

-- The part of `enter` that prunes, behind the retry check.
unfoldable pub prepare : Limiter → Text → ℕ → Limiter × ℕ
unfolding prune_expired_sources source_array
prepare l key now =
    let (l', a) = source_array (prune_expired_sources l now) key in
    (
      record l' {
        heap = set l'.heap a (prune (read_array l'.heap a) now (max_window_ms l'.source_windows));
        sources = put key a l'.sources;
        global = prune l'.global now (max_window_ms l'.global_windows);
      },
      a,
    )

-- The tests of `enter` behind the pruning, in the order of the source.
unfoldable pub admit : Limiter → ℕ → ℕ → Result (Unit {0})
admit l a now =
    let global_wait = retry_after_seconds l.global l.global_windows now in
    let source_wait = retry_after_seconds (read_array l.heap a) l.source_windows now in
    if leb l.max_concurrent l.active
    then err (rate_limited 1)
    else if ltb 0 source_wait
    then err (rate_limited source_wait)
    else if ltb 0 global_wait
    then err (rate_limited global_wait)
    else ok tt

unfoldable pub enter_unblocked : Limiter → Text → Text → Text → ℕ → Limiter × Result Ticket
enter_unblocked l account source credential now =
    let (l', a) = prepare l (retry_key account source credential) now in
    elim (admit l' a now) [
      | err e ↦ (l', err e)
      | ok _ ↦ (
        record l' { active = l'.active + 1 },
        ok (record {
          account = account;
          source = source;
          credential = credential;
          address = a;
          released = false;
        }),
      )
    ]

-- The clock is read by the retry check, and again behind it.
unfoldable pub enter : Limiter → Text → Text → Text → ℕ → ℕ → Limiter × Result Ticket
enter l account source credential now later =
    let (l', r) = check_retry l (retry_key account source credential) now in
    elim r [ err e ↦ (l', err e) | ok _ ↦ enter_unblocked l' account source credential later ]

unfoldable pub source_status : Limiter → Text → ℕ → ℕ → Limiter × SourceStatus
unfolding current_retry
source_status l key now later =
    let (l', retry) = current_retry l key now in
    elim retry [
      | none ↦ (l', record { failures = 0; retry_after = 0 })
      | some r ↦ (
        l',
        record { failures = r.failures; retry_after = ceil_seconds (r.blocked_until - later) },
      )
    ]

-- The run of failures that a new one makes.
unfoldable pub next_failures : Limiter → Option Retry → ℕ → ℕ
next_failures l none failed_at = 1
next_failures l (some r) failed_at =
    if ltb failed_at (r.last_failure_at + l.consecutive_reset_ms) then r.failures + 1 else 1

unfoldable pub backoff_ms : Config → ℕ → ℕ
backoff_ms c failures =
    if ltb failures c.backoff_threshold
    then 0
    else min c.max_backoff_ms (c.initial_backoff_ms * 2 ^ (failures - c.backoff_threshold))

unfoldable pub failed_retry : Limiter → Text → ℕ → Retry
unfolding next_failures backoff_ms
failed_retry l key failed_at =
    let failures = next_failures l (get key l.consecutive_failures) failed_at in
    let wait = backoff_ms l.config failures in
    record {
      failures = failures;
      blocked_until = if wait == 0 then 0 else failed_at + wait;
      last_failure_at = failed_at;
    }

-- The effect of `release(false)` and of `release(true)`, before the status is read.
unfoldable pub settle_failure : Limiter → Ticket → ℕ → Limiter
unfolding failed_retry
settle_failure l t failed_at = record l {
  active = l.active - 1;
  global = l.global ++ (tagged failed_at t.credential ∷ []);
  heap = set l.heap t.address (read_array l.heap t.address ++ (time failed_at ∷ []));
  consecutive_failures =
      put (key_of t) (failed_retry l (key_of t) failed_at) l.consecutive_failures;
}

unfoldable pub settle_success : Limiter → Ticket → Limiter
settle_success l t = record l {
  active = l.active - 1;
  consecutive_failures = delete (key_of t) l.consecutive_failures;
  sources = delete (key_of t) l.sources;
}

-- `release(success)`. A released ticket only reads the status.
unfoldable pub settle : Limiter → Ticket → Bool → ℕ → Limiter
unfolding settle_failure settle_success
settle l t success failed_at =
    if t.released then l else if success then settle_success l t else settle_failure l t failed_at

unfoldable pub release : Limiter → Ticket → Bool → ℕ → ℕ → ℕ → Limiter × Ticket × SourceStatus
unfolding settle source_status
release l t success failed_at now later =
    let (l', status) = source_status (settle l t success failed_at) (key_of t) now later in
    (l', record t { released = true }, status)
