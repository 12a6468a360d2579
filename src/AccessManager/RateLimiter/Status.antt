-- ===== src/AccessManager/RateLimiter/Status.antt =====
-- rate-limiter.mjs: `status`, `clear` and `clearGlobal`, which act on an account's keys by their
-- prefix.
use dsh_docker.Prelude.{ℕ, suc, ◌-◌, List, [], ◌∷◌, Bool, false, max, not, ◌||◌}
use dsh_docker.Prelude.Tests.{ltb, if◌then◌else◌}
use dsh_docker.Prelude.Lists.{length, filter}
use dsh_docker.Prelude.Text.{Text, text_eq, starts_with}
use dsh_docker.Prelude.Map.{Map, retain}
use dsh_docker.AccessManager.RateLimiter.Windows.{
  Failure, time, tagged, prune, retry_after_seconds, ceil_seconds, max_window_ms,
}
use dsh_docker.AccessManager.RateLimiter.Keys.{all_credentials, retry_prefix}
use dsh_docker.AccessManager.RateLimiter.Limiter.{
  Limiter, is_reset, prune_expired_sources, read_array,
}

pub record AccountStatus : Type 0 where
  pub active_sources : ℕ
  pub failures : ℕ
  pub retry_after : ℕ
  pub source_retry_after : ℕ
  pub global_failures : ℕ
  pub global_retry_after : ℕ

-- `value.credential === credential`; a plain time has no credential.
abbrev pub is_credential : Text → Failure → Bool
is_credential credential (time _) = false
is_credential credential (tagged _ c) = text_eq c credential

-- `credential === 'all' ? this.global : this.global.filter(...)`
unfoldable pub matching : Text → List Failure → List Failure
unfolding text_eq
matching credential global =
    if text_eq credential all_credentials then global else filter (is_credential credential) global

-- `credential === 'all' ? [] : this.global.filter(...)`
unfoldable pub others : Text → List Failure → List Failure
unfolding text_eq
others credential global =
    if text_eq credential all_credentials
    then []
    else filter (λ v. not (is_credential credential v)) global

-- What `status` forgets before it reports.
unfoldable pub forget : Limiter → Text → Text → ℕ → Limiter
unfolding prune_expired_sources
forget l account credential now =
    let l' = prune_expired_sources l now in
    record l' {
      global = prune l'.global now (max_window_ms l'.global_windows);
      consecutive_failures =
          retain
            (λ k r.
              not (starts_with k (retry_prefix account credential))
              || not (is_reset l'.consecutive_reset_ms now r))
            l'.consecutive_failures;
    }

-- How many runs of failures an account has.
unfoldable pub count_prefix {ℓ} : {V : Type ℓ} → Text → Map V → ℕ
count_prefix prefix [] = 0
count_prefix prefix ((k, v) ∷ m) =
    let rest = count_prefix prefix m in if starts_with k prefix then suc rest else rest

-- The largest of a number for each entry under the prefix, and 0.
unfoldable pub max_prefix {ℓ} : {V : Type ℓ} → (Text → V → ℕ) → Text → Map V → ℕ
max_prefix f prefix [] = 0
max_prefix f prefix ((k, v) ∷ m) =
    let rest = max_prefix f prefix m in if starts_with k prefix then max (f k v) rest else rest

-- `clock` is the reading made at each entry.
unfoldable pub status : Limiter → Text → Text → ℕ → (Text → ℕ) → Limiter × AccountStatus
unfolding forget matching
status l account credential now clock =
    let prefix = retry_prefix account credential in
    let l' = forget l account credential now in
    let global' = matching credential l'.global in
    (
      l',
      record {
        active_sources = count_prefix prefix l'.consecutive_failures;
        failures = max_prefix (λ _ r. r.failures) prefix l'.consecutive_failures;
        retry_after =
            max_prefix (λ k r. ceil_seconds (r.blocked_until - clock k)) prefix
              l'.consecutive_failures;
        source_retry_after =
            max_prefix (λ _ a. retry_after_seconds (read_array l'.heap a) l'.source_windows now)
              prefix l'.sources;
        global_failures = length global';
        global_retry_after = retry_after_seconds global' l'.global_windows now;
      },
    )

-- The flag is `cleared`.
unfoldable pub clear : Limiter → Text → Text → ℕ → (Text → ℕ) → Limiter × Bool × AccountStatus
unfolding status others
clear l account credential now clock =
    let prefix = retry_prefix account credential in
    let (l', previous) = status l account credential now clock in
    (
      record l' {
        consecutive_failures = retain (λ k _. not (starts_with k prefix)) l'.consecutive_failures;
        sources = retain (λ k _. not (starts_with k prefix)) l'.sources;
        global = others credential l'.global;
      },
      ltb 0 previous.active_sources || ltb 0 previous.global_failures,
      previous,
    )

-- The result is `cleared`, `globalFailures` and `globalRetryAfterSeconds`.
unfoldable pub clear_global : Limiter → Text → ℕ → Limiter × Bool × ℕ × ℕ
unfolding matching others
clear_global l credential now =
    let kept = prune l.global now (max_window_ms l.global_windows) in
    let found = matching credential kept in
    (
      record l { global = others credential kept },
      ltb 0 (length found),
      length found,
      retry_after_seconds found l.global_windows now,
    )
