-- ===== src/AccessManager/RateLimiter/Clears.antt =====
-- `clear` of rate-limiter.mjs: which keys it empties, and which it leaves.
use dsh_docker.Prelude.{ℕ, ◌≡◌, inl, inr, none, Bool, ◌&&◌, ◌||◌, not, arith}
use dsh_docker.Prelude.Tests.{if◌then◌else◌, Bool-cases}
use dsh_docker.Prelude.Text.{Text, text_eq, starts_with, NoNul}
use dsh_docker.Prelude.Map.{get, retain, get-retain, get-retain_kept}
use dsh_docker.AccessManager.RateLimiter.Keys.{all_credentials, retry_key, retry_prefix}
use dsh_docker.AccessManager.RateLimiter.KeyLaws.{starts_with-retry_prefix}
use dsh_docker.AccessManager.RateLimiter.Limiter.{Limiter, Retry, is_reset, prune_expired_sources}
use dsh_docker.AccessManager.RateLimiter.Status.{forget, status, clear}

-- Whether `clear` is asked to clear an attempt's key.
abbrev pub is_cleared : Text → Text → Text → Text → Bool
is_cleared account credential a c =
    text_eq a account && (text_eq credential all_credentials || text_eq c credential)

clear_key :
    (l : Limiter) (account credential key : Text) (now : ℕ) (clock : Text → ℕ)
    → let l' = (clear l account credential now clock).0 in
      let kept = prune_expired_sources l now in
      let hit = starts_with key (retry_prefix account credential) in
      (get key l'.consecutive_failures ≡ (if hit then none else get key kept.consecutive_failures))
      × (get key l'.sources ≡ (if hit then none else get key kept.sources))
unfolding clear status forget
clear_key l account credential key now clock =
    let prefix = retry_prefix account credential in
    let kept = prune_expired_sources l now in
    let keep = λ (k : Text) (r : Retry).
      not (starts_with k prefix) || not (is_reset kept.consecutive_reset_ms now r) in
    let runs =
      get-retain (λ k. not (starts_with k prefix)) key (retain keep kept.consecutive_failures) in
    let arrays = get-retain (λ k. not (starts_with k prefix)) key kept.sources in
    elim (Bool-cases (starts_with key prefix)) [
      | inl hit ↦ (ground arith, ground arith)
      | inr miss ↦
          let same = get-retain_kept keep key kept.consecutive_failures (λ r. rw miss) in
          (ground arith, ground arith)
    ]

-- For texts without NUL, `clear` leaves no run of failures and no window under the keys of the
-- account and credential that it names, and under every other key all that a pruning at that time
-- leaves.
pub clear_lem :
    (l : Limiter) (account credential a source c : Text) (now : ℕ) (clock : Text → ℕ)
    → NoNul account
    → NoNul credential
    → NoNul a
    → NoNul c
    → let l' = (clear l account credential now clock).0 in
      let kept = prune_expired_sources l now in
      let key = retry_key a source c in
      (get key l'.consecutive_failures
        ≡ (if is_cleared account credential a c then none else get key kept.consecutive_failures))
      × (get key l'.sources
          ≡ (if is_cleared account credential a c then none else get key kept.sources))
clear_lem l account credential a source c now clock h₁ h₂ h₃ h₄ =
    rw (← starts_with-retry_prefix a source c account credential h₃ h₁ h₄ h₂)
      (clear_key l account credential (retry_key a source c) now clock)
