-- ===== src/AccessManager/Totp/RetryLaws.antt =====
-- What the limits of totp.mjs hold back, and for how long.
use dsh_docker.Prelude.{
  ℕ, ◌+◌, ◌*◌, ◌≤◌, ◌<◌, ◌≡◌, refl, sym, ap, ◌∙◌, ◌≢◌, inl, inr, List, [], ◌∷◌, ◌++◌, Option, none,
  some, arith,
}
use dsh_docker.Prelude.Tests.{Option-cases}
use dsh_docker.Prelude.Lists.{length, length-append}
use dsh_docker.Prelude.Text.{Text, text_eq_refl}
use dsh_docker.Prelude.Map.{get, get-put}
use dsh_docker.AccessManager.Totp.RetryLimiter.{
  Entry, Settings, Limiter, rate, retry_in, free, key_of, prune, global_of, pruned_entry, entry_of,
  prune_both, answer, retry, failed_entry, record_failure, succeed,
}

abbrev pub entry_at : Limiter → Text → Text → Option Entry
entry_at l account source = get (key_of account source) l.entries

abbrev pub pruned_at : Settings → ℕ → Option Entry → Option Entry
pruned_at c now none = none
pruned_at c now (some e) = some (pruned_entry c.daily_window_ms now e)

entry-prune_both :
    (l : Limiter) (account source : Text) (now : ℕ)
    → entry_at (prune_both l account source now) account source
      ≡ pruned_at l.settings now (entry_at l account source)
unfolding prune_both
entry-prune_both l account source now =
    let key = key_of account source in
    elim (Option-cases (get key l.entries)) [
      | inl missing ↦ rw (missing, prune_both) missing
      | inr (e, found) ↦
          rw (found, prune_both)
            (get-put key key (pruned_entry l.daily_window_ms now e) l.entries
              ∙ rw (text_eq_refl key) refl)
    ]

global-prune_both :
    (l : Limiter) (account source : Text) (now : ℕ)
    → global_of (prune_both l account source now) account
      ≡ prune l.daily_window_ms now (global_of l account)
unfolding prune_both prune
global-prune_both l account source now =
    let values = global_of l account in
    let stored = get-put account account (prune l.daily_window_ms now values) l.global_failures in
    let same = text_eq_refl account in ground arith

-- What `retry` answers, in terms of the failures that are recorded.
retry-answer :
    (l : Limiter) (account source : Text) (now : ℕ)
    → (retry l account source now).1
      ≡ answer l.settings now
          (pruned_at l.settings now (entry_at l account source))
          (prune l.daily_window_ms now (global_of l account))
unfolding retry
retry-answer l account source now =
    rw (entry-prune_both l account source now, global-prune_both l account source now)

length-prune-le : (window now : ℕ) (vs : List ℕ) → length (prune window now vs) ≤ length vs
unfolding prune
length-prune-le window now [] = omega arith
length-prune-le window now (v ∷ vs) = ground (arith, length-prune-le window now vs)

length-prune_mono :
    (window now later : ℕ) (vs : List ℕ)
    → now ≤ later
    → length (prune window later vs) ≤ length (prune window now vs)
unfolding prune
length-prune_mono window now later [] h = omega arith
length-prune_mono window now later (v ∷ vs) h =
    ground (arith, length-prune_mono window now later vs h, length-prune-le window later vs)

answer-later :
    (c : Settings) (now later w : ℕ) (e : Option Entry) (global : List ℕ)
    → answer c now (pruned_at c now e) (prune c.daily_window_ms now global) ≡ retry_in w
    → now + 1000 * w ≤ later
    → answer c later (pruned_at c later e) (prune c.daily_window_ms later global) ≡ free
unfolding answer
answer-later c now later w none global h k = ground arith
answer-later c now later w (some e) global h k = ground (
  arith,
  length-prune_mono c.daily_window_ms now later global,
  length-prune_mono c.daily_window_ms now later e.failures_in_window,
)

-- After the wait that a retry answer names, with no new failure, the next attempt of the source is
-- free.
pub retry-retry_in :
    (l : Limiter) (account source : Text) (now later w : ℕ)
    → (retry l account source now).1 ≡ retry_in w
    → now + 1000 * w ≤ later
    → (retry l account source later).1 ≡ free
retry-retry_in l account source now later w h k =
    retry-answer l account source later
    ∙ answer-later l.settings now later w (entry_at l account source) (global_of l account)
        (sym (retry-answer l account source now) ∙ h) k

entry_of_found :
    (l : Limiter) (key : Text) (e : Entry) → get key l.entries ≡ some e → entry_of l key ≡ e
entry_of_found l key e h = ground arith

entry-record_failure :
    (l : Limiter) (account source : Text) (now : ℕ) (e : Entry)
    → entry_at l account source ≡ some e
    → entry_at (record_failure l account source now) account source
      ≡ some (failed_entry l.settings now e)
unfolding record_failure
entry-record_failure l account source now e found =
    let key = key_of account source in
    get-put key key (failed_entry l.settings now (entry_of l key)) l.entries
    ∙ rw (text_eq_refl key)
        (ap (λ x. some (failed_entry l.settings now x)) (entry_of_found l key e found))

global-record_failure :
    (l : Limiter) (account source : Text) (now : ℕ)
    → global_of (record_failure l account source now) account
      ≡ prune l.daily_window_ms now (global_of l account) ++ (now ∷ [])
unfolding record_failure
global-record_failure l account source now =
    let values = prune l.daily_window_ms now (global_of l account) ++ (now ∷ []) in
    let stored = get-put account account values l.global_failures in
    let same = text_eq_refl account in ground arith

settings-record_failure :
    (l : Limiter) (account source : Text) (now : ℕ)
    → (record_failure l account source now).settings ≡ l.settings
unfolding record_failure
settings-record_failure l account source now = refl

blocked-answer :
    (c : Settings) (now : ℕ) (e : Entry) (global : List ℕ)
    → now < e.blocked_until
    → answer c now (some e) global ≢ free
unfolding answer
blocked-answer c now e global h k = ground arith

failed_entry-blocked :
    (c : Settings) (at : ℕ) (e : Entry)
    → c.threshold ≤ e.consecutive_failures + 1
    → (failed_entry c at e).blocked_until ≡ at + c.retry_ms
unfolding failed_entry
failed_entry-blocked c at e h = ground arith

-- A failure that brings the run of failures of a known source to the threshold keeps its attempts
-- from being free for the whole retry time.
pub retry-record_failure :
    (l : Limiter) (account source : Text) (at now : ℕ) (e : Entry)
    → entry_at l account source ≡ some e
    → l.threshold ≤ e.consecutive_failures + 1
    → now < at + l.retry_ms
    → (retry (record_failure l account source at) account source now).1 ≢ free
retry-record_failure l account source at now e found run early h =
    let l' = record_failure l account source at in
    blocked-answer l'.settings now
      (pruned_entry l'.daily_window_ms now (failed_entry l.settings at e)) _
      (rw (failed_entry-blocked l.settings at e run) early)
      (sym (
          ap
            (λ (o : Option Entry).
              answer l'.settings now (pruned_at l'.settings now o)
                (prune l'.daily_window_ms now (global_of l' account)))
            (entry-record_failure l account source at e found))
        ∙ sym (retry-answer l' account source now)
        ∙ h)

free-room :
    (c : Settings) (now : ℕ) (e : Entry) (global : List ℕ)
    → answer c now (some e) global ≡ free
    → (length global < c.global_daily_limit) × (length e.failures_in_window < c.source_daily_limit)
unfolding answer
free-room c now e global h = (ground arith, ground arith)

failed_entry-window :
    (c : Settings) (now : ℕ) (e : Entry)
    → (failed_entry c now e).failures_in_window
      ≡ prune c.daily_window_ms now e.failures_in_window ++ (now ∷ [])
unfolding failed_entry
failed_entry-window c now e = refl

-- A failure of an attempt of a known source that was free leaves both daily counts within their
-- limits.
pub record_failure-within :
    (l : Limiter) (account source : Text) (now : ℕ) (e : Entry)
    → entry_at l account source ≡ some e
    → (retry l account source now).1 ≡ free
    → let l' = record_failure l account source now in
      (length (global_of l' account) ≤ l.global_daily_limit)
      × ((e' : Entry) × (entry_at l' account source ≡ some e')
          × (length e'.failures_in_window ≤ l.source_daily_limit))
record_failure-within l account source now e found h =
    let global = prune l.daily_window_ms now (global_of l account) in
    let window = prune l.daily_window_ms now e.failures_in_window in
    let room = free-room l.settings now (pruned_entry l.daily_window_ms now e) global (
      ap (λ (o : Option Entry). answer l.settings now (pruned_at l.settings now o) global)
        (sym found)
      ∙ sym (retry-answer l account source now)
      ∙ h) in
    (
      rw (global-record_failure l account source now)
          (omega (arith, length-append {0} global (now ∷ []))),
      (
        failed_entry l.settings now e,
        entry-record_failure l account source now e found,
        rw (failed_entry-window l.settings now e)
            (omega (arith, length-append {0} window (now ∷ []))),
      ),
    )

succeed_parts :
    (l : Limiter) (account source : Text) (e : Entry)
    → entry_at l account source ≡ some e
    → (entry_at (succeed l account source) account source
        ≡ some (record e { consecutive_failures = 0; blocked_until = 0 }))
      × ((succeed l account source).settings ≡ l.settings)
      × ((succeed l account source).global_failures ≡ l.global_failures)
unfolding succeed
succeed_parts l account source e found =
    let key = key_of account source in
    let e' = record e { consecutive_failures = 0; blocked_until = 0 } in
    rw (found, succeed) (get-put key key e' l.entries ∙ rw (text_eq_refl key) refl, refl, refl)

answer-succeed :
    (c : Settings) (now w : ℕ) (e : Entry) (global : List ℕ)
    → answer c now (some (pruned_entry c.daily_window_ms now e)) global ≡ rate w
    → answer c now
        (some (
          pruned_entry c.daily_window_ms now
            (record e { consecutive_failures = 0; blocked_until = 0 })))
        global
      ≡ rate w
unfolding answer
answer-succeed c now w e global h = ground arith

-- A success lifts no daily limit: where an attempt of a known source was refused for the rate, it
-- is refused with the same wait after a success of the source.
pub retry-succeed :
    (l : Limiter) (account source : Text) (now w : ℕ) (e : Entry)
    → entry_at l account source ≡ some e
    → (retry l account source now).1 ≡ rate w
    → (retry (succeed l account source) account source now).1 ≡ rate w
retry-succeed l account source now w e found h =
    let parts = succeed_parts l account source e found in
    let e' = record e { consecutive_failures = 0; blocked_until = 0 } in
    let global = prune l.daily_window_ms now (global_of l account) in
    let before =
      ap (λ (o : Option Entry). answer l.settings now (pruned_at l.settings now o) global)
        (sym found)
      ∙ sym (retry-answer l account source now)
      ∙ h in
    retry-answer (succeed l account source) account source now
    ∙ rw (parts.0, parts.1, parts.2) (answer-succeed l.settings now w e global before)
