-- ===== src/AccessManager/Totp/RetryLimiter.antt =====
-- totp.mjs: the class `TotpRetryLimiter`. A call runs without a pause, so that its readings of the
-- clock are taken to be one number, `now`; lengths of time are whole milliseconds.
use dsh_docker.Prelude.{
  ℕ, suc, ◌+◌, ◌-◌, ◌/◌, List, [], ◌∷◌, ◌++◌, Option, none, some, Bool, true, false, ◌&&◌, not, max,
}
use dsh_docker.Prelude.Tests.{leb, ltb, if◌then◌else◌}
use dsh_docker.Prelude.Lists.{length}
use dsh_docker.Prelude.Text.{Text, starts_with}
use dsh_docker.Prelude.Map.{Map, get, put, delete}

pub record Entry : Type 0 where
  pub consecutive_failures : ℕ
  pub blocked_until : ℕ
  pub failures_in_window : List ℕ

pub record Settings : Type 0 where
  pub threshold : ℕ
  pub retry_ms : ℕ
  pub daily_window_ms : ℕ
  pub source_daily_limit : ℕ
  pub global_daily_limit : ℕ

pub record Limiter : Type 0 where
  pub settings : Settings
  pub open settings use *
  pub entries : Map Entry
  pub global_failures : Map (List ℕ)

-- `kind` and `retryAfterSeconds`; `free` is the answer `null`.
pub data Answer : Type 0 where
  rate : ℕ → Answer
  retry_in : ℕ → Answer
  free : Answer

abbrev pub key_prefix : Text → Text
key_prefix account = account ++ (0 ∷ [])

abbrev pub key_of : Text → Text → Text
key_of account source = account ++ (0 ∷ source)

unfoldable pub prune : ℕ → ℕ → List ℕ → List ℕ
prune window now [] = []
prune window now (v ∷ vs) =
    let rest = prune window now vs in if leb (v + window) now then rest else v ∷ vs

abbrev pub first : List ℕ → ℕ
first [] = 0
first (v ∷ _) = v

-- `Math.max(1, Math.ceil(milliseconds / 1000))`
abbrev pub seconds : ℕ → ℕ
seconds ms = max 1 ((ms + 999) / 1000)

abbrev pub until : ℕ → ℕ → List ℕ → ℕ
until window now values = seconds (first values + window - now)

abbrev pub global_of : Limiter → Text → List ℕ
global_of l account = elim (get account l.global_failures) [ none ↦ [] | some values ↦ values ]

abbrev pub no_entry : Entry
no_entry = record { consecutive_failures = 0; blocked_until = 0; failures_in_window = [] }

abbrev pub pruned_entry : ℕ → ℕ → Entry → Entry
pruned_entry window now e = record e { failures_in_window = prune window now e.failures_in_window }

-- Both arrays are pruned where they lie.
unfoldable pub prune_both : Limiter → Text → Text → ℕ → Limiter
unfolding prune
prune_both l account source now =
    let key = key_of account source in
    let window = l.daily_window_ms in
    record l {
      entries = elim (get key l.entries) [
        | none ↦ l.entries
        | some e ↦ put key (pruned_entry window now e) l.entries
      ];
      global_failures = elim (get account l.global_failures) [
        | none ↦ l.global_failures
        | some values ↦ put account (prune window now values) l.global_failures
      ];
    }

-- The answer to an entry and the failures of its account, both pruned.
unfoldable pub answer : Settings → ℕ → Option Entry → List ℕ → Answer
answer c now none global =
    if leb c.global_daily_limit (length global)
    then rate (until c.daily_window_ms now global)
    else free
answer c now (some e) global =
    if leb c.global_daily_limit (length global)
    then rate (until c.daily_window_ms now global)
    else if leb c.source_daily_limit (length e.failures_in_window)
    then rate (until c.daily_window_ms now e.failures_in_window)
    else if ltb now e.blocked_until
    then retry_in (seconds (e.blocked_until - now))
    else free

unfoldable pub retry : Limiter → Text → Text → ℕ → Limiter × Answer
unfolding prune_both answer
retry l account source now =
    let l' = prune_both l account source now in
    (l', answer l.settings now (get (key_of account source) l'.entries) (global_of l' account))

-- The entry that a failure makes of the one that was there.
unfoldable pub failed_entry : Settings → ℕ → Entry → Entry
unfolding prune
failed_entry c now e =
    let failures = e.consecutive_failures + 1 in
    record {
      consecutive_failures = failures;
      blocked_until = if leb c.threshold failures then now + c.retry_ms else e.blocked_until;
      failures_in_window = prune c.daily_window_ms now e.failures_in_window ++ (now ∷ []);
    }

abbrev pub entry_of : Limiter → Text → Entry
entry_of l key = elim (get key l.entries) [ none ↦ no_entry | some e ↦ e ]

unfoldable pub record_failure : Limiter → Text → Text → ℕ → Limiter
unfolding failed_entry
record_failure l account source now =
    let key = key_of account source in
    record l {
      entries = put key (failed_entry l.settings now (entry_of l key)) l.entries;
      global_failures =
          put account (prune l.daily_window_ms now (global_of l account) ++ (now ∷ []))
            l.global_failures;
    }

unfoldable pub fail : Limiter → Text → Text → ℕ → Limiter × Answer
unfolding record_failure retry
fail l account source now = retry (record_failure l account source now) account source now

unfoldable pub succeed : Limiter → Text → Text → Limiter
succeed l account source =
    let key = key_of account source in
    elim (get key l.entries) [
      | none ↦ l
      | some e ↦ record l {
        entries = put key (record e { consecutive_failures = 0; blocked_until = 0 }) l.entries;
      }
    ]

abbrev is_empty : List ℕ → Bool
is_empty [] = true
is_empty (_ ∷ _) = false

-- The loop over the entries of an account, and how many it clears.
unfoldable pub clear_entries : Text → Map Entry → Map Entry × ℕ
clear_entries account [] = ([], 0)
clear_entries account ((k, e) ∷ m) =
    let (m', n) = clear_entries account m in
    let hit = starts_with k (key_prefix account) && not (is_empty e.failures_in_window) in
    ((k, if hit then record e { failures_in_window = [] } else e) ∷ m', if hit then suc n else n)

abbrev count_present : Option (List ℕ) → ℕ
count_present none = 0
count_present (some _) = 1

unfoldable pub clear_daily_limits : Limiter → Text → Bool → Limiter × ℕ
unfolding clear_entries
clear_daily_limits l account global_only =
    let cleared = count_present (get account l.global_failures) in
    let l' = record l { global_failures = delete account l.global_failures } in
    let (entries', n) = clear_entries account l'.entries in
    if global_only then (l', cleared) else (record l' { entries = entries' }, cleared + n)
