-- ===== src/AccessManager/RateLimiter/Admission.antt =====
-- When `enter` lets an attempt in, and what it changes then.
use dsh_docker.Prelude.{ℕ, ◌+◌, ◌≤◌, ◌<◌, ◌≡◌, refl, ◌⊎◌, inl, inr, false, arith}
use dsh_docker.Prelude.Lists.{All}
use dsh_docker.Prelude.Text.{Text}
use dsh_docker.AccessManager.RateLimiter.Keys.{retry_key}
use dsh_docker.AccessManager.RateLimiter.Waits.{HasRoom, IsPositive, retry_after-zero_iff}
use dsh_docker.AccessManager.RateLimiter.Limiter.{
  Limiter, Ticket, Result, ok, err, AccessError, read_array, prune_expired_sources, current_retry,
  check_retry, source_array, prepare, admit, enter_unblocked, enter,
}

-- Two limiters with the same settings and the same number of attempts under way.
pub record SameLoad (l l' : Limiter) : Type 0 where
  pub config : l'.config ≡ l.config
  pub active : l'.active ≡ l.active

pub SameLoad-prune_expired_sources :
    (l : Limiter) (now : ℕ) → SameLoad l (prune_expired_sources l now)
unfolding prune_expired_sources
SameLoad-prune_expired_sources l now = ground arith

pub SameLoad-current_retry :
    (l : Limiter) (key : Text) (now : ℕ) → SameLoad l (current_retry l key now).0
unfolding current_retry
SameLoad-current_retry l key now = ground arith

pub SameLoad-check_retry :
    (l : Limiter) (key : Text) (now : ℕ) → SameLoad l (check_retry l key now).0
unfolding check_retry
SameLoad-check_retry l key now = ground (arith, SameLoad-current_retry l key now)

pub SameLoad-prepare : (l : Limiter) (key : Text) (now : ℕ) → SameLoad l (prepare l key now).0
unfolding prepare source_array
SameLoad-prepare l key now = ground (arith, SameLoad-prune_expired_sources l now)

-- The attempt is let in exactly when a place is free and all windows have room.
pub admit-ok_iff :
    (l : Limiter) (a now : ℕ)
    → All IsPositive l.source_windows
    → All IsPositive l.global_windows
    → (admit l a now ≡ ok tt
        → (l.active < l.max_concurrent)
          × HasRoom (read_array l.heap a) now l.source_windows
          × HasRoom l.global now l.global_windows)
      × (l.active < l.max_concurrent
          → HasRoom (read_array l.heap a) now l.source_windows
          → HasRoom l.global now l.global_windows
          → admit l a now ≡ ok tt)
unfolding admit
admit-ok_iff l a now ps pg =
    let source = retry_after-zero_iff (read_array l.heap a) l.source_windows now ps in
    let global = retry_after-zero_iff l.global l.global_windows now pg in
    (
      λ e. (ground arith, source.0 (ground arith), global.0 (ground arith)),
      λ free s g. let zs = source.1 s in let zg = global.1 g in ground arith,
    )

-- What an attempt that is let in has changed: one more under way, within the limit, and a place
-- in every window over the failures that are left in its array and in that of all keys.
pub record Admitted (l l' : Limiter) (now : ℕ) (t : Ticket) : Type 0 where
  pub config : l'.config ≡ l.config
  pub active : l'.active ≡ l.active + 1
  pub within : l'.active ≤ l.max_concurrent
  pub open_ticket : t.released ≡ false
  pub source_room : HasRoom (read_array l'.heap t.address) now l'.source_windows
  pub global_room : HasRoom l'.global now l'.global_windows

-- A refusal changes neither the settings nor the number of attempts under way.
abbrev pub EnterOutcome : Limiter → ℕ → Limiter × Result Ticket → Type 0
EnterOutcome l now (l', err e) = SameLoad l l'
EnterOutcome l now (l', ok t) = Admitted l l' now t

pub Result-cases {ℓ} :
    {A : Type ℓ} (r : Result A) → ((e : AccessError) × (r ≡ err e)) ⊎ ((a : A) × (r ≡ ok a))
Result-cases (err e) = inl (e, refl)
Result-cases (ok a) = inr (a, refl)

enter_unblocked_outcome :
    (l : Limiter) (account source credential : Text) (now : ℕ)
    → All IsPositive l.source_windows
    → All IsPositive l.global_windows
    → EnterOutcome l now (enter_unblocked l account source credential now)
unfolding enter_unblocked
enter_unblocked_outcome l account source credential now ps pg =
    let key = retry_key account source credential in
    let l' = (prepare l key now).0 in
    let a = (prepare l key now).1 in
    let same = SameLoad-prepare l key now in
    elim (Result-cases (admit l' a now)) [
      | inl (e, h) ↦ rw (h, enter_unblocked) same
      | inr (_, h) ↦
          let room = (admit-ok_iff l' a now (rw same.config ps) (rw same.config pg)).0 h in
          rw (h, enter_unblocked)
            (record {
              config = same.config;
              active = ground arith;
              within = ground arith;
              open_ticket = refl;
              source_room = room.1;
              global_room = room.2;
            })
    ]

outcome_from :
    (l l' : Limiter) (now : ℕ) (r : Limiter × Result Ticket)
    → SameLoad l l'
    → EnterOutcome l' now r
    → EnterOutcome l now r
outcome_from l l' now (l'', err e) same o = ground arith
outcome_from l l' now (l'', ok t) same o = record {
  config = ground arith;
  active = ground arith;
  within = ground arith;
  open_ticket = o.open_ticket;
  source_room = o.source_room;
  global_room = o.global_room;
}

-- Where every window's limit is at least 1, an attempt that `enter` lets in is counted, and there is
-- room in each window over the failures that the call leaves; a refusal changes neither the settings
-- nor the number of attempts under way.
pub enter_outcome :
    (l : Limiter) (account source credential : Text) (now later : ℕ)
    → All IsPositive l.source_windows
    → All IsPositive l.global_windows
    → EnterOutcome l later (enter l account source credential now later)
unfolding enter
enter_outcome l account source credential now later ps pg =
    let key = retry_key account source credential in
    let l' = (check_retry l key now).0 in
    let same = SameLoad-check_retry l key now in
    elim (Result-cases (check_retry l key now).1) [
      | inl (e, h) ↦ rw (h, enter) same
      | inr (_, h) ↦
          rw (h, enter)
            (outcome_from l l' later (enter_unblocked l' account source credential later) same (
              enter_unblocked_outcome l' account source credential later (rw same.config ps)
                (rw same.config pg)))
    ]
