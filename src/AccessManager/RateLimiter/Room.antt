-- ===== src/AccessManager/RateLimiter/Room.antt =====
-- What `enter` of rate-limiter.mjs makes of the failures that were recorded before the call.
use dsh_docker.Prelude.{
  ℕ, zero, suc, ◌<◌, ◌≡◌, refl, sym, ap, ◌∙◌, ◌⊎◌, inl, inr, List, [], ◌∷◌, ◌++◌, Option, none,
  some, true, arith,
}
use dsh_docker.Prelude.Tests.{Bool-cases, Option-cases}
use dsh_docker.Prelude.Lists.{length, set, All}
use dsh_docker.Prelude.Text.{Text, text_eq_iff, text_eq_refl}
use dsh_docker.Prelude.Map.{Map, get, put, get-put, Distinct}
use dsh_docker.AccessManager.RateLimiter.Windows.{
  Window, Failure, prune, retry_after_seconds, max_window_ms,
}
use dsh_docker.AccessManager.RateLimiter.Keys.{retry_key}
use dsh_docker.AccessManager.RateLimiter.Waits.{
  HasRoom, IsPositive, retry_after-zero_iff, retry_after-prune,
}
use dsh_docker.AccessManager.RateLimiter.Admission.{
  SameLoad-prune_expired_sources, SameLoad-prepare, Result-cases, EnterOutcome, enter_outcome,
  admit-ok_iff,
}
use dsh_docker.AccessManager.RateLimiter.Limiter.{
  Limiter, Ticket, key_of, Retry, Result, ok, err, read_array, is_empty, prune_sources,
  recently_pruned, prune_expired_sources, current_retry, check_retry, source_array, prepare, admit,
  enter_unblocked, enter,
}

abbrev pub array_at : List (List Failure) → Option ℕ → List Failure
array_at heap none = []
array_at heap (some a) = read_array heap a

-- The failures that the limiter holds under a key.
abbrev pub failures_of : Limiter → Text → List Failure
failures_of l key = array_at l.heap (get key l.sources)

read_array-end : (heap : List (List Failure)) → read_array (heap ++ ([] ∷ [])) (length heap) ≡ []
read_array-end [] = refl
read_array-end (x ∷ xs) = read_array-end xs

prune_twice : (xs : List Failure) (now w : ℕ) → prune (prune xs now w) now w ≡ prune xs now w
unfolding prune
prune_twice [] now w = refl
prune_twice (x ∷ xs) now w = ground (arith, prune_twice xs now w)

is_empty-nil : (xs : List Failure) → is_empty xs ≡ true → xs ≡ []
is_empty-nil [] h = refl
is_empty-nil (x ∷ xs) h = absurd cc

module _ (now w : ℕ) where
  -- Pruning one array changes no array up to pruning.
  set-prune :
      (heap : List (List Failure)) (a b : ℕ)
      → prune (read_array (set heap a (prune (read_array heap a) now w)) b) now w
        ≡ prune (read_array heap b) now w
  set-prune [] a b = refl
  set-prune (x ∷ xs) zero zero = prune_twice x now w
  set-prune (x ∷ xs) zero (suc b) = refl
  set-prune (x ∷ xs) (suc a) zero = refl
  set-prune (x ∷ xs) (suc a) (suc b) = set-prune xs a b

  prune_sources-heap :
      (m : Map ℕ) (heap : List (List Failure)) (b : ℕ)
      → prune (read_array (prune_sources now w m heap).1 b) now w ≡ prune (read_array heap b) now w
  unfolding prune_sources
  prune_sources-heap [] heap b = refl
  prune_sources-heap ((k, a) ∷ m) heap b =
      prune_sources-heap m (set heap a (prune (read_array heap a) now w)) b ∙ set-prune heap a b

  prune_sources-none :
      (key : Text) (m : Map ℕ) (heap : List (List Failure))
      → get key m ≡ none
      → get key (prune_sources now w m heap).0 ≡ none
  unfolding prune_sources get
  prune_sources-none key [] heap h = refl
  prune_sources-none key ((k, a) ∷ m) heap h = ground (
    arith,
    text_eq_iff k key,
    prune_sources-none key m (set heap a (prune (read_array heap a) now w)),
  )

  -- A key keeps its array, or loses an array of which pruning leaves nothing.
  prune_sources-some :
      (key : Text) (a : ℕ) (m : Map ℕ) (heap : List (List Failure))
      → Distinct m
      → get key m ≡ some a
      → (get key (prune_sources now w m heap).0 ≡ some a)
        ⊎ ((get key (prune_sources now w m heap).0 ≡ none) × (prune (read_array heap a) now w ≡ []))
  unfolding prune_sources get
  prune_sources-some key a [] heap d h = absurd cc
  prune_sources-some key a ((k, b) ∷ m) heap d h = ground (
    arith,
    text_eq_iff k key,
    is_empty-nil (prune (read_array heap b) now w),
    set-prune heap b a,
    prune_sources-none key m (set heap b (prune (read_array heap b) now w)),
    prune_sources-some key a m (set heap b (prune (read_array heap b) now w)) d.1,
  )

  prune_sources-array_at :
      (key : Text) (m : Map ℕ) (heap : List (List Failure))
      → Distinct m
      → let (m', heap') = prune_sources now w m heap in
        prune (array_at heap' (get key m')) now w ≡ prune (array_at heap (get key m)) now w
  unfolding prune
  prune_sources-array_at key m heap d = elim (Option-cases (get key m)) [
    | inl e ↦ rw (e, prune_sources-none key m heap e) refl
    | inr (a, e) ↦ elim (prune_sources-some key a m heap d e) [
      | inl kept ↦ rw (e, kept) (prune_sources-heap m heap a)
      | inr (lost, empty) ↦ rw (e, lost) (sym empty)
    ]
  ]

prune_expired_sources-failures :
    (l : Limiter) (key : Text) (now : ℕ)
    → Distinct l.sources
    → prune (failures_of (prune_expired_sources l now) key) now (max_window_ms l.source_windows)
      ≡ prune (failures_of l key) now (max_window_ms l.source_windows)
unfolding prune_expired_sources
prune_expired_sources-failures l key now d =
    elim (Bool-cases (recently_pruned l.last_prune_at now l.window_ms)) [
      | inl recent ↦ rw (recent, prune_expired_sources) refl
      | inr due ↦
          rw (due, prune_expired_sources)
            (prune_sources-array_at now (max_window_ms l.source_windows) key l.sources l.heap d)
    ]

prune_expired_sources-global :
    (l : Limiter) (now : ℕ) → (prune_expired_sources l now).global ≡ l.global
unfolding prune_expired_sources
prune_expired_sources-global l now = ground arith

source_array-failures :
    (l : Limiter) (key : Text)
    → let (l', a) = source_array l key in
      (read_array l'.heap a ≡ failures_of l key) × (l'.config ≡ l.config) × (l'.global ≡ l.global)
unfolding source_array
source_array-failures l key = elim (Option-cases (get key l.sources)) [
  | inl e ↦ rw (e, source_array, read_array-end l.heap) (refl, refl, refl)
  | inr (a, e) ↦ rw (e, source_array) (refl, refl, refl)
]

-- No failure that counts is forgotten: the waits of that time are what they were.
pub record Remembers (l l' : Limiter) (key : Text) (now : ℕ) : Type 0 where
  pub source :
      retry_after_seconds (failures_of l' key) l.source_windows now
      ≡ retry_after_seconds (failures_of l key) l.source_windows now
  pub global :
      retry_after_seconds l'.global l.global_windows now
      ≡ retry_after_seconds l.global l.global_windows now

-- Arrays that pruning makes the same have the same waits.
same_wait :
    (ws : List Window) (now : ℕ) (xs ys : List Failure)
    → prune xs now (max_window_ms ws) ≡ prune ys now (max_window_ms ws)
    → retry_after_seconds xs ws now ≡ retry_after_seconds ys ws now
same_wait ws now xs ys e =
    sym (retry_after-prune xs ws now)
    ∙ ap (λ zs. retry_after_seconds zs ws now) e
    ∙ retry_after-prune ys ws now

get-put_self : (key : Text) (a : ℕ) (m : Map ℕ) → get key (put key a m) ≡ some a
get-put_self key a m = get-put key key a m ∙ rw (text_eq_refl key) refl

prune_array-Remembers :
    (l l' : Limiter) (a : ℕ) (key : Text) (now : ℕ)
    → l'.config ≡ l.config
    → l'.global ≡ l.global
    → prune (read_array l'.heap a) now (max_window_ms l.source_windows)
      ≡ prune (failures_of l key) now (max_window_ms l.source_windows)
    → Remembers l
        (record l' {
          heap = set l'.heap a (prune (read_array l'.heap a) now (max_window_ms l'.source_windows));
          sources = put key a l'.sources;
          global = prune l'.global now (max_window_ms l'.global_windows);
        })
        key
        now
prune_array-Remembers l l' a key now config global pruned = record {
  source =
      rw (get-put_self key a l'.sources, config)
        (same_wait l.source_windows now _ _
          (set-prune now (max_window_ms l.source_windows) l'.heap a a ∙ pruned));
  global = rw (config, global) (retry_after-prune l.global l.global_windows now);
}

prepare-Remembers :
    (l : Limiter) (key : Text) (now : ℕ)
    → Distinct l.sources
    → let (l', a) = prepare l key now in Remembers l l' key now × (get key l'.sources ≡ some a)
unfolding prepare
prepare-Remembers l key now d =
    let l1 = prune_expired_sources l now in
    let (found, config, global) = source_array-failures l1 key in
    let same = SameLoad-prune_expired_sources l now in
    let (l2, a) = source_array l1 key in
    (
      prune_array-Remembers l l2 a key now (config ∙ same.config)
          (global ∙ prune_expired_sources-global l now)
          (ap (λ xs. prune xs now (max_window_ms l.source_windows)) found
            ∙ prune_expired_sources-failures l key now d),
      get-put_self key a l2.sources,
    )

-- A place is free, and in each window over the failures of the key and of all keys there is room.
pub record IsFree (l : Limiter) (key : Text) (now : ℕ) : Type 0 where
  pub place : l.active < l.max_concurrent
  pub source_room : HasRoom (failures_of l key) now l.source_windows
  pub global_room : HasRoom l.global now l.global_windows

-- An attempt that is let in is of the key, and holds its array.
abbrev pub UnblockedRoom : Limiter → Text → ℕ → Limiter × Result Ticket → Type 0
UnblockedRoom l key now (l', ok t) =
    Remembers l l' key now
    × IsFree l key now
    × (get key l'.sources ≡ some t.address)
    × (key_of t ≡ key)
UnblockedRoom l key now (l', err e) = Remembers l l' key now × ¬ (IsFree l key now)

wait-HasRoom :
    (xs ys : List Failure) (ws : List Window) (now : ℕ)
    → All IsPositive ws
    → retry_after_seconds xs ws now ≡ retry_after_seconds ys ws now
    → HasRoom xs now ws
    → HasRoom ys now ws
wait-HasRoom xs ys ws now p e h =
    (retry_after-zero_iff ys ws now p).0 (sym e ∙ (retry_after-zero_iff xs ws now p).1 h)

admit-IsFree :
    (l : Limiter) (key : Text) (now : ℕ)
    → All IsPositive l.source_windows
    → All IsPositive l.global_windows
    → Distinct l.sources
    → let (l', a) = prepare l key now in
      (admit l' a now ≡ ok tt → IsFree l key now) × (IsFree l key now → admit l' a now ≡ ok tt)
admit-IsFree l key now ps pg d =
    let l' = (prepare l key now).0 in
    let a = (prepare l key now).1 in
    let same = SameLoad-prepare l key now in
    let (remembers, held) = prepare-Remembers l key now d in
    let source = rw held at remembers.source in
    let (opened, lets_in) = admit-ok_iff l' a now (rw same.config ps) (rw same.config pg) in
    (
      λ h.
          (let (place, s, g) = opened h in
            record {
              place = rw (same.active, same.config) at place;
              source_room =
                  wait-HasRoom (read_array l'.heap a) (failures_of l key) l.source_windows now ps
                    source (rw same.config at s);
              global_room =
                  wait-HasRoom l'.global l.global l.global_windows now pg remembers.global
                    (rw same.config at g);
            }),
      λ free.
          lets_in (rw (same.active, same.config) free.place)
            (rw same.config (
              wait-HasRoom (failures_of l key) (read_array l'.heap a) l.source_windows now ps
                (sym source) free.source_room))
            (rw same.config (
              wait-HasRoom l.global l'.global l.global_windows now pg (sym remembers.global)
                free.global_room)),
    )

enter_unblocked-UnblockedRoom :
    (l : Limiter) (account source credential : Text) (now : ℕ)
    → All IsPositive l.source_windows
    → All IsPositive l.global_windows
    → Distinct l.sources
    → UnblockedRoom l
        (retry_key account source credential)
        now
        (enter_unblocked l account source credential now)
unfolding enter_unblocked
enter_unblocked-UnblockedRoom l account source credential now ps pg d =
    let key = retry_key account source credential in
    let l' = (prepare l key now).0 in
    let a = (prepare l key now).1 in
    let (remembers, held) = prepare-Remembers l key now d in
    let (frees, lets_in) = admit-IsFree l key now ps pg d in
    elim (Result-cases (admit l' a now)) [
      | inl (e, h) ↦ rw (h, enter_unblocked) (remembers, λ free. let k = lets_in free in cc)
      | inr (_, h) ↦
          rw (h, enter_unblocked)
            (record { source = remembers.source; global = remembers.global }, frees h, held, refl)
    ]

-- The retry check forgets at most a run of failures.
check_retry-record :
    (l : Limiter) (key : Text) (now : ℕ)
    → (m : Map Retry) × ((check_retry l key now).0 ≡ record l { consecutive_failures = m })
unfolding check_retry current_retry
check_retry-record l key now = ((check_retry l key now).0.consecutive_failures, ground arith)

-- How a call of `enter` ends: the attempt is let in exactly where the retry check lets its key
-- through and there is room for it, then is of that key and holds its array, and no way to end forgets a
-- failure that counts.
abbrev pub EnterRoom : Limiter → Text → ℕ → ℕ → Limiter × Result Ticket → Type 0
EnterRoom l key now later (l', ok t) =
    Remembers l l' key later
    × ((check_retry l key now).1 ≡ ok tt)
    × IsFree l key later
    × (get key l'.sources ≡ some t.address)
    × (key_of t ≡ key)
EnterRoom l key now later (l', err e) =
    Remembers l l' key later × (((check_retry l key now).1 ≡ err e) ⊎ ¬ (IsFree l key later))

room_from :
    (l : Limiter) (key : Text) (now later : ℕ) (m : Map Retry) (r : Limiter × Result Ticket)
    → (check_retry l key now).1 ≡ ok tt
    → UnblockedRoom (record l { consecutive_failures = m }) key later r
    → EnterRoom l key now later r
room_from l key now later m (l', ok t) passed (r, free, held, named) = (
  record { source = r.source; global = r.global },
  passed,
  record { place = free.place; source_room = free.source_room; global_room = free.global_room },
  held,
  named,
)
room_from l key now later m (l', err e) passed (r, refused) = (
  record { source = r.source; global = r.global },
  inr (λ free. refused (record {
    place = free.place;
    source_room = free.source_room;
    global_room = free.global_room;
  })),
)

enter-EnterRoom :
    (l : Limiter) (account source credential : Text) (now later : ℕ)
    → All IsPositive l.source_windows
    → All IsPositive l.global_windows
    → Distinct l.sources
    → EnterRoom l
        (retry_key account source credential)
        now
        later
        (enter l account source credential now later)
unfolding enter
enter-EnterRoom l account source credential now later ps pg d =
    let key = retry_key account source credential in
    let (m, same) = check_retry-record l key now in
    elim (Result-cases (check_retry l key now).1) [
      | inl (e, h) ↦ rw (h, same, enter) (record { source = refl; global = refl }, inl h)
      | inr (_, h) ↦
          rw (h, same, enter)
            (room_from l key now later m _ h (
              enter_unblocked-UnblockedRoom (record l { consecutive_failures = m }) account source
                credential later ps pg d))
    ]

-- Where every window's limit is at least 1 and the sources have distinct keys, `enter` lets an
-- attempt in exactly when the retry check lets its key through, a place is free, and each window
-- has room over the failures that were on record before the call, of the key and of all keys: an
-- attempt that is let in meets these conditions, is counted as one more under way within the
-- limit, and its open ticket is of that key and holds the array of it; a refusal is that of the
-- retry check or one of the other conditions fails, and it changes neither the settings nor the
-- number of attempts under way. However the call ends, the waits that the windows over the
-- failures report at that time, over those of the key and over all, are what they were before.
pub enter_room :
    (l : Limiter) (account source credential : Text) (now later : ℕ)
    → All IsPositive l.source_windows
    → All IsPositive l.global_windows
    → Distinct l.sources
    → EnterOutcome l later (enter l account source credential now later)
      × EnterRoom l
          (retry_key account source credential)
          now
          later
          (enter l account source credential now later)
enter_room l account source credential now later ps pg d = (
  enter_outcome l account source credential now later ps pg,
  enter-EnterRoom l account source credential now later ps pg d,
)
