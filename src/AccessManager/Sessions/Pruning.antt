-- ===== src/AccessManager/Sessions/Pruning.antt =====
-- What `prune` of sessions.mjs leaves: live sessions, each management one with its DSH session.
use mathlib.Core.List.{append_assoc, append-nil}
use dsh_docker.Prelude.{
  ℕ, ◌+◌, ◌<◌, ◌≡◌, ◌≢◌, refl, sym, ◌∙◌, inl, inr, [], ◌∷◌, ◌++◌, Option, none, some, true, false,
  arith,
}
use dsh_docker.Prelude.Tests.{Bool-cases, Option-cases}
use dsh_docker.Prelude.Text.{Text}
use dsh_docker.Prelude.Map.{Map, get, AllValues}
use dsh_docker.AccessManager.Sessions.Store.{
  dsh, management, Session, Store, find_dsh, active_dsh, expiry, expire, is_orphan, drop_orphans,
  prune,
}

-- Before its end and not idle for too long.
pub record IsLive (now : ℕ) (s : Session) : Type 0 where
  pub before_end : now < s.expires_at
  pub not_idle : now < s.last_seen_at + s.idle_ms

-- A management session has a DSH session of its account, under the identifier that it names.
abbrev pub IsBacked : Map Session → Session → Type 0
IsBacked m s =
    s.kind ≡ management → (source : Session) × (active_dsh s.source_id s.account_id m ≡ some source)

IsLive-of_expiry : (now : ℕ) (s : Session) → expiry now s ≡ none → IsLive now s
unfolding expiry
IsLive-of_expiry now s h = ground arith

expire-IsLive : (now : ℕ) (m : Map Session) → AllValues (IsLive now) (expire now m).0
unfolding expire
expire-IsLive now [] = tt
expire-IsLive now ((k, s) ∷ m) = elim (Option-cases (expiry now s)) [
  | inl live ↦ rw (live, expire) (IsLive-of_expiry now s live, expire-IsLive now m)
  | inr (_, over) ↦ rw (over, expire) (expire-IsLive now m)
]

-- What holds of every session holds of those that stay.
pub expire-All {κ} :
    (P : Session → Type κ) (now : ℕ) (m : Map Session)
    → AllValues P m
    → AllValues P (expire now m).0
unfolding expire
expire-All P now [] h = tt
expire-All P now ((k, s) ∷ m) h = elim (Option-cases (expiry now s)) [
  | inl live ↦ rw (live, expire) (h.0, expire-All P now m h.1)
  | inr (_, over) ↦ rw (over, expire) (expire-All P now m h.1)
]

AllValues-append {κ} :
    (P : Session → Type κ) (m n : Map Session)
    → AllValues P m
    → AllValues P n
    → AllValues P (m ++ n)
AllValues-append P [] n h g = g
AllValues-append P ((_, s) ∷ m) n h g = (h.0, AllValues-append P m n h.1 g)

pub drop_orphans-All {κ} :
    (P : Session → Type κ) (kept m : Map Session)
    → AllValues P kept
    → AllValues P m
    → AllValues P (drop_orphans kept m).0
unfolding drop_orphans
drop_orphans-All P kept [] h g = h
drop_orphans-All P kept ((k, s) ∷ m) h g = elim (Bool-cases (is_orphan s (kept ++ ((k, s) ∷ m)))) [
  | inl orphan ↦ rw (orphan, drop_orphans) (drop_orphans-All P kept m h g.1)
  | inr fine ↦
      rw (fine, drop_orphans)
        (drop_orphans-All P (kept ++ ((k, s) ∷ [])) m
          (AllValues-append P kept ((k, s) ∷ []) h (g.0, tt)) g.1)
]

AllValues-map {κ} :
    (P Q : Session → Type κ) (m : Map Session)
    → ((s : Session) → P s → Q s)
    → AllValues P m
    → AllValues Q m
AllValues-map P Q [] f h = tt
AllValues-map P Q ((_, s) ∷ m) f h = (f s h.0, AllValues-map P Q m f h.1)

-- A management session among the entries is not what is looked for.
find_dsh-skip :
    (id account : Text) (xs : Map Session) (k : Text) (s : Session) (ys : Map Session)
    → s.kind ≡ management
    → find_dsh id account (xs ++ ((k, s) ∷ ys)) ≡ find_dsh id account (xs ++ ys)
unfolding find_dsh
find_dsh-skip id account [] k s ys h = ground arith
find_dsh-skip id account ((j, w) ∷ xs) k s ys h =
    ground (arith, find_dsh-skip id account xs k s ys h)

active_dsh-skip :
    (id : Option Text) (account : Text) (xs : Map Session) (k : Text) (s : Session)
    (ys : Map Session)
    → s.kind ≡ management
    → active_dsh id account (xs ++ ((k, s) ∷ ys)) ≡ active_dsh id account (xs ++ ys)
unfolding active_dsh
active_dsh-skip none account xs k s ys h = refl
active_dsh-skip (some id) account xs k s ys h = find_dsh-skip id account xs k s ys h

management_of_orphan : (s : Session) (m : Map Session) → is_orphan s m ≡ true → s.kind ≡ management
unfolding is_orphan
management_of_orphan s m h = ground arith

IsBacked-of_not_orphan : (s : Session) (m : Map Session) → is_orphan s m ≡ false → IsBacked m s
unfolding is_orphan
IsBacked-of_not_orphan s m h k = elim (Option-cases (active_dsh s.source_id s.account_id m)) [
  | inl missing ↦ absurd (ground arith)
  | inr found ↦ found
]

is_orphan-skip :
    (w : Session) (xs : Map Session) (k : Text) (s : Session) (ys : Map Session)
    → s.kind ≡ management
    → is_orphan w (xs ++ ((k, s) ∷ ys)) ≡ is_orphan w (xs ++ ys)
unfolding is_orphan
is_orphan-skip w xs k s ys h = ground (arith, active_dsh-skip w.source_id w.account_id xs k s ys h)

drop_orphans-IsBacked :
    (kept m : Map Session)
    → AllValues (IsBacked (kept ++ m)) kept
    → AllValues (IsBacked (drop_orphans kept m).0) (drop_orphans kept m).0
unfolding drop_orphans
drop_orphans-IsBacked kept [] h = rw append-nil at h
drop_orphans-IsBacked kept ((k, s) ∷ m) h = elim (Bool-cases (is_orphan s (kept ++ ((k, s) ∷ m)))) [
  | inl orphan ↦
      rw (orphan, drop_orphans)
        (drop_orphans-IsBacked kept m (
          AllValues-map (IsBacked (kept ++ ((k, s) ∷ m))) (IsBacked (kept ++ m)) kept
            (λ w b e.
              let (source, found) = b e in
              (
                source,
                sym (
                      active_dsh-skip w.source_id w.account_id kept k s m
                        (management_of_orphan s _ orphan))
                    ∙ found,
              ))
            h))
  | inr fine ↦
      rw (fine, drop_orphans)
        (drop_orphans-IsBacked (kept ++ ((k, s) ∷ [])) m (
          rw (append_assoc kept ((k, s) ∷ []) m) (
            AllValues-append (IsBacked (kept ++ ((k, s) ∷ m))) kept ((k, s) ∷ []) h
              (IsBacked-of_not_orphan s _ fine, tt))))
]

-- After `prune` each session is before its end and not idle for too long, and each management
-- session has a DSH session of its account under the identifier that it names.
pub prune-IsBacked :
    (store : Store) (now : ℕ)
    → AllValues (IsLive now) (prune store now).sessions
      × AllValues (IsBacked (prune store now).sessions) (prune store now).sessions
unfolding prune
prune-IsBacked store now = (
  drop_orphans-All (IsLive now) [] (expire now store.sessions).0 tt
      (expire-IsLive now store.sessions),
  drop_orphans-IsBacked [] (expire now store.sessions).0 tt,
)

get-skip :
    (key : Text) (xs : Map Session) (k : Text) (s w : Session) (ys : Map Session)
    → get key (xs ++ ((k, s) ∷ ys)) ≡ some w
    → w ≢ s
    → get key (xs ++ ys) ≡ some w
unfolding get
get-skip key [] k s w ys h d = ground (arith, d)
get-skip key ((j, v) ∷ xs) k s w ys h d = ground (arith, get-skip key xs k s w ys)

get-expire :
    (key : Text) (now : ℕ) (m : Map Session) (s : Session)
    → get key m ≡ some s
    → expiry now s ≡ none
    → get key (expire now m).0 ≡ some s
unfolding expire get
get-expire key now [] s h e = cc
get-expire key now ((k, w) ∷ m) s h e = ground (arith, get-expire key now m s)

get-drop_orphans :
    (key : Text) (kept m : Map Session) (s : Session)
    → get key (kept ++ m) ≡ some s
    → is_orphan s (kept ++ m) ≡ false
    → get key (drop_orphans kept m).0 ≡ some s
unfolding drop_orphans
get-drop_orphans key kept [] s h e = rw append-nil at h
get-drop_orphans key kept ((k, w) ∷ m) s h e =
    elim (Bool-cases (is_orphan w (kept ++ ((k, w) ∷ m)))) [
      | inl orphan ↦
          rw (orphan, drop_orphans)
            (get-drop_orphans key kept m s (get-skip key kept k w s m h (λ same. ground arith))
              (sym (is_orphan-skip s kept k w m (management_of_orphan w _ orphan)) ∙ e))
      | inr fine ↦
          rw (fine, drop_orphans)
            (get-drop_orphans key (kept ++ ((k, w) ∷ [])) m s
              (rw (append_assoc kept ((k, w) ∷ []) m) h) (rw (append_assoc kept ((k, w) ∷ []) m) e))
    ]

expiry_of_IsLive : (now : ℕ) (s : Session) → IsLive now s → expiry now s ≡ none
unfolding expiry
expiry_of_IsLive now s h = ground arith

-- `prune` keeps under its key each session that is before its end, not idle for too long, and no
-- orphan among the sessions that have not expired.
pub prune_kept :
    (store : Store) (key : Text) (s : Session) (now : ℕ)
    → get key store.sessions ≡ some s
    → IsLive now s
    → is_orphan s (expire now store.sessions).0 ≡ false
    → get key (prune store now).sessions ≡ some s
unfolding prune
prune_kept store key s now h live fine =
    get-drop_orphans key [] (expire now store.sessions).0 s
      (get-expire key now store.sessions s h (expiry_of_IsLive now s live)) fine

pub not_orphan_dsh : (s : Session) (m : Map Session) → s.kind ≡ dsh → is_orphan s m ≡ false
unfolding is_orphan
not_orphan_dsh s m h = ground arith

get-expire-none :
    (key : Text) (now : ℕ) (m : Map Session) → get key m ≡ none → get key (expire now m).0 ≡ none
unfolding expire get
get-expire-none key now [] h = refl
get-expire-none key now ((k, w) ∷ m) h = ground (arith, get-expire-none key now m)

get-skip_none :
    (key : Text) (xs : Map Session) (k : Text) (s : Session) (ys : Map Session)
    → get key (xs ++ ((k, s) ∷ ys)) ≡ none
    → get key (xs ++ ys) ≡ none
unfolding get
get-skip_none key [] k s ys h = ground arith
get-skip_none key ((j, v) ∷ xs) k s ys h = ground (arith, get-skip_none key xs k s ys)

get-drop_orphans-none :
    (key : Text) (kept m : Map Session)
    → get key (kept ++ m) ≡ none
    → get key (drop_orphans kept m).0 ≡ none
unfolding drop_orphans
get-drop_orphans-none key kept [] h = rw append-nil at h
get-drop_orphans-none key kept ((k, w) ∷ m) h =
    elim (Bool-cases (is_orphan w (kept ++ ((k, w) ∷ m)))) [
      | inl orphan ↦
          rw (orphan, drop_orphans)
            (get-drop_orphans-none key kept m (get-skip_none key kept k w m h))
      | inr fine ↦
          rw (fine, drop_orphans)
            (get-drop_orphans-none key (kept ++ ((k, w) ∷ [])) m
              (rw (append_assoc kept ((k, w) ∷ []) m) h))
    ]

-- `prune` brings no session back.
pub prune-none :
    (store : Store) (key : Text) (now : ℕ)
    → get key store.sessions ≡ none
    → get key (prune store now).sessions ≡ none
unfolding prune
prune-none store key now h =
    get-drop_orphans-none key [] (expire now store.sessions).0
      (get-expire-none key now store.sessions h)
