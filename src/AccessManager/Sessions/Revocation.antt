-- ===== src/AccessManager/Sessions/Revocation.antt =====
-- What the operations of sessions.mjs that end sessions leave.
use dsh_docker.Prelude.{
  ℕ, ◌≤◌, ◌≡◌, refl, ◌∙◌, inl, inr, List, [], ◌∷◌, Option, none, some, true, false, arith,
}
use dsh_docker.Prelude.Tests.{Bool-cases, Option-cases}
use dsh_docker.Prelude.Lists.{length}
use dsh_docker.Prelude.Text.{Text, text_eq_refl}
use dsh_docker.Prelude.Map.{Map, get, delete, get-delete, AllValues}
use dsh_docker.AccessManager.Account.{Account}
use dsh_docker.AccessManager.Sessions.Store.{
  Kind, dsh, management, is_dsh, same_kind, Session, Store, find_dsh, active_dsh, expire, prune,
  source_revoked,
}
use dsh_docker.AccessManager.Sessions.Issue.{Request, validate}
use dsh_docker.AccessManager.Sessions.Revoke.{
  stems_from, drop_stemming, revoke_management, revoke_found, revoke, without_kind, of_kind,
  revoke_each, revoke_kind, count_kind,
}
use dsh_docker.AccessManager.Sessions.Pruning.{
  IsBacked, prune-IsBacked, prune-none, expire-All, drop_orphans-All,
}

-- No management session stems from the DSH session.
abbrev pub NoneStems : Text → Map Session → Type 0
NoneStems id = AllValues λ s. stems_from id s ≡ false

abbrev pub NoneOfKind : Kind → Map Session → Type 0
NoneOfKind kind = AllValues λ s. same_kind s.kind kind ≡ false

drop_stemming-NoneStems : (id : Text) (m : Map Session) → NoneStems id (drop_stemming id m)
unfolding drop_stemming
drop_stemming-NoneStems id [] = tt
drop_stemming-NoneStems id ((k, s) ∷ m) = ground (arith, drop_stemming-NoneStems id m)

get-drop_stemming :
    (key id : Text) (m : Map Session) → get key m ≡ none → get key (drop_stemming id m) ≡ none
unfolding drop_stemming get
get-drop_stemming key id [] h = refl
get-drop_stemming key id ((k, s) ∷ m) h = ground (arith, get-drop_stemming key id m)

revoke_found_parts :
    (store : Store) (key : Text) (s : Session)
    → (get key (revoke_found store key s).sessions ≡ none)
      × (s.kind ≡ dsh → NoneStems s.session_id (revoke_found store key s).sessions)
unfolding revoke_found
revoke_found_parts store key s =
    let gone : get key (delete key store.sessions) ≡ none =
      get-delete key key store.sessions ∙ rw (text_eq_refl key) refl in
    elim (Bool-cases (is_dsh s.kind)) [
      | inl d ↦
          rw (d, revoke_found)
            (
              get-drop_stemming key s.session_id (delete key store.sessions) gone,
              λ _. drop_stemming-NoneStems s.session_id (delete key store.sessions),
            )
      | inr m ↦ rw (m, revoke_found) (gone, λ k. absurd (ground arith))
    ]

revoke-some :
    (digest : Text → Text) (store : Store) (token : Text) (s : Session)
    → length token ≤ 512
    → get (digest token) store.sessions ≡ some s
    → revoke digest store (some token) ≡ (revoke_found store (digest token) s, true)
unfolding revoke
revoke-some digest store token s short h = ground arith

revoke_missing :
    (digest : Text → Text) (store : Store) (token : Text)
    → get (digest token) store.sessions ≡ none
    → revoke digest store (some token) ≡ (store, false)
unfolding revoke
revoke_missing digest store token h = ground arith

get-revoke :
    (digest : Text → Text) (store : Store) (token : Text)
    → length token ≤ 512
    → get (digest token) (revoke digest store (some token)).0.sessions ≡ none
get-revoke digest store token short = elim (Option-cases (get (digest token) store.sessions)) [
  | inl missing ↦ rw (revoke_missing digest store token missing) missing
  | inr (s, found) ↦
      rw (revoke-some digest store token s short found)
        (revoke_found_parts store (digest token) s).0
]

validate-none :
    (digest : Text → Text) (store : Store) (token : Text) (kind : Kind) (a : Account) (r : Request)
    (now later : ℕ)
    → get (digest token) (prune store now).sessions ≡ none
    → (validate digest store (some token) kind a r now later).1 ≡ none
unfolding validate
validate-none digest store token kind a r now later h = ground arith

-- Revoking a token of at most 512 code units that has a session ends that session, and, if it is a
-- DSH session, all management sessions that were opened from it.
pub revoke_lem :
    (digest : Text → Text) (store : Store) (token : Text) (s : Session)
    → length token ≤ 512
    → get (digest token) store.sessions ≡ some s
    → let m = (revoke digest store (some token)).0.sessions in
      ((revoke digest store (some token)).1 ≡ true)
      × (get (digest token) m ≡ none)
      × (s.kind ≡ dsh → NoneStems s.session_id m)
revoke_lem digest store token s short h =
    let parts = revoke_found_parts store (digest token) s in
    rw (revoke-some digest store token s short h) (refl, parts.0, parts.1)

-- A revoked token of at most 512 code units is refused from then on, whatever the request and the
-- times.
pub validate-revoke :
    (digest : Text → Text) (store : Store) (token : Text) (kind : Kind) (a : Account) (r : Request)
    (now later : ℕ)
    → length token ≤ 512
    → (validate digest (revoke digest store (some token)).0 (some token) kind a r now later).1
      ≡ none
validate-revoke digest store token kind a r now later short =
    let store' = (revoke digest store (some token)).0 in
    validate-none digest store' token kind a r now later
      (prune-none store' (digest token) now (get-revoke digest store token short))

without_kind-NoneOfKind : (kind : Kind) (m : Map Session) → NoneOfKind kind (without_kind kind m)
unfolding without_kind
without_kind-NoneOfKind kind [] = tt
without_kind-NoneOfKind kind ((k, s) ∷ m) = ground (arith, without_kind-NoneOfKind kind m)

drop_stemming-All {κ} :
    (P : Session → Type κ) (id : Text) (m : Map Session)
    → AllValues P m
    → AllValues P (drop_stemming id m)
unfolding drop_stemming
drop_stemming-All P id [] h = tt
drop_stemming-All P id ((k, s) ∷ m) h = elim (Bool-cases (stems_from id s)) [
  | inl e ↦ rw (e, drop_stemming) (drop_stemming-All P id m h.1)
  | inr e ↦ rw (e, drop_stemming) (h.0, drop_stemming-All P id m h.1)
]

revoke_each-All {κ} :
    (P : Session → Type κ) (store : Store) (ss : List Session)
    → AllValues P store.sessions
    → AllValues P (revoke_each store ss).sessions
unfolding revoke_each
revoke_each-All P store [] h = h
revoke_each-All P store (s ∷ ss) h =
    revoke_each-All P (revoke_management store s.session_id source_revoked).0 ss
      (drop_stemming-All P s.session_id store.sessions h)

revoke_kind-NoneOfKind :
    (store : Store) (kind : Kind) → NoneOfKind kind (revoke_kind store kind).0.sessions
unfolding revoke_kind
revoke_kind-NoneOfKind store kind =
    let rest = record store { sessions = without_kind kind store.sessions } in
    let start = without_kind-NoneOfKind kind store.sessions in
    elim (Bool-cases (is_dsh kind)) [
      | inl d ↦
          rw (d, revoke_kind)
            (revoke_each-All (λ s. same_kind s.kind kind ≡ false) rest (of_kind kind store.sessions)
              start)
      | inr m ↦ rw (m, revoke_kind) start
    ]

prune-All {κ} :
    (P : Session → Type κ) (store : Store) (now : ℕ)
    → AllValues P store.sessions
    → AllValues P (prune store now).sessions
unfolding prune
prune-All P store now h =
    drop_orphans-All P [] (expire now store.sessions).0 tt (expire-All P now store.sessions h)

length-of_kind : (kind : Kind) (m : Map Session) → NoneOfKind kind m → length (of_kind kind m) ≡ 0
unfolding of_kind
length-of_kind kind [] h = refl
length-of_kind kind ((k, s) ∷ m) h = ground (arith, length-of_kind kind m h.1)

find_dsh-none :
    (id account : Text) (m : Map Session) → NoneOfKind dsh m → find_dsh id account m ≡ none
unfolding find_dsh
find_dsh-none id account [] h = refl
find_dsh-none id account ((k, s) ∷ m) h = ground (arith, find_dsh-none id account m h.1)

active_dsh-none :
    (id : Option Text) (account : Text) (m : Map Session)
    → NoneOfKind dsh m
    → active_dsh id account m ≡ none
unfolding active_dsh
active_dsh-none none account m h = refl
active_dsh-none (some id) account m h = find_dsh-none id account m h

not_management :
    (m : Map Session) (s : Session)
    → NoneOfKind dsh m
    → IsBacked m s
    → same_kind s.kind management ≡ false
not_management m s h b = elim (Bool-cases (same_kind s.kind management)) [
  | inl e ↦ absurd (unbacked_kind s.kind refl e)
  | inr e ↦ e
]
  where
    unbacked_kind : (k : Kind) → s.kind ≡ k → same_kind s.kind management ≡ true → ⊥
    unbacked_kind dsh e f = ground arith
    unbacked_kind management e f =
        let (source, found) = b e in
        let missing = active_dsh-none s.source_id s.account_id m h in cc

unbacked_all :
    (m n : Map Session) → NoneOfKind dsh m → AllValues (IsBacked m) n → NoneOfKind management n
unbacked_all m [] h b = tt
unbacked_all m ((_, s) ∷ n) h b = (not_management m s h b.0, unbacked_all m n h b.1)

-- After all DSH sessions are revoked, none of them and no management session is counted, whenever
-- that is; after all management sessions are revoked, none of those is counted.
pub count_kind-revoke_kind :
    (store : Store) (now : ℕ)
    → ((count_kind (revoke_kind store dsh).0 dsh now).1 ≡ 0)
      × ((count_kind (revoke_kind store dsh).0 management now).1 ≡ 0)
      × ((count_kind (revoke_kind store management).0 management now).1 ≡ 0)
unfolding count_kind
count_kind-revoke_kind store now =
    let none_dsh =
      prune-All (λ s. same_kind s.kind dsh ≡ false) (revoke_kind store dsh).0 now
        (revoke_kind-NoneOfKind store dsh) in
    let none_management =
      prune-All (λ s. same_kind s.kind management ≡ false) (revoke_kind store management).0 now
        (revoke_kind-NoneOfKind store management) in
    (
      length-of_kind dsh _ none_dsh,
      length-of_kind management _
          (unbacked_all _ _ none_dsh (prune-IsBacked (revoke_kind store dsh).0 now).1),
      length-of_kind management _ none_management,
    )
