-- ===== src/AccessManager/Sessions/Validation.antt =====
-- What `validate` of sessions.mjs accepts, and what it does to a session that it refuses.
use dsh_docker.Prelude.{ℕ, ◌≡◌, refl, ap, inl, inr, Option, none, some, true, false, arith}
use dsh_docker.Prelude.Tests.{Option-cases}
use dsh_docker.Prelude.Text.{Text, text_eq_sound}
use dsh_docker.Prelude.Map.{Map, get, AllValues-get}
use dsh_docker.AccessManager.Account.{Account, additional}
use dsh_docker.AccessManager.Sessions.Store.{
  Kind, dsh, management, same_kind, Session, Store, active_dsh, prune,
}
use dsh_docker.AccessManager.Sessions.Issue.{
  Request, View, same_text, same_number, same_digest, is_requested, stale_reason, unbacked,
  validate_found, validate,
}
use dsh_docker.AccessManager.Sessions.Pruning.{IsLive, prune-IsBacked}

same_kind_sound : (a b : Kind) → same_kind a b ≡ true → a ≡ b
same_kind_sound dsh dsh h = refl
same_kind_sound dsh management h = cc
same_kind_sound management dsh h = cc
same_kind_sound management management h = refl

pub same_text_sound : (a b : Option Text) → same_text a b ≡ true → a ≡ b
unfolding same_text
same_text_sound none none h = refl
same_text_sound none (some y) h = cc
same_text_sound (some x) none h = cc
same_text_sound (some x) (some y) h = ap some (text_eq_sound x y h)

same_number_sound : (a b : Option ℕ) → same_number a b ≡ true → a ≡ b
unfolding same_number
same_number_sound none none h = refl
same_number_sound none (some y) h = cc
same_number_sound (some x) none h = cc
same_number_sound (some x) (some y) h = ground arith

-- The session that was asked for, with the versions that the account has now.
pub record Matches (digest : Text → Text) (s : Session) (kind : Kind) (a : Account) (r : Request)
    : Type 0 where
  pub asked_kind : s.kind ≡ kind
  pub account : s.account_id ≡ a.account_id
  pub origin : s.origin ≡ r.origin
  pub csrf : r.require_csrf ≡ true → same_digest digest r.csrf_token s.csrf_digest ≡ true
  pub main : s.main_version ≡ a.main_version
  pub access : s.access_version ≡ a.access_version
  pub additional : s.kind ≡ management → s.additional_version ≡ additional a

-- A DSH session of the account, with its versions, at the origin that the session names.
pub record Backs (m : Map Session) (s : Session) (a : Account) : Type 0 where
  pub source : Session
  pub found : active_dsh s.source_id a.account_id m ≡ some source
  pub origin : some source.origin ≡ s.source_origin
  pub main : source.main_version ≡ a.main_version
  pub access : source.access_version ≡ a.access_version

module _ (digest : Text → Text) where
  Matches-of_tests :
      (s : Session) (kind : Kind) (a : Account) (r : Request)
      → is_requested digest s kind a r ≡ true
      → stale_reason s a ≡ none
      → Matches digest s kind a r
  unfolding is_requested stale_reason
  Matches-of_tests s kind a r h e = record {
    asked_kind = same_kind_sound s.kind kind (ground arith);
    account = text_eq_sound s.account_id a.account_id (ground arith);
    origin = text_eq_sound s.origin r.origin (ground arith);
    csrf = λ k. ground arith;
    main = ground arith;
    access = ground arith;
    additional = λ k. same_number_sound s.additional_version (additional a) (ground arith);
  }

Backs-of_test :
    (s : Session) (a : Account) (m : Map Session)
    → unbacked s a m ≡ false
    → s.kind ≡ management
    → Backs m s a
unfolding unbacked
Backs-of_test s a m h k = elim (Option-cases (active_dsh s.source_id a.account_id m)) [
  | inl missing ↦ absurd (ground arith)
  | inr (source, found) ↦ record {
    source = source;
    found = found;
    origin = same_text_sound (some source.origin) s.source_origin (ground arith);
    main = ground arith;
    access = ground arith;
  }
]

-- What `validate` vouches for.
pub record Accepted (digest : Text → Text) (m : Map Session) (token : Text) (kind : Kind)
    (a : Account) (r : Request) (now : ℕ) (v : View) : Type 0 where
  pub session : Session
  pub found : get (digest token) m ≡ some session
  pub live : IsLive now session
  pub matches : Matches digest session kind a r
  pub backed : session.kind ≡ management → Backs m session a
  pub same_id : v.session_id ≡ session.session_id

module _ (digest : Text → Text) where
  validate_found_Accepted :
      (store : Store) (key : Text) (s : Session) (kind : Kind) (a : Account) (r : Request)
      (later : ℕ) (v : View)
      → (validate_found digest store key s kind a r later).1 ≡ some v
      → Matches digest s kind a r
        × (s.kind ≡ management → Backs store.sessions s a)
        × (v.session_id ≡ s.session_id)
  unfolding validate_found
  validate_found_Accepted store key s kind a r later v h = (
    Matches-of_tests digest s kind a r (ground arith) (ground arith),
    Backs-of_test s a store.sessions (ground arith),
    ground arith,
  )

  validate-some :
      (store : Store) (token : Text) (kind : Kind) (a : Account) (r : Request) (now later : ℕ)
      (v : View)
      → (validate digest store (some token) kind a r now later).1 ≡ some v
      → (s : Session) × (get (digest token) (prune store now).sessions ≡ some s)
        × ((validate_found digest (prune store now) (digest token) s kind a r later).1 ≡ some v)
  unfolding validate
  validate-some store token kind a r now later v h =
      elim (Option-cases (get (digest token) (prune store now).sessions)) [
        | inl missing ↦ absurd (ground arith)
        | inr (s, found) ↦ (s, found, ground arith)
      ]

  -- A token that `validate` accepts has a session of the asked kind, account and origin, with the
  -- asked CSRF token where one is required, before its end, not idle for too long, with the
  -- account's versions, and, if it is a management session, with a DSH session of the account, of
  -- those versions and at the named origin.
  pub validate-Accepted :
      (store : Store) (token : Text) (kind : Kind) (a : Account) (r : Request) (now later : ℕ)
      (v : View)
      → (validate digest store (some token) kind a r now later).1 ≡ some v
      → Accepted digest (prune store now).sessions token kind a r now v
  validate-Accepted store token kind a r now later v h =
      let (s, found, e) = validate-some store token kind a r now later v h in
      let parts = validate_found_Accepted (prune store now) (digest token) s kind a r later v e in
      record {
        session = s;
        found = found;
        live =
            AllValues-get (IsLive now) (digest token) s (prune store now).sessions
              (prune-IsBacked store now).0 found;
        matches = parts.0;
        backed = parts.1;
        same_id = parts.2;
      }
