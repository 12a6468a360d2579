-- ===== src/AccessManager/Sessions/ManagementIssue.antt =====
-- sessions.mjs: what a management session takes from its DSH session, and what a change of the
-- account does to a session.
use dsh_docker.Prelude.{
  ℕ, ◌+◌, ◌≤◌, ◌≡◌, refl, sym, ap, ◌∙◌, inl, inr, Option, none, some, true, false, ◌&&◌, arith,
}
use dsh_docker.Prelude.Tests.{◌==◌, Bool-cases}
use dsh_docker.Prelude.Lists.{length}
use dsh_docker.Prelude.Text.{Text, text_eq_refl}
use dsh_docker.Prelude.Map.{Map, get, put, delete, get-put, get-delete}
use dsh_docker.AccessManager.Account.{Account}
use dsh_docker.AccessManager.Sessions.Store.{Kind, management, Session, Store, active_dsh, prune}
use dsh_docker.AccessManager.Sessions.Issue.{
  Options, Drawn, Issued, Issue, issued, invalid_origin, no_dsh_session, csrf_of, Request,
  is_requested, stale_reason, token_of, bad_origin, issue_source, lacks_source, new_session, issue,
  validate_found, validate,
}
use dsh_docker.AccessManager.Sessions.Validation.{same_text_sound}

-- The DSH session that an issued management session rests on.
pub record RestsOn (m : Map Session) (a : Account) (o : Options) (created absolute_ms : ℕ)
    (i : Issued) (s : Session) : Type 0 where
  pub source : Session
  pub found : active_dsh o.source_id a.account_id m ≡ some source
  pub origin : some source.origin ≡ o.source_origin
  pub ends_with_source : i.expires_at ≤ source.expires_at
  pub ends_by_policy : i.expires_at ≤ created + absolute_ms
  pub same_end : s.expires_at ≡ i.expires_at
  pub same_client : s.client ≡ source.client
  pub same_authentication : s.authentication_source ≡ source.authentication_source

issued_parts :
    (i : Issued) (token csrf id : Text) (end : ℕ)
    → issued (record { token = token; csrf_token = csrf; session_id = id; expires_at = end })
      ≡ issued i
    → (token ≡ i.token) × (end ≡ i.expires_at)
issued_parts i token csrf id end h = (ground arith, ground arith)

issue_source_management :
    (store : Store) (a : Account) (o : Options)
    → issue_source store management a o ≡ active_dsh o.source_id a.account_id store.sessions
unfolding issue_source
issue_source_management store a o = refl

new_session_ends :
    (digest : Text → Text) (store : Store) (a : Account) (o : Options) (drawn : Drawn) (created : ℕ)
    (r : Option Session) (source : Session)
    → r ≡ some source
    → let s = new_session digest store management a o drawn r created in
      (s.expires_at ≤ source.expires_at)
      × (s.expires_at ≤ created + store.management_policy.absolute_ms)
      × (s.client ≡ source.client)
      × (s.authentication_source ≡ source.authentication_source)
unfolding new_session
new_session_ends digest store a o drawn created r source e =
    rw e (omega arith, omega arith, refl, refl)

source_of_test :
    (o : Options) (r : Option Session)
    → lacks_source management r o ≡ false
    → (source : Session) × (r ≡ some source) × (some source.origin ≡ o.source_origin)
unfolding lacks_source
source_of_test o none h = absurd (ground arith)
source_of_test o (some s) h =
    (s, refl, same_text_sound (some s.origin) o.source_origin (ground arith))

module _ (digest : Text → Text) (store : Store) (a : Account) (o : Options) (drawn : Drawn)
    (now created : ℕ) where
  refused_origin :
      bad_origin o.origin ≡ true
      → (issue digest store management a o drawn now created).1 ≡ invalid_origin
  unfolding issue
  refused_origin bad = rw (bad, issue)

  refused_source :
      bad_origin o.origin ≡ false
      → lacks_source management (issue_source (prune store now) management a o) o ≡ true
      → (issue digest store management a o drawn now created).1 ≡ no_dsh_session
  unfolding issue
  refused_source good lacks = rw (good, lacks, issue)

  issued_management :
      bad_origin o.origin ≡ false
      → lacks_source management (issue_source (prune store now) management a o) o ≡ false
      → let source = issue_source (prune store now) management a o in
        let s = new_session digest store management a o drawn source created in
        let token = token_of management drawn.token in
        issue digest store management a o drawn now created ≡ (
          record (prune store now) { sessions = put (digest token) s (prune store now).sessions },
          issued (record {
            token = token;
            csrf_token = csrf_of drawn.csrf;
            session_id = drawn.session_id;
            expires_at = s.expires_at;
          }),
        )
  unfolding issue
  issued_management good backed = rw (good, backed, issue)

-- A management session is issued only on an active DSH session of the account at the origin that
-- is named; it ends no later than that session and its own policy, keeps that session's client and
-- authentication source, and is stored under its token.
pub issue-RestsOn :
    (digest : Text → Text) (store : Store) (a : Account) (o : Options) (drawn : Drawn)
    (now created : ℕ) (i : Issued)
    → (issue digest store management a o drawn now created).1 ≡ issued i
    → (s : Session) × (get
          (digest i.token)
          (issue digest store management a o drawn now created).0.sessions
        ≡ some s)
      × RestsOn (prune store now).sessions a o created store.management_policy.absolute_ms i s
issue-RestsOn digest store a o drawn now created i h =
    let pruned = prune store now in
    let source = issue_source pruned management a o in
    elim (Bool-cases (bad_origin o.origin)) [
      | inl bad ↦ cc (refused_origin digest store a o drawn now created bad)
      | inr good ↦ elim (Bool-cases (lacks_source management source o)) [
        | inl lacks ↦ cc (refused_source digest store a o drawn now created good lacks)
        | inr backed ↦
            let e = issued_management digest store a o drawn now created good backed in
            let s = new_session digest store management a o drawn source created in
            let token = token_of management drawn.token in
            let (origin, found, same_origin) = source_of_test o source backed in
            let same = issued_parts i _ _ _ _ (ap (λ (p : Store × Issue). p.1) (sym e) ∙ h) in
            let ends = new_session_ends digest store a o drawn created source origin found in
            (
              s,
              rw (e, ← same.0)
                  (get-put (digest token) (digest token) s pruned.sessions
                    ∙ rw (text_eq_refl (digest token)) refl),
              record {
                source = origin;
                found = sym (issue_source_management pruned a o) ∙ found;
                origin = same_origin;
                ends_with_source = rw (← same.1) ends.0;
                ends_by_policy = rw (← same.1) ends.1;
                same_end = same.1;
                same_client = ends.2;
                same_authentication = ends.3;
              },
            )
      ]
    ]

-- A session whose account has changed its main credential or its management access since is
-- refused and ended by the request that names it, whatever its kind, for a token of at most 512
-- code units.
pub validate-stale :
    (digest : Text → Text) (store : Store) (token : Text) (s : Session) (kind : Kind) (a : Account)
    (r : Request) (now later : ℕ)
    → length token ≤ 512
    → get (digest token) (prune store now).sessions ≡ some s
    → is_requested digest s kind a r ≡ true
    → (s.main_version == a.main_version) && (s.access_version == a.access_version) ≡ false
    → ((validate digest store (some token) kind a r now later).1 ≡ none)
      × (get (digest token) (validate digest store (some token) kind a r now later).0.sessions
          ≡ none)
unfolding validate validate_found stale_reason
validate-stale digest store token s kind a r now later short found asked changed =
    let gone : get (digest token) (delete (digest token) (prune store now).sessions) ≡ none =
      get-delete (digest token) (digest token) (prune store now).sessions
      ∙ rw (text_eq_refl (digest token)) refl in
    (ground arith, ground arith)
