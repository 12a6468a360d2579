-- ===== src/AccessManager/Sessions/RoundTrip.antt =====
-- `issue` and `validate` of sessions.mjs against one another.
use mathlib.Core.Path.{subst}
use dsh_docker.Prelude.{
  ℕ, ◌+◌, ◌≤◌, ◌<◌, ◌≡◌, refl, sym, ap, ◌∙◌, inl, inr, Option, none, some, true, false, arith,
}
use dsh_docker.Prelude.Tests.{Bool-cases}
use dsh_docker.Prelude.Lists.{length}
use dsh_docker.Prelude.Text.{Text, text_eq_refl}
use dsh_docker.Prelude.Map.{get, put, get-put}
use dsh_docker.AccessManager.Account.{Account}
use dsh_docker.AccessManager.Sessions.Store.{Kind, dsh, Session, Store, prune}
use dsh_docker.AccessManager.Sessions.Issue.{
  Options, Drawn, Issued, Issue, issued, Request, View, is_requested, stale_reason, token_of,
  csrf_of, bad_origin, issue_source, lacks_source, new_session, issue, validate_found, validate,
}
use dsh_docker.AccessManager.Sessions.Pruning.{IsLive, prune_kept, not_orphan_dsh}

issued_parts :
    (i : Issued) (token csrf id : Text) (end : ℕ)
    → issued (record { token = token; csrf_token = csrf; session_id = id; expires_at = end })
      ≡ issued i
    → (token ≡ i.token) × (csrf ≡ i.csrf_token)
issued_parts i token csrf id end h = (ground arith, ground arith)

abbrev pub id_of : Option View → Option Text
id_of none = none
id_of (some v) = some v.session_id

module _ (digest : Text → Text) where
  -- What `issue` stores and hands out for a DSH session.
  issued_dsh :
      (store : Store) (a : Account) (o : Options) (drawn : Drawn) (now created : ℕ)
      → bad_origin o.origin ≡ false
      → let s = new_session digest store dsh a o drawn none created in
        let token = token_of dsh drawn.token in
        issue digest store dsh a o drawn now created ≡ (
          record (prune store now) { sessions = put (digest token) s (prune store now).sessions },
          issued (record {
            token = token;
            csrf_token = csrf_of drawn.csrf;
            session_id = drawn.session_id;
            expires_at = s.expires_at;
          }),
        )
  unfolding issue issue_source lacks_source
  issued_dsh store a o drawn now created e = rw (e, issue)

  good_origin :
      (store : Store) (kind : Kind) (a : Account) (o : Options) (drawn : Drawn) (now created : ℕ)
      (i : Issued)
      → (issue digest store kind a o drawn now created).1 ≡ issued i
      → bad_origin o.origin ≡ false
  unfolding issue
  good_origin store kind a o drawn now created i h = elim (Bool-cases (bad_origin o.origin)) [
    | inl bad ↦ absurd (cc (rw (bad, issue) at h))
    | inr good ↦ good
  ]

  requested_new :
      (s : Session) (a : Account) (r : Request) (csrf : Text)
      → s.kind ≡ dsh
      → s.account_id ≡ a.account_id
      → s.origin ≡ r.origin
      → s.csrf_digest ≡ digest csrf
      → r.csrf_token ≡ some csrf
      → s.main_version ≡ a.main_version
      → s.access_version ≡ a.access_version
      → (is_requested digest s dsh a r ≡ true) × (stale_reason s a ≡ none)
  unfolding is_requested stale_reason
  requested_new s a r csrf h₁ h₂ h₃ h₄ h₅ h₆ h₇ = (
    rw (h₁, h₂, h₃, h₄, h₅, text_eq_refl a.account_id, text_eq_refl r.origin)
        (ground (arith, text_eq_refl (digest csrf))),
    ground arith,
  )

  validate_found_new :
      (store : Store) (key : Text) (s : Session) (a : Account) (r : Request) (later : ℕ)
      → s.kind ≡ dsh
      → (is_requested digest s dsh a r ≡ true) × (stale_reason s a ≡ none)
      → id_of (validate_found digest store key s dsh a r later).1 ≡ some s.session_id
  unfolding validate_found
  validate_found_new store key s a r later h t = ground arith

  validate-get :
      (store : Store) (token : Text) (s : Session) (kind : Kind) (a : Account) (r : Request)
      (now later : ℕ)
      → length token ≤ 512
      → get (digest token) (prune store now).sessions ≡ some s
      → validate digest store (some token) kind a r now later
        ≡ validate_found digest (prune store now) (digest token) s kind a r later
  unfolding validate
  validate-get store token s kind a r now later short h = ground arith

  validate-put :
      (pruned : Store) (s : Session) (a : Account) (r : Request) (token : Text) (at later : ℕ)
      → length token ≤ 512
      → s.kind ≡ dsh
      → (is_requested digest s dsh a r ≡ true) × (stale_reason s a ≡ none)
      → IsLive at s
      → id_of
          (validate digest
            (record pruned { sessions = put (digest token) s pruned.sessions })
            (some token)
            dsh
            a
            r
            at
            later).1
        ≡ some s.session_id
  validate-put pruned s a r token at later short k t live =
      let store = record pruned { sessions = put (digest token) s pruned.sessions } in
      let stored : get (digest token) store.sessions ≡ some s =
        get-put (digest token) (digest token) s pruned.sessions
        ∙ rw (text_eq_refl (digest token)) refl in
      let kept = prune_kept store (digest token) s at stored live (not_orphan_dsh s _ k) in
      rw (validate-get store token s dsh a r at later short kept)
        (validate_found_new (prune store at) (digest token) s a r later k t)

  new_session_tests :
      (store : Store) (a : Account) (o : Options) (drawn : Drawn) (created : ℕ) (r : Request)
      → r.origin ≡ o.origin
      → r.csrf_token ≡ some (csrf_of drawn.csrf)
      → let s = new_session digest store dsh a o drawn none created in
        (is_requested digest s dsh a r ≡ true) × (stale_reason s a ≡ none)
  unfolding new_session
  new_session_tests store a o drawn created r same_origin csrf =
      requested_new (new_session digest store dsh a o drawn none created) a r (csrf_of drawn.csrf)
        refl refl (sym same_origin) refl csrf refl refl

  -- A DSH session that was issued validates with its token and its CSRF token, for the account and
  -- at the origin that it was issued for, at each time before its end and before it is idle for
  -- too long, if the token has at most 512 code units; the answer names its session.
  pub validate-issue :
      (store : Store) (a : Account) (o : Options) (drawn : Drawn) (r : Request) (i : Issued)
      (now created at later : ℕ)
      → (issue digest store dsh a o drawn now created).1 ≡ issued i
      → r.origin ≡ o.origin
      → r.csrf_token ≡ some i.csrf_token
      → length i.token ≤ 512
      → at < created + store.dsh_policy.absolute_ms
      → at < created + store.dsh_policy.idle_ms
      → id_of
          (validate digest
            (issue digest store dsh a o drawn now created).0
            (some i.token)
            dsh
            a
            r
            at
            later).1
        ≡ some drawn.session_id
  unfolding new_session
  validate-issue store a o drawn r i now created at later h same_origin csrf short end idle =
      let good = good_origin store dsh a o drawn now created i h in
      let e = issued_dsh store a o drawn now created good in
      let s = new_session digest store dsh a o drawn none created in
      let parts = issued_parts i _ _ _ _ (ap (λ (p : Store × Issue). p.1) (sym e) ∙ h) in
      let tests =
        new_session_tests store a o drawn created r same_origin (csrf ∙ ap some (sym parts.1)) in
      rw (e, ← parts.0)
        (validate-put (prune store now) s a r (token_of dsh drawn.token) at later
          (subst (λ (t : Text). length t ≤ 512) (sym parts.0) short) refl tests
          (record { before_end = end; not_idle = idle }))
