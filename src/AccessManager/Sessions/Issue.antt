-- ===== src/AccessManager/Sessions/Issue.antt =====
-- sessions.mjs: `issue` and `validate`. SHA-256 is the parameter `digest`; it stands for the hex
-- text under which a session is kept and for the bytes that `sameDigest` compares. What
-- `randomBytes` gives is an argument.
use dsh_docker.Prelude.{
  ℕ, ◌+◌, [], ◌∷◌, ◌++◌, Option, none, some, Bool, true, false, ◌&&◌, ◌||◌, not, min,
}
use dsh_docker.Prelude.Tests.{leb, ltb, ◌==◌, if◌then◌else◌}
use dsh_docker.Prelude.Lists.{length}
use dsh_docker.Prelude.Text.{Text, text_eq, codes}
use dsh_docker.Prelude.Map.{Map, get, put, delete}
use dsh_docker.AccessManager.Account.{Account, additional}
use dsh_docker.AccessManager.Sessions.Store.{
  Kind, dsh, management, is_dsh, same_kind, Client, Session, Store, invalidated, activity, Reason,
  source_session, main_version, access_version, additional_version, event, policy_of,
  session_client, active_dsh, prune,
}

pub record Options : Type 0 where
  pub origin : Text
  pub source_origin : Option Text
  pub source_id : Option Text
  pub client : Option Client
  pub authentication_source : Text

-- The identifiers drawn for one session.
pub record Drawn : Type 0 where
  pub token : Text
  pub csrf : Text
  pub session_id : Text

pub record Issued : Type 0 where
  pub token : Text
  pub csrf_token : Text
  pub session_id : Text
  pub expires_at : ℕ

pub data Issue : Type 0 where
  issued : Issued → Issue
  invalid_origin : Issue
  no_dsh_session : Issue

-- What `validate` returns of a session.
pub record View : Type 0 where
  pub session_id : Text
  pub kind : Kind
  pub account_id : Text
  pub origin : Text
  pub source_origin : Option Text
  pub source_id : Option Text
  pub created_at : ℕ
  pub expires_at : ℕ

-- `left === right` on texts that may be null, and on numbers that may be null.
unfoldable pub same_text : Option Text → Option Text → Bool
unfolding text_eq
same_text none none = true
same_text (some a) (some b) = text_eq a b
same_text none (some b) = false
same_text (some a) none = false

unfoldable pub same_number : Option ℕ → Option ℕ → Bool
same_number none none = true
same_number (some a) (some b) = a == b
same_number none (some b) = false
same_number (some a) none = false

abbrev pub token_of : Kind → Text → Text
token_of dsh drawn = codes "dshs_" ++ drawn
token_of management drawn = codes "dshms_" ++ drawn

abbrev pub csrf_of : Text → Text
csrf_of drawn = codes "dshc_" ++ drawn

abbrev view : Session → View
view s = record {
  session_id = s.session_id;
  kind = s.kind;
  account_id = s.account_id;
  origin = s.origin;
  source_origin = s.source_origin;
  source_id = s.source_id;
  created_at = s.created_at;
  expires_at = s.expires_at;
}

-- `kind === 'management' ? this.activeDshSession(...) : undefined`
unfoldable pub issue_source : Store → Kind → Account → Options → Option Session
unfolding active_dsh
issue_source store dsh account o = none
issue_source store management account o = active_dsh o.source_id account.account_id store.sessions

-- Whether a management session lacks its DSH session.
unfoldable pub lacks_source : Kind → Option Session → Options → Bool
unfolding same_text
lacks_source dsh source o = false
lacks_source management none o = true
lacks_source management (some s) o = not (same_text (some s.origin) o.source_origin)

abbrev client_from : Option Session → Options → Client
client_from none o = session_client o.client
client_from (some s) o = s.client

abbrev authentication_from : Option Session → Options → Text
authentication_from none o = o.authentication_source
authentication_from (some s) o = s.authentication_source

-- No later than the source session.
abbrev pub capped : ℕ → Option Session → ℕ
capped at none = at
capped at (some s) = min at s.expires_at

abbrev pub bad_origin : Text → Bool
bad_origin origin = length origin == 0 || ltb 2048 (length origin)

-- The three tests of `validate` against the account, in the order of the source.
unfoldable pub stale_reason : Session → Account → Option Reason
unfolding same_number
stale_reason s a =
    if not (s.main_version == a.main_version)
    then some main_version
    else if not (s.access_version == a.access_version)
    then some access_version
    else if not (is_dsh s.kind) && not (same_number s.additional_version (additional a))
    then some additional_version
    else none

abbrev source_backs : Session → Account → Option Session → Bool
source_backs s a none = false
source_backs s a (some source) =
    same_text (some source.origin) s.source_origin
    && (source.main_version == a.main_version && source.access_version == a.access_version)

-- Whether the DSH session of a management session no longer backs it.
unfoldable pub unbacked : Session → Account → Map Session → Bool
unfolding active_dsh same_text
unbacked s a m =
    not (is_dsh s.kind) && not (source_backs s a (active_dsh s.source_id a.account_id m))

unfoldable pub touch_session : Store → Text → Session → ℕ → Store
touch_session store key s now =
    let due = leb (s.activity_reported_at + store.activity_report_ms) now in
    record store {
      sessions =
          put key
            (record s {
              last_seen_at = now;
              activity_reported_at = if due then now else s.activity_reported_at;
            })
            store.sessions;
      events = if due then store.events ++ (event activity s ∷ []) else store.events;
    }

abbrev invalidate : Store → Text → Session → Reason → Store
invalidate store key s reason = record store {
  sessions = delete key store.sessions;
  events = store.events ++ (event (invalidated reason) s ∷ []);
}

pub record Request : Type 0 where
  pub origin : Text
  pub csrf_token : Option Text
  pub require_csrf : Bool
  pub touch : Bool

module _ (digest : Text → Text) where
  unfoldable pub new_session :
      Store → Kind → Account → Options → Drawn → Option Session → ℕ → Session
  new_session store kind account o drawn source created = record {
    session_id = drawn.session_id;
    kind = kind;
    account_id = account.account_id;
    main_version = account.main_version;
    additional_version = additional account;
    access_version = account.access_version;
    origin = o.origin;
    source_origin = o.source_origin;
    source_id = o.source_id;
    authentication_source = authentication_from source o;
    client = client_from source o;
    csrf_digest = digest (csrf_of drawn.csrf);
    created_at = created;
    last_seen_at = created;
    activity_reported_at = created;
    expires_at = capped (created + (policy_of store kind).absolute_ms) source;
    idle_ms = (policy_of store kind).idle_ms;
  }

  -- The clock is read by the pruning and again for the session.
  unfoldable pub issue : Store → Kind → Account → Options → Drawn → ℕ → ℕ → Store × Issue
  issue store kind account o drawn now created =
      let pruned = prune store now in
      let source = issue_source pruned kind account o in
      let s = new_session store kind account o drawn source created in
      let key = digest (token_of kind drawn.token) in
      if bad_origin o.origin
      then (store, invalid_origin)
      else if lacks_source kind source o
      then (pruned, no_dsh_session)
      else (
        record pruned { sessions = put key s pruned.sessions },
        issued (record {
          token = token_of kind drawn.token;
          csrf_token = csrf_of drawn.csrf;
          session_id = drawn.session_id;
          expires_at = s.expires_at;
        }),
      )

  -- `sameDigest`, which reads a missing value as the empty text.
  unfoldable pub same_digest : Option Text → Text → Bool
  unfolding text_eq
  same_digest none expected = text_eq (digest []) expected
  same_digest (some value) expected = text_eq (digest value) expected

  -- Whether the session is the one that the request names.
  unfoldable pub is_requested : Session → Kind → Account → Request → Bool
  unfolding text_eq same_digest
  is_requested s kind account r =
      same_kind s.kind kind
      && (text_eq s.account_id account.account_id
          && (text_eq s.origin r.origin
              && (not r.require_csrf || same_digest r.csrf_token s.csrf_digest)))

  -- The part of `validate` behind the look-up.
  unfoldable pub validate_found :
      Store → Text → Session → Kind → Account → Request → ℕ → Store × Option View
  unfolding is_requested stale_reason unbacked touch_session
  validate_found store key s kind account r later =
      let touched = touch_session store key s later in
      if is_requested s kind account r
      then elim (stale_reason s account) [
        | some reason ↦ (invalidate store key s reason, none)
        | none ↦
            if unbacked s account store.sessions
            then (invalidate store key s source_session, none)
            else (if r.touch then touched else store, some (view s))
      ]
      else (store, none)

  unfoldable pub validate :
      Store → Option Text → Kind → Account → Request → ℕ → ℕ → Store × Option View
  unfolding validate_found
  validate store none kind account r now later = (prune store now, none)
  validate store (some token) kind account r now later =
      let pruned = prune store now in
      if ltb 512 (length token) then (pruned, none) else elim (get (digest token) pruned.sessions) [
        | none ↦ (pruned, none)
        | some s ↦ validate_found pruned (digest token) s kind account r later
      ]
