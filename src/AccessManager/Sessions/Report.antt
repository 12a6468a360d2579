-- ===== src/AccessManager/Sessions/Report.antt =====
-- sessions.mjs: `list`, `details` and `refreshDshSession`. The source orders a list by the printed
-- dates, which sort as the times do.
use dsh_docker.Prelude.{ℕ, List, [], ◌∷◌, ◌++◌, Option, none, some, Bool, true, false, ◌&&◌, not}
use dsh_docker.Prelude.Tests.{ltb, ◌==◌, if◌then◌else◌}
use dsh_docker.Prelude.Text.{Text, text_eq}
use dsh_docker.Prelude.Map.{Map}
use dsh_docker.AccessManager.Account.{Account}
use dsh_docker.AccessManager.Sessions.Store.{
  Kind, is_dsh, Session, Store, refreshed, access_change, event, active_dsh, prune,
}
use dsh_docker.AccessManager.Sessions.Issue.{same_text}
use dsh_docker.AccessManager.Sessions.Revoke.{source_of, refresh_first}

pub record Listed : Type 0 where
  pub session_id : Text
  pub origin : Text
  pub current : Bool
  pub management_active : Bool
  pub ip : Option Text
  pub user_agent : Option Text
  pub created_at : ℕ
  pub last_seen_at : ℕ
  pub expires_at : ℕ

pub record Details : Type 0 where
  pub session_id : Text
  pub kind : Kind
  pub origin : Text
  pub source_origin : Option Text
  pub source_id : Option Text
  pub authentication_source : Text

-- `managementSources.has(sessionId)`
unfoldable pub has_management : Text → Map Session → Bool
unfolding same_text
has_management id [] = false
has_management id ((_, s) ∷ m) =
    let rest = has_management id m in
    if not (is_dsh s.kind) && same_text s.source_id (some id) then true else rest

abbrev is_listed : Account → Session → Bool
is_listed a s =
    text_eq s.account_id a.account_id
    && (is_dsh s.kind && (s.main_version == a.main_version && s.access_version == a.access_version))

abbrev listed : Text → Map Session → Session → Listed
listed current m s = record {
  session_id = s.session_id;
  origin = s.origin;
  current = text_eq s.session_id current;
  management_active = has_management s.session_id m;
  ip = s.client.ip;
  user_agent = s.client.user_agent;
  created_at = s.created_at;
  last_seen_at = s.last_seen_at;
  expires_at = s.expires_at;
}

unfoldable pub listed_of : Account → Text → Map Session → Map Session → List Listed
unfolding text_eq has_management
listed_of a current all [] = []
listed_of a current all ((_, s) ∷ m) =
    let rest = listed_of a current all m in
    if is_listed a s then listed current all s ∷ rest else rest

-- Stable, the latest seen first.
unfoldable pub insert_listed : Listed → List Listed → List Listed
insert_listed x [] = x ∷ []
insert_listed x (y ∷ ys) =
    let rest = insert_listed x ys in
    if ltb x.last_seen_at y.last_seen_at then y ∷ rest else x ∷ (y ∷ ys)

unfoldable pub sort_listed : List Listed → List Listed
unfolding insert_listed
sort_listed [] = []
sort_listed (x ∷ xs) = insert_listed x (sort_listed xs)

-- `this.sourceDshSessionId(currentSessionId) ?? currentSessionId`
abbrev current_dsh : Text → Option Text → Text
current_dsh id none = id
current_dsh id (some source) = source

unfoldable pub list_sessions : Store → Account → Text → ℕ → Store × List Listed
unfolding prune source_of listed_of sort_listed
list_sessions store a current now =
    let pruned = prune store now in
    let shown = current_dsh current (source_of current pruned.sessions) in
    (pruned, sort_listed (listed_of a shown pruned.sessions pruned.sessions))

unfoldable pub details_of : Text → Map Session → Option Details
unfolding text_eq
details_of id [] = none
details_of id ((_, s) ∷ m) =
    if text_eq s.session_id id
    then some (record {
      session_id = s.session_id;
      kind = s.kind;
      origin = s.origin;
      source_origin = s.source_origin;
      source_id = s.source_id;
      authentication_source = s.authentication_source;
    })
    else details_of id m

unfoldable pub details : Store → Text → ℕ → Store × Option Details
unfolding prune details_of
details store id now = let pruned = prune store now in (pruned, details_of id pruned.sessions)

unfoldable pub refresh_dsh_session : Store → Option Text → Account → Store × Bool
unfolding active_dsh refresh_first
refresh_dsh_session store none a = (store, false)
refresh_dsh_session store (some id) a = elim (active_dsh (some id) a.account_id store.sessions) [
  | none ↦ (store, false)
  | some s ↦ (
    record store {
      sessions = refresh_first id a store.sessions;
      events = store.events ++ (event (refreshed access_change) s ∷ []);
    },
    true,
  )
]
