-- ===== src/AccessManager/Sessions/Revoke.antt =====
-- sessions.mjs: the operations that end sessions, and those that report on them.
use dsh_docker.Prelude.{ℕ, List, [], ◌∷◌, ◌++◌, Option, none, some, Bool, true, false, ◌&&◌, not}
use dsh_docker.Prelude.Tests.{ltb, if◌then◌else◌}
use dsh_docker.Prelude.Lists.{length}
use dsh_docker.Prelude.Text.{Text, text_eq}
use dsh_docker.Prelude.Map.{Map, get, delete}
use dsh_docker.AccessManager.Account.{Account}
use dsh_docker.AccessManager.Sessions.Store.{
  Kind, is_dsh, same_kind, Session, Store, Event, invalidated, Reason, source_revoked, event, prune,
}
use dsh_docker.AccessManager.Sessions.Issue.{same_text}

-- Whether a management session was opened from a DSH session.
unfoldable pub stems_from : Text → Session → Bool
unfolding same_text
stems_from id s = not (is_dsh s.kind) && same_text s.source_id (some id)

-- The loop of `revokeManagementFromDsh`.
unfoldable pub drop_stemming : Text → Map Session → Map Session
unfolding stems_from
drop_stemming id [] = []
drop_stemming id ((k, s) ∷ m) =
    let rest = drop_stemming id m in if stems_from id s then rest else (k, s) ∷ rest

unfoldable pub stemming : Text → Map Session → List Session
unfolding stems_from
stemming id [] = []
stemming id ((_, s) ∷ m) = let rest = stemming id m in if stems_from id s then s ∷ rest else rest

abbrev events_of : Reason → List Session → List Event
events_of reason [] = []
events_of reason (s ∷ ss) = event (invalidated reason) s ∷ events_of reason ss

unfoldable pub revoke_management : Store → Text → Reason → Store × ℕ
unfolding drop_stemming stemming
revoke_management store id reason =
    let found = stemming id store.sessions in
    (
      record store {
        sessions = drop_stemming id store.sessions;
        events = store.events ++ events_of reason found;
      },
      length found,
    )

-- `revoke` behind the look-up.
unfoldable pub revoke_found : Store → Text → Session → Store
unfolding revoke_management
revoke_found store key s =
    let rest = record store { sessions = delete key store.sessions } in
    if is_dsh s.kind then (revoke_management rest s.session_id source_revoked).0 else rest

unfoldable pub revoke : (Text → Text) → Store → Option Text → Store × Bool
unfolding revoke_found
revoke digest store none = (store, false)
revoke digest store (some token) =
    if ltb 512 (length token) then (store, false) else elim (get (digest token) store.sessions) [
      | none ↦ (store, false)
      | some s ↦ (revoke_found store (digest token) s, true)
    ]

-- The first loop of `revokeKind`: what stays, and the sessions that it deletes.
unfoldable pub without_kind : Kind → Map Session → Map Session
without_kind kind [] = []
without_kind kind ((k, s) ∷ m) =
    let rest = without_kind kind m in if same_kind s.kind kind then rest else (k, s) ∷ rest

unfoldable pub of_kind : Kind → Map Session → List Session
of_kind kind [] = []
of_kind kind ((_, s) ∷ m) =
    let rest = of_kind kind m in if same_kind s.kind kind then s ∷ rest else rest

unfoldable pub revoke_each : Store → List Session → Store
unfolding revoke_management
revoke_each store [] = store
revoke_each store (s ∷ ss) = revoke_each (revoke_management store s.session_id source_revoked).0 ss

unfoldable pub revoke_kind : Store → Kind → Store × ℕ
unfolding without_kind of_kind revoke_each
revoke_kind store kind =
    let gone = of_kind kind store.sessions in
    let rest = record store { sessions = without_kind kind store.sessions } in
    (if is_dsh kind then revoke_each rest gone else rest, length gone)

unfoldable pub count_kind : Store → Kind → ℕ → Store × ℕ
unfolding prune of_kind
count_kind store kind now =
    let pruned = prune store now in (pruned, length (of_kind kind pruned.sessions))

-- The key of the first DSH session with the identifier and account.
unfoldable pub find_dsh_key : Text → Text → Map Session → Option Text
unfolding text_eq
find_dsh_key id account [] = none
find_dsh_key id account ((k, s) ∷ m) =
    if is_dsh s.kind && (text_eq s.session_id id && text_eq s.account_id account)
    then some k
    else find_dsh_key id account m

unfoldable pub revoke_dsh_session : Store → Option Text → Option Text → Store × Bool
unfolding find_dsh_key revoke_management
revoke_dsh_session store none account = (store, false)
revoke_dsh_session store (some id) none = (store, false)
revoke_dsh_session store (some id) (some account) = elim (find_dsh_key id account store.sessions) [
  | none ↦ (store, false)
  | some k ↦ (
    (revoke_management (record store { sessions = delete k store.sessions }) id source_revoked).0,
    true,
  )
]

-- `sourceDshSessionId` of a session: that of the first management session with the identifier.
unfoldable pub source_of : Text → Map Session → Option Text
unfolding text_eq
source_of id [] = none
source_of id ((_, s) ∷ m) =
    if not (is_dsh s.kind) && text_eq s.session_id id then s.source_id else source_of id m

-- `refreshDshSession`: the first DSH session with the identifier takes on the account's versions.
unfoldable pub refresh_first : Text → Account → Map Session → Map Session
unfolding text_eq
refresh_first id a [] = []
refresh_first id a ((k, s) ∷ m) =
    let rest = refresh_first id a m in
    if is_dsh s.kind && (text_eq s.session_id id && text_eq s.account_id a.account_id)
    then (k, record s { main_version = a.main_version; access_version = a.access_version }) ∷ m
    else (k, s) ∷ rest

unfoldable pub revoke_all : Store → Store × ℕ
revoke_all store = (record store { sessions = [] }, length store.sessions)
