-- ===== src/AccessManager/Sessions/Store.antt =====
-- container/control-plane/services/access-manager/lib/sessions.mjs: the state of
-- `BrowserSessionStore` and its pruning. Times are whole milliseconds; a date that the source
-- prints is the number itself. `sessions` maps the digest of a token to its session; `events`
-- lists the calls of the event sink, in order.
use dsh_docker.Prelude.{ℕ, ◌+◌, List, [], ◌∷◌, ◌++◌, Option, none, some, Bool, true, false, ◌&&◌}
use dsh_docker.Prelude.Tests.{leb, ltb, if◌then◌else◌}
use dsh_docker.Prelude.Lists.{length}
use dsh_docker.Prelude.Text.{Text, text_eq}
use dsh_docker.Prelude.Map.{Map}

pub data Kind : Type 0 where
  dsh management : Kind

abbrev pub is_dsh : Kind → Bool
is_dsh dsh = true
is_dsh management = false

abbrev pub same_kind : Kind → Kind → Bool
same_kind dsh dsh = true
same_kind management management = true
same_kind _ _ = false

pub record Client : Type 0 where
  pub ip : Option Text
  pub user_agent : Option Text

pub record Session : Type 0 where
  pub session_id : Text
  pub kind : Kind
  pub account_id : Text
  pub main_version : ℕ
  pub additional_version : Option ℕ
  pub access_version : ℕ
  pub origin : Text
  pub source_origin : Option Text
  pub source_id : Option Text
  pub authentication_source : Text
  pub client : Client
  pub csrf_digest : Text
  pub created_at : ℕ
  pub last_seen_at : ℕ
  pub activity_reported_at : ℕ
  pub expires_at : ℕ
  pub idle_ms : ℕ

pub data Reason : Type 0 where
  absolute idle source_session source_revoked main_version access_version additional_version
        access_change :
      Reason

pub data Message : Type 0 where
  expired invalidated : Reason → Message
  activity : Message
  refreshed : Reason → Message

pub record Event : Type 0 where
  pub message : Message
  pub account_id : Text
  pub session_id : Text
  pub kind : Kind

pub record Policy : Type 0 where
  pub absolute_ms : ℕ
  pub idle_ms : ℕ

pub record Store : Type 0 where
  pub dsh_policy : Policy
  pub management_policy : Policy
  pub activity_report_ms : ℕ
  pub sessions : Map Session
  pub events : List Event

abbrev pub policy_of : Store → Kind → Policy
policy_of s dsh = s.dsh_policy
policy_of s management = s.management_policy

-- `emit`
abbrev pub event : Message → Session → Event
event m s = record {
  message = m;
  account_id = s.account_id;
  session_id = s.session_id;
  kind = s.kind;
}

unfoldable pub bounded : Option Text → ℕ → Option Text
bounded none maximum = none
bounded (some field) maximum =
    if ltb 0 (length field) && leb (length field) maximum then some field else none

-- `sessionClient`, of a value that is an object or none.
unfoldable pub session_client : Option Client → Client
unfolding bounded
session_client none = record { ip = none; user_agent = none }
session_client (some c) = record { ip = bounded c.ip 128; user_agent = bounded c.user_agent 512 }

abbrev is_session : Text → Text → Session → Bool
is_session id account s = is_dsh s.kind && text_eq s.session_id id && text_eq s.account_id account

unfoldable pub find_dsh : Text → Text → Map Session → Option Session
unfolding text_eq
find_dsh id account [] = none
find_dsh id account ((_, s) ∷ m) = if is_session id account s then some s else find_dsh id account m

-- `activeDshSession`; an identifier that is no string finds nothing.
unfoldable pub active_dsh : Option Text → Text → Map Session → Option Session
unfolding find_dsh
active_dsh none account m = none
active_dsh (some id) account m = find_dsh id account m

unfoldable pub expiry : ℕ → Session → Option Reason
expiry now s =
    if leb s.expires_at now
    then some absolute
    else if leb (s.last_seen_at + s.idle_ms) now
    then some idle
    else none

-- The first loop of `prune`.
unfoldable pub expire : ℕ → Map Session → Map Session × List Event
unfolding expiry
expire now [] = ([], [])
expire now ((k, s) ∷ m) =
    let (kept, events) = expire now m in
    elim (expiry now s) [
      | none ↦ ((k, s) ∷ kept, events)
      | some reason ↦ (kept, event (expired reason) s ∷ events)
    ]

unfoldable pub is_orphan : Session → Map Session → Bool
unfolding active_dsh
is_orphan s m = elim s.kind [
  | dsh ↦ false
  | management ↦ elim (active_dsh s.source_id s.account_id m) [ none ↦ true | some _ ↦ false ]
]

-- The second loop: `kept` holds what was visited and stays, so that the map at each test is
-- `kept` with the entries that are still to visit.
unfoldable pub drop_orphans : Map Session → Map Session → Map Session × List Event
unfolding is_orphan
drop_orphans kept [] = (kept, [])
drop_orphans kept ((k, s) ∷ m) =
    let orphan = is_orphan s (kept ++ ((k, s) ∷ m)) in
    let (rest, events) = drop_orphans (if orphan then kept else kept ++ ((k, s) ∷ [])) m in
    (rest, if orphan then event (invalidated source_session) s ∷ events else events)

unfoldable pub prune : Store → ℕ → Store
unfolding expire drop_orphans
prune store now =
    let (live, expiries) = expire now store.sessions in
    let (linked, orphans) = drop_orphans [] live in
    record store { sessions = linked; events = store.events ++ (expiries ++ orphans) }
