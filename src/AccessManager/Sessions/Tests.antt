-- ===== src/AccessManager/Sessions/Tests.antt =====
-- Concrete runs of sessions.mjs, with a digest that keeps its argument.
use dsh_docker.Prelude.{◌≡◌, refl, [], ◌∷◌, none, some, true, false, arith}
use dsh_docker.Prelude.Text.{Text, text_eq, codes}
use dsh_docker.Prelude.Map.{get, put, AllValues}
use dsh_docker.AccessManager.Account.{Account}
use dsh_docker.AccessManager.Sessions.Store.{dsh, management, Session, Store, prune, session_client}
use dsh_docker.AccessManager.Sessions.Issue.{
  Options, Drawn, Issued, issued, Request, View, issue, issue_source, lacks_source, new_session,
  validate,
}
use dsh_docker.AccessManager.Sessions.Pruning.{IsLive, IsBacked, prune-IsBacked}
use dsh_docker.AccessManager.Sessions.Validation.{Accepted, validate-Accepted}
use dsh_docker.AccessManager.Sessions.RoundTrip.{id_of, validate-issue}
use dsh_docker.AccessManager.Sessions.ManagementIssue.{RestsOn, issue-RestsOn}

abbrev digest : Text → Text
digest t = t

abbrev account : Account
account = record {
  account_id = codes "a";
  revision = 1;
  main_version = 1;
  additional_enabled = false;
  additional_version = 1;
  access_version = 1;
}

abbrev changed : Account
changed = record account { main_version = 2 }

abbrev base : Text
base = codes "http://h"

abbrev key : Text
key = codes "dshs_t"

abbrev csrf : Text
csrf = codes "dshc_c"

-- The session that the first `issue` below makes.
abbrev session : Session
session = record {
  session_id = codes "s";
  kind = dsh;
  account_id = codes "a";
  main_version = 1;
  additional_version = none;
  access_version = 1;
  origin = base;
  source_origin = none;
  source_id = none;
  authentication_source = codes "local";
  client = record { ip = none; user_agent = none };
  csrf_digest = csrf;
  created_at = 100;
  last_seen_at = 100;
  activity_reported_at = 100;
  expires_at = 1100;
  idle_ms = 400;
}

abbrev empty_store : Store
empty_store = record {
  dsh_policy = record { absolute_ms = 1000; idle_ms = 400 };
  management_policy = record { absolute_ms = 5000; idle_ms = 200 };
  activity_report_ms = 50;
  sessions = [];
  events = [];
}

abbrev store : Store
store = record empty_store { sessions = (key, session) ∷ [] }

abbrev options : Options
options = record {
  origin = base;
  source_origin = none;
  source_id = none;
  client = none;
  authentication_source = codes "local";
}

abbrev management_options : Options
management_options = record {
  origin = codes "http://m";
  source_origin = some base;
  source_id = some (codes "s");
  client = none;
  authentication_source = codes "local";
}

abbrev drawn : Drawn
drawn = record { token = codes "t"; csrf = codes "c"; session_id = codes "s" }

abbrev drawn_management : Drawn
drawn_management = record { token = codes "n"; csrf = codes "e"; session_id = codes "m" }

abbrev request : Request
request = record { origin = base; csrf_token = some csrf; require_csrf = true; touch = true }

abbrev answer : Issued
answer = record { token = key; csrf_token = csrf; session_id = codes "s"; expires_at = 1100 }

abbrev view : View
view = record {
  session_id = codes "s";
  kind = dsh;
  account_id = codes "a";
  origin = base;
  source_origin = none;
  source_id = none;
  created_at = 100;
  expires_at = 1100;
}

abbrev management_answer : Issued
management_answer = record {
  token = codes "dshms_n";
  csrf_token = codes "dshc_e";
  session_id = codes "m";
  expires_at = 1100;
}

issues_first : (issue digest empty_store dsh account options drawn 100 100).1 ≡ issued answer
unfolding issue prune put issue_source lacks_source new_session session_client
issues_first = refl

stores_first : (issue digest empty_store dsh account options drawn 100 100).0 ≡ store
unfolding issue prune put issue_source lacks_source new_session session_client
stores_first = refl

issues_management :
    (issue digest store management account management_options drawn_management 200 200).1
    ≡ issued management_answer
unfolding issue prune issue_source lacks_source new_session text_eq session_client
issues_management = refl

accepts : (validate digest store (some key) dsh account request 200 201).1 ≡ some view
unfolding validate prune get
accepts = refl

prune-IsBacked_example :
    AllValues (IsLive 200) (prune store 200).sessions
    × AllValues (IsBacked (prune store 200).sessions) (prune store 200).sessions
prune-IsBacked_example = prune-IsBacked store 200

validate-Accepted_example :
    Accepted digest (prune store 200).sessions key dsh account request 200 view
validate-Accepted_example =
    validate-Accepted digest store key dsh account request 200 201 view accepts

validate-issue_example :
    id_of
      (validate digest
        (issue digest empty_store dsh account options drawn 100 100).0
        (some key)
        dsh
        account
        request
        300
        300).1
    ≡ some (codes "s")
validate-issue_example =
    validate-issue digest empty_store account options drawn request answer 100 100 300 300
      issues_first refl refl (omega arith) (omega arith) (omega arith)

issue-RestsOn_example :
    (s : Session) × (get
        (codes "dshms_n")
        (issue digest store management account management_options drawn_management 200
          200).0.sessions
      ≡ some s)
    × RestsOn (prune store 200).sessions account management_options 200 5000 management_answer s
issue-RestsOn_example =
    issue-RestsOn digest store account management_options drawn_management 200 200 management_answer
      issues_management
