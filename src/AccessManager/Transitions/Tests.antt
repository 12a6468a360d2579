-- ===== src/AccessManager/Transitions/Tests.antt =====
-- Concrete runs of transitions.mjs, with a digest that keeps its argument.
use dsh_docker.Prelude.{◌≡◌, refl, [], ◌∷◌, none, some, false}
use dsh_docker.Prelude.Text.{Text, text_eq, codes}
use dsh_docker.Prelude.Map.{get, put, retain}
use dsh_docker.AccessManager.Account.{Account}
use dsh_docker.AccessManager.Transitions.Store.{
  Transition, Store, Request, Probe, Inspection, create, probe, inspect, consume, prune,
  probe_matches, inspect_matches,
}

abbrev digest : Text → Text
digest t = t

abbrev account : Account
account = record {
  account_id = codes "a";
  revision = 1;
  main_version = 1;
  additional_enabled = false;
  additional_version = 1;
  access_version = 1;
}

abbrev empty_store : Store
empty_store = record { ttl_ms = 300; transitions = []; continuations = [] }

abbrev request : Request
request = record {
  instance_id = codes "i";
  session_id = codes "s";
  source_origin = codes "http://m";
  source_dsh_origin = none;
  source_dsh_id = none;
  mode = codes "path";
  isolated_entry = none;
  candidate_origin = some (codes "http://c");
}

abbrev transition : Transition
transition = record {
  account_id = codes "a";
  revision = 1;
  access_version = 1;
  instance_id = codes "i";
  session_id = codes "s";
  source_origin = codes "http://m";
  source_dsh_origin = none;
  source_dsh_id = none;
  mode = codes "path";
  isolated_entry = none;
  candidate_origin = some (codes "http://c");
  nonce_digest = some (codes "dshmn_n");
  proof_digest = none;
  expires_at = 400;
}

abbrev id : Text
id = codes "dshmt_d"

abbrev store : Store
store = record empty_store { transitions = (id, transition) ∷ [] }

abbrev proof : Text
proof = codes "dshmpf_p"

abbrev probed : Store
probed = record empty_store {
  transitions = (id, record transition { nonce_digest = none; proof_digest = some proof }) ∷ [];
}

abbrev asked : Probe
asked = record {
  transition_id = id;
  nonce = some (codes "dshmn_n");
  candidate_origin = some (codes "http://c");
  source_origin = codes "http://m";
  instance_id = codes "i";
}

abbrev inspection : Inspection
inspection = record {
  transition_id = id;
  proof = some proof;
  account = account;
  session_id = codes "s";
}

abbrev handed : Transition
handed = record transition { nonce_digest = none; proof_digest = some proof }

creates : (create digest empty_store account request (codes "d") (codes "n") 100 100).0 ≡ store
unfolding create put prune retain
creates = refl

probes : probe digest store asked (codes "p") 200 ≡ (probed, some (proof, 400))
unfolding probe put get text_eq prune retain probe_matches
probes = refl

consumes : (consume digest probed inspection 250).1 ≡ some handed
unfolding consume get text_eq inspect prune retain inspect_matches
consumes = refl

inspects : (inspect digest probed inspection 250).1 ≡ some handed
unfolding inspect get text_eq prune retain inspect_matches
inspects = refl
