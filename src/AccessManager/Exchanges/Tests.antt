-- ===== src/AccessManager/Exchanges/Tests.antt =====
-- Concrete runs of exchanges.mjs, with a digest that keeps its argument.
use dsh_docker.Prelude.{◌≡◌, ◌≤◌, refl, [], ◌∷◌, none, some, false, arith}
use dsh_docker.Prelude.Text.{Text, text_eq, codes}
use dsh_docker.Prelude.Map.{get, put, retain}
use dsh_docker.AccessManager.Account.{Account}
use dsh_docker.AccessManager.Exchanges.Store.{
  Pending, Store, Source, create_handoff, consume_handoff, create_pending, inspect_pending, prune,
  find_pending, pending_matches,
}
use dsh_docker.AccessManager.Exchanges.Laws.{
  Inspection, successes, consume-create_handoff, successes-le,
}

abbrev digest : Text → Text
digest t = t

abbrev account : Account
account = record {
  account_id = codes "a";
  revision = 1;
  main_version = 1;
  additional_enabled = false;
  additional_version = 1;
  access_version = 1;
}

abbrev empty_store : Store
empty_store = record {
  handoff_ttl_ms = 60;
  pending_ttl_ms = 300;
  pending_attempts = 2;
  handoffs = [];
  pending = [];
}

abbrev source : Source
source = record { session_id = codes "s"; origin = codes "http://h" }

abbrev target : Text
target = codes "http://m"

abbrev key : Text
key = codes "dshmp_t"

abbrev pending : Pending
pending = record {
  account_id = codes "a";
  main_version = 1;
  additional_version = 1;
  access_version = 1;
  target_origin = target;
  source_origin = none;
  source_id = none;
  attempts = 0;
  expires_at = 400;
}

abbrev store : Store
store = record empty_store { pending = (key, pending) ∷ [] }

abbrev inspection : Inspection
inspection = record { account = account; target = target; at = 200 }

consume-create_handoff_example :
    (consume_handoff digest
      (create_handoff digest empty_store source account target (codes "t") 100 100 101).0
      (some (codes "dshh_t"))
      account
      target
      120).1
    ≡ some (record {
      account_id = codes "a";
      dsh_session_id = codes "s";
      main_version = 1;
      access_version = 1;
      source_origin = codes "http://h";
      target_origin = target;
      expires_at = 160;
    })
unfolding create_handoff
consume-create_handoff_example =
    consume-create_handoff digest empty_store source account target (codes "t") 100 100 101 120
      (omega arith) (omega arith)

creates_pending :
    (create_pending digest empty_store account target none none (codes "t") 100 100 100).0 ≡ store
unfolding create_pending put prune retain
creates_pending = refl

-- Of three inspections the third fails.
counts_two : successes digest store key (inspection ∷ inspection ∷ inspection ∷ []) ≡ 2
unfolding successes get text_eq inspect_pending put prune retain find_pending pending_matches
counts_two = refl

successes-le_example : successes digest store key (inspection ∷ inspection ∷ inspection ∷ []) ≤ 2
unfolding get text_eq
successes-le_example =
    successes-le digest store key (inspection ∷ inspection ∷ inspection ∷ []) (refl, tt)
