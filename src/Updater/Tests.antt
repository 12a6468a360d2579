-- ===== src/Updater/Tests.antt =====
-- Concrete runs of journal.mjs and channel-state.mjs, where every text is a timestamp.
use dsh_docker.Prelude.{◌≡◌, ◌≤◌, ◌+◌, refl, [], ◌∷◌, none, some, true, Bool, List}
use dsh_docker.Prelude.Text.{Text, text_eq, codes}
use dsh_docker.Prelude.Result.{ok}
use dsh_docker.Platform.Versions.{
  parse_semver, cut, split, is_canonical, all_parts, is_part, no_leading_zeros, is_digits,
  compare_semantic_versions, compare_versions, compare_numeric, compare_text, compare_prerelease,
  compare_identifier,
}
use dsh_docker.Prelude.Orders.{compare_list}
use dsh_docker.Updater.Journal.{
  Journal, Fields, Origin, Goal, planning, candidate_ready, suspended, committed, read, transition,
  parse_journal, may_follow, is_transaction_id, is_terminal,
}
use dsh_docker.Updater.JournalLaws.{Change, follow, rank, follow-rank}
use dsh_docker.Updater.Channel.{
  stable, experimental, version, Scope, Hold, ChannelState, Deployed, Supported, by_stable,
  try_experimental, add_hold, plan_desired_state, mismatch, plan_settled, plan_upstream, held,
  covers, parse_state, all_valid, valid_hold, unique_ids, valid_block, is_text, scope_text, same_id,
}
use dsh_docker.Updater.ChannelLaws.{IsTried, plan_desired_state-IsTried}

abbrev any_time : Text → Bool
any_time t = true

abbrev journal : Journal
journal = record {
  transaction_id = codes "t-1";
  mode = dsh_docker.Updater.Journal.stable;
  phase = planning;
  origin = record {
    dsh = codes "1.0.0";
    environment = codes "e";
    runtime = codes "r";
    data_snapshot = none;
    receipt_tokens = [];
  };
  goal = record { dsh = codes "1.1.0"; environment = codes "e"; runtime = codes "s" };
  snapshot_id = none;
  receipt_tokens = [];
  probation_until = none;
  error = none;
  updated_at = codes "now";
}

abbrev no_fields : Fields
no_fields = record {
  transaction_id = none;
  mode = none;
  origin = none;
  goal = none;
  snapshot_id = none;
  receipt_tokens = none;
  probation_until = none;
  error = none;
}

-- The second of the three is refused.
abbrev changes : List Change
changes =
    record { phase = candidate_ready; fields = no_fields; now = codes "a" }
    ∷ record { phase = committed; fields = no_fields; now = codes "b" }
    ∷ record { phase = suspended; fields = no_fields; now = codes "c" }
    ∷ []

accepts_two : (follow any_time journal changes).1 ≡ 2
unfolding follow transition read parse_journal may_follow is_transaction_id text_eq
accepts_two = refl

follow-rank_example :
    let (last, n) = follow any_time journal changes in
    (n + rank last.phase ≤ 8) × (last.transaction_id ≡ codes "t-1") × (last.mode ≡ journal.mode)
follow-rank_example = follow-rank any_time journal changes

abbrev hold_id : Scope → Text → Text
hold_id scope dsh = codes "h"

abbrev trying : ChannelState
trying = record { update_channel = experimental; holds = []; experimental_blocked = none }

abbrev hold : Hold
hold = record {
  id = codes "h";
  scope = version;
  dsh_version = codes "1.1.0";
  reason = codes "bad";
  created_at = codes "now";
}

abbrev holding : ChannelState
holding = record trying { holds = hold ∷ [] }

abbrev deployed : Deployed
deployed = record {
  dsh = codes "1.0.0";
  environment = codes "e";
  authority = by_stable;
  target_sequence = 4;
}

abbrev supported : Supported
supported = record { dsh = codes "1.0.0"; environment = codes "e" }

tries :
    plan_desired_state trying deployed supported (some 4) (some (codes "1.1.0"))
    ≡ ok try_experimental
unfolding plan_desired_state mismatch plan_settled plan_upstream held text_eq
    compare_semantic_versions parse_semver cut split is_canonical all_parts is_part no_leading_zeros
    is_digits compare_versions compare_numeric compare_text compare_prerelease compare_identifier
    compare_list
tries = refl

plan_desired_state-IsTried_example :
    IsTried trying deployed supported (some 4) (some (codes "1.1.0"))
plan_desired_state-IsTried_example =
    plan_desired_state-IsTried trying deployed supported (some 4) (some (codes "1.1.0")) tries

holds_version :
    add_hold any_time hold_id (some trying) version (codes "1.1.0") (codes "bad") (codes "now")
    ≡ ok holding
unfolding add_hold dsh_docker.Updater.Channel.read parse_state all_valid valid_hold unique_ids
    valid_block is_text scope_text same_id
holds_version = refl
