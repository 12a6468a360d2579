-- ===== src/AccessManager/Transitions/Store.antt =====
-- container/control-plane/services/access-manager/lib/transitions.mjs: the class
-- `ManagementTransitionStore`. SHA-256 is the parameter `digest`; what is drawn and each reading of
-- the clock is an argument.
use dsh_docker.Prelude.{ℕ, ◌+◌, [], ◌++◌, Option, none, some, Bool, true, false, ◌&&◌, ◌||◌, not}
use dsh_docker.Prelude.Tests.{leb, ltb, ◌==◌, if◌then◌else◌}
use dsh_docker.Prelude.Lists.{length}
use dsh_docker.Prelude.Text.{Text, text_eq, codes}
use dsh_docker.Prelude.Map.{Map, get, put, delete, retain}
use dsh_docker.AccessManager.Account.{Account}

pub record Transition : Type 0 where
  pub account_id : Text
  pub revision : ℕ
  pub access_version : ℕ
  pub instance_id : Text
  pub session_id : Text
  pub source_origin : Text
  pub source_dsh_origin : Option Text
  pub source_dsh_id : Option Text
  pub mode : Text
  pub isolated_entry : Option Text
  pub candidate_origin : Option Text
  pub nonce_digest : Option Text
  pub proof_digest : Option Text
  pub expires_at : ℕ

pub record Continuation : Type 0 where
  pub account_id : Text
  pub revision : ℕ
  pub access_version : ℕ
  pub target_origin : Text
  pub source_dsh_origin : Option Text
  pub source_dsh_id : Option Text
  pub expires_at : ℕ

pub record Store : Type 0 where
  pub ttl_ms : ℕ
  pub transitions : Map Transition
  pub continuations : Map Continuation

-- What `create` is told of the transition.
pub record Request : Type 0 where
  pub instance_id : Text
  pub session_id : Text
  pub source_origin : Text
  pub source_dsh_origin : Option Text
  pub source_dsh_id : Option Text
  pub mode : Text
  pub isolated_entry : Option Text
  pub candidate_origin : Option Text

pub record Created : Type 0 where
  pub transition_id : Text
  pub nonce : Option Text
  pub candidate_origin : Option Text
  pub expires_at : ℕ

pub record Probe : Type 0 where
  pub transition_id : Text
  pub nonce : Option Text
  pub candidate_origin : Option Text
  pub source_origin : Text
  pub instance_id : Text

pub record Inspection : Type 0 where
  pub transition_id : Text
  pub proof : Option Text
  pub account : Account
  pub session_id : Text

unfoldable pub prune : Store → ℕ → Store
prune s now = record s {
  transitions = retain (λ _ t. not (leb t.expires_at now)) s.transitions;
  continuations = retain (λ _ c. not (leb c.expires_at now)) s.continuations;
}

unfoldable pub same_text : Option Text → Option Text → Bool
unfolding text_eq
same_text none none = true
same_text (some a) (some b) = text_eq a b
same_text none (some b) = false
same_text (some a) none = false

abbrev pub nonce_for : Option Text → Text → Option Text
nonce_for none drawn = none
nonce_for (some _) drawn = some (codes "dshmn_" ++ drawn)

abbrev pub proof_of : Text → Text
proof_of drawn = codes "dshmpf_" ++ drawn

abbrev pub is_none {ℓ} : {A : Type ℓ} → Option A → Bool
is_none none = true
is_none (some _) = false

module _ (digest : Text → Text) where
  abbrev digest_of : Option Text → Option Text
  digest_of none = none
  digest_of (some value) = some (digest value)

  -- `sameDigest`
  unfoldable pub same_digest : Option Text → Option Text → Bool
  unfolding text_eq
  same_digest none expected = false
  same_digest (some value) none = false
  same_digest (some value) (some expected) = text_eq (digest value) expected

  unfoldable pub create : Store → Account → Request → Text → Text → ℕ → ℕ → Store × Created
  create s a r drawn_id drawn_nonce now made =
      let pruned = prune s now in
      let id = codes "dshmt_" ++ drawn_id in
      let nonce = nonce_for r.candidate_origin drawn_nonce in
      (
        record pruned {
          transitions =
              put id
                (record {
                  account_id = a.account_id;
                  revision = a.revision;
                  access_version = a.access_version;
                  instance_id = r.instance_id;
                  session_id = r.session_id;
                  source_origin = r.source_origin;
                  source_dsh_origin = r.source_dsh_origin;
                  source_dsh_id = r.source_dsh_id;
                  mode = r.mode;
                  isolated_entry = r.isolated_entry;
                  candidate_origin = r.candidate_origin;
                  nonce_digest = digest_of nonce;
                  proof_digest = none;
                  expires_at = made + s.ttl_ms;
                })
                pruned.transitions;
        },
        record {
          transition_id = id;
          nonce = nonce;
          candidate_origin = r.candidate_origin;
          expires_at = made + s.ttl_ms;
        },
      )

  unfoldable pub probe_matches : Transition → Probe → Bool
  unfolding text_eq same_text same_digest
  probe_matches t p =
      same_text t.candidate_origin p.candidate_origin
      && (text_eq t.source_origin p.source_origin
          && (text_eq t.instance_id p.instance_id && same_digest p.nonce t.nonce_digest))

  -- The proof, and the date at which the transition ends.
  unfoldable pub probe : Store → Probe → Text → ℕ → Store × Option (Text × ℕ)
  probe s p drawn now =
      let pruned = prune s now in
      let proof = proof_of drawn in
      elim (get p.transition_id pruned.transitions) [
        | none ↦ (pruned, none)
        | some t ↦
            if probe_matches t p
            then (
              record pruned {
                transitions =
                    put p.transition_id
                      (record t { nonce_digest = none; proof_digest = some (digest proof) })
                      pruned.transitions;
              },
              some (proof, t.expires_at),
            )
            else (pruned, none)
      ]

  unfoldable pub inspect_matches : Transition → Inspection → Bool
  unfolding text_eq same_digest
  inspect_matches t i =
      text_eq t.account_id i.account.account_id
      && (t.revision == i.account.revision
          && (t.access_version == i.account.access_version
              && (text_eq t.session_id i.session_id
                  && (is_none t.candidate_origin || same_digest i.proof t.proof_digest))))

  unfoldable pub inspect : Store → Inspection → ℕ → Store × Option Transition
  inspect s i now =
      let pruned = prune s now in
      elim (get i.transition_id pruned.transitions) [
        | none ↦ (pruned, none)
        | some t ↦ if inspect_matches t i then (pruned, some t) else (pruned, none)
      ]

  unfoldable pub consume : Store → Inspection → ℕ → Store × Option Transition
  consume s i now =
      let (s', r) = inspect s i now in
      elim r [
        | none ↦ (s', none)
        | some t ↦ (record s' { transitions = delete i.transition_id s'.transitions }, some t)
      ]

  -- Without a target nothing is created, and nothing is pruned.
  unfoldable pub create_continuation :
      Store
      → Account
      → Option Text
      → Option Text
      → Option Text
      → Text
      → ℕ
      → ℕ
      → Store × Option (Text × ℕ)
  create_continuation s a none dsh_origin dsh_id drawn now made = (s, none)
  create_continuation s a (some target) dsh_origin dsh_id drawn now made =
      let pruned = prune s now in
      let value = codes "dshmc_" ++ drawn in
      (
        record pruned {
          continuations =
              put (digest value)
                (record {
                  account_id = a.account_id;
                  revision = a.revision;
                  access_version = a.access_version;
                  target_origin = target;
                  source_dsh_origin = dsh_origin;
                  source_dsh_id = dsh_id;
                  expires_at = made + s.ttl_ms;
                })
                pruned.continuations;
        },
        some (value, made + s.ttl_ms),
      )

  unfoldable pub continuation_matches : Continuation → Account → Text → Bool
  unfolding text_eq
  continuation_matches c a target =
      text_eq c.account_id a.account_id
      && (c.revision == a.revision
          && (c.access_version == a.access_version && text_eq c.target_origin target))

  -- The continuation is deleted before it is checked.
  unfoldable pub consume_continuation :
      Store → Option Text → Account → Text → ℕ → Store × Option Continuation
  consume_continuation s none a target now = (prune s now, none)
  consume_continuation s (some value) a target now =
      let pruned = prune s now in
      let rest = record pruned { continuations = delete (digest value) pruned.continuations } in
      if ltb 512 (length value)
      then (pruned, none)
      else elim (get (digest value) pruned.continuations) [
        | none ↦ (rest, none)
        | some c ↦ if continuation_matches c a target then (rest, some c) else (rest, none)
      ]

unfoldable pub clear : Store → Store
clear s = record s { transitions = []; continuations = [] }
