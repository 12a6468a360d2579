-- ===== src/Updater/Channel.antt =====
-- container/control-plane/modules/updater/lib/channel-state.mjs: the channel, the holds and the block
-- of the updater, and what it plans. The documents are taken with their fields in place and of their
-- types. The first 24 digits of the SHA-256 of a hold's identity are the parameter `hold_id`, the
-- syntax of an ISO timestamp is `is_timestamp`.
use Prim.Native.Nat.{Ordering}
use dsh_docker.Prelude.{
  ℕ, List, [], ◌∷◌, ◌++◌, Option, none, some, Bool, true, false, ◌&&◌, ◌||◌, not,
}
use dsh_docker.Prelude.Tests.{leb, ◌==◌, if◌then◌else◌}
use dsh_docker.Prelude.Lists.{length, filter, any}
use dsh_docker.Prelude.Text.{Text, text_eq, codes}
use dsh_docker.Prelude.Result.{Result, ok, ◌>>=◌, ◌>>◌, guard}
use dsh_docker.Platform.Contracts.{TrustError, invalid, missing, all_chars}
use dsh_docker.Platform.Versions.{compare_semantic_versions}

pub data UpdateChannel : Type 0 where
  stable : UpdateChannel
  experimental : UpdateChannel

-- A combination names its Environment, a version none.
pub data Scope : Type 0 where
  version : Scope
  combination : Text → Scope

pub record Hold : Type 0 where
  pub id : Text
  pub scope : Scope
  pub dsh_version : Text
  pub reason : Text
  pub created_at : Text

pub record ChannelState : Type 0 where
  pub update_channel : UpdateChannel
  pub holds : List Hold
  pub experimental_blocked : Option Hold

-- `DEFAULT_STATE`
abbrev pub default_state : ChannelState
default_state = record { update_channel = stable; holds = []; experimental_blocked = none }

-- `text`
unfoldable pub is_text : Text → Bool
is_text [] = false
is_text (c ∷ cs) = leb (length (c ∷ cs)) 512 && all_chars (λ d. not (d == 0)) (c ∷ cs)

unfoldable pub scope_text : Scope → Bool
unfolding is_text
scope_text version = true
scope_text (combination e) = is_text e

unfoldable pub same_id : Text → Hold → Bool
unfolding text_eq
same_id id h = text_eq h.id id

-- `new Set(...).size === holds.length`
unfoldable pub unique_ids : List Hold → Bool
unfolding same_id
unique_ids [] = true
unique_ids (h ∷ hs) = not (any (same_id h.id) hs) && unique_ids hs

abbrev is_combination : Scope → Bool
is_combination version = false
is_combination (combination _) = true

module _ (is_timestamp : Text → Bool) where
  unfoldable pub valid_hold : Hold → Bool
  unfolding is_text scope_text
  valid_hold h =
      is_timestamp h.created_at
      && (is_text h.id && (is_text h.dsh_version && (scope_text h.scope && is_text h.reason)))

  unfoldable pub all_valid : List Hold → Bool
  unfolding valid_hold
  all_valid [] = true
  all_valid (h ∷ hs) = valid_hold h && all_valid hs

  unfoldable pub valid_block : Option Hold → Bool
  unfolding valid_hold
  valid_block none = true
  valid_block (some h) = valid_hold h && is_combination h.scope

  unfoldable pub parse_state : ChannelState → Result TrustError ChannelState
  unfolding all_valid unique_ids valid_block
  parse_state s = do
    guard (all_valid s.holds) (invalid (codes "update hold"))
    guard (unique_ids s.holds) (invalid (codes "update hold IDs must be unique"))
    guard (valid_block s.experimental_blocked) (invalid (codes "Experimental block"))
    ok s

  unfoldable pub read : Option ChannelState → Result TrustError ChannelState
  unfolding parse_state
  read none = ok default_state
  read (some s) = parse_state s

  -- What is written; where a call fails the file is left.
  unfoldable pub set_channel : Option ChannelState → UpdateChannel → Result TrustError ChannelState
  unfolding read parse_state
  set_channel file channel = do
    current ← read file
    parse_state (record current { update_channel = channel })

  unfoldable pub block :
      Option ChannelState → Text → Text → Text → Text → Text → Result TrustError ChannelState
  unfolding read parse_state valid_hold
  block file drawn dsh environment reason now = do
    current ← read file
    let hold : Hold = record {
      id = codes "blocked-" ++ drawn;
      scope = combination environment;
      dsh_version = dsh;
      reason = reason;
      created_at = now;
    }
    guard (valid_hold hold) (invalid (codes "update hold"))
    parse_state (record current { experimental_blocked = some hold })

  unfoldable blocks : Option Hold → Text → Bool
  unfolding same_id
  blocks none id = false
  blocks (some h) id = same_id id h

  unfoldable pub retry : Option ChannelState → Text → Result TrustError ChannelState
  unfolding read parse_state same_id blocks
  retry file id = do
    current ← read file
    let holds = filter (λ h. not (same_id id h)) current.holds
    guard (not (length holds == length current.holds) || blocks current.experimental_blocked id)
        (missing (codes "update hold"))
    parse_state (record current {
      holds = holds;
      experimental_blocked =
          if blocks current.experimental_blocked id then none else current.experimental_blocked;
    })

  unfoldable pub add_hold :
      (Scope → Text → Text)
      → Option ChannelState
      → Scope
      → Text
      → Text
      → Text
      → Result TrustError ChannelState
  unfolding read parse_state same_id valid_hold
  add_hold hold_id file scope dsh reason now = do
    current ← read file
    let id = hold_id scope dsh
    let hold : Hold = record {
      id = id;
      scope = scope;
      dsh_version = dsh;
      reason = reason;
      created_at = now;
    }
    guard (valid_hold hold) (invalid (codes "update hold"))
    parse_state
        (record current { holds = filter (λ h. not (same_id id h)) current.holds ++ (hold ∷ []) })

unfoldable pub covers : Scope → Text → Bool
unfolding text_eq
covers version environment = true
covers (combination e) environment = text_eq e environment

-- `held`
unfoldable pub held : List Hold → Text → Text → Option Hold
unfolding covers text_eq
held [] dsh environment = none
held (h ∷ hs) dsh environment =
    let rest = held hs dsh environment in
    if text_eq h.dsh_version dsh && covers h.scope environment then some h else rest

pub data Authority : Type 0 where
  by_stable : Authority
  by_experimental : Authority
  by_development : Authority

pub record Deployed : Type 0 where
  pub dsh : Text
  pub environment : Text
  pub authority : Authority
  pub target_sequence : ℕ

pub record Supported : Type 0 where
  pub dsh : Text
  pub environment : Text

pub data Action : Type 0 where
  frozen : Action
  converge : Action
  nothing : Action
  on_hold : Hold → Action
  blocked : Hold → Action
  try_experimental : Action

abbrev authority_fits : UpdateChannel → Authority → Bool
authority_fits stable by_stable = true
authority_fits stable _ = false
authority_fits experimental by_development = false
authority_fits experimental _ = true

-- `stableIdentityMismatch`, where the sequence is a safe integer or none.
unfoldable pub mismatch : UpdateChannel → Deployed → Option ℕ → Bool
mismatch channel d none = false
mismatch channel d (some sequence) =
    not (d.target_sequence == sequence) || not (authority_fits channel d.authority)

unfoldable pub block_matches : Hold → Text → Text → Bool
unfolding text_eq covers
block_matches h dsh environment =
    text_eq h.dsh_version dsh && (is_combination h.scope && covers h.scope environment)

-- What is planned for an upstream version on the experimental channel.
unfoldable pub plan_upstream : ChannelState → Text → Text → Action
unfolding held block_matches
plan_upstream local dsh environment = elim (held local.holds dsh environment) [
  | some h ↦ on_hold h
  | none ↦ elim local.experimental_blocked [
    | none ↦ try_experimental
    | some h ↦ if block_matches h dsh environment then blocked h else try_experimental
  ]
]

abbrev on_stable : UpdateChannel → Bool
on_stable stable = true
on_stable experimental = false

unfoldable pub plan_settled : ChannelState → Supported → Option Text → Action
unfolding plan_upstream
plan_settled local s none = nothing
plan_settled local s (some dsh) =
    if on_stable local.update_channel then nothing else plan_upstream local dsh s.environment

unfoldable pub plan_desired_state :
    ChannelState → Deployed → Supported → Option ℕ → Option Text → Result TrustError Action
unfolding compare_semantic_versions mismatch plan_settled text_eq
plan_desired_state local d s sequence upstream = compare_semantic_versions d.dsh s.dsh >>= λ o.
    elim o [
      | Ordering.gt ↦ ok frozen
      | Ordering.lt ↦ ok converge
      | Ordering.eq ↦ ok (
          if not (text_eq d.environment s.environment) || mismatch local.update_channel d sequence
          then converge
          else plan_settled local s upstream)
    ]
