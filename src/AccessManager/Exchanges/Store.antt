-- ===== src/AccessManager/Exchanges/Store.antt =====
-- container/control-plane/services/access-manager/lib/exchanges.mjs: the class
-- `ManagementExchangeStore`. SHA-256 is the parameter `digest`; a drawn token and each reading of
-- the clock is an argument, the first of them that of the pruning.
use dsh_docker.Prelude.{ℕ, ◌+◌, [], ◌++◌, Option, none, some, Bool, ◌&&◌, not}
use dsh_docker.Prelude.Tests.{leb, ltb, ◌==◌, if◌then◌else◌}
use dsh_docker.Prelude.Lists.{length}
use dsh_docker.Prelude.Text.{Text, text_eq, codes}
use dsh_docker.Prelude.Map.{Map, get, has, put, delete, retain}
use dsh_docker.AccessManager.Account.{Account}

pub record Handoff : Type 0 where
  pub account_id : Text
  pub dsh_session_id : Text
  pub main_version : ℕ
  pub access_version : ℕ
  pub source_origin : Text
  pub target_origin : Text
  pub expires_at : ℕ

pub record Pending : Type 0 where
  pub account_id : Text
  pub main_version : ℕ
  pub additional_version : ℕ
  pub access_version : ℕ
  pub target_origin : Text
  pub source_origin : Option Text
  pub source_id : Option Text
  pub attempts : ℕ
  pub expires_at : ℕ

pub record Store : Type 0 where
  pub handoff_ttl_ms : ℕ
  pub pending_ttl_ms : ℕ
  pub pending_attempts : ℕ
  pub handoffs : Map Handoff
  pub pending : Map Pending

-- The token and the date that are handed out.
pub record Ticket : Type 0 where
  pub token : Text
  pub expires_at : ℕ

unfoldable pub prune : Store → ℕ → Store
prune s now = record s {
  handoffs = retain (λ _ h. not (leb h.expires_at now)) s.handoffs;
  pending = retain (λ _ p. not (leb p.expires_at now)) s.pending;
}

abbrev pub handoff_token : Text → Text
handoff_token drawn = codes "dshh_" ++ drawn

abbrev pub pending_token : Text → Text
pending_token drawn = codes "dshmp_" ++ drawn

-- Of the session the identifier and the origin are read.
pub record Source : Type 0 where
  pub session_id : Text
  pub origin : Text

unfoldable pub handoff_matches : Handoff → Account → Text → Bool
unfolding text_eq
handoff_matches h a target =
    text_eq h.account_id a.account_id
    && (h.main_version == a.main_version
        && (h.access_version == a.access_version && text_eq h.target_origin target))

unfoldable pub pending_matches : Pending → Account → Text → Bool
unfolding text_eq
pending_matches p a target =
    text_eq p.account_id a.account_id
    && (p.main_version == a.main_version
        && (p.access_version == a.access_version && text_eq p.target_origin target))

module _ (digest : Text → Text) where
  unfoldable pub create_handoff :
      Store → Source → Account → Text → Text → ℕ → ℕ → ℕ → Store × Ticket
  create_handoff s source a target drawn now made told =
      let pruned = prune s now in
      (
        record pruned {
          handoffs =
              put (digest (handoff_token drawn))
                (record {
                  account_id = a.account_id;
                  dsh_session_id = source.session_id;
                  main_version = a.main_version;
                  access_version = a.access_version;
                  source_origin = source.origin;
                  target_origin = target;
                  expires_at = made + s.handoff_ttl_ms;
                })
                pruned.handoffs;
        },
        record { token = handoff_token drawn; expires_at = told + s.handoff_ttl_ms },
      )

  -- The handoff is deleted before it is checked.
  unfoldable pub consume_handoff : Store → Option Text → Account → Text → ℕ → Store × Option Handoff
  consume_handoff s none a target now = (prune s now, none)
  consume_handoff s (some value) a target now =
      let pruned = prune s now in
      let rest = record pruned { handoffs = delete (digest value) pruned.handoffs } in
      if ltb 512 (length value) then (pruned, none) else elim (get (digest value) pruned.handoffs) [
        | none ↦ (rest, none)
        | some h ↦ if handoff_matches h a target then (rest, some h) else (rest, none)
      ]

  unfoldable pub create_pending :
      Store → Account → Text → Option Text → Option Text → Text → ℕ → ℕ → ℕ → Store × Ticket
  create_pending s a target source_origin source_id drawn now made told =
      let pruned = prune s now in
      (
        record pruned {
          pending =
              put (digest (pending_token drawn))
                (record {
                  account_id = a.account_id;
                  main_version = a.main_version;
                  additional_version = a.additional_version;
                  access_version = a.access_version;
                  target_origin = target;
                  source_origin = source_origin;
                  source_id = source_id;
                  attempts = 0;
                  expires_at = made + s.pending_ttl_ms;
                })
                pruned.pending;
        },
        record { token = pending_token drawn; expires_at = told + s.pending_ttl_ms },
      )

  -- The look-up that `peekPendingSource` and `inspectPending` share.
  unfoldable pub find_pending : Store → Option Text → Account → Text → Option Pending
  find_pending s none a target = none
  find_pending s (some value) a target =
      if ltb 512 (length value) then none else elim (get (digest value) s.pending) [
        | none ↦ none
        | some p ↦ if pending_matches p a target then some p else none
      ]

  -- The outer `none` is `undefined`.
  unfoldable pub peek_pending_source :
      Store → Option Text → Account → Text → ℕ → Store × Option (Option Text)
  peek_pending_source s value a target now =
      let pruned = prune s now in
      (
        pruned,
        elim (find_pending pruned value a target) [ none ↦ none | some p ↦ some p.source_id ],
      )

  abbrev key_of : Option Text → Text
  key_of none = digest []
  key_of (some value) = digest value

  unfoldable pub inspect_pending :
      Store → Option Text → Account → Text → ℕ → Store × Option (Text × Pending)
  inspect_pending s value a target now =
      let pruned = prune s now in
      let key = key_of value in
      elim (find_pending pruned value a target) [
        | none ↦ (pruned, none)
        | some p ↦
            let tried = record p { attempts = p.attempts + 1 } in
            if ltb s.pending_attempts tried.attempts
            then (record pruned { pending = delete key pruned.pending }, none)
            else (record pruned { pending = put key tried pruned.pending }, some (key, tried))
      ]

unfoldable pub consume_pending : Store → Text → Store × Bool
unfolding has
consume_pending s key = (record s { pending = delete key s.pending }, has key s.pending)
