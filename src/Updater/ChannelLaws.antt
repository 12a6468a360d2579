-- ===== src/Updater/ChannelLaws.antt =====
-- When channel-state.mjs plans to try an upstream version.
use Prim.Native.Nat.{Ordering}
use dsh_docker.Prelude.{
  ℕ, ◌≡◌, ◌≢◌, refl, sym, ap, ◌∙◌, ◌⊎◌, inl, inr, List, [], ◌∷◌, ◌++◌, Option, none, some, Bool,
  true, false, ◌||◌, not, arith,
}
use dsh_docker.Prelude.Tests.{Bool-cases, Option-cases}
use dsh_docker.Prelude.Lists.{filter}
use dsh_docker.Prelude.Text.{Text, text_eq, text_eq_refl, text_eq_sound}
use dsh_docker.Prelude.Result.{Result, ok, Result-cases}
use dsh_docker.Prelude.Orders.{Ordering-cases}
use dsh_docker.Platform.Contracts.{TrustError}
use dsh_docker.Platform.Versions.{compare_semantic_versions}
use dsh_docker.Updater.Channel.{
  UpdateChannel, stable, experimental, Scope, Hold, ChannelState, same_id, parse_state, read,
  add_hold, valid_hold, covers, held, Deployed, Supported, Action, try_experimental, mismatch,
  plan_upstream, plan_settled, plan_desired_state,
}

-- What must be so for an upstream version to be tried.
pub record IsTried (local : ChannelState) (d : Deployed) (s : Supported) (sequence : Option ℕ)
    (upstream : Option Text) : Type 0 where
  pub same_version : compare_semantic_versions d.dsh s.dsh ≡ ok Ordering.eq
  pub same_environment : d.environment ≡ s.environment
  pub identity : mismatch local.update_channel d sequence ≡ false
  pub channel : local.update_channel ≡ experimental
  pub dsh : Text
  pub offered : upstream ≡ some dsh
  pub free : held local.holds dsh s.environment ≡ none

plan_settled-tried :
    (local : ChannelState) (s : Supported) (upstream : Option Text)
    → plan_settled local s upstream ≡ try_experimental
    → (local.update_channel ≡ experimental)
      × ((dsh : Text) × (upstream ≡ some dsh) × (held local.holds dsh s.environment ≡ none))
unfolding plan_settled plan_upstream
plan_settled-tried local s none h = cc
plan_settled-tried local s (some dsh) h = elim (channel-cases local.update_channel) [
  | inl e ↦ ground arith
  | inr e ↦ elim (Option-cases (held local.holds dsh s.environment)) [
    | inl free ↦ (e, (dsh, refl, free))
    | inr (x, there) ↦ ground arith
  ]
]
  where
    channel-cases : (c : UpdateChannel) → (c ≡ stable) ⊎ (c ≡ experimental)
    channel-cases stable = inl refl
    channel-cases experimental = inr refl

ok-tried : (a b : Action) → ◌≡◌ {A = Result TrustError Action} (ok a) (ok b) → a ≡ b
ok-tried a b h = ground arith

-- An upstream version is tried only if the current DSH version compares equal to the supported
-- one, in the supported Environment and with no mismatch of the stable identity, on the
-- experimental channel, and if no hold covers it.
pub plan_desired_state-IsTried :
    (local : ChannelState) (d : Deployed) (s : Supported) (sequence : Option ℕ)
    (upstream : Option Text)
    → plan_desired_state local d s sequence upstream ≡ ok try_experimental
    → IsTried local d s sequence upstream
unfolding plan_desired_state
plan_desired_state-IsTried local d s sequence upstream h =
    elim (Result-cases (compare_semantic_versions d.dsh s.dsh)) [
      | inl (e, bad) ↦ cc (rw (bad, plan_desired_state) at h)
      | inr (o, compared) ↦ elim (Ordering-cases o) [
        | inl before ↦ cc (rw (compared, before, plan_desired_state) at h)
        | inr (inr behind) ↦ cc (rw (compared, behind, plan_desired_state) at h)
        | inr (inl same) ↦
            elim (Bool-cases (
              not (text_eq d.environment s.environment)
              || mismatch local.update_channel d sequence)) [
                | inl other ↦ cc (rw (compared, same, other, plan_desired_state) at h)
                | inr fits ↦
                    let a =
                      ok-tried (plan_settled local s upstream) try_experimental
                        (rw (compared, same, fits, plan_desired_state) at h) in
                    let (channel, (dsh, offered, free)) = plan_settled-tried local s upstream a in
                    record {
                      same_version = compared ∙ ap ok same;
                      same_environment = text_eq_sound d.environment s.environment (ground arith);
                      identity = ground arith;
                      channel = channel;
                      dsh = dsh;
                      offered = offered;
                      free = free;
                    }
              ]
      ]
    ]

some-equal : (a b : Text) → some a ≡ some b → a ≡ b
some-equal a b h = ground arith

held-last :
    (hs : List Hold) (h : Hold) (environment : Text)
    → covers h.scope environment ≡ true
    → held (hs ++ (h ∷ [])) h.dsh_version environment ≢ none
unfolding held
held-last [] h environment c e = ground (arith, text_eq_refl h.dsh_version)
held-last (k ∷ hs) h environment c e = ground (arith, held-last hs h environment c)

parse_state-ok :
    (is_timestamp : Text → Bool) (s t : ChannelState) → parse_state is_timestamp s ≡ ok t → s ≡ t
unfolding parse_state
parse_state-ok is_timestamp s t h = ground arith

module _ (is_timestamp : Text → Bool) (hold_id : Scope → Text → Text) where
  add_hold-holds :
      (file : Option ChannelState) (scope : Scope) (dsh reason now : Text) (s : ChannelState)
      → add_hold is_timestamp hold_id file scope dsh reason now ≡ ok s
      → (hs : List Hold) × (s.holds
          ≡ hs
            ++ ((record {
              id = hold_id scope dsh;
              scope = scope;
              dsh_version = dsh;
              reason = reason;
              created_at = now;
            })
                ∷ []))
  unfolding add_hold
  add_hold-holds file scope dsh reason now s h = elim (Result-cases (read is_timestamp file)) [
    | inl (e, bad) ↦ cc (rw (bad, add_hold) at h)
    | inr (current, good) ↦
        let hold : Hold = record {
          id = hold_id scope dsh;
          scope = scope;
          dsh_version = dsh;
          reason = reason;
          created_at = now;
        } in
        let others = filter (λ x. not (same_id (hold_id scope dsh) x)) current.holds in
        elim (Bool-cases (valid_hold is_timestamp hold)) [
          | inr invalid ↦ cc (rw (good, invalid, add_hold) at h)
          | inl valid ↦
              let same =
                parse_state-ok is_timestamp (record current { holds = others ++ (hold ∷ []) }) s
                  (rw (good, valid, add_hold) at h) in
              (others, sym (ap (λ (x : ChannelState). x.holds) same))
        ]
  ]

  -- A version on which a hold was put is not tried, in any deployment, while the Environment that
  -- is supported is covered by the hold.
  pub plan_desired_state-add_hold :
      (file : Option ChannelState) (scope : Scope) (dsh reason now : Text) (s : ChannelState)
      (d : Deployed) (supported : Supported) (sequence : Option ℕ)
      → add_hold is_timestamp hold_id file scope dsh reason now ≡ ok s
      → covers scope supported.environment ≡ true
      → plan_desired_state s d supported sequence (some dsh) ≢ ok try_experimental
  plan_desired_state-add_hold file scope dsh reason now s d supported sequence h c e =
      let (hs, same) = add_hold-holds file scope dsh reason now s h in
      let hold : Hold = record {
        id = hold_id scope dsh;
        scope = scope;
        dsh_version = dsh;
        reason = reason;
        created_at = now;
      } in
      let tried = plan_desired_state-IsTried s d supported sequence (some dsh) e in
      let named : dsh ≡ tried.dsh = some-equal dsh tried.dsh tried.offered in
      let free : held s.holds dsh supported.environment ≡ none = rw named tried.free in
      held-last hs hold supported.environment c (rw same at free)
