-- ===== src/AccessManager/Transitions/Laws.antt =====
-- The order that transitions.mjs enforces: create, probe once, consume once.
use dsh_docker.Prelude.{ℕ, ◌≤◌, ◌≡◌, inl, inr, none, some, true, false, not, arith}
use dsh_docker.Prelude.Tests.{leb, Bool-cases, Option-cases}
use dsh_docker.Prelude.Lists.{length}
use dsh_docker.Prelude.Text.{Text, text_eq_iff, text_eq_refl}
use dsh_docker.Prelude.Map.{
  get, put, retain, get-put, get-delete, retain-none, retain-sub, put-Distinct, retain-Distinct,
  Distinct,
}
use dsh_docker.AccessManager.Account.{Account}
use dsh_docker.AccessManager.Transitions.Store.{
  Transition, Continuation, Store, Probe, Inspection, prune, same_digest, proof_of, probe_matches,
  probe, inspect_matches, inspect, consume, consume_continuation,
}

module _ (digest : Text → Text) where
  probe-some :
      (s : Store) (p : Probe) (drawn : Text) (now : ℕ) (r : Text × ℕ)
      → (probe digest s p drawn now).1 ≡ some r
      → (t : Transition) × (get p.transition_id (prune s now).transitions ≡ some t)
        × (probe_matches digest t p ≡ true)
        × (probe digest s p drawn now ≡ (
          record (prune s now) {
            transitions =
                put p.transition_id
                  (record t { nonce_digest = none; proof_digest = some (digest (proof_of drawn)) })
                  (prune s now).transitions;
          },
          some (proof_of drawn, t.expires_at),
        ))
  unfolding probe
  probe-some s p drawn now r h =
      elim (Option-cases (get p.transition_id (prune s now).transitions)) [
        | inl missing ↦ cc (rw (missing, probe) at h)
        | inr (t, found) ↦ elim (Bool-cases (probe_matches digest t p)) [
          | inl yes' ↦ (t, found, yes', rw (found, probe, yes'))
          | inr no' ↦ cc (rw (found, probe, no') at h)
        ]
      ]

  consumed_gone :
      (s : Store) (i : Inspection) (now : ℕ) (t : Transition)
      → (consume digest s i now).1 ≡ some t
      → get i.transition_id (consume digest s i now).0.transitions ≡ none
  unfolding consume inspect
  consumed_gone s i now t h =
      let gone = get-delete i.transition_id i.transition_id (prune s now).transitions in
      let same = text_eq_refl i.transition_id in ground arith

  inspect_missing :
      (s : Store) (i : Inspection) (now : ℕ)
      → get i.transition_id s.transitions ≡ none
      → (inspect digest s i now).1 ≡ none
  unfolding inspect prune
  inspect_missing s i now h =
      let still =
        retain-none (λ _ (t : Transition). not (leb t.expires_at now)) i.transition_id s.transitions
          h in
      ground arith

  consume_missing :
      (s : Store) (i : Inspection) (now : ℕ)
      → get i.transition_id s.transitions ≡ none
      → (consume digest s i now).1 ≡ none
  unfolding consume
  consume_missing s i now h = ground (arith, inspect_missing s i now h)

  -- A transition that was consumed is neither consumed nor inspected again.
  pub consume_twice :
      (s : Store) (i j : Inspection) (now later : ℕ) (t : Transition)
      → (consume digest s i now).1 ≡ some t
      → j.transition_id ≡ i.transition_id
      → ((consume digest (consume digest s i now).0 j later).1 ≡ none)
        × ((inspect digest (consume digest s i now).0 j later).1 ≡ none)
  consume_twice s i j now later t h e =
      let gone : get j.transition_id (consume digest s i now).0.transitions ≡ none =
        rw e (consumed_gone s i now t h) in
      (
        consume_missing (consume digest s i now).0 j later gone,
        inspect_missing (consume digest s i now).0 j later gone,
      )

  no_nonce : (t : Transition) (p : Probe) → t.nonce_digest ≡ none → probe_matches digest t p ≡ false
  unfolding probe_matches
  no_nonce t p h = elim (Option-cases p.nonce) [
    | inl missing ↦ ground arith
    | inr (nonce, given) ↦ ground arith
  ]

  probe_refused :
      (s : Store) (q : Probe) (drawn : Text) (later : ℕ)
      → Distinct s.transitions
      → ((t : Transition) → get q.transition_id s.transitions ≡ some t → t.nonce_digest ≡ none)
      → (probe digest s q drawn later).1 ≡ none
  unfolding probe prune
  probe_refused s q drawn later d spent =
      let test = λ (_ : Text) (t : Transition). not (leb t.expires_at later) in
      elim (Option-cases (get q.transition_id (retain test s.transitions))) [
        | inl missing ↦ ground arith
        | inr (t, found) ↦
            let refused =
              no_nonce t q (spent t (retain-sub test q.transition_id t s.transitions d found)) in
            ground arith
      ]

  -- A nonce is good for one probe: after a probe that succeeded each other probe of the transition
  -- is refused, whatever it names, in a store whose keys are distinct.
  pub probe_twice :
      (s : Store) (p q : Probe) (drawn other : Text) (now later : ℕ) (r : Text × ℕ)
      → Distinct s.transitions
      → (probe digest s p drawn now).1 ≡ some r
      → q.transition_id ≡ p.transition_id
      → (probe digest (probe digest s p drawn now).0 q other later).1 ≡ none
  unfolding prune
  probe_twice s p q drawn other now later r d h e =
      let (t, found, fits, same) = probe-some s p drawn now r h in
      let test = λ (_ : Text) (w : Transition). not (leb w.expires_at now) in
      let spent = record t { nonce_digest = none; proof_digest = some (digest (proof_of drawn)) } in
      let kept = retain test s.transitions in
      rw same (
        probe_refused _ q other later
          (put-Distinct p.transition_id spent kept (retain-Distinct test s.transitions d))
          (λ w g. ground (
            arith,
            get-put p.transition_id q.transition_id spent kept,
            text_eq_refl p.transition_id,
          )))

  -- Where a candidate origin is to be proved, a transition is handed out only against the proof of
  -- its last probe, and only to its account at the same revision and management access and to its
  -- session.
  pub inspect-proof :
      (s : Store) (i : Inspection) (now : ℕ) (t : Transition) (candidate : Text)
      → (inspect digest s i now).1 ≡ some t
      → t.candidate_origin ≡ some candidate
      → (same_digest digest i.proof t.proof_digest ≡ true)
        × (t.account_id ≡ i.account.account_id)
        × (t.revision ≡ i.account.revision)
        × (t.access_version ≡ i.account.access_version)
        × (t.session_id ≡ i.session_id)
  unfolding inspect inspect_matches
  inspect-proof s i now t candidate h c =
      ground (
        arith,
        text_eq_iff t.account_id i.account.account_id,
        text_eq_iff t.session_id i.session_id,
      )

  continuation_gone :
      (s : Store) (value : Text) (a : Account) (target : Text) (now : ℕ)
      → length value ≤ 512
      → get (digest value) (consume_continuation digest s (some value) a target now).0.continuations
        ≡ none
  unfolding consume_continuation
  continuation_gone s value a target now short =
      let gone = get-delete (digest value) (digest value) (prune s now).continuations in
      let same = text_eq_refl (digest value) in ground arith

  continuation_missing :
      (s : Store) (value : Text) (a : Account) (target : Text) (now : ℕ)
      → get (digest value) s.continuations ≡ none
      → (consume_continuation digest s (some value) a target now).1 ≡ none
  unfolding consume_continuation prune
  continuation_missing s value a target now h =
      let test = λ (_ : Text) (c : Continuation). not (leb c.expires_at now) in
      let still = retain-none test (digest value) s.continuations h in ground arith

  -- A continuation token of at most 512 code units is good for one use, whether the first
  -- succeeded or not.
  pub consume_continuation_twice :
      (s : Store) (value : Text) (a b : Account) (target other : Text) (now later : ℕ)
      → length value ≤ 512
      → (consume_continuation digest
          (consume_continuation digest s (some value) a target now).0
          (some value)
          b
          other
          later).1
        ≡ none
  consume_continuation_twice s value a b target other now later short =
      continuation_missing _ value b other later (continuation_gone s value a target now short)
