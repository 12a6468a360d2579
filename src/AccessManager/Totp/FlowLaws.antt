-- ===== src/AccessManager/Totp/FlowLaws.antt =====
-- Enrolments of totp.mjs: one for a session, and confirmed only by `confirmEnrollment`.
use dsh_docker.Prelude.{
  ℕ, ◌+◌, ◌≤◌, ◌<◌, ◌≡◌, refl, sym, ◌∙◌, inl, inr, List, some, true, false, not, arith,
}
use dsh_docker.Prelude.Tests.{leb, Bool-cases}
use dsh_docker.Prelude.Lists.{length}
use dsh_docker.Prelude.Text.{Text, text_eq, text_eq_refl, text_eq_sound, codes}
use dsh_docker.Prelude.Map.{get, put, retain, get-put, retain-get, retain-holds}
use dsh_docker.AccessManager.Account.{Account}
use dsh_docker.AccessManager.Totp.Base32.{base32_encode}
use dsh_docker.AccessManager.Totp.Flows.{
  Flow, Store, prune, is_same_flow, without_session, flow_token, flow_matches, create_enrollment,
  find_flow, enrollment,
}

module _ (digest : Text → Text) where
  -- After an enrolment is created, each enrolment of the account's session is the one under the
  -- new token.
  pub create_enrollment-only :
      (s : Store) (a : Account) (session drawn : Text) (bytes : List ℕ) (now made : ℕ) (key : Text)
      (f : Flow)
      → let (s', value, _, _) = create_enrollment digest s a session drawn bytes now made in
        get key s'.enrollments ≡ some f → is_same_flow a session f ≡ true → key ≡ digest value
  unfolding create_enrollment without_session
  create_enrollment-only s a session drawn bytes now made key f h same =
      let token = digest (flow_token (codes "dshte") drawn) in
      let others = λ (_ : Text) (g : Flow). not (is_same_flow a session g) in
      let rest = (prune s now).enrollments in
      elim (Bool-cases (text_eq token key)) [
        | inl found ↦ sym (text_eq_sound token key found)
        | inr other ↦
            let there : get key (retain others rest) ≡ some f =
              (sym (get-put token key _ (retain others rest) ∙ rw other refl)) ∙ h in
            cc (retain-holds others key f rest there, same)
      ]

  -- An enrolment that was created is found by its token for its account and session until it ends,
  -- not confirmed yet, with the secret that was handed out, if the token has at most 512 code
  -- units.
  pub enrollment-create :
      (s : Store) (a : Account) (session drawn : Text) (bytes : List ℕ) (now made at : ℕ)
      → length (flow_token (codes "dshte") drawn) ≤ 512
      → at < made + s.enrollment_ttl_ms
      → let (s', value, secret, end) = create_enrollment digest s a session drawn bytes now made in
        (enrollment digest s' (some value) a session at).1
        ≡ some (
          digest value,
          record {
            account_id = a.account_id;
            revision = a.revision;
            session_id = session;
            secret = some secret;
            confirmed = false;
            expires_at = end;
          },
        )
  unfolding create_enrollment enrollment find_flow prune flow_matches
  enrollment-create s a session drawn bytes now made at short early =
      let key = digest (flow_token (codes "dshte") drawn) in
      let flow : Flow = record {
        account_id = a.account_id;
        revision = a.revision;
        session_id = session;
        secret = some (base32_encode bytes);
        confirmed = false;
        expires_at = made + s.enrollment_ttl_ms;
      } in
      let rest = without_session a session (prune s now).enrollments in
      let stored : get key (put key flow rest) ≡ some flow =
        get-put key key flow rest ∙ rw (text_eq_refl key) refl in
      let kept =
        retain-get (λ _ (f : Flow). not (leb f.expires_at at)) key flow (put key flow rest) stored
          (ground arith) in
      rw kept (ground (arith, text_eq_refl a.account_id, text_eq_refl session))
