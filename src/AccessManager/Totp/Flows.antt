-- ===== src/AccessManager/Totp/Flows.antt =====
-- totp.mjs: the class `TotpFlowStore`. SHA-256 is the parameter `digest`; what is drawn and each
-- reading of the clock is an argument, the first of them that of the pruning.
use dsh_docker.Prelude.{ℕ, ◌+◌, List, [], ◌++◌, Option, none, some, Bool, true, false, ◌&&◌, not}
use dsh_docker.Prelude.Tests.{leb, ltb, ◌==◌, if◌then◌else◌}
use dsh_docker.Prelude.Lists.{length}
use dsh_docker.Prelude.Text.{Text, text_eq, codes}
use dsh_docker.Prelude.Map.{Map, get, has, put, delete, retain}
use dsh_docker.AccessManager.Sessions.Store.{Client}
use dsh_docker.AccessManager.Account.{Account}
use dsh_docker.AccessManager.Totp.Base32.{base32_encode}

-- An enrolment, or the confirmation that it is to be turned off, which has no secret.
pub record Flow : Type 0 where
  pub account_id : Text
  pub revision : ℕ
  pub session_id : Text
  pub secret : Option Text
  pub confirmed : Bool
  pub expires_at : ℕ

-- `details`, as the server calls `createLogin`.
pub record LoginDetails : Type 0 where
  pub origin : Text
  pub client : Option Client
  pub authentication_source : Text

pub record Login : Type 0 where
  pub account_id : Text
  pub revision : ℕ
  pub details : LoginDetails
  pub expires_at : ℕ

pub record Store : Type 0 where
  pub enrollment_ttl_ms : ℕ
  pub login_ttl_ms : ℕ
  pub enrollments : Map Flow
  pub disables : Map Flow
  pub logins : Map Login

unfoldable pub prune : Store → ℕ → Store
prune s now = record s {
  enrollments = retain (λ _ f. not (leb f.expires_at now)) s.enrollments;
  disables = retain (λ _ f. not (leb f.expires_at now)) s.disables;
  logins = retain (λ _ f. not (leb f.expires_at now)) s.logins;
}

abbrev pub is_same_flow : Account → Text → Flow → Bool
is_same_flow a session f = text_eq f.account_id a.account_id && text_eq f.session_id session

-- The loop that ends the older flows of a session.
unfoldable pub without_session : Account → Text → Map Flow → Map Flow
unfolding text_eq
without_session a session m = retain (λ _ f. not (is_same_flow a session f)) m

abbrev pub flow_token : Text → Text → Text
flow_token prefix drawn = prefix ++ (codes "_" ++ drawn)

abbrev new_flow : Account → Text → Option Text → ℕ → Flow
new_flow a session secret end = record {
  account_id = a.account_id;
  revision = a.revision;
  session_id = session;
  secret = secret;
  confirmed = false;
  expires_at = end;
}

unfoldable pub flow_matches : Flow → Account → Text → Bool
unfolding text_eq
flow_matches f a session =
    text_eq f.account_id a.account_id && (f.revision == a.revision && text_eq f.session_id session)

module _ (digest : Text → Text) where
  -- The token, the secret and the date.
  unfoldable pub create_enrollment :
      Store → Account → Text → Text → List ℕ → ℕ → ℕ → Store × Text × Text × ℕ
  create_enrollment s a session drawn bytes now made =
      let pruned = prune s now in
      let value = flow_token (codes "dshte") drawn in
      let secret = base32_encode bytes in
      let end = made + s.enrollment_ttl_ms in
      (
        record pruned {
          enrollments =
              put (digest value) (new_flow a session (some secret) end)
                (without_session a session pruned.enrollments);
        },
        value,
        secret,
        end,
      )

  unfoldable pub create_disable : Store → Account → Text → Text → ℕ → ℕ → Store × Text × ℕ
  create_disable s a session drawn now made =
      let pruned = prune s now in
      let value = flow_token (codes "dshtd") drawn in
      let end = made + s.enrollment_ttl_ms in
      (
        record pruned {
          disables =
              put (digest value) (new_flow a session none end)
                (without_session a session pruned.disables);
        },
        value,
        end,
      )

  -- The look-up that enrolments and confirmations share, behind the pruning.
  unfoldable pub find_flow : Map Flow → Option Text → Account → Text → Option (Text × Flow)
  unfolding flow_matches
  find_flow m none a session = none
  find_flow m (some value) a session =
      if ltb 512 (length value) then none else elim (get (digest value) m) [
        | none ↦ none
        | some f ↦ if flow_matches f a session then some (digest value, f) else none
      ]

  unfoldable pub enrollment :
      Store → Option Text → Account → Text → ℕ → Store × Option (Text × Flow)
  enrollment s value a session now =
      let pruned = prune s now in (pruned, find_flow pruned.enrollments value a session)

  unfoldable pub disable_confirmation :
      Store → Option Text → Account → Text → ℕ → Store × Option (Text × Flow)
  disable_confirmation s value a session now =
      let pruned = prune s now in (pruned, find_flow pruned.disables value a session)

  unfoldable pub cancel_enrollment : Store → Option Text → Account → Text → ℕ → Store × Bool
  unfolding enrollment has
  cancel_enrollment s value a session now =
      let (s', r) = enrollment s value a session now in
      elim r [
        | none ↦ (s', false)
        | some (key, _) ↦
            (record s' { enrollments = delete key s'.enrollments }, has key s'.enrollments)
      ]

  unfoldable pub cancel_disable : Store → Option Text → Account → Text → ℕ → Store × Bool
  unfolding disable_confirmation has
  cancel_disable s value a session now =
      let (s', r) = disable_confirmation s value a session now in
      elim r [
        | none ↦ (s', false)
        | some (key, _) ↦ (record s' { disables = delete key s'.disables }, has key s'.disables)
      ]

  unfoldable pub create_login : Store → Account → LoginDetails → Text → ℕ → ℕ → Store × Text × ℕ
  create_login s a details drawn now made =
      let pruned = prune s now in
      let value = flow_token (codes "dshtl") drawn in
      let end = made + s.login_ttl_ms in
      (
        record pruned {
          logins =
              put (digest value)
                (record {
                  account_id = a.account_id;
                  revision = a.revision;
                  details = details;
                  expires_at = end;
                })
                pruned.logins;
        },
        value,
        end,
      )

  unfoldable pub login : Store → Option Text → Account → ℕ → Store × Option (Text × Login)
  unfolding text_eq
  login s none a now = (prune s now, none)
  login s (some value) a now =
      let pruned = prune s now in
      if ltb 512 (length value) then (pruned, none) else elim (get (digest value) pruned.logins) [
        | none ↦ (pruned, none)
        | some f ↦
            if text_eq f.account_id a.account_id && f.revision == a.revision
            then (pruned, some (digest value, f))
            else (pruned, none)
      ]

-- `confirmEnrollment` and `confirmDisable` mark what they find.
unfoldable pub confirm : Text → Map Flow → Map Flow × Bool
confirm key m = elim (get key m) [
  | none ↦ (m, false)
  | some f ↦ (put key (record f { confirmed = true }) m, true)
]

unfoldable pub confirm_enrollment : Store → Text → Store × Bool
unfolding confirm
confirm_enrollment s key =
    let (m, done) = confirm key s.enrollments in (record s { enrollments = m }, done)

unfoldable pub confirm_disable : Store → Text → Store × Bool
unfolding confirm
confirm_disable s key = let (m, done) = confirm key s.disables in (record s { disables = m }, done)

unfoldable pub consume_enrollment : Store → Text → Store × Bool
unfolding has
consume_enrollment s key =
    (record s { enrollments = delete key s.enrollments }, has key s.enrollments)

unfoldable pub consume_disable : Store → Text → Store × Bool
unfolding has
consume_disable s key = (record s { disables = delete key s.disables }, has key s.disables)

unfoldable pub consume_login : Store → Text → Store × Bool
unfolding has
consume_login s key = (record s { logins = delete key s.logins }, has key s.logins)

unfoldable pub clear : Store → Store
clear s = record s { enrollments = []; disables = []; logins = [] }
