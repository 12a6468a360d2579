-- ===== src/Stage0/Trust/Target.antt =====
-- container/platform/stage0/lib/target.mjs: the release target and what may follow it.
use dsh_docker.Prelude.{◌&&◌, not}
use dsh_docker.Prelude.Tests.{ltb, ◌==◌}
use dsh_docker.Prelude.Text.{Text, text_eq, codes}
use dsh_docker.Prelude.Result.{Result, ok, ◌>>=◌, ◌>>◌, guard}
use dsh_docker.Platform.Contracts.{TrustError, invalid, conflict}
use dsh_docker.Platform.Values.{Value}
use dsh_docker.Platform.Node.{Node}
use dsh_docker.Platform.Stable.{Stable, parse_stable}
use dsh_docker.Stage0.Trust.Signature.{verify_detached}
use dsh_docker.Stage0.Trust.Keyring.{Keyring}

pub record Target : Type 0 where
  pub stable : Stable
  pub key_id : Text

module _ (node : Node) where
  unfoldable pub verify_release_target : Text → Value → Keyring → Result TrustError Target
  unfolding parse_stable verify_detached
  verify_release_target bytes signature keyring = do
    parsed ← parse_stable node bytes
    guard (parsed.keyring_generation == keyring.generation) (invalid (codes "keyring generation"))
    key_id ← verify_detached node bytes signature keyring.current.public_key
    ok (record { stable = parsed; key_id = key_id })

unfoldable pub validate_target_transition : Text → Target → Text → Target → Result TrustError Target
unfolding text_eq
validate_target_transition previous_bytes previous later_bytes later = do
  guard (not (ltb later.stable.target_sequence previous.stable.target_sequence))
      (conflict (codes "TRUST_ROLLBACK"))
  guard
      (not (
        later.stable.target_sequence == previous.stable.target_sequence
        && not (text_eq previous_bytes later_bytes)))
      (invalid (codes "different content"))
  ok later
