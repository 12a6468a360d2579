-- ===== src/AccessManager/Account.antt =====
-- The part of an account that container/control-plane/services/access-manager/lib reads when it
-- issues and checks sessions, exchanges and transitions.
use dsh_docker.Prelude.{ℕ, Bool, Option, none, some}
use dsh_docker.Prelude.Tests.{if◌then◌else◌}
use dsh_docker.Prelude.Text.{Text}

pub record Account : Type 0 where
  pub account_id : Text
  pub revision : ℕ
  pub main_version : ℕ
  pub additional_enabled : Bool
  pub additional_version : ℕ
  pub access_version : ℕ

-- `account.managementAdditionalCredential.enabled ? ....version : null`
abbrev pub additional : Account → Option ℕ
additional a = if a.additional_enabled then some a.additional_version else none
