-- ===== src/Updater/AutomaticCheck.antt =====
-- container/control-plane/modules/updater/lib/automatic-check.mjs: when the updater looks for updates
-- and what it has told of. The documents are taken with their fields in place and of their types. What
-- `Date.parse` reads is the parameter `is_date`; a failure is the name of what is wrong.
use Prim.Native.Nat.{Ordering}
use dsh_docker.Prelude.{ℕ, List, Option, none, some, Bool, true, false, ◌&&◌, ◌||◌, not}
use dsh_docker.Prelude.Tests.{leb, ltb, ◌==◌, if◌then◌else◌}
use dsh_docker.Prelude.Lists.{any}
use dsh_docker.Prelude.Text.{Text, text_eq, codes}
use dsh_docker.Prelude.Result.{Result, ok, ◌>>=◌, ◌>>◌, guard}
use dsh_docker.Platform.Contracts.{TrustError, invalid, is_safe}
use dsh_docker.Platform.Versions.{compare_semantic_versions}
use dsh_docker.Platform.Artifacts.{is_filled}
use dsh_docker.Updater.Channel.{UpdateChannel, Scope, Hold}

pub record CheckConfig : Type 0 where
  pub enabled : Bool
  pub interval_seconds : ℕ
  pub notifications_enabled : Bool

pub record StableNotice : Type 0 where
  pub target_sequence : ℕ
  pub dsh : Text
  pub environment : Text
  pub checked_at : Text

pub record UpstreamNotice : Type 0 where
  pub version : Text
  pub checked_at : Text

pub record CheckState : Type 0 where
  pub config : CheckConfig
  pub stable : Option StableNotice
  pub upstream : Option UpstreamNotice

-- What is installed, and what a release target asks for.
pub record Installed : Type 0 where
  pub dsh : Text
  pub environment : Text

pub record Offer : Type 0 where
  pub target_sequence : ℕ
  pub dsh : Text
  pub environment : Text

-- `DEFAULT_STATE`
abbrev pub default_check : CheckState
default_check = record {
  config = record { enabled = true; interval_seconds = 21600; notifications_enabled = true };
  stable = none;
  upstream = none;
}

-- `AUTOMATIC_CHECK_INTERVALS.includes`
abbrev pub is_interval : ℕ → Bool
is_interval n = (n == 3600 || n == 10800) || ((n == 21600 || n == 43200) || n == 86400)

unfoldable pub parse_config : CheckConfig → Result TrustError CheckConfig
parse_config c = guard (is_interval c.interval_seconds) (invalid (codes "interval")) >> ok c

abbrev pub is_on : CheckConfig → Bool
is_on c = c.enabled && c.notifications_enabled

-- `compareDshVersions(version, version)`, which throws unless the version parses.
unfoldable pub check_version : Text → Result TrustError Ordering
unfolding compare_semantic_versions
check_version t = compare_semantic_versions t t

-- `hold.dshVersion === version && ...`
unfoldable pub is_held : Text → Text → List Hold → Bool
unfolding text_eq
is_held version environment holds =
    any
      (λ (h : Hold).
        text_eq h.dsh_version version
        && elim h.scope [ Scope.version ↦ true | Scope.combination e ↦ text_eq e environment ])
      holds

abbrev pub at_least : Ordering → Bool
at_least Ordering.lt = false
at_least _ = true

unfoldable pub stable_satisfied : StableNotice → Installed → Result TrustError Bool
unfolding text_eq compare_semantic_versions
stable_satisfied candidate current =
    if text_eq current.environment candidate.environment
    then (compare_semantic_versions current.dsh candidate.dsh >>= λ o. ok (at_least o))
    else ok false

-- A notice that the installed deployment has reached is dropped.
unfoldable pub drop_stable :
    Installed → Option StableNotice → Result TrustError (Option StableNotice)
unfolding stable_satisfied
drop_stable current none = ok none
drop_stable current (some n) =
    stable_satisfied n current >>= λ done. ok (if done then none else some n)

unfoldable pub drop_upstream :
    Installed → Option UpstreamNotice → Result TrustError (Option UpstreamNotice)
unfolding compare_semantic_versions
drop_upstream current none = ok none
drop_upstream current (some n) = compare_semantic_versions current.dsh n.version >>= λ o.
    ok (if at_least o then none else some n)

-- A target with a higher sequence than what was told of.
unfoldable pub next_stable : Bool → Offer → Text → Option StableNotice → Option StableNotice
next_stable available target checked_at old =
    let fresh : Bool = elim old [
      | none ↦ true
      | some n ↦ ltb n.target_sequence target.target_sequence
    ] in
    if available && fresh
    then some (record {
      target_sequence = target.target_sequence;
      dsh = target.dsh;
      environment = target.environment;
      checked_at = checked_at;
    })
    else old

abbrev pub is_later : Ordering → Bool
is_later Ordering.gt = true
is_later _ = false

unfoldable pub is_newer : Text → Option UpstreamNotice → Result TrustError Bool
unfolding compare_semantic_versions
is_newer version none = ok true
is_newer version (some n) = compare_semantic_versions version n.version >>= λ o. ok (is_later o)

-- An upstream version behind the installed one, that is not held and newer than what was told of.
unfoldable pub next_upstream :
    Installed
    → Offer
    → Option Text
    → List Hold
    → Text
    → Option UpstreamNotice
    → Result TrustError (Option UpstreamNotice)
unfolding compare_semantic_versions is_held is_newer
next_upstream current target none holds checked_at old = ok old
next_upstream current target (some version) holds checked_at old =
    compare_semantic_versions version current.dsh >>= λ o.
    if is_later o && not (is_held version target.environment holds)
    then (is_newer version old >>= λ newer.
        ok (if newer then some (record { version = version; checked_at = checked_at }) else old))
    else ok old

module _ (is_date : Text → Bool) where
  unfoldable pub parse_stable_notice : Option StableNotice → Result TrustError (Option StableNotice)
  unfolding check_version
  parse_stable_notice none = ok none
  parse_stable_notice (some n) = do
    guard (is_safe n.target_sequence && leb 1 n.target_sequence) (invalid (codes "sequence"))
    o ← check_version n.dsh
    guard (is_filled n.environment) (invalid (codes "Environment"))
    guard (is_date n.checked_at) (invalid (codes "timestamp"))
    ok (some n)

  unfoldable pub parse_upstream_notice :
      Option UpstreamNotice → Result TrustError (Option UpstreamNotice)
  unfolding check_version
  parse_upstream_notice none = ok none
  parse_upstream_notice (some n) = do
    o ← check_version n.version
    guard (is_date n.checked_at) (invalid (codes "timestamp"))
    ok (some n)

  unfoldable pub parse_check_state : CheckState → Result TrustError CheckState
  unfolding parse_config parse_stable_notice parse_upstream_notice
  parse_check_state s = do
    config ← parse_config s.config
    stable ← parse_stable_notice s.stable
    upstream ← parse_upstream_notice s.upstream
    ok (record { config = config; stable = stable; upstream = upstream })

  -- No file gives the default.
  unfoldable pub read_check : Option CheckState → Result TrustError CheckState
  unfolding parse_check_state
  read_check none = ok default_check
  read_check (some s) = parse_check_state s

  -- The new document, which is written.
  unfoldable pub replace :
      (CheckState → Result TrustError CheckState) → Option CheckState → Result TrustError CheckState
  unfolding read_check parse_check_state
  replace update file = do
    previous ← read_check file
    next ← update previous
    parse_check_state next

  unfoldable pub configured : CheckConfig → CheckState → CheckState
  configured config previous =
      if is_on config
      then record previous { config = config }
      else record { config = config; stable = none; upstream = none }

  unfoldable pub configure : CheckConfig → Option CheckState → Result TrustError CheckState
  unfolding parse_config replace configured
  configure value file = do
    config ← parse_config value
    replace (λ previous. ok (configured config previous)) file

  unfoldable pub upstream_of :
      UpdateChannel
      → Installed
      → Offer
      → Option Text
      → List Hold
      → Text
      → Option UpstreamNotice
      → Result TrustError (Option UpstreamNotice)
  unfolding drop_upstream next_upstream
  upstream_of UpdateChannel.stable current target upstream holds checked_at old = ok none
  upstream_of UpdateChannel.experimental current target upstream holds checked_at old =
      drop_upstream current old >>= next_upstream current target upstream holds checked_at

  unfoldable pub recorded :
      UpdateChannel
      → Installed
      → Offer
      → Option Text
      → Bool
      → List Hold
      → Text
      → CheckState
      → Result TrustError CheckState
  unfolding drop_stable next_stable upstream_of
  recorded channel current target upstream available holds checked_at previous =
      if is_on previous.config
      then (do
        kept ← drop_stable current previous.stable
        told ← upstream_of channel current target upstream holds checked_at previous.upstream
        ok (record previous {
          stable = next_stable available target checked_at kept;
          upstream = told;
        }))
      else ok previous

  unfoldable pub record_check :
      UpdateChannel
      → Installed
      → Offer
      → Option Text
      → Bool
      → List Hold
      → Text
      → Option CheckState
      → Result TrustError CheckState
  unfolding replace recorded
  record_check channel current target upstream available holds checked_at file =
      replace (recorded channel current target upstream available holds checked_at) file

  unfoldable pub cleared : Installed → CheckState → Result TrustError CheckState
  unfolding drop_stable drop_upstream
  cleared current previous = do
    stable ← drop_stable current previous.stable
    upstream ← drop_upstream current previous.upstream
    ok (record previous { stable = stable; upstream = upstream })

  unfoldable pub clear_satisfied : Installed → Option CheckState → Result TrustError CheckState
  unfolding replace cleared
  clear_satisfied current file = replace (cleared current) file

  unfoldable pub clear_upstream : Option CheckState → Result TrustError CheckState
  unfolding replace
  clear_upstream file = replace (λ previous. ok (record previous { upstream = none })) file
