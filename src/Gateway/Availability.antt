-- ===== src/Gateway/Availability.antt =====
-- container/control-plane/services/gateway/lib/availability.mjs: DshAvailability, what the gateway
-- says of DSH. Of the platform's status the fields that it reads are taken; one that is missing, `null`
-- or no text is `none`.
use dsh_docker.Prelude.{[], ◌∷◌, ℕ, ◌+◌, Option, none, some, Bool, true, false, ◌&&◌, not}
use dsh_docker.Prelude.Text.{Text, codes}
use dsh_docker.Prelude.Map.{Map, get}
use dsh_docker.Prelude.Tests.{leb, if◌then◌else◌}

pub record Availability : Type 0 where
  pub failures : ℕ
  pub failure_window_ms : ℕ
  pub ever_ready : Bool
  pub consecutive_failures : ℕ
  pub first_failure_at : Option ℕ

-- `constructor`
unfoldable pub new_availability : ℕ → ℕ → Availability
new_availability failures failure_window_ms = record {
  failures = failures;
  failure_window_ms = failure_window_ms;
  ever_ready = false;
  consecutive_failures = 0;
  first_failure_at = none;
}

abbrev pub or_now : Option ℕ → ℕ → Option ℕ
or_now none now = some now
or_now (some t) now = some t

unfoldable pub observe : Availability → Bool → ℕ → Availability
observe a true now = record a {
  ever_ready = true;
  consecutive_failures = 0;
  first_failure_at = none;
}
observe a false now = record a {
  consecutive_failures = a.consecutive_failures + 1;
  first_failure_at = or_now a.first_failure_at now;
}

pub data Operation : Type 0 where
  restart_failed : Operation
  restarting : Operation
  recovering : Operation
  switching : Operation

-- The states of an update that the gateway knows.
pub data Update : Type 0 where
  building_candidate : Update
  snapshotting_data : Update
  switching_over : Update
  probation : Update
  restoring_data : Update

pub data Lifecycle : Type 0 where
  dsh_starting : Lifecycle
  dsh_stopping : Lifecycle
  dsh_stopped : Lifecycle
  dsh_restarting : Lifecycle
  dsh_recovering : Lifecycle
  dsh_failed : Lifecycle

-- `operation`, `update.status`, `dshLifecycle.state`, and whether there is a `recoveryMode`.
pub record PlatformStatus : Type 0 where
  pub operation : Option Text
  pub update : Option Text
  pub lifecycle : Option Text
  pub in_recovery_mode : Bool

-- The first entry of that text.
unfoldable pub listed : {A : Type 0} → Map A → Option Text → Option A
unfolding get
listed table none = none
listed table (some t) = get t table

abbrev pub operations : Map Operation
operations =
    (codes "restart-failed", restart_failed)
    ∷ (codes "restarting", restarting)
    ∷ (codes "recovering", recovering)
    ∷ (codes "switching", switching)
    ∷ []

abbrev pub update_states : Map Update
update_states =
    (codes "restoring-data", restoring_data)
    ∷ (codes "building-candidate", building_candidate)
    ∷ (codes "snapshotting-data", snapshotting_data)
    ∷ (codes "switching", switching_over)
    ∷ (codes "probation", probation)
    ∷ []

abbrev pub lifecycle_states : Map Lifecycle
lifecycle_states =
    (codes "starting", dsh_starting)
    ∷ (codes "stopping", dsh_stopping)
    ∷ (codes "stopped", dsh_stopped)
    ∷ (codes "restarting", dsh_restarting)
    ∷ (codes "recovering", dsh_recovering)
    ∷ (codes "failed", dsh_failed)
    ∷ []

pub data Answer : Type 0 where
  starting : Answer
  stopping : Answer
  stopped : Answer
  restarted : Answer
  switched : Answer
  runtime_recovering : Answer
  recovered : Answer
  failed : Answer
  unavailable : Answer
  unknown : Answer

-- `SWITCHING_STATES`, `RECOVERING_STATES`
abbrev pub of_update : Update → Answer
of_update restoring_data = runtime_recovering
of_update _ = switched

abbrev pub of_operation : Operation → Answer
of_operation restart_failed = failed
of_operation restarting = restarted
of_operation recovering = runtime_recovering
of_operation switching = switched

abbrev pub of_lifecycle : Lifecycle → Answer
of_lifecycle dsh_starting = starting
of_lifecycle dsh_stopping = stopping
of_lifecycle dsh_stopped = stopped
of_lifecycle dsh_restarting = restarted
of_lifecycle dsh_recovering = recovered
of_lifecycle dsh_failed = failed

-- The failures have lasted long enough.
unfoldable pub lasts : Option ℕ → ℕ → ℕ → Bool
lasts none window now = false
lasts (some t) window now = leb (t + window) now

-- Where the platform reports nothing that is listed.
unfoldable pub of_observations : Availability → ℕ → Answer
unfolding lasts
of_observations a now =
    if not a.ever_ready
    then starting
    else if leb a.failures a.consecutive_failures
        && lasts a.first_failure_at a.failure_window_ms now
    then unavailable
    else unknown

-- The tests in their order, the last answer being that of the observations.
unfoldable pub first_answer :
    Option Operation → Option Update → Option Lifecycle → Bool → Answer → Answer
first_answer (some o) u l recovery otherwise = of_operation o
first_answer none (some u) l recovery otherwise = of_update u
first_answer none none (some l) recovery otherwise = of_lifecycle l
first_answer none none none true otherwise = failed
first_answer none none none false otherwise = otherwise

unfoldable pub classify : Availability → PlatformStatus → ℕ → Answer
unfolding of_observations listed first_answer
classify a p now =
    first_answer (listed operations p.operation) (listed update_states p.update)
      (listed lifecycle_states p.lifecycle) p.in_recovery_mode (of_observations a now)
