-- ===== src/Stage0/Supervisor.antt =====
-- container/platform/stage0/lib/supervisor.mjs: BootstrapSupervisor over the slots. Whether a child
-- that was started becomes ready is the parameter `ready`. Of a child
-- its record's identifier and a number of its own are kept, and of a pending request its identifier. The link to the running version, the command and the
-- environment of the child are not modelled, nor what is reported.
use dsh_docker.Prelude.{ℕ, ◌+◌, List, [], ◌∷◌, Option, none, some, Bool, not}
use dsh_docker.Prelude.Tests.{◌==◌, if◌then◌else◌}
use dsh_docker.Prelude.Lists.{filter}
use dsh_docker.Prelude.Text.{Text, text_eq}
use dsh_docker.Prelude.Result.{Result, ok, err}
use dsh_docker.Platform.Contracts.{Content, BootstrapRecord, Slots, TrustError}
use dsh_docker.Stage0.Slots.Disk.{Disk, Inventory, state}
use dsh_docker.Stage0.Slots.Operations.{resolve_record, rollback}

pub record Child : Type 0 where
  pub number : ℕ
  pub record_id : Text

pub record Supervisor : Type 0 where
  pub disk : Disk
  pub child : Option Child
  pub spawned : ℕ
  pub requests : List Text

pub data StartError : Type 0 where
  slots_error : TrustError → StartError
  not_ready : Text → StartError
  none_installed : StartError
  both_failed : StartError → StartError → StartError
  unavailable : StartError

module _ (content_hash : Content → Text) (i : Inventory) (ready : BootstrapRecord → Bool) where
  unfoldable pub launch : Supervisor → Text → Supervisor × Result StartError Text
  unfolding resolve_record
  launch s id = elim (resolve_record content_hash i s.disk id) [
    | err e ↦ (s, err (slots_error e))
    | ok (r, asset) ↦
        let started : Supervisor = record s { spawned = s.spawned + 1 } in
        if ready r
        then (
          record started { child = some (record { number = s.spawned; record_id = id }) },
          ok id,
        )
        else (record started { child = none }, err (not_ready id))
  ]

  -- The second launch, whose failure is told of with the first.
  unfoldable pub after_rollback :
      StartError → Supervisor × Result StartError Text → Supervisor × Result StartError Text
  after_rollback candidate_error (s, ok id) = (s, ok id)
  after_rollback candidate_error (s, err e) = (s, err (both_failed candidate_error e))

  unfoldable pub launch_previous :
      StartError
      → Text
      → Supervisor
      → Disk × Result TrustError Slots
      → Supervisor × Result StartError Text
  unfolding launch after_rollback
  launch_previous candidate_error p s (d, err e) = (record s { disk = d }, err (slots_error e))
  launch_previous candidate_error p s (d, ok slots) =
      after_rollback candidate_error (launch (record s { disk = d }) p)

  unfoldable pub or_previous :
      Option Text → Supervisor × Result StartError Text → Supervisor × Result StartError Text
  unfolding rollback launch_previous
  or_previous previous (s, ok id) = (s, ok id)
  or_previous none (s, err e) = (s, err e)
  or_previous (some p) (s, err e) = launch_previous e p s (rollback content_hash s.disk)

  unfoldable pub start_with_rollback_now : Supervisor → Supervisor × Result StartError Text
  unfolding state launch or_previous
  start_with_rollback_now s = elim (state s.disk) [
    | err e ↦ (s, err (slots_error e))
    | ok slots ↦ elim slots.current [
      | none ↦ (s, err none_installed)
      | some c ↦ or_previous slots.previous (launch s c)
    ]
  ]

  -- What was pending is rejected.
  unfoldable pub reject_requests : Supervisor → Supervisor
  reject_requests s = record s { requests = [] }

  unfoldable pub stop_now : Supervisor → Supervisor
  unfolding reject_requests
  stop_now s = reject_requests (record s { child = none })

  unfoldable pub restart_now : Supervisor → Supervisor × Result StartError Text
  unfolding stop_now start_with_rollback_now
  restart_now s = start_with_rollback_now (stop_now s)

  unfoldable pub recover_image_baseline : Supervisor → Bool → Text → Result StartError Supervisor
  recover_image_baseline s connected request = elim s.child [
    | none ↦ err unavailable
    | some c ↦
        if connected then ok (record s { requests = request ∷ s.requests }) else err unavailable
  ]

  -- An answer, a failure to send, or the end of the wait: each settles the request once.
  unfoldable pub settle : Supervisor → Text → Supervisor
  unfolding text_eq
  settle s request = record s { requests = filter (λ r. not (text_eq r request)) s.requests }

  -- A child that was ready exits; another one may run by then.
  unfoldable pub exited : Supervisor → ℕ → Supervisor
  unfolding reject_requests
  exited s number = elim s.child [
    | none ↦ s
    | some c ↦ if c.number == number then reject_requests s else s
  ]
