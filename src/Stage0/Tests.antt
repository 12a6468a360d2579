-- ===== src/Stage0/Tests.antt =====
-- Starts of supervisor.mjs on the slots of Slots.Tests, where only the previous record's child becomes
-- ready.
use dsh_docker.Prelude.{◌≡◌, refl, [], none, some, Bool, true, arith}
use dsh_docker.Prelude.Tests.{◌==◌}
use dsh_docker.Prelude.Lists.{replicate}
use dsh_docker.Prelude.Map.{get}
use dsh_docker.Prelude.Result.{ok}
use dsh_docker.Platform.Contracts.{BootstrapRecord}
use dsh_docker.Stage0.Slots.Operations.{resolve_record}
use dsh_docker.Stage0.Slots.Tests.{content_hash, id_of, entry, inventory, disk, sound}
use dsh_docker.Stage0.Supervisor.{Supervisor, not_ready, launch, start_with_rollback_now}
use dsh_docker.Stage0.Starting.{
  Runs, start_with_rollback_now-Runs, start_with_rollback_now-previous,
}

abbrev ready : BootstrapRecord → Bool
ready r = r.content.target_sequence == 1

abbrev waiting : Supervisor
waiting = record { disk = disk; child = none; spawned = 0; requests = [] }

abbrev failed : Supervisor
failed = record waiting { spawned = 1 }

abbrev started : Supervisor
started = record failed {
  disk = record disk {
    slots = some (record { generation = 3; current = some (id_of 1); previous = some (id_of 2) });
  };
  spawned = 2;
  child = some (record { number = 1; record_id = id_of 1 });
}

start_with_rollback_now-previous_example :
    start_with_rollback_now content_hash inventory ready waiting ≡ (started, ok (id_of 1))
unfolding sound launch resolve_record
start_with_rollback_now-previous_example =
    start_with_rollback_now-previous content_hash inventory ready waiting failed (id_of 2) (id_of 1)
      (not_ready (id_of 2)) (entry 1)
      (record { is_directory = true; tree_hash = replicate 64 b'a' }) sound refl refl (omega arith)
      refl refl refl

start_with_rollback_now-Runs_example : Runs content_hash inventory ready started (id_of 1)
unfolding start_with_rollback_now get
start_with_rollback_now-Runs_example =
    start_with_rollback_now-Runs content_hash inventory ready waiting started (id_of 1) sound refl
