-- ===== src/Bootstrap/Tests.antt =====
-- Concrete collections of gc.mjs, with a hash of content that repeats the target's sequence.
use dsh_docker.Prelude.{ℕ, ◌≡◌, ◌+◌, refl, [], ◌∷◌, ◌++◌, none, some, Bool, true, false}
use dsh_docker.Prelude.Lists.{replicate}
use dsh_docker.Prelude.Text.{Text, text_eq, codes}
use dsh_docker.Prelude.Map.{Map, get}
use dsh_docker.Prelude.Result.{ok}
use dsh_docker.Platform.Contracts.{Kind, Storage, Artifact, Slots}
use dsh_docker.Platform.Values.{Value, includes}
use dsh_docker.Platform.Deployments.{DeploymentContent, DeploymentRecord, stable}
use dsh_docker.Bootstrap.Gc.{Disk, is_listed, roots, parse_records, read_slots, collect}
use dsh_docker.Bootstrap.GcLaws.{runtimes, collect-kept, collect-named}

abbrev pub content_hash : DeploymentContent → Text
content_hash c = replicate 64 (b'0' + c.target_sequence)

abbrev pub asset : Kind → ℕ → Artifact
asset kind n = record {
  storage = Storage.stored;
  kind = kind;
  id = codes "a" ++ (b'0' + n) ∷ [];
  sha256 = replicate 64 b'a';
}

abbrev pub id_of : ℕ → Text
id_of n = codes "deployment-record-" ++ replicate 64 (b'0' + n)

abbrev pub entry : ℕ → DeploymentRecord
entry n = record {
  id = id_of n;
  content = record {
    authority = stable;
    target_sequence = n;
    dsh_version = codes "1.0.0";
    environment_version = codes "e";
    environment = asset Kind.environment n;
    pristine = asset Kind.pristine n;
    runtime = asset Kind.runtime n;
    system_plugins = asset Kind.system_plugins n;
    receipt_tokens = [];
    snapshot_id = none;
  };
}

abbrev files : Map DeploymentRecord
files = (id_of 1, entry 1) ∷ (id_of 2, entry 2) ∷ []

abbrev slots : Slots
slots = record { generation = 1; current = some (id_of 2); previous = none }

-- Two deployments, of which the slots name the second.
abbrev disk : Disk
disk = record {
  records = files;
  slots = some slots;
  activation = Value.undefined;
  transaction = Value.undefined;
  channel = none;
  environments = [];
  pristine = [];
  runtimes = (codes "a1", true) ∷ (codes "a2", true) ∷ (codes "current", true) ∷ [];
  system_plugins = [];
  snapshots = [];
  downloads = [];
}

abbrev left : Disk
left = record disk {
  records = (id_of 2, entry 2) ∷ [];
  runtimes = (codes "a2", true) ∷ (codes "current", true) ∷ [];
}

abbrev never : Text → Bool
never t = false

parses : parse_records content_hash files [] ≡ ok files
unfolding parse_records
parses = refl

reads : read_slots disk ≡ ok slots
unfolding read_slots
reads = refl

collects : collect content_hash never disk ≡ ok left
unfolding collect
collects = refl

is_root : includes (roots disk slots files) (id_of 2) ≡ true
unfolding includes roots
is_root = refl

collect-kept_example :
    (get (id_of 2) left.records ≡ get (id_of 2) files)
    × (get (codes "a2") left.runtimes ≡ get (codes "a2") disk.runtimes)
unfolding get text_eq
collect-kept_example =
    collect-kept content_hash never disk left files slots (id_of 2) (entry 2) runtimes parses reads
      collects is_root refl refl

collect-named_example :
    (id : Text) × ((r : DeploymentRecord) × ((includes (roots disk slots files) id ≡ true)
        × ((get id files ≡ some r)
            × ((r.content.runtime.storage ≡ Storage.stored)
                × (r.content.runtime.id ≡ codes "a2")))))
unfolding get is_listed includes
collect-named_example =
    collect-named content_hash never disk left files slots runtimes (codes "a2") parses reads
      collects refl refl refl
