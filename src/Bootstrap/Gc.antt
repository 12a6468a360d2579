-- ===== src/Bootstrap/Gc.antt =====
-- container/platform/bootstrap/lib/gc.mjs: PlatformGarbageCollector. A directory is its entries, in
-- order; an entry is a directory or something else. Whether the privileged helper removes a snapshot
-- is the parameter `removes`.
use dsh_docker.Prelude.{List, [], ◌∷◌, ◌++◌, Option, none, some, Bool, true, ◌&&◌, ◌||◌, not}
use dsh_docker.Prelude.Tests.{if◌then◌else◌}
use dsh_docker.Prelude.Lists.{filter}
use dsh_docker.Prelude.Text.{Text, text_eq, starts_with, codes}
use dsh_docker.Prelude.Map.{Map, get, has, put, retain}
use dsh_docker.Prelude.Result.{Result, ok, ◌>>=◌}
use dsh_docker.Platform.Contracts.{TrustError, Storage, Artifact, Slots, parse_slots}
use dsh_docker.Platform.Values.{Value, Items, Fields, get_field, includes}
use dsh_docker.Platform.Deployments.{
  DeploymentContent, DeploymentRecord, deployment_prefix, parse_deployment_record,
}
use dsh_docker.Updater.Channel.{Scope, Hold, ChannelState}

-- Whether each entry is a directory.
abbrev pub Directory : Type 0
Directory = Map Bool

pub record Disk : Type 0 where
  -- under the names of their files, without the suffix
  pub records : Map DeploymentRecord
  pub slots : Option Slots
  pub activation : Value
  pub transaction : Value
  pub channel : Option ChannelState
  pub environments : Directory
  pub pristine : Directory
  pub runtimes : Directory
  pub system_plugins : Directory
  pub snapshots : Directory
  pub downloads : List Text

-- `!name.startsWith('.')`
unfoldable pub is_listed : Text → Bool
unfolding starts_with
is_listed name = not (starts_with name (codes "."))

-- `['current', 'previous', 'versions']`
abbrev pub reserved : List Text
reserved = codes "current" ∷ codes "previous" ∷ codes "versions" ∷ []

-- Whether `removeUnmarked` leaves an entry.
unfoldable pub is_left : List Text → Text → Bool → Bool
unfolding is_listed includes
is_left retained name is_directory =
    not (is_listed name) || (includes reserved name || (includes retained name || not is_directory))

unfoldable pub remove_unmarked : List Text → Directory → Directory
unfolding retain is_left
remove_unmarked retained d = retain (is_left retained) d

unfoldable pub snapshot_left : (Text → Bool) → List Text → Text → Bool → Bool
unfolding is_listed includes
snapshot_left removes retained name is_directory =
    not (is_listed name) || (includes retained name || (not is_directory || not (removes name)))

-- The privileged helper answers for each name; one that is not there or that throws is not modelled.
unfoldable pub remove_snapshots : (Text → Bool) → List Text → Directory → Directory
unfolding retain snapshot_left
remove_snapshots removes retained d = retain (snapshot_left removes retained) d

-- `recordIds`, what it adds to its set.
unfoldable mutual
  unfolding starts_with

  pub record_ids : Value → List Text
  record_ids (Value.string t) =
      if starts_with t (deployment_prefix ++ (b'-' ∷ [])) then t ∷ [] else []
  record_ids (Value.array vs) = record_ids_items vs
  record_ids (Value.object fs) = record_ids_fields fs
  record_ids _ = []

  pub record_ids_items : Items → List Text
  record_ids_items Items.no_items = []
  record_ids_items (Items.item v vs) = record_ids v ++ record_ids_items vs

  pub record_ids_fields : Fields → List Text
  record_ids_fields Fields.no_fields = []
  record_ids_fields (Fields.field k v fs) = record_ids v ++ record_ids_fields fs

unfoldable pub is_held_by : Hold → DeploymentContent → Bool
unfolding text_eq
is_held_by h c =
    text_eq c.dsh_version h.dsh_version
    && elim h.scope [ Scope.version ↦ true | Scope.combination e ↦ text_eq c.environment_version e ]

unfoldable pub held_by : Hold → Map DeploymentRecord → List Text
unfolding is_held_by
held_by h [] = []
held_by h ((_, r) ∷ m) =
    let rest = held_by h m in if is_held_by h r.content then r.id ∷ rest else rest

unfoldable pub held_by_all : List Hold → Map DeploymentRecord → List Text
unfolding held_by
held_by_all [] m = []
held_by_all (h ∷ hs) m = held_by h m ++ held_by_all hs m

abbrev pub holds_of : Option ChannelState → List Hold
holds_of none = []
holds_of (some c) = c.holds ++ elim c.experimental_blocked [ none ↦ [] | some h ↦ h ∷ [] ]

abbrev pub optional : Option Text → List Text
optional none = []
optional (some t) = t ∷ []

-- The set of the records that are kept, from the slots that were read.
unfoldable pub roots : Disk → Slots → Map DeploymentRecord → List Text
unfolding record_ids held_by_all
roots d s records =
    optional s.current
    ++ (optional s.previous
        ++ (record_ids d.activation
            ++ (record_ids d.transaction ++ held_by_all (holds_of d.channel) records)))

-- `if (record[field].storage === 'store') output.add(record[field].id)`
abbrev pub stored_under : Storage → Text → List Text
stored_under Storage.stored id = id ∷ []
stored_under (Storage.image _) id = []

abbrev pub stored_id : Artifact → List Text
stored_id a = stored_under a.storage a.id

abbrev pub named_by : (DeploymentContent → List Text) → Option DeploymentRecord → List Text
named_by names none = []
named_by names (some r) = names r.content

-- What the records among the roots name of one kind.
unfoldable pub retained :
    (DeploymentContent → List Text) → Map DeploymentRecord → List Text → List Text
unfolding get
retained names m [] = []
retained names m (id ∷ ids) = named_by names (get id m) ++ retained names m ids

-- `typeof transaction?.snapshotId === 'string'`
unfoldable pub transaction_snapshot : Value → List Text
unfolding get_field
transaction_snapshot (Value.object fs) = elim (get_field fs (codes "snapshotId")) [
  | Value.string t ↦ t ∷ []
  | _ ↦ []
]
transaction_snapshot _ = []

-- The files of the records, read one after another, under the identifiers that they say.
unfoldable pub parse_records :
    (DeploymentContent → Text)
    → Map DeploymentRecord
    → Map DeploymentRecord
    → Result TrustError (Map DeploymentRecord)
unfolding parse_deployment_record put
parse_records content_hash [] found = ok found
parse_records content_hash ((k, r) ∷ files) found = parse_deployment_record content_hash r >>= λ r'.
    parse_records content_hash files (put r'.id r' found)

unfoldable pub read_slots : Disk → Result TrustError Slots
unfolding parse_slots
read_slots d = elim d.slots [
  | none ↦ ok (record { generation = 0; current = none; previous = none })
  | some s ↦ parse_slots s deployment_prefix
]

module _ (content_hash : DeploymentContent → Text) (removes : Text → Bool) where
  -- From the roots on.
  unfoldable pub collect_from : Disk → Map DeploymentRecord → List Text → Disk
  unfolding retained remove_unmarked remove_snapshots transaction_snapshot includes retain has
  collect_from d records rs = record d {
    environments =
        remove_unmarked (retained (λ c. stored_id c.environment) records rs) d.environments;
    pristine = remove_unmarked (retained (λ c. stored_id c.pristine) records rs) d.pristine;
    runtimes = remove_unmarked (retained (λ c. stored_id c.runtime) records rs) d.runtimes;
    system_plugins =
        remove_unmarked (retained (λ c. stored_id c.system_plugins) records rs) d.system_plugins;
    snapshots =
        remove_snapshots removes
          (retained (λ c. optional c.snapshot_id) records rs ++ transaction_snapshot d.transaction)
          d.snapshots;
    records = retain (λ name _. not (has name records) || includes rs name) d.records;
  }

  unfoldable pub collect_deployments : Disk → Result TrustError Disk
  unfolding parse_records read_slots roots collect_from
  collect_deployments d = do
    records ← parse_records content_hash d.records []
    s ← read_slots d
    ok (collect_from d records (roots d s records))

  -- Names that begin with a dot are not listed.
  unfoldable pub clean_cache : Disk → Disk
  unfolding is_listed
  clean_cache d = record d { downloads = filter (λ n. not (is_listed n)) d.downloads }

  unfoldable pub collect : Disk → Result TrustError Disk
  unfolding collect_deployments clean_cache
  collect d = collect_deployments d >>= λ d'. ok (clean_cache d')
