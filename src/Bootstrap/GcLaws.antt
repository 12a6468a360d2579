-- ===== src/Bootstrap/GcLaws.antt =====
-- What the collection of gc.mjs leaves.
use dsh_docker.Prelude.{◌≡◌, refl, sym, ap, ◌∙◌, List, [], none, some, Bool, true, false, ◌||◌, not}
use dsh_docker.Prelude.Text.{Text}
use dsh_docker.Prelude.Map.{Map, get, has, get-retain, retain-holds}
use dsh_docker.Prelude.Result.{ok, ok-injective}
use dsh_docker.Platform.Contracts.{Storage, Artifact, Slots}
use dsh_docker.Platform.Values.{includes}
use dsh_docker.Platform.Deployments.{DeploymentContent, DeploymentRecord}
use dsh_docker.Bootstrap.Gc.{
  Directory, Disk, is_listed, reserved, is_left, remove_unmarked, roots, stored_id, retained,
  parse_records, read_slots, collect_from, collect_deployments, clean_cache, collect,
}
use dsh_docker.Bootstrap.Marking.{
  retained-includes, is_left-named, kept_if, remove_unmarked-kept, stored_id-stored, retained-named,
  stored_under-includes,
}

-- The kinds of artifact, where they lie, and which one a record names.
pub data Part : Type 0 where
  environments : Part
  pristines : Part
  runtimes : Part
  system_plugins : Part

abbrev pub directory_of : Part → Disk → Directory
directory_of environments d = d.environments
directory_of pristines d = d.pristine
directory_of runtimes d = d.runtimes
directory_of system_plugins d = d.system_plugins

abbrev pub artifact_of : Part → DeploymentContent → Artifact
artifact_of environments c = c.environment
artifact_of pristines c = c.pristine
artifact_of runtimes c = c.runtime
artifact_of system_plugins c = c.system_plugins

module _ (content_hash : DeploymentContent → Text) (removes : Text → Bool) where
  collect-ok :
      (d d' : Disk) (m : Map DeploymentRecord) (s : Slots)
      → parse_records content_hash d.records [] ≡ ok m
      → read_slots d ≡ ok s
      → collect content_hash removes d ≡ ok d'
      → clean_cache content_hash removes (collect_from content_hash removes d m (roots d s m)) ≡ d'
  unfolding collect collect_deployments
  collect-ok d d' m s p q h = ok-injective _ d' (rw (p, q) at h)

  collected-directory :
      (d : Disk) (m : Map DeploymentRecord) (rs : List Text) (part : Part)
      → directory_of part
          (clean_cache content_hash removes (collect_from content_hash removes d m rs))
        ≡ remove_unmarked
            (retained (λ c. stored_id (artifact_of part c)) m rs)
            (directory_of part d)
  unfolding clean_cache collect_from
  collected-directory d m rs environments = refl
  collected-directory d m rs pristines = refl
  collected-directory d m rs runtimes = refl
  collected-directory d m rs system_plugins = refl

  collected-records :
      (d : Disk) (m : Map DeploymentRecord) (rs : List Text) (id : Text)
      → includes rs id ≡ true
      → get id (clean_cache content_hash removes (collect_from content_hash removes d m rs)).records
        ≡ get id d.records
  unfolding clean_cache collect_from
  collected-records d m rs id h =
      get-retain (λ name. not (has name m) || includes rs name) id d.records
      ∙ kept_if (not (has id m)) (includes rs id) (get id d.records) none h

  -- A collection that succeeds keeps what the roots need: for each record that was read under an
  -- identifier that the slots, the activation, the update transaction or a hold gives, the file of
  -- that name stays as it is, and so does the entry of each of its artifacts that lies in the
  -- store.
  pub collect-kept :
      (d d' : Disk) (m : Map DeploymentRecord) (s : Slots) (id : Text) (r : DeploymentRecord)
      (part : Part)
      → parse_records content_hash d.records [] ≡ ok m
      → read_slots d ≡ ok s
      → collect content_hash removes d ≡ ok d'
      → includes (roots d s m) id ≡ true
      → get id m ≡ some r
      → (artifact_of part r.content).storage ≡ Storage.stored
      → (get id d'.records ≡ get id d.records)
        × (get (artifact_of part r.content).id (directory_of part d')
            ≡ get (artifact_of part r.content).id (directory_of part d))
  collect-kept d d' m s id r part p q h root known stored =
      let rs = roots d s m in
      let e = collect-ok d d' m s p q h in
      let a = artifact_of part r.content in
      let named = λ (c : DeploymentContent). stored_id (artifact_of part c) in
      let there = retained-includes named m rs id r a.id root known (stored_id-stored a stored) in
      (
        ap (λ (x : Disk). get id x.records) (sym e) ∙ collected-records d m rs id root,
        ap (λ (x : Disk). get a.id (directory_of part x)) (sym e)
            ∙ ap (get a.id) (collected-directory d m rs part)
            ∙ remove_unmarked-kept (retained named m rs) (directory_of part d) a.id there,
      )

  -- A collection that succeeds leaves nothing else: each directory of environments, pristine
  -- copies, runtimes or system plugins that is listed afterwards, and is not of a reserved name,
  -- is the stored artifact of that kind of a record among the roots.
  pub collect-named :
      (d d' : Disk) (m : Map DeploymentRecord) (s : Slots) (part : Part) (n : Text)
      → parse_records content_hash d.records [] ≡ ok m
      → read_slots d ≡ ok s
      → collect content_hash removes d ≡ ok d'
      → get n (directory_of part d') ≡ some true
      → is_listed n ≡ true
      → includes reserved n ≡ false
      → (id : Text) × ((r : DeploymentRecord) × ((includes (roots d s m) id ≡ true)
            × ((get id m ≡ some r)
                × (((artifact_of part r.content).storage ≡ Storage.stored)
                    × ((artifact_of part r.content).id ≡ n)))))
  unfolding remove_unmarked is_left
  collect-named d d' m s part n p q h there listed free =
      let rs = roots d s m in
      let e = collect-ok d d' m s p q h in
      let named = λ (c : DeploymentContent). stored_id (artifact_of part c) in
      let names = retained named m rs in
      let left : get n (remove_unmarked names (directory_of part d)) ≡ some true =
        ap (get n) (sym (collected-directory d m rs part))
        ∙ ap (λ (x : Disk). get n (directory_of part x)) e
        ∙ there in
      let held = retain-holds (is_left names) n true (directory_of part d) left in
      let marked : includes names n ≡ true = is_left-named names n held listed free in
      let (id, (r, (root, (known, i)))) = retained-named named m rs n marked in
      let a = artifact_of part r.content in
      (id, (r, (root, (known, stored_under-includes a.storage a.id n i))))
