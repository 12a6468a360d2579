-- ===== src/Bootstrap/ImageOutcomes.antt =====
-- What the preparation of an image of deployments.mjs is followed by: its acceptance or rejection.
use mathlib.Core.Path.{subst}
use dsh_docker.Prelude.{◌≡◌, refl, sym, ap, ◌∙◌, inl, inr, Option, none, some, Bool, true}
use dsh_docker.Prelude.Tests.{◌==◌, Bool-cases, Option-cases}
use dsh_docker.Prelude.Text.{Text, text_eq, text_eq_sound, codes}
use dsh_docker.Prelude.Map.{get, put}
use dsh_docker.Prelude.Result.{Result, ok, err, Result-cases, guard-ok, ok-injective}
use dsh_docker.Platform.Contracts.{Slots, parse_slots}
use dsh_docker.Stage0.Slots.Soundness.{parse_slots-ok}
use dsh_docker.Platform.Deployments.{DeploymentRecord, deployment_prefix, parse_deployment_record}
use dsh_docker.Bootstrap.Deployments.{
  Host, DeploymentDisk, DeploymentError, refused, trusted, trusted-ok, same_deployment_record,
  next_slots, create_record, select, slots_of, write_deployment, commit_slots, resolve_deployment,
  read_deployment,
}
use dsh_docker.Bootstrap.Images.{
  ImagePlan, prepare_image, accept_from, accept_image, fall_back, reject_image,
}
use dsh_docker.Bootstrap.ImageStart.{
  IsFallback, IsPrepared, planned, failed, select-IsSelected, prepare_written-IsPrepared,
}

-- On the disk that is left: a plan for what is selected, or an error that left the slots.
unfoldable pub Prepared :
    Host → DeploymentDisk → DeploymentDisk × Result DeploymentError ImagePlan → Type 0
Prepared host d (d', ok p) =
    (d'.slots ≡ d.slots)
    × (d'.selected ≡ some p.choice.target)
    × (d'.view ≡ some p.choice.target)
    × ((r : DeploymentRecord) × (resolve_deployment host d' p.choice.target ≡ ok r))
    × IsFallback host d' p.fallback
Prepared host d (d', err e) = (d'.slots ≡ d.slots) × (d'.selected ≡ d.selected)

module _ (host : Host) where
  create_record-stays :
      (d d' : DeploymentDisk) (r : DeploymentRecord)
      → create_record d r ≡ ok d'
      → (d'.slots ≡ d.slots) × (d'.selected ≡ d.selected)
  unfolding create_record
  create_record-stays d d' r h = elim (Option-cases (get r.id d.records)) [
    | inl free ↦
        let e =
          ok-injective (record d { records = put r.id r d.records }) d'
            (rw (free, create_record) at h) in
        (sym (ap (λ x. x.slots) e), sym (ap (λ x. x.selected) e))
    | inr (old, there) ↦
        let conflict = refused (codes "conflicting content") in
        let (_, l) =
          guard-ok (same_deployment_record old r) conflict (ok d) d'
            (rw (there, create_record) at h) in
        let e = ok-injective d d' l in (sym (ap (λ x. x.slots) e), sym (ap (λ x. x.selected) e))
  ]

  write_deployment-stays :
      (d d' : DeploymentDisk) (image : DeploymentRecord)
      → write_deployment host d image ≡ ok d'
      → (d'.slots ≡ d.slots) × (d'.selected ≡ d.selected)
  unfolding write_deployment
  write_deployment-stays d d' image h =
      elim (Result-cases (trusted (parse_deployment_record host.content_hash image))) [
        | inl (e, q) ↦ let k = rw (q, write_deployment) at h in absurd cc
        | inr (r, q) ↦ create_record-stays d d' r (rw (q, write_deployment) at h)
      ]

  IsFallback-same :
      (d e : DeploymentDisk) (f : Option Text)
      → e.slots ≡ d.slots
      → e.records ≡ d.records
      → IsFallback host d f
      → IsFallback host e f
  unfolding slots_of read_deployment
  IsFallback-same d e none slots records h = tt
  IsFallback-same d e (some f) slots records (s, id, current, parsed, named, known, same) = (
    s,
    id,
    current,
    rw (slots, slots_of) parsed,
    named,
    rw (records, read_deployment) known,
    same,
  )

  from_written :
      (d d1 : DeploymentDisk)
      → d1.slots ≡ d.slots
      → d1.selected ≡ d.selected
      → (x : DeploymentDisk × Result DeploymentError ImagePlan) → IsPrepared host d1 x
      → Prepared host d x
  unfolding Prepared
  from_written d d1 slots selected _ (planned e p s back) = (
    s.slots_stay ∙ slots,
    s.is_selected,
    s.in_view,
    s.resolved,
    IsFallback-same d1 e p.fallback s.slots_stay s.records_stay back,
  )
  from_written d d1 slots selected _ (failed e error left) =
      (left.slots_stay ∙ slots, left.selection_stays ∙ selected)

  prepare_image-Prepared :
      (d : DeploymentDisk) (image : DeploymentRecord) → Prepared host d (prepare_image host d image)
  unfolding prepare_image Prepared
  prepare_image-Prepared d image = elim (Result-cases (write_deployment host d image)) [
    | inl (e, h) ↦ rw (h, prepare_image) (refl, refl)
    | inr (d1, h) ↦
        let (slots, selected) = write_deployment-stays d d1 image h in
        rw (h, prepare_image)
          (from_written d d1 slots selected _ (prepare_written-IsPrepared host d1 image))
  ]

  commit_slots-current :
      (current : Text) (previous : Option Text) (d d' : DeploymentDisk) (s : Slots)
      → commit_slots current previous d ≡ ok (s, d')
      → (s.current ≡ some current)
        × (slots_of d' ≡ ok s)
        × (d'.records ≡ d.records)
        × (d'.selected ≡ d.selected)
        × (d'.view ≡ d.view)
  unfolding commit_slots slots_of
  commit_slots-current current previous d d' s h = elim (Result-cases (slots_of d)) [
    | inl (e, q) ↦ let k = rw (q, commit_slots) at h in absurd cc
    | inr (old, q) ↦
        let next = next_slots current previous old in
        elim (Result-cases (trusted (parse_slots next deployment_prefix))) [
          | inl (e, p) ↦ let k = rw (q, p, commit_slots) at h in absurd cc
          | inr (t, p) ↦
              let k = rw (q, p, commit_slots) at h in
              let same = ok-injective (t, record d { slots = some t }) (s, d') k in
              let parsed =
                parse_slots-ok next t deployment_prefix
                  (trusted-ok (parse_slots next deployment_prefix) t p) in
              let written = ap (λ (x : Slots × DeploymentDisk). x.0) same in
              let left = ap (λ (x : Slots × DeploymentDisk). x.1) same in
              (
                ap (λ (x : Slots). x.current) (sym written)
                    ∙ ap (λ (x : Slots). x.current) (sym parsed),
                rw (sym left, slots_of)
                    (subst (λ x. trusted (parse_slots x deployment_prefix) ≡ ok s) (parsed)
                      (p ∙ ap ok written)),
                ap (λ (x : DeploymentDisk). x.records) (sym left),
                ap (λ (x : DeploymentDisk). x.selected) (sym left),
                ap (λ (x : DeploymentDisk). x.view) (sym left),
              )
        ]
  ]

  accept_from-current :
      (p : ImagePlan) (d d' : DeploymentDisk) (old s : Slots)
      → slots_of d ≡ ok old
      → accept_from p d old ≡ ok (s, d')
      → (s.current ≡ some p.choice.target)
        × (slots_of d' ≡ ok s)
        × (d'.records ≡ d.records)
        × (d'.selected ≡ d.selected)
        × (d'.view ≡ d.view)
  unfolding accept_from
  accept_from-current p d d' old s read h = elim (Option-cases old.current) [
    | inl k ↦ commit_slots-current p.choice.target none d d' s (rw (k, accept_from) at h)
    | inr (current, k) ↦ elim (Bool-cases (text_eq current p.choice.target)) [
      | inl same ↦
          let e = ok-injective (old, d) (s, d') (rw (k, same, accept_from) at h) in
          let written = ap (λ (x : Slots × DeploymentDisk). x.0) e in
          let left = ap (λ (x : Slots × DeploymentDisk). x.1) e in
          (
            ap (λ (x : Slots). x.current) (sym written)
                ∙ k
                ∙ ap some (text_eq_sound current p.choice.target same),
            ap slots_of (sym left) ∙ read ∙ ap ok written,
            ap (λ (x : DeploymentDisk). x.records) (sym left),
            ap (λ (x : DeploymentDisk). x.selected) (sym left),
            ap (λ (x : DeploymentDisk). x.view) (sym left),
          )
      | inr other ↦ commit_slots-current p.choice.target _ d d' s (rw (k, other, accept_from) at h)
    ]
  ]

  accept_image-current :
      (p : ImagePlan) (d d' : DeploymentDisk) (s : Slots)
      → accept_image host p d ≡ ok (s, d')
      → (s.current ≡ some p.choice.target)
        × (slots_of d' ≡ ok s)
        × (d'.records ≡ d.records)
        × (d'.selected ≡ d.selected)
        × (d'.view ≡ d.view)
  unfolding accept_image
  accept_image-current p d d' s h = elim (Result-cases (slots_of d)) [
    | inl (e, q) ↦ let k = rw (q, accept_image) at h in absurd cc
    | inr (old, q) ↦
        let changed = refused (codes "slots changed") in
        let (_, k) =
          guard-ok (old.generation == p.base_generation) changed (accept_from p d old) (s, d')
            (rw (q, accept_image) at h) in
        accept_from-current p d d' old s q k
  ]

  -- Where the preparation of an image gave a plan and the plan was then accepted on the disk that
  -- the preparation left, the slots that are answered are those that are read back from the disk,
  -- the current one names the target of the plan, that Deployment is the selected one and the one
  -- in view, and each of its assets resolves, whether the target is the image, the current
  -- Deployment or the one that was gone back to.
  pub accept_image-prepare_image :
      (image : DeploymentRecord) (d e d' : DeploymentDisk) (p : ImagePlan) (s : Slots)
      → prepare_image host d image ≡ (e, ok p)
      → accept_image host p e ≡ ok (s, d')
      → (slots_of d' ≡ ok s)
        × (s.current ≡ some p.choice.target)
        × (d'.selected ≡ some p.choice.target)
        × (d'.view ≡ some p.choice.target)
        × ((r : DeploymentRecord) × (resolve_deployment host d' p.choice.target ≡ ok r))
  unfolding Prepared resolve_deployment read_deployment
  accept_image-prepare_image image d e d' p s prepared accepted =
      let outcome : Prepared host d (e, ok p) =
        subst (Prepared host d) prepared (prepare_image-Prepared d image) in
      let (_, is_selected, in_view, (r, resolved), _) = outcome in
      let (current, read, records, selected, view) = accept_image-current p e d' s accepted in
      (
        read,
        current,
        selected ∙ is_selected,
        view ∙ in_view,
        (r, rw (records, resolve_deployment, read_deployment) resolved),
      )

  prepare_image-fails :
      (image : DeploymentRecord) (d d' : DeploymentDisk) (e : DeploymentError)
      → prepare_image host d image ≡ (d', err e)
      → (d'.slots ≡ d.slots) × (d'.selected ≡ d.selected)
  unfolding Prepared
  prepare_image-fails image d d' e h = subst (Prepared host d) h (prepare_image-Prepared d image)

  -- The slots stand, and what they call current is selected, in view and resolves.
  pub record IsBack (d d' : DeploymentDisk) : Type 0 where
    pub slots_stay : d'.slots ≡ d.slots
    pub slots : Slots
    pub read : slots_of d' ≡ ok slots
    pub id : Text
    pub named : slots.current ≡ some id
    pub current : DeploymentRecord
    pub known : read_deployment host d' id ≡ ok current
    pub is_selected : d'.selected ≡ some current.id
    pub in_view : d'.view ≡ some current.id
    pub resolved : (r : DeploymentRecord) × (resolve_deployment host d' current.id ≡ ok r)

  fall_back-IsBack :
      (d e d' : DeploymentDisk) (f : Option Text)
      → e.slots ≡ d.slots
      → IsFallback host e f
      → fall_back host e f ≡ (d', ok true)
      → IsBack d d'
  unfolding fall_back slots_of read_deployment
  fall_back-IsBack d e d' none slots back h =
      let k = ap (λ (x : DeploymentDisk × Result DeploymentError Bool). x.1) h in absurd cc
  fall_back-IsBack d e d' (some f) slots (s, id, current, read, named, known, same) h =
      elim (Result-cases (select host e f).1) [
        | inl (x, q) ↦
            let k =
              ap (λ (x : DeploymentDisk × Result DeploymentError Bool). x.1)
                (rw (q, fall_back) at h) in
            absurd cc
        | inr (x, q) ↦
            let selection = select-IsSelected host e f x q in
            let there =
              ap (λ (x : DeploymentDisk × Result DeploymentError Bool). x.0)
                (rw (q, fall_back) at h) in
            subst (IsBack d) there (record {
              slots_stay = selection.slots_stay ∙ slots;
              slots = s;
              read = rw (selection.slots_stay, slots_of) read;
              id = id;
              named = named;
              current = current;
              known = rw (selection.records_stay, read_deployment) known;
              is_selected = selection.is_selected ∙ ap some (sym same);
              in_view = selection.in_view ∙ ap some (sym same);
              resolved = rw same selection.resolved;
            })
      ]

  -- Where the preparation of an image gave a plan and the plan was then rejected on the disk that
  -- the preparation left, with the answer that a Deployment was gone back to, the slots are those
  -- from before the preparation, and the Record that they name as current is the selected one and
  -- the one in view, and each of its assets resolves.
  pub reject_image-prepare_image :
      (image : DeploymentRecord) (d e d' : DeploymentDisk) (p : ImagePlan)
      → prepare_image host d image ≡ (e, ok p)
      → reject_image host p e ≡ (d', ok true)
      → IsBack d d'
  unfolding reject_image Prepared
  reject_image-prepare_image image d e d' p prepared rejected =
      let outcome : Prepared host d (e, ok p) =
        subst (Prepared host d) prepared (prepare_image-Prepared d image) in
      let (slots, _, _, _, back) = outcome in
      elim (Result-cases (slots_of e)) [
        | inl (x, q) ↦
            let k =
              ap (λ (x : DeploymentDisk × Result DeploymentError Bool). x.1)
                (rw (q, reject_image) at rejected) in
            absurd cc
        | inr (s, q) ↦ elim (Bool-cases (s.generation == p.base_generation)) [
          | inl same ↦
              fall_back-IsBack d e d' p.fallback slots back (rw (q, same, reject_image) at rejected)
          | inr other ↦
              let k =
                ap (λ (x : DeploymentDisk × Result DeploymentError Bool). x.1)
                  (rw (q, other, reject_image) at rejected) in
              absurd cc
        ]
      ]
