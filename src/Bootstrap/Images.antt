-- ===== src/Bootstrap/Images.antt =====
-- container/platform/bootstrap/lib/deployments.mjs: the choice between the image and the current
-- Deployment, its trial, and how it is accepted or rejected; recovery of the previous Deployment.
-- A step that throws is answered with what it left on the disk. The receipts of a recovery and its
-- journal are not modelled.
use dsh_docker.Prelude.{ℕ, List, [], ◌∷◌, Option, none, some, Bool, true, false, ◌&&◌, ◌||◌, not}
use dsh_docker.Prelude.Tests.{ltb, leb, ◌==◌, if◌then◌else◌}
use dsh_docker.Prelude.Text.{Text, text_eq, codes}
use dsh_docker.Prelude.Result.{Result, ok, err, ◌>>=◌, ◌>>◌, guard}
use dsh_docker.Platform.Contracts.{Slots}
use dsh_docker.Platform.Deployments.{Authority, development, experimental, DeploymentRecord}
use dsh_docker.Bootstrap.Deployments.{
  write_deployment, Host, DeploymentDisk, DeploymentError, refused, resolution, caught_up, slots_of,
  commit_slots, read_deployment, select, available_in_current_image,
  image_record_from_another_image, same_image_deployment,
}

pub data ImageAction : Type 0 where
  initialize : ImageAction
  retain : ImageAction
  development_refresh : ImageAction
  image_rollback : ImageAction
  stable_caught_up : ImageAction
  image_forward : ImageAction
  prefer_image : ImageAction
  image_rejected : ImageAction

pub record ImageChoice : Type 0 where
  pub target : Text
  pub action : ImageAction
  pub image_behind_current : Bool
  pub requires_experimental_rebuild : Bool

pub record ImagePlan : Type 0 where
  pub base_generation : ℕ
  pub fallback : Option Text
  pub choice : ImageChoice
  pub candidate_error : Option DeploymentError

abbrev pub is_refresh_action : ImageAction → Bool
is_refresh_action development_refresh = true
is_refresh_action _ = false

abbrev pub of_development : Authority → Bool
of_development development = true
of_development _ = false

unfoldable pub replace_by : DeploymentRecord → ImageAction → ImageChoice
replace_by r action = record {
  target = r.id;
  action = action;
  image_behind_current = false;
  requires_experimental_rebuild = false;
}

unfoldable pub retain_current : DeploymentRecord → Bool → Bool → ImageChoice
retain_current r behind rebuild = record {
  target = r.id;
  action = retain;
  image_behind_current = behind;
  requires_experimental_rebuild = rebuild;
}

unfoldable pub refreshes : DeploymentRecord → DeploymentRecord → Result DeploymentError Bool
unfolding caught_up text_eq
refreshes current image =
    if of_development image.content.authority
      && (image.content.target_sequence == 0 && not (text_eq current.id image.id))
    then caught_up image.content.dsh_version current.content.dsh_version
    else ok false

abbrev pub no_receipts : List Text → Bool
no_receipts [] = true
no_receipts (t ∷ ts) = false

unfoldable pub catch_up : DeploymentRecord → DeploymentRecord → Bool → ImageChoice
unfolding replace_by retain_current
catch_up current image dsh =
    if leb current.content.target_sequence image.content.target_sequence && dsh
    then replace_by image stable_caught_up
    else retain_current current (ltb image.content.target_sequence current.content.target_sequence)
        (ltb current.content.target_sequence image.content.target_sequence && not dsh)

-- Where the generation is that of the plan.
unfoldable pub accept_from :
    ImagePlan → DeploymentDisk → Slots → Result DeploymentError (Slots × DeploymentDisk)
unfolding commit_slots text_eq
accept_from p d s = elim s.current [
  | none ↦ commit_slots p.choice.target none d
  | some current ↦
      if text_eq current p.choice.target
      then ok (s, d)
      else commit_slots p.choice.target
          (if is_refresh_action p.choice.action then none else some current) d
]

module _ (host : Host) where
  unfoldable pub prefer : DeploymentRecord → DeploymentRecord → Result DeploymentError ImageChoice
  unfolding same_image_deployment replace_by retain_current text_eq
  prefer current image = do
    same ← same_image_deployment host current.content image.content
    guard same (refused (codes "conflicts with current content"))
    ok (
        if text_eq current.id image.id
        then retain_current current false false
        else replace_by image prefer_image)

  unfoldable pub by_sequence :
      DeploymentRecord → DeploymentRecord → Result DeploymentError ImageChoice
  unfolding replace_by retain_current prefer
  by_sequence current image =
      if ltb current.content.target_sequence image.content.target_sequence
      then ok (replace_by image image_forward)
      else if ltb image.content.target_sequence current.content.target_sequence
      then ok (retain_current current true false)
      else prefer current image

  -- Where the image is no refresh and no rollback.
  unfoldable pub choose_by_authority :
      DeploymentRecord → DeploymentRecord → Result DeploymentError ImageChoice
  unfolding catch_up caught_up by_sequence
  choose_by_authority current image = elim current.content.authority [
    | experimental ↦ caught_up image.content.dsh_version current.content.dsh_version >>= λ dsh.
        ok (catch_up current image dsh)
    | _ ↦ by_sequence current image
  ]

  unfoldable pub choose_image :
      DeploymentRecord → DeploymentRecord → Result DeploymentError ImageChoice
  unfolding refreshes replace_by image_record_from_another_image choose_by_authority
  choose_image current image = refreshes current image >>= λ refresh.
      if refresh
      then ok (replace_by image development_refresh)
      else if ltb image.content.target_sequence current.content.target_sequence
          && (no_receipts current.content.receipt_tokens
              && image_record_from_another_image host current.content)
      then ok (replace_by image image_rollback)
      else choose_by_authority current image

  -- Where the candidate failed.
  unfoldable pub go_back :
      DeploymentDisk
      → Slots
      → Text
      → ImageChoice
      → DeploymentError
      → DeploymentDisk × Result DeploymentError ImagePlan
  unfolding select
  go_back d s current c e =
      let (d', r) = select host d current in
      elim r [
        | ok _ ↦ (
          d',
          ok (record {
            base_generation = s.generation;
            fallback = none;
            choice = record c { target = current; action = image_rejected };
            candidate_error = some e;
          }),
        )
        | err f ↦ (d', err (resolution (codes "image candidate and current Deployment assets")))
      ]

  unfoldable pub try_choice :
      DeploymentDisk
      → Slots
      → Text
      → ImageChoice
      → DeploymentDisk × Result DeploymentError ImagePlan
  unfolding select text_eq go_back
  try_choice d s current c =
      let (d', r) = select host d c.target in
      elim r [
        | ok _ ↦ (
          d',
          ok (record {
            base_generation = s.generation;
            fallback =
                if text_eq c.target current || is_refresh_action c.action
                then none
                else some current;
            choice = c;
            candidate_error = none;
          }),
        )
        | err e ↦
            if text_eq c.target current
            then (d', err (resolution (codes "current Deployment assets")))
            else go_back d' s current c e
      ]

  unfoldable pub try_first :
      DeploymentDisk → DeploymentRecord → DeploymentDisk × Result DeploymentError ImagePlan
  unfolding select replace_by
  try_first d image =
      let (d', r) = select host d image.id in
      elim r [
        | ok _ ↦ (
          d',
          ok (record {
            base_generation = 0;
            fallback = none;
            choice = replace_by image initialize;
            candidate_error = none;
          }),
        )
        | err e ↦ (d', err e)
      ]

  unfoldable pub prepare_written :
      DeploymentDisk → DeploymentRecord → DeploymentDisk × Result DeploymentError ImagePlan
  unfolding slots_of read_deployment choose_image try_choice try_first
  prepare_written d image = elim (slots_of d) [
    | err e ↦ (d, err e)
    | ok s ↦ elim s.current [
      | none ↦ try_first d image
      | some id ↦ elim (read_deployment host d id) [
        | err e ↦ (d, err e)
        | ok current ↦ elim (choose_image current image) [
          | err e ↦ (d, err e)
          | ok c ↦ try_choice d s current.id c
        ]
      ]
    ]
  ]

  unfoldable pub prepare_image :
      DeploymentDisk → DeploymentRecord → DeploymentDisk × Result DeploymentError ImagePlan
  unfolding write_deployment prepare_written
  prepare_image d image = elim (write_deployment host d image) [
    | err e ↦ (d, err e)
    | ok d' ↦ prepare_written d' image
  ]

  unfoldable pub accept_image :
      ImagePlan → DeploymentDisk → Result DeploymentError (Slots × DeploymentDisk)
  unfolding slots_of accept_from
  accept_image p d = do
    s ← slots_of d
    guard (s.generation == p.base_generation) (refused (codes "slots changed"))
    accept_from p d s

  -- Whether there was something to go back to.
  unfoldable pub fall_back :
      DeploymentDisk → Option Text → DeploymentDisk × Result DeploymentError Bool
  unfolding select
  fall_back d none = (d, ok false)
  fall_back d (some id) =
      let (d', r) = select host d id in elim r [ ok _ ↦ (d', ok true) | err e ↦ (d', err e) ]

  unfoldable pub reject_image :
      ImagePlan → DeploymentDisk → DeploymentDisk × Result DeploymentError Bool
  unfolding slots_of fall_back
  reject_image p d = elim (slots_of d) [
    | err e ↦ (d, err e)
    | ok s ↦
        if s.generation == p.base_generation
        then fall_back d p.fallback
        else (d, err (refused (codes "slots changed")))
  ]

  -- The current Record, and the previous one where the image has what it needs.
  unfoldable pub rollback_plan :
      DeploymentDisk → Result DeploymentError (Option DeploymentRecord × Option DeploymentRecord)
  unfolding slots_of read_deployment available_in_current_image
  rollback_plan d = do
    s ← slots_of d
    current ← elim s.current [
      | none ↦ ok none
      | some id ↦ read_deployment host d id >>= λ r. ok (some r)
    ]
    previous ← elim s.previous [
      | none ↦ ok none
      | some id ↦ read_deployment host d id >>= λ r. ok (some r)
    ]
    ok (
      current,
      elim previous [
        | none ↦ none
        | some r ↦ if available_in_current_image host r.content then some r else none
      ],
    )
