-- ===== src/Bootstrap/ImageLaws.antt =====
-- What the start of an image of deployments.mjs runs, and what it leaves in the slots.
use dsh_docker.Prelude.{
  ◌≡◌, refl, sym, ap, ◌∙◌, ◌≤◌, ◌<◌, ◌⊎◌, inl, inr, Bool, true, false, ◌&&◌, arith, not,
}
use dsh_docker.Prelude.Tests.{ltb, leb, ◌==◌, if◌then◌else◌, tests, Bool-cases, and-true}
use dsh_docker.Prelude.Text.{text_eq}
use dsh_docker.Prelude.Result.{Result, ok, bind-ok, ok-injective}
use dsh_docker.Platform.Deployments.{Authority, stable, development, experimental, DeploymentRecord}
use dsh_docker.Bootstrap.Deployments.{
  Host, DeploymentError, caught_up, image_record_from_another_image,
}
use dsh_docker.Bootstrap.Images.{
  ImageChoice, of_development, no_receipts, development_refresh, image_rollback, replace_by,
  retain_current, refreshes, catch_up, choose_by_authority, by_sequence, choose_image,
}

-- Why an image may take the place of the current Deployment.
pub data Replaces (host : Host) (current image : DeploymentRecord) : Type 0 where
  development_image :
      of_development image.content.authority ≡ true
      → image.content.target_sequence ≡ 0
      → caught_up image.content.dsh_version current.content.dsh_version ≡ ok true
      → Replaces host current image
  older_image :
      image.content.target_sequence < current.content.target_sequence
      → no_receipts current.content.receipt_tokens ≡ true
      → image_record_from_another_image host current.content ≡ true
      → Replaces host current image
  caught_up_image :
      current.content.target_sequence ≤ image.content.target_sequence
      → caught_up image.content.dsh_version current.content.dsh_version ≡ ok true
      → Replaces host current image
  not_older_image :
      (current.content.authority ≡ experimental → ⊥)
      → current.content.target_sequence ≤ image.content.target_sequence
      → Replaces host current image

Authority-cases :
    (a : Authority)
    → (a ≡ experimental)
      ⊎ ((a ≡ experimental → ⊥)
          × ((x y : Result DeploymentError ImageChoice) → elim a [ experimental ↦ x | _ ↦ y ] ≡ y))
Authority-cases stable = inr (λ e. cc, λ x y. refl)
Authority-cases experimental = inl refl
Authority-cases development = inr (λ e. cc, λ x y. refl)

module _ (host : Host) where
  older_by_sequence :
      (current image : DeploymentRecord)
      → ltb image.content.target_sequence current.content.target_sequence ≡ true
      → by_sequence host current image ≡ ok (retain_current current true false)
  unfolding by_sequence
  older_by_sequence current image older = ground arith

  by_sequence-Replaces :
      (current image : DeploymentRecord) (c : ImageChoice)
      → (current.content.authority ≡ experimental → ⊥)
      → by_sequence host current image ≡ ok c
      → (c.target ≡ current.id) ⊎ Replaces host current image
  unfolding retain_current
  by_sequence-Replaces current image c n h =
      elim (Bool-cases (ltb image.content.target_sequence current.content.target_sequence)) [
        | inl older ↦ inl (
            ap (λ x. x.target)
              (sym (ok-injective _ c (sym (older_by_sequence current image older) ∙ h))))
        | inr newer ↦ inr (not_older_image n (ground arith))
      ]

  catch_up-Replaces :
      (current image : DeploymentRecord) (dsh : Bool)
      → caught_up image.content.dsh_version current.content.dsh_version ≡ ok dsh
      → ((catch_up current image dsh).target ≡ current.id) ⊎ Replaces host current image
  unfolding catch_up retain_current
  catch_up-Replaces current image true e =
      elim (Bool-cases (leb current.content.target_sequence image.content.target_sequence)) [
        | inl newer ↦ inr (caught_up_image (omega tests) e)
        | inr older ↦ inl (rw older refl)
      ]
  catch_up-Replaces current image false e = inl (ground arith)

  refreshes-Replaces :
      (current image : DeploymentRecord)
      → refreshes current image ≡ ok true
      → Replaces host current image
  unfolding refreshes
  refreshes-Replaces current image h =
      elim (Bool-cases (
        of_development image.content.authority
        && (image.content.target_sequence == 0 && not (text_eq current.id image.id)))) [
          | inl t ↦
              let (dev, rest) = and-true (of_development image.content.authority) _ t in
              let (first, _) = and-true (image.content.target_sequence == 0) _ rest in
              development_image dev (ground arith) (rw t at h)
          | inr f ↦ let k = rw f at h in absurd cc
        ]

  choose_by_authority-Replaces :
      (current image : DeploymentRecord) (c : ImageChoice)
      → choose_by_authority host current image ≡ ok c
      → (c.target ≡ current.id) ⊎ Replaces host current image
  unfolding choose_by_authority
  choose_by_authority-Replaces current image c h =
      elim (Authority-cases current.content.authority) [
        | inl e ↦
            let (dsh, (caught, k)) = bind-ok _ _ c (rw e at h) in
            rw (ok-injective _ c k) at (catch_up-Replaces current image dsh caught)
        | inr (n, pick) ↦ by_sequence-Replaces current image c n (sym (pick _ _) ∙ h)
      ]

  -- The choice between an image and the current Deployment is the current one, or the image has a
  -- right to its place: it is a development image whose DSH version is not older; or it is of an
  -- earlier sequence, the current Deployment has no receipts and each of its assets comes from
  -- another image; or its sequence is not earlier, and where the current Deployment is
  -- experimental its DSH version is not older either.
  pub choose_image-Replaces :
      (current image : DeploymentRecord) (c : ImageChoice)
      → choose_image host current image ≡ ok c
      → (c.target ≡ current.id) ⊎ Replaces host current image
  unfolding choose_image
  choose_image-Replaces current image c h =
      let (refresh, (e, k)) = bind-ok _ _ c h in chosen refresh e k
    where
      chosen :
          (refresh : Bool)
          → refreshes current image ≡ ok refresh
          → (if refresh
              then ok (replace_by image development_refresh)
              else if ltb image.content.target_sequence current.content.target_sequence
                  && (no_receipts current.content.receipt_tokens
                      && image_record_from_another_image host current.content)
              then ok (replace_by image image_rollback)
              else choose_by_authority host current image)
            ≡ ok c
          → (c.target ≡ current.id) ⊎ Replaces host current image
      chosen true e k = inr (refreshes-Replaces current image e)
      chosen false e k =
          elim (Bool-cases (
            ltb image.content.target_sequence current.content.target_sequence
            && (no_receipts current.content.receipt_tokens
                && image_record_from_another_image host current.content))) [
                  | inl t ↦
                      let (older, rest) =
                        and-true (ltb image.content.target_sequence current.content.target_sequence)
                          _ t in
                      let (free, other) =
                        and-true (no_receipts current.content.receipt_tokens) _ rest in
                      inr (older_image (ground arith) free other)
                  | inr f ↦ choose_by_authority-Replaces current image c (rw f at k)
                ]
