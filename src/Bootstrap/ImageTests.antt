-- ===== src/Bootstrap/ImageTests.antt =====
-- Concrete starts of an image of deployments.mjs.
use dsh_docker.Prelude.{◌≡◌, ◌⊎◌, refl, [], ◌∷◌, none, some, true, false}
use dsh_docker.Prelude.Lists.{replicate}
use dsh_docker.Prelude.Text.{codes}
use dsh_docker.Prelude.Result.{ok, err}
use dsh_docker.Platform.Contracts.{Slots}
use dsh_docker.Platform.Deployments.{DeploymentRecord}
use dsh_docker.Bootstrap.Deployments.{
  Host, DeploymentDisk, resolution, behind_view, slots_of, resolve_deployment,
}
use dsh_docker.Bootstrap.Images.{
  ImageChoice, ImagePlan, image_forward, choose_image, prepare_image, accept_image, reject_image,
}
use dsh_docker.Bootstrap.ImageLaws.{choose_image-Replaces, Replaces}
use dsh_docker.Bootstrap.ImageOutcomes.{
  accept_image-prepare_image, IsBack, reject_image-prepare_image,
}
use dsh_docker.Bootstrap.Tests.{content_hash, id_of, entry}

-- Every directory of the Store is there with the content of its Record.
abbrev host : Host
host = record {
  content_hash = content_hash;
  image_build = codes "sha256:0";
  inventory = λ _. none;
  is_directory = λ _. true;
  hash_tree = λ _. replicate 64 b'a';
  hash_tree_content = λ a. a.sha256;
  link_fault = λ _ _. none;
}

-- The second deployment comes with the image, and the first one is current.
abbrev before : DeploymentDisk
before = record {
  records = (id_of 1, entry 1) ∷ [];
  slots = some (record { generation = 4; current = some (id_of 1); previous = none });
  selected = some (id_of 1);
  view = some (id_of 1);
}

abbrev prepared : DeploymentDisk
prepared = record {
  records = (id_of 1, entry 1) ∷ (id_of 2, entry 2) ∷ [];
  slots = some (record { generation = 4; current = some (id_of 1); previous = none });
  selected = some (id_of 2);
  view = some (id_of 2);
}

abbrev forward : ImageChoice
forward = record {
  target = id_of 2;
  action = image_forward;
  image_behind_current = false;
  requires_experimental_rebuild = false;
}

abbrev plan : ImagePlan
plan = record {
  base_generation = 4;
  fallback = some (id_of 1);
  choice = forward;
  candidate_error = none;
}

abbrev accepted : Slots
accepted = record { generation = 5; current = some (id_of 2); previous = some (id_of 1) }

abbrev running : DeploymentDisk
running = record prepared { slots = some accepted }

-- The image did not become healthy.
abbrev given_up : DeploymentDisk
given_up = record prepared { selected = some (id_of 1); view = some (id_of 1) }

choose_forward : choose_image host (entry 1) (entry 2) ≡ ok forward
unfolding choose_image
choose_forward = refl

prepare_forward : prepare_image host before (entry 2) ≡ (prepared, ok plan)
unfolding prepare_image
prepare_forward = refl

accept_forward : accept_image host plan prepared ≡ ok (accepted, running)
unfolding accept_image
accept_forward = refl

reject_forward : reject_image host plan prepared ≡ (given_up, ok true)
unfolding reject_image
reject_forward = refl

-- The view of the deployment is renamed, and that of the system plugins is not.
half_linked :
    prepare_image (record host { link_fault = λ _ _. some behind_view }) before (entry 2) ≡ (
      record prepared { selected = some (id_of 1); view = some (id_of 1) },
      err (resolution (codes "image candidate and current Deployment assets")),
    )
unfolding prepare_image
half_linked = refl

choose_image-Replaces_example : (id_of 2 ≡ id_of 1) ⊎ Replaces host (entry 1) (entry 2)
choose_image-Replaces_example =
    choose_image-Replaces host (entry 1) (entry 2) forward choose_forward

accept_image-prepare_image_example :
    (slots_of running ≡ ok accepted)
    × (some (id_of 2) ≡ some (id_of 2))
    × (some (id_of 2) ≡ some (id_of 2))
    × (some (id_of 2) ≡ some (id_of 2))
    × ((r : DeploymentRecord) × (resolve_deployment host running (id_of 2) ≡ ok r))
accept_image-prepare_image_example =
    accept_image-prepare_image host (entry 2) before prepared running plan accepted prepare_forward
      accept_forward

reject_image-prepare_image_example : IsBack host before given_up
reject_image-prepare_image_example =
    reject_image-prepare_image host (entry 2) before prepared given_up plan prepare_forward
      reject_forward
