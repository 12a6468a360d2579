-- ===== src/Gateway/Tests.antt =====
-- A concrete outage of availability.mjs.
use dsh_docker.Prelude.{◌≡◌, refl, List, [], ◌∷◌, none, some, true, false}
use dsh_docker.Prelude.Text.{codes, text_eq}
use dsh_docker.Gateway.Availability.{new_availability, PlatformStatus, unavailable, classify}
use dsh_docker.Gateway.Outages.{
  Probe, observed, remembered, observed-remembered, IsQuiet, IsOut, classify-IsOut,
}

abbrev probes : List Probe
probes =
    record { ready = false; time = 3000 }
    ∷ record { ready = false; time = 2000 }
    ∷ record { ready = false; time = 1000 }
    ∷ record { ready = true; time = 500 }
    ∷ []

-- DSH runs, and the platform looks for an update.
abbrev checking : PlatformStatus
checking = record {
  operation = none;
  update = some (codes "checking");
  lifecycle = some (codes "running");
  in_recovery_mode = false;
}

is_out : classify (observed (new_availability 3 1500) probes) checking 3000 ≡ unavailable
unfolding classify observed new_availability text_eq
is_out = refl

classify-IsOut_example : IsQuiet checking × IsOut 3 1500 probes 3000
classify-IsOut_example = classify-IsOut 3 1500 probes checking 3000 is_out

observed-remembered_example : observed (new_availability 3 1500) probes ≡ remembered 3 1500 probes
observed-remembered_example = observed-remembered 3 1500 probes
