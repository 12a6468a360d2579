-- ===== src/Gateway/Outages.antt =====
-- What DshAvailability knows of the past.
use dsh_docker.Prelude.{
  ℕ, suc, ◌+◌, ◌≤◌, ◌≡◌, refl, ap, ◌∙◌, List, [], ◌∷◌, Option, none, some, Bool, true, false, ◌&&◌,
  not, arith,
}
use dsh_docker.Prelude.Tests.{leb, leb→le, if◌then◌else◌}
use dsh_docker.Prelude.Lists.{length, any}
use dsh_docker.Gateway.Availability.{
  Availability, new_availability, or_now, observe, PlatformStatus, Operation, Update, Lifecycle,
  starting, unavailable, unknown, of_operation, restart_failed, restarting, recovering, switching,
  of_update, building_candidate, snapshotting_data, switching_over, probation, restoring_data,
  of_lifecycle, dsh_starting, dsh_stopping, dsh_stopped, dsh_restarting, dsh_recovering, dsh_failed,
  lasts, of_observations, listed, operations, update_states, lifecycle_states, Answer, first_answer,
  classify,
}

pub record Probe : Type 0 where
  pub ready : Bool
  pub time : ℕ

-- The probes of the past, the last one first.
unfoldable pub observed : Availability → List Probe → Availability
unfolding observe
observed a [] = a
observed a (p ∷ ps) = observe (observed a ps) p.ready p.time

-- The failures since DSH was last ready, the last one first.
abbrev pub outage : List Probe → List ℕ
outage [] = []
outage (p ∷ ps) = let rest = outage ps in if p.ready then [] else p.time ∷ rest

abbrev pub oldest : List ℕ → Option ℕ
oldest [] = none
oldest (t ∷ []) = some t
oldest (t ∷ u ∷ us) = oldest (u ∷ us)

or_now-oldest : (t : ℕ) (ts : List ℕ) → or_now (oldest ts) t ≡ oldest (t ∷ ts)
or_now-oldest t [] = refl
or_now-oldest t (u ∷ []) = refl
or_now-oldest t (u ∷ v ∷ ts) = or_now-oldest t (v ∷ ts)

plus_one : (n : ℕ) → n + 1 ≡ suc n
plus_one n = omega arith

abbrev pub remembered : ℕ → ℕ → List Probe → Availability
remembered failures window ps = record {
  failures = failures;
  failure_window_ms = window;
  ever_ready = any (λ (p : Probe). p.ready) ps;
  consecutive_failures = length (outage ps);
  first_failure_at = oldest (outage ps);
}

observe-remembered :
    (failures window : ℕ) (ps : List Probe) (ready : Bool) (time : ℕ)
    → observe (remembered failures window ps) ready time
      ≡ remembered failures window (record { ready = ready; time = time } ∷ ps)
unfolding observe
observe-remembered failures window ps true time = refl
observe-remembered failures window ps false time = λ i. record {
  failures = failures;
  failure_window_ms = window;
  ever_ready = any (λ (p : Probe). p.ready) ps;
  consecutive_failures = plus_one (length (outage ps)) i;
  first_failure_at = or_now-oldest time (outage ps) i;
}

-- Whatever was probed, with whatever outcomes and at whatever times, the state of the availability
-- is that of the history: whether DSH was ever ready, how many failures there are since it was
-- ready last, and when the first of those was.
pub observed-remembered :
    (failures window : ℕ) (ps : List Probe)
    → observed (new_availability failures window) ps ≡ remembered failures window ps
unfolding observed new_availability observe
observed-remembered failures window [] = refl
observed-remembered failures window (p ∷ ps) =
    ap (λ (a : Availability). observe a p.ready p.time) (observed-remembered failures window ps)
    ∙ observe-remembered failures window ps p.ready p.time

-- DSH has been ready once, and has failed often and long enough since.
pub record IsOut (failures window : ℕ) (ps : List Probe) (now : ℕ) : Type 0 where
  pub was_ready : any (λ (p : Probe). p.ready) ps ≡ true
  pub enough : failures ≤ length (outage ps)
  pub first : ℕ
  pub is_first : oldest (outage ps) ≡ some first
  pub long_enough : first + window ≤ now

unavailable-parts :
    (ready enough long : Bool)
    → (if not ready then starting else if enough && long then unavailable else unknown)
      ≡ unavailable
    → (ready ≡ true) × ((enough ≡ true) × (long ≡ true))
unavailable-parts false enough long h = absurd cc
unavailable-parts true true true h = (refl, (refl, refl))
unavailable-parts true true false h = absurd cc
unavailable-parts true false long h = absurd cc

lasts-some :
    (o : Option ℕ) (window now : ℕ)
    → lasts o window now ≡ true
    → (t : ℕ) × ((o ≡ some t) × (t + window ≤ now))
unfolding lasts
lasts-some none window now h = absurd cc
lasts-some (some t) window now h = (t, (refl, leb→le (t + window) now h))

of_observations-IsOut :
    (failures window now : ℕ) (ps : List Probe)
    → of_observations (remembered failures window ps) now ≡ unavailable
    → IsOut failures window ps now
unfolding of_observations
of_observations-IsOut failures window now ps h =
    let (ready, (enough, long)) =
      unavailable-parts (any (λ (p : Probe). p.ready) ps) (leb failures (length (outage ps)))
        (lasts (oldest (outage ps)) window now) h in
    let (t, (first, later)) = lasts-some (oldest (outage ps)) window now long in
    record {
      was_ready = ready;
      enough = leb→le failures (length (outage ps)) enough;
      first = t;
      is_first = first;
      long_enough = later;
    }

of_operation-unavailable : (o : Operation) → ¬ (of_operation o ≡ unavailable)
of_operation-unavailable restart_failed h = cc
of_operation-unavailable restarting h = cc
of_operation-unavailable recovering h = cc
of_operation-unavailable switching h = cc

of_update-unavailable : (u : Update) → ¬ (of_update u ≡ unavailable)
of_update-unavailable building_candidate h = cc
of_update-unavailable snapshotting_data h = cc
of_update-unavailable switching_over h = cc
of_update-unavailable probation h = cc
of_update-unavailable restoring_data h = cc

of_lifecycle-unavailable : (l : Lifecycle) → ¬ (of_lifecycle l ≡ unavailable)
of_lifecycle-unavailable dsh_starting h = cc
of_lifecycle-unavailable dsh_stopping h = cc
of_lifecycle-unavailable dsh_stopped h = cc
of_lifecycle-unavailable dsh_restarting h = cc
of_lifecycle-unavailable dsh_recovering h = cc
of_lifecycle-unavailable dsh_failed h = cc

-- The platform reports nothing that is listed.
pub record IsQuiet (p : PlatformStatus) : Type 0 where
  pub no_operation : listed operations p.operation ≡ none
  pub no_update : listed update_states p.update ≡ none
  pub no_lifecycle : listed lifecycle_states p.lifecycle ≡ none
  pub no_recovery : p.in_recovery_mode ≡ false

first_answer-unavailable :
    (o : Option Operation) (u : Option Update) (l : Option Lifecycle) (b : Bool)
    (otherwise : Answer)
    → first_answer o u l b otherwise ≡ unavailable
    → (o ≡ none) × (u ≡ none) × (l ≡ none) × (b ≡ false) × (otherwise ≡ unavailable)
unfolding first_answer
first_answer-unavailable (some o) u l b otherwise h = absurd (of_operation-unavailable o h)
first_answer-unavailable none (some u) l b otherwise h = absurd (of_update-unavailable u h)
first_answer-unavailable none none (some l) b otherwise h = absurd (of_lifecycle-unavailable l h)
first_answer-unavailable none none none true otherwise h = absurd cc
first_answer-unavailable none none none false otherwise h = (refl, refl, refl, refl, h)

-- DSH is called unavailable only if the platform reports none of the operations, states of an
-- update and states of the life cycle that are listed, and no recovery, DSH was ready at least
-- once, and since it was ready last there were at least as many failures as configured, the first
-- of them at least the configured window ago.
pub classify-IsOut :
    (failures window : ℕ) (ps : List Probe) (status : PlatformStatus) (now : ℕ)
    → classify (observed (new_availability failures window) ps) status now ≡ unavailable
    → IsQuiet status × IsOut failures window ps now
unfolding classify
classify-IsOut failures window ps status now h =
    let (o, u, l, b, seen) =
      first_answer-unavailable (listed operations status.operation)
        (listed update_states status.update) (listed lifecycle_states status.lifecycle)
        status.in_recovery_mode
        (of_observations (observed (new_availability failures window) ps) now) h in
    (
      record { no_operation = o; no_update = u; no_lifecycle = l; no_recovery = b },
      of_observations-IsOut failures window now ps
          (rw (observed-remembered failures window ps) at seen),
    )
