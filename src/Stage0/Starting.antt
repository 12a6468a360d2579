-- ===== src/Stage0/Starting.antt =====
-- What a start of the Bootstrap with a rollback, of supervisor.mjs, promises.
use mathlib.Core.Path.{subst}
use dsh_docker.Prelude.{
  ◌+◌, ◌^◌, ◌<◌, ◌≡◌, refl, sym, ap, ◌∙◌, inl, inr, Option, none, some, Bool, true,
}
use dsh_docker.Prelude.Tests.{Bool-cases, Option-cases}
use dsh_docker.Prelude.Text.{Text}
use dsh_docker.Prelude.Result.{Result, ok, err, Result-cases, ok-injective}
use dsh_docker.Platform.Contracts.{Content, BootstrapRecord, Slots, TrustError}
use dsh_docker.Stage0.Slots.Disk.{Asset, Disk, Inventory, state, commit, read_record}
use dsh_docker.Stage0.Slots.Operations.{resolve_record, place_of, rollback}
use dsh_docker.Stage0.Slots.Soundness.{IsSound, commit-cases}
use dsh_docker.Stage0.Slots.Steps.{Follows-rollback}
use dsh_docker.Stage0.Slots.Recovery.{rollback_lem}
use dsh_docker.Stage0.Supervisor.{
  Child, Supervisor, StartError, launch, after_rollback, launch_previous, or_previous,
  start_with_rollback_now,
}

module _ (content_hash : Content → Text) where
  rollback-current :
      (d d' : Disk) (s s' : Slots) (p : Text)
      → state d ≡ ok s
      → s.previous ≡ some p
      → rollback content_hash d ≡ (d', ok s')
      → (state d' ≡ ok s') × (s'.current ≡ some p)
  unfolding rollback
  rollback-current d d' s s' p h e r = elim (Result-cases (read_record content_hash d p)) [
    | inl (x, bad) ↦ absurd (cc (rw (rollback, h, e, bad) at r))
    | inr (q, known) ↦
        let c : commit d p s.current ≡ (d', ok s') = rw (rollback, h, e, known) at r in
        elim (commit-cases d p s.current s h) [
          | inl (x, bad) ↦ absurd (cc (c, bad))
          | inr (written, good) ↦
              let same = sym written ∙ c in
              let w = ok-injective _ s' (ap (λ (o : Disk × Result TrustError Slots). o.1) same) in
              (
                subst (λ (x : Disk). state x ≡ ok s')
                    (ap (λ (o : Disk × Result TrustError Slots). o.0) same) (good ∙ ap ok w),
                sym (ap (λ (x : Slots). x.current) w),
              )
        ]
  ]

module _ (content_hash : Content → Text) (i : Inventory) (ready : BootstrapRecord → Bool) where
  -- A child runs that was ready, its record is that of the current slot, and the disk is sound.
  pub record Runs (s : Supervisor) (id : Text) : Type 0 where
    pub sound : IsSound content_hash s.disk
    pub current : sound.slots.current ≡ some id
    pub child : Child
    pub running : s.child ≡ some child
    pub named : child.record_id ≡ id
    pub started : BootstrapRecord
    pub asset : Asset
    pub resolved : resolve_record content_hash i s.disk id ≡ ok (started, asset)
    pub is_ready : ready started ≡ true

  launch-Runs :
      (s s' : Supervisor) (c id : Text) (h : IsSound content_hash s.disk)
      → h.slots.current ≡ some c
      → launch content_hash i ready s c ≡ (s', ok id)
      → Runs s' id
  unfolding launch
  launch-Runs s s' c id h e l = elim (Result-cases (resolve_record content_hash i s.disk c)) [
    | inl (x, bad) ↦ absurd (cc (rw (launch, bad) at l))
    | inr ((r, a), good) ↦ elim (Bool-cases (ready r)) [
      | inr slow ↦ absurd (cc (rw (launch, good, slow) at l))
      | inl quick ↦
          let k : Child = record { number = s.spawned; record_id = c } in
          let m : Supervisor = record s { spawned = s.spawned + 1; child = some k } in
          let same : ◌≡◌ {A = Supervisor × Result StartError Text} (m, ok c) (s', ok id) =
            rw (launch, good, quick) at l in
          let named =
            ok-injective c id (ap (λ (o : Supervisor × Result StartError Text). o.1) same) in
          subst (λ (x : Supervisor). Runs x id)
            (ap (λ (o : Supervisor × Result StartError Text). o.0) same)
            (record {
              sound = h;
              current = e ∙ ap some named;
              child = k;
              running = refl;
              named = named;
              started = r;
              asset = a;
              resolved = rw (sym named) good;
              is_ready = quick;
            })
    ]
  ]

  moved :
      (d d' : Disk) (h : IsSound content_hash d)
      → d ≡ d'
      → (g : IsSound content_hash d') × (g.slots.previous ≡ h.slots.previous)
  moved d d' h e =
      subst (λ (x : Disk). (g : IsSound content_hash x) × (g.slots.previous ≡ h.slots.previous)) e
        (h, refl)

  -- A launch leaves the disk.
  launch-disk : (s : Supervisor) (c : Text) → (launch content_hash i ready s c).0.disk ≡ s.disk
  unfolding launch
  launch-disk s c = elim (Result-cases (resolve_record content_hash i s.disk c)) [
    | inl (x, bad) ↦ rw (launch, bad) refl
    | inr ((r, a), good) ↦ elim (Bool-cases (ready r)) [
      | inr slow ↦ rw (launch, good, slow) refl
      | inl quick ↦ rw (launch, good, quick) refl
    ]
  ]

  after_rollback-ok :
      (e : StartError) (o : Supervisor × Result StartError Text) (s' : Supervisor) (id : Text)
      → after_rollback content_hash i ready e o ≡ (s', ok id)
      → o ≡ (s', ok id)
  unfolding after_rollback
  after_rollback-ok e (s, ok id') s' id h = h
  after_rollback-ok e (s, err x) s' id h = absurd cc

  launch_previous-Runs :
      (e : StartError) (p id : Text) (s s' : Supervisor) (h : IsSound content_hash s.disk)
      (o : Disk × Result TrustError Slots)
      → h.slots.previous ≡ some p
      → rollback content_hash s.disk ≡ o
      → launch_previous content_hash i ready e p s o ≡ (s', ok id)
      → Runs s' id
  unfolding launch_previous
  launch_previous-Runs e p id s s' h (d, err x) f r l = absurd cc
  launch_previous-Runs e p id s s' h (d, ok slots) f r l =
      let (there, named) = rollback-current content_hash s.disk d h.slots slots p h.parsed f r in
      let g : IsSound content_hash d =
        subst (λ (x : Disk × Result TrustError Slots). IsSound content_hash x.0) r
          (Follows-rollback content_hash s.disk h).sound in
      let same : g.slots ≡ slots = ok-injective g.slots slots (sym g.parsed ∙ there) in
      launch-Runs (record s { disk = d }) s' p id g (ap (λ (x : Slots). x.current) same ∙ named)
        (after_rollback-ok e (launch content_hash i ready (record s { disk = d }) p) s' id l)

  or_previous-Runs :
      (previous : Option Text) (id : Text) (s s' : Supervisor) (h : IsSound content_hash s.disk)
      (o : Result StartError Text)
      → h.slots.previous ≡ previous
      → ((id' : Text) → o ≡ ok id' → Runs s id')
      → or_previous content_hash i ready previous (s, o) ≡ (s', ok id)
      → Runs s' id
  unfolding or_previous
  or_previous-Runs previous id s s' h (ok id') f runs l =
      let named = ok-injective id' id (ap (λ (x : Supervisor × Result StartError Text). x.1) l) in
      subst (λ (x : Supervisor). Runs x id)
        (ap (λ (x : Supervisor × Result StartError Text). x.0) l) (runs id (ap ok named))
  or_previous-Runs none id s s' h (err e) f runs l = absurd cc
  or_previous-Runs (some p) id s s' h (err e) f runs l =
      launch_previous-Runs e p id s s' h (rollback content_hash s.disk) f refl l

  -- If a start from a sound disk succeeds, also by way of a rollback, then the disk is sound, its
  -- current slot names the record that is answered, that record resolves to a directory of the
  -- right hash, and its child runs and was ready.
  pub start_with_rollback_now-Runs :
      (s s' : Supervisor) (id : Text) (h : IsSound content_hash s.disk)
      → start_with_rollback_now content_hash i ready s ≡ (s', ok id)
      → Runs s' id
  unfolding start_with_rollback_now
  start_with_rollback_now-Runs s s' id h l = elim (Option-cases h.slots.current) [
    | inl empty ↦ absurd (cc (rw (start_with_rollback_now, h.parsed, empty) at l))
    | inr (c, e) ↦
        let o = launch content_hash i ready s c in
        let run : or_previous content_hash i ready h.slots.previous o ≡ (s', ok id) =
          rw (start_with_rollback_now, h.parsed, e) at l in
        let kept : s.disk ≡ o.0.disk = sym (launch-disk s c) in
        let g = moved s.disk o.0.disk h kept in
        or_previous-Runs h.slots.previous id o.0 s' g.0 o.1 g.1
          (λ id' x. launch-Runs s o.0 c id' h e (ap (λ (y : Result StartError Text). (o.0, y)) x))
          run
  ]

  resolve_record-slots :
      (d : Disk) (s : Option Slots) (id : Text)
      → resolve_record content_hash i (record d { slots = s }) id
        ≡ resolve_record content_hash i d id
  unfolding resolve_record read_record place_of
  resolve_record-slots d s id = refl

  launch-ready :
      (s : Supervisor) (id : Text) (r : BootstrapRecord) (a : Asset)
      → resolve_record content_hash i s.disk id ≡ ok (r, a)
      → ready r ≡ true
      → launch content_hash i ready s id ≡ (
        record s {
          spawned = s.spawned + 1;
          child = some (record { number = s.spawned; record_id = id });
        },
        ok id,
      )
  unfolding launch
  launch-ready s id r a good quick = rw (launch, good, quick) refl

  start_failed :
      (s s' : Supervisor) (c : Text) (e : StartError) (h : IsSound content_hash s.disk)
      → h.slots.current ≡ some c
      → launch content_hash i ready s c ≡ (s', err e)
      → start_with_rollback_now content_hash i ready s
        ≡ or_previous content_hash i ready h.slots.previous (s', err e)
  unfolding start_with_rollback_now
  start_failed s s' c e h f l = rw (start_with_rollback_now, h.parsed, f, l) refl

  -- On a sound disk with both slots filled and a generation that can be raised, if the launch of
  -- the current record fails for whatever reason and the previous record resolves and its child
  -- becomes ready, the start succeeds: the slots are swapped, and the child of the previous record
  -- runs.
  pub start_with_rollback_now-previous :
      (s s' : Supervisor) (c p : Text) (e : StartError) (r : BootstrapRecord) (a : Asset)
      (h : IsSound content_hash s.disk)
      → h.slots.current ≡ some c
      → h.slots.previous ≡ some p
      → h.slots.generation + 1 < 2 ^ 53
      → launch content_hash i ready s c ≡ (s', err e)
      → resolve_record content_hash i s.disk p ≡ ok (r, a)
      → ready r ≡ true
      → start_with_rollback_now content_hash i ready s ≡ (
        record s' {
          disk = record s.disk {
            slots = some (record {
              generation = h.slots.generation + 1;
              current = some p;
              previous = some c;
            });
          };
          spawned = s'.spawned + 1;
          child = some (record { number = s'.spawned; record_id = p });
        },
        ok p,
      )
  unfolding or_previous launch_previous after_rollback
  start_with_rollback_now-previous s s' c p e r a h f g small l good quick =
      let kept : s'.disk ≡ s.disk =
        sym (ap (λ (o : Supervisor × Result StartError Text). o.0.disk) l) ∙ launch-disk s c in
      let slots : Slots = record {
        generation = h.slots.generation + 1;
        current = some p;
        previous = some c;
      } in
      let d : Disk = record s.disk { slots = some slots } in
      let swap : rollback content_hash s'.disk ≡ (d, ok slots) =
        ap (rollback content_hash) kept ∙ rollback_lem content_hash s.disk h c p f g small ∙ (λ j. (
          record s.disk {
            slots =
                some
                  (record { generation = h.slots.generation + 1; current = g j; previous = f j });
          },
          ok (record { generation = h.slots.generation + 1; current = g j; previous = f j }),
        )) in
      start_failed s s' c e h f l
      ∙ ap (λ (q : Option Text). or_previous content_hash i ready q (s', err e)) g
      ∙ ap (launch_previous content_hash i ready e p s') swap
      ∙ ap (after_rollback content_hash i ready e) (
          launch-ready (record s' { disk = d }) p r a
            (resolve_record-slots s.disk (some slots) p ∙ good) quick)
