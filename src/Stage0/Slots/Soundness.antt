-- ===== src/Stage0/Slots/Soundness.antt =====
-- Every slot of slots.mjs names a record that can be read, whatever is done in whatever order.
use dsh_docker.Prelude.{◌+◌, ◌≤◌, ◌≡◌, refl, sym, ap, ◌∙◌, ◌⊎◌, inl, inr, Option, none, some, arith}
use dsh_docker.Prelude.Tests.{Bool-cases}
use dsh_docker.Prelude.Text.{Text, text_eq}
use dsh_docker.Prelude.Map.{get}
use dsh_docker.Prelude.Result.{ok, err, Result-cases}
use dsh_docker.Platform.Contracts.{
  Content, BootstrapRecord, Slots, TrustError, parse_slots, record_prefix,
}
use dsh_docker.Stage0.Slots.Disk.{Disk, state, commit, other_than, read_record}

-- The outcome of parsing slots is the slots.
pub parse_slots-ok : (s t : Slots) (prefix : Text) → parse_slots s prefix ≡ ok t → s ≡ t
unfolding parse_slots
parse_slots-ok s t prefix h = ground arith

-- A commit leaves the disk, or writes the slots it is told of with the next generation.
pub commit-cases :
    (d : Disk) (current : Text) (previous : Option Text) (s : Slots)
    → state d ≡ ok s
    → let written : Slots = record {
      generation = s.generation + 1;
      current = some current;
      previous = other_than current previous;
    } in
      ((e : TrustError) × (commit d current previous ≡ (d, err e)))
      ⊎ ((commit d current previous ≡ (record d { slots = some written }, ok written))
          × (state (record d { slots = some written }) ≡ ok written))
unfolding commit state
commit-cases d current previous s h =
    let written : Slots = record {
      generation = s.generation + 1;
      current = some current;
      previous = other_than current previous;
    } in
    elim (Result-cases (parse_slots written record_prefix)) [
      | inl (e, bad) ↦ inl (e, rw (h, commit, bad) refl)
      | inr (t, good) ↦
          let same = parse_slots-ok written t record_prefix good in
          inr (
            rw (h, commit, good)
                (ap (λ (w : Slots). (record d { slots = some w }, ok w)) (sym same)),
            good ∙ ap ok (sym same),
          )
    ]

module _ (content_hash : Content → Text) where
  -- No slot, or the slot of a record that can be read.
  abbrev pub Readable : Disk → Option Text → Type 0
  Readable d none = Unit {0}
  Readable d (some id) = (r : BootstrapRecord) × (read_record content_hash d id ≡ ok r)

  -- Each record lies under its identifier.
  abbrev pub IsKeyed : Disk → Type 0
  IsKeyed d = (id : Text) (r : BootstrapRecord) → get id d.records ≡ some r → r.id ≡ id

  pub record IsSound (d : Disk) : Type 0 where
    pub slots : Slots
    pub parsed : state d ≡ ok slots
    pub current : Readable d slots.current
    pub previous : Readable d slots.previous
    pub keyed : IsKeyed d

  Readable-other_than :
      (d : Disk) (current : Text) (previous : Option Text)
      → Readable d previous
      → Readable d (other_than current previous)
  unfolding other_than
  Readable-other_than d current none h = tt
  Readable-other_than d current (some p) h = elim (Bool-cases (text_eq current p)) [
    | inl same ↦ rw same tt
    | inr other ↦ rw other h
  ]

  -- A sound disk that follows another, with no lower generation.
  pub record Follows (d d' : Disk) (h : IsSound d) : Type 0 where
    pub sound : IsSound d'
    pub later : h.slots.generation ≤ sound.slots.generation

  pub Follows-refl : (d : Disk) (h : IsSound d) → Follows d d h
  Follows-refl d h = record { sound = h; later = omega arith }

  pub Follows-trans :
      (d d' d'' : Disk) (h : IsSound d) (f : Follows d d' h)
      → Follows d' d'' f.sound
      → Follows d d'' h
  Follows-trans d d' d'' h f g = record { sound = g.sound; later = omega (arith, f.later, g.later) }

  -- A commit between readable records keeps a disk sound.
  pub Follows-commit :
      (d : Disk) (current : Text) (previous : Option Text) (h : IsSound d)
      → Readable d (some current)
      → Readable d previous
      → Follows d (commit d current previous).0 h
  unfolding read_record
  Follows-commit d current previous h c p =
      elim (commit-cases d current previous h.slots h.parsed) [
        | inl (e, same) ↦ rw same (Follows-refl d h)
        | inr (changed, parsed) ↦ rw changed (record {
          sound = record {
            slots = _;
            parsed = parsed;
            current = c;
            previous = Readable-other_than d current previous p;
            keyed = h.keyed;
          };
          later = omega arith;
        })
      ]
