-- ===== src/Stage0/Slots/Recovery.antt =====
-- Going back in slots.mjs.
use dsh_docker.Prelude.{
  ◌+◌, ◌^◌, ◌<◌, ◌≡◌, sym, ap, ◌∙◌, inl, inr, Option, none, some, true, false, arith,
}
use dsh_docker.Prelude.Tests.{Bool-cases, Option-cases}
use dsh_docker.Prelude.Text.{Text, text_eq, text_eq_iff, text_eq_sound}
use dsh_docker.Prelude.Result.{Result, ok}
use dsh_docker.Platform.Contracts.{
  Content, Slots, TrustError, parse_slots, parse_id, has_prefix, differs, is_identifier,
  record_prefix,
}
use dsh_docker.Stage0.Slots.Disk.{Disk, state, commit, other_than, read_record}
use dsh_docker.Stage0.Slots.Operations.{rollback}
use dsh_docker.Stage0.Slots.Soundness.{Readable, IsSound, parse_slots-ok}
use dsh_docker.Stage0.Slots.Steps.{slot_record}

state-parsed :
    (d : Disk) (s : Slots) (c : Text)
    → state d ≡ ok s
    → s.current ≡ some c
    → parse_slots s record_prefix ≡ ok s
unfolding state parse_slots
state-parsed d s c h e = elim (Option-cases d.slots) [
  | inl empty ↦ cc (rw (empty, state) at h, e)
  | inr (t, there) ↦
      let parsed : parse_slots t record_prefix ≡ ok s = rw (there, state) at h in
      ap (λ (w : Slots). parse_slots w record_prefix)
        (sym (parse_slots-ok t s record_prefix parsed))
      ∙ parsed
]

abbrev swapped : Slots → Slots
swapped s = record { generation = s.generation + 1; current = s.previous; previous = s.current }

-- What the parser has tested of two slots.
record Tested (c p prefix : Text) : Type 0 where
  pub first : is_identifier c ≡ true
  pub second : is_identifier p ≡ true
  pub first_prefix : has_prefix prefix (some c) ≡ true
  pub second_prefix : has_prefix prefix (some p) ≡ true
  pub apart : text_eq c p ≡ false

parse_slots-Tested :
    (s : Slots) (c p prefix : Text)
    → parse_slots s prefix ≡ ok s
    → s.current ≡ some c
    → s.previous ≡ some p
    → Tested c p prefix
unfolding parse_slots parse_id differs
parse_slots-Tested s c p prefix h e f = record {
  first = ground arith;
  second = ground arith;
  first_prefix = ground arith;
  second_prefix = ground arith;
  apart = ground arith;
}

text_eq-false : (c p : Text) → text_eq c p ≡ false → text_eq p c ≡ false
text_eq-false c p h = elim (Bool-cases (text_eq p c)) [
  | inr other ↦ other
  | inl same ↦ let equal = text_eq_sound p c same in cc (h, (text_eq_iff c p).1 (sym equal))
]

parse_slots-swapped :
    (s : Slots) (c p prefix : Text)
    → Tested c p prefix
    → s.current ≡ some c
    → s.previous ≡ some p
    → s.generation + 1 < 2 ^ 53
    → parse_slots (swapped s) prefix ≡ ok (swapped s)
unfolding parse_slots parse_id differs
parse_slots-swapped s c p prefix t e f small =
    let a = t.first in
    let b = t.second in
    let x = t.first_prefix in
    let y = t.second_prefix in let z = text_eq-false c p t.apart in ground arith

commit-parsed :
    (d : Disk) (current : Text) (previous : Option Text) (s w : Slots)
    → state d ≡ ok s
    → w ≡ (record {
      generation = s.generation + 1;
      current = some current;
      previous = other_than current previous;
    })
    → parse_slots w record_prefix ≡ ok w
    → commit d current previous ≡ (record d { slots = some w }, ok w)
unfolding commit
commit-parsed d current previous s w h e good =
    let written : Slots = record {
      generation = s.generation + 1;
      current = some current;
      previous = other_than current previous;
    } in
    let parsed : parse_slots written record_prefix ≡ ok w =
      ap (λ (v : Slots). parse_slots v record_prefix) (sym e) ∙ good in
    rw (h, parsed, commit)

other_than-apart : (p c : Text) → text_eq p c ≡ false → other_than p (some c) ≡ some c
unfolding other_than
other_than-apart p c h = rw h

module _ (content_hash : Content → Text) where
  rollback-swapped :
      (d : Disk) (s : Slots) (c p : Text)
      → state d ≡ ok s
      → Readable content_hash d (some p)
      → s.current ≡ some c
      → s.previous ≡ some p
      → s.generation + 1 < 2 ^ 53
      → (rollback content_hash d ≡ (record d { slots = some (swapped s) }, ok (swapped s)))
        × (parse_slots (swapped s) record_prefix ≡ ok (swapped s))
  unfolding rollback
  rollback-swapped d s c p parsed (r, known) e f small =
      let t = parse_slots-Tested s c p record_prefix (state-parsed d s c parsed e) e f in
      let good = parse_slots-swapped s c p record_prefix t e f small in
      let other : other_than p (some c) ≡ some c =
        other_than-apart p c (text_eq-false c p t.apart) in
      let same : swapped s ≡ (record {
        generation = s.generation + 1;
        current = some p;
        previous = other_than p s.current;
      }) =
        λ i. record {
          generation = s.generation + 1;
          current = f i;
          previous = (e ∙ sym other ∙ ap (other_than p) (sym e)) i;
        } in
      let committed = commit-parsed d p s.current s (swapped s) parsed same good in
      (ground arith, good)

  -- Going back swaps the slots of a sound disk and raises the generation.
  pub rollback_lem :
      (d : Disk) (h : IsSound content_hash d) (c p : Text)
      → h.slots.current ≡ some c
      → h.slots.previous ≡ some p
      → h.slots.generation + 1 < 2 ^ 53
      → rollback content_hash d ≡ (
        record d {
          slots = some (record {
            generation = h.slots.generation + 1;
            current = h.slots.previous;
            previous = h.slots.current;
          });
        },
        ok (record {
          generation = h.slots.generation + 1;
          current = h.slots.previous;
          previous = h.slots.current;
        }),
      )
  rollback_lem d h c p e f small =
      let there = slot_record content_hash d h.slots.previous p f h.previous in
      (rollback-swapped d h.slots c p h.parsed there e f small).0

  Readable-slots :
      (d : Disk) (s : Option Slots) (o : Option Text)
      → Readable content_hash d o
      → Readable content_hash (record d { slots = s }) o
  unfolding read_record
  Readable-slots d s none h = tt
  Readable-slots d s (some id) h = h

  -- On a sound disk with both slots filled and a generation that can be raised by two, going back
  -- twice succeeds and gives the same two slots with the generation raised by two.
  pub rollback_twice :
      (d : Disk) (h : IsSound content_hash d) (c p : Text)
      → h.slots.current ≡ some c
      → h.slots.previous ≡ some p
      → h.slots.generation + 2 < 2 ^ 53
      → (rollback content_hash (rollback content_hash d).0).1
        ≡ ok (record h.slots { generation = h.slots.generation + 2 })
  unfolding state
  rollback_twice d h c p e f small =
      let d' = record d { slots = some (swapped h.slots) } in
      let there = slot_record content_hash d h.slots.previous p f h.previous in
      let back = slot_record content_hash d h.slots.current c e h.current in
      let first = rollback-swapped d h.slots c p h.parsed there e f (omega arith) in
      let second =
        rollback-swapped d' (swapped h.slots) p c first.1
          (Readable-slots d (some (swapped h.slots)) (some c) back) f e (omega arith) in
      let generations : h.slots.generation + 1 + 1 ≡ h.slots.generation + 2 = omega arith in
      rw first.0 (
        ap (λ (o : Disk × Result TrustError Slots). o.1) second.0
        ∙ (λ i. ok (record h.slots { generation = generations i })))
