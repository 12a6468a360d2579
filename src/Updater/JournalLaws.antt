-- ===== src/Updater/JournalLaws.antt =====
-- The transactions of journal.mjs come to an end and keep their identity.
use dsh_docker.Prelude.{
  ℕ, suc, ◌+◌, ◌≤◌, ◌<◌, ◌≡◌, refl, sym, ap, ◌∙◌, inl, inr, List, [], ◌∷◌, some, Bool, true, false,
  ◌&&◌, arith,
}
use dsh_docker.Prelude.Text.{Text, text_eq, text_eq_sound}
use dsh_docker.Prelude.Result.{ok, err, Result-cases, guard, ◌>>◌}
use dsh_docker.Platform.Contracts.{TrustError}
use dsh_docker.Updater.Journal.{
  Phase, planning, candidate_ready, suspended, snapshot_created, switched, probation, committed,
  restoring_data, rolled_back, failed, may_follow, Mode, stable, experimental, same_mode, Journal,
  Fields, changed, parse_journal, read, transition,
}

-- How many transitions may still follow.
abbrev pub rank : Phase → ℕ
rank planning = 8
rank candidate_ready = 7
rank suspended = 6
rank snapshot_created = 5
rank switched = 4
rank probation = 3
rank committed = 2
rank restoring_data = 1
rank rolled_back = 0
rank failed = 0

may_follow-rank : (p q : Phase) → may_follow p q ≡ true → rank q < rank p
unfolding may_follow
may_follow-rank planning candidate_ready h = omega arith
may_follow-rank planning failed h = omega arith
may_follow-rank candidate_ready suspended h = omega arith
may_follow-rank candidate_ready failed h = omega arith
may_follow-rank suspended snapshot_created h = omega arith
may_follow-rank suspended failed h = omega arith
may_follow-rank snapshot_created switched h = omega arith
may_follow-rank snapshot_created restoring_data h = omega arith
may_follow-rank snapshot_created failed h = omega arith
may_follow-rank switched probation h = omega arith
may_follow-rank switched restoring_data h = omega arith
may_follow-rank probation committed h = omega arith
may_follow-rank probation restoring_data h = omega arith
may_follow-rank restoring_data rolled_back h = omega arith
may_follow-rank restoring_data failed h = omega arith
may_follow-rank committed restoring_data h = omega arith
may_follow-rank _ _ h = cc

same_mode_sound : (a b : Mode) → same_mode a b ≡ true → a ≡ b
same_mode_sound stable stable h = refl
same_mode_sound experimental experimental h = refl
same_mode_sound _ _ h = cc

guarded :
    (b c : Bool) (e e' : TrustError) (n k : Journal)
    → (guard b e >> (guard c e' >> ok n)) ≡ ok k
    → (b ≡ true) × (c ≡ true) × (n ≡ k)
guarded true true e e' n k h = (refl, refl, ground arith)
guarded true false e e' n k h = cc
guarded false c e e' n k h = cc

and-both : (b c : Bool) → (b && c) ≡ true → (b ≡ true) × (c ≡ true)
and-both true c h = (refl, h)
and-both false c h = cc

pub record Change : Type 0 where
  pub phase : Phase
  pub fields : Fields
  pub now : Text

module _ (is_timestamp : Text → Bool) where
  parse_journal-ok : (j k : Journal) → parse_journal is_timestamp j ≡ ok k → j ≡ k
  unfolding parse_journal
  parse_journal-ok j k h = ground arith

  -- What a transition that is accepted does.
  record Moved (j k : Journal) : Type 0 where
    pub lower : rank k.phase < rank j.phase
    pub same_id : k.transaction_id ≡ j.transaction_id
    pub mode_kept : k.mode ≡ j.mode

  -- The tests that an accepted transition has passed.
  record Passed (j k : Journal) (phase : Phase) : Type 0 where
    pub follows : may_follow j.phase phase ≡ true
    pub phase_set : k.phase ≡ phase
    pub id_test : text_eq k.transaction_id j.transaction_id ≡ true
    pub mode_test : same_mode k.mode j.mode ≡ true

  Passed-parsed :
      (j k : Journal) (phase : Phase) (f : Fields) (now : Text)
      → transition is_timestamp (some j) phase f now ≡ ok k
      → parse_journal is_timestamp j ≡ ok j
      → parse_journal is_timestamp (changed is_timestamp j phase f now)
        ≡ ok (changed is_timestamp j phase f now)
      → Passed j k phase
  unfolding transition read
  Passed-parsed j k phase f now h good parsed =
      let next = changed is_timestamp j phase f now in
      let (follows, tests, same) =
        guarded (may_follow j.phase phase)
          (text_eq next.transaction_id j.transaction_id && same_mode next.mode j.mode) _ _ next k
          (rw (good, parsed, transition, read) at h) in
      let both =
        and-both (text_eq next.transaction_id j.transaction_id) (same_mode next.mode j.mode)
          tests in
      record {
        follows = follows;
        phase_set = sym (ap (λ (x : Journal). x.phase) same);
        id_test = rw (sym same) both.0;
        mode_test = rw (sym same) both.1;
      }

  transition-Passed :
      (j k : Journal) (phase : Phase) (f : Fields) (now : Text)
      → transition is_timestamp (some j) phase f now ≡ ok k
      → Passed j k phase
  unfolding transition read
  transition-Passed j k phase f now h = elim (Result-cases (parse_journal is_timestamp j)) [
    | inl (e, bad) ↦ cc (rw (bad, transition, read) at h)
    | inr (j', good) ↦
        let same = parse_journal-ok j j' good in
        let good' : parse_journal is_timestamp j ≡ ok j = good ∙ ap ok (sym same) in
        let next = changed is_timestamp j phase f now in
        elim (Result-cases (parse_journal is_timestamp next)) [
          | inl (e, bad) ↦ ground arith
          | inr (n, parsed) ↦
              Passed-parsed j k phase f now h good'
                (parsed ∙ ap ok (sym (parse_journal-ok next n parsed)))
        ]
  ]

  transition-Moved :
      (j k : Journal) (phase : Phase) (f : Fields) (now : Text)
      → transition is_timestamp (some j) phase f now ≡ ok k
      → Moved j k
  transition-Moved j k phase f now h =
      let p = transition-Passed j k phase f now h in
      record {
        lower = rw p.phase_set (may_follow-rank j.phase phase p.follows);
        same_id = text_eq_sound k.transaction_id j.transaction_id p.id_test;
        mode_kept = same_mode_sound k.mode j.mode p.mode_test;
      }

  -- The journal behind a sequence of transitions, where one that is refused leaves it, and how many
  -- of them were accepted.
  unfoldable pub follow : Journal → List Change → Journal × ℕ
  unfolding transition
  follow j [] = (j, 0)
  follow j (c ∷ cs) = elim (transition is_timestamp (some j) c.phase c.fields c.now) [
    | err e ↦ follow j cs
    | ok k ↦ let (last, n) = follow k cs in (last, suc n)
  ]

  -- Whatever transitions are tried on a journal, each that is refused leaving it, no more are
  -- accepted than its phase has left, which is at most eight, less what the last phase has left;
  -- and the transaction and its mode stay.
  pub follow-rank :
      (j : Journal) (cs : List Change)
      → let (last, n) = follow j cs in
        (n + rank last.phase ≤ rank j.phase)
        × (last.transaction_id ≡ j.transaction_id)
        × (last.mode ≡ j.mode)
  unfolding follow
  follow-rank j [] = (omega arith, refl, refl)
  follow-rank j (c ∷ cs) =
      elim (Result-cases (transition is_timestamp (some j) c.phase c.fields c.now)) [
        | inl (e, bad) ↦ rw (bad, follow) (follow-rank j cs)
        | inr (k, good) ↦
            let moved = transition-Moved j k c.phase c.fields c.now good in
            let (bound, ids, modes) = follow-rank k cs in
            rw (good, follow)
              (omega (arith, moved.lower, bound), ids ∙ moved.same_id, modes ∙ moved.mode_kept)
      ]
