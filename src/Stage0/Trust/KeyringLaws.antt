-- ===== src/Stage0/Trust/KeyringLaws.antt =====
-- What the keyring that was accepted says, of keyring.mjs and of acceptKeyring in ledger.mjs.
use mathlib.Core.Path.{subst}
use dsh_docker.Prelude.{
  ℕ, ◌≤◌, ◌≡◌, ◌≢◌, refl, sym, ap, ◌⊎◌, inl, inr, List, [], ◌∷◌, Option, none, some, true, arith,
}
use dsh_docker.Prelude.Tests.{◌==◌, Bool-cases, Option-cases}
use dsh_docker.Prelude.Text.{Text, text_eq, text_eq_sound}
use dsh_docker.Prelude.Result.{ok, Result-cases, bind-ok, guard-ok}
use dsh_docker.Platform.Values.{Value, includes}
use dsh_docker.Platform.Node.{Node}
use dsh_docker.Stage0.Trust.Signature.{verify_detached}
use dsh_docker.Stage0.Trust.Keyring.{
  Keyring, verify_recovery_keyring, all_revoked, validate_keyring_transition,
}
use dsh_docker.Stage0.Trust.KeyringParse.{parse_keyring-active}
use dsh_docker.Stage0.Trust.Ledger.{
  Signed, Ledger, get_generation, parse_keyring_record, current_keyring, record_generation,
  replace_keyring, follow_keyring, accept_keyring,
}

all_revoked-includes :
    (ids later : List Text) (id : Text)
    → all_revoked ids later ≡ true
    → includes ids id ≡ true
    → includes later id ≡ true
unfolding all_revoked includes
all_revoked-includes [] later id h r = cc
all_revoked-includes (x ∷ ids) later id h r = elim (Bool-cases (text_eq x id)) [
  | inl same ↦
      let equal : x ≡ id = text_eq_sound x id same in
      let there : includes later x ≡ true = ground arith in
      subst (λ (t : Text). includes later t ≡ true) equal there
  | inr other ↦ all_revoked-includes ids later id (ground arith) (ground arith)
]

-- A keyring that revokes at least what another does, and is not older.
pub record IsAfter (k k' : Keyring) : Type 0 where
  pub generation : k.generation ≤ k'.generation
  pub revoked : (id : Text) → includes k.revoked id ≡ true → includes k'.revoked id ≡ true

pub IsAfter-refl : (k : Keyring) → IsAfter k k
IsAfter-refl k = record { generation = omega arith; revoked = λ id r. r }

pub IsAfter-trans : (k l m : Keyring) → IsAfter k l → IsAfter l m → IsAfter k m
IsAfter-trans k l m p q =
    let a = p.generation in
    let b = q.generation in
    record { generation = omega arith; revoked = λ id r. q.revoked id (p.revoked id r) }

validate_keyring_transition-IsAfter :
    (previous later k : Keyring)
    → validate_keyring_transition previous later ≡ ok k
    → IsAfter previous later
unfolding validate_keyring_transition
validate_keyring_transition-IsAfter previous later k h =
    let all : all_revoked previous.revoked later.revoked ≡ true = ground arith in
    record {
      generation = ground arith;
      revoked = λ id. all_revoked-includes previous.revoked later.revoked id all;
    }

module _ (node : Node) (rk : Text) where
  pub parse_keyring_record-active :
      (s : Signed) (k : Keyring) (id : Text)
      → parse_keyring_record node rk s ≡ ok k
      → includes k.revoked id ≡ true
      → (k.current.key_id ≢ id) × (k.next.key_id ≢ id)
  unfolding parse_keyring_record verify_recovery_keyring
  parse_keyring_record-active s k id h r =
      let (who, (signed, e)) = bind-ok (verify_detached node s.document s.signature rk) _ k h in
      parse_keyring-active node s.document k id e r

  -- The keyring that the ledger trusts.
  pub record Trusts (l : Ledger) (k : Keyring) : Type 0 where
    pub file : Signed
    pub stored : l.keyring ≡ some file
    pub parsed : parse_keyring_record node rk file ≡ ok k

  pub Trusts-unique : (l : Ledger) (k k' : Keyring) → Trusts l k → Trusts l k' → k ≡ k'
  Trusts-unique l k k' t t' =
      let a = t.stored in
      let b = t'.stored in
      let c = t.parsed in let d = t'.parsed in let same : t.file ≡ t'.file = cc in cc

  -- The outcome of a keyring that is accepted.
  pub record Accepted (l l' : Ledger) (k : Keyring) : Type 0 where
    pub trusted : Trusts l' k
    pub after : (k' : Keyring) → Trusts l k' → IsAfter k' k
    pub history :
        (g : ℕ) (s : Signed)
        → get_generation l.generations g ≡ some s
        → get_generation l'.generations g ≡ some s
    pub target : l'.target ≡ l.target
    pub official : l'.official ≡ l.official

  Accepted-refl : (l : Ledger) (k : Keyring) → Trusts l k → Accepted l l k
  Accepted-refl l k t = record {
    trusted = t;
    after = λ k' t'. rw (Trusts-unique l k' k t' t) (IsAfter-refl k);
    history = λ g s there. there;
    target = refl;
    official = refl;
  }

  -- Only a generation that has no file yet gets one.
  record_generation-cases :
      (l l' : Ledger) (s : Signed) (k : Keyring)
      → record_generation node rk l s k ≡ ok l'
      → (l ≡ l')
        ⊎ ((get_generation l.generations k.generation ≡ none)
            × (record l { generations = (k.generation, s) ∷ l.generations } ≡ l'))
  unfolding record_generation
  record_generation-cases l l' s k h =
      elim (Option-cases (get_generation l.generations k.generation)) [
        | inl absent ↦ inr (absent, ground arith)
        | inr (old, present) ↦ elim (Result-cases (parse_keyring_record node rk old)) [
          | inl (e, bad) ↦ absurd (cc (rw (record_generation, present, bad) at h))
          | inr (o, good) ↦ inl (ground arith)
        ]
      ]

  get_generation-added :
      (gs : List (ℕ × Signed)) (n g : ℕ) (s t : Signed)
      → get_generation gs n ≡ none
      → get_generation gs g ≡ some t
      → get_generation ((n, s) ∷ gs) g ≡ some t
  unfolding get_generation
  get_generation-added gs n g s t absent there = elim (Bool-cases (n == g)) [
    | inl same ↦ let e : n ≡ g = ground arith in absurd (cc (e, absent, there))
    | inr other ↦ rw other there
  ]

  replace_keyring-Accepted :
      (l l' : Ledger) (s : Signed) (k k' : Keyring)
      → parse_keyring_record node rk s ≡ ok k
      → ((p : Keyring) → Trusts l p → IsAfter p k)
      → replace_keyring node rk l s k ≡ ok (l', k')
      → Accepted l l' k'
  unfolding replace_keyring
  replace_keyring-Accepted l l' s k k' good after h =
      let (m, (made, h1)) = bind-ok (record_generation node rk l s k) _ (l', k') h in
      let e : record m { keyring = some s } ≡ l' = ground arith in
      let named : k ≡ k' = ground arith in
      subst (λ (x : Ledger). Accepted l x k') e
        (subst (λ (x : Keyring). Accepted l (record m { keyring = some s }) x) named
          (elim (record_generation-cases l m s k made) [
            | inl same ↦ record {
              trusted = record { file = s; stored = refl; parsed = good };
              after = after;
              history = λ g t there. rw (sym same) there;
              target = sym (ap (λ (x : Ledger). x.target) same);
              official = sym (ap (λ (x : Ledger). x.official) same);
            }
            | inr (absent, same) ↦ record {
              trusted = record { file = s; stored = refl; parsed = good };
              after = after;
              history = λ g t there.
                  rw (sym same)
                    (get_generation-added l.generations k.generation g s t absent there);
              target = sym (ap (λ (x : Ledger). x.target) same);
              official = sym (ap (λ (x : Ledger). x.official) same);
            }
          ]))

  pub current_keyring-none : (l : Ledger) → current_keyring node rk l ≡ ok none → l.keyring ≡ none
  unfolding current_keyring
  current_keyring-none l h = elim (Option-cases l.keyring) [
    | inl fresh ↦ fresh
    | inr (s, stored) ↦
        let (k, (good, e)) = bind-ok (parse_keyring_record node rk s) _ none (rw stored at h) in
        absurd (cc e)
  ]

  pub current_keyring-some :
      (l : Ledger) (s : Signed) (k : Keyring)
      → current_keyring node rk l ≡ ok (some (s, k))
      → Trusts l k
  unfolding current_keyring
  current_keyring-some l s k h = elim (Option-cases l.keyring) [
    | inl fresh ↦ absurd (cc (rw fresh at h))
    | inr (s', stored) ↦
        let (k', (good, e)) =
          bind-ok (parse_keyring_record node rk s') _ (some (s, k)) (rw stored at h) in
        let same : k' ≡ k = cc in record { file = s'; stored = stored; parsed = rw (sym same) good }
  ]

  follow_keyring-Accepted :
      (l l' : Ledger) (s : Signed) (next k : Keyring) (current : Option (Signed × Keyring))
      → parse_keyring_record node rk s ≡ ok next
      → current_keyring node rk l ≡ ok current
      → follow_keyring node rk l s next current ≡ ok (l', k)
      → Accepted l l' k
  unfolding follow_keyring
  follow_keyring-Accepted l l' s next k none good found h =
      replace_keyring-Accepted l l' s next k good
        (λ p t. absurd (cc (current_keyring-none l found, t.stored))) h
  follow_keyring-Accepted l l' s next k (some (old, p)) good found h =
      elim (Bool-cases (next.generation == p.generation)) [
        | inl same ↦
            let (bytes, e) =
              guard-ok (text_eq old.document s.document) _ (ok (l, p)) (l', k) (rw same at h) in
            let stays : l ≡ l' = ground arith in
            let named : p ≡ k = ground arith in
            let t : Trusts l p = current_keyring-some l old p found in
            subst (λ (x : Ledger). Accepted l x k) stays
              (subst (λ (x : Keyring). Accepted l l x) named (Accepted-refl l p t))
        | inr later ↦
            let (v, (valid, e)) =
              bind-ok (validate_keyring_transition p next) _ (l', k) (rw later at h) in
            replace_keyring-Accepted l l' s next k good
              (λ q t.
                rw (Trusts-unique l q p t (current_keyring-some l old p found))
                  (validate_keyring_transition-IsAfter p next v valid))
              e
      ]

  -- A keyring that is accepted is trusted from then on, comes after the one before it, and changes
  -- neither the history nor the other files.
  pub accept_keyring-Accepted :
      (l l' : Ledger) (bytes : Text) (signature : Value) (k : Keyring)
      → accept_keyring node rk l bytes signature ≡ ok (l', k)
      → Accepted l l' k
  unfolding accept_keyring parse_keyring_record current_keyring
  accept_keyring-Accepted l l' bytes signature k h =
      let (next, (verified, h1)) =
        bind-ok (verify_recovery_keyring node bytes signature rk) _ (l', k) h in
      let (current, (found, h2)) = bind-ok (current_keyring node rk l) _ (l', k) h1 in
      follow_keyring-Accepted l l' _ next k current verified found h2
