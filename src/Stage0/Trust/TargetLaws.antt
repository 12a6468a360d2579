-- ===== src/Stage0/Trust/TargetLaws.antt =====
-- What the release target that was accepted says, of acceptTarget in ledger.mjs.
use mathlib.Core.Path.{subst}
use dsh_docker.Prelude.{◌≤◌, ◌≡◌, refl, sym, ap, inl, inr, Option, none, some, arith}
use dsh_docker.Prelude.Tests.{◌==◌, Bool-cases, Option-cases, ==_iff}
use dsh_docker.Prelude.Text.{Text, text_eq, text_eq_sound}
use dsh_docker.Prelude.Result.{Result, ok, bind-ok, guard-ok}
use dsh_docker.Platform.Contracts.{TrustError}
use dsh_docker.Platform.Values.{Value}
use dsh_docker.Platform.Node.{Node}
use dsh_docker.Platform.Stable.{Stable, parse_stable}
use dsh_docker.Stage0.Trust.Signature.{verify_detached}
use dsh_docker.Stage0.Trust.Keyring.{Keyring}
use dsh_docker.Stage0.Trust.Target.{Target, verify_release_target, validate_target_transition}
use dsh_docker.Stage0.Trust.Ledger.{
  Signed, Ledger, current_keyring, trusted_keyring, current_target, follow_target, accept_target,
}
use dsh_docker.Stage0.Trust.KeyringLaws.{Trusts, current_keyring-some}

module _ (node : Node) (rk : Text) where
  -- The release target whose document the ledger holds.
  pub record Aims (l : Ledger) (t : Stable) : Type 0 where
    pub file : Signed
    pub stored : l.target ≡ some file
    pub parsed : parse_stable node file.document ≡ ok t

  pub Aims-unique : (l : Ledger) (t t' : Stable) → Aims l t → Aims l t' → t ≡ t'
  Aims-unique l t t' a a' =
      let p = a.stored in
      let q = a'.stored in
      let r = a.parsed in let s = a'.parsed in let same : a.file ≡ a'.file = cc in cc

  -- The document is signed by the key of the keyring, and of its generation.
  pub record IsSigned (k : Keyring) (bytes : Text) (signature : Value) (t : Stable) : Type 0 where
    pub parsed : parse_stable node bytes ≡ ok t
    pub generation : t.keyring_generation ≡ k.generation
    pub key_id : Text
    pub verified : verify_detached node bytes signature k.current.public_key ≡ ok key_id

  verify_release_target-IsSigned :
      (bytes : Text) (signature : Value) (k : Keyring) (t : Target)
      → verify_release_target node bytes signature k ≡ ok t
      → IsSigned k bytes signature t.stable
  unfolding verify_release_target
  verify_release_target-IsSigned bytes signature k t h =
      let (parsed, (good, h1)) = bind-ok (parse_stable node bytes) _ t h in
      let (same, h2) = guard-ok (parsed.keyring_generation == k.generation) _ _ t h1 in
      let (id, (valid, h3)) =
        bind-ok (verify_detached node bytes signature k.current.public_key) _ t h2 in
      let e : parsed ≡ t.stable = ground arith in
      rw (sym e) (record {
        parsed = good;
        generation = (==_iff parsed.keyring_generation k.generation).0 same;
        key_id = id;
        verified = valid;
      })

  current_target-none :
      (l : Ledger) (k : Option Keyring) → current_target node rk l k ≡ ok none → l.target ≡ none
  unfolding current_target
  current_target-none l k h = elim (Option-cases l.target) [
    | inl fresh ↦ fresh
    | inr (s, stored) ↦
        let (p, (good, e)) = bind-ok (parse_stable node s.document) _ none (rw stored at h) in
        let (q, (found, f)) = bind-ok (trusted_keyring node rk l k p.keyring_generation) _ none e in
        let (t, (valid, g)) =
          bind-ok (verify_release_target node s.document s.signature q) _ none f in
        absurd (cc g)
  ]

  pub current_target-some :
      (l : Ledger) (k : Option Keyring) (s : Signed) (t : Target)
      → current_target node rk l k ≡ ok (some (s, t))
      → (l.target ≡ some s) × (parse_stable node s.document ≡ ok t.stable)
  unfolding current_target
  current_target-some l k s t h = elim (Option-cases l.target) [
    | inl fresh ↦ absurd (cc (rw fresh at h))
    | inr (s', stored) ↦
        let (p, (good, e)) =
          bind-ok (parse_stable node s'.document) _ (some (s, t)) (rw stored at h) in
        let (q, (found, f)) = bind-ok (trusted_keyring node rk l k p.keyring_generation) _ _ e in
        let (t', (valid, g)) =
          bind-ok (verify_release_target node s'.document s'.signature q) _ _ f in
        let one : s' ≡ s = ground arith in
        let two : t' ≡ t = ground arith in
        let there = (verify_release_target-IsSigned s'.document s'.signature q t' valid).parsed in
        (
          rw one at stored,
          subst (λ (x : Target). parse_stable node s.document ≡ ok x.stable) two
              (subst (λ (x : Signed). parse_stable node x.document ≡ ok t'.stable) one there),
        )
  ]

  -- The outcome of a target that is accepted.
  pub record Followed (l l' : Ledger) (bytes : Text) (signature : Value) (t : Stable) : Type 0 where
    pub aims : Aims l' t
    pub keyring : Keyring
    pub trusted : Trusts node rk l keyring
    pub signed : IsSigned keyring bytes signature t
    pub after : (t' : Stable) → Aims l t' → t'.target_sequence ≤ t.target_sequence
    pub same_keyring : l'.keyring ≡ l.keyring
    pub same_generations : l'.generations ≡ l.generations
    pub same_official : l'.official ≡ l.official

  validate_target_transition-le :
      (b b' : Text) (t t' u : Target)
      → validate_target_transition b t b' t' ≡ ok u
      → t.stable.target_sequence ≤ t'.stable.target_sequence
  unfolding validate_target_transition
  validate_target_transition-le b b' t t' u h = ground arith

  -- A new target in its file.
  replaced-Followed :
      (l : Ledger) (s : Signed) (k : Keyring) (next : Target)
      → Trusts node rk l k
      → IsSigned k s.document s.signature next.stable
      → ((t' : Stable) → Aims l t' → t'.target_sequence ≤ next.stable.target_sequence)
      → Followed l (record l { target = some s }) s.document s.signature next.stable
  replaced-Followed l s k next trusted signed after = record {
    aims = record { file = s; stored = refl; parsed = signed.parsed };
    keyring = k;
    trusted = trusted;
    signed = signed;
    after = after;
    same_keyring = refl;
    same_generations = refl;
    same_official = refl;
  }

  transport_Followed :
      (l m l' : Ledger) (s : Signed) (t u : Target)
      → ◌≡◌ {A = Result TrustError (Ledger × Target)} (ok (m, t)) (ok (l', u))
      → Followed l m s.document s.signature t.stable
      → Followed l l' s.document s.signature u.stable
  transport_Followed l m l' s t u h f =
      let e : m ≡ l' = ground arith in
      let g : t ≡ u = ground arith in
      subst (λ (x : Ledger). Followed l x s.document s.signature u.stable) e
        (subst (λ (x : Target). Followed l m s.document s.signature x.stable) g f)

  follow_target-Followed :
      (l l' : Ledger) (s : Signed) (k : Keyring) (next t : Target)
      (current : Option (Signed × Target))
      → Trusts node rk l k
      → IsSigned k s.document s.signature next.stable
      → current_target node rk l (some k) ≡ ok current
      → follow_target node rk l s next current ≡ ok (l', t)
      → Followed l l' s.document s.signature t.stable
  unfolding follow_target
  follow_target-Followed l l' s k next t none trusted signed found h =
      transport_Followed l (record l { target = some s }) l' s next t h
        (replaced-Followed l s k next trusted signed
          (λ t' a. absurd (cc (current_target-none l (some k) found, a.stored))))
  follow_target-Followed l l' s k next t (some (old, c)) trusted signed found h =
      let (stored, parsed) = current_target-some l (some k) old c found in
      let (v, (valid, h1)) =
        bind-ok (validate_target_transition old.document c s.document next) _ (l', t) h in
      let aims : Aims l c.stable = record { file = old; stored = stored; parsed = parsed } in
      elim (Bool-cases (text_eq old.document s.document)) [
        | inl same ↦
            let e : old.document ≡ s.document = text_eq_sound old.document s.document same in
            let read : parse_stable node s.document ≡ ok c.stable = rw e at parsed in
            let equal : next.stable ≡ c.stable = cc (read, signed.parsed) in
            transport_Followed l l l' s c t (rw same at h1) (record {
              aims = aims;
              keyring = k;
              trusted = trusted;
              signed = rw equal at signed;
              after = λ t' a.
                  let u = Aims-unique l t' c.stable a aims in
                  omega (arith, ap (λ (x : Stable). x.target_sequence) u);
              same_keyring = refl;
              same_generations = refl;
              same_official = refl;
            })
        | inr other ↦
            transport_Followed l (record l { target = some s }) l' s next t (rw other at h1)
              (replaced-Followed l s k next trusted signed (λ t' a.
                let u = Aims-unique l t' c.stable a aims in
                let v = validate_target_transition-le old.document s.document c next v valid in
                omega (arith, ap (λ (x : Stable). x.target_sequence) u)))
      ]

  -- A release target that is accepted parses, is signed by the current key of the keyring that is
  -- trusted, is of the generation of that keyring, and its sequence is not below that of the
  -- target before it; keyrings and the official version stay.
  pub accept_target-Followed :
      (l l' : Ledger) (bytes : Text) (signature : Value) (t : Target)
      → accept_target node rk l bytes signature ≡ ok (l', t)
      → Followed l l' bytes signature t.stable
  unfolding accept_target
  accept_target-Followed l l' bytes signature t h =
      let (keyring, (found, h1)) = bind-ok (current_keyring node rk l) _ (l', t) h in
      elim (Option-cases keyring) [
        | inl absent ↦ absurd (cc (rw absent at h1))
        | inr ((s, k), present) ↦
            let trusted = current_keyring-some node rk l s k (rw present at found) in
            let (next, (valid, h2)) =
              bind-ok (verify_release_target node bytes signature k) _ (l', t) (rw present at h1) in
            let (current, (stands, h3)) =
              bind-ok (current_target node rk l (some k)) _ (l', t) h2 in
            follow_target-Followed l l' _ k next t current trusted
              (verify_release_target-IsSigned bytes signature k next valid) stands h3
      ]
