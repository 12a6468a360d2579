-- ===== src/Stage0/Trust/OfficialLaws.antt =====
-- What the official version that was accepted says, of acceptOfficialDsh in ledger.mjs.
use mathlib.Core.Path.{subst}
use Prim.Native.Nat.{Ordering}
use dsh_docker.Prelude.{
  ℕ, ◌≡◌, ◌≢◌, refl, sym, ◌∙◌, inl, inr, Option, none, some, Bool, ◌&&◌, arith,
}
use dsh_docker.Prelude.Tests.{◌==◌, Option-cases, ==_iff, and-true}
use dsh_docker.Prelude.Text.{Text, text_eq, codes}
use dsh_docker.Prelude.Result.{ok, bind-ok, guard-ok}
use dsh_docker.Platform.Contracts.{TrustError, invalid, is_sha256, is_safe}
use dsh_docker.Platform.Versions.{
  Version, parse_semver, compare_versions, compare_semantic_versions,
}
use dsh_docker.Platform.VersionOrder.{Reached}
use dsh_docker.Platform.Values.{Fields}
use dsh_docker.Platform.Node.{Node}
use dsh_docker.Platform.Stable.{Stable}
use dsh_docker.Stage0.Trust.Keyring.{Keyring}
use dsh_docker.Stage0.Trust.Target.{Target}
use dsh_docker.Stage0.Trust.Official.{Candidate, verify_candidate}
use dsh_docker.Stage0.Trust.Ledger.{
  OfficialRecord, Ledger, current_keyring, current_target, authorized_target, not_older,
  follows_record, candidate_document, fits_target, record_official, accept_official_dsh,
}
use dsh_docker.Stage0.Trust.KeyringLaws.{Trusts, current_keyring-some}
use dsh_docker.Stage0.Trust.TargetLaws.{Aims, current_target-some}

compare-Reached :
    (a b : Text) (o : Ordering) (v : Version)
    → compare_semantic_versions a b ≡ ok o
    → o ≢ Ordering.lt
    → parse_semver b ≡ ok v
    → Reached a v
unfolding compare_semantic_versions
compare-Reached a b o v h not_lt e =
    let (u, (parsed, h1)) = bind-ok (parse_semver a) _ o h in
    let same : compare_versions u v ≡ o = ground arith in
    record { version = u; parsed = parsed; not_before = λ x. not_lt (sym same ∙ x) }

not_older-Reached :
    (a b : Text) (same : Bool) (different : TrustError) (v : Version)
    → not_older a b same different ≡ ok tt
    → parse_semver b ≡ ok v
    → Reached a v
unfolding not_older
not_older-Reached a b same different v h e =
    let (o, (compared, h1)) = bind-ok (compare_semantic_versions a b) _ tt h in
    compare-Reached a b o v compared (λ x. cc (rw x at h1)) e

follows_record-Reached :
    (o : Option OfficialRecord) (p r : OfficialRecord) (v : Version)
    → o ≡ some p
    → follows_record o r ≡ ok tt
    → parse_semver p.candidate.version ≡ ok v
    → Reached r.candidate.version v
unfolding follows_record
follows_record-Reached o p r v there h e =
    not_older-Reached r.candidate.version p.candidate.version
      (text_eq r.candidate.integrity p.candidate.integrity
        && (text_eq r.object_sha256 p.object_sha256 && r.size == p.size))
      (invalid (codes "different content")) v (rw there at h) e

fits_target-Reached :
    (c : Candidate) (t : Stable) (v : Version)
    → fits_target c t ≡ ok tt
    → parse_semver t.dsh.version ≡ ok v
    → Reached c.version v
unfolding fits_target
fits_target-Reached c t v h e =
    let (o, (compared, h1)) = bind-ok (compare_semantic_versions c.version t.dsh.version) _ tt h in
    compare-Reached c.version t.dsh.version o v compared (λ x. cc (rw x at h1)) e

-- What is written, and what it comes after.
record_official-ok :
    (l l' : Ledger) (r : OfficialRecord)
    → record_official l r ≡ ok l'
    → (follows_record l.official r ≡ ok tt) × (record l { official = some r } ≡ l')
unfolding record_official
record_official-ok l l' r h =
    let (u, (follows, e)) = bind-ok (follows_record l.official r) _ l' h in (follows, ground arith)

module _ (node : Node) (rk : Text) where
  -- The target stands, and the keyring that is trusted is of its generation.
  pub record IsAuthorized (l : Ledger) (t : Stable) : Type 0 where
    pub aims : Aims node rk l t
    pub keyring : Keyring
    pub trusted : Trusts node rk l keyring
    pub generation : t.keyring_generation ≡ keyring.generation

  authorized_target-IsAuthorized :
      (l : Ledger) (t : Target) → authorized_target node rk l ≡ ok t → IsAuthorized l t.stable
  unfolding authorized_target
  authorized_target-IsAuthorized l t h =
      let (target, (found, h1)) = bind-ok (current_target node rk l none) _ t h in
      elim (Option-cases target) [
        | inl absent ↦ absurd (cc (rw absent at h1))
        | inr ((s, c), present) ↦
            let (stored, parsed) = current_target-some node rk l none s c (rw present at found) in
            let (keyring, (stands, h2)) =
              bind-ok (current_keyring node rk l) _ t (rw present at h1) in
            elim (Option-cases keyring) [
              | inl absent ↦ absurd (cc (rw absent at h2))
              | inr ((s', k), there) ↦
                  let (right, h3) = guard-ok _ _ (ok c) t (rw there at h2) in
                  let same = (and-true _ _ right).0 in
                  let named : c ≡ t = ground arith in
                  subst (λ (x : Target). IsAuthorized l x.stable) named
                    (record {
                      aims = record { file = s; stored = stored; parsed = parsed };
                      keyring = k;
                      trusted = current_keyring-some node rk l s' k (rw there at stands);
                      generation = (==_iff c.stable.keyring_generation k.generation).0 same;
                    })
            ]
      ]

  -- The outcome of an official version that is accepted.
  pub record Recorded (now : ℕ) (l l' : Ledger) (r : OfficialRecord) : Type 0 where
    pub stored : l'.official ≡ some r
    pub target : Stable
    pub authorized : IsAuthorized l target
    pub signer : Text
    pub signed : verify_candidate node now r.candidate r.candidate.version target.policy ≡ ok signer
    pub supported :
        (v : Version) → parse_semver target.dsh.version ≡ ok v → Reached r.candidate.version v
    pub after :
        (p : OfficialRecord) (v : Version)
        → l.official ≡ some p
        → parse_semver p.candidate.version ≡ ok v
        → Reached r.candidate.version v
    pub same_keyring : l'.keyring ≡ l.keyring
    pub same_generations : l'.generations ≡ l.generations
    pub same_target : l'.target ≡ l.target

  -- An official version that is accepted is signed by a key of the policy of the target that
  -- stands, which is of the generation of the trusted keyring, and comes neither before the
  -- version of that target nor before the official version that was recorded last, where those
  -- parse; keyrings and the target stay.
  pub accept_official_dsh-Recorded :
      (now : ℕ) (l l' : Ledger) (candidate : Fields) (sha : Text) (size : ℕ) (r : OfficialRecord)
      (id : Text)
      → accept_official_dsh node rk now l candidate sha size ≡ ok (l', (r, id))
      → Recorded now l l' r
  unfolding accept_official_dsh
  accept_official_dsh-Recorded now l l' candidate sha size r id h =
      let (a, h1) = guard-ok (is_sha256 sha) _ _ (l', (r, id)) h in
      let (b, h2) = guard-ok (is_safe size) _ _ (l', (r, id)) h1 in
      let (t, (authorized, h3)) = bind-ok (authorized_target node rk l) _ (l', (r, id)) h2 in
      let (c, (parsed, h4)) = bind-ok (candidate_document candidate) _ (l', (r, id)) h3 in
      let (signer, (signed, h5)) =
        bind-ok (verify_candidate node now c c.version t.stable.policy) _ (l', (r, id)) h4 in
      let (w, (fits, h6)) = bind-ok (fits_target c t.stable) _ (l', (r, id)) h5 in
      let s : OfficialRecord = record { candidate = c; object_sha256 = sha; size = size } in
      let (m, (written, h7)) = bind-ok (record_official l s) _ (l', (r, id)) h6 in
      let (follows, made) = record_official-ok l m s written in
      let same : m ≡ l' = ground arith in
      let named : s ≡ r = ground arith in
      subst (λ (x : OfficialRecord). Recorded now l l' x) named
        (subst (λ (x : Ledger). Recorded now l x s) (made ∙ same)
          (record {
            stored = refl;
            target = t.stable;
            authorized = authorized_target-IsAuthorized l t authorized;
            signer = signer;
            signed = signed;
            supported = λ v e. fits_target-Reached c t.stable v fits e;
            after = λ p v there e. follows_record-Reached l.official p s v there follows e;
            same_keyring = refl;
            same_generations = refl;
            same_target = refl;
          }))
