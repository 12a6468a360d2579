-- ===== src/Stage0/Trust/Steps.antt =====
-- Operations of ledger.mjs one after another, where a process may stop between the two writes of a
-- keyring.
use dsh_docker.Prelude.{ℕ, ◌≤◌, ◌≡◌, ◌≢◌, refl, ◌∙◌, some, true, arith}
use dsh_docker.Prelude.Text.{Text}
use dsh_docker.Prelude.Orders.{not_lt_self, not_lt_trans}
use dsh_docker.Prelude.Result.{ok}
use dsh_docker.Platform.Versions.{Version, parse_semver, compare_versions}
use dsh_docker.Platform.VersionOrder.{Reached, compare_versions-IsOrder}
use dsh_docker.Platform.Values.{Value, Fields, includes}
use dsh_docker.Platform.Node.{Node}
use dsh_docker.Platform.Stable.{Stable}
use dsh_docker.Stage0.Trust.Keyring.{Keyring}
use dsh_docker.Stage0.Trust.Target.{Target}
use dsh_docker.Stage0.Trust.Ledger.{
  Signed, OfficialRecord, Ledger, get_generation, accept_keyring, accept_target,
  accept_official_dsh,
}
use dsh_docker.Stage0.Trust.KeyringLaws.{
  IsAfter, IsAfter-refl, IsAfter-trans, Trusts, Trusts-unique, parse_keyring_record-active,
  accept_keyring-Accepted,
}
use dsh_docker.Stage0.Trust.TargetLaws.{Aims, accept_target-Followed}
use dsh_docker.Stage0.Trust.OfficialLaws.{accept_official_dsh-Recorded}

module _ (node : Node) (rk : Text) where
  pub data Step (l : Ledger) : Ledger → Type 0 where
    keyring :
        (l' : Ledger) (bytes : Text) (signature : Value) (k : Keyring)
        → accept_keyring node rk l bytes signature ≡ ok (l', k)
        → Step l l'
    -- The generation's file was made, and the current keyring not yet replaced.
    interrupted :
        (l' : Ledger) (bytes : Text) (signature : Value) (k : Keyring)
        → accept_keyring node rk l bytes signature ≡ ok (l', k)
        → Step l (record l { generations = l'.generations })
    target :
        (l' : Ledger) (bytes : Text) (signature : Value) (t : Target)
        → accept_target node rk l bytes signature ≡ ok (l', t)
        → Step l l'
    official :
        (l' : Ledger) (now : ℕ) (candidate : Fields) (sha : Text) (size : ℕ) (r : OfficialRecord)
        (id : Text)
        → accept_official_dsh node rk now l candidate sha size ≡ ok (l', (r, id))
        → Step l l'

  pub data Reach (l : Ledger) : Ledger → Type 0 where
    stay : Reach l l
    step : (m n : Ledger) → Reach l m → Step m n → Reach l n

  -- Nothing that was trusted before is taken back.
  pub record Advances (l l' : Ledger) : Type 0 where
    pub keyring :
        (k : Keyring) → Trusts node rk l k → (k' : Keyring) × (Trusts node rk l' k' × IsAfter k k')
    pub history :
        (g : ℕ) (s : Signed)
        → get_generation l.generations g ≡ some s
        → get_generation l'.generations g ≡ some s
    pub target :
        (t : Stable)
        → Aims node rk l t
        → (t' : Stable) × (Aims node rk l' t' × (t.target_sequence ≤ t'.target_sequence))
    pub official :
        (r : OfficialRecord) (v : Version)
        → l.official ≡ some r
        → parse_semver r.candidate.version ≡ ok v
        → (r' : OfficialRecord) × ((l'.official ≡ some r') × Reached r'.candidate.version v)

  official_same :
      (l l' : Ledger) (r : OfficialRecord) (v : Version)
      → l'.official ≡ l.official
      → l.official ≡ some r
      → parse_semver r.candidate.version ≡ ok v
      → (r' : OfficialRecord) × ((l'.official ≡ some r') × Reached r'.candidate.version v)
  official_same l l' r v same there e = (
    r,
    (
      same ∙ there,
      record {
        version = v;
        parsed = e;
        not_before = not_lt_self compare_versions compare_versions-IsOrder v;
      },
    ),
  )

  target_same :
      (l l' : Ledger) (t : Stable)
      → l'.target ≡ l.target
      → Aims node rk l t
      → (t' : Stable) × (Aims node rk l' t' × (t.target_sequence ≤ t'.target_sequence))
  target_same l l' t same a =
      (t, (record { file = a.file; stored = same ∙ a.stored; parsed = a.parsed }, omega arith))

  keyring_same :
      (l l' : Ledger) (k : Keyring)
      → l'.keyring ≡ l.keyring
      → Trusts node rk l k
      → (k' : Keyring) × (Trusts node rk l' k' × IsAfter k k')
  keyring_same l l' k same t =
      (k, (record { file = t.file; stored = same ∙ t.stored; parsed = t.parsed }, IsAfter-refl k))

  Step-Advances : (l l' : Ledger) → Step l l' → Advances l l'
  Step-Advances l _ (keyring l' bytes signature k h) =
      let a = accept_keyring-Accepted node rk l l' bytes signature k h in
      record {
        keyring = λ p t. (k, (a.trusted, a.after p t));
        history = a.history;
        target = λ t. target_same l l' t a.target;
        official = λ r v. official_same l l' r v a.official;
      }
  Step-Advances l _ (interrupted l' bytes signature k h) =
      let a = accept_keyring-Accepted node rk l l' bytes signature k h in
      let m : Ledger = record l { generations = l'.generations } in
      record {
        keyring = λ p t. keyring_same l m p refl t;
        history = a.history;
        target = λ t. target_same l m t refl;
        official = λ r v. official_same l m r v refl;
      }
  Step-Advances l _ (target l' bytes signature t h) =
      let a = accept_target-Followed node rk l l' bytes signature t h in
      record {
        keyring = λ p. keyring_same l l' p a.same_keyring;
        history = λ g s there. rw a.same_generations there;
        target = λ u i. (t.stable, (a.aims, a.after u i));
        official = λ r v. official_same l l' r v a.same_official;
      }
  Step-Advances l _ (official l' now candidate sha size r id h) =
      let a = accept_official_dsh-Recorded node rk now l l' candidate sha size r id h in
      record {
        keyring = λ p. keyring_same l l' p a.same_keyring;
        history = λ g s there. rw a.same_generations there;
        target = λ t. target_same l l' t a.same_target;
        official = λ p v there e. (r, (a.stored, a.after p v there e));
      }

  Advances-refl : (l : Ledger) → Advances l l
  Advances-refl l = record {
    keyring = λ k. keyring_same l l k refl;
    history = λ g s there. there;
    target = λ t. target_same l l t refl;
    official = λ r v. official_same l l r v refl;
  }

  Advances-trans : (l m n : Ledger) → Advances l m → Advances m n → Advances l n
  Advances-trans l m n p q = record {
    keyring = λ k t.
        let (k', (t', a)) = p.keyring k t in
        let (k'', (t'', b)) = q.keyring k' t' in (k'', (t'', IsAfter-trans k k' k'' a b));
    history = λ g s there. q.history g s (p.history g s there);
    target = λ t a.
        let (t', (a', b)) = p.target t a in
        let (t'', (a'', c)) = q.target t' a' in (t'', (a'', omega (arith, b, c)));
    official = λ r v there e.
        let (r', (there', a)) = p.official r v there e in
        let (r'', (there'', b)) = q.official r' a.version there' a.parsed in
        (
          r'',
          (
            there'',
            record {
              version = b.version;
              parsed = b.parsed;
              not_before =
                  not_lt_trans compare_versions compare_versions-IsOrder b.version a.version v
                    b.not_before a.not_before;
            },
          ),
        );
  }

  -- However keyrings, release targets and official versions are accepted one after another, also
  -- where a process stops between the two writes of a keyring, what was trusted is not taken back:
  -- there is a keyring still, of no lower generation, that revokes all that was revoked; each
  -- recorded generation stays as it is; the target has no lower sequence; and the official
  -- version, if it parses, is followed only by versions that do not come before it.
  pub Reach-Advances : (l l' : Ledger) → Reach l l' → Advances l l'
  Reach-Advances l _ stay = Advances-refl l
  Reach-Advances l _ (step m n r s) =
      Advances-trans l m n (Reach-Advances l m r) (Step-Advances m n s)

  -- A key that was once revoked is neither the current nor the next key of any keyring that is
  -- trusted later.
  pub revoked-Reach :
      (l l' : Ledger) (k k' : Keyring) (id : Text)
      → Reach l l'
      → Trusts node rk l k
      → Trusts node rk l' k'
      → includes k.revoked id ≡ true
      → (k'.current.key_id ≢ id) × (k'.next.key_id ≢ id)
  revoked-Reach l l' k k' id r t t' h =
      let (m, (u, after)) = (Reach-Advances l l' r).keyring k t in
      let still : includes m.revoked id ≡ true = after.revoked id h in
      let there : includes k'.revoked id ≡ true = rw (Trusts-unique node rk l' k' m t' u) still in
      parse_keyring_record-active node rk t'.file k' id t'.parsed there
