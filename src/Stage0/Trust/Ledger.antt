-- ===== src/Stage0/Trust/Ledger.antt =====
-- container/platform/stage0/lib/ledger.mjs: the documents that were accepted. A file holds what
-- `parseSignedRecord` reads back of what `signedRecord` wrote, and the official record likewise.
-- Operations run one after the other (`exclusive`), and one that throws leaves the files.
use Prim.Native.Nat.{Ordering}
use dsh_docker.Prelude.{ℕ, List, [], ◌∷◌, Option, none, some, Bool, true, false, ◌&&◌, ◌||◌, not}
use dsh_docker.Prelude.Tests.{◌==◌, if◌then◌else◌}
use dsh_docker.Prelude.Text.{Text, text_eq, codes}
use dsh_docker.Prelude.Result.{Result, ok, err, ◌>>=◌, ◌>>◌, guard}
use dsh_docker.Platform.Contracts.{TrustError, invalid, conflict, missing, is_sha256, is_safe}
use dsh_docker.Platform.Versions.{compare_semantic_versions}
use dsh_docker.Platform.Values.{Value, Fields, get_field}
use dsh_docker.Platform.Node.{Node}
use dsh_docker.Stage0.Trust.Keyring.{Keyring, verify_recovery_keyring, validate_keyring_transition}
use dsh_docker.Stage0.Trust.Target.{Target, verify_release_target, validate_target_transition}
use dsh_docker.Stage0.Trust.Official.{
  Candidate, candidate_object, parse_candidate, verify_candidate,
}
use dsh_docker.Platform.Stable.{Stable, parse_stable}

pub record Signed : Type 0 where
  pub document : Text
  pub signature : Value

pub record OfficialRecord : Type 0 where
  pub candidate : Candidate
  pub object_sha256 : Text
  pub size : ℕ

pub record Ledger : Type 0 where
  pub keyring : Option Signed
  pub generations : List (ℕ × Signed)
  pub target : Option Signed
  pub official : Option OfficialRecord

-- `readOptional(generationPath)`
unfoldable pub get_generation : List (ℕ × Signed) → ℕ → Option Signed
get_generation [] g = none
get_generation ((k, s) ∷ rest) g =
    let found = get_generation rest g in if k == g then some s else found

module _ (node : Node) (recovery_public_key : Text) where
  unfoldable pub parse_keyring_record : Signed → Result TrustError Keyring
  unfolding verify_recovery_keyring
  parse_keyring_record s = verify_recovery_keyring node s.document s.signature recovery_public_key

  unfoldable pub current_keyring : Ledger → Result TrustError (Option (Signed × Keyring))
  unfolding parse_keyring_record
  current_keyring l = elim l.keyring [
    | none ↦ ok none
    | some s ↦ parse_keyring_record s >>= λ k. ok (some (s, k))
  ]

  unfoldable pub keyring_generation : Ledger → ℕ → Result TrustError Keyring
  unfolding get_generation parse_keyring_record
  keyring_generation l g = elim (get_generation l.generations g) [
    | none ↦ err (missing (codes "keyring generation"))
    | some s ↦ do
      k ← parse_keyring_record s
      guard (k.generation == g) (invalid (codes "inconsistent"))
      ok k
  ]

  -- `durableCreate` of the generation's file, unless it is there.
  unfoldable pub record_generation : Ledger → Signed → Keyring → Result TrustError Ledger
  unfolding get_generation parse_keyring_record text_eq
  record_generation l s next = elim (get_generation l.generations next.generation) [
    | none ↦ ok (record l { generations = (next.generation, s) ∷ l.generations })
    | some old ↦ do
      k ← parse_keyring_record old
      guard (text_eq old.document s.document) (invalid (codes "history"))
      ok l
  ]

  -- The branch that writes.
  unfoldable pub replace_keyring : Ledger → Signed → Keyring → Result TrustError (Ledger × Keyring)
  unfolding record_generation
  replace_keyring l s next = do
    l' ← record_generation l s next
    ok (record l' { keyring = some s }, next)

  -- What happens after the keyring that stands.
  unfoldable pub follow_keyring :
      Ledger → Signed → Keyring → Option (Signed × Keyring) → Result TrustError (Ledger × Keyring)
  unfolding text_eq validate_keyring_transition replace_keyring
  follow_keyring l s next none = replace_keyring l s next
  follow_keyring l s next (some (old, k)) =
      if next.generation == k.generation
      then guard (text_eq old.document s.document) (invalid (codes "different content"))
        >> ok (l, k)
      else (validate_keyring_transition k next >>= λ _. replace_keyring l s next)

  unfoldable pub accept_keyring : Ledger → Text → Value → Result TrustError (Ledger × Keyring)
  unfolding verify_recovery_keyring current_keyring follow_keyring
  accept_keyring l bytes signature = do
    next ← verify_recovery_keyring node bytes signature recovery_public_key
    current ← current_keyring l
    follow_keyring l (record { document = bytes; signature = signature }) next current

  abbrev pub trusted_keyring : Ledger → Option Keyring → ℕ → Result TrustError Keyring
  unfolding keyring_generation
  trusted_keyring l none g = keyring_generation l g
  trusted_keyring l (some k) g =
      let found = keyring_generation l g in if k.generation == g then ok k else found

  unfoldable pub current_target :
      Ledger → Option Keyring → Result TrustError (Option (Signed × Target))
  unfolding parse_stable trusted_keyring verify_release_target
  current_target l keyring = elim l.target [
    | none ↦ ok none
    | some s ↦ do
      parsed ← parse_stable node s.document
      k ← trusted_keyring l keyring parsed.keyring_generation
      t ← verify_release_target node s.document s.signature k
      ok (some (s, t))
  ]

  -- What happens after the target that stands.
  unfoldable pub follow_target :
      Ledger → Signed → Target → Option (Signed × Target) → Result TrustError (Ledger × Target)
  unfolding validate_target_transition text_eq
  follow_target l s next none = ok (record l { target = some s }, next)
  follow_target l s next (some (old, t)) = do
    accepted ← validate_target_transition old.document t s.document next
    ok (if text_eq old.document s.document then (l, t) else (record l { target = some s }, next))

  unfoldable pub accept_target : Ledger → Text → Value → Result TrustError (Ledger × Target)
  unfolding current_keyring verify_release_target current_target follow_target
  accept_target l bytes signature = do
    keyring ← current_keyring l
    elim keyring [
      | none ↦ err (invalid (codes "keyring"))
      | some (_, k) ↦ do
        next ← verify_release_target node bytes signature k
        current ← current_target l (some k)
        follow_target l (record { document = bytes; signature = signature }) next current
    ]

  -- The target and the keyring that authorizes it.
  unfoldable pub authorized_target : Ledger → Result TrustError Target
  unfolding current_target current_keyring text_eq
  authorized_target l = do
    target ← current_target l none
    elim target [
      | none ↦ err (invalid (codes "registry policy"))
      | some (_, t) ↦ do
        keyring ← current_keyring l
        elim keyring [
          | none ↦ err (conflict (codes "TRUST_REVOKED"))
          | some (_, k) ↦ do
            guard (t.stable.keyring_generation == k.generation && text_eq t.key_id k.current.key_id)
                (conflict (codes "TRUST_REVOKED"))
            ok t
        ]
    ]

  -- Without a target of the caller's.
  unfoldable pub current_official_dsh :
      ℕ → Ledger → Result TrustError (Option (OfficialRecord × Text))
  unfolding authorized_target verify_candidate
  current_official_dsh now l = elim l.official [
    | none ↦ ok none
    | some r ↦ do
      t ← authorized_target l
      id ← verify_candidate node now r.candidate r.candidate.version t.stable.policy
      ok (some (r, id))
  ]

-- What follows the comparison with the target and with the record that stands.
unfoldable pub not_older : Text → Text → Bool → TrustError → Result TrustError (Unit {0})
unfolding compare_semantic_versions
not_older version previous same different = compare_semantic_versions version previous >>= λ o.
    elim o [
      | Ordering.lt ↦ err (conflict (codes "TRUST_ROLLBACK"))
      | Ordering.eq ↦ guard same different
      | Ordering.gt ↦ ok tt
    ]

unfoldable pub follows_record :
    Option OfficialRecord → OfficialRecord → Result TrustError (Unit {0})
unfolding not_older text_eq
follows_record none r = ok tt
follows_record (some p) r =
    not_older r.candidate.version p.candidate.version
      (text_eq r.candidate.integrity p.candidate.integrity
        && (text_eq r.object_sha256 p.object_sha256 && r.size == p.size))
      (invalid (codes "different content"))

-- The candidate's document, of the fields that are kept.
unfoldable pub candidate_document : Fields → Result TrustError Candidate
unfolding get_field candidate_object parse_candidate
candidate_document candidate = parse_candidate (
    candidate_object (get_field candidate (codes "schema")) (get_field candidate (codes "name"))
      (get_field candidate (codes "version")) (get_field candidate (codes "dist")))

-- Neither older than the target's version, nor another build of it.
unfoldable pub fits_target : Candidate → Stable → Result TrustError (Unit {0})
unfolding compare_semantic_versions text_eq
fits_target c t = do
  o ← compare_semantic_versions c.version t.dsh.version
  guard (elim o [ Ordering.lt ↦ false | _ ↦ true ]) (conflict (codes "TRUST_ROLLBACK"))
  guard (not (text_eq c.version t.dsh.version) || text_eq c.integrity t.dsh.integrity)
      (conflict (codes "TRUST_ARTIFACT_MISMATCH"))

unfoldable pub record_official : Ledger → OfficialRecord → Result TrustError Ledger
unfolding follows_record
record_official l r = do follows_record l.official r; ok (record l { official = some r })

module _ (node : Node) (recovery_public_key : Text) where
  -- The result names the signer too.
  unfoldable pub accept_official_dsh :
      ℕ → Ledger → Fields → Text → ℕ → Result TrustError (Ledger × (OfficialRecord × Text))
  unfolding is_sha256 authorized_target candidate_document verify_candidate fits_target
      record_official
  accept_official_dsh now l candidate object_sha256 size = do
    guard (is_sha256 object_sha256) (invalid (codes "object SHA-256"))
    guard (is_safe size) (invalid (codes "object size"))
    t ← authorized_target node recovery_public_key l
    c ← candidate_document candidate
    id ← verify_candidate node now c c.version t.stable.policy
    fits_target c t.stable
    let r : OfficialRecord = record { candidate = c; object_sha256 = object_sha256; size = size }
    l' ← record_official l r
    ok (l', (r, id))
