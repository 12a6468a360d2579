-- ===== src/Stage0/Trust/Tests.antt =====
-- Concrete documents of the ledger, and the theorems on them. Text stands for its own base64, a key is
-- one character, its identifier repeats it, and a signature repeats what it signs.
use dsh_docker.Prelude.{ℕ, ◌≡◌, ◌≢◌, refl, ◌++◌, List, [], ◌∷◌, none, some, Bool, true, false}
use dsh_docker.Prelude.Tests.{if◌then◌else◌}
use dsh_docker.Prelude.Lists.{replicate}
use dsh_docker.Prelude.Text.{Text, text_eq, codes}
use dsh_docker.Prelude.Result.{Result, ok, err}
use dsh_docker.Platform.Contracts.{TrustError}
use dsh_docker.Platform.Values.{Value, Items, Fields, includes}
use dsh_docker.Platform.Node.{Node, KeyType}
use dsh_docker.Stage0.Trust.Keyring.{Keyring}
use dsh_docker.Stage0.Trust.Target.{Target}
use dsh_docker.Stage0.Trust.Ledger.{
  Signed, Ledger, OfficialRecord, parse_keyring_record, accept_keyring, accept_target,
  accept_official_dsh,
}
use dsh_docker.Stage0.Trust.Steps.{Step, Reach, stay, step, Advances, Reach-Advances, revoked-Reach}
use dsh_docker.Stage0.Trust.KeyringLaws.{Trusts}
use dsh_docker.Stage0.Trust.TargetLaws.{Followed, accept_target-Followed}
use dsh_docker.Stage0.Trust.OfficialLaws.{Recorded, accept_official_dsh-Recorded}

abbrev object_of : List (Text × Value) → Value
object_of fields = Value.object (go fields)
  where
    go : List (Text × Value) → Fields
    go [] = Fields.no_fields
    go ((k, v) ∷ rest) = Fields.field k v (go rest)

abbrev array_of : List Value → Value
array_of values = Value.array (go values)
  where
    go : List Value → Items
    go [] = Items.no_items
    go (v ∷ rest) = Items.item v (go rest)

abbrev text : Text → Value
text t = Value.string t

abbrev id_of : Text → Text
id_of [] = []
id_of (c ∷ cs) = replicate 64 c

abbrev key_value : Text → Value
key_value key = object_of (
    (codes "algorithm", text (codes "Ed25519"))
    ∷ (codes "keyId", text (id_of key))
    ∷ (codes "publicKey", text key)
    ∷ [])

abbrev keyring_value : ℕ → Text → Text → List Value → Value
keyring_value generation current next revoked = object_of (
    (codes "schema", Value.integer 1)
    ∷ (codes "generation", Value.integer generation)
    ∷ (codes "issuedAt", text (codes "now"))
    ∷ (codes "current", key_value current)
    ∷ (codes "next", key_value next)
    ∷ (codes "revokedKeyIds", array_of revoked)
    ∷ [])

abbrev artifact_value : Text → Value
artifact_value id = object_of (
    (codes "id", text id)
    ∷ (codes "mediaType", text (codes "a/b"))
    ∷ (codes "sha256", text (replicate 64 b'a'))
    ∷ (codes "size", Value.integer 7)
    ∷ (codes "url", text (codes "https://x"))
    ∷ [])

abbrev reference_value : Value
reference_value = object_of (
    (codes "manifestArtifactId", text (codes "m"))
    ∷ (codes "signatureArtifactId", text (codes "s"))
    ∷ (codes "version", text (codes "1"))
    ∷ [])

abbrev registry_id : Text
registry_id = codes "SHA256:" ++ replicate 43 b'A'

abbrev policy_value : Value
policy_value = object_of (
    (codes "registry", text (codes "https://registry.npmjs.org/"))
    ∷ (codes "packageName", text (codes "@deepseek-ai/dsh"))
    ∷ (
      codes "keys",
      array_of (
          object_of (
            (codes "algorithm", text (codes "ECDSA-P256-SHA256"))
            ∷ (codes "expires", Value.null)
            ∷ (codes "keyId", text registry_id)
            ∷ (codes "publicKey", text (codes "p"))
            ∷ [])
          ∷ []),
    )
    ∷ [])

abbrev stable_value : Value
stable_value = object_of (
    (codes "schema", Value.integer 1)
    ∷ (codes "updateApi", Value.integer 1)
    ∷ (codes "keyringGeneration", Value.integer 2)
    ∷ (codes "targetSequence", Value.integer 5)
    ∷ (codes "issuedAt", text (codes "now"))
    ∷ (codes "artifacts", array_of (artifact_value (codes "m") ∷ artifact_value (codes "s") ∷ []))
    ∷ (
      codes "desired",
      object_of (
          (codes "bootstrap", reference_value)
          ∷ (codes "environment", reference_value)
          ∷ (
            codes "dsh",
            object_of (
                (codes "integrity", text (codes "sha512-a"))
                ∷ (codes "version", text (codes "1.2.0"))
                ∷ []),
          )
          ∷ []),
    )
    ∷ (codes "officialDshPolicy", policy_value)
    ∷ [])

abbrev node : Node
unfolding text_eq
node = record {
  parse_json = λ t.
      if text_eq t (codes "K1")
      then some (keyring_value 1 (codes "a") (codes "b") [])
      else if text_eq t (codes "K2")
      then some (keyring_value 2 (codes "b") (codes "c") (text (id_of (codes "a")) ∷ []))
      else if text_eq t (codes "T")
      then some stable_value
      else none;
  is_iso = λ t. true;
  is_past = λ t now. false;
  parse_url = λ v. some (record {
    protocol = codes "https:";
    username = [];
    password = [];
    href = codes "https://x/";
  });
  from_base64 = λ t. t;
  to_base64 = λ t. t;
  key_type = λ t. some (if text_eq t (codes "p") then KeyType.p256 else KeyType.ed25519);
  sha256 = id_of;
  verify = λ document key signature. text_eq document signature;
  verify_sha256 = λ message key signature. text_eq message signature;
}

abbrev signature_value : Text → Text → Value
signature_value key document = object_of (
    (codes "schema", Value.integer 1)
    ∷ (codes "algorithm", text (codes "Ed25519"))
    ∷ (codes "keyId", text (id_of key))
    ∷ (codes "signature", text document)
    ∷ [])

abbrev recovery_key : Text
recovery_key = codes "f"

abbrev empty : Ledger
empty = record { keyring = none; generations = []; target = none; official = none }

abbrev ledger_of {ℓ} : {A : Type ℓ} → Result TrustError (Ledger × A) → Ledger
ledger_of (ok (l, a)) = l
ledger_of (err e) = empty

is_accepted {ℓ} : {A : Type ℓ} → Result TrustError (Ledger × A) → Bool
is_accepted (ok a) = true
is_accepted (err e) = false

accepted {ℓ} :
    {A : Type ℓ} (r : Result TrustError (Ledger × A))
    → is_accepted r ≡ true
    → (a : A) × (r ≡ ok (ledger_of r, a))
unfolding is_accepted
accepted (ok (l, a)) h = (a, refl)
accepted (err e) h = absurd cc

abbrev first : Result TrustError (Ledger × Keyring)
unfolding accept_keyring
first =
    accept_keyring node recovery_key empty (codes "K1") (signature_value recovery_key (codes "K1"))

abbrev first_ledger : Ledger
first_ledger = ledger_of first

abbrev second : Result TrustError (Ledger × Keyring)
unfolding accept_keyring
second =
    accept_keyring node recovery_key first_ledger (codes "K2")
      (signature_value recovery_key (codes "K2"))

abbrev second_ledger : Ledger
second_ledger = ledger_of second

abbrev third : Result TrustError (Ledger × Target)
unfolding accept_target
third =
    accept_target node recovery_key second_ledger (codes "T")
      (signature_value (codes "b") (codes "T"))

abbrev third_ledger : Ledger
third_ledger = ledger_of third

abbrev candidate : Fields
candidate = Fields.field (codes "schema") (Value.integer 1) (
    Fields.field (codes "name") (text (codes "@deepseek-ai/dsh")) (
      Fields.field (codes "version") (text (codes "1.3.0")) (
        Fields.field (codes "dist")
          (object_of (
            (codes "integrity", text (codes "sha512-b"))
            ∷ (
              codes "tarball",
              text (codes "https://registry.npmjs.org/@deepseek-ai/dsh/-/dsh-1.3.0.tgz"),
            )
            ∷ (
              codes "signatures",
              array_of (
                  object_of (
                    (codes "keyid", text registry_id)
                    ∷ (codes "sig", text (codes "@deepseek-ai/dsh@1.3.0:sha512-b"))
                    ∷ [])
                  ∷ []),
            )
            ∷ []))
          Fields.no_fields)))

abbrev fourth : Result TrustError (Ledger × (OfficialRecord × Text))
unfolding accept_official_dsh
fourth = accept_official_dsh node recovery_key 0 third_ledger candidate (replicate 64 b'd') 9

abbrev fourth_ledger : Ledger
fourth_ledger = ledger_of fourth

first_accepted : is_accepted first ≡ true
unfolding is_accepted first
first_accepted = refl

second_accepted : is_accepted second ≡ true
unfolding is_accepted first second
second_accepted = refl

third_accepted : is_accepted third ≡ true
unfolding is_accepted first second third
third_accepted = refl

fourth_accepted : is_accepted fourth ≡ true
unfolding is_accepted first second third fourth
fourth_accepted = refl

reached_second : Reach node recovery_key empty second_ledger
unfolding first second
reached_second =
    let (k, one) = accepted first first_accepted in
    let (k', two) = accepted second second_accepted in
    step first_ledger second_ledger
      (step empty first_ledger stay
        (Step.keyring first_ledger (codes "K1") (signature_value recovery_key (codes "K1")) k one))
      (Step.keyring second_ledger (codes "K2") (signature_value recovery_key (codes "K2")) k' two)

-- The rest of the steps, from a ledger that reaches the second.
reached_fourth :
    (l : Ledger) → Reach node recovery_key l second_ledger → Reach node recovery_key l fourth_ledger
unfolding third fourth
reached_fourth l r =
    let (t, three) = accepted third third_accepted in
    let ((o, id), four) = accepted fourth fourth_accepted in
    step third_ledger fourth_ledger
      (step second_ledger third_ledger r
        (Step.target third_ledger (codes "T") (signature_value (codes "b") (codes "T")) t three))
      (Step.official fourth_ledger 0 candidate (replicate 64 b'd') 9 o id four)

Reach-Advances_example : Advances node recovery_key empty fourth_ledger
Reach-Advances_example =
    Reach-Advances node recovery_key empty fourth_ledger (reached_fourth empty reached_second)

abbrev second_keyring : Keyring
second_keyring = record {
  generation = 2;
  issued_at = codes "now";
  current = record { key_id = id_of (codes "b"); public_key = codes "b" };
  next = record { key_id = id_of (codes "c"); public_key = codes "c" };
  revoked = id_of (codes "a") ∷ [];
}

abbrev second_file : Signed
second_file = record {
  document = codes "K2";
  signature = signature_value recovery_key (codes "K2");
}

second_parsed : parse_keyring_record node recovery_key second_file ≡ ok second_keyring
unfolding parse_keyring_record
second_parsed = refl

Trusts-second : Trusts node recovery_key second_ledger second_keyring
unfolding first second
Trusts-second = record { file = second_file; stored = refl; parsed = second_parsed }

Trusts-fourth : Trusts node recovery_key fourth_ledger second_keyring
unfolding first second third fourth
Trusts-fourth = record { file = second_file; stored = refl; parsed = second_parsed }

revokes_first : includes second_keyring.revoked (id_of (codes "a")) ≡ true
unfolding includes
revokes_first = refl

revoked-Reach_example :
    (second_keyring.current.key_id ≢ id_of (codes "a"))
    × (second_keyring.next.key_id ≢ id_of (codes "a"))
revoked-Reach_example =
    revoked-Reach node recovery_key second_ledger fourth_ledger second_keyring second_keyring
      (id_of (codes "a")) (reached_fourth second_ledger stay) Trusts-second Trusts-fourth
      revokes_first

accept_target-Followed_example :
    Followed node recovery_key second_ledger third_ledger
      (codes "T")
      (signature_value (codes "b") (codes "T"))
      (accepted third third_accepted).0.stable
unfolding third
accept_target-Followed_example =
    accept_target-Followed node recovery_key second_ledger third_ledger (codes "T")
      (signature_value (codes "b") (codes "T")) (accepted third third_accepted).0
      (accepted third third_accepted).1

accept_official_dsh-Recorded_example :
    Recorded node recovery_key 0 third_ledger fourth_ledger (accepted fourth fourth_accepted).0.0
unfolding fourth
accept_official_dsh-Recorded_example =
    accept_official_dsh-Recorded node recovery_key 0 third_ledger fourth_ledger candidate
      (replicate 64 b'd') 9 (accepted fourth fourth_accepted).0.0
      (accepted fourth fourth_accepted).0.1 (accepted fourth fourth_accepted).1
