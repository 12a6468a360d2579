-- ===== src/Stage0/Trust/KeyringParse.antt =====
-- What a keyring that parses says, of keyring.mjs.
use dsh_docker.Prelude.{ℕ, ◌≡◌, ◌≢◌, sym, ap, ◌∙◌, List, true, ◌||◌, not, arith}
use dsh_docker.Prelude.Text.{Text, text_eq, codes}
use dsh_docker.Prelude.Result.{ok, bind-ok, guard-ok, ok-injective}
use dsh_docker.Platform.Values.{
  get_field, exact_keys, positive_safe_integer, is_number, list_of, sort, texts_eq, all_distinct,
  includes,
}
use dsh_docker.Platform.Node.{Node, iso_timestamp, parse_json_document}
use dsh_docker.Stage0.Trust.Keyring.{
  ReleaseKey, Keyring, keyring_keys, parse_release_key, parse_revoked, with_revoked, parse_keyring,
}

not_included :
    (ids : List Text) (a b id : Text)
    → not (includes ids a || includes ids b) ≡ true
    → includes ids id ≡ true
    → (a ≢ id) × (b ≢ id)
not_included ids a b id h r = (
  λ e. let x : includes ids a ≡ true = rw (sym e) at r in ground arith,
  λ e. let x : includes ids b ≡ true = rw (sym e) at r in ground arith,
)

with_revoked-active :
    (generation : ℕ) (issued_at : Text) (current next : ReleaseKey) (revoked : List Text)
    (k : Keyring) (id : Text)
    → with_revoked generation issued_at current next revoked ≡ ok k
    → includes k.revoked id ≡ true
    → (k.current.key_id ≢ id) × (k.next.key_id ≢ id)
unfolding with_revoked
with_revoked-active generation issued_at current next revoked k id h r =
    let (n, h1) = guard-ok (all_distinct revoked) _ _ k h in
    let (o, h2) = guard-ok (texts_eq (sort revoked) revoked) _ _ k h1 in
    let (p, h3) =
      guard-ok (not (includes revoked current.key_id || includes revoked next.key_id)) _ _ k h2 in
    let made = ok-injective _ k h3 in
    let same : k.revoked ≡ revoked = sym (ap (λ (x : Keyring). x.revoked) made) in
    let (x, y) = not_included revoked current.key_id next.key_id id p (rw same at r) in
    (
      λ z. x (ap (λ (q : Keyring). q.current.key_id) made ∙ z),
      λ z. y (ap (λ (q : Keyring). q.next.key_id) made ∙ z),
    )

-- No key of a keyring that parses is one that it revokes.
pub parse_keyring-active :
    (node : Node) (bytes : Text) (k : Keyring) (id : Text)
    → parse_keyring node bytes ≡ ok k
    → includes k.revoked id ≡ true
    → (k.current.key_id ≢ id) × (k.next.key_id ≢ id)
unfolding parse_keyring
parse_keyring-active node bytes k id h r =
    let (object, (a, h1)) = bind-ok (parse_json_document node bytes (codes "keyring")) _ k h in
    let (u, (b, h2)) = bind-ok (exact_keys object keyring_keys (codes "keyring")) _ k h1 in
    let (c, h3) = guard-ok (is_number 1 (get_field object (codes "schema"))) _ _ k h2 in
    let (generation, (d, h4)) =
      bind-ok
        (positive_safe_integer (get_field object (codes "generation")) (codes "keyring.generation"))
        _ k h3 in
    let (issued_at, (e, h5)) =
      bind-ok (iso_timestamp node (get_field object (codes "issuedAt")) (codes "keyring.issuedAt"))
        _ k h4 in
    let (current, (f, h6)) =
      bind-ok
        (parse_release_key node (get_field object (codes "current")) (codes "keyring.current")) _ k
        h5 in
    let (next, (g, h7)) =
      bind-ok (parse_release_key node (get_field object (codes "next")) (codes "keyring.next")) _ k
        h6 in
    let (i, h8) = guard-ok (not (text_eq current.key_id next.key_id)) _ _ k h7 in
    let (entries, (j, h9)) =
      bind-ok (list_of (get_field object (codes "revokedKeyIds")) (codes "keyring.revokedKeyIds")) _
        k h8 in
    let (revoked, (m, h10)) = bind-ok (parse_revoked entries) _ k h9 in
    with_revoked-active generation issued_at current next revoked k id h10 r
