-- ===== src/AccessManager/RateLimiter/KeyLaws.antt =====
-- Keys of rate-limiter.mjs tell accounts and credentials apart.
use dsh_docker.Prelude.{◌≡◌, refl, ap, ◌∙◌, inl, inr, [], ◌∷◌, ◌++◌, true, ◌&&◌, ◌||◌, arith}
use dsh_docker.Prelude.Tests.{Bool-cases}
use dsh_docker.Prelude.Text.{Text, text_eq, starts_with, NoNul}
use dsh_docker.AccessManager.RateLimiter.Keys.{all_credentials, retry_key, retry_prefix}

-- Up to the first NUL, a text starts with another exactly when the two are equal.
starts_with-nul :
    (a b x p : Text)
    → NoNul a
    → NoNul b
    → starts_with (a ++ (0 ∷ x)) (b ++ (0 ∷ p)) ≡ (text_eq a b && starts_with x p)
unfolding starts_with text_eq
starts_with-nul [] [] x p ha hb = ground arith
starts_with-nul [] (d ∷ b) x p ha hb = ground arith
starts_with-nul (c ∷ a) [] x p ha hb = ground arith
starts_with-nul (c ∷ a) (d ∷ b) x p ha hb = ground (arith, starts_with-nul a b x p ha.1 hb.1)

append-nul_injective :
    (a b x y : Text) → NoNul a → NoNul b → a ++ (0 ∷ x) ≡ b ++ (0 ∷ y) → (a ≡ b) × (x ≡ y)
append-nul_injective [] [] x y ha hb e = (refl, cc)
append-nul_injective [] (d ∷ b) x y ha hb e = ground arith
append-nul_injective (c ∷ a) [] x y ha hb e = ground arith
append-nul_injective (c ∷ a) (d ∷ b) x y ha hb e =
    ground (arith, append-nul_injective a b x y ha.1 hb.1)

-- Two attempts share a key only if account, credential and source agree, where accounts and
-- credentials hold no NUL.
pub retry_key-injective :
    (a a' s s' c c' : Text)
    → NoNul a
    → NoNul a'
    → NoNul c
    → NoNul c'
    → retry_key a s c ≡ retry_key a' s' c'
    → (a ≡ a') × (c ≡ c') × (s ≡ s')
unfolding retry_key
retry_key-injective a a' s s' c c' ha ha' hc hc' e =
    let h = append-nul_injective a a' (c ++ (0 ∷ s)) (c' ++ (0 ∷ s')) ha ha' e in
    let k = append-nul_injective c c' s s' hc hc' h.1 in (h.0, k.0, k.1)

starts_with_nil : (x : Text) → starts_with x [] ≡ true
unfolding starts_with
starts_with_nil [] = refl
starts_with_nil (c ∷ x) = refl

-- A key is under a prefix exactly when it is of that account, and of that credential if the
-- prefix names one.
pub starts_with-retry_prefix :
    (a s c account credential : Text)
    → NoNul a
    → NoNul account
    → NoNul c
    → NoNul credential
    → starts_with (retry_key a s c) (retry_prefix account credential)
      ≡ (text_eq a account && (text_eq credential all_credentials || text_eq c credential))
unfolding retry_key retry_prefix
starts_with-retry_prefix a s c account credential ha hb hc hd =
    elim (Bool-cases (text_eq credential all_credentials)) [
      | inl e ↦ rw e (
          starts_with-nul a account (c ++ (0 ∷ s)) [] ha hb
          ∙ ap (λ b. text_eq a account && b) (starts_with_nil (c ++ (0 ∷ s))))
      | inr e ↦ rw e (
          starts_with-nul a account (c ++ (0 ∷ s)) (credential ++ (0 ∷ [])) ha hb
          ∙ ap (λ b. text_eq a account && b)
              (starts_with-nul c credential s [] hc hd ∙ ground (arith, starts_with_nil s)))
    ]
