-- ===== src/Prelude/Map.antt =====
-- JavaScript's `Map` with string keys, in the order of insertion.
use mathlib.Core.Path.{◌≡◌, refl}
use mathlib.Core.Bool.{Bool, true, false}
use mathlib.Core.Option.{Option, none, some}
use mathlib.Core.List.{List, [], ◌∷◌}
use native.Mathlib.Omega.{arith}
use dsh_docker.Prelude.Tests.{if◌then◌else◌}
use dsh_docker.Prelude.Text.{Text, text_eq, text_eq_iff}

abbrev pub Map {ℓ} : Type ℓ → Type ℓ
Map V = List (Text × V)

module _ {ℓ} {V : Type ℓ} where
  -- `map.get(key)`
  unfoldable pub get : Text → Map V → Option V
  get k [] = none
  get k ((j, v) ∷ m) = if text_eq j k then some v else get k m

  -- `map.has(key)`
  unfoldable pub has : Text → Map V → Bool
  unfolding get
  has k m = elim (get k m) [ none ↦ false | some _ ↦ true ]

  -- `map.set(key, value)`: an old key keeps its place, a new one goes to the end.
  unfoldable pub put : Text → V → Map V → Map V
  put k v [] = (k, v) ∷ []
  put k v ((j, w) ∷ m) = let rest = put k v m in if text_eq j k then (j, v) ∷ m else (j, w) ∷ rest

  -- The entries that a test keeps, as a loop of `map.delete` over the others leaves them.
  unfoldable pub retain : (Text → V → Bool) → Map V → Map V
  retain p [] = []
  retain p ((j, v) ∷ m) = let rest = retain p m in if p j v then (j, v) ∷ rest else rest

  -- `map.delete(key)`
  unfoldable pub delete : Text → Map V → Map V
  delete k [] = []
  delete k ((j, v) ∷ m) = let rest = delete k m in if text_eq j k then rest else (j, v) ∷ rest

  pub get-put :
      (k j : Text) (v : V) (m : Map V)
      → get j (put k v m) ≡ (if text_eq k j then some v else get j m)
  unfolding get put
  get-put k j v [] = refl
  get-put k j v ((i, w) ∷ m) =
      ground (arith, text_eq_iff k j, text_eq_iff i k, text_eq_iff i j, get-put k j v m)

  pub get-delete :
      (k j : Text) (m : Map V) → get j (delete k m) ≡ (if text_eq k j then none else get j m)
  unfolding get delete
  get-delete k j [] = ground arith
  get-delete k j ((i, w) ∷ m) =
      ground (arith, text_eq_iff k j, text_eq_iff i k, text_eq_iff i j, get-delete k j m)

  -- Where the test reads the key alone.
  pub get-retain :
      (p : Text → Bool) (j : Text) (m : Map V)
      → get j (retain (λ k _. p k) m) ≡ (if p j then get j m else none)
  unfolding get retain
  get-retain p j [] = ground arith
  get-retain p j ((i, w) ∷ m) = ground (arith, text_eq_iff i j, get-retain p j m)

  pub retain-holds :
      (p : Text → V → Bool) (j : Text) (v : V) (m : Map V)
      → get j (retain p m) ≡ some v
      → p j v ≡ true
  unfolding get retain
  retain-holds p j v [] h = cc
  retain-holds p j v ((i, w) ∷ m) h = ground (arith, text_eq_iff i j, retain-holds p j v m)

  -- An entry whose value the test keeps stays.
  pub get-retain_kept :
      (p : Text → V → Bool) (j : Text) (m : Map V)
      → ((v : V) → p j v ≡ true)
      → get j (retain p m) ≡ get j m
  unfolding get retain
  get-retain_kept p j [] h = refl
  get-retain_kept p j ((i, w) ∷ m) h = ground (arith, text_eq_iff i j, h w, get-retain_kept p j m h)

  -- A property of every value.
  abbrev pub AllValues {κ} : (V → Type κ) → Map V → Type κ
  AllValues P [] = Unit
  AllValues P ((_, v) ∷ m) = P v × AllValues P m

  pub AllValues-get {κ} :
      (P : V → Type κ) (k : Text) (v : V) (m : Map V) → AllValues P m → get k m ≡ some v → P v
  unfolding get
  AllValues-get P k v [] h e = cc
  AllValues-get P k v ((j, w) ∷ m) h e = ground (arith, AllValues-get P k v m h.1)

  -- What is not there is not there after a loop of deletions.
  pub retain-none :
      (p : Text → V → Bool) (j : Text) (m : Map V) → get j m ≡ none → get j (retain p m) ≡ none
  unfolding get retain
  retain-none p j [] h = refl
  retain-none p j ((i, w) ∷ m) h = ground (arith, retain-none p j m)

  -- What the test keeps stays.
  pub retain-get :
      (p : Text → V → Bool) (j : Text) (v : V) (m : Map V)
      → get j m ≡ some v
      → p j v ≡ true
      → get j (retain p m) ≡ some v
  unfolding get retain
  retain-get p j v [] h e = cc
  retain-get p j v ((i, w) ∷ m) h e = ground (arith, text_eq_iff i j, retain-get p j v m)

  -- Each key has one entry, as in every `Map`.
  abbrev pub Distinct : Map V → Type ℓ
  Distinct [] = Unit
  Distinct ((k, _) ∷ m) = (get k m ≡ none) × Distinct m

  pub retain-Distinct : (p : Text → V → Bool) (m : Map V) → Distinct m → Distinct (retain p m)
  unfolding retain
  retain-Distinct p [] d = tt
  retain-Distinct p ((k, v) ∷ m) d = ground (arith, retain-Distinct p m d.1, retain-none p k m d.0)

  pub put-Distinct : (k : Text) (v : V) (m : Map V) → Distinct m → Distinct (put k v m)
  unfolding put get
  put-Distinct k v [] d = (refl, tt)
  put-Distinct k v ((j, w) ∷ m) d =
      ground (arith, put-Distinct k v m d.1, get-put k j v m, text_eq_iff j k, text_eq_iff k j)

  pub delete-Distinct : (k : Text) (m : Map V) → Distinct m → Distinct (delete k m)
  unfolding delete
  delete-Distinct k [] d = tt
  delete-Distinct k ((j, w) ∷ m) d = ground (arith, delete-Distinct k m d.1, get-delete k j m)

  -- A loop of deletions leaves no other entry than those that were there.
  pub retain-sub :
      (p : Text → V → Bool) (j : Text) (v : V) (m : Map V)
      → Distinct m
      → get j (retain p m) ≡ some v
      → get j m ≡ some v
  unfolding get retain
  retain-sub p j v [] d h = h
  retain-sub p j v ((i, w) ∷ m) d h =
      ground (arith, text_eq_iff i j, retain-sub p j v m d.1, retain-none p j m)
