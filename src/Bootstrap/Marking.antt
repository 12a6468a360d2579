-- ===== src/Bootstrap/Marking.antt =====
-- The marking of gc.mjs: which names the records among the roots give.
use mathlib.Core.Path.{subst}
use dsh_docker.Prelude.{
  ◌≡◌, refl, sym, ◌⊎◌, inl, inr, List, [], ◌∷◌, ◌++◌, Option, none, some, Bool, true, false, ◌||◌,
  not, arith,
}
use dsh_docker.Prelude.Tests.{if◌then◌else◌, Bool-cases}
use dsh_docker.Prelude.Text.{Text, text_eq, text_eq_sound, text_eq_refl}
use dsh_docker.Prelude.Map.{Map, get, get-retain_kept}
use dsh_docker.Platform.Contracts.{Storage, Artifact}
use dsh_docker.Platform.Values.{includes}
use dsh_docker.Platform.Deployments.{DeploymentContent, DeploymentRecord}
use dsh_docker.Bootstrap.Gc.{
  Directory, is_listed, reserved, is_left, remove_unmarked, stored_under, stored_id, named_by,
  retained,
}

pub includes-append_left :
    (xs ys : List Text) (t : Text) → includes xs t ≡ true → includes (xs ++ ys) t ≡ true
unfolding includes
includes-append_left [] ys t h = absurd cc
includes-append_left (x ∷ xs) ys t h = ground (arith, includes-append_left xs ys t)

pub includes-append_right :
    (xs ys : List Text) (t : Text) → includes ys t ≡ true → includes (xs ++ ys) t ≡ true
unfolding includes
includes-append_right [] ys t h = h
includes-append_right (x ∷ xs) ys t h = ground (arith, includes-append_right xs ys t)

pub retained-includes :
    (names : DeploymentContent → List Text) (m : Map DeploymentRecord) (ids : List Text) (id : Text)
    (r : DeploymentRecord) (n : Text)
    → includes ids id ≡ true
    → get id m ≡ some r
    → includes (names r.content) n ≡ true
    → includes (retained names m ids) n ≡ true
unfolding retained includes
retained-includes names m [] id r n h e i = absurd cc
retained-includes names m (x ∷ ids) id r n h e i = elim (Bool-cases (text_eq x id)) [
  | inl same ↦
      let known : get x m ≡ some r =
        subst (λ (t : Text). get t m ≡ some r) (sym (text_eq_sound x id same)) e in
      includes-append_left (named_by names (get x m)) (retained names m ids) n (
        subst (λ (o : Option DeploymentRecord). includes (named_by names o) n ≡ true) (sym known) i)
  | inr other ↦
      includes-append_right (named_by names (get x m)) (retained names m ids) n
        (retained-includes names m ids id r n (ground arith) e i)
]

is_left_named :
    (names : List Text) (n : Text) (v : Bool) → includes names n ≡ true → is_left names n v ≡ true
unfolding is_left
is_left_named names n v i = ground arith

pub is_left-named :
    (names : List Text) (n : Text)
    → is_left names n true ≡ true
    → is_listed n ≡ true
    → includes reserved n ≡ false
    → includes names n ≡ true
unfolding is_left
is_left-named names n h listed free = by_parts (is_listed n) (includes reserved n) h listed free
  where
    by_parts :
        (a b : Bool)
        → (not a || (b || (includes names n || false))) ≡ true
        → a ≡ true
        → b ≡ false
        → includes names n ≡ true
    by_parts a b h la fb = ground arith

pub kept_if :
    (a b : Bool) (x y : Option DeploymentRecord) → b ≡ true → (if a || b then x else y) ≡ x
kept_if true b x y h = refl
kept_if false true x y h = refl
kept_if false false x y h = absurd cc

pub remove_unmarked-kept :
    (names : List Text) (d : Directory) (n : Text)
    → includes names n ≡ true
    → get n (remove_unmarked names d) ≡ get n d
unfolding remove_unmarked
remove_unmarked-kept names d n h =
    get-retain_kept (is_left names) n d (λ v. is_left_named names n v h)

includes_self : (t : Text) → includes (t ∷ []) t ≡ true
unfolding includes
includes_self t = ground (arith, text_eq_refl t)

pub stored_id-stored :
    (a : Artifact) → a.storage ≡ Storage.stored → includes (stored_id a) a.id ≡ true
stored_id-stored a h = rw h (includes_self a.id)

includes-append_cases :
    (xs ys : List Text) (t : Text)
    → includes (xs ++ ys) t ≡ true
    → (includes xs t ≡ true) ⊎ (includes ys t ≡ true)
unfolding includes
includes-append_cases [] ys t h = inr h
includes-append_cases (x ∷ xs) ys t h = elim (Bool-cases (text_eq x t)) [
  | inl same ↦ inl (ground arith)
  | inr other ↦ elim (includes-append_cases xs ys t (ground arith)) [
    | inl here ↦ inl (ground arith)
    | inr later ↦ inr later
  ]
]

-- A list that a name is in, and whose names a record of the list gives.
named_by-some :
    (names : DeploymentContent → List Text) (o : Option DeploymentRecord) (n : Text)
    → includes (named_by names o) n ≡ true
    → (r : DeploymentRecord) × ((o ≡ some r) × (includes (names r.content) n ≡ true))
unfolding includes
named_by-some names none n h = absurd cc
named_by-some names (some r) n h = (r, (refl, h))

pub retained-named :
    (names : DeploymentContent → List Text) (m : Map DeploymentRecord) (ids : List Text) (n : Text)
    → includes (retained names m ids) n ≡ true
    → (id : Text) × ((r : DeploymentRecord) × ((includes ids id ≡ true)
          × ((get id m ≡ some r) × (includes (names r.content) n ≡ true))))
unfolding retained includes
retained-named names m [] n h = absurd cc
retained-named names m (x ∷ ids) n h =
    elim (includes-append_cases (named_by names (get x m)) (retained names m ids) n h) [
      | inl here ↦
          let (r, (there, i)) = named_by-some names (get x m) n here in
          (x, (r, (ground (arith, text_eq_refl x), (there, i))))
      | inr later ↦
          let (id, (r, (i, rest))) = retained-named names m ids n later in
          (id, (r, (ground arith, rest)))
    ]

pub stored_under-includes :
    (s : Storage) (id n : Text)
    → includes (stored_under s id) n ≡ true
    → (s ≡ Storage.stored) × (id ≡ n)
unfolding includes
stored_under-includes Storage.stored id n h = (refl, text_eq_sound id n (ground arith))
stored_under-includes (Storage.image b) id n h = absurd cc
