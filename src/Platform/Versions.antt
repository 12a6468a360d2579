-- ===== src/Platform/Versions.antt =====
-- container/platform/lib/supported-target.mjs: semantic versions, their order, and the supported
-- version that only moves on. The expression `SEMVER` is read from the left: its build metadata
-- begins at the first `+`, and its pre-release at the first `-` before that. The JSON documents of
-- `parseSupportedTarget` are not modelled.
use Prim.Native.Nat.{compare, Ordering}
use dsh_docker.Prelude.{ℕ, List, [], ◌∷◌, Option, none, some, Bool, true, false, ◌&&◌, ◌||◌, not}
use dsh_docker.Prelude.Tests.{◌==◌, if◌then◌else◌}
use dsh_docker.Prelude.Lists.{length}
use dsh_docker.Prelude.Text.{Text, codes}
use dsh_docker.Prelude.Result.{Result, ok, err, ◌>>=◌, ◌>>◌, guard}
use dsh_docker.Prelude.Orders.{or_else, compare_list}
use dsh_docker.Platform.Contracts.{TrustError, invalid, within, all_chars, is_alphanumeric}

pub record Version : Type 0 where
  pub major : Text
  pub minor : Text
  pub patch : Text
  pub prerelease : List Text

abbrev pub is_digit : ℕ → Bool
is_digit c = within b'0' b'9' c

-- `/^\d+$/`
unfoldable pub is_digits : Text → Bool
is_digits [] = false
is_digits (c ∷ cs) = all_chars is_digit (c ∷ cs)

-- `0|[1-9]\d*`
unfoldable pub is_canonical : Text → Bool
is_canonical [] = false
is_canonical (c ∷ []) = is_digit c
is_canonical (c ∷ d ∷ cs) = within b'1' b'9' c && all_chars is_digit (d ∷ cs)

-- `[0-9A-Za-z-]+`
unfoldable pub is_part : Text → Bool
is_part [] = false
is_part (c ∷ cs) = all_chars (λ d. is_alphanumeric d || d == b'-') (c ∷ cs)

unfoldable pub all_parts : List Text → Bool
unfolding is_part
all_parts [] = true
all_parts (p ∷ ps) = is_part p && all_parts ps

-- What stands before the first occurrence of a character, and behind it.
unfoldable pub cut : ℕ → Text → Text × Option Text
cut separator [] = ([], none)
cut separator (c ∷ cs) =
    let (before, behind) = cut separator cs in
    if c == separator then ([], some cs) else (c ∷ before, behind)

-- `text.split(separator)`
unfoldable pub split : ℕ → Text → List Text
split separator [] = [] ∷ []
split separator (c ∷ cs) =
    let rest = split separator cs in
    if c == separator then [] ∷ rest else elim rest [ [] ↦ (c ∷ []) ∷ [] | p ∷ ps ↦ (c ∷ p) ∷ ps ]

abbrev parts_of : Option Text → List Text
unfolding split
parts_of none = []
parts_of (some t) = split b'.' t

-- The loop over the identifiers: no leading zero on a number.
unfoldable pub no_leading_zeros : List Text → Bool
unfolding is_digits is_canonical
no_leading_zeros [] = true
no_leading_zeros (p ∷ ps) = (not (is_digits p) || is_canonical p) && no_leading_zeros ps

unfoldable pub parse_semver : Text → Result TrustError Version
unfolding cut split all_parts no_leading_zeros is_canonical
parse_semver value =
    let (front, build) = cut b'+' value in
    let (core, pre) = cut b'-' front in
    let prerelease = parts_of pre in
    elim (split b'.' core) [
      | major ∷ minor ∷ patch ∷ [] ↦ do
        guard (is_canonical major && (is_canonical minor && is_canonical patch))
            (invalid (codes "semantic version"))
        guard (all_parts prerelease && all_parts (parts_of build))
            (invalid (codes "semantic version"))
        guard (no_leading_zeros prerelease) (invalid (codes "numeric prerelease identifier"))
        ok (record { major = major; minor = minor; patch = patch; prerelease = prerelease })
      | _ ↦ err (invalid (codes "semantic version"))
    ]

-- `left === right`, `left < right` on strings
unfoldable pub compare_text : Text → Text → Ordering
unfolding compare_list
compare_text a b = compare_list compare a b

unfoldable pub compare_numeric : Text → Text → Ordering
unfolding compare_text
compare_numeric left right =
    or_else (compare (length left) (length right)) (compare_text left right)

abbrev differ : Bool → Bool → Bool
differ true b = not b
differ false b = b

unfoldable pub compare_identifier : Text → Text → Ordering
unfolding is_digits compare_numeric compare_text
compare_identifier left right =
    if is_digits left && is_digits right
    then compare_numeric left right
    else if differ (is_digits left) (is_digits right)
    then (if is_digits left then Ordering.lt else Ordering.gt)
    else compare_text left right

-- A version with no pre-release comes behind those with one; the loop over the identifiers.
unfoldable pub compare_prerelease : List Text → List Text → Ordering
unfolding compare_list compare_identifier
compare_prerelease [] [] = Ordering.eq
compare_prerelease [] (r ∷ rs) = Ordering.gt
compare_prerelease (l ∷ ls) [] = Ordering.lt
compare_prerelease (l ∷ ls) (r ∷ rs) = compare_list compare_identifier (l ∷ ls) (r ∷ rs)

unfoldable pub compare_versions : Version → Version → Ordering
unfolding compare_numeric compare_prerelease
compare_versions left right = or_else (compare_numeric left.major right.major) (
    or_else (compare_numeric left.minor right.minor) (
      or_else (compare_numeric left.patch right.patch)
        (compare_prerelease left.prerelease right.prerelease)))

unfoldable pub compare_semantic_versions : Text → Text → Result TrustError Ordering
unfolding parse_semver compare_versions
compare_semantic_versions left_value right_value = do
  left ← parse_semver left_value
  right ← parse_semver right_value
  ok (compare_versions left right)

pub record SupportedTarget : Type 0 where
  pub latest_supported_dsh : Text
  pub environment : Text

-- Whether it is changed, and the target.
unfoldable pub advance_supported_dsh :
    SupportedTarget → Text → Result TrustError (Bool × SupportedTarget)
unfolding compare_semantic_versions
advance_supported_dsh target upstream =
    compare_semantic_versions upstream target.latest_supported_dsh >>= λ o. elim o [
      | Ordering.lt ↦ err (invalid (codes "roll back"))
      | Ordering.eq ↦ ok (false, target)
      | Ordering.gt ↦ ok (true, record target { latest_supported_dsh = upstream })
    ]
