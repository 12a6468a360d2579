-- ===== src/Platform/Tests.antt =====
-- Concrete runs of supported-target.mjs.
use Prim.Native.Nat.{compare, Ordering}
use dsh_docker.Prelude.{◌≡◌, refl, [], ◌∷◌}
use dsh_docker.Prelude.Text.{codes}
use dsh_docker.Prelude.Result.{ok}
use dsh_docker.Platform.Versions.{
  Version, SupportedTarget, parse_semver, cut, split, is_canonical, all_parts, is_part,
  no_leading_zeros, is_digits, compare_semantic_versions, compare_versions, compare_numeric,
  compare_text, compare_prerelease, compare_identifier,
}
use dsh_docker.Prelude.Orders.{compare_list}
use dsh_docker.Platform.VersionOrder.{advances, Reached, advances-Reached}
use dsh_docker.Platform.Numbers.{value, compare_numeric-value}

abbrev supported : SupportedTarget
supported = record { latest_supported_dsh = codes "1.9.0-rc.2"; environment = codes "env-1" }

abbrev version : Version
version = record {
  major = codes "1";
  minor = codes "9";
  patch = codes "0";
  prerelease = codes "rc" ∷ codes "2" ∷ [];
}

parses : parse_semver (codes "1.9.0-rc.2+build.7") ≡ ok version
unfolding parse_semver cut split is_canonical all_parts is_part no_leading_zeros is_digits
parses = refl

parses_supported : parse_semver (codes "1.9.0-rc.2") ≡ ok version
unfolding parse_semver cut split is_canonical all_parts is_part no_leading_zeros is_digits
parses_supported = refl

later_minor : compare_semantic_versions (codes "1.10.0") (codes "1.9.0-rc.2") ≡ ok Ordering.gt
unfolding compare_semantic_versions parse_semver cut split is_canonical all_parts is_part
    no_leading_zeros is_digits compare_versions compare_numeric compare_text compare_prerelease
    compare_identifier compare_list
later_minor = refl

advances-Reached_example :
    Reached
      (advances supported (codes "1.8.0" ∷ codes "1.10.0" ∷ codes "x" ∷ [])).latest_supported_dsh
      version
advances-Reached_example =
    advances-Reached supported (codes "1.8.0" ∷ codes "1.10.0" ∷ codes "x" ∷ []) version
      parses_supported

compare_numeric-value_example :
    compare_numeric (codes "10") (codes "9") ≡ compare (value (codes "10")) (value (codes "9"))
unfolding is_canonical
compare_numeric-value_example = compare_numeric-value (codes "10") (codes "9") refl refl
