-- ===== src/Platform/VersionOrder.antt =====
-- The order of semantic versions of supported-target.mjs.
use Prim.Native.Nat.{compare, Ordering}
use dsh_docker.Prelude.{◌≡◌, ◌≢◌, refl, sym, inl, inr, List, [], ◌∷◌, Bool, arith}
use dsh_docker.Prelude.Lists.{length}
use dsh_docker.Prelude.Text.{Text}
use dsh_docker.Prelude.Result.{ok, err, Result-cases}
use dsh_docker.Prelude.Orders.{
  invert, IsOrder, compare-IsOrder, IsOrder-on, IsOrder-or_else, compare_list-IsOrder, not_lt_self,
  not_lt_trans, Ordering-cases,
}
use dsh_docker.Platform.Versions.{
  Version, SupportedTarget, compare_text, compare_numeric, compare_identifier, compare_prerelease,
  compare_versions, parse_semver, compare_semantic_versions, advance_supported_dsh,
}

compare_text-IsOrder : IsOrder compare_text
unfolding compare_text
compare_text-IsOrder = compare_list-IsOrder compare compare-IsOrder

compare_numeric-IsOrder : IsOrder compare_numeric
unfolding compare_numeric
compare_numeric-IsOrder =
    IsOrder-or_else (λ (a b : Text). compare (length a) (length b)) compare_text
      (IsOrder-on length compare compare-IsOrder) compare_text-IsOrder

compare_identifier-IsOrder : IsOrder compare_identifier
unfolding compare_identifier
compare_identifier-IsOrder =
    let n = compare_numeric-IsOrder in
    let t = compare_text-IsOrder in
    record {
      flip = λ a b. ground (arith, n.flip a b, t.flip a b);
      lt_trans = λ a b c h k. ground (arith, n.lt_trans a b c, t.lt_trans a b c);
      eq_left = λ a b c h. ground (arith, n.eq_left a b c, t.eq_left a b c);
    }

flip_prerelease : (a b : List Text) → compare_prerelease b a ≡ invert (compare_prerelease a b)
unfolding compare_prerelease
flip_prerelease [] [] = refl
flip_prerelease [] (r ∷ rs) = refl
flip_prerelease (l ∷ ls) [] = refl
flip_prerelease (l ∷ ls) (r ∷ rs) =
    (compare_list-IsOrder compare_identifier compare_identifier-IsOrder).flip (l ∷ ls) (r ∷ rs)

lt_trans_prerelease :
    (a b c : List Text)
    → compare_prerelease a b ≡ Ordering.lt
    → compare_prerelease b c ≡ Ordering.lt
    → compare_prerelease a c ≡ Ordering.lt
unfolding compare_prerelease
lt_trans_prerelease [] [] c h k = cc
lt_trans_prerelease [] (r ∷ rs) c h k = cc
lt_trans_prerelease (l ∷ ls) [] [] h k = cc
lt_trans_prerelease (l ∷ ls) [] (q ∷ qs) h k = cc
lt_trans_prerelease (l ∷ ls) (r ∷ rs) [] h k = refl
lt_trans_prerelease (l ∷ ls) (r ∷ rs) (q ∷ qs) h k =
    (compare_list-IsOrder compare_identifier compare_identifier-IsOrder).lt_trans (l ∷ ls) (r ∷ rs)
      (q ∷ qs) h k

eq_left_prerelease :
    (a b c : List Text)
    → compare_prerelease a b ≡ Ordering.eq
    → compare_prerelease a c ≡ compare_prerelease b c
unfolding compare_prerelease
eq_left_prerelease [] [] c h = refl
eq_left_prerelease [] (r ∷ rs) c h = cc
eq_left_prerelease (l ∷ ls) [] c h = cc
eq_left_prerelease (l ∷ ls) (r ∷ rs) [] h = refl
eq_left_prerelease (l ∷ ls) (r ∷ rs) (q ∷ qs) h =
    (compare_list-IsOrder compare_identifier compare_identifier-IsOrder).eq_left (l ∷ ls) (r ∷ rs)
      (q ∷ qs) h

compare_prerelease-IsOrder : IsOrder compare_prerelease
compare_prerelease-IsOrder = record {
  flip = flip_prerelease;
  lt_trans = lt_trans_prerelease;
  eq_left = eq_left_prerelease;
}

-- The comparison of parsed semantic versions is a total preorder: exchanging the two versions
-- inverts the outcome, to come before is transitive, and versions that compare equal compare alike
-- with every other.
pub compare_versions-IsOrder : IsOrder compare_versions
unfolding compare_versions
compare_versions-IsOrder =
    IsOrder-or_else (λ (v w : Version). compare_numeric v.major w.major) _
      (IsOrder-on (λ (v : Version). v.major) compare_numeric compare_numeric-IsOrder)
      (IsOrder-or_else (λ (v w : Version). compare_numeric v.minor w.minor) _
        (IsOrder-on (λ (v : Version). v.minor) compare_numeric compare_numeric-IsOrder)
        (IsOrder-or_else (λ (v w : Version). compare_numeric v.patch w.patch) _
          (IsOrder-on (λ (v : Version). v.patch) compare_numeric compare_numeric-IsOrder)
          (IsOrder-on (λ (v : Version). v.prerelease) compare_prerelease
            compare_prerelease-IsOrder)))

-- One upstream version after another, where one that is refused leaves the target.
pub advances : SupportedTarget → List Text → SupportedTarget
advances target [] = target
advances target (v ∷ vs) = elim (advance_supported_dsh target v) [
  | err e ↦ advances target vs
  | ok (changed, target') ↦ advances target' vs
]

-- A version that does not come before another.
pub record Reached (text : Text) (v : Version) : Type 0 where
  pub version : Version
  pub parsed : parse_semver text ≡ ok version
  pub not_before : compare_versions version v ≢ Ordering.lt

Reached-trans :
    (text : Text) (v w : Version)
    → compare_versions w v ≢ Ordering.lt
    → Reached text w
    → Reached text v
Reached-trans text v w h r = record {
  version = r.version;
  parsed = r.parsed;
  not_before = not_lt_trans compare_versions compare_versions-IsOrder r.version w v r.not_before h;
}

advance-Reached :
    (target target' : SupportedTarget) (upstream : Text) (changed : Bool) (v : Version)
    → parse_semver target.latest_supported_dsh ≡ ok v
    → advance_supported_dsh target upstream ≡ ok (changed, target')
    → Reached target'.latest_supported_dsh v
unfolding advance_supported_dsh compare_semantic_versions
advance-Reached target target' upstream changed v h e =
    elim (Result-cases (parse_semver upstream)) [
      | inl (x, bad) ↦ ground arith
      | inr (u, parsed) ↦ elim (Ordering-cases (compare_versions u v)) [
        | inl before ↦ ground arith
        | inr (inl same) ↦
            let kept : target ≡ target' = ground arith in
            rw (sym kept) (record {
              version = v;
              parsed = h;
              not_before = not_lt_self compare_versions compare_versions-IsOrder v;
            })
        | inr (inr later) ↦
            let moved : record target { latest_supported_dsh = upstream } ≡ target' =
              ground arith in
            rw (sym moved)
              (record { version = u; parsed = parsed; not_before = λ x. cc (later, x) })
      ]
    ]

-- However upstream versions are tried one after another, each one that is refused leaving the
-- target, the supported version parses and does not come before the one it started from, if that
-- one parses.
pub advances-Reached :
    (target : SupportedTarget) (vs : List Text) (v : Version)
    → parse_semver target.latest_supported_dsh ≡ ok v
    → Reached (advances target vs).latest_supported_dsh v
unfolding advances
advances-Reached target [] v h = record {
  version = v;
  parsed = h;
  not_before = not_lt_self compare_versions compare_versions-IsOrder v;
}
advances-Reached target (u ∷ us) v h = elim (Result-cases (advance_supported_dsh target u)) [
  | inl (e, bad) ↦ rw (bad, advances) (advances-Reached target us v h)
  | inr ((changed, target'), good) ↦
      let r = advance-Reached target target' u changed v h good in
      rw (good, advances)
        (Reached-trans (advances target' us).latest_supported_dsh v r.version r.not_before
          (advances-Reached target' us r.version r.parsed))
]
