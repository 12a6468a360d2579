-- ===== src/Updater/Notices.antt =====
-- What automatic-check.mjs tells of.
use Prim.Native.Nat.{Ordering}
use dsh_docker.Prelude.{
  ◌≡◌, refl, sym, ap, ◌∙◌, inl, inr, List, Option, none, some, Bool, true, ◌&&◌, not, arith,
}
use dsh_docker.Prelude.Tests.{Bool-cases, and-true}
use dsh_docker.Prelude.Text.{Text}
use dsh_docker.Prelude.Result.{Result, ok, bind-ok, guard-ok, ok-injective}
use dsh_docker.Prelude.Orders.{Ordering-cases, invert}
use dsh_docker.Platform.Contracts.{TrustError}
use dsh_docker.Platform.Versions.{parse_semver, compare_semantic_versions}
use dsh_docker.Platform.VersionOrder.{compare_versions-IsOrder}
use dsh_docker.Platform.Artifacts.{is_filled}
use dsh_docker.Updater.Channel.{UpdateChannel, Hold}
use dsh_docker.Updater.AutomaticCheck.{
  CheckConfig, StableNotice, UpstreamNotice, CheckState, Installed, Offer, is_on, is_later,
  check_version, parse_config, drop_stable, drop_upstream, next_upstream, is_held, is_newer,
  parse_stable_notice, parse_upstream_notice, parse_check_state, read_check, replace, upstream_of,
  recorded, record_check,
}

-- Exchanging the sides of a comparison inverts it.
compare_semantic_versions-flip :
    (a b : Text) (o : Ordering)
    → compare_semantic_versions a b ≡ ok o
    → compare_semantic_versions b a ≡ ok (invert o)
unfolding compare_semantic_versions
compare_semantic_versions-flip a b o h =
    let (u, (p, h1)) = bind-ok (parse_semver a) _ o h in
    let (v, (q, h2)) = bind-ok (parse_semver b) _ o h1 in
    rw (p, q) (ap ok (compare_versions-IsOrder.flip u v ∙ ap invert (ok-injective _ o h2)))

-- A version that comes behind the installed one.
abbrev IsBehind : Installed → UpstreamNotice → Type 0
IsBehind current n = compare_semantic_versions current.dsh n.version ≡ ok Ordering.lt

drop_upstream-IsBehind :
    (current : Installed) (old : Option UpstreamNotice) (n : UpstreamNotice)
    → drop_upstream current old ≡ ok (some n)
    → IsBehind current n
unfolding drop_upstream
drop_upstream-IsBehind current none n h = absurd cc
drop_upstream-IsBehind current (some m) n h =
    let (o, (p, h1)) = bind-ok (compare_semantic_versions current.dsh m.version) _ (some n) h in
    elim (Ordering-cases o) [
      | inl before ↦ let same : m ≡ n = ground arith in rw (sym same) (rw before at p)
      | inr (inl x) ↦ absurd (cc (rw x at h1))
      | inr (inr x) ↦ absurd (cc (rw x at h1))
    ]

is_later-gt : (o : Ordering) → is_later o ≡ true → o ≡ Ordering.gt
is_later-gt Ordering.lt h = absurd cc
is_later-gt Ordering.eq h = absurd cc
is_later-gt Ordering.gt h = refl

next_upstream-IsBehind :
    (current : Installed) (target : Offer) (upstream : Option Text) (holds : List Hold) (at' : Text)
    (old : Option UpstreamNotice) (n : UpstreamNotice)
    → ((m : UpstreamNotice) → old ≡ some m → IsBehind current m)
    → next_upstream current target upstream holds at' old ≡ ok (some n)
    → IsBehind current n
unfolding next_upstream
next_upstream-IsBehind current target none holds at' old n known h =
    known n (ok-injective old (some n) h)
next_upstream-IsBehind current target (some v) holds at' old n known h =
    let (o, (p, h1)) = bind-ok (compare_semantic_versions v current.dsh) _ (some n) h in
    elim (Bool-cases (is_later o && not (is_held v target.environment holds))) [
      | inr stays ↦ known n (ok-injective old (some n) (rw stays at h1))
      | inl goes ↦
          let (newer, (q, h2)) = bind-ok (is_newer v old) _ (some n) (rw goes at h1) in
          elim (Bool-cases newer) [
            | inr older ↦ known n (ok-injective old (some n) (rw older at h2))
            | inl fresh ↦
                let told : UpstreamNotice = record { version = v; checked_at = at' } in
                let made : told ≡ n = ground arith in
                let gt : o ≡ Ordering.gt = is_later-gt o (and-true _ _ goes).0 in
                rw (sym made)
                  (compare_semantic_versions-flip v current.dsh Ordering.gt (rw gt at p))
          ]
    ]

upstream_of-IsBehind :
    (is_date : Text → Bool) (channel : UpdateChannel) (current : Installed) (target : Offer)
    (upstream : Option Text) (holds : List Hold) (at' : Text) (old : Option UpstreamNotice)
    (n : UpstreamNotice)
    → upstream_of is_date channel current target upstream holds at' old ≡ ok (some n)
    → (channel ≡ UpdateChannel.experimental) × IsBehind current n
unfolding upstream_of
upstream_of-IsBehind is_date UpdateChannel.stable current target upstream holds at' old n h =
    absurd cc
upstream_of-IsBehind is_date UpdateChannel.experimental current target upstream holds at' old n h =
    let (kept, (p, h1)) = bind-ok (drop_upstream current old) _ (some n) h in
    (
      refl,
      next_upstream-IsBehind current target upstream holds at' kept n
          (λ m e. drop_upstream-IsBehind current old m (p ∙ ap ok e)) h1,
    )

module _ (is_date : Text → Bool) where
  parse_stable_notice-ok :
      (o t : Option StableNotice) → parse_stable_notice is_date o ≡ ok t → o ≡ t
  unfolding parse_stable_notice
  parse_stable_notice-ok none t h = ok-injective none t h
  parse_stable_notice-ok (some n) t h =
      let (a, h1) = guard-ok _ _ _ t h in
      let (o, (b, h2)) = bind-ok (check_version n.dsh) _ t h1 in
      let (c, h3) = guard-ok (is_filled n.environment) _ _ t h2 in
      let (d, h4) = guard-ok (is_date n.checked_at) _ _ t h3 in ok-injective (some n) t h4

  parse_upstream_notice-ok :
      (o t : Option UpstreamNotice) → parse_upstream_notice is_date o ≡ ok t → o ≡ t
  unfolding parse_upstream_notice
  parse_upstream_notice-ok none t h = ok-injective none t h
  parse_upstream_notice-ok (some n) t h =
      let (o, (b, h1)) = bind-ok (check_version n.version) _ t h in
      let (c, h2) = guard-ok _ _ _ t h1 in ok-injective (some n) t h2

  parse_config-ok : (c d : CheckConfig) → parse_config c ≡ ok d → c ≡ d
  unfolding parse_config
  parse_config-ok c d h = let (a, h1) = guard-ok _ _ _ d h in ok-injective c d h1

  -- The document that is written is the one that was made.
  pub parse_check_state-ok : (s t : CheckState) → parse_check_state is_date s ≡ ok t → s ≡ t
  unfolding parse_check_state
  parse_check_state-ok s t h =
      let (config, (a, h1)) = bind-ok (parse_config s.config) _ t h in
      let (stable, (b, h2)) = bind-ok (parse_stable_notice is_date s.stable) _ t h1 in
      let (upstream, (c, h3)) = bind-ok (parse_upstream_notice is_date s.upstream) _ t h2 in
      let x = parse_config-ok s.config config a in
      let y = parse_stable_notice-ok s.stable stable b in
      let z = parse_upstream_notice-ok s.upstream upstream c in
      (λ i. record { config = x i; stable = y i; upstream = z i }) ∙ ok-injective _ t h3

  pub replace-ok :
      (update : CheckState → Result TrustError CheckState) (file : Option CheckState)
      (s : CheckState)
      → replace is_date update file ≡ ok s
      → (previous : CheckState) × ((read_check is_date file ≡ ok previous)
          × (update previous ≡ ok s))
  unfolding replace
  replace-ok update file s h =
      let (previous, (p, h1)) = bind-ok (read_check is_date file) _ s h in
      let (next, (q, h2)) = bind-ok (update previous) _ s h1 in
      (previous, (p, q ∙ ap ok (parse_check_state-ok next s h2)))

  -- After a check was recorded with the notifications on, an upstream version is told of only in
  -- the experimental channel, and only if the installed version comes before it.
  pub record_check-IsBehind :
      (channel : UpdateChannel) (current : Installed) (target : Offer) (upstream : Option Text)
      (available : Bool) (holds : List Hold) (at' : Text) (file : Option CheckState)
      (s : CheckState) (n : UpstreamNotice)
      → record_check is_date channel current target upstream available holds at' file ≡ ok s
      → is_on s.config ≡ true
      → s.upstream ≡ some n
      → (channel ≡ UpdateChannel.experimental)
        × (compare_semantic_versions current.dsh n.version ≡ ok Ordering.lt)
  unfolding record_check recorded
  record_check-IsBehind channel current target upstream available holds at' file s n h on e =
      let (previous, (p, q)) =
        replace-ok (recorded is_date channel current target upstream available holds at') file s
          h in
      elim (Bool-cases (is_on previous.config)) [
        | inr off ↦
            let same : previous ≡ s = ok-injective previous s (rw off at q) in
            absurd (cc (off, on, ap (λ (x : CheckState). is_on x.config) same))
        | inl was_on ↦
            let (kept, (a, h1)) =
              bind-ok (drop_stable current previous.stable) _ s (rw was_on at q) in
            let (told, (b, h2)) =
              bind-ok
                (upstream_of is_date channel current target upstream holds at' previous.upstream) _
                s h1 in
            let same = ap (λ (x : CheckState). x.upstream) (ok-injective _ s h2) in
            upstream_of-IsBehind is_date channel current target upstream holds at' previous.upstream
              n (b ∙ ap ok (same ∙ e))
      ]
