-- ===== src/Updater/Silence.antt =====
-- While it is switched off, automatic-check.mjs tells of nothing.
use mathlib.Core.Path.{subst}
use dsh_docker.Prelude.{
  ◌≡◌, refl, sym, ap, ◌∙◌, inl, inr, List, [], ◌∷◌, Option, none, some, Bool, true, false, ◌&&◌,
  ◌||◌, arith,
}
use dsh_docker.Prelude.Tests.{Bool-cases}
use dsh_docker.Prelude.Text.{Text}
use dsh_docker.Prelude.Result.{Result, ok, err, bind-ok, ok-injective}
use dsh_docker.Platform.Contracts.{TrustError}
use dsh_docker.Updater.Channel.{UpdateChannel, Hold}
use dsh_docker.Updater.AutomaticCheck.{
  CheckConfig, CheckState, Installed, Offer, default_check, is_on, parse_config, drop_stable,
  drop_upstream, read_check, replace, configured, configure, upstream_of, recorded, record_check,
  cleared, clear_satisfied, clear_upstream,
}
use dsh_docker.Updater.Notices.{parse_check_state-ok, replace-ok}

-- Nothing is told of while the checks or the notifications are off.
abbrev pub is_quiet : CheckState → Bool
is_quiet s =
    is_on s.config
    || (elim s.stable [ none ↦ true | some n ↦ false ]
        && elim s.upstream [ none ↦ true | some n ↦ false ])

abbrev pub is_quiet_file : Option CheckState → Bool
is_quiet_file none = true
is_quiet_file (some s) = is_quiet s

pub data Call : Type 0 where
  configuring : CheckConfig → Call
  recording : UpdateChannel → Installed → Offer → Option Text → Bool → List Hold → Text → Call
  clearing_satisfied : Installed → Call
  clearing_upstream : Call

-- A call that fails leaves the file.
abbrev pub after : Option CheckState → Result TrustError CheckState → Option CheckState
after file (err e) = file
after file (ok s) = some s

module _ (is_date : Text → Bool) where
  unfoldable pub call : Option CheckState → Call → Result TrustError CheckState
  unfolding configure record_check clear_satisfied clear_upstream
  call file (configuring c) = configure is_date c file
  call file (recording channel current target upstream available holds at') =
      record_check is_date channel current target upstream available holds at' file
  call file (clearing_satisfied current) = clear_satisfied is_date current file
  call file clearing_upstream = clear_upstream is_date file

  unfoldable pub calls : Option CheckState → List Call → Option CheckState
  unfolding call
  calls file [] = file
  calls file (c ∷ cs) = calls (after file (call file c)) cs

on_quiet : (s : CheckState) → is_on s.config ≡ true → is_quiet s ≡ true
on_quiet s on = rw on refl

off_none :
    (s : CheckState)
    → is_quiet s ≡ true
    → is_on s.config ≡ false
    → (s.stable ≡ none) × (s.upstream ≡ none)
off_none s q off = (ground arith, ground arith)

none_quiet : (s : CheckState) → s.stable ≡ none → s.upstream ≡ none → is_quiet s ≡ true
none_quiet s a b = ground arith

after-quiet :
    (file : Option CheckState) (r : Result TrustError CheckState)
    → is_quiet_file file ≡ true
    → ((s : CheckState) → r ≡ ok s → is_quiet s ≡ true)
    → is_quiet_file (after file r) ≡ true
after-quiet file (err e) q h = q
after-quiet file (ok s) q h = h s refl

without_upstream :
    (s : CheckState) → is_quiet s ≡ true → is_quiet (record s { upstream = none }) ≡ true
without_upstream s q = ground arith

configured-quiet :
    (is_date : Text → Bool) (c : CheckConfig) (s : CheckState)
    → is_quiet (configured is_date c s) ≡ true
unfolding configured
configured-quiet is_date c s = elim (Bool-cases (is_on c)) [
  | inl on ↦ rw on (on_quiet (record s { config = c }) on)
  | inr off ↦ rw off (none_quiet (record { config = c; stable = none; upstream = none }) refl refl)
]

module _ (is_date : Text → Bool) where
  recorded-quiet :
      (channel : UpdateChannel) (current : Installed) (target : Offer) (upstream : Option Text)
      (available : Bool) (holds : List Hold) (at' : Text) (previous s : CheckState)
      → is_quiet previous ≡ true
      → recorded is_date channel current target upstream available holds at' previous ≡ ok s
      → is_quiet s ≡ true
  unfolding recorded
  recorded-quiet channel current target upstream available holds at' previous s q h =
      elim (Bool-cases (is_on previous.config)) [
        | inr off ↦
            subst (λ (x : CheckState). is_quiet x ≡ true) (ok-injective previous s (rw off at h)) q
        | inl on ↦
            let (kept, (a, h1)) = bind-ok (drop_stable current previous.stable) _ s (rw on at h) in
            let (told, (b, h2)) =
              bind-ok
                (upstream_of is_date channel current target upstream holds at' previous.upstream) _
                s h1 in
            on_quiet s (sym (ap (λ (x : CheckState). is_on x.config) (ok-injective _ s h2)) ∙ on)
      ]

  cleared-quiet :
      (current : Installed) (previous s : CheckState)
      → is_quiet previous ≡ true
      → cleared is_date current previous ≡ ok s
      → is_quiet s ≡ true
  unfolding cleared drop_stable drop_upstream
  cleared-quiet current previous s q h =
      let (stable, (a, h1)) = bind-ok (drop_stable current previous.stable) _ s h in
      let (upstream, (b, h2)) = bind-ok (drop_upstream current previous.upstream) _ s h1 in
      let made = ok-injective _ s h2 in
      elim (Bool-cases (is_on previous.config)) [
        | inl on ↦ on_quiet s (sym (ap (λ (x : CheckState). is_on x.config) made) ∙ on)
        | inr off ↦
            let (x, y) = off_none previous q off in
            none_quiet s
              (sym (ap (λ (z : CheckState). z.stable) made)
                ∙ sym (ok-injective none stable (rw x at a)))
              (sym (ap (λ (z : CheckState). z.upstream) made)
                ∙ sym (ok-injective none upstream (rw y at b)))
      ]

  replace-quiet :
      (update : CheckState → Result TrustError CheckState) (file : Option CheckState)
      (s : CheckState)
      → ((previous : CheckState)
          → is_quiet previous ≡ true
          → update previous ≡ ok s
          → is_quiet s ≡ true)
      → is_quiet_file file ≡ true
      → replace is_date update file ≡ ok s
      → is_quiet s ≡ true
  unfolding read_check
  replace-quiet update none s keeps q h =
      let (previous, (p, e)) = replace-ok is_date update none s h in
      keeps previous
        (subst (λ (x : CheckState). is_quiet x ≡ true) (ok-injective default_check previous p) refl)
        e
  replace-quiet update (some t) s keeps q h =
      let (previous, (p, e)) = replace-ok is_date update (some t) s h in
      keeps previous
        (subst (λ (x : CheckState). is_quiet x ≡ true) (parse_check_state-ok is_date t previous p)
          q)
        e

  call-quiet :
      (file : Option CheckState) (c : Call) (s : CheckState)
      → is_quiet_file file ≡ true
      → call is_date file c ≡ ok s
      → is_quiet s ≡ true
  unfolding call configure record_check clear_satisfied clear_upstream
  call-quiet file (configuring c) s q h =
      let (d, (p, h1)) = bind-ok (parse_config c) _ s h in
      replace-quiet (λ previous. ok (configured is_date d previous)) file s
        (λ previous _ e.
          subst (λ (x : CheckState). is_quiet x ≡ true) (ok-injective _ s e)
            (configured-quiet is_date d previous))
        q h1
  call-quiet file (recording channel current target upstream available holds at') s q h =
      replace-quiet (recorded is_date channel current target upstream available holds at') file s
        (λ previous. recorded-quiet channel current target upstream available holds at' previous s)
        q h
  call-quiet file (clearing_satisfied current) s q h =
      replace-quiet (cleared is_date current) file s (λ previous. cleared-quiet current previous s)
        q h
  call-quiet file clearing_upstream s q h =
      replace-quiet (λ previous. ok (record previous { upstream = none })) file s
        (λ previous quiet e.
          subst (λ (x : CheckState). is_quiet x ≡ true) (ok-injective _ s e)
            (without_upstream previous quiet))
        q h

  -- Whatever is called on the automatic check, calls that fail leaving the file, no update is told
  -- of, neither of the stable channel nor of upstream, while the check or its notifications are
  -- off, if that is so of the file at first.
  pub calls-quiet :
      (cs : List Call) (file : Option CheckState)
      → is_quiet_file file ≡ true
      → is_quiet_file (calls is_date file cs) ≡ true
  unfolding calls
  calls-quiet [] file q = q
  calls-quiet (c ∷ cs) file q =
      calls-quiet cs (after file (call is_date file c))
        (after-quiet file (call is_date file c) q (λ s e. call-quiet file c s q e))
