-- ===== src/Updater/CheckTests.antt =====
-- Concrete runs of automatic-check.mjs, where every text is a date.
use Prim.Native.Nat.{Ordering}
use dsh_docker.Prelude.{◌≡◌, refl, List, [], ◌∷◌, none, some, Bool, true, false}
use dsh_docker.Prelude.Text.{Text, codes}
use dsh_docker.Prelude.Result.{ok}
use dsh_docker.Platform.Versions.{compare_semantic_versions}
use dsh_docker.Updater.Channel.{UpdateChannel}
use dsh_docker.Updater.AutomaticCheck.{
  CheckState, Installed, Offer, UpstreamNotice, default_check, record_check,
}
use dsh_docker.Updater.Notices.{record_check-IsBehind}
use dsh_docker.Updater.Silence.{Call, configuring, recording, calls, is_quiet_file, calls-quiet}

abbrev any_date : Text → Bool
any_date t = true

abbrev installed : Installed
installed = record { dsh = codes "1.0.0"; environment = codes "e" }

abbrev offer : Offer
offer = record { target_sequence = 3; dsh = codes "1.0.0"; environment = codes "e" }

abbrev told : UpstreamNotice
told = record { version = codes "1.1.0"; checked_at = codes "now" }

abbrev checked : CheckState
checked = record default_check { upstream = some told }

checks :
    record_check any_date UpdateChannel.experimental installed offer
      (some (codes "1.1.0"))
      false
      []
      (codes "now")
      none
    ≡ ok checked
unfolding record_check
checks = refl

record_check-IsBehind_example :
    (UpdateChannel.experimental ≡ UpdateChannel.experimental)
    × (compare_semantic_versions (codes "1.0.0") (codes "1.1.0") ≡ ok Ordering.lt)
record_check-IsBehind_example =
    record_check-IsBehind any_date UpdateChannel.experimental installed offer (some (codes "1.1.0"))
      false [] (codes "now") none checked told checks refl refl

abbrev switched_off : List Call
switched_off =
    configuring (record { enabled = false; interval_seconds = 3600; notifications_enabled = true })
    ∷ recording UpdateChannel.experimental installed offer (some (codes "1.1.0")) true []
        (codes "now")
    ∷ []

calls-quiet_example : is_quiet_file (calls any_date (some checked) switched_off) ≡ true
calls-quiet_example = calls-quiet any_date switched_off (some checked) refl
