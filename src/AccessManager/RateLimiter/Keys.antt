-- ===== src/AccessManager/RateLimiter/Keys.antt =====
-- rate-limiter.mjs: `retryKey` and `retryPrefix`. Account, credential and source are joined by NUL.
use dsh_docker.Prelude.{[], ◌∷◌, ◌++◌}
use dsh_docker.Prelude.Tests.{if◌then◌else◌}
use dsh_docker.Prelude.Text.{Text, text_eq, codes}

abbrev pub all_credentials : Text
all_credentials = codes "all"

unfoldable pub retry_key : Text → Text → Text → Text
retry_key account source credential = account ++ (0 ∷ (credential ++ (0 ∷ source)))

unfoldable pub retry_prefix : Text → Text → Text
unfolding text_eq
retry_prefix account credential =
    if text_eq credential all_credentials
    then account ++ (0 ∷ [])
    else account ++ (0 ∷ (credential ++ (0 ∷ [])))
