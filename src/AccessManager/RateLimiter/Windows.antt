-- ===== src/AccessManager/RateLimiter/Windows.antt =====
-- container/control-plane/services/access-manager/lib/rate-limiter.mjs: recorded failures, and how
-- long the windows over them hold an attempt back. Times and lengths are whole milliseconds; the
-- tests `t <= now - w` of the source are written `t + w <= now`, as numbers here have no sign.
use dsh_docker.Prelude.{ℕ, ◌+◌, ◌-◌, ◌/◌, List, [], ◌∷◌, none, some, max}
use dsh_docker.Prelude.Tests.{ltb, leb, if◌then◌else◌}
use dsh_docker.Prelude.Lists.{length, get_elem?, filter}
use dsh_docker.Prelude.Text.{Text}

-- A source's array holds plain times, the global one times with the credential that failed.
pub data Failure : Type 0 where
  time : ℕ → Failure
  tagged : ℕ → Text → Failure

pub record Window : Type 0 where
  pub limit : ℕ
  pub window_ms : ℕ

abbrev pub timestamp : Failure → ℕ
timestamp (time t) = t
timestamp (tagged t _) = t

-- The loop of `values.shift()`.
unfoldable pub prune : List Failure → ℕ → ℕ → List Failure
prune [] now window_ms = []
prune (v ∷ vs) now window_ms =
    let rest = prune vs now window_ms in if leb (timestamp v + window_ms) now then rest else v ∷ vs

abbrev pub within_window : List Failure → ℕ → ℕ → List Failure
within_window values now window_ms = filter (λ v. ltb now (timestamp v + window_ms)) values

-- The time at an index. The index is in range where the window's limit is at least one, as each
-- limit of the source is; elsewhere the source would throw.
abbrev pub stamp_at : List Failure → ℕ → ℕ
stamp_at values i = elim (get_elem? values i) [ none ↦ 0 | some v ↦ timestamp v ]

-- One round of the loop over the windows.
unfoldable pub window_wait : List Failure → Window → ℕ → ℕ → ℕ
window_wait values w now acc =
    let within = within_window values now w.window_ms in
    if ltb (length within) w.limit
    then acc
    else max acc (stamp_at within (length within - w.limit) + w.window_ms - now)

unfoldable pub retry_after_ms : List Failure → List Window → ℕ → ℕ → ℕ
retry_after_ms values [] now acc = acc
retry_after_ms values (w ∷ ws) now acc = retry_after_ms values ws now (window_wait values w now acc)

-- `Math.ceil(milliseconds / 1_000)`
abbrev pub ceil_seconds : ℕ → ℕ
ceil_seconds ms = (ms + 999) / 1000

unfoldable pub retry_after_seconds : List Failure → List Window → ℕ → ℕ
retry_after_seconds values windows now = ceil_seconds (retry_after_ms values windows now 0)

-- `Math.max(...windows.map(value => value.windowMs))`
unfoldable pub max_window_ms : List Window → ℕ
max_window_ms [] = 0
max_window_ms (w ∷ ws) = max w.window_ms (max_window_ms ws)
