-- ===== src/AccessManager/RateLimiter/Waits.antt =====
-- What `retryAfterSeconds` promises of the windows of rate-limiter.mjs.
use dsh_docker.Prelude.{ℕ, zero, suc, ◌+◌, ◌-◌, ◌*◌, ◌≤◌, ◌<◌, ◌≡◌, refl, ◌↔◌, List, [], ◌∷◌, arith}
use dsh_docker.Prelude.Tests.{ltb}
use dsh_docker.Prelude.Lists.{length, length-filter-le, All, All-filter}
use dsh_docker.AccessManager.RateLimiter.Windows.{
  Failure, timestamp, Window, prune, within_window, stamp_at, window_wait, retry_after_ms,
  retry_after_seconds, max_window_ms,
}

-- Every window has room: fewer failures within it than its limit.
abbrev pub HasRoom : List Failure → ℕ → List Window → Type 0
HasRoom values now = All λ w. length (within_window values now w.window_ms) < w.limit

abbrev pub IsPositive : Window → Type 0
IsPositive w = 0 < w.limit

-- Oldest first, as the arrays of a clock that does not run backwards are.
abbrev pub Sorted : List Failure → Type 0
Sorted [] = Unit {0}
Sorted (x ∷ xs) = All (λ y. timestamp x ≤ timestamp y) xs × Sorted xs

stamp_at-All :
    (t : ℕ) (xs : List Failure) (i : ℕ)
    → All (λ y. t ≤ timestamp y) xs
    → i < length xs
    → t ≤ stamp_at xs i
stamp_at-All t [] i h lt = absurd (omega arith)
stamp_at-All t (x ∷ xs) zero h lt = h.0
stamp_at-All t (x ∷ xs) (suc i) h lt = stamp_at-All t xs i h.1 (omega arith)

within-Sorted : (xs : List Failure) (now w : ℕ) → Sorted xs → Sorted (within_window xs now w)
within-Sorted [] now w s = tt
within-Sorted (x ∷ xs) now w s = ground (
  arith,
  within-Sorted xs now w s.1,
  All-filter (λ y. timestamp x ≤ timestamp y) (λ v. ltb now (timestamp v + w)) xs s.0,
)

-- What is within the window ends later than now.
stamp_at-within :
    (xs : List Failure) (now w i : ℕ)
    → i < length (within_window xs now w)
    → now < stamp_at (within_window xs now w) i + w
stamp_at-within [] now w i lt = absurd (omega arith)
stamp_at-within (x ∷ xs) now w zero lt = ground (arith, stamp_at-within xs now w 0)
stamp_at-within (x ∷ xs) now w (suc i) lt =
    ground (arith, stamp_at-within xs now w i, stamp_at-within xs now w (suc i))

within-within :
    (xs : List Failure) (now later w : ℕ)
    → now ≤ later
    → within_window (within_window xs now w) later w ≡ within_window xs later w
within-within [] now later w h = refl
within-within (x ∷ xs) now later w h = ground (arith, within-within xs now later w h)

-- Once the failure at an index has left the window, so have all before it.
length-within :
    (xs : List Failure) (i later w : ℕ)
    → Sorted xs
    → i < length xs
    → stamp_at xs i + w ≤ later
    → length (within_window xs later w) + i < length xs
length-within [] i later w s lt h = absurd (omega arith)
length-within (x ∷ xs) zero later w s lt h =
    ground (arith, length-filter-le (λ v. ltb later (timestamp v + w)) xs)
length-within (x ∷ xs) (suc i) later w s lt h =
    ground (arith, length-within xs i later w s.1, stamp_at-All (timestamp x) xs i s.0)

window_wait-ge :
    (values : List Failure) (w : Window) (now acc : ℕ) → acc ≤ window_wait values w now acc
unfolding window_wait
window_wait-ge values w now acc = ground arith

retry_after_ms-ge :
    (values : List Failure) (ws : List Window) (now acc : ℕ)
    → acc ≤ retry_after_ms values ws now acc
unfolding retry_after_ms
retry_after_ms-ge values [] now acc = omega arith
retry_after_ms-ge values (w ∷ ws) now acc = omega (
  arith,
  retry_after_ms-ge values ws now (window_wait values w now acc),
  window_wait-ge values w now acc,
)

window_wait-zero :
    (values : List Failure) (w : Window) (now acc : ℕ)
    → IsPositive w
    → window_wait values w now acc ≡ 0
    → length (within_window values now w.window_ms) < w.limit
unfolding window_wait
window_wait-zero values w now acc p h = ground (
  arith,
  stamp_at-within values now w.window_ms (length (within_window values now w.window_ms) - w.limit),
)

HasRoom-of_zero :
    (values : List Failure) (ws : List Window) (now acc : ℕ)
    → All IsPositive ws
    → retry_after_ms values ws now acc ≡ 0
    → HasRoom values now ws
unfolding retry_after_ms
HasRoom-of_zero values [] now acc p h = tt
HasRoom-of_zero values (w ∷ ws) now acc p h = (
  window_wait-zero values w now acc p.0
      (omega (arith, retry_after_ms-ge values ws now (window_wait values w now acc))),
  HasRoom-of_zero values ws now (window_wait values w now acc) p.1 h,
)

retry_after_ms-HasRoom :
    (values : List Failure) (ws : List Window) (now acc : ℕ)
    → HasRoom values now ws
    → retry_after_ms values ws now acc ≡ acc
unfolding retry_after_ms window_wait
retry_after_ms-HasRoom values [] now acc h = refl
retry_after_ms-HasRoom values (w ∷ ws) now acc h =
    ground (arith, retry_after_ms-HasRoom values ws now acc h.1)

-- Where every limit is at least 1, `retryAfterSeconds` reports no wait exactly when each window
-- holds fewer failures than its limit.
pub retry_after-zero_iff :
    (values : List Failure) (ws : List Window) (now : ℕ)
    → All IsPositive ws
    → (retry_after_seconds values ws now ≡ 0) ↔ HasRoom values now ws
unfolding retry_after_seconds
retry_after-zero_iff values ws now p = (
  λ h. HasRoom-of_zero values ws now 0 p (omega arith),
  λ h. omega (arith, retry_after_ms-HasRoom values ws now 0 h),
)

window_wait-opens :
    (values : List Failure) (w : Window) (now acc later : ℕ)
    → Sorted values
    → IsPositive w
    → now + window_wait values w now acc ≤ later
    → length (within_window values later w.window_ms) < w.limit
unfolding window_wait
window_wait-opens values w now acc later s p h =
    let kept = within_window values now w.window_ms in
    ground (
      arith,
      within-within values now later w.window_ms,
      length-filter-le (λ v. ltb later (timestamp v + w.window_ms)) kept,
      length-within kept (length kept - w.limit) later w.window_ms
          (within-Sorted values now w.window_ms s),
      stamp_at-within values now w.window_ms (length kept - w.limit),
    )

retry_after_ms-opens :
    (values : List Failure) (ws : List Window) (now acc later : ℕ)
    → Sorted values
    → All IsPositive ws
    → now + retry_after_ms values ws now acc ≤ later
    → HasRoom values later ws
unfolding retry_after_ms
retry_after_ms-opens values [] now acc later s p h = tt
retry_after_ms-opens values (w ∷ ws) now acc later s p h = (
  window_wait-opens values w now acc later s p.0
      (omega (arith, retry_after_ms-ge values ws now (window_wait values w now acc))),
  retry_after_ms-opens values ws now (window_wait values w now acc) later s p.1 h,
)

-- For failures oldest first and limits of at least 1, the wait in seconds that `retryAfterSeconds`
-- reports is long enough: from then on, with no new failure, it reports no wait.
pub retry_after-suffices :
    (values : List Failure) (ws : List Window) (now later : ℕ)
    → Sorted values
    → All IsPositive ws
    → now + 1000 * retry_after_seconds values ws now ≤ later
    → retry_after_seconds values ws later ≡ 0
unfolding retry_after_seconds
retry_after-suffices values ws now later s p h = omega (
  arith,
  retry_after_ms-HasRoom values ws later 0
      (retry_after_ms-opens values ws now 0 later s p (omega arith)),
)

within-prune :
    (values : List Failure) (now longest w : ℕ)
    → w ≤ longest
    → within_window (prune values now longest) now w ≡ within_window values now w
unfolding prune
within-prune [] now longest w h = refl
within-prune (v ∷ vs) now longest w h = ground (arith, within-prune vs now longest w h)

retry_after_ms-prune :
    (values : List Failure) (ws : List Window) (now longest acc : ℕ)
    → All (λ w. w.window_ms ≤ longest) ws
    → retry_after_ms (prune values now longest) ws now acc ≡ retry_after_ms values ws now acc
unfolding retry_after_ms window_wait
retry_after_ms-prune values [] now longest acc h = refl
retry_after_ms-prune values (w ∷ ws) now longest acc h =
    rw (within-prune values now longest w.window_ms h.0)
      (retry_after_ms-prune values ws now longest _ h.1)

max_window_ms-ge : (ws : List Window) (n : ℕ) → max_window_ms ws ≤ n → All (λ w. w.window_ms ≤ n) ws
unfolding max_window_ms
max_window_ms-ge [] n h = tt
max_window_ms-ge (w ∷ ws) n h = (omega arith, max_window_ms-ge ws n (omega arith))

-- Dropping the failures that have left the longest window changes no wait that `retryAfterSeconds`
-- reports at that time.
pub retry_after-prune :
    (values : List Failure) (ws : List Window) (now : ℕ)
    → retry_after_seconds (prune values now (max_window_ms ws)) ws now
      ≡ retry_after_seconds values ws now
unfolding retry_after_seconds
retry_after-prune values ws now = rw (
    retry_after_ms-prune values ws now (max_window_ms ws) 0
      (max_window_ms-ge ws (max_window_ms ws) (omega arith)))
