-- ===== src/AccessManager/RateLimiter/Recording.antt =====
-- Whether a failed attempt is in the windows of the next attempt with its key. `enter` and
-- `release` of rate-limiter.mjs share an array, which the map may lose in between.
use dsh_docker.Prelude.{ℕ, ◌<◌, ◌≡◌, refl, List, [], ◌∷◌, ◌++◌, none, some, arith}
use dsh_docker.Prelude.Lists.{length, set, get_elem?-set_self, get_elem?-append_end}
use dsh_docker.Prelude.Text.{Text, text_eq_refl}
use dsh_docker.Prelude.Map.{get, get-delete}
use dsh_docker.AccessManager.RateLimiter.Windows.{Failure, time}
use dsh_docker.AccessManager.RateLimiter.Limiter.{
  Limiter, Ticket, key_of, read_array, source_array, settle_failure, settle_success,
}

-- The failures that `enter` finds for a key, before it prunes.
pub next_array : Limiter → Text → List Failure
unfolding source_array
next_array l key = let (l', a) = source_array l key in read_array l'.heap a

next_array_found :
    (l : Limiter) (key : Text) (a : ℕ)
    → get key l.sources ≡ some a
    → next_array l key ≡ read_array l.heap a
unfolding next_array
next_array_found l key a e = ground arith

next_array_missing : (l : Limiter) (key : Text) → get key l.sources ≡ none → next_array l key ≡ []
unfolding next_array
next_array_missing l key e = ground (arith, get_elem?-append_end l.heap [])

settle_failure_sources :
    (l : Limiter) (t : Ticket) (failed_at : ℕ)
    → ((settle_failure l t failed_at).sources ≡ l.sources)
      × ((settle_failure l t failed_at).heap
          ≡ set l.heap t.address (read_array l.heap t.address ++ (time failed_at ∷ [])))
unfolding settle_failure
settle_failure_sources l t failed_at = (refl, refl)

-- While the map still holds the array of an attempt, its failure is the last in the array that the
-- next attempt with the key finds, behind those that were there.
pub next_array-settle_failure :
    (l : Limiter) (t : Ticket) (failed_at : ℕ)
    → get (key_of t) l.sources ≡ some t.address
    → t.address < length l.heap
    → next_array (settle_failure l t failed_at) (key_of t)
      ≡ next_array l (key_of t) ++ (time failed_at ∷ [])
next_array-settle_failure l t failed_at e h =
    let parts = settle_failure_sources l t failed_at in
    let values = read_array l.heap t.address ++ (time failed_at ∷ []) in
    ground (
      arith,
      next_array_found l (key_of t) t.address e,
      next_array_found (settle_failure l t failed_at) (key_of t) t.address,
      get_elem?-set_self l.heap t.address values h,
    )

-- Where an attempt succeeds while another with the same key is under way, the failure of the other
-- is lost: the next attempt finds an empty array for the key.
pub next_array-detached :
    (l : Limiter) (won lost : Ticket) (failed_at : ℕ)
    → key_of won ≡ key_of lost
    → next_array (settle_failure (settle_success l won) lost failed_at) (key_of lost) ≡ []
unfolding settle_success
next_array-detached l won lost failed_at e = next_array_missing _ (key_of lost) (
    ground (
      arith,
      settle_failure_sources (settle_success l won) lost failed_at,
      get-delete (key_of won) (key_of lost) l.sources,
      text_eq_refl (key_of lost),
    ))
