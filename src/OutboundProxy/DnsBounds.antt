-- ===== src/OutboundProxy/DnsBounds.antt =====
-- How large the cache of dns-cache.mjs grows.
use dsh_docker.Prelude.{ℕ, suc, ◌+◌, ◌≤◌, ◌≡◌, refl, List, [], ◌∷◌, some, arith}
use dsh_docker.Prelude.Tests.{ltb, if◌then◌else◌}
use dsh_docker.Prelude.Lists.{length}
use dsh_docker.Prelude.Text.{Text}
use dsh_docker.Prelude.Map.{Map, get, has, put, retain}
use dsh_docker.Prelude.Result.{Result, ok, err}
use dsh_docker.OutboundProxy.Dns.{
  Names, Address, DnsError, Entry, DnsCache, Outcome, max_entries, drop_oldest, evict,
  normalize_records, record_ttl_ms, store, fail, keep, finish,
}

drop_oldest-le : (m : Map Entry) → length (drop_oldest m) ≤ max_entries
unfolding drop_oldest
drop_oldest-le [] = omega arith
drop_oldest-le (e ∷ m) = ground (arith, drop_oldest-le m)

evict-le : (now : ℕ) (m : Map Entry) → length (evict now m) ≤ max_entries
unfolding evict
evict-le now m = ground (arith, drop_oldest-le (retain (λ _ (e : Entry). ltb now e.expires_at) m))

length-put :
    (k : Text) (e : Entry) (m : Map Entry)
    → length (put k e m) ≡ (if has k m then length m else suc (length m))
unfolding has get put
length-put k e [] = refl
length-put k e ((j, w) ∷ m) = ground (arith, length-put k e m)

-- At most 512 entries after a success, one more after a failure whose key had none, and as many as
-- before otherwise.
abbrev pub IsBounded : DnsCache × Result DnsError (List Address) → DnsCache → Text → Type 0
IsBounded (cache', ok rs) cache key = length cache'.entries ≤ max_entries
IsBounded (cache', err DnsError.resolution_failed) cache key =
    length cache'.entries
    ≡ (if has key cache.entries then length cache.entries else suc (length cache.entries))
IsBounded (cache', err _) cache key = cache' ≡ cache

fail-IsBounded :
    (cache : DnsCache) (key : Text) (now : ℕ) → IsBounded (fail cache key now) cache key
unfolding fail store
fail-IsBounded cache key now = length-put key _ cache.entries

keep-IsBounded :
    (cache : DnsCache) (key : Text) (rs : List Address) (now later : ℕ)
    → IsBounded (keep cache key rs now later) cache key
unfolding keep
keep-IsBounded cache key [] now later = fail-IsBounded cache key now
keep-IsBounded cache key (r ∷ rs) now later =
    let expires_at = now + record_ttl_ms cache.positive_ttl_ms (r ∷ rs) in
    evict-le later (store cache key (some (r ∷ rs)) expires_at).entries

-- A resolution that succeeds leaves at most 512 entries; one that fails leaves one entry more if
-- its key had none, however many there are, and as many as before otherwise; one that is cancelled
-- changes nothing.
pub finish-IsBounded :
    (names : Names) (cache : DnsCache) (key : Text) (o : Outcome) (now later : ℕ)
    → IsBounded (finish names cache key o now later) cache key
unfolding finish
finish-IsBounded names cache key Outcome.aborted now later = refl
finish-IsBounded names cache key Outcome.failed now later = fail-IsBounded cache key now
finish-IsBounded names cache key (Outcome.resolved raw) now later =
    keep-IsBounded cache key (normalize_records names raw) now later
