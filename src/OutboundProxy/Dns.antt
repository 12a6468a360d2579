-- ===== src/OutboundProxy/Dns.antt =====
-- container/control-plane/services/outbound-proxy/lib/dns-cache.mjs: ProxyDnsCache. A call of
-- `resolve` is two steps, before and after it waits for the resolver, between which other calls may
-- step. The life of a record is a whole number of seconds, as DNS gives it.
use dsh_docker.Prelude.{ℕ, ◌+◌, ◌*◌, min, List, [], ◌∷◌, ◌++◌, Option, none, some, Bool, ◌&&◌, ◌||◌}
use dsh_docker.Prelude.Tests.{ltb, ◌==◌, if◌then◌else◌}
use dsh_docker.Prelude.Lists.{length}
use dsh_docker.Prelude.Text.{Text}
use dsh_docker.Prelude.Map.{Map, get, put, retain}
use dsh_docker.Prelude.Result.{Result, ok, err, ◌>>=◌}

-- `isIP`, `domainToASCII` and `toLowerCase`
pub record Names : Type 0 where
  pub is_ip : Text → ℕ
  pub to_ascii : Text → Text
  pub to_lower : Text → Text

pub record Address : Type 0 where
  pub address : Text
  pub family : ℕ
  pub ttl : ℕ

-- What the resolver may give: a text, or an object, whose fields may be of another type.
pub data RawRecord : Type 0 where
  plain : Text → RawRecord
  detailed : Option Text → ℕ → Option ℕ → RawRecord

pub data DnsError : Type 0 where
  name_invalid : DnsError
  cancelled : DnsError
  resolution_failed : DnsError

-- No records stand for the error of a resolution that failed.
pub record Entry : Type 0 where
  pub records : Option (List Address)
  pub expires_at : ℕ

pub record DnsCache : Type 0 where
  pub positive_ttl_ms : ℕ
  pub negative_ttl_ms : ℕ
  pub entries : Map Entry

-- `text.replace(/\.+$/, '')`
unfoldable pub strip_dots : Text → Text
strip_dots [] = []
strip_dots (c ∷ cs) =
    let rest = strip_dots cs in if c == b'.' && length rest == 0 then [] else c ∷ rest

abbrev pub max_entries : ℕ
max_entries = 512

-- `while (entries.size > 512) entries.delete(first)`
unfoldable pub drop_oldest : Map Entry → Map Entry
drop_oldest [] = []
drop_oldest (e ∷ m) =
    let rest = drop_oldest m in if ltb max_entries (length (e ∷ m)) then rest else e ∷ m

unfoldable pub evict : ℕ → Map Entry → Map Entry
unfolding retain drop_oldest
evict now m =
    if ltb max_entries (length m)
    then drop_oldest (retain (λ _ (e : Entry). ltb now e.expires_at) m)
    else m

-- `Math.min` of the lives of the records, in milliseconds, and the bound.
unfoldable pub record_ttl_ms : ℕ → List Address → ℕ
record_ttl_ms bound [] = bound
record_ttl_ms bound (r ∷ rs) = min (r.ttl * 1000) (record_ttl_ms bound rs)

unfoldable pub cache_key : Text → Text → Text
cache_key revision host = revision ++ (0 ∷ host)

-- What a call answers before it asks the resolver, or the key and the name that it asks for.
pub data Begun : Type 0 where
  answered : Result DnsError (List Address) → Begun
  asks : Text → Text → Begun

module _ (names : Names) where
  unfoldable pub normalize_host : Text → Result DnsError Text
  unfolding strip_dots
  normalize_host value =
      if names.is_ip value == 0
      then elim (names.to_ascii (strip_dots (names.to_lower value))) [
        | [] ↦ err name_invalid
        | c ∷ cs ↦ ok (c ∷ cs)
      ]
      else ok (names.to_lower value)

  -- A record that is of use, under the key of its family and address.
  unfoldable pub usable : RawRecord → Option Address
  usable (RawRecord.plain t) =
      let family = names.is_ip t in
      if family == 4 || family == 6
      then some (record { address = t; family = family; ttl = 60 })
      else none
  usable (RawRecord.detailed none family ttl) = none
  usable (RawRecord.detailed (some t) family ttl) =
      if (family == 4 || family == 6) && names.is_ip t == family
      then some (record {
        address = t;
        family = family;
        ttl = elim ttl [ none ↦ 60 | some s ↦ min 60 s ];
      })
      else none

  unfoldable pub collect : List RawRecord → Map Address → Map Address
  unfolding usable put
  collect [] m = m
  collect (r ∷ rs) m = elim (usable r) [
    | none ↦ collect rs m
    | some a ↦ collect rs (put ((b'0' + a.family) ∷ b':' ∷ a.address) a m)
  ]

  abbrev values : Map Address → List Address
  values [] = []
  values ((_, a) ∷ m) = a ∷ values m

  unfoldable pub normalize_records : List RawRecord → List Address
  unfolding collect
  normalize_records rs = values (collect rs [])

  unfoldable pub begin : DnsCache → Text → Text → Bool → ℕ → Result DnsError Begun
  unfolding normalize_host cache_key get
  begin cache host revision aborted now = do
    normalized ← normalize_host host
    let family = names.is_ip normalized
    let key = cache_key revision normalized
    let ask = if aborted then Begun.answered (err cancelled) else Begun.asks key normalized
    ok (
        if family == 0
        then elim (get key cache.entries) [
          | none ↦ ask
          | some e ↦
              if ltb now e.expires_at
              then Begun.answered
                  (elim e.records [ none ↦ err resolution_failed | some rs ↦ ok rs ])
              else ask
        ]
        else Begun.answered (ok (record { address = normalized; family = family; ttl = 60 } ∷ [])))

-- How the wait for the resolver ends.
pub data Outcome : Type 0 where
  resolved : List RawRecord → Outcome
  failed : Outcome
  aborted : Outcome

unfoldable pub store : DnsCache → Text → Option (List Address) → ℕ → DnsCache
unfolding put
store cache key records expires_at =
    let e : Entry = record { records = records; expires_at = expires_at } in
    record cache { entries = put key e cache.entries }

unfoldable pub fail : DnsCache → Text → ℕ → DnsCache × Result DnsError (List Address)
unfolding store
fail cache key now = (store cache key none (now + cache.negative_ttl_ms), err resolution_failed)

-- The records that are of use are kept; none of them is a failure.
unfoldable pub keep :
    DnsCache → Text → List Address → ℕ → ℕ → DnsCache × Result DnsError (List Address)
unfolding fail store record_ttl_ms evict
keep cache key [] now later = fail cache key now
keep cache key (r ∷ rs) now later =
    let expires_at = now + record_ttl_ms cache.positive_ttl_ms (r ∷ rs) in
    let full = store cache key (some (r ∷ rs)) expires_at in
    (record full { entries = evict later full.entries }, ok (r ∷ rs))

-- `now` is read when the entry is made, `later` when the cache is found too large.
unfoldable pub finish :
    Names → DnsCache → Text → Outcome → ℕ → ℕ → DnsCache × Result DnsError (List Address)
unfolding normalize_records fail keep
finish names cache key Outcome.aborted now later = (cache, err cancelled)
finish names cache key Outcome.failed now later = fail cache key now
finish names cache key (Outcome.resolved raw) now later =
    keep cache key (normalize_records names raw) now later
