-- ===== src/OutboundProxy/DnsSpec.antt =====
-- What the cache of dns-cache.mjs stands for: a memory without bounds of how the last resolution of
-- each name at each revision ended, and until when that holds.
use dsh_docker.Prelude.{ℕ, ◌+◌, List, [], ◌∷◌, Option, none, some}
use dsh_docker.Prelude.Tests.{ltb, ◌==◌, if◌then◌else◌}
use dsh_docker.Prelude.Text.{Text, text_eq}
use dsh_docker.Prelude.Result.{Result, ok, err, ◌>>=◌}
use dsh_docker.OutboundProxy.Dns.{
  Names, Address, DnsError, resolution_failed, Entry, Outcome, resolved, failed, aborted, Begun,
  normalize_host, cache_key, record_ttl_ms, normalize_records,
}

abbrev pub Memory : Type 0
Memory = Text → Option Entry

unfoldable pub remember : Text → Option Entry → Memory → Memory
unfolding text_eq
remember key none memory = memory
remember key (some e) memory = λ k. if text_eq key k then some e else memory k

-- Of the lives of what it holds the memory knows the bounds.
module _ (positive negative : ℕ) where
  unfoldable pub learned : List Address → ℕ → Entry
  unfolding record_ttl_ms
  learned [] now = record { records = none; expires_at = now + negative }
  learned (r ∷ rs) now = record {
    records = some (r ∷ rs);
    expires_at = now + record_ttl_ms positive (r ∷ rs);
  }

  unfoldable pub lesson : Names → Outcome → ℕ → Option Entry
  unfolding learned normalize_records
  lesson names aborted now = none
  lesson names failed now = some (learned [] now)
  lesson names (resolved raw) now = some (learned (normalize_records names raw) now)

module _ (names : Names) where
  -- An answer that still holds.
  unfoldable pub recall : Memory → Text → Text → ℕ → Result DnsError Begun
  unfolding normalize_host cache_key
  recall memory host revision now = do
    normalized ← normalize_host names host
    let family = names.is_ip normalized
    let key = cache_key revision normalized
    ok (
        if family == 0
        then elim (memory key) [
          | none ↦ Begun.asks key normalized
          | some e ↦
              if ltb now e.expires_at
              then Begun.answered
                  (elim e.records [ none ↦ err resolution_failed | some rs ↦ ok rs ])
              else Begun.asks key normalized
        ]
        else Begun.answered (ok (record { address = normalized; family = family; ttl = 60 } ∷ [])))
