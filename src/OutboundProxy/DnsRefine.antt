-- ===== src/OutboundProxy/DnsRefine.antt =====
-- The cache of dns-cache.mjs against the memory that it stands for: what it answers, the memory answers.
use mathlib.Core.Path.{subst}
use dsh_docker.Prelude.{ℕ, ◌+◌, ◌≡◌, refl, inl, inr, List, [], ◌∷◌, none, some, Bool, false, arith}
use dsh_docker.Prelude.Tests.{ltb, ◌==◌, Bool-cases, Option-cases}
use dsh_docker.Prelude.Text.{Text, text_eq_iff}
use dsh_docker.Prelude.Map.{
  Map, get, put, retain, get-put, Distinct, put-Distinct, retain-Distinct, retain-sub,
}
use dsh_docker.Prelude.Result.{Result, ok, bind-ok}
use dsh_docker.OutboundProxy.Dns.{
  Names, Address, DnsError, Entry, DnsCache, Outcome, resolved, failed, aborted, Begun, drop_oldest,
  evict, normalize_host, cache_key, record_ttl_ms, normalize_records, begin, store, fail, keep,
  finish,
}
use dsh_docker.OutboundProxy.DnsSpec.{Memory, remember, learned, lesson, recall}

drop_oldest-get :
    (k : Text) (e : Entry) (m : Map Entry)
    → Distinct m
    → get k (drop_oldest m) ≡ some e
    → get k m ≡ some e
unfolding drop_oldest get
drop_oldest-get k e [] d h = h
drop_oldest-get k e ((j, w) ∷ m) d h = ground (arith, drop_oldest-get k e m d.1, text_eq_iff j k)

drop_oldest-Distinct : (m : Map Entry) → Distinct m → Distinct (drop_oldest m)
unfolding drop_oldest
drop_oldest-Distinct [] d = tt
drop_oldest-Distinct (e ∷ m) d = ground (arith, drop_oldest-Distinct m d.1)

evict-get :
    (now : ℕ) (k : Text) (e : Entry) (m : Map Entry)
    → Distinct m
    → get k (evict now m) ≡ some e
    → get k m ≡ some e
unfolding evict
evict-get now k e m d h =
    let p : Text → Entry → Bool = λ _ e. ltb now e.expires_at in
    let d' = retain-Distinct p m d in
    ground (arith, drop_oldest-get k e (retain p m) d', retain-sub p k e m d)

evict-Distinct : (now : ℕ) (m : Map Entry) → Distinct m → Distinct (evict now m)
unfolding evict
evict-Distinct now m d =
    let p : Text → Entry → Bool = λ _ e. ltb now e.expires_at in
    ground (arith, drop_oldest-Distinct (retain p m) (retain-Distinct p m d))

-- Each entry of the cache is what the memory holds under its key.
pub record Refines (positive negative : ℕ) (cache : DnsCache) (memory : Memory) : Type 0 where
  pub positive_same : cache.positive_ttl_ms ≡ positive
  pub negative_same : cache.negative_ttl_ms ≡ negative
  pub distinct : Distinct cache.entries
  pub agrees : (k : Text) (e : Entry) → get k cache.entries ≡ some e → memory k ≡ some e

store-agrees :
    (k key : Text) (e e' : Entry) (m : Map Entry) (memory : Memory)
    → ((k : Text) (e : Entry) → get k m ≡ some e → memory k ≡ some e)
    → get k (put key e' m) ≡ some e
    → remember key (some e') memory k ≡ some e
unfolding remember
store-agrees k key e e' m memory a h = ground (arith, get-put key k e' m, a k e)

module _ (positive negative : ℕ) where
  fail-Refines :
      (cache : DnsCache) (memory : Memory) (key : Text) (now : ℕ)
      → Refines positive negative cache memory
      → Refines positive negative
          (fail cache key now).0
          (remember key (some (learned positive negative [] now)) memory)
  unfolding fail store learned
  fail-Refines cache memory key now r = record {
    positive_same = r.positive_same;
    negative_same = r.negative_same;
    distinct = put-Distinct key _ cache.entries r.distinct;
    agrees = λ k e h.
        store-agrees k key e (record { records = none; expires_at = now + negative }) cache.entries
          memory r.agrees (rw r.negative_same at h);
  }

  keep-Refines :
      (cache : DnsCache) (memory : Memory) (key : Text) (rs : List Address) (now later : ℕ)
      → Refines positive negative cache memory
      → Refines positive negative
          (keep cache key rs now later).0
          (remember key (some (learned positive negative rs now)) memory)
  unfolding keep store learned
  keep-Refines cache memory key [] now later r = fail-Refines cache memory key now r
  keep-Refines cache memory key (a ∷ rs) now later r =
      let e : ℕ → Entry = λ bound. record {
        records = some (a ∷ rs);
        expires_at = now + record_ttl_ms bound (a ∷ rs);
      } in
      let d : (bound : ℕ) → Distinct (put key (e bound) cache.entries) =
        λ bound. put-Distinct key (e bound) cache.entries r.distinct in
      record {
        positive_same = r.positive_same;
        negative_same = r.negative_same;
        distinct =
            evict-Distinct later (put key (e cache.positive_ttl_ms) cache.entries)
              (d cache.positive_ttl_ms);
        agrees = λ k e' h. store-agrees k key e' (e positive) cache.entries memory r.agrees (
            evict-get later k e' (put key (e positive) cache.entries) (d positive) (
              subst (λ (b : ℕ). get k (evict later (put key (e b) cache.entries)) ≡ some e')
                r.positive_same h));
      }

  finish-Refines :
      (names : Names) (cache : DnsCache) (memory : Memory) (key : Text) (o : Outcome)
      (now later : ℕ)
      → Refines positive negative cache memory
      → Refines positive negative
          (finish names cache key o now later).0
          (remember key (lesson positive negative names o now) memory)
  unfolding finish lesson remember
  finish-Refines names cache memory key aborted now later r = r
  finish-Refines names cache memory key failed now later r = fail-Refines cache memory key now r
  finish-Refines names cache memory key (resolved raw) now later r =
      keep-Refines cache memory key (normalize_records names raw) now later r

-- A call that has waited for the resolver.
pub record Answer : Type 0 where
  pub key : Text
  pub outcome : Outcome
  pub now : ℕ
  pub later : ℕ

-- A new cache.
abbrev pub empty_cache : ℕ → ℕ → DnsCache
empty_cache positive negative = record {
  positive_ttl_ms = positive;
  negative_ttl_ms = negative;
  entries = [];
}

empty_none : (k : Text) (e : Entry) → ¬ (get k [] ≡ some e)
unfolding get
empty_none k e h = cc

module _ (names : Names) where
  -- The cache after such calls, in the order in which they end.
  unfoldable pub run : DnsCache → List Answer → DnsCache
  unfolding finish
  run cache [] = cache
  run cache (a ∷ rest) = run (finish names cache a.key a.outcome a.now a.later).0 rest

  -- The memory after the same calls.
  unfoldable pub learn : ℕ → ℕ → Memory → List Answer → Memory
  unfolding remember lesson
  learn positive negative memory [] = memory
  learn positive negative memory (a ∷ rest) =
      learn positive negative
        (remember a.key (lesson positive negative names a.outcome a.now) memory) rest

  run-Refines :
      (positive negative : ℕ) (rest : List Answer) (cache : DnsCache) (memory : Memory)
      → Refines positive negative cache memory
      → Refines positive negative (run cache rest) (learn positive negative memory rest)
  unfolding run learn
  run-Refines positive negative [] cache memory r = r
  run-Refines positive negative (a ∷ rest) cache memory r =
      run-Refines positive negative rest (finish names cache a.key a.outcome a.now a.later).0
        (remember a.key (lesson positive negative names a.outcome a.now) memory)
        (finish-Refines positive negative names cache memory a.key a.outcome a.now a.later r)

  begin-recall :
      (positive negative : ℕ) (cache : DnsCache) (memory : Memory) (host revision : Text) (now : ℕ)
      (answer : Result DnsError (List Address))
      → Refines positive negative cache memory
      → begin names cache host revision false now ≡ ok (Begun.answered answer)
      → recall names memory host revision now ≡ ok (Begun.answered answer)
  unfolding begin recall
  begin-recall positive negative cache memory host revision now answer r h =
      let (n, (normal, h1)) = bind-ok (normalize_host names host) _ (Begun.answered answer) h in
      elim (Bool-cases (names.is_ip n == 0)) [
        | inr literal ↦ rw (normal, literal) (rw literal at h1)
        | inl name ↦ elim (Option-cases (get (cache_key revision n) cache.entries)) [
          | inl missed ↦ absurd (cc (rw (name, missed) at h1))
          | inr (e, found) ↦
              let known : memory (cache_key revision n) ≡ some e =
                r.agrees (cache_key revision n) e found in
              elim (Bool-cases (ltb now e.expires_at)) [
                | inl fresh ↦ rw (normal, name, known, fresh) (rw (name, found, fresh) at h1)
                | inr stale ↦ absurd (cc (rw (name, found, stale) at h1))
              ]
        ]
      ]

  -- The cache refines a memory without bounds: whatever resolutions have ended before, in whatever
  -- order, an answer that a call gives without asking the resolver, and that is no cancellation,
  -- is the one that such a memory of the last resolution of the name at that revision gives then.
  pub begin-run :
      (positive negative : ℕ) (rest : List Answer) (host revision : Text) (now : ℕ)
      (answer : Result DnsError (List Address))
      → begin names (run (empty_cache positive negative) rest) host revision false now
        ≡ ok (Begun.answered answer)
      → recall names (learn positive negative (λ key. none) rest) host revision now
        ≡ ok (Begun.answered answer)
  begin-run positive negative rest host revision now answer h =
      begin-recall positive negative (run (empty_cache positive negative) rest)
        (learn positive negative (λ key. none) rest) host revision now answer
        (run-Refines positive negative rest (empty_cache positive negative) (λ key. none)
          (record {
            positive_same = refl;
            negative_same = refl;
            distinct = tt;
            agrees = λ k e x. absurd (empty_none k e x);
          }))
        h
