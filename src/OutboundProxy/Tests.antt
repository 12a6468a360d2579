-- ===== src/OutboundProxy/Tests.antt =====
-- Concrete runs of the outbound proxy's parts, and the theorems on them.
use dsh_docker.Prelude.{◌≡◌, refl, List, [], ◌∷◌, none, some, false}
use dsh_docker.Prelude.Tests.{◌==◌, if◌then◌else◌}
use dsh_docker.Prelude.Text.{text_eq, codes}
use dsh_docker.Prelude.Result.{ok}
use dsh_docker.OutboundProxy.Dns.{
  Names, Address, Begun, RawRecord, resolved, failed, cache_key, begin, finish,
}
use dsh_docker.OutboundProxy.DnsBounds.{IsBounded, finish-IsBounded}
use dsh_docker.OutboundProxy.DnsSpec.{recall}
use dsh_docker.OutboundProxy.DnsRefine.{Answer, empty_cache, run, learn, begin-run}

-- An address begins with a digit.
abbrev names : Names
names = record {
  is_ip = λ t. elim t [ [] ↦ 0 | c ∷ cs ↦ if c == b'1' then 4 else 0 ];
  to_ascii = λ t. t;
  to_lower = λ t. t;
}

abbrev known : Address
known = record { address = codes "1.2.3.4"; family = 4; ttl = 30 }

abbrev answers : List Answer
unfolding cache_key
answers =
    record {
      key = cache_key (codes "r") (codes "a");
      outcome = resolved (RawRecord.detailed (some (codes "1.2.3.4")) 4 (some 30) ∷ []);
      now = 0;
      later = 0;
    }
    ∷ record { key = cache_key (codes "r") (codes "b"); outcome = failed; now = 5; later = 5 }
    ∷ []

hit :
    begin names (run names (empty_cache 60000 10000) answers) (codes "a.") (codes "r") false 29999
    ≡ ok (Begun.answered (ok (known ∷ [])))
unfolding answers begin run text_eq
hit = refl

begin-run_example :
    recall names (learn names 60000 10000 (λ key. none) answers) (codes "a.") (codes "r") 29999
    ≡ ok (Begun.answered (ok (known ∷ [])))
begin-run_example =
    begin-run names 60000 10000 answers (codes "a.") (codes "r") 29999 (ok (known ∷ [])) hit

finish-IsBounded_example :
    IsBounded
      (finish names (empty_cache 60000 10000) (codes "a") failed 0 0)
      (empty_cache 60000 10000)
      (codes "a")
finish-IsBounded_example = finish-IsBounded names (empty_cache 60000 10000) (codes "a") failed 0 0
