-- ===== src/AccessManager/RateLimiter/Attempts.antt =====
-- Histories of calls on one limiter of rate-limiter.mjs: attempts under way, each with the closure
-- `release` that `enter` gave it.
use dsh_docker.Prelude.{
  ℕ, zero, suc, ◌+◌, ◌-◌, ◌≤◌, ◌≡◌, refl, inl, inr, List, [], ◌∷◌, ◌++◌, none, some, Bool, true,
  false, arith,
}
use dsh_docker.Prelude.Tests.{if◌then◌else◌, Option-cases}
use dsh_docker.Prelude.Lists.{get_elem?, set, All}
use dsh_docker.Prelude.Text.{Text}
use dsh_docker.AccessManager.RateLimiter.Limiter.{
  Config, Limiter, Ticket, Result, ok, err, init, check_retry, enter, source_status, settle,
  release, key_of,
}
use dsh_docker.AccessManager.RateLimiter.Status.{status, clear, clear_global}
use dsh_docker.AccessManager.RateLimiter.Waits.{IsPositive}
use dsh_docker.AccessManager.RateLimiter.Admission.{
  SameLoad, SameLoad-current_retry, SameLoad-check_retry, SameLoad-prune_expired_sources,
  EnterOutcome, enter_outcome,
}

-- The limiter and all tickets that were given out, the oldest first.
pub record World : Type 0 where
  pub limiter : Limiter
  pub tickets : List Ticket

pub data Call : Type 0 where
  enters : Text → Text → Text → ℕ → ℕ → Call
  releases : ℕ → Bool → ℕ → ℕ → ℕ → Call
  checks : Text → ℕ → Call
  reports : Text → Text → ℕ → (Text → ℕ) → Call
  clears : Text → Text → ℕ → (Text → ℕ) → Call
  clears_global : Text → ℕ → Call

abbrev add_ticket : World → Limiter × Result Ticket → World
add_ticket w (l, err e) = record w { limiter = l }
add_ticket w (l, ok t) = record { limiter = l; tickets = w.tickets ++ (t ∷ []) }

unfoldable pub step : World → Call → World
step w (enters account source credential now later) =
    add_ticket w (enter w.limiter account source credential now later)
step w (releases i success failed_at now later) = elim (get_elem? w.tickets i) [
  | none ↦ w
  | some t ↦
      let (l', t', _) = release w.limiter t success failed_at now later in
      record { limiter = l'; tickets = set w.tickets i t' }
]
step w (checks key now) = record w { limiter = (check_retry w.limiter key now).0 }
step w (reports account credential now clock) = record w {
  limiter = (status w.limiter account credential now clock).0;
}
step w (clears account credential now clock) = record w {
  limiter = (clear w.limiter account credential now clock).0;
}
step w (clears_global credential now) = record w {
  limiter = (clear_global w.limiter credential now).0;
}

unfoldable pub run : World → List Call → World
run w [] = w
run w (c ∷ cs) = run (step w c) cs

abbrev pub start : Config → World
start c = record { limiter = init c; tickets = [] }

-- The attempts that are under way.
abbrev pub open_count : List Ticket → ℕ
open_count [] = 0
open_count (t ∷ ts) = if t.released then open_count ts else suc (open_count ts)

-- The limiter counts the open tickets, within its limit.
pub record Inv (c : Config) (w : World) : Type 0 where
  pub config : w.limiter.config ≡ c
  pub counted : w.limiter.active ≡ open_count w.tickets
  pub bounded : w.limiter.active ≤ c.max_concurrent

open_count-append :
    (ts : List Ticket) (t : Ticket)
    → t.released ≡ false
    → open_count (ts ++ (t ∷ [])) ≡ open_count ts + 1
open_count-append [] t h = ground arith
open_count-append (x ∷ ts) t h = ground (arith, open_count-append ts t h)

open_count-set_open :
    (ts : List Ticket) (i : ℕ) (t t' : Ticket)
    → get_elem? ts i ≡ some t
    → t.released ≡ false
    → t'.released ≡ true
    → open_count (set ts i t') + 1 ≡ open_count ts
open_count-set_open [] i t t' e o r = cc
open_count-set_open (x ∷ ts) zero t t' e o r = ground arith
open_count-set_open (x ∷ ts) (suc i) t t' e o r =
    ground (arith, open_count-set_open ts i t t' e o r)

open_count-set_released :
    (ts : List Ticket) (i : ℕ) (t t' : Ticket)
    → get_elem? ts i ≡ some t
    → t.released ≡ true
    → t'.released ≡ true
    → open_count (set ts i t') ≡ open_count ts
open_count-set_released [] i t t' e o r = cc
open_count-set_released (x ∷ ts) zero t t' e o r = ground arith
open_count-set_released (x ∷ ts) (suc i) t t' e o r =
    ground (arith, open_count-set_released ts i t t' e o r)

Inv-SameLoad :
    (c : Config) (w : World) (l : Limiter)
    → SameLoad w.limiter l
    → Inv c w
    → Inv c (record w { limiter = l })
Inv-SameLoad c w l s v = ground arith

SameLoad-source_status :
    (l : Limiter) (key : Text) (now later : ℕ) → SameLoad l (source_status l key now later).0
unfolding source_status
SameLoad-source_status l key now later = ground (arith, SameLoad-current_retry l key now)

SameLoad-status :
    (l : Limiter) (account credential : Text) (now : ℕ) (clock : Text → ℕ)
    → SameLoad l (status l account credential now clock).0
unfolding status
SameLoad-status l account credential now clock =
    ground (arith, SameLoad-prune_expired_sources l now)

SameLoad-clear :
    (l : Limiter) (account credential : Text) (now : ℕ) (clock : Text → ℕ)
    → SameLoad l (clear l account credential now clock).0
unfolding clear
SameLoad-clear l account credential now clock =
    let s = SameLoad-status l account credential now clock in
    record { config = s.config; active = s.active }

SameLoad-clear_global :
    (l : Limiter) (credential : Text) (now : ℕ) → SameLoad l (clear_global l credential now).0
unfolding clear_global
SameLoad-clear_global l credential now = ground arith

settle_load :
    (l : Limiter) (t : Ticket) (success : Bool) (failed_at : ℕ)
    → ((settle l t success failed_at).config ≡ l.config)
      × ((settle l t success failed_at).active ≡ (if t.released then l.active else l.active - 1))
unfolding settle
settle_load l t success failed_at = (ground arith, ground arith)

add_ticket-Inv :
    (c : Config) (w : World) (now : ℕ) (r : Limiter × Result Ticket)
    → EnterOutcome w.limiter now r
    → Inv c w
    → Inv c (add_ticket w r)
add_ticket-Inv c w now (l, err e) o v = Inv-SameLoad c w l o v
add_ticket-Inv c w now (l, ok t) o v = ground (arith, open_count-append w.tickets t o.open_ticket)

release-Inv :
    (c : Config) (w : World) (i : ℕ) (t : Ticket) (success : Bool) (failed_at now later : ℕ)
    → get_elem? w.tickets i ≡ some t
    → Inv c w
    → Inv c (step w (releases i success failed_at now later))
unfolding step release
release-Inv c w i t success failed_at now later e v = ground (
  arith,
  settle_load w.limiter t success failed_at,
  SameLoad-source_status (settle w.limiter t success failed_at) (key_of t) now later,
  open_count-set_open w.tickets i t (record t { released = true }) e,
  open_count-set_released w.tickets i t (record t { released = true }) e,
)

step-Inv :
    (c : Config) (w : World) (call : Call)
    → All IsPositive c.source_windows
    → All IsPositive c.global_windows
    → Inv c w
    → Inv c (step w call)
unfolding step
step-Inv c w (enters account source credential now later) ps pg v =
    add_ticket-Inv c w later (enter w.limiter account source credential now later)
      (enter_outcome w.limiter account source credential now later (rw v.config ps)
        (rw v.config pg))
      v
step-Inv c w (releases i success failed_at now later) ps pg v =
    elim (Option-cases (get_elem? w.tickets i)) [
      | inl missing ↦ rw (missing, step) v
      | inr (t, found) ↦ release-Inv c w i t success failed_at now later found v
    ]
step-Inv c w (checks key now) ps pg v =
    Inv-SameLoad c w _ (SameLoad-check_retry w.limiter key now) v
step-Inv c w (reports account credential now clock) ps pg v =
    Inv-SameLoad c w _ (SameLoad-status w.limiter account credential now clock) v
step-Inv c w (clears account credential now clock) ps pg v =
    Inv-SameLoad c w _ (SameLoad-clear w.limiter account credential now clock) v
step-Inv c w (clears_global credential now) ps pg v =
    Inv-SameLoad c w _ (SameLoad-clear_global w.limiter credential now) v

run_from-Inv :
    (c : Config) (w : World) (calls : List Call)
    → All IsPositive c.source_windows
    → All IsPositive c.global_windows
    → Inv c w
    → Inv c (run w calls)
unfolding run
run_from-Inv c w [] ps pg v = v
run_from-Inv c w (call ∷ calls) ps pg v =
    run_from-Inv c (step w call) calls ps pg (step-Inv c w call ps pg v)

start-Inv : (c : Config) → Inv c (start c)
unfolding init
start-Inv c = record { config = refl; counted = refl; bounded = omega arith }

-- Whatever is called on a new limiter, in whatever order, its settings stay, the attempts that it
-- counts as under way are the tickets not yet released, and they are never more than
-- `maxConcurrent`, where every window's limit is at least 1.
pub run-Inv :
    (c : Config) (calls : List Call)
    → All IsPositive c.source_windows
    → All IsPositive c.global_windows
    → Inv c (run (start c) calls)
run-Inv c calls ps pg = run_from-Inv c (start c) calls ps pg (start-Inv c)
