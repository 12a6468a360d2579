-- ===== src/Updater/Journal.antt =====
-- container/control-plane/modules/updater/lib/journal.mjs: the class `UpdateJournal`. The document is
-- taken with its fields in place and of their types; the syntax of an ISO timestamp is the parameter
-- `is_timestamp`.
use dsh_docker.Prelude.{List, [], ◌∷◌, Option, none, some, Bool, true, false, ◌&&◌, ◌||◌, not}
use dsh_docker.Prelude.Tests.{leb, ◌==◌}
use dsh_docker.Prelude.Lists.{length}
use dsh_docker.Prelude.Text.{Text, text_eq, codes}
use dsh_docker.Prelude.Result.{Result, ok, err, ◌>>=◌, ◌>>◌, guard}
use dsh_docker.Platform.Contracts.{
  TrustError, invalid, conflict, missing, all_chars, is_alphanumeric,
}

pub data Phase : Type 0 where
  planning : Phase
  candidate_ready : Phase
  suspended : Phase
  snapshot_created : Phase
  switched : Phase
  probation : Phase
  committed : Phase
  restoring_data : Phase
  rolled_back : Phase
  failed : Phase

-- `TRANSITIONS`
unfoldable pub may_follow : Phase → Phase → Bool
may_follow planning candidate_ready = true
may_follow planning failed = true
may_follow candidate_ready suspended = true
may_follow candidate_ready failed = true
may_follow suspended snapshot_created = true
may_follow suspended failed = true
may_follow snapshot_created switched = true
may_follow snapshot_created restoring_data = true
may_follow snapshot_created failed = true
may_follow switched probation = true
may_follow switched restoring_data = true
may_follow probation committed = true
may_follow probation restoring_data = true
may_follow restoring_data rolled_back = true
may_follow restoring_data failed = true
may_follow committed restoring_data = true
may_follow _ _ = false

-- `['committed', 'rolled-back', 'failed'].includes(phase)`
unfoldable pub is_terminal : Phase → Bool
is_terminal committed = true
is_terminal rolled_back = true
is_terminal failed = true
is_terminal _ = false

pub data Mode : Type 0 where
  stable : Mode
  experimental : Mode

abbrev pub same_mode : Mode → Mode → Bool
same_mode stable stable = true
same_mode experimental experimental = true
same_mode _ _ = false

-- What an update leaves. Its data snapshot and receipts are those of `from` alone.
pub record Origin : Type 0 where
  pub dsh : Text
  pub environment : Text
  pub runtime : Text
  pub data_snapshot : Option Text
  pub receipt_tokens : List Text

pub record Goal : Type 0 where
  pub dsh : Text
  pub environment : Text
  pub runtime : Text

pub record Journal : Type 0 where
  pub transaction_id : Text
  pub mode : Mode
  pub phase : Phase
  pub origin : Origin
  pub goal : Goal
  pub snapshot_id : Option Text
  pub receipt_tokens : List Text
  pub probation_until : Option Text
  pub error : Option Text
  pub updated_at : Text

-- What `begin` is told.
pub record Plan : Type 0 where
  pub transaction_id : Text
  pub mode : Mode
  pub origin : Origin
  pub goal : Goal

-- What `transition` may be told to change, whatever is not `none`.
pub record Fields : Type 0 where
  pub transaction_id : Option Text
  pub mode : Option Mode
  pub origin : Option Origin
  pub goal : Option Goal
  pub snapshot_id : Option (Option Text)
  pub receipt_tokens : Option (List Text)
  pub probation_until : Option (Option Text)
  pub error : Option (Option Text)

abbrev is_present : Text → Bool
is_present [] = false
is_present (_ ∷ _) = true

-- `/^[A-Za-z0-9-]{1,128}$/`
unfoldable pub is_transaction_id : Text → Bool
is_transaction_id t =
    is_present t && (leb (length t) 128 && all_chars (λ c. is_alphanumeric c || c == b'-') t)

abbrev pub or_old {ℓ} : {A : Type ℓ} → Option A → A → A
or_old none old = old
or_old (some new) old = new

module _ (is_timestamp : Text → Bool) where
  abbrev is_deadline : Option Text → Bool
  is_deadline none = true
  is_deadline (some t) = is_timestamp t

  unfoldable pub parse_journal : Journal → Result TrustError Journal
  unfolding is_transaction_id
  parse_journal j = do
    guard (is_transaction_id j.transaction_id) (invalid (codes "transaction ID"))
    guard (is_deadline j.probation_until) (invalid (codes "probation deadline"))
    guard (is_timestamp j.updated_at) (invalid (codes "update time"))
    guard
        (is_present j.origin.dsh
          && (is_present j.origin.environment && is_present j.origin.runtime))
        (invalid (codes "from"))
    guard (is_present j.goal.dsh && (is_present j.goal.environment && is_present j.goal.runtime))
        (invalid (codes "to"))
    ok j

  -- The file, which is read as it was written.
  unfoldable pub read : Option Journal → Result TrustError (Option Journal)
  unfolding parse_journal
  read none = ok none
  read (some j) = do parsed ← parse_journal j; ok (some parsed)

  unfoldable is_open : Option Journal → Bool
  unfolding is_terminal
  is_open none = false
  is_open (some j) = not (is_terminal j.phase)

  -- The file behind the call, which is the one before it where it fails.
  unfoldable pub begin : Option Journal → Plan → Text → Result TrustError Journal
  unfolding read is_open parse_journal
  begin file p now = do
    previous ← read file
    guard (not (is_open previous)) (conflict (codes "an update transaction journal already exists"))
    parse_journal (record {
      transaction_id = p.transaction_id;
      mode = p.mode;
      phase = planning;
      origin = p.origin;
      goal = p.goal;
      snapshot_id = none;
      receipt_tokens = [];
      probation_until = none;
      error = none;
      updated_at = now;
    })

  abbrev pub changed : Journal → Phase → Fields → Text → Journal
  changed j phase f now = record {
    transaction_id = or_old f.transaction_id j.transaction_id;
    mode = or_old f.mode j.mode;
    phase = phase;
    origin = or_old f.origin j.origin;
    goal = or_old f.goal j.goal;
    snapshot_id = or_old f.snapshot_id j.snapshot_id;
    receipt_tokens = or_old f.receipt_tokens j.receipt_tokens;
    probation_until = or_old f.probation_until j.probation_until;
    error = or_old f.error j.error;
    updated_at = now;
  }

  unfoldable pub transition : Option Journal → Phase → Fields → Text → Result TrustError Journal
  unfolding read may_follow parse_journal text_eq
  transition file phase f now = read file >>= λ o. elim o [
    | none ↦ err (missing (codes "journal"))
    | some current ↦ do
      guard (may_follow current.phase phase) (invalid (codes "transition"))
      next ← parse_journal (changed current phase f now)
      guard (text_eq next.transaction_id current.transaction_id && same_mode next.mode current.mode)
          (invalid (codes "identity"))
      ok next
  ]

  -- The file is gone.
  unfoldable pub clear : Option Journal → Result TrustError (Option Journal)
  unfolding read is_open
  clear file = do
    current ← read file
    guard (not (is_open current)) (conflict (codes "nonterminal"))
    ok none
