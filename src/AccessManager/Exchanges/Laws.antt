-- ===== src/AccessManager/Exchanges/Laws.antt =====
-- How often a token of exchanges.mjs can be used.
use dsh_docker.Prelude.{
  ℕ, ◌+◌, ◌-◌, ◌≤◌, ◌<◌, ◌≡◌, refl, ◌∙◌, inl, inr, List, [], ◌∷◌, Option, none, some, not, arith,
}
use dsh_docker.Prelude.Tests.{leb, ltb, Bool-cases, Option-cases}
use dsh_docker.Prelude.Lists.{length}
use dsh_docker.Prelude.Text.{Text, text_eq_refl}
use dsh_docker.Prelude.Map.{
  Distinct, retain-Distinct, put-Distinct, delete-Distinct, retain-sub, get, put, delete, get-put,
  get-delete, retain-none, retain-get,
}
use dsh_docker.AccessManager.Account.{Account}
use dsh_docker.AccessManager.Exchanges.Store.{
  Handoff, Pending, Store, Source, prune, handoff_token, handoff_matches, create_handoff,
  consume_handoff, find_pending, inspect_pending,
}

module _ (digest : Text → Text) where
  handoff_gone :
      (s : Store) (value : Text) (a : Account) (target : Text) (now : ℕ)
      → length value ≤ 512
      → get (digest value) (consume_handoff digest s (some value) a target now).0.handoffs ≡ none
  unfolding consume_handoff
  handoff_gone s value a target now short =
      let gone = get-delete (digest value) (digest value) (prune s now).handoffs in
      let same = text_eq_refl (digest value) in ground arith

  handoff_missing :
      (s : Store) (value : Text) (a : Account) (target : Text) (now : ℕ)
      → get (digest value) s.handoffs ≡ none
      → (consume_handoff digest s (some value) a target now).1 ≡ none
  unfolding consume_handoff prune
  handoff_missing s value a target now h =
      let still =
        retain-none (λ _ (w : Handoff). not (leb w.expires_at now)) (digest value) s.handoffs h in
      ground arith

  -- A handoff token of at most 512 code units is good for one use: after a first use, whether it
  -- succeeded or not, each other use is refused, for every account, target and time.
  pub consume_handoff_twice :
      (s : Store) (value : Text) (a b : Account) (target other : Text) (now later : ℕ)
      → length value ≤ 512
      → (consume_handoff digest
          (consume_handoff digest s (some value) a target now).0
          (some value)
          b
          other
          later).1
        ≡ none
  consume_handoff_twice s value a b target other now later short =
      handoff_missing _ value b other later (handoff_gone s value a target now short)

  -- A handoff that was created is accepted for its account and its target, with what it was made
  -- from, until it expires, if its token has at most 512 code units.
  pub consume-create_handoff :
      (s : Store) (source : Source) (a : Account) (target drawn : Text) (now made told at : ℕ)
      → length (handoff_token drawn) ≤ 512
      → at < made + s.handoff_ttl_ms
      → let (s', ticket) = create_handoff digest s source a target drawn now made told in
        (consume_handoff digest s' (some ticket.token) a target at).1
        ≡ some (record {
          account_id = a.account_id;
          dsh_session_id = source.session_id;
          main_version = a.main_version;
          access_version = a.access_version;
          source_origin = source.origin;
          target_origin = target;
          expires_at = made + s.handoff_ttl_ms;
        })
  unfolding create_handoff consume_handoff prune handoff_matches
  consume-create_handoff s source a target drawn now made told at short early =
      let key = digest (handoff_token drawn) in
      let made_handoff : Handoff = record {
        account_id = a.account_id;
        dsh_session_id = source.session_id;
        main_version = a.main_version;
        access_version = a.access_version;
        source_origin = source.origin;
        target_origin = target;
        expires_at = made + s.handoff_ttl_ms;
      } in
      let stored : get key (put key made_handoff (prune s now).handoffs) ≡ some made_handoff =
        get-put key key made_handoff (prune s now).handoffs ∙ rw (text_eq_refl key) refl in
      let kept =
        retain-get (λ _ (h : Handoff). not (leb h.expires_at at)) key made_handoff
          (put key made_handoff (prune s now).handoffs) stored (ground arith) in
      rw kept (ground (arith, text_eq_refl a.account_id, text_eq_refl target))

-- How many inspections a pending token has left.
abbrev pub left : Store → Option Pending → ℕ
left s none = 0
left s (some p) = s.pending_attempts - p.attempts

pub record Inspection : Type 0 where
  pub account : Account
  pub target : Text
  pub at : ℕ

abbrev count_some {ℓ} : {A : Type ℓ} → Option A → ℕ
count_some none = 0
count_some (some _) = 1

module _ (digest : Text → Text) where
  -- How many of the inspections with one token succeed.
  unfoldable pub successes : Store → Text → List Inspection → ℕ
  successes s value [] = 0
  successes s value (i ∷ is) =
      let (s', r) = inspect_pending digest s (some value) i.account i.target i.at in
      count_some r + successes s' value is

  find_pending-get :
      (s : Store) (value : Text) (a : Account) (target : Text) (p : Pending)
      → find_pending digest s (some value) a target ≡ some p
      → get (digest value) s.pending ≡ some p
  unfolding find_pending
  find_pending-get s value a target p h = ground arith

  -- What a pruning leaves of the attempts that a token has.
  record Kept (s s' : Store) (value : Text) : Type 0 where
    pub distinct : Distinct s'.pending
    pub attempts : s'.pending_attempts ≡ s.pending_attempts
    pub fewer :
        (p : Pending)
        → get (digest value) s'.pending ≡ some p
        → get (digest value) s.pending ≡ some p

  prune_pending :
      (s : Store) (value : Text) (now : ℕ) → Distinct s.pending → Kept s (prune s now) value
  unfolding prune
  prune_pending s value now d =
      let test = λ (_ : Text) (p : Pending). not (leb p.expires_at now) in
      record {
        distinct = retain-Distinct test s.pending d;
        attempts = refl;
        fewer = λ p h. retain-sub test (digest value) p s.pending d h;
      }

  left_fewer :
      (s s' : Store) (value : Text)
      → Kept s s' value
      → left s' (get (digest value) s'.pending) ≤ left s (get (digest value) s.pending)
  left_fewer s s' value k = elim (Option-cases (get (digest value) s'.pending)) [
    | inl missing ↦ rw missing (omega arith)
    | inr (p, found) ↦ rw (found, k.fewer p found, k.attempts) (omega arith)
  ]

  Inspected : Store → Text → Inspection → Type 0
  Inspected s value i =
      let (s', r) = inspect_pending digest s (some value) i.account i.target i.at in
      Distinct s'.pending
      × (s'.pending_attempts ≡ s.pending_attempts)
      × (count_some r + left s' (get (digest value) s'.pending)
          ≤ left s (get (digest value) s.pending))

  Inspected-missing :
      (s : Store) (value : Text) (i : Inspection)
      → find_pending digest (prune s i.at) (some value) i.account i.target ≡ none
      → Kept s (prune s i.at) value
      → Inspected s value i
  unfolding Inspected inspect_pending
  Inspected-missing s value i missing k =
      rw (missing, inspect_pending)
        (k.distinct, k.attempts, omega (arith, left_fewer s (prune s i.at) value k))

  Inspected-found :
      (s : Store) (value : Text) (i : Inspection) (p : Pending)
      → find_pending digest (prune s i.at) (some value) i.account i.target ≡ some p
      → Kept s (prune s i.at) value
      → get (digest value) (prune s i.at).pending ≡ some p
      → Inspected s value i
  unfolding Inspected inspect_pending
  Inspected-found s value i p found k there =
      let key = digest value in
      let pending' = (prune s i.at).pending in
      let tried = record p { attempts = p.attempts + 1 } in
      let before = k.fewer p there in
      let deleted : get key (delete key pending') ≡ none =
        get-delete key key pending' ∙ rw (text_eq_refl key) refl in
      let stored : get key (put key tried pending') ≡ some tried =
        get-put key key tried pending' ∙ rw (text_eq_refl key) refl in
      elim (Bool-cases (ltb s.pending_attempts (p.attempts + 1))) [
        | inl over ↦
            rw (found, inspect_pending, over)
              (
                delete-Distinct key pending' k.distinct,
                k.attempts,
                rw (deleted, before) (omega arith),
              )
        | inr fine ↦
            rw (found, inspect_pending, fine)
              (
                put-Distinct key tried pending' k.distinct,
                k.attempts,
                rw (stored, before, k.attempts) (ground arith),
              )
      ]

  inspect_step :
      (s : Store) (value : Text) (i : Inspection)
      → Distinct s.pending
      → let (s', r) = inspect_pending digest s (some value) i.account i.target i.at in
        Distinct s'.pending
        × (s'.pending_attempts ≡ s.pending_attempts)
        × (count_some r + left s' (get (digest value) s'.pending)
            ≤ left s (get (digest value) s.pending))
  unfolding Inspected
  inspect_step s value i d =
      let pruned = prune s i.at in
      let kept = prune_pending s value i.at d in
      elim (Option-cases (find_pending digest pruned (some value) i.account i.target)) [
        | inl missing ↦ Inspected-missing s value i missing kept
        | inr (p, found) ↦
            Inspected-found s value i p found kept
              (find_pending-get pruned value i.account i.target p found)
      ]

  -- A pending token is inspected with success at most as often as it has attempts left, whoever
  -- asks and when, in a store whose pending keys are distinct.
  pub successes-le :
      (s : Store) (value : Text) (is : List Inspection)
      → Distinct s.pending
      → successes s value is ≤ left s (get (digest value) s.pending)
  unfolding successes
  successes-le s value [] d = omega arith
  successes-le s value (i ∷ is) d =
      let s' = (inspect_pending digest s (some value) i.account i.target i.at).0 in
      let step = inspect_step s value i d in omega (arith, successes-le s' value is step.0)
