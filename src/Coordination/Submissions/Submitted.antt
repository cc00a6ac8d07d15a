-- ===== src/Coordination/Submissions/Submitted.antt =====
-- src/coordination/control.ts: announcements, bindings and observed cases publish as the contract
-- says.
use passeur.Base.{
  ◌⊎◌, ◌∷◌, [], ok, ◌≡◌, ◌>>=◌, ◌++◌, sym, suc, some, none, inr, inl, find, false, arith, ap,
  any_of_find-none, any, String, Result, Option-cases, Option, >>=-eq-ok,
}
use passeur.Coordination.Contract.Publication.{Unused, Served, Published, Logged, BindingEdit}
use passeur.Coordination.Contract.Edits.{WorkEdit, CaseEdit}
use passeur.Coordination.State.Commands.{Platform, ControlState}
use passeur.Coordination.State.Records.{SubmissionEvent, EventKind}
use passeur.Coordination.Parents.Capacity.{check_capacity}
use passeur.Coordination.Parents.Execute.{is_recovery_key, is_of_key, is_event_key}
use passeur.Coordination.Submissions.Announce.{keyed, with_event, same_submission_key, published}

module _ {ℓ} {A : Type ℓ} (p : Platform) (item : A) (next : ControlState) where
  pub published-eq-ok :
      {a : A} {t : ControlState}
      → published p item next ≡ ok (a, t)
      → (check_capacity p next ≡ ok tt) × (item ≡ a) × (next ≡ t)
  unfolding published
  published-eq-ok h =
      let (_, room, k) = >>=-eq-ok (check_capacity p next) _ h in
      (room, ground (arith, k), ground (arith, k))

module _ (s : ControlState) (owner key hash : String) where
  pub same_submission_key-cases :
      (prior : Option SubmissionEvent)
      → same_submission_key s owner key hash ≡ ok prior
      → (prior ≡ find (is_event_key owner key) s.submission_events)
        × (any (is_of_key owner key) s.receipts ≡ false)
        × (any (is_recovery_key owner key) s.recoveries ≡ false)
  unfolding same_submission_key
  same_submission_key-cases prior h =
      elim (Option-cases (find (is_event_key owner key) s.submission_events)) [
        | inl none_found ↦ ground (arith, none_found)
        | inr (e, found) ↦ ground (arith, found)
      ]

  unused : same_submission_key s owner key hash ≡ ok none → Unused s owner key
  unused h =
      let (fresh, receipts, recoveries) = same_submission_key-cases none h in
      (receipts, recoveries, any_of_find-none _ s.submission_events (sym fresh))

  abbrev entry : EventKind → String → ControlState → SubmissionEvent
  entry kind item next = record {
    kind = kind;
    owner = owner;
    key = key;
    item_id = item;
    request_hash = hash;
    revision = suc next.revision;
  }

  pub event-Published :
      (kind : EventKind) (item : String) (next : ControlState)
      → next ≡ record s {
        schema_version = next.schema_version;
        announcements = next.announcements;
        bindings = next.bindings;
      }
      → BindingEdit s.bindings next.bindings
      → Unused s owner key
      → Published s (with_event kind owner key item hash next)
  event-Published kind item next only edit fresh = record {
    revision = ap (λ (x : ControlState). suc x.revision) only;
    log =
        Logged.event (entry kind item next) fresh (ap (λ (x : ControlState). x.receipts) only)
          (ap (λ (x : ControlState). x.recoveries) only)
          (ap (λ (x : ControlState). x.submission_events ++ entry kind item next ∷ []) only);
    works = WorkEdit.kept (ap (λ (x : ControlState). x.works) only);
    cases = CaseEdit.kept (ap (λ (x : ControlState). x.cases) only);
    bindings = edit;
  }

  module _ {ℓ} {A : Type ℓ} (expected : EventKind) (lookup : SubmissionEvent → Option A)
      (run : Result (A × ControlState)) where
    pub keyed-cases :
        (a : A) (t : ControlState)
        → (same_submission_key s owner key hash >>= keyed expected lookup s run) ≡ ok (a, t)
        → Unused s owner key × (run ≡ ok (a, t))
          ⊎ (e : SubmissionEvent) × (find (is_event_key owner key) s.submission_events ≡ some e)
            × (lookup e ≡ some a)
            × (t ≡ s)
    keyed-cases a t h =
        let (prior, found, k) = >>=-eq-ok (same_submission_key s owner key hash) _ h in
        by_prior prior found k
      where
        by_prior :
            (prior : Option SubmissionEvent)
            → same_submission_key s owner key hash ≡ ok prior
            → keyed expected lookup s run prior ≡ ok (a, t)
            → Unused s owner key × (run ≡ ok (a, t))
              ⊎ (e : SubmissionEvent) × (find (is_event_key owner key) s.submission_events ≡ some e)
                × (lookup e ≡ some a)
                × (t ≡ s)
        by_prior none found k = inl (unused found, k)
        by_prior (some e) found k = elim (Option-cases (lookup e)) [
          | inl missing ↦ absurd (ground (arith, missing))
          | inr (item, held) ↦ inr (
            e,
            sym (same_submission_key-cases (some e) found).0,
            ground (arith, held),
            ground (arith, held),
          )
        ]

    pub keyed-Served :
        ((a : A) (t : ControlState) → Unused s owner key → run ≡ ok (a, t) → Published s t)
        → (a : A) (t : ControlState)
        → (same_submission_key s owner key hash >>= keyed expected lookup s run) ≡ ok (a, t)
        → Served s t
    keyed-Served publishes a t h = elim (keyed-cases a t h) [
      | inl (fresh, ran) ↦ inr (publishes a t fresh ran)
      | inr (_, _, _, same) ↦ inl same
    ]
