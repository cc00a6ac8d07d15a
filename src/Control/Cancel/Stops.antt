-- ===== src/Control/Cancel/Stops.antt =====
-- src/core/task-control.ts: what `cancel` leaves, and what `preflightCancel` says of it beforehand.
use passeur.Base.{
  Option-cases, ◌⊎◌, if◌then◌else◌, if_cases, not, false, all-true, all-map, all, ◌||◌, is_some,
  inr, inl, true, some, refl, none, arith, ok, find, String, ℕ, ◌≡◌,
}
use passeur.Control.Digests.{Digests}
use passeur.Control.Commit.{Actor}
use passeur.Control.Cancel.{
  reported, preflight_cancel, Preflight, withdraw_input, stop_delivery, is_settled, new_receipt,
  has_key, ControlReceipt, TaskControl, stop, cancel_draft, cancel,
}
use passeur.Contracts.Task.{is_pending, ReceiptOutcome, Phase}
use passeur.Control.Cancel.Validity.{cancel_draft-cases, first_draft}
use passeur.Control.Commit.Laws.{commit_of_draft, change-eq-ok, NoCollision}
use passeur.Contracts.Peer.{is_queued, is_dispatch_intent, is_delivered}
use passeur.Inputs.Answer.{lost}
use passeur.Control.Cancel.Laws.{first_draft-has_receipt}

module _ (d : Digests) (max_receipts : ℕ) (id : String) (actor : Actor) (generation : ℕ)
    (key reason : String) where
  -- What an accepted cancellation leaves: a stopping task, with no input that waits or is
  -- claimed, and no delivery that waits or is under way.
  pub record IsStopped (now : ℕ) (t : TaskControl) : Type 0 where
    pub phase : t.phase ≡ Phase.stopping
    pub recorded :
        t.cancellation ≡ some (record { reason = reason; issued_at = now; operation_key = key })
    pub no_input : all (λ i. not (is_pending i.state || is_some i.claim)) t.inputs ≡ true
    pub no_delivery :
        all
          (λ q. not (is_queued q.state || is_dispatch_intent q.state || is_delivered q.state))
          t.peer_deliveries
        ≡ true

  stop-IsStopped : (now : ℕ) (s : TaskControl) → IsStopped now (stop now key reason s)
  unfolding stop
  stop-IsStopped now s = record {
    phase = refl;
    recorded = refl;
    no_input =
        all-map (λ i. true) _ withdraw_input (λ i _. ground arith) s.inputs (all-true s.inputs);
    no_delivery =
        all-map (λ q. true) _ (stop_delivery now) (λ q _. ground arith) s.peer_deliveries
          (all-true s.peer_deliveries);
  }

  IsStopped-revision :
      (now : ℕ) (t : TaskControl) (n m : ℕ)
      → IsStopped now t
      → IsStopped now (record t { revision = n; updated_at = m })
  IsStopped-revision now t n m h = record {
    phase = h.phase;
    recorded = h.recorded;
    no_input = h.no_input;
    no_delivery = h.no_delivery;
  }

  first_draft-IsStopped :
      (now : ℕ) (s : TaskControl)
      → is_settled s ≡ false
      → IsStopped now (first_draft d max_receipts now id actor generation key reason s)
  first_draft-IsStopped now s running =
      if_cases (IsStopped now) (is_settled s) _ _ (λ e. absurd (ground (arith, e, running)))
        (λ _. stop-IsStopped now _)

  -- The first cancellation of a task that has not settled stops it, and its receipt says so, if the
  -- digests of the record before and after do not collide.
  pub cancel_stops :
      (now : ℕ) (s : TaskControl) {r : ControlReceipt} {t : TaskControl}
      → is_settled s ≡ false
      → s.cancellation ≡ none
      → find (has_key key) s.receipts ≡ none
      → NoCollision d s (first_draft d max_receipts now id actor generation key reason s)
      → cancel d max_receipts now id actor generation key reason s ≡ ok (r, t)
      → IsStopped now t
        × (r.outcome ≡ ReceiptOutcome.accepted)
        × (find (has_key key) t.receipts ≡ some r)
  unfolding cancel
  cancel_stops now s {r} {t} running none_yet fresh apart h =
      let (draft, e, k) =
        change-eq-ok d now (cancel_draft d max_receipts now id actor generation key reason) s h in
      elim (cancel_draft-cases d max_receipts now id actor generation key reason s e) [
        | inl (_, old) ↦ absurd (ground (arith, old, fresh, none_yet))
        | inr (_, _, made, first) ↦
            let r' = new_receipt d max_receipts now s id generation key reason in
            let stopped = first_draft-IsStopped now s running in
            let found =
              first_draft-has_receipt d max_receipts id actor generation key reason now s fresh in
            let (done, kept) : IsStopped now t × (find (has_key key) t.receipts ≡ some r') =
              rw (k, first)
                (commit_of_draft d now s _
                  (λ u. IsStopped now u × (find (has_key key) u.receipts ≡ some r'))
                  (λ n m. (IsStopped-revision now _ n m stopped, found)) (stopped, found) apart) in
            (done, ground (arith, made, running), rw made kept)
      ]

  -- A preflight that returns a receipt predicts the cancellation's, which then changes nothing; one
  -- that returns none predicts by its flag whether the cancellation stops the task.
  pub preflight-cancel :
      (now : ℕ) (s : TaskControl) {p : Preflight}
      → preflight_cancel d max_receipts id actor generation key reason s ≡ ok p
      → (r : ControlReceipt) × (t : TaskControl) × (cancel_draft d max_receipts now id actor
            generation key reason s
          ≡ ok (r, t))
        × ((p.receipt ≡ some r) × (p.transition ≡ false) × (t ≡ s)
            ⊎ (p.receipt ≡ none)
              × (s.cancellation ≡ none)
              × (p.transition ≡ is_some t.cancellation)
              × (r.outcome ≡ (
                  if p.transition
                  then ReceiptOutcome.accepted
                  else ReceiptOutcome.already_terminal)))
  unfolding preflight_cancel cancel_draft
  preflight-cancel now s {p} h = elim (Option-cases (find (has_key key) s.receipts)) [
    | inr (saved, found) ↦ (saved, s, ground arith, inl (ground arith, ground arith, refl))
    | inl fresh ↦ elim (Option-cases s.cancellation) [
      | inr (c, stopped) ↦ elim (Option-cases (find (has_key c.operation_key) s.receipts)) [
        | inl lost ↦ absurd (ground arith)
        | inr (r, found) ↦ (
          record r { outcome = reported s },
          s,
          ground arith,
          inl (ground arith, ground arith, refl),
        )
      ]
      | inl none_yet ↦ (
        new_receipt d max_receipts now s id generation key reason,
        first_draft d max_receipts now id actor generation key reason s,
        ground arith,
        inr (ground arith, none_yet, ground arith, ground arith),
      )
    ]
  ]
