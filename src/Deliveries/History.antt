-- ===== src/Deliveries/History.antt =====
-- src/core/coordinator.ts and src/core/task-control.ts: a task's deliveries under the operations that
-- change them, in any order. Of the operations on the control record cancellation does, and so do the
-- settlement of the result and the reconciliation of stored tasks.
use passeur.Control.Commit.{change, Actor}
use passeur.Base.{
  peer_delivery_stale, peer_delivery_cancelled, ◌⊎◌, ◌∷◌, throw_if-eq-ok, some, not, none, is_some,
  find, [], ◌==◌, str_eq, inr, inl, Option-cases, Bool-cases, ok, ◌≡◌, ℕ, refl, find-pass, false,
  arith, String, Result, Option, Bool,
}
use passeur.Contracts.Task.{Outcome, TaskControl, ControlReceipt}
use passeur.Contracts.Peer.{Source, Envelope, DeliveryState, Delivery}
use passeur.Control.Digests.{Digests}
use passeur.Deliveries.Moves.{
  Follows-append, may_become_refl, Moves, Follows-update_first, Follows-refl, Follows,
}
use passeur.Deliveries.Queue.{
  with_queued, validity_code, repeat_queue, queue_valued, fresh_delivery, queue_draft, admit_new,
  queue, Queued,
}
use passeur.Deliveries.Receipts.{accept_receipt, Target, Receipt}
use passeur.Deliveries.Dispatch.{
  withheld, queue_head, intend, dispatch_head, dispatch_draft, withhold, with_head, peer_event,
  dispose, dispatch, Turn,
}
use passeur.Deliveries.Binding.{is_done, immutable_envelope, is_current_validity, Validity}
use passeur.Control.Cancel.{stop_delivery, cancel}
use passeur.Control.Commit.Laws.{commit_cases, change-eq-ok}
use passeur.Deliveries.Settling.{settle_result, reconcile_deliveries}

-- One call that returned. The record that an attempt read, and what was decided of it, is anything.
pub data DeliveryStep (d : Digests) (max_receipts : ℕ) (byte_length : String → ℕ)
    (has_zero : String → Bool) (s t : TaskControl) : Type 0 where
  queues :
      (now revision : ℕ) (source : Source) (key : Option String) (candidate : Option Envelope)
      (validity : Validity) {q : Queued}
      → queue d now revision source key candidate validity s ≡ ok (q, t)
      → DeliveryStep d max_receipts byte_length has_zero s t
  dispatches :
      (now revision : ℕ) (head : Delivery) (validity : Validity) {q : Turn}
      → dispatch d now revision head validity s ≡ ok (q, t)
      → DeliveryStep d max_receipts byte_length has_zero s t
  withholds :
      (now : ℕ) (delivery : String) (validity : Validity)
      → is_current_validity validity ≡ false
      → withhold d now delivery validity s ≡ ok (tt, t)
      → DeliveryStep d max_receipts byte_length has_zero s t
  notes :
      (now : ℕ) (appended : Bool)
      → t ≡ peer_event d now appended s
      → DeliveryStep d max_receipts byte_length has_zero s t
  accepts :
      (now revision : ℕ) (key turn session : String) (target : Target) (binding : Validity)
      {a : Receipt}
      → accept_receipt d byte_length has_zero now revision key turn session target binding s
        ≡ ok (a, t)
      → DeliveryStep d max_receipts byte_length has_zero s t
  stops :
      (now : ℕ) (id : String) (actor : Actor) (generation : ℕ) (key reason : String)
      {r : ControlReceipt}
      → cancel d max_receipts now id actor generation key reason s ≡ ok (r, t)
      → DeliveryStep d max_receipts byte_length has_zero s t
  settles :
      (now : ℕ) (open_issue : Bool) (status : Outcome) {o : Outcome}
      → settle_result d now open_issue status s ≡ ok (o, t)
      → DeliveryStep d max_receipts byte_length has_zero s t
  reconciles :
      (now : ℕ)
      → t ≡ reconcile_deliveries now s
      → DeliveryStep d max_receipts byte_length has_zero s t

module _ (d : Digests) (now : ℕ) (s : TaskControl) where
  -- A change moves the deliveries as its callback does.
  pub change-Follows {ℓ} :
      {A : Type ℓ} (f : TaskControl → Result (A × TaskControl)) {a : A} {t : TaskControl}
      → ((draft : TaskControl)
          → f s ≡ ok (a, draft)
          → Follows s.peer_deliveries draft.peer_deliveries)
      → change d now f s ≡ ok (a, t)
      → Follows s.peer_deliveries t.peer_deliveries
  change-Follows f keep e =
      let (draft, e', k) = change-eq-ok d now f s e in
      rw k (
        commit_cases d now s draft (λ u. Follows s.peer_deliveries u.peer_deliveries)
          (Follows-refl s.peer_deliveries) (keep draft e'))

  dispose_head-Follows :
      (state : DeliveryState)
      → Follows s.peer_deliveries (with_head (dispose now state) s).peer_deliveries
  dispose_head-Follows state =
      Follows-update_first _ (dispose now state) s.peer_deliveries
        (λ r found. (refl, ground (arith, find-pass _ s.peer_deliveries r found)))

  dispatch_head-Follows :
      (validity : Validity) (r : Delivery) {q : Turn} {t : TaskControl}
      → dispatch_head d now validity r s ≡ ok (q, t)
      → Follows s.peer_deliveries t.peer_deliveries
  dispatch_head-Follows Validity.current r {q} {t} h =
      let same : t ≡ with_head (intend now) s = unfold immutable_envelope in ground arith in
      rw same (
        Follows-update_first _ (intend now) s.peer_deliveries
          (λ r found. (refl, ground (arith, find-pass _ s.peer_deliveries r found))))
  dispatch_head-Follows Validity.stale r {q} {t} h =
      let same : t ≡ with_head (dispose now DeliveryState.stale) s = ground arith in
      rw same (dispose_head-Follows DeliveryState.stale)
  dispatch_head-Follows Validity.revoked r {q} {t} h =
      let same : t ≡ with_head (dispose now DeliveryState.revoked) s = ground arith in
      rw same (dispose_head-Follows DeliveryState.revoked)
  dispatch_head-Follows Validity.cancelled r {q} {t} h =
      let same : t ≡ with_head (dispose now DeliveryState.cancelled) s = ground arith in
      rw same (dispose_head-Follows DeliveryState.cancelled)
  dispatch_head-Follows Validity.replaced r {q} {t} h =
      let same : t ≡ with_head (dispose now DeliveryState.replaced) s = ground arith in
      rw same (dispose_head-Follows DeliveryState.replaced)

  pub stays-Follows : {t : TaskControl} → t ≡ s → Follows s.peer_deliveries t.peer_deliveries
  stays-Follows same = rw same (Follows-refl s.peer_deliveries)

  pub dispatch_draft-Follows :
      (revision : ℕ) (head : Delivery) (validity : Validity) {q : Turn} {t : TaskControl}
      → dispatch_draft d now revision head validity s ≡ ok (q, t)
      → Follows s.peer_deliveries t.peer_deliveries
  unfolding dispatch_draft
  dispatch_draft-Follows revision head validity {q} {t} h =
      elim (Bool-cases (s.revision == revision)) [
        | inr e ↦ stays-Follows {t = t} (ground (arith, e))
        | inl e ↦ elim (Option-cases (queue_head s)) [
          | inl none_left ↦ stays-Follows {t = t} (ground (arith, e, none_left))
          | inr (r, found) ↦
              elim (Bool-cases (str_eq r.envelope.delivery_id head.envelope.delivery_id)) [
                | inr other ↦ stays-Follows {t = t} (ground (arith, e, found, other))
                | inl same ↦
                    dispatch_head-Follows validity r {q = q} {t = t} (rw (e, found, same) at h)
              ]
        ]
      ]

  pub withheld-Follows :
      (delivery : String) (validity : Validity)
      → is_current_validity validity ≡ false
      → Follows s.peer_deliveries (withheld now delivery validity s).peer_deliveries
  withheld-Follows delivery validity h =
      Follows-update_first _ _ s.peer_deliveries
        (λ r _. (ground arith, ground (arith, may_become_refl r.state)))

  pub stop-Follows : (r : Delivery) → Moves r (stop_delivery now r)
  stop-Follows r = (ground arith, ground (arith, may_become_refl r.state))

  pub admit_new-cases :
      (key : Option String) (e : Envelope) {q : Queued} {t : TaskControl}
      → admit_new d now key e s ≡ ok (q, t)
      → t ≡ with_queued now e s
  unfolding admit_new
  admit_new-cases key e h = ground arith

  pub queue_valued-cases :
      (source : Source) (key : Option String) (candidate : Option Envelope) (validity : Validity)
      {q : Queued} {t : TaskControl}
      → queue_valued d now source key candidate validity s ≡ ok (q, t)
      → (t ≡ s) ⊎ ((e : Envelope) × (t ≡ with_queued now e s))
  unfolding immutable_envelope
  queue_valued-cases source key none validity h = cc
  queue_valued-cases source key (some e) validity {q} {t} h =
      let (_, k) =
        throw_if-eq-ok (not (is_current_validity validity)) (validity_code validity) _ h in
      elim (Option-cases
        (find (λ r. str_eq r.envelope.idempotency_key source.idempotency_key) s.peer_deliveries)) [
          | inl fresh ↦ inr (e, admit_new-cases key e {q = q} {t = t} (rw fresh at k))
          | inr (prior, found) ↦
              let again : repeat_queue d source prior s ≡ ok (q, t) = rw found at k in
              inl (ground (arith, again))
        ]

  pub queue_draft-Follows :
      (revision : ℕ) (source : Source) (key : Option String) (candidate : Option Envelope)
      (validity : Validity) {q : Queued} {t : TaskControl}
      → queue_draft d now revision source key candidate validity s ≡ ok (q, t)
      → Follows s.peer_deliveries t.peer_deliveries
  unfolding queue_draft
  queue_draft-Follows revision source key candidate validity {q} {t} h =
      elim (Bool-cases (s.revision == revision)) [
        | inr e ↦ stays-Follows {t = t} (ground (arith, e))
        | inl e ↦
            let (_, k) =
              throw_if-eq-ok (is_some s.cancellation) peer_delivery_cancelled _ (rw e at h) in
            let (_, k') = throw_if-eq-ok (is_done s) peer_delivery_stale _ k in
            elim (queue_valued-cases source key candidate validity {q = q} {t = t} k') [
              | inl same ↦ stays-Follows {t = t} same
              | inr (fresh, grown) ↦
                  rw grown (Follows-append s.peer_deliveries (fresh_delivery now fresh ∷ []))
            ]
      ]
