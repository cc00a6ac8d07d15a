-- ===== src/Deliveries/Once.antt =====
-- src/core/coordinator.ts: along every history a delivery moves forward only, and is handed out once.
use passeur.Deliveries.History.{
  stops, accepts, settles, reconciles, notes, withholds, dispatches, queues, withheld-Follows,
  stop-Follows, queue_draft-Follows, dispatch_draft-Follows, DeliveryStep, change-Follows,
}
use passeur.Deliveries.Moves.{Follows-update_first, Follows-refl, Follows-map, Moves, Follows}
use passeur.Base.{
  is_some, sym, Option, peer_delivery_stale, ok, ◌≡◌, ◌||◌, ◌==◌, ◌&&◌, ℕ, true, throw_if-eq-ok,
  subst, some, refl, not, inr, inl, if◌then◌else◌, if_cases, find, arith, String, Option-cases,
  Bool,
}
use passeur.Contracts.Peer.{DeliveryState, Delivery}
use passeur.Control.Digests.{Digests}
use passeur.Deliveries.Receipts.{
  reached, looked_up, with_delivery, stamp, same_receipt, same_native, in_flight,
  has_idempotency_key, found_receipt, fits_target, current_receipt, bounded_text, awaits,
  accept_receipt, accept_draft, Target, Receipt,
}
use passeur.Contracts.Task.{TaskControl}
use passeur.Deliveries.Binding.{Validity}
use passeur.Control.Cancel.{stop_delivery, stop, is_settled, cancel_draft, cancel}
use passeur.Control.Cancel.Validity.{cancel_draft-cases}
use passeur.Control.Commit.Laws.{commit_cases}
use passeur.Deliveries.Dispatch.{withhold, withheld, peer_event, dispose, dispatch_draft, dispatch}
use passeur.Deliveries.Queue.{queue_draft, queue}
use passeur.Deliveries.Settling.{
  settled_status, settled_record, settle_result, settle-Moves, reconcile-Follows,
}

module _ (d : Digests) (byte_length : String → ℕ) (has_zero : String → Bool) (now : ℕ)
    (s : TaskControl) where
  with_delivery-Follows :
      (key : String) (f : Delivery → Delivery)
      → ((r : Delivery) → find (has_idempotency_key key) s.peer_deliveries ≡ some r → Moves r (f r))
      → Follows s.peer_deliveries (with_delivery key f s).peer_deliveries
  with_delivery-Follows key f moves =
      Follows-update_first (has_idempotency_key key) f s.peer_deliveries moves

  stamp-Moves :
      (turn session : String) (target : Target) (r : Delivery)
      → awaits target r.state ≡ true
      → Moves r (stamp now target turn session r)
  stamp-Moves turn session Target.delivered r h = (refl, ground arith)
  stamp-Moves turn session Target.observed r h = (refl, ground arith)

  current_receipt-Follows :
      (key turn session : String) (target : Target) (r : Delivery)
      → find (has_idempotency_key key) s.peer_deliveries ≡ some r
      → Follows s.peer_deliveries
          (current_receipt d byte_length has_zero now key turn session target r s).1.peer_deliveries
  current_receipt-Follows key turn session target r found =
      let P = λ (x : Receipt × TaskControl). Follows s.peer_deliveries x.1.peer_deliveries in
      let still = Follows-refl s.peer_deliveries in
      if_cases P
        (reached target r.state && same_receipt turn session r && same_native turn session s) _ _
        (λ _. still)
        (λ _.
          if_cases P (not (awaits target r.state)) _ _ (λ _. still)
            (λ due.
              if_cases P
                (not (bounded_text turn (byte_length turn) (has_zero turn))
                  || not (same_native turn session s)
                  || not (fits_target target turn session s r))
                _ _ (λ _. still)
                (λ _. with_delivery-Follows key (stamp now target turn session) (λ q e.
                  let same : r ≡ q = cc (found, e) in
                  subst (λ (x : Delivery). Moves x (stamp now target turn session x)) same
                    (stamp-Moves turn session target r (ground (arith, due)))))))

  lost_receipt-Follows :
      (key : String) (v : Validity) (r : Delivery)
      → find (has_idempotency_key key) s.peer_deliveries ≡ some r
      → Follows s.peer_deliveries
          (if in_flight r
            then with_delivery key (dispose now DeliveryState.unknown) s
            else s).peer_deliveries
  lost_receipt-Follows key v r found =
      if_cases (λ (u : TaskControl). Follows s.peer_deliveries u.peer_deliveries) (in_flight r) _ _
        (λ flying. with_delivery-Follows key (dispose now DeliveryState.unknown) (λ q e.
          let same : r ≡ q = cc (found, e) in
          subst (λ (x : Delivery). Moves x (dispose now DeliveryState.unknown x)) same
            (refl, ground (arith, flying))))
        (λ _. Follows-refl s.peer_deliveries)

  found_receipt-Follows :
      (key turn session : String) (target : Target) (v : Validity) (r : Delivery)
      → find (has_idempotency_key key) s.peer_deliveries ≡ some r
      → Follows s.peer_deliveries
          (found_receipt d byte_length has_zero now key turn session target v r s).1.peer_deliveries
  found_receipt-Follows key turn session target Validity.current r found =
      current_receipt-Follows key turn session target r found
  found_receipt-Follows key turn session target Validity.stale r found =
      lost_receipt-Follows key Validity.stale r found
  found_receipt-Follows key turn session target Validity.revoked r found =
      lost_receipt-Follows key Validity.revoked r found
  found_receipt-Follows key turn session target Validity.cancelled r found =
      lost_receipt-Follows key Validity.cancelled r found
  found_receipt-Follows key turn session target Validity.replaced r found =
      lost_receipt-Follows key Validity.replaced r found

  accept_draft-Follows :
      (revision : ℕ) (key turn session : String) (target : Target) (v : Validity)
      → Follows s.peer_deliveries
          (accept_draft d byte_length has_zero now revision key turn session target v
            s).1.peer_deliveries
  unfolding accept_draft
  accept_draft-Follows revision key turn session target v =
      let P = λ (x : Receipt × TaskControl). Follows s.peer_deliveries x.1.peer_deliveries in
      if_cases P (not (s.revision == revision)) _ _ (λ _. Follows-refl s.peer_deliveries)
        (λ _.
          let Q = λ (o : Option Delivery).
            Follows s.peer_deliveries
              (looked_up d byte_length has_zero now key turn session target v o
                s).1.peer_deliveries in
          elim (Option-cases (find (has_idempotency_key key) s.peer_deliveries)) [
            | inl missing ↦ subst Q (sym missing) (Follows-refl s.peer_deliveries)
            | inr (r, found) ↦
                subst Q (sym found) (found_receipt-Follows key turn session target v r found)
          ])

module _ (d : Digests) (max_receipts : ℕ) (byte_length : String → ℕ)
    (has_zero : String → Bool) where
  -- Every attempt to queue, hand out, withhold or acknowledge a delivery, note of a lost event,
  -- cancellation and settlement of the result that returns, and the reconciliation after a restart,
  -- leaves each delivery in its place, with its evidence, and moves it forward only.
  pub DeliveryStep-Follows :
      {s t : TaskControl}
      → DeliveryStep d max_receipts byte_length has_zero s t
      → Follows s.peer_deliveries t.peer_deliveries
  unfolding queue dispatch withhold peer_event accept_receipt cancel stop settle_result
  DeliveryStep-Follows {s} {t} (queues now revision source key candidate validity h) =
      change-Follows d now s (queue_draft d now revision source key candidate validity)
        (λ draft e.
          queue_draft-Follows d now s revision source key candidate validity {t = draft} e)
        h
  DeliveryStep-Follows {s} {t} (dispatches now revision head validity h) =
      change-Follows d now s (dispatch_draft d now revision head validity)
        (λ draft e. dispatch_draft-Follows d now s revision head validity {t = draft} e) h
  DeliveryStep-Follows {s} {t} (withholds now delivery validity bad h) =
      change-Follows d now s (λ u. ok (tt, withheld now delivery validity u))
        (λ draft e.
          let same : draft ≡ withheld now delivery validity s = ground arith in
          rw same (withheld-Follows d now s delivery validity bad))
        h
  DeliveryStep-Follows {s} {t} (notes now appended h) = rw h (
      if_cases (λ (u : TaskControl). Follows s.peer_deliveries u.peer_deliveries) appended _ _
        (λ _. Follows-refl s.peer_deliveries)
        (λ _.
          commit_cases d now s (record s { telemetry_omitted = true })
            (λ u. Follows s.peer_deliveries u.peer_deliveries) (Follows-refl s.peer_deliveries)
            (Follows-refl s.peer_deliveries)))
  DeliveryStep-Follows {s} {t} (accepts now revision key turn session target binding h) =
      let (_, k) =
        throw_if-eq-ok (not (bounded_text session (byte_length session) (has_zero session)))
          peer_delivery_stale _ h in
      change-Follows d now s
        (λ u.
          ok (accept_draft d byte_length has_zero now revision key turn session target binding u))
        (λ draft e.
          let same : (accept_draft d byte_length has_zero now revision key turn session target
                binding s).1
              ≡ draft =
            ground arith in
          subst (λ (u : TaskControl). Follows s.peer_deliveries u.peer_deliveries) same
            (accept_draft-Follows d byte_length has_zero now s revision key turn session target
              binding))
        k
  DeliveryStep-Follows {s} {t} (stops now id actor generation key reason h) =
      change-Follows d now s (cancel_draft d max_receipts now id actor generation key reason)
        (λ draft e.
          elim (cancel_draft-cases d max_receipts now id actor generation key reason s e) [
            | inl (same, _) ↦ rw same (Follows-refl s.peer_deliveries)
            | inr (_, _, _, first) ↦ rw first (
                if_cases (λ (u : TaskControl). Follows s.peer_deliveries u.peer_deliveries)
                  (is_settled s) _ _ (λ _. Follows-refl s.peer_deliveries)
                  (λ _. Follows-map (stop_delivery now) (stop-Follows d now s) s.peer_deliveries))
          ])
        h
  DeliveryStep-Follows {s} {t} (settles now open_issue status h) =
      change-Follows d now s
        (λ u. ok (settled_status status u, settled_record now open_issue status u))
        (λ draft e.
          let same : draft ≡ settled_record now open_issue status s = ground arith in
          rw same (
            Follows-map _ (settle-Moves now (is_some s.cancellation) open_issue) s.peer_deliveries))
        h
  DeliveryStep-Follows {s} {t} (reconciles now h) = rw h (reconcile-Follows now s)
