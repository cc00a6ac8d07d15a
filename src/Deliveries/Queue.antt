-- ===== src/Deliveries/Queue.antt =====
-- `queuePeerDelivery` of src/core/coordinator.ts.
use passeur.Base.{
  peer_delivery_replaced, peer_delivery_revoked, peer_delivery_reservation_stale,
  peer_delivery_stale, peer_delivery_reservation_required, peer_delivery_capacity,
  peer_delivery_cancelled, peer_delivery_unavailable, peer_delivery_reservation_released,
  peer_delivery_key_conflict, peer_delivery_capacity_pending, ok, err, ◌∷◌, ◌>>◌, ◌>>=◌, ◌==◌, ◌+◌,
  ◌++◌, ◌&&◌, ℕ, update_first, throw_if, str_eq, some, opt_str_eq, not, none, length, leb, is_some,
  if◌then◌else◌, find, false, any, [], String, Result, Option, List, Code, Bool,
}
use passeur.Contracts.Peer.{
  max_peer_deliveries, is_reserved, is_released, is_consumed, Source, SlotState, Slot, Envelope,
  DeliveryState, Delivery,
}
use passeur.Control.Digests.{Digests}
use passeur.Contracts.Task.{is_observed_live, TaskControl}
use passeur.Deliveries.Binding.{is_done, is_current_validity, immutable_envelope, World, Validity}
use passeur.Control.Commit.{change}
use passeur.Slots.Recipient.{is_pending_resource, fingerprint}
use passeur.Completion.Peers.{reservations}
use passeur.Contracts.Valid.{reserved_count}

-- How an attempt ends.
pub data Queued : Type 0 where
  retry : Queued
  value : Envelope → Queued

abbrev pub is_reserved_for : Envelope → Slot → Bool
is_reserved_for e slot =
    is_reserved slot.state
    && str_eq slot.recipient_task_id e.recipient_task_id
    && str_eq slot.recipient_run_id e.recipient_run_id
    && slot.recipient_control_generation == e.recipient_control_generation
    && str_eq slot.recipient_workspace e.recipient_workspace
    && str_eq slot.recipient_workspace_fingerprint e.recipient_workspace_fingerprint
    && str_eq slot.case_id e.case_id
    && slot.case_revision == e.case_revision
    && slot.case_generation == e.case_generation
    && str_eq slot.source_work_id e.source_work_id
    && slot.source_work_revision == e.source_work_revision

abbrev pub is_consumed_for : String → Envelope → Slot → Bool
is_consumed_for key e slot =
    is_consumed slot.state
    && str_eq slot.operation_key key
    && str_eq slot.case_id e.case_id
    && slot.case_revision == e.case_revision
    && slot.case_generation == e.case_generation
    && str_eq slot.source_work_id e.source_work_id
    && leb slot.source_work_revision e.source_work_revision
    && str_eq slot.recipient_task_id e.recipient_task_id
    && str_eq slot.recipient_run_id e.recipient_run_id
    && slot.recipient_control_generation == e.recipient_control_generation
    && str_eq slot.recipient_workspace e.recipient_workspace
    && str_eq slot.recipient_workspace_fingerprint e.recipient_workspace_fingerprint

-- The operation that was ruled out asks for its former obligation.
abbrev pub is_ruled_out : Option String → Envelope → Slot → Bool
is_ruled_out key e slot =
    is_released slot.state
    && str_eq slot.case_id e.case_id
    && slot.case_revision == e.case_revision
    && slot.case_generation == e.case_generation
    && str_eq slot.source_work_id e.source_work_id
    && opt_str_eq (some slot.operation_key) key

abbrev pub other_operation : Option String → Option Slot → Bool
other_operation key none = false
other_operation key (some slot) = not (opt_str_eq (some slot.operation_key) key)

-- `reservationOperationKey && !matchingSlot`, without a consumed slot of that operation.
abbrev pub lacks_slot : Option String → Envelope → Option Slot → List Slot → Bool
lacks_slot none e matching slots = false
lacks_slot (some key) e matching slots =
    not (str_eq key "") && not (is_some matching) && not (any (is_consumed_for key e) slots)

abbrev pub is_pending_case : Envelope → Slot → Bool
is_pending_case e slot =
    str_eq slot.case_id e.case_id
    && slot.case_revision == e.case_revision
    && str_eq slot.source_work_id e.source_work_id

abbrev capacity_code : Envelope → List Slot → Code
capacity_code e slots =
    if any (is_pending_case e) slots then peer_delivery_capacity_pending else peer_delivery_capacity

abbrev pub validity_code : Validity → Code
validity_code Validity.current = peer_delivery_unavailable
validity_code Validity.stale = peer_delivery_stale
validity_code Validity.revoked = peer_delivery_revoked
validity_code Validity.cancelled = peer_delivery_cancelled
validity_code Validity.replaced = peer_delivery_replaced

abbrev pub source_of : Envelope → Source
source_of e = record {
  source_work_id = e.source_work_id;
  source_work_revision = e.source_work_revision;
  case_id = e.case_id;
  case_revision = e.case_revision;
  case_generation = e.case_generation;
  evidence_id = e.evidence_id;
  evidence_revision = e.evidence_revision;
  evidence_digest = e.evidence_digest;
  content = e.content;
  idempotency_key = e.idempotency_key;
}

abbrev pub fresh_delivery : ℕ → Envelope → Delivery
fresh_delivery now e = record {
  envelope = e;
  state = DeliveryState.queued;
  queued_at = now;
  dispatch_intent_at = none;
  delivered_at = none;
  observed_at = none;
  native_turn_id = none;
  native_session_id = none;
  disposition_at = none;
}

abbrev pub consume : String → Slot → Slot
consume delivery slot = record slot { state = SlotState.consumed; delivery_id = some delivery }

abbrev pub consume_first : Envelope → Option (List Slot) → Option (List Slot)
consume_first e none = none
consume_first e (some slots) = some (update_first (is_reserved_for e) (consume e.delivery_id) slots)

abbrev pub with_queued : ℕ → Envelope → TaskControl → TaskControl
with_queued now e s = record s {
  peer_deliveries = s.peer_deliveries ++ fresh_delivery now e ∷ [];
  peer_delivery_reservations = consume_first e s.peer_delivery_reservations;
}

module _ (d : Digests) where
  -- The envelope of an attempt, from the source and the record that was read.
  abbrev pub envelope_of : String → Source → String → World → TaskControl → Option Envelope
  envelope_of delivery source id w s = elim w.entry [
    | none ↦ none
    | some entry ↦ elim w.resource [
      | none ↦ none
      | some resource ↦ elim entry.workspace [
        | none ↦ none
        | some workspace ↦
            if entry.request_version == 5
              && not (str_eq workspace "")
              && is_pending_resource resource.state
              && opt_str_eq resource.worktree_path (some workspace)
              && is_observed_live s.native.state
            then some (record {
              delivery_id = delivery;
              idempotency_key = source.idempotency_key;
              recipient_task_id = id;
              recipient_run_id = s.native.run_id;
              recipient_control_generation = s.control_generation;
              recipient_workspace = workspace;
              recipient_workspace_fingerprint = fingerprint d id entry workspace resource;
              source_work_id = source.source_work_id;
              source_work_revision = source.source_work_revision;
              case_id = source.case_id;
              case_revision = source.case_revision;
              case_generation = source.case_generation;
              evidence_id = source.evidence_id;
              evidence_revision = source.evidence_revision;
              evidence_digest = source.evidence_digest;
              content = source.content;
            })
            else none
      ]
    ]
  ]

  -- A delivery of the same key is the same evidence, or a conflict.
  abbrev pub repeat_queue : Source → Delivery → TaskControl → Result (Queued × TaskControl)
  repeat_queue source prior s = do
    throw_if (not (str_eq (d.source (source_of prior.envelope)) (d.source source)))
        peer_delivery_key_conflict
    immutable_envelope d prior.envelope >>= λ e. ok (value e, s)

  unfoldable pub admit_new :
      ℕ → Option String → Envelope → TaskControl → Result (Queued × TaskControl)
  admit_new now key e s = do
    let slots = reservations s
    let matching = find (is_reserved_for e) slots
    throw_if (any (is_ruled_out key e) slots) peer_delivery_reservation_released
    throw_if (other_operation key matching) peer_delivery_reservation_required
    throw_if (lacks_slot key e matching slots) peer_delivery_reservation_stale
    throw_if
        (leb max_peer_deliveries (length s.peer_deliveries + reserved_count slots)
          && not (is_some matching))
        (capacity_code e slots)
    ok (value e, with_queued now e s)

  abbrev pub queue_valued :
      ℕ
      → Source
      → Option String
      → Option Envelope
      → Validity
      → TaskControl
      → Result (Queued × TaskControl)
  queue_valued now source key none validity s = err peer_delivery_unavailable
  queue_valued now source key (some e) validity s =
      throw_if (not (is_current_validity validity)) (validity_code validity)
      >> elim (find (λ r. str_eq r.envelope.idempotency_key source.idempotency_key)
          s.peer_deliveries) [
            | some prior ↦ repeat_queue source prior s
            | none ↦ admit_new now key e s
          ]

  -- The callback of an attempt.
  unfoldable pub queue_draft :
      ℕ
      → ℕ
      → Source
      → Option String
      → Option Envelope
      → Validity
      → TaskControl
      → Result (Queued × TaskControl)
  queue_draft now revision source key candidate validity s =
      if not (s.revision == revision)
      then ok (retry, s)
      else (throw_if (is_some s.cancellation) peer_delivery_cancelled
          >> (throw_if (is_done s) peer_delivery_stale
              >> queue_valued now source key candidate validity s))

  unfoldable pub queue :
      ℕ
      → ℕ
      → Source
      → Option String
      → Option Envelope
      → Validity
      → TaskControl
      → Result (Queued × TaskControl)
  unfolding change queue_draft
  queue now revision source key candidate validity s =
      change d now (queue_draft now revision source key candidate validity) s
