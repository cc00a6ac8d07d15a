-- ===== src/Contracts/Valid.antt =====
-- The rules of the schemas in src/contracts/tasks.ts and src/contracts/peer-delivery.ts that relate
-- several fields of a task's control record. What bears on one field (lengths of texts and lists,
-- formats, safe integers) and the schema of an input's data, which is fixed from outside before the
-- record is written, are left out.
pub mod Meaning
pub mod Keeps
use Prim.Native.String.{◌++◌ as append}
use passeur.Base.{
  distinct, ℕ, suc, ◌+◌, String, Bool, true, false, not, ◌&&◌, ◌||◌, Option, none, some, List, [],
  ◌∷◌, map, ltb, leb, ◌==◌, str_eq, opt_str_eq, if◌then◌else◌, is_some, length, any, all, find,
  filter,
}
use passeur.Contracts.Peer.{
  Bundle, Envelope, DeliveryState, Delivery, Slot, SlotState, max_peer_deliveries, is_reserved,
  is_consumed,
}
use passeur.Contracts.Task.{
  TaskControl, PendingInput, InputState, Claim, Outcome, Phase, is_terminal, is_completed,
  is_pending, is_unresolved,
}

abbrev pub has_answer : InputState → Bool
has_answer InputState.answer_intent = true
has_answer InputState.settled = true
has_answer InputState.delivery_unknown = true
has_answer _ = false

abbrev pub nonempty : Option String → Bool
nonempty none = false
nonempty (some s) = not (str_eq s "")

-- The refinement of `PendingInputSchema`.
abbrev pub pending_input_ok : PendingInput → Bool
pending_input_ok i =
    not (has_answer i.state && (not (is_some i.answer) || not (nonempty i.operation_key)))
    && not (is_some i.claim && not (is_pending i.state))

abbrev needs_dispatch : DeliveryState → Bool
needs_dispatch DeliveryState.dispatch_intent = true
needs_dispatch DeliveryState.delivered = true
needs_dispatch DeliveryState.observed = true
needs_dispatch DeliveryState.unknown = true
needs_dispatch _ = false

abbrev needs_native : DeliveryState → Bool
needs_native DeliveryState.delivered = true
needs_native DeliveryState.observed = true
needs_native _ = false

abbrev needs_observation : DeliveryState → Bool
needs_observation DeliveryState.observed = true
needs_observation _ = false

abbrev needs_disposition : DeliveryState → Bool
needs_disposition DeliveryState.stale = true
needs_disposition DeliveryState.revoked = true
needs_disposition DeliveryState.cancelled = true
needs_disposition DeliveryState.replaced = true
needs_disposition DeliveryState.unknown = true
needs_disposition _ = false

-- The refinement of `PeerDeliveryRecordSchema`: each state has the evidence that leads to it.
abbrev pub delivery_ok : Delivery → Bool
delivery_ok r =
    not (is_some r.native_session_id && not (is_some r.native_turn_id))
    && not (needs_dispatch r.state && not (is_some r.dispatch_intent_at))
    && not (
        needs_native r.state
        && (not (is_some r.delivered_at)
            || not (is_some r.native_turn_id)
            || not (is_some r.native_session_id)))
    && not (needs_observation r.state && not (is_some r.observed_at))
    && not (needs_disposition r.state && not (is_some r.disposition_at))

-- The refinement of `PeerDeliverySlotReservationSchema`.
abbrev xor : Bool → Bool → Bool
xor true b = not b
xor false b = b

abbrev pub slot_ok : Slot → Bool
slot_ok s =
    not (xor (is_consumed s.state) (is_some s.delivery_id))
    && s.case_revision == suc s.expected_case_revision

abbrev claim_current : ℕ → Option Claim → Bool
claim_current generation none = true
claim_current generation (some c) = c.control_generation == generation

-- The input belongs to the current native run, and its claim to the current control generation.
abbrev pub input_current : String → ℕ → ℕ → PendingInput → Bool
input_current run revision generation i =
    str_eq i.run_id run && leb i.revision revision && claim_current generation i.claim

abbrev pub is_some_completed : Option Outcome → Bool
is_some_completed none = false
is_some_completed (some o) = is_completed o

abbrev pub input_ids : List PendingInput → List String
input_ids inputs = map (λ i. i.input_id) inputs

abbrev pub receipt_keys : TaskControl → List String
receipt_keys v = map (λ r. r.operation_key) v.receipts

abbrev pub delivery_keys : List Delivery → List String
delivery_keys ds = map (λ d. d.envelope.idempotency_key) ds

abbrev pub owned_by : String → Delivery → Bool
owned_by task d = str_eq d.envelope.recipient_task_id task

-- `validateTaskControl`.
unfoldable pub validate_task_control : TaskControl → Bool
validate_task_control v =
    not (xor (is_terminal v.phase) (is_some v.outcome))
    && not (is_some_completed v.outcome && is_some v.cancellation)
    && (distinct (input_ids v.inputs) && distinct (receipt_keys v))
    && all (input_current v.native.run_id v.revision v.control_generation) v.inputs
    && (distinct (delivery_keys v.peer_deliveries) && all (owned_by v.task_id) v.peer_deliveries)
    && not (is_terminal v.phase && any (λ i. is_unresolved i.state) v.inputs)

abbrev pub slot_key : Slot → String
slot_key s = append s.operation_key (append ":" s.source_work_id)

-- The delivery that a consumed slot names, field by field.
abbrev pub binds : Slot → Delivery → Bool
binds s d =
    opt_str_eq (some d.envelope.delivery_id) s.delivery_id
    && str_eq d.envelope.case_id s.case_id
    && d.envelope.case_revision == s.case_revision
    && d.envelope.case_generation == s.case_generation
    && str_eq d.envelope.source_work_id s.source_work_id
    && d.envelope.source_work_revision == s.source_work_revision
    && str_eq d.envelope.recipient_task_id s.recipient_task_id
    && str_eq d.envelope.recipient_run_id s.recipient_run_id
    && d.envelope.recipient_control_generation == s.recipient_control_generation
    && str_eq d.envelope.recipient_workspace s.recipient_workspace
    && str_eq d.envelope.recipient_workspace_fingerprint s.recipient_workspace_fingerprint

abbrev pub slot_bound : String → List Delivery → Slot → Bool
slot_bound task ds s =
    str_eq s.recipient_task_id task && (not (is_consumed s.state) || any (binds s) ds)

-- The loop over `operationDigests`: later slots of an operation carry the digest of an earlier one.
abbrev pub digests_agree : List Slot → Bool
digests_agree [] = true
digests_agree (s ∷ ss) =
    all
      (λ t.
        not (str_eq t.operation_key s.operation_key) || str_eq t.request_digest s.request_digest)
      ss
    && digests_agree ss

abbrev pub reserved_count : List Slot → ℕ
reserved_count slots = length (filter (λ s. is_reserved s.state) slots)

-- The further refinement of `TaskControlV3Schema`.
unfoldable pub validate_slots : TaskControl → List Slot → Bool
validate_slots v slots =
    leb (length v.peer_deliveries + reserved_count slots) max_peer_deliveries
    && distinct (map slot_key slots)
    && all (slot_bound v.task_id v.peer_deliveries) slots
    && digests_agree slots

abbrev pub slots_valid : TaskControl → Option (List Slot) → Bool
slots_valid v none = true
slots_valid v (some slots) = validate_slots v slots && all slot_ok slots

-- The rules between fields that `TaskControlSchema` checks: those of the record, of its inputs, its
-- deliveries and its slots. The lengths of its lists are not among them but for the deliveries and the
-- slots together, nor is what the data of an input, its choices included, has to meet by itself.
unfoldable pub relations_hold : TaskControl → Bool
unfolding validate_task_control validate_slots
relations_hold v =
    validate_task_control v
    && all pending_input_ok v.inputs
    && all delivery_ok v.peer_deliveries
    && slots_valid v v.peer_delivery_reservations

-- The refinement of `PeerDeliverySlotBundleSchema`, with the bounds on its sources.
abbrev pub bundle_ok : Bundle → Bool
bundle_ok b =
    b.case_revision == suc b.expected_case_revision
    && distinct (map (λ s. s.work_id) b.sources)
    && leb 1 (length b.sources)
    && leb (length b.sources) max_peer_deliveries
