-- ===== src/Contracts/Peer.antt =====
-- src/contracts/peer-delivery.ts: evidence that one task's worker is given by coordination.
-- Instants are readings of one clock; identities are texts.
use passeur.Base.{ℕ, String, Bool, true, false, Option, List}

-- Immutable, task-owned data.
pub record Envelope : Type 0 where
  pub delivery_id : String
  pub idempotency_key : String
  pub recipient_task_id : String
  pub recipient_run_id : String
  pub recipient_control_generation : ℕ
  pub recipient_workspace : String
  pub recipient_workspace_fingerprint : String
  pub source_work_id : String
  pub source_work_revision : ℕ
  pub case_id : String
  pub case_revision : ℕ
  pub case_generation : ℕ
  pub evidence_id : String
  pub evidence_revision : ℕ
  pub evidence_digest : String
  pub content : String

pub data DeliveryState : Type 0 where
  queued dispatch_intent delivered observed stale revoked cancelled replaced unknown : DeliveryState

pub record Delivery : Type 0 where
  pub envelope : Envelope
  pub state : DeliveryState
  pub queued_at : ℕ
  pub dispatch_intent_at : Option ℕ
  pub delivered_at : Option ℕ
  pub observed_at : Option ℕ
  pub native_turn_id : Option String
  pub native_session_id : Option String
  pub disposition_at : Option ℕ

pub data SlotState : Type 0 where
  reserved consumed released : SlotState

-- The part of a slot that identifies it: all but `state` and `delivery_id`.
pub record SlotIdentity : Type 0 where
  pub operation_key : String
  pub request_digest : String
  pub case_id : String
  pub expected_case_revision : ℕ
  pub case_revision : ℕ
  pub case_generation : ℕ
  pub recipient_task_id : String
  pub recipient_run_id : String
  pub recipient_control_generation : ℕ
  pub recipient_workspace : String
  pub recipient_workspace_fingerprint : String
  pub source_work_id : String
  pub source_work_revision : ℕ

-- A task-owned capacity claim.
pub record Slot : Type 0 where
  pub identity : SlotIdentity
  pub open identity use *
  pub state : SlotState
  pub delivery_id : Option String

pub record BundleSource : Type 0 where
  pub work_id : String
  pub work_revision : ℕ

pub record Bundle : Type 0 where
  pub operation_key : String
  pub request_digest : String
  pub case_id : String
  pub expected_case_revision : ℕ
  pub case_revision : ℕ
  pub case_generation : ℕ
  pub recipient_task_id : String
  pub recipient_run_id : String
  pub recipient_control_generation : ℕ
  pub recipient_workspace : String
  pub recipient_workspace_fingerprint : String
  pub sources : List BundleSource

-- What the coordination producer supplies.
pub record Source : Type 0 where
  pub source_work_id : String
  pub source_work_revision : ℕ
  pub case_id : String
  pub case_revision : ℕ
  pub case_generation : ℕ
  pub evidence_id : String
  pub evidence_revision : ℕ
  pub evidence_digest : String
  pub content : String
  pub idempotency_key : String

abbrev pub max_peer_deliveries : ℕ
max_peer_deliveries = 64

abbrev pub is_queued : DeliveryState → Bool
is_queued DeliveryState.queued = true
is_queued _ = false

abbrev pub is_dispatch_intent : DeliveryState → Bool
is_dispatch_intent DeliveryState.dispatch_intent = true
is_dispatch_intent _ = false

abbrev pub is_delivered : DeliveryState → Bool
is_delivered DeliveryState.delivered = true
is_delivered _ = false

abbrev pub is_observed : DeliveryState → Bool
is_observed DeliveryState.observed = true
is_observed _ = false

-- `["queued", "dispatch_intent", "delivered", "unknown"].includes(state)`.
abbrev pub is_unsettled : DeliveryState → Bool
is_unsettled DeliveryState.queued = true
is_unsettled DeliveryState.dispatch_intent = true
is_unsettled DeliveryState.delivered = true
is_unsettled DeliveryState.unknown = true
is_unsettled _ = false

abbrev pub is_reserved : SlotState → Bool
is_reserved SlotState.reserved = true
is_reserved _ = false

abbrev pub is_consumed : SlotState → Bool
is_consumed SlotState.consumed = true
is_consumed _ = false

abbrev pub is_released : SlotState → Bool
is_released SlotState.released = true
is_released _ = false
