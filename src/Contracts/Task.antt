-- ===== src/Contracts/Task.antt =====
-- src/contracts/tasks.ts: the control record of a durable task, which is stored whole.
use passeur.Base.{ℕ, String, Bool, true, false, Option, List}
use passeur.Contracts.Peer.{Delivery, Slot}

pub data Phase : Type 0 where
  queued starting active awaiting_input needs_attention stopping finalizing terminal : Phase

pub data Outcome : Type 0 where
  completed blocked failed cancelled interrupted : Outcome

pub data InputState : Type 0 where
  pending answer_intent settled withdrawn delivery_unknown : InputState

pub data NativeState : Type 0 where
  not_started observed_live stopped unknown : NativeState

pub data Coverage : Type 0 where
  unknown turn_scoped : Coverage

pub data ReceiptKind : Type 0 where
  cancel input attach : ReceiptKind

pub data ReceiptOutcome : Type 0 where
  accepted already_terminal answer_intent adopted : ReceiptOutcome

pub record Choice : Type 0 where
  pub id : String
  pub label : String
  pub decision : String
  pub scope : String

-- `subject` is the text of its JSON value, which nothing here reads.
pub record Approval : Type 0 where
  pub id : String
  pub tool : String
  pub raw_args : String
  pub subject : String
  pub task_id : Option String
  pub workspace : Option String
  pub choices : List Choice

pub data InputData : Type 0 where
  permission : Approval → InputData
  clarification :
      (question : String) (choices : Option (List String)) (attention : Bool) → InputData

pub record Claim : Type 0 where
  pub id : String
  pub client_id : String
  pub control_generation : ℕ

-- `content` is the source's field `data`.
pub record PendingInput : Type 0 where
  pub input_id : String
  pub native_id : String
  pub run_id : String
  pub turn_id : String
  pub content : InputData
  pub digest : String
  pub revision : ℕ
  pub state : InputState
  pub claim : Option Claim
  pub answer : Option String
  pub operation_key : Option String

pub record Process : Type 0 where
  pub pid : ℕ
  pub boot_id : String
  pub started : String

pub record Obligation : Type 0 where
  pub id : String
  pub kind : String

pub record NativeEvidence : Type 0 where
  pub run_id : String
  pub state : NativeState
  pub turn_id : Option String
  pub native_session_id : Option String
  pub process : Option Process
  pub obligations : List Obligation
  pub coverage : Coverage
  pub last_observed_at : Option ℕ
  pub limitation : Option String

-- `issued_at` is the source's field `at`.
pub record ControlReceipt : Type 0 where
  pub operation_key : String
  pub hash : String
  pub kind : ReceiptKind
  pub outcome : ReceiptOutcome
  pub issued_at : ℕ
  pub input_id : Option String
  pub generation : ℕ

pub record Cancellation : Type 0 where
  pub reason : String
  pub issued_at : ℕ
  pub operation_key : String

-- Schema 3 is schema 2 with `peer_delivery_reservations`, so `none` there is schema 2.
pub record TaskControl : Type 0 where
  pub task_id : String
  pub revision : ℕ
  pub owner_id : String
  pub control_generation : ℕ
  pub phase : Phase
  pub outcome : Option Outcome
  pub updated_at : ℕ
  pub native : NativeEvidence
  pub inputs : List PendingInput
  pub receipts : List ControlReceipt
  pub peer_deliveries : List Delivery
  pub cancellation : Option Cancellation
  pub settled_outcome : Option Outcome
  pub attention : Option String
  pub telemetry_omitted : Bool
  pub peer_delivery_reservations : Option (List Slot)

abbrev pub is_terminal : Phase → Bool
is_terminal Phase.terminal = true
is_terminal _ = false

abbrev pub is_finalizing : Phase → Bool
is_finalizing Phase.finalizing = true
is_finalizing _ = false

abbrev pub is_active : Phase → Bool
is_active Phase.active = true
is_active _ = false

abbrev pub is_stopping : Phase → Bool
is_stopping Phase.stopping = true
is_stopping _ = false

abbrev pub is_needs_attention : Phase → Bool
is_needs_attention Phase.needs_attention = true
is_needs_attention _ = false

abbrev pub is_completed : Outcome → Bool
is_completed Outcome.completed = true
is_completed _ = false

abbrev pub is_pending : InputState → Bool
is_pending InputState.pending = true
is_pending _ = false

abbrev pub is_answer_intent : InputState → Bool
is_answer_intent InputState.answer_intent = true
is_answer_intent _ = false

-- `pending`, `answer_intent` or `delivery_unknown`: an obligation that is not settled.
abbrev pub is_unresolved : InputState → Bool
is_unresolved InputState.pending = true
is_unresolved InputState.answer_intent = true
is_unresolved InputState.delivery_unknown = true
is_unresolved _ = false

abbrev pub is_turn_scoped : Coverage → Bool
is_turn_scoped Coverage.turn_scoped = true
is_turn_scoped _ = false

abbrev pub is_observed_live : NativeState → Bool
is_observed_live NativeState.observed_live = true
is_observed_live _ = false

abbrev pub is_cancel : ReceiptKind → Bool
is_cancel ReceiptKind.cancel = true
is_cancel _ = false

abbrev pub kind_eq : ReceiptKind → ReceiptKind → Bool
kind_eq ReceiptKind.cancel ReceiptKind.cancel = true
kind_eq ReceiptKind.input ReceiptKind.input = true
kind_eq ReceiptKind.attach ReceiptKind.attach = true
kind_eq _ _ = false

abbrev pub is_adopted : ReceiptOutcome → Bool
is_adopted ReceiptOutcome.adopted = true
is_adopted _ = false
