-- ===== src/Samples.antt =====
-- Concrete records, and the theorems at them.
mod Control
mod Completion
mod Answers
mod Slots
mod Phases
mod Deliveries
mod Coordination
mod Observation
use Prim.Native.String.{◌++◌ as append}
use passeur.Base.{◌∷◌, some, none, false, [], String, ℕ}
use passeur.Control.Commit.{Actor}
use passeur.Control.Digests.{input_contents, attach_contents, cancel_contents, Digests, Contents}
use passeur.Contracts.Task.{
  clarification, TaskControl, Phase, PendingInput, NativeState, NativeEvidence, InputState,
  Coverage,
}
use passeur.Contracts.Peer.{Envelope, DeliveryState, Delivery}
use passeur.Inputs.Answer.{answer}
use passeur.Inputs.Broker.{question, claim}

abbrev phase_text : Phase → String
phase_text Phase.queued = "queued"
phase_text Phase.starting = "starting"
phase_text Phase.active = "active"
phase_text Phase.awaiting_input = "awaiting_input"
phase_text Phase.needs_attention = "needs_attention"
phase_text Phase.stopping = "stopping"
phase_text Phase.finalizing = "finalizing"
phase_text Phase.terminal = "terminal"

abbrev contents_text : Contents → String
contents_text (cancel_contents id generation reason) = append "cancel " reason
contents_text (attach_contents id owner_id) = append "attach " owner_id
contents_text (input_contents task_id id generation answer) = append "input " answer

-- Digests that tell the samples apart.
abbrev pub digests : Digests
digests = record {
  contents = contents_text;
  input = λ i. "question";
  control = λ s. append (phase_text s.phase) s.owner_id;
  group = λ g. g.source_work_id;
  slot = λ s. s.source_work_id;
  source = λ s. s.content;
  content = λ c. "ed";
  workspace = λ w. append w.task_id w.workspace;
}

abbrev pub alice : Actor
alice = record { owner_id = "alice"; client_id = "c1" }

abbrev pub bob : Actor
bob = record { owner_id = "bob"; client_id = "c2" }

abbrev pub native_live : NativeEvidence
native_live = record {
  run_id = "run";
  state = NativeState.observed_live;
  turn_id = some "turn";
  native_session_id = some "session";
  process = none;
  obligations = [];
  coverage = Coverage.turn_scoped;
  last_observed_at = some 5;
  limitation = none;
}

abbrev pub asked_once : PendingInput
asked_once = record {
  input_id = "i1";
  native_id = "n1";
  run_id = "run";
  turn_id = "turn";
  content = clarification "which branch?" (some ("main" ∷ "next" ∷ [])) false;
  digest = "question";
  revision = 2;
  state = InputState.pending;
  claim = some (record { id = "claim"; client_id = "c1"; control_generation = 1 });
  answer = none;
  operation_key = none;
}

abbrev pub envelope : Envelope
envelope = record {
  delivery_id = "d1";
  idempotency_key = "k1";
  recipient_task_id = "task";
  recipient_run_id = "run";
  recipient_control_generation = 1;
  recipient_workspace = "/w";
  recipient_workspace_fingerprint = "fp";
  source_work_id = "work";
  source_work_revision = 1;
  case_id = "case";
  case_revision = 2;
  case_generation = 1;
  evidence_id = "e";
  evidence_revision = 1;
  evidence_digest = "ed";
  content = "text";
}

abbrev pub queued_delivery : Delivery
queued_delivery = record {
  envelope = envelope;
  state = DeliveryState.queued;
  queued_at = 3;
  dispatch_intent_at = none;
  delivered_at = none;
  observed_at = none;
  native_turn_id = none;
  native_session_id = none;
  disposition_at = none;
}

-- A task of alice's that waits for the answer to one question.
abbrev pub waiting : TaskControl
waiting = record {
  task_id = "task";
  revision = 4;
  owner_id = "alice";
  control_generation = 1;
  phase = Phase.awaiting_input;
  outcome = none;
  updated_at = 6;
  native = native_live;
  inputs = asked_once ∷ [];
  receipts = [];
  peer_deliveries = queued_delivery ∷ [];
  cancellation = none;
  settled_outcome = none;
  attention = none;
  telemetry_omitted = false;
  peer_delivery_reservations = none;
}

-- The same task with its turn settled and nothing open.
abbrev pub finished : TaskControl
finished = record waiting { phase = Phase.active; inputs = []; peer_deliveries = [] }
