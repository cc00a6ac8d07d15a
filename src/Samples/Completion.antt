-- ===== src/Samples/Completion.antt =====
-- The completion fence at the sample records.
use passeur.Base.{◌∷◌, [], Option, ◌≡◌, true, some, refl, none, false}
use passeur.Completion.Admission.{peer_issue_of, admit_draft, admit_completion, Admission}
use passeur.Completion.Laws.{admit-completed, IsDischarged}
use passeur.Contracts.Valid.Meaning.{relations_hold_iff, IsValid}
use passeur.Contracts.Task.{TaskControl, Phase, Outcome}
use passeur.Completion.Finality.{admit_final, admit-IsValid}
use passeur.Samples.{queued_delivery, envelope, finished, digests}
use passeur.Completion.Peers.{Binding, unresolved_peer_completion}
use passeur.Contracts.Valid.{relations_hold}
use passeur.Contracts.Peer.{SlotState, Slot, DeliveryState, Delivery}

finished-IsValid : IsValid finished
unfolding relations_hold
finished-IsValid = (relations_hold_iff finished).0 refl

admitted_task : TaskControl
admitted_task = record finished {
  revision = 5;
  updated_at = 30;
  phase = Phase.finalizing;
  settled_outcome = some Outcome.completed;
}

admission : Admission
admission = record {
  outcome = Outcome.completed;
  peer_issue = none;
  native_issue = false;
  identity_changed = false;
}

abbrev newer : Delivery
newer = record queued_delivery {
  envelope = record envelope {
    delivery_id = "d2";
    idempotency_key = "k2";
    evidence_id = "e2";
    evidence_revision = 2;
  };
  state = DeliveryState.observed;
  dispatch_intent_at = some 4;
  delivered_at = some 5;
  observed_at = some 6;
  native_turn_id = some "turn";
  native_session_id = some "session";
}

abbrev consumed_slot : Slot
consumed_slot = record {
  identity = record {
    operation_key = "extend";
    request_digest = "rd";
    case_id = "case";
    expected_case_revision = 1;
    case_revision = 2;
    case_generation = 1;
    source_work_id = "work";
    source_work_revision = 1;
    recipient_task_id = "task";
    recipient_run_id = "run";
    recipient_control_generation = 1;
    recipient_workspace = "/w";
    recipient_workspace_fingerprint = "fp";
  };
  state = SlotState.consumed;
  delivery_id = some "d1";
}

-- A slot was consumed by evidence that stayed queued, as the worker has observed newer evidence.
abbrev informed : TaskControl
informed = record finished {
  peer_deliveries = queued_delivery ∷ newer ∷ [];
  peer_delivery_reservations = some (consumed_slot ∷ []);
}

abbrev at_home : Option Binding
at_home = some (record { workspace = "/w"; fingerprint = "fp" })

admit-completed_example :
    (some Outcome.completed ≡ some Outcome.completed)
    × IsDischarged digests "run" 1 at_home informed
unfolding admit_draft peer_issue_of unresolved_peer_completion admission
admit-completed_example =
    admit-completed digests "run" 1 (some Outcome.completed) at_home informed {a = admission} refl
      refl refl

-- Another admission, of another run, asks for a failure, and is told of the completion.
admit_final_example : (Outcome.completed ≡ Outcome.completed) × (admitted_task ≡ admitted_task)
unfolding admit_completion peer_issue_of unresolved_peer_completion admission admitted_task
admit_final_example =
    admit_final digests 30 31 "run" "other" 1 2 (some Outcome.completed) (some Outcome.failed) none
      none finished {a = admission} {a' = record admission { identity_changed = true }}
      {t = admitted_task} {u = admitted_task} (λ e. absurd (cc)) refl refl

admit-IsValid_example : IsValid admitted_task
unfolding admit_completion peer_issue_of unresolved_peer_completion admission admitted_task
admit-IsValid_example =
    admit-IsValid digests "run" 1 (some Outcome.completed) none 30 finished {a = admission}
      {t = admitted_task} refl finished-IsValid refl
