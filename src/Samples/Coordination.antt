-- ===== src/Samples/Coordination.antt =====
-- Sample states of the coordination of parents: a case that alice claims and hands to bob.
mod Cases
mod Submissions
use Prim.Native.String.{◌++◌ as append}
use passeur.Coordination.State.Records.{Limits, CoordinationReceipt, Case, Action}
use passeur.Coordination.State.Commands.{Request, Platform, ControlState, Command, CaseStep}
use passeur.Coordination.Parents.Execute.{with_receipt, Controller}
use passeur.Coordination.Submissions.Decision.{SubmissionDigests}
use passeur.Base.{ok, ◌∷◌, none, false, []}
use passeur.Samples.{bob, alice}
use passeur.Coordination.Parents.Cases.{claimed_case, case_subject}
use passeur.Coordination.Histories.History.{empty_control}
use passeur.Coordination.State.Lookup.{overlaps}

abbrev pub platform : Platform
platform = record {
  command_hash = λ owner command. append owner command.operation_key;
  recovery_hash = λ operator command. append operator command.operation_key;
  extension_hash = λ owner input. append owner input.operation_key;
  observation_hash = λ owner input. append owner input.operation_key;
  areas_hash = λ areas. "areas";
  state_bytes = λ state. 100;
  text_bytes = λ text. 10;
  peer_consent = λ state note. ok tt;
  peer_posting = λ guarded state owner subject kind parties text. ok tt;
  peer_case = λ text. none;
  is_application = λ text. false;
  is_settled_application = λ text. false;
  pending_stem = λ key. none;
}

abbrev pub submission_digests : SubmissionDigests
submission_digests = record {
  announce_hash = λ owner input. append owner input.operation_key;
  withdraw_hash = λ owner input. append owner input.operation_key;
  bind_hash = λ owner input. append owner input.operation_key;
  disposition_hash = λ owner kind input. append owner input.operation_key;
  terminal_hash = λ owner input. append owner input.disposition.operation_key;
  link_hash = λ owner input identity. append owner input.task_id;
  decision_hash = λ owner input overlaps. append owner input.intent_hash;
  sorted = λ overlaps. overlaps;
}

abbrev pub limits : Limits
limits = record { works = 4; cases = 4; notes = 4; receipts = 6; note_bytes = 100 }

abbrev pub controller : Controller
controller = record {
  closing = false;
  resource_versions = [];
  retirements = [];
  application_cases = [];
  transition_tasks = [];
  transition_cases = [];
  service_transitions = [];
  transition_epoch = 0;
}

abbrev pub empty : ControlState
empty = empty_control "repository" "epoch" limits

abbrev pub claiming : Command
claiming = record {
  operation_key = "k1";
  request = Request.claim_target "refs/heads/main" ("bob" ∷ []);
}

abbrev pub claimed_main : Case
claimed_main = claimed_case "case" "refs/heads/main" "alice" ("bob" ∷ []) false empty

abbrev pub claim_receipt : CoordinationReceipt
claim_receipt = record {
  owner = "alice";
  key = "k1";
  request_hash = "alicek1";
  revision = 1;
  action = Action.claim_target;
  entity = case_subject "case";
  item_id = "case";
}

abbrev pub claimed : ControlState
claimed = with_receipt claim_receipt (record empty { cases = claimed_main ∷ [] })

abbrev pub transferring : Command
transferring = record {
  operation_key = "k2";
  request = Request.on_case "case" 1 1 (CaseStep.transfer_case "bob");
}

abbrev pub with_bob : Case
with_bob = record claimed_main { lead = "bob"; generation = 2; revision = 2 }

abbrev pub transfer_receipt : CoordinationReceipt
transfer_receipt = record {
  owner = "alice";
  key = "k2";
  request_hash = "alicek2";
  revision = 2;
  action = Action.transfer_case;
  entity = case_subject "case";
  item_id = "case";
}

abbrev pub transferred : ControlState
transferred = with_receipt transfer_receipt (record claimed { cases = with_bob ∷ [] })
