-- ===== src/Coordination/State/Commands.antt =====
-- src/contracts/coordination-control.ts: the commands of parents and of operators, and the control
-- state. A command is grouped the way `apply` groups it: what changes an owned work or an owned
-- case shares the fields that name it.
use passeur.Base.{Bool, Result, ℕ, String, List, ◌+◌, length}
use passeur.Coordination.State.Records.{
  Region, ObjectFormat, ManagedWork, Scope, DialectOverride, Subject, NoteKind, Selection, Limits,
  Work, Case, Note, CoordinationReceipt, AnnouncementRecord, SubmissionBinding, SubmissionEvent,
}
use passeur.Base.{Option}

pub record Recipient : Type 0 where
  pub recipient : String
  pub scope : Scope

pub record Watcher : Type 0 where
  pub recipient : String
  pub regions : List Region
  pub dialect_overrides : Option (List DialectOverride)

pub data WorkStep : Type 0 where
  share_work : (readers : List String) → WorkStep
  grant_source : (recipients : List Recipient) → WorkStep
  watch_source : (watchers : List Watcher) → WorkStep
  close_work : WorkStep

pub data NoteStep : Type 0 where
  ack_note withdraw_note : NoteStep

pub data CaseStep : Type 0 where
  select_inputs : (target_oid : String) (inputs : List Selection) → CaseStep
  transfer_case : (new_lead : String) → CaseStep
  begin_external_integration record_external_settlement release_case : CaseStep

pub data Request : Type 0 where
  register_task_work :
      (workspace_id input_oid : String)
      → ObjectFormat
      → (intent : String) → List Region
      → ManagedWork
      → Request
  register_work :
      (workspace_id input_oid : String)
      → ObjectFormat
      → (intent : String) → List Region
      → (readers : List String) → Request
  on_work : (work_id : String) (expected_revision : ℕ) → WorkStep → Request
  post_note : Subject → NoteKind → (text : String) (parties : List String) → Request
  on_note : (note_id : String) → NoteStep → Request
  claim_target : (target : String) (members : List String) → Request
  on_case : (case_id : String) (expected_revision generation : ℕ) → CaseStep → Request

pub record Command : Type 0 where
  pub operation_key : String
  pub request : Request

pub data WorkRecovery : Type 0 where
  adopt_work : (new_owner : String) → WorkRecovery
  close_work : WorkRecovery

pub data CaseRecovery : Type 0 where
  adopt_case : (new_owner : String) → CaseRecovery
  release_case settle_case : CaseRecovery

pub data RecoveryTarget : Type 0 where
  on_work : (work_id : String) → WorkRecovery → RecoveryTarget
  on_case : (case_id : String) (expected_generation : ℕ) → CaseRecovery → RecoveryTarget

pub record RecoveryCommand : Type 0 where
  pub operation_key : String
  pub epoch : String
  pub expected_owner : String
  pub expected_revision : ℕ
  pub statement : String
  pub target : RecoveryTarget

pub record RecoveryReceipt : Type 0 where
  pub operator : String
  pub request_hash : String
  pub revision : ℕ
  pub command : RecoveryCommand

-- A list that the state's version does not have yet is empty, as its readers return it.
pub record ControlState : Type 0 where
  pub schema_version : ℕ
  pub repository_id : String
  pub epoch : String
  pub revision : ℕ
  pub limits : Limits
  pub works : List Work
  pub cases : List Case
  pub notes : List Note
  pub receipts : List CoordinationReceipt
  pub recoveries : List RecoveryReceipt
  pub announcements : List AnnouncementRecord
  pub bindings : List SubmissionBinding
  pub submission_events : List SubmissionEvent

abbrev pub max_parties : ℕ
max_parties = 64

abbrev pub max_regions : ℕ
max_regions = 256

abbrev pub control_max_bytes : ℕ
control_max_bytes = 2097152

abbrev pub control_release_bytes : ℕ
control_release_bytes = 4096

abbrev pub control_receipt_count : ControlState → ℕ
control_receipt_count state =
    length state.receipts + length state.recoveries + length state.submission_events

pub record ExtensionInput : Type 0 where
  pub operation_key : String
  pub case_id : String
  pub expected_revision : ℕ
  pub generation : ℕ
  pub new_work_id : String
  pub target_oid : String

pub record ObservationInput : Type 0 where
  pub operation_key : String
  pub case_id : String
  pub case_revision : ℕ
  pub generation : ℕ
  pub recipient_work_id : String
  pub observation_digest : String

-- What the operations call: the digests of a request, the sizes that the limits bound, and what
-- they ask of the peer-resolution record in the text of a note. `peer_posting` and `peer_consent`
-- only throw or return; `pending_stem` is what is left of the key of a worker's pending
-- application once its ending is cut off, none for any other key.
pub record Platform : Type 0 where
  pub command_hash : String → Command → String
  pub recovery_hash : String → RecoveryCommand → String
  pub extension_hash : String → ExtensionInput → String
  pub observation_hash : String → ObservationInput → String
  pub areas_hash : List Region → String
  pub state_bytes : ControlState → ℕ
  pub text_bytes : String → ℕ
  pub peer_consent : ControlState → Note → Result (Unit {0})
  pub peer_posting :
      Bool → ControlState → String → Subject → NoteKind → List String → String → Result (Unit {0})
  pub peer_case : String → Option String
  pub is_application : String → Bool
  pub is_settled_application : String → Bool
  pub pending_stem : String → Option String
