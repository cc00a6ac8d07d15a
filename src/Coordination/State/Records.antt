-- ===== src/Coordination/State/Records.antt =====
-- src/contracts/coordination-control.ts: the control state that the coordination store keeps whole.
-- Fields with one possible value (`outcome: "recorded"`) are left out.
use passeur.Base.{ℕ, String, Bool, Option, List}

pub data RegionKind : Type 0 where
  file subtree : RegionKind

pub record Region : Type 0 where
  pub kind : RegionKind
  pub path : String

pub data SubjectKind : Type 0 where
  work case : SubjectKind

pub record Subject : Type 0 where
  pub kind : SubjectKind
  pub id : String

pub record Selection : Type 0 where
  pub work_id : String
  pub commit_oid : String

pub record Limits : Type 0 where
  pub works : ℕ
  pub cases : ℕ
  pub notes : ℕ
  pub receipts : ℕ
  pub note_bytes : ℕ

pub data AreasSource : Type 0 where
  allowed_paths not_declared : AreasSource

pub record ManagedWork : Type 0 where
  pub task_id : String
  pub control_generation : ℕ
  pub intent_truncated : Bool
  pub areas_source : AreasSource

-- Of a work, and of a case.
pub data Lifetime : Type 0 where
  active closed : Lifetime

pub data ObjectFormat : Type 0 where
  sha1 sha256 : ObjectFormat

pub data Scope : Type 0 where
  report detail : Scope

pub record SourceGrant : Type 0 where
  pub recipient : String
  pub scope : Scope
  pub work_revision : ℕ

pub data Dialect : Type 0 where
  jsx c cpp : Dialect

pub record DialectOverride : Type 0 where
  pub path : String
  pub dialect : Dialect

pub record SourceWatch : Type 0 where
  pub recipient : String
  pub regions : List Region
  pub dialect_overrides : Option (List DialectOverride)
  pub work_revision : ℕ

pub record Work : Type 0 where
  pub id : String
  pub owner : String
  pub workspace_id : String
  pub revision : ℕ
  pub state : Lifetime
  pub input_oid : String
  pub object_format : ObjectFormat
  pub intent : String
  pub areas : List Region
  pub readers : List String
  pub managed : Option ManagedWork
  pub source_grants : Option (List SourceGrant)
  pub source_watches : Option (List SourceWatch)

pub data ExternalEffect : Type 0 where
  not_started possible : ExternalEffect

pub data ObservedOrigin : Type 0 where
  pending selected : ObservedOrigin

pub record DeliveryObservation : Type 0 where
  pub work_id : String
  pub observation_digest : String

pub record VisibilityDelta : Type 0 where
  pub work_id : String
  pub work_revision : ℕ
  pub control_generation : ℕ
  pub areas : List Region
  pub added_readers : List String

pub record Case : Type 0 where
  pub id : String
  pub target : String
  pub lead : String
  pub members : List String
  pub revision : ℕ
  pub generation : ℕ
  pub state : Lifetime
  pub external_effect : ExternalEffect
  pub target_oid : Option String
  pub inputs : List Selection
  pub observed_origin : Option ObservedOrigin
  pub delivery_pending : Option (List String)
  pub delivery_observed : Option (List DeliveryObservation)
  pub visibility_delta : Option (List VisibilityDelta)

pub data NoteKind : Type 0 where
  intent question statement agreement_proposal resolution_update : NoteKind

pub record Note : Type 0 where
  pub id : String
  pub subject : Subject
  pub author : String
  pub kind : NoteKind
  pub text : String
  pub work_refs : List String
  pub parties : List String
  pub acknowledged : List String
  pub withdrawn : Bool
  pub readers : Option (List String)

pub data Action : Type 0 where
  register_task_work register_work share_work grant_source watch_source close_work : Action
  post_note ack_note withdraw_note claim_target select_inputs release_case : Action
  begin_external_integration record_external_settlement transfer_case : Action
  extend_observed_case observe_case_delivery : Action

pub record CoordinationReceipt : Type 0 where
  pub owner : String
  pub key : String
  pub request_hash : String
  pub revision : ℕ
  pub action : Action
  pub entity : Subject
  pub item_id : String

pub data AnnouncementState : Type 0 where
  unresolved bound linked withdrawn : AnnouncementState

pub record AnnouncementRecord : Type 0 where
  pub id : String
  pub owner : String
  pub revision : ℕ
  pub state : AnnouncementState
  pub payload_ref : String
  pub payload_digest : String
  pub source_view : String
  pub assignment_hash : String
  pub areas : List Region
  pub readers : List String
  pub task_id : Option String

pub record AnnouncementReference : Type 0 where
  pub id : String
  pub revision : ℕ

pub data BindingState : Type 0 where
  bound settled released terminal : BindingState

pub data TerminalOutcome : Type 0 where
  completed blocked failed cancelled interrupted : TerminalOutcome

pub record TerminalEvidence : Type 0 where
  pub revision : ℕ
  pub control_generation : ℕ
  pub outcome : TerminalOutcome

pub record SubmissionBinding : Type 0 where
  pub task_id : String
  pub request_key : String
  pub owner : String
  pub intent_hash : String
  pub decision_identity : String
  pub link_hash : String
  pub source_view : String
  pub input_oid : String
  pub areas : List Region
  pub announcement : Option AnnouncementReference
  pub state : BindingState
  pub terminal : Option TerminalEvidence

pub data EventKind : Type 0 where
  announce withdraw bind settle release terminal : EventKind

pub record SubmissionEvent : Type 0 where
  pub kind : EventKind
  pub owner : String
  pub key : String
  pub item_id : String
  pub request_hash : String
  pub revision : ℕ
