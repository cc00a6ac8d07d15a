-- ===== src/Coordination/Parents/Execute.antt =====
-- `execute` and `#executeCommand` of src/coordination/control.ts: a command under the key of its
-- parent, given once. The consent of workers is a guard that the caller read outside the lock.
use text.Mathlib.Text.{starts_with}
use Prim.Native.String.{◌++◌ as append}
use passeur.Coordination.State.Records.{
  Work, SubmissionEvent, Selection, Note, CoordinationReceipt, Case, Action,
}
use passeur.Coordination.Parents.Works.{Applied}
use passeur.Base.{
  coordination_retirement_active, coordination_resource_changed,
  coordination_external_effect_unresolved, peer_operation_stale, ok, coordination_key_conflict,
  coordination_forbidden, coordination_closed, ◌∷◌, ◌||◌, ◌>>◌, ◌>>=◌, ◌==◌, ◌++◌, ◌&&◌, ℕ, true,
  throw_if, suc, str_eq, some, require, not, none, leb, is_some, if◌then◌else◌, find, false,
  contains, any, [], String, Result, Option, List, Bool,
}
use passeur.Coordination.State.Commands.{
  WorkStep, Request, RecoveryReceipt, Platform, NoteStep, ControlState, Command, CaseStep,
}
use passeur.Coordination.Parents.Apply.{apply}
use passeur.Coordination.State.Access.{work_of, selects, is_work, case_of}
use passeur.Coordination.Parents.Capacity.{check_capacity}
use passeur.Coordination.Parents.Notes.{note_of}

-- The fields of `CoordinationControl` that a command reads; the maps and sets are lists.
pub record Controller : Type 0 where
  pub closing : Bool
  pub resource_versions : List (String × ℕ)
  pub retirements : List String
  pub application_cases : List String
  pub transition_tasks : List String
  pub transition_cases : List String
  pub service_transitions : List String
  pub transition_epoch : ℕ

pub record ResourceVersion : Type 0 where
  pub task_id : String
  pub version : ℕ

pub record ConsentGuard : Type 0 where
  pub revision : ℕ
  pub epoch : ℕ

abbrev pub worker_peer_key_prefix : String
worker_peer_key_prefix = "worker-peer-v1:"

abbrev pub version_of : String → List (String × ℕ) → ℕ
version_of task [] = 0
version_of task (entry ∷ entries) = if str_eq entry.0 task then entry.1 else version_of task entries

abbrev pub task_of : Option Work → Option String
task_of none = none
task_of (some work) = elim work.managed [ none ↦ none | some managed ↦ some managed.task_id ]

abbrev is_changing : Controller → Option String → Bool
is_changing c none = false
is_changing c (some task) = contains task c.transition_tasks || contains task c.service_transitions

unfoldable pub assert_case_transition : Controller → ControlState → Case → Result (Unit {0})
assert_case_transition c state item = do
  throw_if (contains item.id c.application_cases) peer_operation_stale
  throw_if
      (contains item.id c.transition_cases
        || any (λ (i : Selection). is_changing c (task_of (work_of state i.work_id))) item.inputs)
      peer_operation_stale

abbrev pub is_of_key : String → String → CoordinationReceipt → Bool
is_of_key owner key r = str_eq r.owner owner && str_eq r.key key

abbrev pub is_recovery_key : String → String → RecoveryReceipt → Bool
is_recovery_key owner key r = str_eq r.operator owner && str_eq r.command.operation_key key

abbrev pub is_event_key : String → String → SubmissionEvent → Bool
is_event_key owner key e = str_eq e.owner owner && str_eq e.key key

abbrev targets_application : Controller → ControlState → Request → Bool
targets_application c state (Request.on_case id _ _ _) =
    is_some (case_of state id) && contains id c.application_cases
targets_application c state _ = false

abbrev pub feeds_application : Controller → String → Case → Bool
feeds_application c work item =
    contains item.id c.application_cases && any (selects work) item.inputs

abbrev sources_application : Controller → ControlState → Request → Bool
sources_application c state (Request.on_work id _ _) = any (feeds_application c id) state.cases
sources_application c state _ = false

abbrev is_note_on : String → String → Note → Bool
is_note_on case note_id n =
    str_eq n.id note_id && not (is_work n.subject.kind) && str_eq n.subject.id case

abbrev has_outcome : Platform → ControlState → Option CoordinationReceipt → Bool
has_outcome p state none = false
has_outcome p state (some outcome) = elim (note_of state outcome.item_id) [
  | none ↦ false
  | some note ↦ p.is_settled_application note.text
]

-- A pending application of the case has no settled outcome.
abbrev lacks_outcome : Platform → ControlState → String → CoordinationReceipt → Bool
lacks_outcome p state case r = elim (p.pending_stem r.key) [
  | none ↦ false
  | some stem ↦
      any (is_note_on case r.item_id) state.notes
      && not
          (has_outcome p state (find (is_of_key r.owner (append stem ":outcome")) state.receipts))
]

abbrev has_pending_application : Platform → ControlState → Request → Bool
has_pending_application p state (Request.on_case id _ _ CaseStep.release_case) =
    any (lacks_outcome p state id) state.receipts
has_pending_application p state _ = false

abbrev consent_changed : Controller → ControlState → Option ConsentGuard → Bool
consent_changed c state none = false
consent_changed c state (some guard) =
    not (state.revision == guard.revision) || not (c.transition_epoch == guard.epoch)

abbrev is_post : Action → Bool
is_post Action.post_note = true
is_post _ = false

abbrev posts_as_worker : String → CoordinationReceipt → Bool
posts_as_worker note r =
    is_post r.action && str_eq r.item_id note && starts_with r.key worker_peer_key_prefix

abbrev pub is_worker_note : ControlState → Request → Bool
is_worker_note state (Request.on_note id _) = any (posts_as_worker id) state.receipts
is_worker_note state _ = false

abbrev pub version_changed : Controller → ResourceVersion → Bool
version_changed c resource =
    contains resource.task_id c.retirements
    || not (version_of resource.task_id c.resource_versions == resource.version)

abbrev case_inputs : Option Case → List Selection
case_inputs none = []
case_inputs (some item) = item.inputs

-- The sources that the command selects or sets to work.
abbrev pub selected_inputs : ControlState → Request → List Selection
selected_inputs state (Request.on_case id _ _ (CaseStep.select_inputs _ inputs)) = inputs
selected_inputs state (Request.on_case id _ _ CaseStep.begin_external_integration) =
    case_inputs (case_of state id)
selected_inputs state _ = []

abbrev pub is_retiring : Controller → Option String → Bool
is_retiring c none = false
is_retiring c (some task) = contains task c.retirements

abbrev pub registers_retiring : Controller → Request → Bool
registers_retiring c (Request.register_task_work _ _ _ _ _ managed) =
    contains managed.task_id c.retirements
registers_retiring c _ = false

abbrev named_case : ControlState → Option String → Option Case
named_case state none = none
named_case state (some id) = case_of state id

abbrev peer_case_of_note : Platform → ControlState → Option Note → Option Case
peer_case_of_note p state none = none
peer_case_of_note p state (some note) = named_case state (p.peer_case note.text)

-- The case that the peer-resolution record of the note names.
abbrev peer_case : Platform → ControlState → Request → Option Case
peer_case p state (Request.on_note id _) = peer_case_of_note p state (note_of state id)
peer_case p state (Request.post_note _ _ text _) = named_case state (p.peer_case text)
peer_case p state _ = none

abbrev peer_transition : Controller → ControlState → Option Case → Result (Unit {0})
peer_transition c state none = ok tt
peer_transition c state (some item) = assert_case_transition c state item

abbrev posting :
    Platform → Option ConsentGuard → ControlState → String → Request → Result (Unit {0})
posting p guard state owner (Request.post_note subject kind text parties) =
    p.peer_posting (is_some guard) state owner subject kind parties text
posting p guard state owner _ = ok tt

-- What is looked at before the key.
unfoldable pub guard_command :
    Platform → Controller → Option ConsentGuard → ControlState → Request → Result (Unit {0})
guard_command p c guard state request = do
  throw_if (targets_application c state request) peer_operation_stale
  throw_if (has_pending_application p state request) coordination_external_effect_unresolved
  throw_if (sources_application c state request) peer_operation_stale
  throw_if (consent_changed c state guard) peer_operation_stale

-- What a command under a new key has to meet.
unfoldable pub admit_command :
    Platform
    → Controller
    → Option ConsentGuard
    → List ResourceVersion
    → ControlState
    → (owner : String) → Request
    → Result (Unit {0})
admit_command p c guard versions state owner request = do
  throw_if (is_worker_note state request) coordination_forbidden
  throw_if (any (version_changed c) versions) coordination_resource_changed
  throw_if
      (any (λ (i : Selection). is_retiring c (task_of (work_of state i.work_id)))
        (selected_inputs state request))
      coordination_retirement_active
  throw_if (registers_retiring c request) coordination_retirement_active
  peer_transition c state (peer_case p state request)
  posting p guard state owner request

abbrev pub at_least : ℕ → ℕ → ℕ
at_least low version = if leb low version then version else low

abbrev pub schema_after : Bool → Request → ℕ → ℕ
schema_after observed (Request.claim_target _ _) version = if observed then 7 else version
schema_after observed (Request.post_note subject _ _ _) version =
    if is_work subject.kind then at_least 7 version else version
schema_after observed (Request.on_work _ _ (WorkStep.watch_source _)) version = at_least 6 version
schema_after observed (Request.on_work _ _ (WorkStep.grant_source _)) version = at_least 5 version
schema_after observed (Request.register_task_work _ _ _ _ _ _) version =
    if leb 4 version then version else 3
schema_after observed _ version = version

abbrev pub action_of : Request → Action
action_of (Request.register_task_work _ _ _ _ _ _) = Action.register_task_work
action_of (Request.register_work _ _ _ _ _ _) = Action.register_work
action_of (Request.on_work _ _ (WorkStep.share_work _)) = Action.share_work
action_of (Request.on_work _ _ (WorkStep.grant_source _)) = Action.grant_source
action_of (Request.on_work _ _ (WorkStep.watch_source _)) = Action.watch_source
action_of (Request.on_work _ _ WorkStep.close_work) = Action.close_work
action_of (Request.post_note _ _ _ _) = Action.post_note
action_of (Request.on_note _ NoteStep.ack_note) = Action.ack_note
action_of (Request.on_note _ NoteStep.withdraw_note) = Action.withdraw_note
action_of (Request.claim_target _ _) = Action.claim_target
action_of (Request.on_case _ _ _ (CaseStep.select_inputs _ _)) = Action.select_inputs
action_of (Request.on_case _ _ _ (CaseStep.transfer_case _)) = Action.transfer_case
action_of (Request.on_case _ _ _ CaseStep.begin_external_integration) =
    Action.begin_external_integration
action_of (Request.on_case _ _ _ CaseStep.record_external_settlement) =
    Action.record_external_settlement
action_of (Request.on_case _ _ _ CaseStep.release_case) = Action.release_case

abbrev pub receipt_of : Platform → String → Command → ControlState → Applied → CoordinationReceipt
receipt_of p owner command state applied = record {
  owner = owner;
  key = command.operation_key;
  request_hash = p.command_hash owner command;
  revision = suc state.revision;
  action = action_of command.request;
  entity = applied.entity;
  item_id = applied.item_id;
}

abbrev pub with_receipt : CoordinationReceipt → ControlState → ControlState
with_receipt r state = record state {
  revision = suc state.revision;
  receipts = state.receipts ++ r ∷ [];
}

abbrev pub with_schema : ℕ → ControlState → ControlState
with_schema version state = record state { schema_version = version }

-- The last part: the change, its receipt, and the room for both. The case of a peer-resolution record
-- was looked at before, and nothing runs in between.
unfoldable pub record_command :
    Platform
    → (uuid : String) (observed : Bool) → ControlState
    → (owner : String) → Command
    → Result (CoordinationReceipt × ControlState)
record_command p uuid observed state owner command =
    let next = with_schema (schema_after observed command.request state.schema_version) state in
    apply p uuid observed next owner command.request >>= λ applied.
    let r = receipt_of p owner command state applied in
    let after = with_receipt r applied.state in check_capacity p after >>= λ _. ok (r, after)

abbrev pub repeated :
    Platform
    → String
    → Command
    → ControlState
    → CoordinationReceipt
    → Result (CoordinationReceipt × ControlState)
repeated p owner command state prior = do
  require (str_eq prior.request_hash (p.command_hash owner command)) coordination_key_conflict
  ok (prior, state)

-- The state that is handed to the store on success; what throws stores nothing. What `publish` then
-- checks of it, the decoder and `assertControlTransition`, can only refuse it.
unfoldable pub execute_command :
    Platform
    → Controller
    → (uuid : String) (observed : Bool) → Option ConsentGuard
    → List ResourceVersion
    → ControlState
    → (owner : String) → Command
    → Result (CoordinationReceipt × ControlState)
execute_command p c uuid observed guard versions state owner command = do
  guard_command p c guard state command.request
  throw_if (any (is_recovery_key owner command.operation_key) state.recoveries)
      coordination_key_conflict
  throw_if (any (is_event_key owner command.operation_key) state.submission_events)
      coordination_key_conflict
  elim (find (is_of_key owner command.operation_key) state.receipts) [
    | some prior ↦ repeated p owner command state prior
    | none ↦ (do
      admit_command p c guard versions state owner command.request
      record_command p uuid observed state owner command)
  ]

unfoldable pub execute :
    Platform
    → Controller
    → (uuid : String) (observed : Bool) → Option ConsentGuard
    → List ResourceVersion
    → ControlState
    → (owner : String) → Command
    → Result (CoordinationReceipt × ControlState)
execute p c uuid observed guard versions state owner command = do
  throw_if c.closing coordination_closed
  throw_if (starts_with command.operation_key worker_peer_key_prefix) coordination_forbidden
  execute_command p c uuid observed guard versions state owner command
