-- ===== src/Coordination/Submissions/Bind.antt =====
-- `bindSubmission` of src/coordination/control.ts: a task takes a submission, and its announcement.
use passeur.Coordination.State.Records.{
  SubmissionBinding, EventKind, BindingState, AnnouncementState, AnnouncementReference,
  AnnouncementRecord,
}
use passeur.Base.{
  coordination_not_found, coordination_changed, ok, coordination_binding_conflict, ◌∷◌, ◌||◌, ◌>>◌,
  ◌>>=◌, ◌==◌, ◌++◌, ◌&&◌, true, throw_if, suc, str_eq, some, require, opt_str_eq, not, none, false,
  any, [], String, Result, Option, Bool,
}
use passeur.Coordination.State.Commands.{Platform, ControlState}
use passeur.Coordination.Submissions.Decision.{
  submission_decision, announcement_of, SubmissionDigests, SubmissionBindInput,
}
use passeur.Coordination.Submissions.Announce.{
  keyed, with_event, submission_state, same_submission_key, published, change_announcement,
  binding_of,
}
use passeur.Coordination.Parents.Capacity.{is_unresolved_announcement}
use passeur.Coordination.State.Access.{unavailable}

abbrev pub is_released_binding : BindingState → Bool
is_released_binding BindingState.released = true
is_released_binding _ = false

abbrev pub is_taken : String → SubmissionBindInput → SubmissionBinding → Bool
is_taken owner input b =
    str_eq b.task_id input.task_id
    || str_eq b.owner owner
      && str_eq b.request_key input.request_key
      && not (is_released_binding b.state)

abbrev pub decision_differs : Option String → String → Bool
decision_differs none identity = false
decision_differs (some expected) identity =
    not (str_eq expected "") && not (str_eq expected identity)

abbrev assignment_differs : Platform → SubmissionBindInput → AnnouncementRecord → Bool
assignment_differs p input a =
    not (opt_str_eq (some a.payload_digest) input.payload_digest)
    || not (str_eq a.source_view input.preflight.source_view)
    || not (opt_str_eq (some a.assignment_hash) input.assignment_hash)
    || not (str_eq (p.areas_hash a.areas) (p.areas_hash input.preflight.areas))

abbrev pub bound_to_task : String → AnnouncementRecord → AnnouncementRecord
bound_to_task task a = record a {
  state = AnnouncementState.bound;
  task_id = some task;
  revision = suc a.revision;
}

unfoldable pub bind_announcement :
    Platform
    → (owner : String) → SubmissionBindInput
    → ControlState
    → Option AnnouncementReference
    → Result ControlState
bind_announcement p owner input state none = ok state
bind_announcement p owner input state (some reference) = elim (announcement_of state reference.id) [
  | none ↦ unavailable
  | some a ↦ (do
    require (str_eq a.owner owner) coordination_not_found
    throw_if (not (a.revision == reference.revision) || not (is_unresolved_announcement a.state))
        coordination_changed
    throw_if (assignment_differs p input a) coordination_binding_conflict
    ok (change_announcement reference.id (bound_to_task input.task_id) state))
]

abbrev pub binding_for :
    SubmissionDigests → String → SubmissionBindInput → String → SubmissionBinding
binding_for d owner input identity = record {
  task_id = input.task_id;
  request_key = input.request_key;
  owner = owner;
  intent_hash = input.preflight.intent_hash;
  decision_identity = identity;
  link_hash = d.link_hash owner input identity;
  source_view = input.preflight.source_view;
  input_oid = input.preflight.input_oid;
  areas = input.preflight.areas;
  announcement = input.preflight.announcement;
  state = BindingState.bound;
  terminal = none;
}

abbrev pub with_binding : SubmissionBinding → ControlState → ControlState
with_binding b state = record state { bindings = state.bindings ++ b ∷ [] }

unfoldable pub bind_new :
    Platform
    → SubmissionDigests
    → ControlState
    → (owner : String) → SubmissionBindInput
    → Result (SubmissionBinding × ControlState)
bind_new p d state owner input = do
  throw_if (any (is_taken owner input) state.bindings) coordination_binding_conflict
  submission_decision p d state owner input.preflight >>= λ decision. do
    throw_if (decision_differs input.expected_decision_identity decision.decision_identity)
        coordination_changed
    bind_announcement p owner input (submission_state state) input.preflight.announcement
        >>= λ next.
            let item = binding_for d owner input decision.decision_identity in
            published p item (
              with_event EventKind.bind owner input.operation_key input.task_id
                (d.bind_hash owner input) (with_binding item next))

unfoldable pub bind_submission :
    Platform
    → SubmissionDigests
    → ControlState
    → (owner : String) → SubmissionBindInput
    → Result (SubmissionBinding × ControlState)
bind_submission p d state owner input =
    same_submission_key state owner input.operation_key (d.bind_hash owner input)
    >>= keyed EventKind.bind (λ e. binding_of state e.item_id) state
        (bind_new p d state owner input)
