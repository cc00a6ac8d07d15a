-- ===== src/Coordination/Submissions/Settle.antt =====
-- src/coordination/control.ts, `#disposeSubmission` and `terminalSubmissionBinding`: how a binding
-- ends; and the lookups of bindings.
use passeur.Coordination.State.Records.{
  TerminalEvidence, SubmissionBinding, EventKind, BindingState, AnnouncementState,
  AnnouncementReference, AnnouncementRecord,
}
use passeur.Base.{
  coordination_binding_settled, err, coordination_binding_conflict, ok, coordination_not_found, ◌∷◌,
  ◌>>◌, ◌>>=◌, ◌&&◌, update_first, suc, str_eq, some, require, opt_str_eq, not, none, if◌then◌else◌,
  find, filter, [], String, Result, Option, List, Bool,
}
use passeur.Coordination.State.Commands.{Platform, ControlState}
use passeur.Coordination.Submissions.Decision.{
  announcement_of, SubmissionTerminalInput, SubmissionDispositionInput, SubmissionDigests,
  Disposition,
}
use passeur.Coordination.Submissions.Announce.{
  keyed, with_event, submission_state, same_submission_key, published, change_announcement,
  binding_of,
}
use passeur.Coordination.Parents.Capacity.{is_settled_binding, is_bound_announcement, is_bound}
use passeur.Coordination.Submissions.Bind.{is_released_binding}
use passeur.Coordination.State.Access.{unavailable}

abbrev pub disposed_state : Disposition → BindingState
disposed_state Disposition.settle = BindingState.settled
disposed_state Disposition.release = BindingState.released

abbrev pub event_kind : Disposition → EventKind
event_kind Disposition.settle = EventKind.settle
event_kind Disposition.release = EventKind.release

abbrev pub disposed_announcement : Disposition → AnnouncementRecord → AnnouncementRecord
disposed_announcement Disposition.settle a = record a {
  revision = suc a.revision;
  state = AnnouncementState.linked;
}
disposed_announcement Disposition.release a = record a {
  revision = suc a.revision;
  state = AnnouncementState.unresolved;
  task_id = none;
}

unfoldable pub dispose_announcement :
    Disposition
    → (owner task : String) → ControlState
    → Option AnnouncementReference
    → Result ControlState
dispose_announcement kind owner task state none = ok state
dispose_announcement kind owner task state (some reference) =
    elim (announcement_of state reference.id) [
      | none ↦ err coordination_binding_conflict
      | some a ↦ (do
        require
            (str_eq a.owner owner
              && opt_str_eq a.task_id (some task)
              && is_bound_announcement a.state)
            coordination_binding_conflict
        ok (change_announcement reference.id (disposed_announcement kind) state))
    ]

abbrev pub change_binding :
    String → (SubmissionBinding → SubmissionBinding) → ControlState → ControlState
change_binding task f state = record state {
  bindings = update_first (λ b. str_eq b.task_id task) f state.bindings;
}

abbrev pub disposed_binding : Disposition → SubmissionBinding → SubmissionBinding
disposed_binding kind b = record b { state = disposed_state kind }

abbrev pub is_exact : SubmissionDispositionInput → SubmissionBinding → Bool
is_exact input b = str_eq b.request_key input.request_key && str_eq b.link_hash input.link_hash

unfoldable pub dispose_new :
    Platform
    → SubmissionDigests
    → ControlState
    → (owner : String) → SubmissionDispositionInput
    → Disposition
    → Result (SubmissionBinding × ControlState)
dispose_new p d state owner input kind = elim (binding_of state input.task_id) [
  | none ↦ unavailable
  | some item ↦ (do
    require (str_eq item.owner owner) coordination_not_found
    require (is_exact input item) coordination_binding_conflict
    require (is_bound item.state) coordination_binding_settled
    dispose_announcement kind owner item.task_id
          (change_binding item.task_id (λ _. disposed_binding kind item) (submission_state state))
          item.announcement
        >>= λ next. published p (disposed_binding kind item) (
            with_event (event_kind kind) owner input.operation_key item.task_id
              (d.disposition_hash owner kind input) next))
]

unfoldable pub dispose_submission :
    Platform
    → SubmissionDigests
    → ControlState
    → (owner : String) → SubmissionDispositionInput
    → Disposition
    → Result (SubmissionBinding × ControlState)
dispose_submission p d state owner input kind =
    same_submission_key state owner input.operation_key (d.disposition_hash owner kind input)
    >>= keyed (event_kind kind) (λ e. binding_of state e.item_id) state
        (dispose_new p d state owner input kind)

abbrev pub terminal_binding : TerminalEvidence → SubmissionBinding → SubmissionBinding
terminal_binding evidence b = record b { state = BindingState.terminal; terminal = some evidence }

unfoldable pub terminate_new :
    Platform
    → SubmissionDigests
    → ControlState
    → (owner : String) → SubmissionTerminalInput
    → Result (SubmissionBinding × ControlState)
terminate_new p d state owner input = elim (binding_of state input.disposition.task_id) [
  | none ↦ unavailable
  | some item ↦ (do
    require (str_eq item.owner owner) coordination_not_found
    require (is_exact input.disposition item) coordination_binding_conflict
    require (is_settled_binding item.state) coordination_binding_settled
    published p (terminal_binding input.terminal item) (
        with_event EventKind.terminal owner input.disposition.operation_key item.task_id
          (d.terminal_hash owner input)
          (change_binding item.task_id (λ _. terminal_binding input.terminal item)
            (submission_state state))))
]

unfoldable pub terminal_submission_binding :
    Platform
    → SubmissionDigests
    → ControlState
    → (owner : String) → SubmissionTerminalInput
    → Result (SubmissionBinding × ControlState)
terminal_submission_binding p d state owner input =
    same_submission_key state owner input.disposition.operation_key (d.terminal_hash owner input)
    >>= keyed EventKind.terminal (λ e. binding_of state e.item_id) state
        (terminate_new p d state owner input)

unfoldable pub submission_binding : ControlState → (owner task : String) → Result SubmissionBinding
submission_binding state owner task = elim (binding_of state task) [
  | none ↦ unavailable
  | some item ↦ if str_eq item.owner owner then ok item else unavailable
]

abbrev last_of : Option SubmissionBinding → List SubmissionBinding → Option SubmissionBinding
last_of last [] = last
last_of last (b ∷ bs) = last_of (some b) bs

-- The one that is not released, else the last.
unfoldable pub binding_by_request_key :
    ControlState → (owner key : String) → Option SubmissionBinding
binding_by_request_key state owner key =
    let matches = filter (λ b. str_eq b.owner owner && str_eq b.request_key key) state.bindings in
    elim (find (λ b. not (is_released_binding b.state)) matches) [
      | some b ↦ some b
      | none ↦ last_of none matches
    ]
