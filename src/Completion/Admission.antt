-- ===== src/Completion/Admission.antt =====
-- `TaskControls.admitCompletion` of src/core/task-control.ts.
use passeur.Base.{
  ◌||◌, ◌==◌, ◌&&◌, str_eq, some, ok, not, none, length, is_some, if◌then◌else◌, false, any, String,
  Result, Option, Bool, ℕ,
}
use passeur.Completion.Peers.{
  unresolved_peer_completion, reservations, no_binding, PeerIssue, Binding,
}
use passeur.Control.Digests.{Digests}
use passeur.Contracts.Task.{
  is_unresolved, is_turn_scoped, is_completed, TaskControl, Phase, Outcome,
}
use passeur.Control.Commit.{change}
use passeur.Contracts.Peer.{is_released}

pub record Admission : Type 0 where
  pub outcome : Outcome
  pub peer_issue : Option PeerIssue
  pub native_issue : Bool
  pub identity_changed : Bool

abbrev pub wants_completed : Option Outcome → Bool
wants_completed none = false
wants_completed (some o) = is_completed o

abbrev pub changed_identity : TaskControl → String → ℕ → Bool
changed_identity s run generation =
    not (str_eq s.native.run_id run) || not (s.control_generation == generation)

-- A native or input obligation lacks a settled observation.
abbrev pub native_incomplete : TaskControl → Bool
native_incomplete s =
    not (is_turn_scoped s.native.coverage)
    || not (length s.native.obligations == 0)
    || any (λ i. is_unresolved i.state) s.inputs

abbrev needs_binding : TaskControl → Bool
needs_binding s =
    not (length s.peer_deliveries == 0)
    || any (λ slot. not (is_released slot.state)) (reservations s)

abbrev or_interrupted : Option Outcome → Outcome
or_interrupted none = Outcome.interrupted
or_interrupted (some o) = o

-- The outcome that is decided, given the peer issue.
abbrev pub decide : TaskControl → String → ℕ → Option Outcome → Option PeerIssue → Outcome
decide s run generation requested issue =
    if is_some s.cancellation
    then Outcome.cancelled
    else if wants_completed requested && native_incomplete s
    then Outcome.failed
    else if wants_completed requested && (changed_identity s run generation || is_some issue)
    then Outcome.interrupted
    else or_interrupted requested

module _ (d : Digests) where
  unfoldable pub peer_issue_of : TaskControl → Option Outcome → Option Binding → Option PeerIssue
  peer_issue_of s requested binding =
      if wants_completed requested && not (is_some binding) && needs_binding s
      then some no_binding
      else if wants_completed requested
      then unresolved_peer_completion d s binding none
      else none

  unfoldable pub admit_draft :
      String → ℕ → Option Outcome → Option Binding → TaskControl → Result (Admission × TaskControl)
  admit_draft run generation requested binding s = elim s.settled_outcome [
    | some o ↦ ok (
      record {
        outcome = o;
        peer_issue = none;
        native_issue = false;
        identity_changed = changed_identity s run generation;
      },
      s,
    )
    | none ↦
        let issue = peer_issue_of s requested binding in
        let o = decide s run generation requested issue in
        ok (
          record {
            outcome = o;
            peer_issue = issue;
            native_issue = wants_completed requested && native_incomplete s;
            identity_changed = changed_identity s run generation;
          },
          record s { phase = Phase.finalizing; settled_outcome = some o },
        )
  ]

  unfoldable pub admit_completion :
      ℕ
      → String
      → ℕ
      → Option Outcome
      → Option Binding
      → TaskControl
      → Result (Admission × TaskControl)
  unfolding change admit_draft
  admit_completion now run generation requested binding s =
      change d now (admit_draft run generation requested binding) s
