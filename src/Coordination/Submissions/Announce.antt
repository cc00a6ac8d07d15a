-- ===== src/Coordination/Submissions/Announce.antt =====
-- src/coordination/control.ts: the keys and the history of submissions, and announcements.
use text.Mathlib.Text.{starts_with}
use passeur.Coordination.Submissions.Decision.{
  announcement_of, SubmissionDigests, AnnouncementWithdrawalInput, AnnouncementInput,
}
use passeur.Coordination.State.Records.{
  SubmissionEvent, SubmissionBinding, EventKind, AnnouncementState, AnnouncementRecord,
}
use passeur.Base.{
  coordination_announcement_held, coordination_stale_revision, coordination_key_conflict, ok, err,
  coordination_not_found, coordination_invalid, coordination_forbidden,
  coordination_announcement_exists, ◌∷◌, ◌||◌, ◌>>◌, ◌>>=◌, ◌==◌, ◌++◌, update_first, true,
  throw_if, suc, str_eq, some, require, none, is_some, if◌then◌else◌, find, false, contains, any,
  [], String, Result, Option, Bool,
}
use passeur.Coordination.State.Commands.{Platform, ControlState}
use passeur.Coordination.Parents.Capacity.{is_unresolved_announcement, check_capacity}
use passeur.Coordination.Parents.Execute.{
  at_least, worker_peer_key_prefix, is_recovery_key, is_of_key, is_event_key,
}
use passeur.Coordination.State.Access.{unavailable}

abbrev pub submission_state : ControlState → ControlState
submission_state state = record state { schema_version = at_least 4 state.schema_version }

-- The event under this key, if it is of the same request.
unfoldable pub same_submission_key :
    ControlState → (owner key hash : String) → Result (Option SubmissionEvent)
same_submission_key state owner key hash = do
  throw_if (starts_with key worker_peer_key_prefix) coordination_forbidden
  throw_if
      (any (is_of_key owner key) state.receipts || any (is_recovery_key owner key) state.recoveries)
      coordination_key_conflict
  elim (find (is_event_key owner key) state.submission_events) [
    | none ↦ ok none
    | some prior ↦ (do
      require (str_eq prior.request_hash hash) coordination_key_conflict
      ok (some prior))
  ]

abbrev pub with_event : EventKind → (owner key item hash : String) → ControlState → ControlState
with_event kind owner key item hash next = record next {
  revision = suc next.revision;
  submission_events =
      next.submission_events
      ++ record {
        kind = kind;
        owner = owner;
        key = key;
        item_id = item;
        request_hash = hash;
        revision = suc next.revision;
      }
        ∷ [];
}

-- `checkCapacity(next); await this.#publish(current, next)`.
unfoldable pub published {ℓ} :
    {A : Type ℓ} → Platform → A → ControlState → Result (A × ControlState)
published p item next = check_capacity p next >>= λ _. ok (item, next)

abbrev pub is_same_event : EventKind → EventKind → Bool
is_same_event EventKind.announce EventKind.announce = true
is_same_event EventKind.withdraw EventKind.withdraw = true
is_same_event EventKind.bind EventKind.bind = true
is_same_event EventKind.settle EventKind.settle = true
is_same_event EventKind.release EventKind.release = true
is_same_event EventKind.terminal EventKind.terminal = true
is_same_event _ _ = false

-- What a repeated request returns: the item of its first run, as it is now.
abbrev pub retained {ℓ} :
    {A : Type ℓ} → EventKind → SubmissionEvent → Option A → ControlState → Result (A × ControlState)
retained expected prior none state = err coordination_key_conflict
retained expected prior (some item) state = do
  require (is_same_event prior.kind expected) coordination_key_conflict
  ok (item, state)

-- A request under its key: its old answer, or its first run.
abbrev pub keyed {ℓ} :
    {A : Type ℓ}
    → EventKind
    → (SubmissionEvent → Option A)
    → ControlState
    → Result (A × ControlState)
    → Option SubmissionEvent
    → Result (A × ControlState)
keyed expected lookup state run none = run
keyed expected lookup state run (some prior) = retained expected prior (lookup prior) state

abbrev pub binding_of : ControlState → String → Option SubmissionBinding
binding_of state task = find (λ b. str_eq b.task_id task) state.bindings

abbrev pub announced : String → AnnouncementInput → AnnouncementRecord
announced owner input = record {
  id = input.id;
  owner = owner;
  revision = 1;
  state = AnnouncementState.unresolved;
  payload_ref = input.id;
  payload_digest = input.payload_digest;
  source_view = input.source_view;
  assignment_hash = input.assignment_hash;
  areas = input.areas;
  readers = input.readers;
  task_id = none;
}

abbrev pub with_announcement : AnnouncementRecord → ControlState → ControlState
with_announcement a state = record state { announcements = state.announcements ++ a ∷ [] }

unfoldable pub announce_new :
    Platform
    → SubmissionDigests
    → ControlState
    → (owner : String) → AnnouncementInput
    → Result (AnnouncementRecord × ControlState)
announce_new p d state owner input = do
  throw_if (is_some (announcement_of state input.id) || is_some (binding_of state input.id))
      coordination_announcement_exists
  published p (announced owner input) (
      with_event EventKind.announce owner input.operation_key input.id (d.announce_hash owner input)
        (with_announcement (announced owner input) (submission_state state)))

unfoldable pub announce :
    Platform
    → SubmissionDigests
    → ControlState
    → (owner : String) → AnnouncementInput
    → Result (AnnouncementRecord × ControlState)
announce p d state owner input = do
  throw_if (contains owner input.readers) coordination_invalid
  same_submission_key state owner input.operation_key (d.announce_hash owner input)
      >>= keyed EventKind.announce (λ e. announcement_of state e.item_id) state
          (announce_new p d state owner input)

unfoldable pub announcement : ControlState → (owner id : String) → Result AnnouncementRecord
announcement state owner id = elim (announcement_of state id) [
  | none ↦ unavailable
  | some item ↦
      if str_eq item.owner owner || contains owner item.readers then ok item else unavailable
]

abbrev pub change_announcement :
    String → (AnnouncementRecord → AnnouncementRecord) → ControlState → ControlState
change_announcement id f state = record state {
  announcements = update_first (λ a. str_eq a.id id) f state.announcements;
}

abbrev pub withdrawn_announcement : AnnouncementRecord → AnnouncementRecord
withdrawn_announcement a = record a {
  state = AnnouncementState.withdrawn;
  revision = suc a.revision;
}

unfoldable pub withdraw_new :
    Platform
    → SubmissionDigests
    → ControlState
    → (owner : String) → AnnouncementWithdrawalInput
    → Result (AnnouncementRecord × ControlState)
withdraw_new p d state owner input = elim (announcement_of state input.id) [
  | none ↦ unavailable
  | some item ↦ (do
    require (str_eq item.owner owner) coordination_not_found
    require (item.revision == input.expected_revision) coordination_stale_revision
    require (is_unresolved_announcement item.state) coordination_announcement_held
    published p (withdrawn_announcement item) (
        with_event EventKind.withdraw owner input.operation_key item.id
          (d.withdraw_hash owner input)
          (change_announcement item.id (λ _. withdrawn_announcement item)
            (submission_state state))))
]

unfoldable pub withdraw_announcement :
    Platform
    → SubmissionDigests
    → ControlState
    → (owner : String) → AnnouncementWithdrawalInput
    → Result (AnnouncementRecord × ControlState)
withdraw_announcement p d state owner input =
    same_submission_key state owner input.operation_key (d.withdraw_hash owner input)
    >>= keyed EventKind.withdraw (λ e. announcement_of state e.item_id) state
        (withdraw_new p d state owner input)
