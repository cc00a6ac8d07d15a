-- ===== src/Coordination/State/Access.antt =====
-- src/coordination/control.ts: what a parent may read and change.
use passeur.Base.{
  coordination_case_closed, coordination_stale_revision, coordination_stale_generation, ok, err,
  coordination_not_found, coordination_forbidden, coordination_external_effect_unresolved, ◌∷◌,
  ◌||◌, ◌>>◌, ◌>>=◌, ◌==◌, ◌&&◌, ℕ, true, str_eq, some, require, not, none, is_some, if◌then◌else◌,
  find, false, contains, any, all, [], String, Result, Option, List, Bool,
}
use passeur.Coordination.State.Records.{
  Work, VisibilityDelta, SubjectKind, Subject, Selection, ObservedOrigin, Note, ManagedWork,
  Lifetime, ExternalEffect, Case,
}
use passeur.Coordination.State.Commands.{Platform, ControlState}

abbrev pub is_active : Lifetime → Bool
is_active Lifetime.active = true
is_active Lifetime.closed = false

abbrev pub is_not_started : ExternalEffect → Bool
is_not_started ExternalEffect.not_started = true
is_not_started ExternalEffect.possible = false

abbrev pub is_selected : Option ObservedOrigin → Bool
is_selected (some ObservedOrigin.selected) = true
is_selected (some ObservedOrigin.pending) = false
is_selected none = false

abbrev pub is_pending_origin : Option ObservedOrigin → Bool
is_pending_origin (some ObservedOrigin.pending) = true
is_pending_origin (some ObservedOrigin.selected) = false
is_pending_origin none = false

abbrev pub is_work : SubjectKind → Bool
is_work SubjectKind.work = true
is_work SubjectKind.case = false

abbrev pub has_generation : ℕ → Option ManagedWork → Bool
has_generation generation none = false
has_generation generation (some managed) = generation == managed.control_generation

abbrev pub listed : String → Option (List String) → Bool
listed parent none = false
listed parent (some readers) = contains parent readers

abbrev pub unavailable {ℓ} : {A : Type ℓ} → Result A
unavailable = err coordination_not_found

abbrev pub can_read_work : String → Work → Bool
can_read_work parent work = str_eq work.owner parent || contains parent work.readers

abbrev pub selects : String → Selection → Bool
selects id input = str_eq input.work_id id

abbrev pub work_of : ControlState → String → Option Work
work_of state id = find (λ w. str_eq w.id id) state.works

abbrev pub case_of : ControlState → String → Option Case
case_of state id = find (λ c. str_eq c.id id) state.cases

module _ (p : Platform) where
  abbrev pub adds_reader : String → Work → VisibilityDelta → Bool
  adds_reader parent work delta =
      str_eq delta.work_id work.id
      && delta.work_revision == work.revision
      && has_generation delta.control_generation work.managed
      && str_eq (p.areas_hash delta.areas) (p.areas_hash work.areas)
      && contains parent delta.added_readers

  abbrev pub any_delta : String → Work → Option (List VisibilityDelta) → Bool
  any_delta parent work none = false
  any_delta parent work (some deltas) = any (adds_reader parent work) deltas

  abbrev pub discloses : String → Work → Case → Bool
  discloses parent work item =
      is_active item.state
      && is_selected item.observed_origin
      && contains parent item.members
      && any (selects work.id) item.inputs
      && any_delta parent work item.visibility_delta

  unfoldable pub can_read_selected_work : ControlState → String → Work → Bool
  can_read_selected_work state parent work =
      can_read_work parent work || any (discloses parent work) state.cases

  unfoldable pub visible_work : ControlState → String → String → Result Work
  visible_work state parent id = elim (work_of state id) [
    | none ↦ unavailable
    | some work ↦ if can_read_selected_work state parent work then ok work else unavailable
  ]

  abbrev pub can_read_input : ControlState → String → Selection → Bool
  can_read_input state parent input = elim (work_of state input.work_id) [
    | none ↦ false
    | some work ↦ can_read_selected_work state parent work
  ]

  unfoldable pub can_read_case : ControlState → String → Case → Bool
  can_read_case state parent item =
      contains parent item.members && all (can_read_input state parent) item.inputs

  unfoldable pub visible_case : ControlState → String → String → Result Case
  visible_case state parent id = elim (case_of state id) [
    | none ↦ unavailable
    | some item ↦ if can_read_case state parent item then ok item else unavailable
  ]

  unfoldable pub require_subject : ControlState → String → Subject → Result (Unit {0})
  require_subject state parent subject =
      if is_work subject.kind
      then (visible_work state parent subject.id >>= λ _. ok tt)
      else (visible_case state parent subject.id >>= λ _. ok tt)

  -- `for (const id of ids) visibleWork(state, parent, id)`.
  unfoldable pub require_works : ControlState → String → List String → Result (Unit {0})
  require_works state parent [] = ok tt
  require_works state parent (id ∷ ids) =
      visible_work state parent id >>= λ _. require_works state parent ids

  abbrev pub has_origin : ControlState → String → Bool
  has_origin state id = elim (case_of state id) [
    | none ↦ false
    | some item ↦ is_some item.observed_origin
  ]

  unfoldable pub require_note_access : ControlState → String → Note → Result (Unit {0})
  require_note_access state parent note = do
    require_subject state parent note.subject
    require
        (not (is_work note.subject.kind || is_some note.readers || has_origin state note.subject.id)
          || (listed parent note.readers
              || str_eq note.author parent
              || contains parent note.parties))
        coordination_not_found
    require_works state parent note.work_refs

  unfoldable pub own_work : ControlState → String → String → ℕ → Result Work
  own_work state parent id revision = visible_work state parent id >>= λ work. do
    require (str_eq work.owner parent) coordination_forbidden
    require (work.revision == revision) coordination_stale_revision
    ok work

unfoldable pub idle : Case → Result (Unit {0})
idle item = require (is_not_started item.external_effect) coordination_external_effect_unresolved

abbrev own_case_checks : String → ℕ → ℕ → Case → Result Case
own_case_checks parent revision generation item = do
  require (contains parent item.members) coordination_not_found
  require (str_eq item.lead parent) coordination_forbidden
  require (item.generation == generation) coordination_stale_generation
  require (item.revision == revision) coordination_stale_revision
  require (is_active item.state) coordination_case_closed
  ok item

unfoldable pub own_case : ControlState → String → String → ℕ → ℕ → Result Case
own_case state parent id revision generation = elim (case_of state id) [
  | none ↦ unavailable
  | some item ↦ own_case_checks parent revision generation item
]
