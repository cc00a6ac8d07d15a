-- ===== src/Coordination/Observation/Observed.antt =====
-- `extendObservedCase` and `observeCaseDelivery` of src/coordination/control.ts: a case that the
-- elected runtime observes takes another work, and learns what its recipients have seen.
use passeur.Coordination.State.Records.{
  Work, VisibilityDelta, Selection, ObjectFormat, Note, ManagedWork, DeliveryObservation,
  CoordinationReceipt, Case, Action,
}
use passeur.Base.{
  coordination_capacity, coordination_observed_scope_unsupported, coordination_observed_duplicate,
  coordination_external_effect_unresolved, peer_operation_stale, peer_delivery_stale, err, ok,
  coordination_observed_origin_unavailable, coordination_key_conflict, ◌∷◌, ◌||◌, ◌>>◌, ◌>>=◌, ◌==◌,
  ◌++◌, ◌&&◌, ℕ, true, throw_if, suc, str_eq, some, require, opt_str_eq, not, none, map, ltb,
  length, is_some, find, filter, false, contains, any, all, [], String, Result, Option, List, Bool,
}
use passeur.Coordination.State.Commands.{
  max_parties, Platform, ObservationInput, ExtensionInput, ControlState,
}
use passeur.Coordination.Parents.Execute.{
  with_receipt, is_recovery_key, is_of_key, is_event_key, Controller,
}
use passeur.Coordination.State.Access.{
  is_active, work_of, visible_work, unavailable, own_case, listed, is_work, is_selected,
  is_not_started, can_read_work,
}
use passeur.Coordination.Parents.Cases.{change_case, case_subject}
use passeur.Coordination.Parents.Capacity.{check_capacity}
use passeur.Coordination.Parents.Notes.{to_set}

abbrev pub is_extension : Action → Bool
is_extension Action.extend_observed_case = true
is_extension _ = false

abbrev pub is_observation : Action → Bool
is_observation Action.observe_case_delivery = true
is_observation _ = false

abbrev pub is_application_note : Platform → String → Note → Bool
is_application_note p case note =
    not (is_work note.subject.kind) && str_eq note.subject.id case && p.is_application note.text

abbrev pub visible_inputs : Platform → ControlState → String → List Selection → Result (List Work)
visible_inputs p state owner [] = ok []
visible_inputs p state owner (input ∷ inputs) = visible_work p state owner input.work_id >>= λ work.
    visible_inputs p state owner inputs >>= λ works. ok (work ∷ works)

abbrev pub is_same_format : ObjectFormat → ObjectFormat → Bool
is_same_format ObjectFormat.sha1 ObjectFormat.sha1 = true
is_same_format ObjectFormat.sha256 ObjectFormat.sha256 = true
is_same_format _ _ = false

abbrev pub is_compatible : Work → Work → Bool
is_compatible added work =
    is_some work.managed
    && is_active work.state
    && str_eq work.input_oid added.input_oid
    && is_same_format work.object_format added.object_format

abbrev pub has_works : List Work → Bool
has_works [] = false
has_works (_ ∷ _) = true

abbrev pub is_task_changing : Controller → Work → Bool
is_task_changing c work = elim work.managed [
  | none ↦ false
  | some managed ↦
      contains managed.task_id c.transition_tasks
      || contains managed.task_id c.service_transitions
      || contains managed.task_id c.retirements
]

-- `work.managed!`: every such work is managed, as was checked.
abbrev managed_generation : Option ManagedWork → ℕ
managed_generation none = 0
managed_generation (some managed) = managed.control_generation

abbrev pub delta_of : List String → Work → VisibilityDelta
delta_of members work = record {
  work_id = work.id;
  work_revision = work.revision;
  control_generation = managed_generation work.managed;
  areas = work.areas;
  added_readers = filter (λ m. not (can_read_work m work)) members;
}

abbrev added_inputs : List Selection → Work → List Selection
added_inputs inputs added =
    inputs ++ record { work_id = added.id; commit_oid = added.input_oid } ∷ []

abbrev input_work : Selection → String
input_work i = i.work_id

abbrev pub extended : List String → List Work → Work → Case → Case
extended members selected added item = record item {
  members = members;
  inputs = added_inputs item.inputs added;
  delivery_pending = some (map input_work (added_inputs item.inputs added));
  delivery_observed = some [];
  visibility_delta = some (map (delta_of members) (selected ++ added ∷ []));
  revision = suc item.revision;
}

abbrev pub case_receipt :
    String → String → String → Action → String → ControlState → CoordinationReceipt
case_receipt owner key hash action id state = record {
  owner = owner;
  key = key;
  request_hash = hash;
  revision = suc state.revision;
  action = action;
  entity = case_subject id;
  item_id = id;
}

abbrev pub stored_case :
    Platform
    → CoordinationReceipt
    → String
    → Case
    → ControlState
    → Result (CoordinationReceipt × ControlState)
stored_case p r id changed state =
    let next = with_receipt r (change_case id (λ _. changed) state) in
    check_capacity p next >>= λ _. ok (r, next)

unfoldable pub extend_new :
    Platform
    → Controller
    → ControlState
    → (owner : String) → ExtensionInput
    → Result (CoordinationReceipt × ControlState)
extend_new p c state owner input =
    own_case state owner input.case_id input.expected_revision input.generation >>= λ item. do
      require (is_selected item.observed_origin && is_not_started item.external_effect)
          coordination_observed_origin_unavailable
      throw_if (contains item.id c.application_cases || contains item.id c.transition_cases)
          peer_operation_stale
      throw_if (any (is_application_note p item.id) state.notes)
          coordination_external_effect_unresolved
      visible_inputs p state owner item.inputs >>= λ selected.
          elim (work_of state input.new_work_id) [
            | none ↦ unavailable
            | some added ↦ (do
              throw_if (any (λ (w : Work). str_eq w.id added.id) selected)
                  coordination_observed_duplicate
              require
                  (is_some added.managed
                    && is_active added.state
                    && has_works selected
                    && all (is_compatible added) selected
                    && opt_str_eq (some input.target_oid) item.target_oid)
                  coordination_observed_scope_unsupported
              let members = to_set (item.members ++ added.owner ∷ [])
              throw_if (ltb max_parties (length members)) coordination_capacity
              throw_if (any (is_task_changing c) (selected ++ added ∷ [])) peer_operation_stale
              stored_case p
                  (case_receipt owner input.operation_key (p.extension_hash owner input)
                    Action.extend_observed_case item.id state)
                  item.id (extended members selected added item) state)
          ]

abbrev pub key_used : String → String → ControlState → Bool
key_used owner key state =
    any (is_recovery_key owner key) state.recoveries
    || any (is_event_key owner key) state.submission_events

unfoldable pub extend_observed_case :
    Platform
    → Controller
    → ControlState
    → (owner : String) → ExtensionInput
    → Result (CoordinationReceipt × ControlState)
extend_observed_case p c state owner input =
    elim (find (is_of_key owner input.operation_key) state.receipts) [
      | some prior ↦ (do
        require
            (str_eq prior.request_hash (p.extension_hash owner input) && is_extension prior.action)
            coordination_key_conflict
        ok (prior, state))
      | none ↦ (do
        throw_if (key_used owner input.operation_key state) coordination_key_conflict
        extend_new p c state owner input)
    ]

-- `observed_epoch` and `observed_revision` are the guard.
abbrev pub observes : String → ObservationInput → Case → Bool
observes owner input item =
    str_eq item.lead owner
    && item.revision == input.case_revision
    && item.generation == input.generation
    && is_selected item.observed_origin
    && listed input.recipient_work_id item.delivery_pending

abbrev pub without_recipient : String → Option (List String) → Option (List String)
without_recipient work none = none
without_recipient work (some ids) = some (filter (λ id. not (str_eq id work)) ids)

abbrev pub with_observation :
    DeliveryObservation → Option (List DeliveryObservation) → Option (List DeliveryObservation)
with_observation o none = some (o ∷ [])
with_observation o (some os) = some (os ++ o ∷ [])

abbrev pub observed_delivery : ObservationInput → Case → Case
observed_delivery input item = record item {
  delivery_pending = without_recipient input.recipient_work_id item.delivery_pending;
  delivery_observed =
      with_observation
        (record {
          work_id = input.recipient_work_id;
          observation_digest = input.observation_digest;
        })
        item.delivery_observed;
}

unfoldable pub observe_new :
    Platform
    → ControlState
    → (owner : String) → ObservationInput
    → Result (CoordinationReceipt × ControlState)
observe_new p state owner input =
    elim (find (λ c. str_eq c.id input.case_id && is_active c.state) state.cases) [
      | none ↦ err peer_delivery_stale
      | some item ↦ (do
        require (observes owner input item) peer_delivery_stale
        stored_case p
            (case_receipt owner input.operation_key (p.observation_hash owner input)
              Action.observe_case_delivery item.id state)
            item.id (observed_delivery input item) state)
    ]

unfoldable pub observe_case_delivery :
    Platform
    → ControlState
    → (owner : String) → ObservationInput
    → (observed_epoch : String) (observed_revision : ℕ)
    → Result (CoordinationReceipt × ControlState)
observe_case_delivery p state owner input epoch revision =
    elim (find (is_of_key owner input.operation_key) state.receipts) [
      | some prior ↦ (do
        require
            (str_eq prior.request_hash (p.observation_hash owner input)
              && is_observation prior.action)
            coordination_key_conflict
        ok (prior, state))
      | none ↦ (do
        require (str_eq state.epoch epoch && state.revision == revision) peer_delivery_stale
        observe_new p state owner input)
    ]
