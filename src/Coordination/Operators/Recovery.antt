-- ===== src/Coordination/Operators/Recovery.antt =====
-- src/coordination/control.ts, `applyRecovery` and `recoverAuthorized`: what a verified operator does
-- for an owner that is gone.
use passeur.Coordination.State.Records.{Work, Selection, Lifetime, ExternalEffect, Case}
use passeur.Coordination.State.Commands.{
  max_parties, WorkRecovery, RecoveryTarget, RecoveryCommand, Platform, ControlState, CaseRecovery,
}
use passeur.Base.{
  coordination_work_closed, coordination_no_external_effect, coordination_case_closed,
  coordination_stale_generation, coordination_capacity, ok, coordination_stale_revision,
  coordination_invalid, ◌∷◌, ◌||◌, ◌>>◌, ◌>>=◌, ◌==◌, ◌++◌, ℕ, throw_if, suc, str_eq, some, require,
  not, none, ltb, length, filter, [], String, Result, List,
}
use passeur.Coordination.State.Access.{is_active, work_of, visible_work, unavailable, idle, case_of}
use passeur.Coordination.Parents.Cases.{is_possible, change_case}
use passeur.Coordination.Parents.Works.{without_sources, change_work}
use passeur.Coordination.Parents.Notes.{to_set}

unfoldable pub recover_work : (owner : String) (revision : ℕ) → WorkRecovery → Work → Result Work
recover_work owner revision (WorkRecovery.adopt_work new_owner) work = do
  throw_if (not (str_eq work.owner owner) || not (work.revision == revision))
      coordination_stale_revision
  require (is_active work.state) coordination_work_closed
  throw_if (str_eq new_owner work.owner) coordination_invalid
  ok (record (without_sources work) {
    owner = new_owner;
    readers = filter (λ r. not (str_eq r new_owner)) work.readers;
    revision = suc work.revision;
  })
recover_work owner revision WorkRecovery.close_work work = do
  throw_if (not (str_eq work.owner owner) || not (work.revision == revision))
      coordination_stale_revision
  require (is_active work.state) coordination_work_closed
  ok (record (without_sources work) { state = Lifetime.closed; revision = suc work.revision })

abbrev pub require_visible_inputs :
    Platform → ControlState → String → List Selection → Result (Unit {0})
require_visible_inputs p state parent [] = ok tt
require_visible_inputs p state parent (input ∷ inputs) =
    visible_work p state parent input.work_id >>= λ _. require_visible_inputs p state parent inputs

unfoldable pub recover_step : Platform → ControlState → CaseRecovery → Case → Result Case
unfolding idle
recover_step p state (CaseRecovery.adopt_case new_owner) item = do
  idle item
  throw_if (str_eq new_owner item.lead) coordination_invalid
  require_visible_inputs p state new_owner item.inputs
  throw_if (ltb max_parties (length (to_set (item.members ++ new_owner ∷ []))))
      coordination_capacity
  ok (record item {
    members = to_set (item.members ++ new_owner ∷ []);
    lead = new_owner;
    generation = suc item.generation;
    revision = suc item.revision;
  })
recover_step p state CaseRecovery.release_case item = do
  idle item
  ok (record item { state = Lifetime.closed; revision = suc item.revision })
recover_step p state CaseRecovery.settle_case item = do
  require (is_possible item.external_effect) coordination_no_external_effect
  ok (record item { external_effect = ExternalEffect.not_started; revision = suc item.revision })

unfoldable pub recover_case :
    Platform
    → ControlState
    → (owner : String) (revision generation : ℕ) → CaseRecovery
    → Case
    → Result Case
recover_case p state owner revision generation step item = do
  throw_if (not (str_eq item.lead owner) || not (item.revision == revision))
      coordination_stale_revision
  require (item.generation == generation) coordination_stale_generation
  require (is_active item.state) coordination_case_closed
  recover_step p state step item

unfoldable pub apply_recovery : Platform → ControlState → RecoveryCommand → Result ControlState
apply_recovery p state command = elim command.target [
  | RecoveryTarget.on_work id step ↦ elim (work_of state id) [
    | none ↦ unavailable
    | some work ↦
        recover_work command.expected_owner command.expected_revision step work >>= λ changed.
        ok (change_work id (λ _. changed) state)
  ]
  | RecoveryTarget.on_case id generation step ↦ elim (case_of state id) [
    | none ↦ unavailable
    | some item ↦
        recover_case p state command.expected_owner command.expected_revision generation step item
        >>= λ changed. ok (change_case id (λ _. changed) state)
  ]
]
