-- ===== src/Coordination/Parents/Cases.antt =====
-- src/coordination/control.ts, `apply`: the commands on cases. `observed` is set by the elected
-- runtime only.
use passeur.Coordination.Parents.Works.{Applied}
use passeur.Base.{
  coordination_no_external_effect, coordination_inputs_required, coordination_forbidden, ok,
  coordination_target_held, coordination_observed_origin_unavailable, ◌∷◌, ◌||◌, ◌>>◌, ◌>>=◌, ◌++◌,
  ◌&&◌, ℕ, update_first, true, throw_if, suc, str_eq, some, require, not, none, ltb, is_some,
  if◌then◌else◌, false, contains, any, [], String, Result, Option, List, Bool,
}
use passeur.Coordination.State.Records.{
  SubjectKind, Subject, Selection, ObservedOrigin, Lifetime, ExternalEffect, Case,
}
use passeur.Coordination.State.Commands.{Platform, ControlState, CaseStep}
use passeur.Coordination.State.Access.{
  is_active, visible_work, visible_case, own_case, is_pending_origin, is_not_started, idle,
}
use passeur.Coordination.Parents.Notes.{to_set}

abbrev pub coordinates : String → Case → Bool
coordinates target item = str_eq item.target target && is_active item.state

-- `Math.max(0, ...cases.filter(c => c.target === target).map(c => c.generation))`.
abbrev pub latest_generation : String → List Case → ℕ
latest_generation target [] = 0
latest_generation target (c ∷ cases) =
    let rest = latest_generation target cases in
    if str_eq c.target target && ltb rest c.generation then c.generation else rest

abbrev pub case_subject : String → Subject
case_subject id = record { kind = SubjectKind.case; id = id }

abbrev pub new_case : (id target lead : String) → List String → ℕ → Bool → Case
new_case id target lead members generation observed = record {
  id = id;
  target = target;
  lead = lead;
  members = members;
  revision = 1;
  generation = generation;
  state = Lifetime.active;
  external_effect = ExternalEffect.not_started;
  target_oid = none;
  inputs = [];
  observed_origin = if observed then some ObservedOrigin.pending else none;
  delivery_pending = none;
  delivery_observed = none;
  visibility_delta = none;
}

abbrev pub claimed_case : (uuid target parent : String) → List String → Bool → ControlState → Case
claimed_case uuid target parent members observed state =
    new_case uuid target parent (to_set (parent ∷ members))
      (suc (latest_generation target state.cases)) observed

unfoldable pub claim_target :
    (uuid target : String) (members : List String) (observed : Bool)
    → ControlState
    → (parent : String) → Result Applied
claim_target uuid target members observed state parent = do
  throw_if (any (coordinates target) state.cases) coordination_target_held
  ok (record {
    state = record state {
      cases = state.cases ++ claimed_case uuid target parent members observed state ∷ [];
    };
    entity = case_subject uuid;
    item_id = uuid;
  })

abbrev pub require_members : Platform → ControlState → List String → String → Result (Unit {0})
require_members p state [] work = ok tt
require_members p state (member ∷ members) work =
    visible_work p state member work >>= λ _. require_members p state members work

abbrev pub require_inputs :
    Platform → ControlState → List String → List Selection → Result (Unit {0})
require_inputs p state members [] = ok tt
require_inputs p state members (input ∷ inputs) =
    require_members p state members input.work_id >>= λ _. require_inputs p state members inputs

abbrev pub origin_after : Bool → Option ObservedOrigin → Option ObservedOrigin
origin_after true origin = some ObservedOrigin.selected
origin_after false origin = origin

abbrev has_inputs : List Selection → Bool
has_inputs [] = false
has_inputs (_ ∷ _) = true

abbrev pub is_possible : ExternalEffect → Bool
is_possible effect = not (is_not_started effect)

-- The case after the step, before its revision is counted up.
unfoldable pub step_case :
    Platform → (observed : Bool) → ControlState → (parent : String) → CaseStep → Case → Result Case
unfolding idle
step_case p observed state parent (CaseStep.select_inputs target_oid inputs) item = do
  idle item
  throw_if
      (is_pending_origin item.observed_origin && not observed
        || observed && not (is_pending_origin item.observed_origin))
      coordination_observed_origin_unavailable
  require_inputs p state item.members inputs
  ok (record item {
    inputs = inputs;
    target_oid = some target_oid;
    observed_origin = origin_after observed item.observed_origin;
  })
step_case p observed state parent (CaseStep.transfer_case new_lead) item = do
  idle item
  throw_if (str_eq new_lead parent || not (contains new_lead item.members)) coordination_forbidden
  visible_case p state new_lead item.id >>= λ _.
      ok (record item { lead = new_lead; generation = suc item.generation })
step_case p observed state parent CaseStep.begin_external_integration item = do
  idle item
  visible_case p state parent item.id >>= λ _. do
    require (is_some item.target_oid && has_inputs item.inputs) coordination_inputs_required
    ok (record item { external_effect = ExternalEffect.possible })
step_case p observed state parent CaseStep.record_external_settlement item = do
  require (is_possible item.external_effect) coordination_no_external_effect
  ok (record item { external_effect = ExternalEffect.not_started })
step_case p observed state parent CaseStep.release_case item = do
  idle item
  ok (record item { state = Lifetime.closed })

abbrev pub next_case : Case → Case
next_case item = record item { revision = suc item.revision }

abbrev pub change_case : String → (Case → Case) → ControlState → ControlState
change_case id f state = record state { cases = update_first (λ c. str_eq c.id id) f state.cases }

abbrev pub replaced_case : ControlState → Case → Case → Applied
replaced_case state item changed = record {
  state = change_case item.id (λ _. next_case changed) state;
  entity = case_subject item.id;
  item_id = item.id;
}

unfoldable pub apply_case :
    Platform
    → (observed : Bool) → ControlState
    → (parent id : String) (revision generation : ℕ) → CaseStep
    → Result Applied
apply_case p observed state parent id revision generation step =
    own_case state parent id revision generation >>= λ item.
    step_case p observed state parent step item >>= λ changed. ok (replaced_case state item changed)
