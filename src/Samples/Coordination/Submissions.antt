-- ===== src/Samples/Coordination/Submissions.antt =====
-- The theorems on submissions, retirements, adoptions and grants at sample states.
use passeur.Coordination.Submissions.Decision.{
  SubmissionDispositionInput, SubmissionBindInput, Disposition, AnnouncementInput,
}
use passeur.Coordination.State.Records.{
  EventKind, Work, VisibilityDelta, SubmissionBinding, SourceGrant, Scope, ObservedOrigin,
  ObjectFormat, ManagedWork, Limits, Lifetime, Case, BindingState, AreasSource,
  AnnouncementReference,
}
use passeur.Coordination.Parents.Works.{step_work, replaced_work, new_work, apply_work, Applied}
use passeur.Coordination.Parents.Execute.{admit_command, Controller}
use passeur.Coordination.State.Commands.{
  control_receipt_count, WorkStep, WorkRecovery, Request, RecoveryTarget, RecoveryCommand,
  ControlState,
}
use passeur.Base.{ok, ◌≤◌, ◌≢◌, ◌≡◌, ◌∷◌, ◌+◌, true, some, refl, none, false, arith, any, []}
use passeur.Coordination.Submissions.Announce.{with_event, change_announcement, announced}
use passeur.Coordination.Operators.Recovery.{apply_recovery}
use passeur.Coordination.Operators.Adoption.{apply_recovery-refused}
use passeur.Coordination.Guarantees.Revoke.{apply_work-revokes}
use passeur.Coordination.Submissions.Bind.{bound_to_task, bind_announcement}
use passeur.Coordination.State.Access.{visible_work, own_work, can_read_selected_work}
use passeur.Coordination.Retirements.Retirement.{
  reserve_retirement, release_retirement, case_selects_task,
}
use passeur.Samples.Coordination.{submission_digests, platform, limits, empty, controller}
use passeur.Coordination.Submissions.Settle.{
  disposed_binding, change_binding, disposed_announcement, dispose_new, dispose_announcement,
}
use passeur.Coordination.Submissions.Release.{given_back, dispose_announcement-bound}
use passeur.Coordination.Submissions.Full.{dispose_new-full}
use passeur.Coordination.Parents.Cases.{new_case}
use passeur.Coordination.Retirements.Retiring.{
  release_retirement-renews, reserve_retirement-excludes, read_before,
}
use passeur.Coordination.State.Disclosure.{refuses_disclosure}
use passeur.Coordination.Parents.Capacity.{release_slots_required}
use passeur.Coordination.State.Lookup.{source_work}

abbrev managed_work : ManagedWork
managed_work = record {
  task_id = "task";
  control_generation = 1;
  intent_truncated = false;
  areas_source = AreasSource.not_declared;
}

abbrev bobs : SourceGrant
bobs = record { recipient = "bob"; scope = Scope.detail; work_revision = 1 }

abbrev plain : Work
plain = new_work "task" "alice" "/w" "oid" ObjectFormat.sha1 "intent" [] [] (some managed_work)

abbrev shared_source : Work
shared_source = record plain { source_grants = some (bobs ∷ []) }

abbrev working : ControlState
working = record empty { works = shared_source ∷ [] }

abbrev shut : Work
shut = record shared_source { state = Lifetime.closed; source_grants = some [] }

abbrev closed_working : Applied
closed_working = replaced_work working shared_source shut

closes : apply_work platform working "alice" "task" 1 WorkStep.close_work ≡ ok closed_working
unfolding apply_work own_work visible_work can_read_selected_work step_work
closes = refl

apply_work-revokes_example : source_work closed_working.state "bob" "task" Scope.detail ≡ none
apply_work-revokes_example =
    apply_work-revokes platform working "alice" "task" 1 WorkStep.close_work closed_working refl
      closes "bob" Scope.detail (λ e. absurd (cc))

abbrev retiring : Controller
retiring = record controller { retirements = "task" ∷ []; resource_versions = ("task", 1) ∷ [] }

reserves : reserve_retirement controller working "task" ≡ ok retiring
unfolding reserve_retirement
reserves = refl

abbrev enrolling : Request
enrolling = Request.register_task_work "/w" "oid" ObjectFormat.sha1 "intent" [] managed_work

reserve_retirement-excludes_example :
    (any (case_selects_task working "task") working.cases ≡ false)
    × (admit_command platform retiring none [] empty "alice" enrolling ≢ ok tt)
reserve_retirement-excludes_example =
    reserve_retirement-excludes platform controller retiring working empty "task" none [] "alice"
      enrolling reserves refl

release_retirement-renews_example :
    admit_command platform
      (release_retirement "task" retiring)
      none
      (read_before controller "task" ∷ [])
      working
      "alice"
      enrolling
    ≢ ok tt
release_retirement-renews_example =
    release_retirement-renews platform controller retiring working working "task" none [] "alice"
      enrolling reserves refl

abbrev delta : VisibilityDelta
delta = record {
  work_id = "task";
  work_revision = 1;
  control_generation = 1;
  areas = [];
  added_readers = "bob" ∷ [];
}

abbrev observed_case : Case
observed_case = record (new_case "case" "refs/heads/main" "alice" ("alice" ∷ "bob" ∷ []) 1 true) {
  inputs = record { work_id = "task"; commit_oid = "oid" } ∷ [];
  observed_origin = some ObservedOrigin.selected;
  visibility_delta = some (delta ∷ []);
}

abbrev disclosing : ControlState
disclosing = record empty { works = plain ∷ []; cases = observed_case ∷ [] }

abbrev adopting : RecoveryCommand
adopting = record {
  operation_key = "k";
  epoch = "epoch";
  expected_owner = "alice";
  expected_revision = 1;
  statement = "alice is gone";
  target = RecoveryTarget.on_work "task" (WorkRecovery.adopt_work "bob");
}

apply_recovery-refused_example :
    (t : ControlState) × (apply_recovery platform disclosing adopting ≡ ok t)
    × (refuses_disclosure t ≡ true)
apply_recovery-refused_example =
    apply_recovery-refused platform disclosing adopting "task" "bob" plain refl refl refl refl refl
      (λ e. absurd (cc)) refl

abbrev bound_binding : SubmissionBinding
bound_binding = record {
  task_id = "task";
  request_key = "r1";
  owner = "alice";
  intent_hash = "i";
  decision_identity = "d";
  link_hash = "l";
  source_view = "/src";
  input_oid = "oid";
  areas = [];
  announcement = none;
  state = BindingState.bound;
  terminal = none;
}

abbrev one_receipt : Limits
one_receipt = record limits { receipts = 1 }

abbrev full : ControlState
full = record empty { limits = one_receipt; schema_version = 4; bindings = bound_binding ∷ [] }

abbrev settling : SubmissionDispositionInput
settling = record { operation_key = "k"; task_id = "task"; request_key = "r1"; link_hash = "l" }

is_full : full.limits.receipts ≤ control_receipt_count full + release_slots_required full
unfolding release_slots_required
is_full = omega arith

abbrev settled_full : ControlState
settled_full =
    with_event EventKind.settle "alice" "k" "task" "alicek"
      (change_binding "task" (λ _. disposed_binding Disposition.settle bound_binding) full)

dispose_new-full_example :
    dispose_new platform submission_digests full "alice" settling Disposition.settle
    ≢ ok (disposed_binding Disposition.settle bound_binding, settled_full)
dispose_new-full_example =
    dispose_new-full platform submission_digests full "alice" settling Disposition.settle
      bound_binding refl refl is_full (disposed_binding Disposition.settle bound_binding)
      settled_full

abbrev reference : AnnouncementReference
reference = record { id = "a1"; revision = 1 }

abbrev announcing : AnnouncementInput
announcing = record {
  operation_key = "k0";
  id = "a1";
  payload_digest = "pd";
  source_view = "/src";
  assignment_hash = "ah";
  areas = [];
  readers = [];
}

abbrev binding_input : SubmissionBindInput
binding_input = record {
  preflight = record {
    source_view = "/src";
    input_oid = "oid";
    intent_hash = "i";
    areas = [];
    announcement = some reference;
  };
  operation_key = "k1";
  task_id = "task";
  request_key = "r1";
  expected_decision_identity = none;
  payload_digest = some "pd";
  assignment_hash = some "ah";
}

abbrev with_one : ControlState
with_one = record empty { schema_version = 4; announcements = announced "alice" announcing ∷ [] }

abbrev with_bound : ControlState
with_bound = change_announcement "a1" (bound_to_task "task") with_one

abbrev with_returned : ControlState
with_returned = change_announcement "a1" (disposed_announcement Disposition.release) with_bound

binds_one :
    bind_announcement platform "alice" binding_input with_one (some reference) ≡ ok with_bound
unfolding bind_announcement
binds_one = refl

returns_one :
    dispose_announcement Disposition.release "alice" "task" with_bound (some reference)
    ≡ ok with_returned
unfolding dispose_announcement
returns_one = refl

dispose_announcement-bound_example : with_returned ≡ change_announcement "a1" given_back with_one
dispose_announcement-bound_example =
    dispose_announcement-bound platform "alice" binding_input with_one with_bound with_returned
      reference binds_one returns_one
