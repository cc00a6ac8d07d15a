-- ===== src/Coordination/Histories/Exclusive.antt =====
-- One active case per target, one active work per workspace and one standing binding per request,
-- along every history of src/coordination/control.ts.
use passeur.Coordination.Contract.Publication.{stands_for, BindingEdit}
use passeur.Coordination.State.Records.{Work, SubmissionBinding, Limits, Case}
use passeur.Coordination.Contract.Edits.{WorkEdit, CaseEdit}
use passeur.Coordination.State.Commands.{Platform, ControlState}
use passeur.Base.{
  ◌≤◌, ◌≡◌, subst, str_eq, false, eq_of_str_eq, count-replace, count-append_fresh, count, arith,
  any, String, List,
}
use passeur.Coordination.Histories.History.{empty_control, Reaches-invariant, Reaches}
use passeur.Coordination.Submissions.Decision.{SubmissionDigests}
use passeur.Control.Commit.{change}
use passeur.Coordination.Parents.Cases.{coordinates}
use passeur.Coordination.Parents.Works.{holds_workspace}
use passeur.Coordination.Submissions.Announce.{}

case_exclusive :
    (target : String) (before after : List Case)
    → CaseEdit before after
    → count (coordinates target) before ≤ 1
    → count (coordinates target) after ≤ 1
case_exclusive target before after (CaseEdit.kept same) h = rw same h
case_exclusive target before after (CaseEdit.claimed c _ free _ same) h = rw same (
    count-append_fresh (coordinates target) before c
      (λ e.
        subst (λ x. any (coordinates x) before ≡ false)
          (eq_of_str_eq c.target target (ground (arith, e))) free)
      h)
case_exclusive target before after (CaseEdit.changed item next id found change same) h = rw same (
    omega (
      arith,
      count-replace (coordinates target) (λ (c : Case). str_eq c.id id) before item next found
          (λ e. ground (arith, e, change.same_target, change.was_active)),
      h,
    ))

work_exclusive :
    (workspace : String) (before after : List Work)
    → WorkEdit before after
    → count (holds_workspace workspace) before ≤ 1
    → count (holds_workspace workspace) after ≤ 1
work_exclusive workspace before after (WorkEdit.kept same) h = rw same h
work_exclusive workspace before after (WorkEdit.registered w _ free same) h = rw same (
    count-append_fresh (holds_workspace workspace) before w
      (λ e.
        subst (λ x. any (holds_workspace x) before ≡ false)
          (eq_of_str_eq w.workspace_id workspace (ground (arith, e))) free)
      h)
work_exclusive workspace before after (WorkEdit.changed item next id found change same) h =
    rw same (
      omega (
        arith,
        count-replace (holds_workspace workspace) (λ (w : Work). str_eq w.id id) before item next
            found (λ e. ground (arith, e, change.same_workspace, change.stays_closed)),
        h,
      ))

binding_exclusive :
    (owner key : String) (before after : List SubmissionBinding)
    → BindingEdit before after
    → count (stands_for owner key) before ≤ 1
    → count (stands_for owner key) after ≤ 1
binding_exclusive owner key before after (BindingEdit.kept same) h = rw same h
binding_exclusive owner key before after (BindingEdit.added b free same) h = rw same (
    count-append_fresh (stands_for owner key) before b
      (λ e.
        subst (λ o. any (stands_for o key) before ≡ false)
          (eq_of_str_eq b.owner owner (ground (arith, e)))
          (subst (λ k. any (stands_for b.owner k) before ≡ false)
            (eq_of_str_eq b.request_key key (ground (arith, e))) free))
      h)
binding_exclusive owner key before after (BindingEdit.changed item next id found keep same) h =
    rw same (
      omega (
        arith,
        count-replace (stands_for owner key) (λ (b : SubmissionBinding). str_eq b.task_id id) before
            item next found (keep owner key),
        h,
      ))

abbrev pub IsExclusive : ControlState → Type 0
IsExclusive s =
    ((target : String) → count (coordinates target) s.cases ≤ 1)
    × ((workspace : String) → count (holds_workspace workspace) s.works ≤ 1)
    × ((owner key : String) → count (stands_for owner key) s.bindings ≤ 1)

-- In every state that a history from an empty store reaches, at most one active case coordinates a
-- target, at most one active work holds a workspace, and at most one binding that is not released
-- stands for a request key of an owner.
pub reached-IsExclusive :
    (p : Platform) (d : SubmissionDigests) (repository epoch : String) (limits : Limits)
    {t : ControlState}
    → Reaches p d (empty_control repository epoch limits) t
    → IsExclusive t
reached-IsExclusive p d repository epoch limits h =
    Reaches-invariant p d IsExclusive
      (λ s t published (cases, works, bindings). (
        λ target. case_exclusive target s.cases t.cases published.cases (cases target),
        λ workspace. work_exclusive workspace s.works t.works published.works (works workspace),
        λ owner key.
            binding_exclusive owner key s.bindings t.bindings published.bindings
              (bindings owner key),
      ))
      h (λ _. omega arith, λ _. omega arith, λ _ _. omega arith)
