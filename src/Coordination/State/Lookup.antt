-- ===== src/Coordination/State/Lookup.antt =====
-- src/coordination/control.ts: what a parent reads.
use passeur.Base.{
  ok, ◌∷◌, ◌||◌, ◌>>=◌, ◌==◌, ◌++◌, ◌&&◌, ℕ, true, str_eq, some, not, none, map, if◌then◌else◌,
  find, filter, false, [], String, Result, Option, List, Bool,
}
use passeur.Coordination.State.Records.{
  Work, SourceGrant, Selection, Scope, Region, CoordinationReceipt, Case,
}
use passeur.Coordination.State.Commands.{Platform, ControlState}
use passeur.Coordination.State.Access.{
  is_active, work_of, visible_work, selects, can_read_selected_work, can_read_case,
}
use passeur.Coordination.Parents.Execute.{is_of_key}
use passeur.Coordination.Submissions.Decision.{shared_areas}

unfoldable pub receipt_by_key : ControlState → (owner key : String) → Option CoordinationReceipt
receipt_by_key state owner key = find (is_of_key owner key) state.receipts

abbrev is_detail : Scope → Bool
is_detail Scope.detail = true
is_detail Scope.report = false

abbrev is_grant_for : String → ℕ → SourceGrant → Bool
is_grant_for recipient revision g = str_eq g.recipient recipient && g.work_revision == revision

abbrev pub grant_allows : Scope → Option SourceGrant → Bool
grant_allows scope none = false
grant_allows scope (some g) = not (is_detail scope) || is_detail g.scope

abbrev pub grant_for : String → Work → Option SourceGrant
grant_for recipient work = elim work.source_grants [
  | none ↦ none
  | some grants ↦ find (is_grant_for recipient work.revision) grants
]

-- none where the source throws STRUCTURAL_SOURCE_FORBIDDEN.
unfoldable pub source_work : ControlState → (recipient id : String) → Scope → Option Work
source_work state recipient id scope = elim (work_of state id) [
  | none ↦ none
  | some work ↦
      if is_active work.state
        && (str_eq work.owner recipient || grant_allows scope (grant_for recipient work))
      then some work
      else none
]

pub record SelectedCase : Type 0 where
  pub case_id : String
  pub commit_oid : String

abbrev selected_in : Case → Selection → SelectedCase
selected_in item input = record { case_id = item.id; commit_oid = input.commit_oid }

abbrev selections_of : String → List Case → List SelectedCase
selections_of work [] = []
selections_of work (c ∷ cases) =
    map (selected_in c) (filter (selects work) c.inputs) ++ selections_of work cases

unfoldable pub selected_cases :
    Platform → ControlState → (owner work : String) → Result (List SelectedCase)
selected_cases p state owner work = visible_work p state owner work >>= λ _. ok (
    selections_of work
      (filter (λ c. is_active c.state && can_read_case p state owner c) state.cases))

pub record WorkOverlap : Type 0 where
  pub work_id : String
  pub areas : List Region

abbrev work_overlap : Work → Work → WorkOverlap
work_overlap target w = record { work_id = w.id; areas = shared_areas w.areas target.areas }

abbrev is_overlap : WorkOverlap → Bool
is_overlap o = elim o.areas [ [] ↦ false | _ ∷ _ ↦ true ]

unfoldable pub overlaps :
    Platform → ControlState → (owner work : String) → Result (List WorkOverlap)
overlaps p state owner work = visible_work p state owner work >>= λ target. ok (
    filter is_overlap (
      map (work_overlap target) (
        filter
          (λ (w : Work).
            not (str_eq w.id work) && is_active w.state && can_read_selected_work p state owner w)
          state.works)))
