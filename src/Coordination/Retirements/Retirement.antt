-- ===== src/Coordination/Retirements/Retirement.antt =====
-- `reserveRetirement` of src/coordination/control.ts, and the preflight of commands that look at
-- sources, `prepareSourceCommand`.
use passeur.Coordination.State.Access.{is_active}
use passeur.Base.{
  ok, coordination_retirement_active, coordination_result_selected, coordination_closed, ◌∷◌, ◌>>◌,
  ◌&&◌, ℕ, throw_if, suc, str_eq, some, opt_str_eq, not, if◌then◌else◌, filter, contains, any, [],
  String, Result, List, Bool,
}
use passeur.Coordination.State.Records.{Work, Selection, Case}
use passeur.Coordination.State.Commands.{ControlState}
use passeur.Coordination.Parents.Execute.{version_of, task_of, Controller}

abbrev pub is_task_work : String → Work → Bool
is_task_work task work = opt_str_eq (task_of (some work)) (some task)

abbrev selects_task : ControlState → String → Selection → Bool
selects_task state task input =
    any (λ w. is_task_work task w && str_eq w.id input.work_id) state.works

abbrev pub case_selects_task : ControlState → String → Case → Bool
case_selects_task state task item =
    is_active item.state && any (selects_task state task) item.inputs

abbrev pub set_version : String → ℕ → List (String × ℕ) → List (String × ℕ)
set_version task version [] = (task, version) ∷ []
set_version task version (entry ∷ entries) =
    if str_eq entry.0 task
    then (task, version) ∷ entries
    else entry ∷ set_version task version entries

abbrev pub has_version : String → List (String × ℕ) → Bool
has_version task entries = any (λ (e : String × ℕ). str_eq e.0 task) entries

abbrev pub next_version : String → List (String × ℕ) → List (String × ℕ)
next_version task entries = set_version task (suc (version_of task entries)) entries

-- The reservation is held until its `release` runs.
unfoldable pub reserve_retirement : Controller → ControlState → (task : String) → Result Controller
reserve_retirement c state task = do
  throw_if c.closing coordination_closed
  throw_if (any (case_selects_task state task) state.cases) coordination_result_selected
  throw_if (contains task c.retirements) coordination_retirement_active
  ok (record c {
    resource_versions =
        if any (is_task_work task) state.works
        then next_version task c.resource_versions
        else c.resource_versions;
    retirements = task ∷ c.retirements;
  })

unfoldable pub release_retirement : (task : String) → Controller → Controller
release_retirement task c = record c {
  retirements = filter (λ t. not (str_eq t task)) c.retirements;
  resource_versions =
      if has_version task c.resource_versions
      then next_version task c.resource_versions
      else c.resource_versions;
}
