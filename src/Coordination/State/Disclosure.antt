-- ===== src/Coordination/State/Disclosure.antt =====
-- src/contracts/coordination-control.ts, `decodeControl`: what the store's reader asks of the
-- readers that an observed extension has added.
use passeur.Base.{
  ◌||◌, true, str_eq, some, not, none, ltb, false, contains, any, String, Option, List, Bool,
}
use passeur.Coordination.State.Records.{Work, VisibilityDelta, Case}
use passeur.Coordination.State.Commands.{ControlState}
use passeur.Coordination.State.Access.{work_of, selects}

abbrev pub selects_nothing : VisibilityDelta → Case → Bool
selects_nothing delta item = not (any (selects delta.work_id) item.inputs)

abbrev pub adds_wrongly : Work → Case → String → Bool
adds_wrongly work item reader = str_eq reader work.owner || not (contains reader item.members)

-- The delta that makes the reader refuse the whole state.
unfoldable pub is_refused_delta : ControlState → Case → VisibilityDelta → Bool
is_refused_delta s item delta = elim (work_of s delta.work_id) [
  | none ↦ true
  | some work ↦ elim work.managed [
    | none ↦ true
    | some managed ↦
        selects_nothing delta item
        || ltb work.revision delta.work_revision
        || ltb managed.control_generation delta.control_generation
        || any (adds_wrongly work item) delta.added_readers
  ]
]

abbrev pub any_in : (VisibilityDelta → Bool) → Option (List VisibilityDelta) → Bool
any_in test none = false
any_in test (some deltas) = any test deltas

abbrev pub is_refused_case : ControlState → Case → Bool
is_refused_case s item = any_in (is_refused_delta s item) item.visibility_delta

-- `COORDINATION_INVALID`, "Visibility delta refers outside selected case authority".
unfoldable pub refuses_disclosure : ControlState → Bool
refuses_disclosure s = any (is_refused_case s) s.cases
