-- ===== src/Coordination/Contract/Edits.antt =====
-- What one operation of src/coordination/control.ts may do to the works and to the cases: the
-- contract that src/contracts/coordination-control.ts states of stored states, edit by edit.
use passeur.Coordination.State.Records.{Work, Case}
use passeur.Coordination.State.Commands.{ControlState}
use passeur.Base.{
  ◌⊎◌, ◌≡◌, ◌∷◌, ◌||◌, ◌++◌, update_first, true, suc, str_eq, some, find, false, contains, any, [],
  String, List,
}
use passeur.Coordination.Parents.Cases.{latest_generation, coordinates}
use passeur.Coordination.Parents.Works.{holds_workspace}
use passeur.Coordination.State.Access.{is_active, is_not_started}

-- The lead is a participant, and a closed case has no external effect left open.
abbrev pub IsSound : Case → Type 0
IsSound c =
    (contains c.lead c.members ≡ true)
    × ((is_active c.state || is_not_started c.external_effect) ≡ true)

-- Leadership changes hands only under the next generation.
abbrev pub Fenced : Case → Case → Type 0
Fenced before after =
    (after.lead ≡ before.lead) × (after.generation ≡ before.generation)
    ⊎ (after.generation ≡ suc before.generation)

-- One active case changes: it keeps its identity and its target.
pub record CaseChange (item after : Case) : Type 0 where
  pub was_active : is_active item.state ≡ true
  pub same_id : after.id ≡ item.id
  pub same_target : after.target ≡ item.target
  pub fenced : Fenced item after
  pub sound : IsSound item → IsSound after

pub data CaseEdit (before after : List Case) : Type 0 where
  kept : after ≡ before → CaseEdit before after
  claimed :
      (c : Case)
      → IsSound c
      → any (coordinates c.target) before ≡ false
      → c.generation ≡ suc (latest_generation c.target before)
      → after ≡ before ++ c ∷ []
      → CaseEdit before after
  changed :
      (item next : Case) (id : String)
      → find (λ c. str_eq c.id id) before ≡ some item
      → CaseChange item next
      → after ≡ update_first (λ c. str_eq c.id id) (λ _. next) before
      → CaseEdit before after

-- The owner of a work is not one of its readers.
abbrev pub IsSeparate : Work → Type 0
IsSeparate w = contains w.owner w.readers ≡ false

pub record WorkChange (item after : Work) : Type 0 where
  pub same_id : after.id ≡ item.id
  pub same_workspace : after.workspace_id ≡ item.workspace_id
  pub stays_closed : is_active after.state ≡ true → is_active item.state ≡ true
  pub next_revision : after.revision ≡ suc item.revision
  pub separate : IsSeparate item → IsSeparate after

pub data WorkEdit (before after : List Work) : Type 0 where
  kept : after ≡ before → WorkEdit before after
  registered :
      (w : Work)
      → IsSeparate w
      → any (holds_workspace w.workspace_id) before ≡ false
      → after ≡ before ++ w ∷ []
      → WorkEdit before after
  changed :
      (item next : Work) (id : String)
      → find (λ w. str_eq w.id id) before ≡ some item
      → WorkChange item next
      → after ≡ update_first (λ w. str_eq w.id id) (λ _. next) before
      → WorkEdit before after

-- Nothing but works, cases and notes differs.
abbrev pub EditsOnly : ControlState → ControlState → Type 0
EditsOnly s t = t ≡ record s { works = t.works; cases = t.cases; notes = t.notes }

pub record Edited (s t : ControlState) : Type 0 where
  pub only : EditsOnly s t
  pub works : WorkEdit s.works t.works
  pub cases : CaseEdit s.cases t.cases
