-- ===== src/Coordination/Contract/CaseEdits.antt =====
-- Every step of a case in src/coordination/control.ts is an edit of the contract.
use passeur.Base.{
  coordination_target_held, ◌++◌, ℕ, throw_if-eq-ok, find-pass, eq_of_str_eq, any, Option-cases,
  >>=-eq-ok, str_eq_refl, inr, eq_iff, Bool-cases, ◌∷◌, subst, str_eq, some, refl, not, inl, filter,
  false, arith, [], ok, ◌≡◌, true, contains, String, List, Bool,
}
use passeur.Coordination.State.Records.{Case}
use passeur.Coordination.State.Commands.{Platform, ControlState, CaseStep}
use passeur.Coordination.Contract.Edits.{CaseEdit, IsSound, Fenced}
use passeur.Coordination.State.Access.{own_case, case_of, is_active, idle}
use passeur.Coordination.Parents.Cases.{
  replaced_case, coordinates, claimed_case, claim_target, case_subject, apply_case, origin_after,
  step_case, next_case,
}
use passeur.Coordination.Parents.Notes.{to_set}
use passeur.Coordination.Parents.Works.{Applied}

contains-without :
    (x y : String) (ys : List String)
    → str_eq x y ≡ false
    → contains y ys ≡ true
    → contains y (filter (λ z. not (str_eq x z)) ys) ≡ true
contains-without x y [] e h = h
contains-without x y (z ∷ ys) e h =
    ground (arith, contains-without x y ys e, eq_iff x z, eq_iff y z, str_eq_refl x)

pub contains-to_set :
    (x : String) (xs : List String) → contains x xs ≡ true → contains x (to_set xs) ≡ true
contains-to_set x [] h = h
contains-to_set x (y ∷ xs) h = elim (Bool-cases (str_eq x y)) [
  | inl e ↦ rw e refl
  | inr e ↦
      ground
        (arith, e, eq_iff x y, eq_iff y x, contains-without y x (to_set xs), contains-to_set x xs)
]

abbrev Step : Case → Case → Type 0
Step item after =
    (after.id ≡ item.id)
    × (after.target ≡ item.target)
    × Fenced item (next_case after)
    × IsSound (next_case after)

module _ (p : Platform) (observed : Bool) (s : ControlState) (parent : String) (item : Case)
    (a : is_active item.state ≡ true) (m : contains item.lead item.members ≡ true) where
  step_case-Step :
      (step : CaseStep) (after : Case)
      → step_case p observed s parent step item ≡ ok after
      → Step item after
  unfolding step_case idle
  step_case-Step (CaseStep.select_inputs oid inputs) after h =
      let same : record item {
        inputs = inputs;
        target_oid = some oid;
        observed_origin = origin_after observed item.observed_origin;
      }
          ≡ after =
        ground arith in
      subst (Step item) same (refl, refl, inl (refl, refl), (m, rw a refl))
  step_case-Step (CaseStep.transfer_case lead) after h = ground arith
  step_case-Step CaseStep.begin_external_integration after h = ground arith
  step_case-Step CaseStep.record_external_settlement after h = ground arith
  step_case-Step CaseStep.release_case after h = ground arith

pub case_of-id :
    (s : ControlState) (id : String) {item : Case} → case_of s id ≡ some item → item.id ≡ id
case_of-id s id {item} h =
    eq_of_str_eq _ _ (find-pass (λ (c : Case). str_eq c.id id) s.cases item h)

-- What `ownCase` returns is the active case of that identity, lead, generation and revision.
pub own_case-eq-ok :
    (s : ControlState) (parent id : String) (revision generation : ℕ) {item : Case}
    → own_case s parent id revision generation ≡ ok item
    → (case_of s id ≡ some item)
      × (item.lead ≡ parent)
      × (item.generation ≡ generation)
      × (item.revision ≡ revision)
      × (is_active item.state ≡ true)
      × (contains item.lead item.members ≡ true)
unfolding own_case
own_case-eq-ok s parent id revision generation {item} h = elim (Option-cases (case_of s id)) [
  | inl e ↦ absurd (ground (arith, e))
  | inr (c, e) ↦ ground (arith, e, eq_iff c.lead parent)
]

module _ (p : Platform) (observed : Bool) (s : ControlState) (parent : String) where
  pub apply_case-edit :
      (id : String) (revision generation : ℕ) (step : CaseStep) (t : Applied)
      → apply_case p observed s parent id revision generation step ≡ ok t
      → CaseEdit s.cases t.state.cases × (t.state ≡ record s { cases = t.state.cases })
  unfolding apply_case
  apply_case-edit id revision generation step t h =
      let (item, owned, k) = >>=-eq-ok (own_case s parent id revision generation) _ h in
      let (after, stepped, k') = >>=-eq-ok (step_case p observed s parent step item) _ k in
      let (found, _, _, _, a, m) = own_case-eq-ok s parent id revision generation owned in
      let (same_id, same_target, fenced, sound) =
        step_case-Step p observed s parent item a m step after stepped in
      let result : replaced_case s item after ≡ t = ground arith in
      subst
        (λ (u : Applied).
          CaseEdit s.cases u.state.cases × (u.state ≡ record s { cases = u.state.cases }))
        result
        (
          CaseEdit.changed item (next_case after) item.id (rw (case_of-id s id found) found)
              (record {
                was_active = a;
                same_id = same_id;
                same_target = same_target;
                fenced = fenced;
                sound = λ _. sound;
              })
              refl,
          refl,
        )

  pub claim_target-edit :
      (uuid target : String) (members : List String) (t : Applied)
      → claim_target uuid target members observed s parent ≡ ok t
      → CaseEdit s.cases t.state.cases × (t.state ≡ record s { cases = t.state.cases })
  unfolding claim_target
  claim_target-edit uuid target members t h =
      let (free, k) =
        throw_if-eq-ok (any (coordinates target) s.cases) coordination_target_held _ h in
      let c = claimed_case uuid target parent members observed s in
      let result : record {
        state = record s { cases = s.cases ++ c ∷ [] };
        entity = case_subject uuid;
        item_id = uuid;
      }
          ≡ t =
        ground arith in
      subst
        (λ (u : Applied).
          CaseEdit s.cases u.state.cases × (u.state ≡ record s { cases = u.state.cases }))
        result (CaseEdit.claimed c (rw (str_eq_refl parent) refl, refl) free refl refl, refl)
