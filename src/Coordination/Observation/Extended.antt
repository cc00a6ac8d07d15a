-- ===== src/Coordination/Observation/Extended.antt =====
-- src/coordination/control.ts: the operations on observed cases publish as the contract says.
use passeur.Base.{
  peer_delivery_stale, ◌≢◌, ◌==◌, ℕ, require, map, find-pass, false, eq_of_str_eq, eq_iff, Distinct,
  Bool-cases, Bool, coordination_external_effect_unresolved, ◌>>◌, peer_operation_stale,
  coordination_observed_origin_unavailable, coordination_key_conflict, ◌∷◌, ◌||◌, ◌++◌, ◌&&◌, sym,
  str_eq, require-eq-ok, contains-append, contains, any, [], List, ok, ◌≡◌, true, throw_if-eq-ok,
  throw_if, subst, some, refl, inr, inl, find, arith, any_of_find-none, String, Option-cases,
  >>=-eq-ok,
}
use passeur.Coordination.State.Records.{Work, Action, CoordinationReceipt, Case}
use passeur.Coordination.Contract.Edits.{WorkEdit, CaseEdit, CaseChange}
use passeur.Coordination.State.Commands.{Platform, ObservationInput, ExtensionInput, ControlState}
use passeur.Coordination.Parents.Execute.{
  is_recovery_key, is_event_key, with_receipt, is_of_key, Controller,
}
use passeur.Coordination.Contract.Publication.{Unused, Served, Published}
use passeur.Coordination.State.Access.{
  work_of, own_case, is_selected, is_not_started, is_active, case_of,
}
use passeur.Control.Commit.{change}
use passeur.Coordination.Parents.Cases.{change_case}
use passeur.Coordination.Parents.Capacity.{check_capacity}
use passeur.Coordination.Observation.Observed.{
  observe_case_delivery, visible_inputs, key_used, is_application_note, extended, case_receipt,
  stored_case, observed_delivery, observe_new, extend_observed_case, extend_new,
}
use passeur.Coordination.Contract.Executed.{receipt-Published}
use passeur.Coordination.Contract.CaseEdits.{own_case-eq-ok, contains-to_set, case_of-id}
use passeur.Coordination.Parents.Notes.{to_set}
use passeur.Coordination.State.Stored.{
  through_store-eq-ok, through_store, is_unique-key, is_unique-cases,
}

abbrev DistinctCases : ControlState → Type 0
DistinctCases s = Distinct (map (λ (c : Case). c.id) s.cases)

abbrev is_active_of : String → Case → Bool
is_active_of id c = str_eq c.id id && is_active c.state

not_later :
    (id : String) (cs : List Case) (item : Case)
    → contains id (map (λ (c : Case). c.id) cs) ≡ false
    → find (is_active_of id) cs ≢ some item
not_later id [] item h e = cc
not_later id (c ∷ cs) item h e =
    ground (arith, eq_iff c.id id, eq_iff id c.id, not_later id cs item)

find_active :
    (id : String) (cs : List Case) (item : Case)
    → Distinct (map (λ (c : Case). c.id) cs)
    → find (is_active_of id) cs ≡ some item
    → find (λ (c : Case). str_eq c.id id) cs ≡ some item
find_active id [] item h e = e
find_active id (c ∷ cs) item (fresh, h) e = elim (Bool-cases (str_eq c.id id)) [
  | inl here ↦ elim (Bool-cases (is_active c.state)) [
    | inl a ↦ ground (arith, here, a)
    | inr a ↦ absurd (
        not_later id cs item
          (subst (λ k. contains k (map (λ (c : Case). c.id) cs) ≡ false) (eq_of_str_eq c.id id here)
            fresh)
          (ground (arith, here, a)))
  ]
  | inr there ↦ rw there (find_active id cs item h (ground (arith, there)))
]

module _ (p : Platform) (s : ControlState) where
  stored_case-Published :
      (r : CoordinationReceipt) (item after : Case)
      → case_of s item.id ≡ some item
      → CaseChange item after
      → Unused s r.owner r.key
      → (a : CoordinationReceipt) (t : ControlState) → stored_case p r item.id after s ≡ ok (a, t)
      → Published s t
  stored_case-Published r item after found change fresh a t h =
      let next = with_receipt r (change_case item.id (λ _. after) s) in
      let (_, _, k) = >>=-eq-ok (check_capacity p next) _ h in
      let same : next ≡ t = ground (arith, k) in
      subst (Published s) same (
        receipt-Published s (change_case item.id (λ _. after) s) s.schema_version
          (record {
            only = refl;
            works = WorkEdit.kept refl;
            cases = CaseEdit.changed item after item.id found change refl;
          })
          r fresh)

  module _ (owner : String) where
    extended_change :
        (members : List String) (selected : List Work) (added : Work) (item : Case)
        → is_active item.state ≡ true
        → contains item.lead members ≡ true
        → CaseChange item (extended members selected added item)
    extended_change members selected added item a m = record {
      was_active = a;
      same_id = refl;
      same_target = refl;
      fenced = inl (refl, refl);
      sound = λ _. (m, rw a refl);
    }

    extend_new-Published :
        (c : Controller) (input : ExtensionInput) (r : CoordinationReceipt) (t : ControlState)
        → Unused s owner input.operation_key
        → extend_new p c s owner input ≡ ok (r, t)
        → Published s t
    unfolding extend_new
    extend_new-Published c input r t fresh h =
        let (item, owned, k) =
          >>=-eq-ok (own_case s owner input.case_id input.expected_revision input.generation) _ h in
        let (found, _, _, _, a, m) =
          own_case-eq-ok s owner input.case_id input.expected_revision input.generation owned in
        let (_, k1) =
          require-eq-ok (is_selected item.observed_origin && is_not_started item.external_effect)
            coordination_observed_origin_unavailable _ k in
        let (_, k2) =
          throw_if-eq-ok
            (contains item.id c.application_cases || contains item.id c.transition_cases)
            peer_operation_stale _ k1 in
        let (_, k3) =
          throw_if-eq-ok (any (is_application_note p item.id) s.notes)
            coordination_external_effect_unresolved _ k2 in
        let (selected, _, k4) = >>=-eq-ok (visible_inputs p s owner item.inputs) _ k3 in
        elim (Option-cases (work_of s input.new_work_id)) [
          | inl e ↦ absurd (ground (arith, e))
          | inr (added, e) ↦
              let members = to_set (item.members ++ added.owner ∷ []) in
              let receipt =
                case_receipt owner input.operation_key (p.extension_hash owner input)
                  Action.extend_observed_case item.id s in
              let run : stored_case p receipt item.id (extended members selected added item) s
                  ≡ ok (r, t) =
                ground (arith, e) in
              stored_case-Published receipt item (extended members selected added item)
                (subst (λ id. case_of s id ≡ some item) (sym (case_of-id s input.case_id found))
                  found)
                (extended_change members selected added item a (
                  contains-to_set item.lead (item.members ++ added.owner ∷ [])
                    (ground (arith, contains-append item.lead item.members (added.owner ∷ []), m))))
                fresh r t run
        ]

    pub extend_observed_case-Served :
        (c : Controller) (input : ExtensionInput) (r : CoordinationReceipt) (t : ControlState)
        → extend_observed_case p c s owner input ≡ ok (r, t)
        → Served s t
    unfolding extend_observed_case
    extend_observed_case-Served c input r t h =
        elim (Option-cases (find (is_of_key owner input.operation_key) s.receipts)) [
          | inr (prior, found) ↦ inl (ground (arith, found))
          | inl fresh ↦
              let k : (throw_if (key_used owner input.operation_key s) coordination_key_conflict
                    >> extend_new p c s owner input)
                  ≡ ok (r, t) =
                ground (arith, fresh) in
              let (unused, run) =
                throw_if-eq-ok (key_used owner input.operation_key s) coordination_key_conflict _
                  k in
              inr (
                extend_new-Published c input r t
                  (
                    any_of_find-none _ s.receipts fresh,
                    ground (arith, unused),
                    ground (arith, unused),
                  )
                  run)
        ]

    observed_change :
        (input : ObservationInput) (item : Case)
        → is_active item.state ≡ true
        → CaseChange item (observed_delivery input item)
    observed_change input item a = record {
      was_active = a;
      same_id = refl;
      same_target = refl;
      fenced = inl (refl, refl);
      sound = λ h. h;
    }

    observe_new-Published :
        (input : ObservationInput) (r : CoordinationReceipt) (t : ControlState)
        → DistinctCases s
        → Unused s owner input.operation_key
        → observe_new p s owner input ≡ ok (r, t)
        → Published s t
    unfolding observe_new
    observe_new-Published input r t unique fresh h =
        elim (Option-cases (find (is_active_of input.case_id) s.cases)) [
          | inl e ↦ absurd (ground (arith, e))
          | inr (item, e) ↦
              let receipt =
                case_receipt owner input.operation_key (p.observation_hash owner input)
                  Action.observe_case_delivery item.id s in
              let run : stored_case p receipt item.id (observed_delivery input item) s ≡ ok (r, t) =
                ground (arith, e) in
              let found = find_active input.case_id s.cases item unique e in
              let passed : is_active_of input.case_id item ≡ true =
                find-pass (is_active_of input.case_id) s.cases item e in
              let a : is_active item.state ≡ true = ground (arith, passed) in
              stored_case-Published receipt item (observed_delivery input item)
                (subst (λ id. case_of s id ≡ some item) (sym (case_of-id s input.case_id found))
                  found)
                (observed_change input item a) fresh r t run
        ]

    observe_new-stored :
        (input : ObservationInput) (r : CoordinationReceipt) (t : ControlState)
        → observe_new p s owner input ≡ ok (r, t)
        → (r.owner ≡ owner)
          × (r.key ≡ input.operation_key)
          × (t.receipts ≡ s.receipts ++ r ∷ [])
          × (t.recoveries ≡ s.recoveries)
          × (t.submission_events ≡ s.submission_events)
    unfolding observe_new
    observe_new-stored input r t h =
        elim (Option-cases (find (is_active_of input.case_id) s.cases)) [
          | inl e ↦ absurd (ground (arith, e))
          | inr (item, e) ↦
              let receipt =
                case_receipt owner input.operation_key (p.observation_hash owner input)
                  Action.observe_case_delivery item.id s in
              let run : stored_case p receipt item.id (observed_delivery input item) s ≡ ok (r, t) =
                ground (arith, e) in
              let next =
                with_receipt receipt (change_case item.id (λ _. observed_delivery input item) s) in
              let (_, _, k) = >>=-eq-ok (check_capacity p next) _ run in
              let made : receipt ≡ r = ground (arith, k) in
              let left : next ≡ t = ground (arith, k) in
              subst
                (λ (x : CoordinationReceipt × ControlState).
                  (x.0.owner ≡ owner)
                  × (x.0.key ≡ input.operation_key)
                  × (x.1.receipts ≡ s.receipts ++ x.0 ∷ [])
                  × (x.1.recoveries ≡ s.recoveries)
                  × (x.1.submission_events ≡ s.submission_events))
                {x = (receipt, next)} {y = (r, t)} (cc (made, left)) (refl, refl, refl, refl, refl)
        ]

    -- The source looks for the key among the receipts only; that no recovery and no submission has it
    -- is found when the new state is decoded for its publication.
    pub observe_case_delivery-Served :
        (input : ObservationInput) (epoch : String) (revision : ℕ) (r : CoordinationReceipt)
        (t : ControlState)
        → through_store s (observe_case_delivery p s owner input epoch revision) ≡ ok (r, t)
        → Served s t
    unfolding observe_case_delivery
    observe_case_delivery-Served input epoch revision r t h' =
        let (h, before, after) =
          through_store-eq-ok s (observe_case_delivery p s owner input epoch revision) h' in
        elim (Option-cases (find (is_of_key owner input.operation_key) s.receipts)) [
          | inr (prior, found) ↦ inl (ground (arith, found))
          | inl fresh ↦
              let k : (require (str_eq s.epoch epoch && s.revision == revision) peer_delivery_stale
                    >> observe_new p s owner input)
                  ≡ ok (r, t) =
                ground (arith, fresh) in
              let (_, run) =
                require-eq-ok (str_eq s.epoch epoch && s.revision == revision) peer_delivery_stale _
                  k in
              let (of_owner, of_key, receipts, recoveries, events) =
                observe_new-stored input r t run in
              let (no_recovery, no_event) = is_unique-key s t r receipts recoveries events after in
              inr (
                observe_new-Published input r t (is_unique-cases s before)
                  (
                    any_of_find-none _ s.receipts fresh,
                    subst (λ o. any (is_recovery_key o input.operation_key) s.recoveries ≡ false)
                        of_owner
                        (subst (λ k. any (is_recovery_key r.owner k) s.recoveries ≡ false) of_key
                          no_recovery),
                    subst
                        (λ o. any (is_event_key o input.operation_key) s.submission_events ≡ false)
                        of_owner
                        (subst (λ k. any (is_event_key r.owner k) s.submission_events ≡ false)
                          of_key no_event),
                  )
                  run)
        ]
