-- ===== src/Coordination/Operators/OperatorEdits.antt =====
-- src/coordination/control.ts: a recovery and the operations on observed cases are edits of the
-- contract too.
use passeur.Base.{
  ok, ◌≡◌, ◌∷◌, ◌>>=◌, ◌++◌, ℕ, true, suc, subst, str_eq_refl, str_eq, some, refl, not, inr, inl,
  filter, false, eq_iff, contains-append, contains, arith, [], String, Option-cases, List,
  >>=-eq-ok,
}
use passeur.Coordination.State.Records.{Work, Lifetime, ExternalEffect, Case}
use passeur.Coordination.Contract.Edits.{WorkEdit, WorkChange, Edited, CaseEdit, CaseChange}
use passeur.Coordination.State.Commands.{
  WorkRecovery, RecoveryTarget, RecoveryCommand, Platform, ControlState, CaseRecovery,
}
use passeur.Coordination.Operators.Recovery.{
  recover_work, recover_step, recover_case, apply_recovery,
}
use passeur.Coordination.State.Access.{is_active, work_of, is_not_started, idle, case_of}
use passeur.Control.Commit.{change}
use passeur.Coordination.Parents.Cases.{change_case}
use passeur.Coordination.Parents.Works.{without_sources, change_work}
use passeur.Coordination.Contract.CaseEdits.{contains-to_set}
use passeur.Coordination.Parents.Notes.{to_set}

contains-not :
    (x : String) (xs : List String) → contains x (filter (λ r. not (str_eq r x)) xs) ≡ false
contains-not x [] = refl
contains-not x (y ∷ xs) = ground (arith, contains-not x xs, eq_iff x y, eq_iff y x)

contains-last : (x : String) (xs : List String) → contains x (xs ++ x ∷ []) ≡ true
contains-last x xs = ground (arith, contains-append x xs (x ∷ []), str_eq_refl x)

recover_work-change :
    (owner : String) (revision : ℕ) (step : WorkRecovery) (work after : Work)
    → recover_work owner revision step work ≡ ok after
    → WorkChange work after
unfolding recover_work
recover_work-change owner revision (WorkRecovery.adopt_work new_owner) work after h =
    let same : record (without_sources work) {
      owner = new_owner;
      readers = filter (λ r. not (str_eq r new_owner)) work.readers;
      revision = suc work.revision;
    }
        ≡ after =
      ground arith in
    subst (WorkChange work) same (record {
      same_id = refl;
      same_workspace = refl;
      stays_closed = λ e. e;
      next_revision = refl;
      separate = λ _. contains-not new_owner work.readers;
    })
recover_work-change owner revision WorkRecovery.close_work work after h =
    let still_open : is_active work.state ≡ true = ground arith in
    let same : record (without_sources work) {
      state = Lifetime.closed;
      revision = suc work.revision;
    }
        ≡ after =
      ground arith in
    subst (WorkChange work) same (record {
      same_id = refl;
      same_workspace = refl;
      stays_closed = λ _. still_open;
      next_revision = refl;
      separate = λ e. e;
    })

module _ (p : Platform) (s : ControlState) where
  recover_case-change :
      (owner : String) (revision generation : ℕ) (step : CaseRecovery) (item after : Case)
      → recover_case p s owner revision generation step item ≡ ok after
      → CaseChange item after
  unfolding recover_case recover_step idle
  recover_case-change owner revision generation (CaseRecovery.adopt_case new_owner) item after h =
      let a : is_active item.state ≡ true = ground arith in
      let same : record item {
        members = to_set (item.members ++ new_owner ∷ []);
        lead = new_owner;
        generation = suc item.generation;
        revision = suc item.revision;
      }
          ≡ after =
        ground arith in
      subst (CaseChange item) same (record {
        was_active = a;
        same_id = refl;
        same_target = refl;
        fenced = inr refl;
        sound = λ _. (
          contains-to_set new_owner (item.members ++ new_owner ∷ [])
              (contains-last new_owner item.members),
          rw a refl,
        );
      })
  recover_case-change owner revision generation CaseRecovery.release_case item after h =
      let a : is_active item.state ≡ true = ground arith in
      let quiet : is_not_started item.external_effect ≡ true = ground arith in
      let same : record item { state = Lifetime.closed; revision = suc item.revision } ≡ after =
        ground arith in
      subst (CaseChange item) same (record {
        was_active = a;
        same_id = refl;
        same_target = refl;
        fenced = inl (refl, refl);
        sound = λ (m, _). (m, quiet);
      })
  recover_case-change owner revision generation CaseRecovery.settle_case item after h =
      let a : is_active item.state ≡ true = ground arith in
      let same : record item {
        external_effect = ExternalEffect.not_started;
        revision = suc item.revision;
      }
          ≡ after =
        ground arith in
      subst (CaseChange item) same (record {
        was_active = a;
        same_id = refl;
        same_target = refl;
        fenced = inl (refl, refl);
        sound = λ (m, _). (m, rw a refl);
      })

  work_recovered :
      (id : String) (work after : Work)
      → work_of s id ≡ some work
      → WorkChange work after
      → Edited s (change_work id (λ _. after) s)
  work_recovered id work after found change = record {
    only = refl;
    works = WorkEdit.changed work after id found change refl;
    cases = CaseEdit.kept refl;
  }

  case_recovered :
      (id : String) (item after : Case)
      → case_of s id ≡ some item
      → CaseChange item after
      → Edited s (change_case id (λ _. after) s)
  case_recovered id item after found change = record {
    only = refl;
    works = WorkEdit.kept refl;
    cases = CaseEdit.changed item after id found change refl;
  }

  module _ (command : RecoveryCommand) (t : ControlState)
      (h : apply_recovery p s command ≡ ok t) where
    recovered_target : (target : RecoveryTarget) → command.target ≡ target → Edited s t
    unfolding apply_recovery
    recovered_target (RecoveryTarget.on_work id step) e = elim (Option-cases (work_of s id)) [
      | inl none_found ↦ absurd (ground (arith, e, none_found))
      | inr (work, found) ↦
          let k : (recover_work command.expected_owner command.expected_revision step work
                >>= λ after. ok (change_work id (λ _. after) s))
              ≡ ok t =
            ground (arith, e, found) in
          let (after, recovered, k') =
            >>=-eq-ok (recover_work command.expected_owner command.expected_revision step work) _
              k in
          let same : change_work id (λ _. after) s ≡ t = ground (arith, k') in
          subst (Edited s) same (
            work_recovered id work after found (
              recover_work-change command.expected_owner command.expected_revision step work after
                recovered))
    ]
    recovered_target (RecoveryTarget.on_case id generation step) e =
        elim (Option-cases (case_of s id)) [
          | inl none_found ↦ absurd (ground (arith, e, none_found))
          | inr (item, found) ↦
              let run =
                recover_case p s command.expected_owner command.expected_revision generation step
                  item in
              let k : (run >>= λ after. ok (change_case id (λ _. after) s)) ≡ ok t =
                ground (arith, e, found) in
              let (after, recovered, k') = >>=-eq-ok run _ k in
              let same : change_case id (λ _. after) s ≡ t = ground (arith, k') in
              subst (Edited s) same (
                case_recovered id item after found (
                  recover_case-change command.expected_owner command.expected_revision generation
                    step item after recovered))
        ]

    -- A recovery that is accepted is an edit of the contract.
    pub apply_recovery-Edited : Edited s t
    apply_recovery-Edited = recovered_target command.target refl
