-- ===== src/Coordination/Operators/Adoption.antt =====
-- src/coordination/control.ts, `applyRecovery`: the adoption of a work that an observed case selects.
use passeur.Base.{
  ◌≢◌, false, Bool-cases, ok, ◌≡◌, ◌∷◌, ◌&&◌, true, sym, suc, subst, str_eq, some, refl, not, none,
  inr, inl, find-replace, find-pass, filter, eq_of_str_eq, eq_iff, contains, arith, ap, any_mono,
  any, [], String, Option-cases, Option, List, Bool,
}
use passeur.Coordination.State.Records.{Work, VisibilityDelta, Case}
use passeur.Coordination.State.Commands.{
  WorkRecovery, RecoveryTarget, RecoveryCommand, Platform, ControlState,
}
use passeur.Coordination.State.Disclosure.{
  refuses_disclosure, is_refused_delta, is_refused_case, any_in, adds_wrongly,
}
use passeur.Coordination.Operators.Recovery.{recover_work, apply_recovery}
use passeur.Coordination.Parents.Works.{without_sources, change_work}
use passeur.Coordination.State.Access.{is_active, work_of}

abbrev pub names_reader : String → String → VisibilityDelta → Bool
names_reader work reader delta = str_eq delta.work_id work && contains reader delta.added_readers

-- The case discloses the work to this parent.
abbrev pub discloses_to : String → String → Case → Bool
discloses_to work reader item = any_in (names_reader work reader) item.visibility_delta

module _ (p : Platform) (s t : ControlState) (command : RecoveryCommand) (id new_owner : String)
    (asked : command.target ≡ RecoveryTarget.on_work id (WorkRecovery.adopt_work new_owner))
    (h : apply_recovery p s command ≡ ok t) where
  adopted :
      (work : Work) × (work_of t id ≡ some work) × (work.owner ≡ new_owner) × (t.cases ≡ s.cases)
  unfolding apply_recovery recover_work
  adopted = elim (Option-cases (work_of s id)) [
    | inl e ↦ absurd (ground (arith, asked, e))
    | inr (work, e) ↦
        let after : Work = record (without_sources work) {
          owner = new_owner;
          readers = filter (λ r. not (str_eq r new_owner)) work.readers;
          revision = suc work.revision;
        } in
        let same : change_work id (λ _. after) s ≡ t = ground (arith, asked, e) in
        (
          after,
          subst (λ x. work_of x id ≡ some after) same
              (find-replace (λ (w : Work). str_eq w.id id) s.works work after e
                (find-pass (λ (w : Work). str_eq w.id id) s.works work e)),
          refl,
          sym (ap (λ (x : ControlState). x.cases) same),
        )
  ]

  names_owner :
      (work : Work) (item : Case) (readers : List String)
      → contains work.owner readers ≡ true
      → any (adds_wrongly work item) readers ≡ true
  names_owner work item [] e = e
  names_owner work item (r ∷ rs) e =
      ground (arith, names_owner work item rs, eq_iff r work.owner, eq_iff work.owner r)

  refused_delta :
      (item : Case) (delta : VisibilityDelta)
      → names_reader id new_owner delta ≡ true
      → is_refused_delta t item delta ≡ true
  unfolding is_refused_delta
  refused_delta item delta e =
      let (work, found, owner, _) = adopted in
      let same : delta.work_id ≡ id = eq_of_str_eq delta.work_id id (ground (arith, e)) in
      let held : work_of t delta.work_id ≡ some work =
        subst (λ k. work_of t k ≡ some work) (sym same) found in
      let wrong : any (adds_wrongly work item) delta.added_readers ≡ true =
        names_owner work item delta.added_readers
          (subst (λ o. contains o delta.added_readers ≡ true) (sym owner) (ground (arith, e))) in
      ground (arith, held, wrong, Option-cases work.managed)

  refused_case :
      (item : Case) → discloses_to id new_owner item ≡ true → is_refused_case t item ≡ true
  refused_case item e = in_deltas item.visibility_delta e
    where
      in_deltas :
          (deltas : Option (List VisibilityDelta))
          → any_in (names_reader id new_owner) deltas ≡ true
          → any_in (is_refused_delta t item) deltas ≡ true
      in_deltas none e = e
      in_deltas (some deltas) e = any_mono _ _ (refused_delta item) deltas e

  adopted_refused : any (discloses_to id new_owner) s.cases ≡ true → refuses_disclosure t ≡ true
  unfolding refuses_disclosure
  adopted_refused e =
      let (_, _, _, cases) = adopted in
      subst (λ cs. any (is_refused_case t) cs ≡ true) (sym cases)
        (any_mono _ _ refused_case s.cases e)

adopts_work :
    (p : Platform) (s : ControlState) (command : RecoveryCommand) (id new_owner : String)
    (work : Work)
    → command.target ≡ RecoveryTarget.on_work id (WorkRecovery.adopt_work new_owner)
    → work_of s id ≡ some work
    → work.owner ≡ command.expected_owner
    → work.revision ≡ command.expected_revision
    → is_active work.state ≡ true
    → new_owner ≢ work.owner
    → (t : ControlState) × (apply_recovery p s command ≡ ok t)
unfolding apply_recovery recover_work
adopts_work p s command id new_owner work asked found owner revision active other =
    let other' : str_eq new_owner work.owner ≡ false =
      elim (Bool-cases (str_eq new_owner work.owner)) [
        | inl e ↦ absurd (other (eq_of_str_eq new_owner work.owner e))
        | inr e ↦ e
      ] in
    (
      change_work id
          (λ _. record (without_sources work) {
            owner = new_owner;
            readers = filter (λ r. not (str_eq r new_owner)) work.readers;
            revision = suc work.revision;
          })
          s,
      ground
          (arith, asked, found, active, other', revision, eq_iff work.owner command.expected_owner),
    )

-- The adoption of an active work, at its owner and its revision, by another parent to whom a case,
-- open or closed, has disclosed that work returns, and the state that it returns is one that the
-- store's reader refuses.
pub apply_recovery-refused :
    (p : Platform) (s : ControlState) (command : RecoveryCommand) (id new_owner : String)
    (work : Work)
    → command.target ≡ RecoveryTarget.on_work id (WorkRecovery.adopt_work new_owner)
    → work_of s id ≡ some work
    → work.owner ≡ command.expected_owner
    → work.revision ≡ command.expected_revision
    → is_active work.state ≡ true
    → new_owner ≢ work.owner
    → any (discloses_to id new_owner) s.cases ≡ true
    → (t : ControlState) × (apply_recovery p s command ≡ ok t) × (refuses_disclosure t ≡ true)
apply_recovery-refused p s command id new_owner work asked found owner revision active other e =
    let (t, h) =
      adopts_work p s command id new_owner work asked found owner revision active other in
    (t, h, adopted_refused p s t command id new_owner asked h e)
