-- ===== src/Coordination/Guarantees/Revoke.antt =====
-- src/coordination/control.ts: what becomes of the source grants of a work.
use passeur.Base.{
  ◌∙◌, sym, subst, str_eq_of_ne, str_eq, find-replace, find-pass, ok, ◌≢◌, ◌≡◌, ℕ, true, some, refl,
  none, false, arith, String, Option, List, Bool, >>=-eq-ok,
}
use passeur.Coordination.Parents.Works.{
  next_work, change_work, step_work, replaced_work, cleared, apply_work, Applied,
}
use passeur.Coordination.State.Commands.{WorkStep, Platform, ControlState}
use passeur.Coordination.State.Records.{Work, SourceGrant, Scope}
use passeur.Coordination.State.Lookup.{source_work, grant_for}
use passeur.Coordination.State.Access.{work_of, own_work}
use passeur.Coordination.Contract.WorkEdits.{work_of-id, step_work-change, own_work-eq-ok}

-- The commands that end all grants of a work.
abbrev pub ends_grants : WorkStep → Bool
ends_grants (WorkStep.share_work _) = true
ends_grants WorkStep.close_work = true
ends_grants _ = false

ended :
    (parent : String) (step : WorkStep) (work after : Work)
    → ends_grants step ≡ true
    → step_work parent step work ≡ ok after
    → after.source_grants ≡ cleared work.source_grants
unfolding step_work
ended parent (WorkStep.share_work readers) work after e h = ground arith
ended parent WorkStep.close_work work after e h = ground arith
ended parent (WorkStep.grant_source recipients) work after e h = cc
ended parent (WorkStep.watch_source watchers) work after e h = cc

no_grant :
    (recipient : String) (work : Work) (grants : Option (List SourceGrant))
    → work.source_grants ≡ cleared grants
    → grant_for recipient work ≡ none
no_grant recipient work none e = rw e refl
no_grant recipient work (some gs) e = rw e refl

kept_owner :
    (parent : String) (step : WorkStep) (work after : Work)
    → step_work parent step work ≡ ok after
    → after.owner ≡ work.owner
unfolding step_work
kept_owner parent (WorkStep.share_work readers) work after h = ground arith
kept_owner parent WorkStep.close_work work after h = ground arith
kept_owner parent (WorkStep.grant_source recipients) work after h = ground arith
kept_owner parent (WorkStep.watch_source watchers) work after h = ground arith

stepped_found :
    (s : ControlState) (id : String) (work next : Work)
    → work_of s id ≡ some work
    → next.id ≡ work.id
    → work_of (change_work work.id (λ _. next) s) id ≡ some next
stepped_found s id work next found same =
    subst (λ k. work_of (change_work k (λ _. next) s) id ≡ some next) (sym (work_of-id s id found))
      (find-replace (λ (w : Work). str_eq w.id id) s.works work next found
        (subst (λ k. str_eq k id ≡ true) (sym same)
          (find-pass (λ (w : Work). str_eq w.id id) s.works work found)))

-- Once its owner has shared a work anew, or closed it, no other parent is given its source, whatever
-- was granted before.
pub apply_work-revokes :
    (p : Platform) (s : ControlState) (parent id : String) (revision : ℕ) (step : WorkStep)
    (t : Applied)
    → ends_grants step ≡ true
    → apply_work p s parent id revision step ≡ ok t
    → (recipient : String) (scope : Scope) → recipient ≢ parent
    → source_work t.state recipient id scope ≡ none
unfolding apply_work source_work
apply_work-revokes p s parent id revision step t ends h recipient scope other =
    let (work, owned, k) = >>=-eq-ok (own_work p s parent id revision) _ h in
    let (after, stepped, k') = >>=-eq-ok (step_work parent step work) _ k in
    let (found, owner, _) = own_work-eq-ok p s parent id revision owned in
    let same : replaced_work s work after ≡ t = ground arith in
    let held : work_of t.state id ≡ some (next_work after) =
      subst (λ (u : Applied). work_of u.state id ≡ some (next_work after)) same
        (stepped_found s id work (next_work after) found
          (step_work-change parent work owner step after stepped).same_id) in
    let none_left : grant_for recipient (next_work after) ≡ none =
      no_grant recipient (next_work after) work.source_grants
        (ended parent step work after ends stepped) in
    let not_owner : str_eq after.owner recipient ≡ false =
      str_eq_of_ne after.owner recipient
        (λ e. other (sym e ∙ kept_owner parent step work after stepped ∙ owner)) in
    ground (arith, held, none_left, not_owner)
