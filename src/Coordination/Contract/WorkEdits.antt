-- ===== src/Coordination/Contract/WorkEdits.antt =====
-- Every step of a work in src/coordination/control.ts is an edit of the contract.
use passeur.Base.{
  coordination_work_closed, coordination_workspace_held, coordination_task_registered,
  coordination_invalid, ok, ◌≡◌, ℕ, true, throw_if-eq-ok, suc, subst, str_eq, some, require-eq-ok,
  refl, none, map, inr, inl, find-pass, eq_of_str_eq, eq_iff, contains, arith, any, [], String,
  Option-cases, List, >>=-eq-ok,
}
use passeur.Coordination.Parents.Works.{
  watched_at, regranted_at, granted_at, without_sources, step_work, replaced_work, registered,
  register_untasked, register_task, next_work, new_work, holds_workspace, cleared, apply_work,
  Applied,
}
use passeur.Coordination.State.Commands.{WorkStep, Platform, ControlState}
use passeur.Coordination.State.Records.{Work, Region, ObjectFormat, ManagedWork, Lifetime}
use passeur.Coordination.Contract.Edits.{WorkEdit, WorkChange}
use passeur.Coordination.State.Access.{
  is_active, work_of, visible_work, own_work, can_read_selected_work,
}

pub visible_work-eq-ok :
    (p : Platform) (s : ControlState) (parent id : String) {work : Work}
    → visible_work p s parent id ≡ ok work
    → (work_of s id ≡ some work) × (can_read_selected_work p s parent work ≡ true)
unfolding visible_work
visible_work-eq-ok p s parent id {work} h = elim (Option-cases (work_of s id)) [
  | inl e ↦ absurd (ground (arith, e))
  | inr (w, e) ↦ ground (arith, e)
]

pub own_work-eq-ok :
    (p : Platform) (s : ControlState) (parent id : String) (revision : ℕ) {work : Work}
    → own_work p s parent id revision ≡ ok work
    → (work_of s id ≡ some work) × (work.owner ≡ parent) × (work.revision ≡ revision)
unfolding own_work
own_work-eq-ok p s parent id revision {work} h =
    let (w, seen, k) = >>=-eq-ok (visible_work p s parent id) _ h in
    let (found, _) = visible_work-eq-ok p s parent id seen in
    ground (arith, found, eq_iff w.owner parent)

pub work_of-id :
    (s : ControlState) (id : String) {work : Work} → work_of s id ≡ some work → work.id ≡ id
work_of-id s id {work} h =
    eq_of_str_eq _ _ (find-pass (λ (w : Work). str_eq w.id id) s.works work h)

module _ (parent : String) (work : Work) (owned : work.owner ≡ parent) where
  pub step_work-change :
      (step : WorkStep) (after : Work)
      → step_work parent step work ≡ ok after
      → WorkChange work (next_work after)
  unfolding step_work
  step_work-change (WorkStep.share_work readers) after h =
      let (apart, k) = throw_if-eq-ok (contains parent readers) coordination_invalid _ h in
      let same : record (without_sources work) { readers = readers } ≡ after = ground arith in
      subst (λ w. WorkChange work (next_work w)) same
        (record {
          same_id = refl;
          same_workspace = refl;
          stays_closed = λ e. e;
          next_revision = refl;
          separate = λ _. rw owned apart;
        })
  step_work-change (WorkStep.grant_source recipients) after h =
      let same : record work {
        source_grants = some (map (granted_at (suc work.revision)) recipients);
        source_watches = cleared work.source_watches;
      }
          ≡ after =
        ground arith in
      subst (λ w. WorkChange work (next_work w)) same
        (record {
          same_id = refl;
          same_workspace = refl;
          stays_closed = λ e. e;
          next_revision = refl;
          separate = λ e. e;
        })
  step_work-change (WorkStep.watch_source watchers) after h =
      let same : record work {
        source_watches = some (map (watched_at (suc work.revision)) watchers);
        source_grants = regranted_at (suc work.revision) work.source_grants;
      }
          ≡ after =
        ground arith in
      subst (λ w. WorkChange work (next_work w)) same
        (record {
          same_id = refl;
          same_workspace = refl;
          stays_closed = λ e. e;
          next_revision = refl;
          separate = λ e. e;
        })
  step_work-change WorkStep.close_work after h =
      let (open_work, k) = require-eq-ok (is_active work.state) coordination_work_closed _ h in
      let same : record (without_sources work) { state = Lifetime.closed } ≡ after = ground arith in
      subst (λ w. WorkChange work (next_work w)) same
        (record {
          same_id = refl;
          same_workspace = refl;
          stays_closed = λ _. open_work;
          next_revision = refl;
          separate = λ e. e;
        })

abbrev Works : ControlState → Applied → Type 0
Works s t = WorkEdit s.works t.state.works × (t.state ≡ record s { works = t.state.works })

module _ (p : Platform) (s : ControlState) (parent : String) where
  pub apply_work-edit :
      (id : String) (revision : ℕ) (step : WorkStep) (t : Applied)
      → apply_work p s parent id revision step ≡ ok t
      → WorkEdit s.works t.state.works × (t.state ≡ record s { works = t.state.works })
  unfolding apply_work
  apply_work-edit id revision step t h =
      let (work, owned, k) = >>=-eq-ok (own_work p s parent id revision) _ h in
      let (after, stepped, k') = >>=-eq-ok (step_work parent step work) _ k in
      let (found, is_owner, _) = own_work-eq-ok p s parent id revision owned in
      let result : replaced_work s work after ≡ t = ground arith in
      subst (Works s) result (
        WorkEdit.changed work (next_work after) work.id (rw (work_of-id s id found) found)
            (step_work-change parent work is_owner step after stepped) refl,
        refl,
      )

  pub register_task-edit :
      (workspace oid : String) (format : ObjectFormat) (intent : String) (areas : List Region)
      (managed : ManagedWork) (t : Applied)
      → register_task workspace oid format intent areas managed s parent ≡ ok t
      → WorkEdit s.works t.state.works × (t.state ≡ record s { works = t.state.works })
  unfolding register_task
  register_task-edit workspace oid format intent areas managed t h =
      let (_, k) =
        throw_if-eq-ok (any (λ w. str_eq w.id managed.task_id) s.works) coordination_task_registered
          _ h in
      let (free, k') =
        throw_if-eq-ok (any (holds_workspace workspace) s.works) coordination_workspace_held _ k in
      let w = new_work managed.task_id parent workspace oid format intent areas [] (some managed) in
      let result : registered s w ≡ t = ground arith in
      subst (Works s) result (WorkEdit.registered w refl free refl, refl)

  pub register_untasked-edit :
      (uuid workspace oid : String) (format : ObjectFormat) (intent : String) (areas : List Region)
      (readers : List String) (t : Applied)
      → register_untasked uuid workspace oid format intent areas readers s parent ≡ ok t
      → WorkEdit s.works t.state.works × (t.state ≡ record s { works = t.state.works })
  unfolding register_untasked
  register_untasked-edit uuid workspace oid format intent areas readers t h =
      let (free, k) =
        throw_if-eq-ok (any (holds_workspace workspace) s.works) coordination_workspace_held _ h in
      let (apart, k') = throw_if-eq-ok (contains parent readers) coordination_invalid _ k in
      let w = new_work uuid parent workspace oid format intent areas readers none in
      let result : registered s w ≡ t = ground arith in
      subst (Works s) result (WorkEdit.registered w apart free refl, refl)
