-- ===== src/Coordination/Submissions/Disposed.antt =====
-- src/coordination/control.ts: how a binding ends publishes as the contract says.
use passeur.Base.{
  update_first, coordination_binding_settled, coordination_binding_conflict, ◌>>◌,
  coordination_not_found, ok, ◌≡◌, ◌>>=◌, true, sym, subst, str_eq, some, require-eq-ok, require,
  refl, none, inr, inl, find-pass, eq_of_str_eq, arith, String, Option-cases, Option, >>=-eq-ok,
}
use passeur.Coordination.State.Records.{EventKind, SubmissionBinding, AnnouncementReference}
use passeur.Coordination.State.Commands.{Platform, ControlState}
use passeur.Coordination.Submissions.Decision.{
  SubmissionTerminalInput, announcement_of, SubmissionDispositionInput, SubmissionDigests,
  Disposition,
}
use passeur.Inputs.Answer.{answer}
use passeur.Coordination.Submissions.Announce.{
  with_event, submission_state, published, change_announcement, binding_of,
}
use passeur.Coordination.Submissions.Settle.{
  terminate_new, terminal_submission_binding, terminal_binding, dispose_submission, is_exact,
  event_kind, disposed_binding, disposed_announcement, dispose_new, dispose_announcement,
  change_binding,
}
use passeur.Coordination.Parents.Capacity.{is_settled_binding, is_bound, check_capacity}
use passeur.Coordination.Submissions.Submitted.{keyed-Served, event-Published, published-eq-ok}
use passeur.Coordination.Contract.Publication.{stands_for, Unused, Served, Published, BindingEdit}

pub dispose_announcement-only :
    (kind : Disposition) (owner task : String) (u : ControlState)
    (reference : Option AnnouncementReference) (t : ControlState)
    → dispose_announcement kind owner task u reference ≡ ok t
    → t ≡ record u { announcements = t.announcements }
unfolding dispose_announcement
dispose_announcement-only kind owner task u none t h =
    let same : u ≡ t = ground arith in
    subst (λ (x : ControlState). x ≡ record u { announcements = x.announcements }) same refl
dispose_announcement-only kind owner task u (some reference) t h =
    elim (Option-cases (announcement_of u reference.id)) [
      | inl e ↦ absurd (ground (arith, e))
      | inr (a, e) ↦
          let same : change_announcement reference.id (disposed_announcement kind) u ≡ t =
            ground (arith, e) in
          subst (λ (x : ControlState). x ≡ record u { announcements = x.announcements }) same refl
    ]

pub binding_of-id :
    (s : ControlState) (task : String) {b : SubmissionBinding}
    → binding_of s task ≡ some b
    → b.task_id ≡ task
binding_of-id s task {b} h =
    eq_of_str_eq _ _ (find-pass (λ (b : SubmissionBinding). str_eq b.task_id task) s.bindings b h)

pub found_by_own_id :
    (s : ControlState) (task : String) {b : SubmissionBinding}
    → binding_of s task ≡ some b
    → binding_of s b.task_id ≡ some b
found_by_own_id s task {b} h =
    subst (λ id. binding_of s id ≡ some b) (sym (binding_of-id s task h)) h

module _ (p : Platform) (d : SubmissionDigests) (s : ControlState) (owner : String) where
  -- The binding that an accepted disposition found, and the state that it entered in the history.
  pub dispose_new-eq-ok :
      (input : SubmissionDispositionInput) (kind : Disposition) (b : SubmissionBinding)
      (t : ControlState)
      → dispose_new p d s owner input kind ≡ ok (b, t)
      → (item : SubmissionBinding) × (next : ControlState) × (binding_of s input.task_id
          ≡ some item)
        × (item.owner ≡ owner)
        × (is_bound item.state ≡ true)
        × (dispose_announcement kind owner item.task_id
              (change_binding item.task_id (λ _. disposed_binding kind item) (submission_state s))
              item.announcement
            ≡ ok next)
        × (b ≡ disposed_binding kind item)
        × (check_capacity p t ≡ ok tt)
        × (t
            ≡ with_event
                (event_kind kind)
                owner
                input.operation_key
                item.task_id
                (d.disposition_hash owner kind input)
                next)
  unfolding dispose_new
  dispose_new-eq-ok input kind b t h = elim (Option-cases (binding_of s input.task_id)) [
    | inl e ↦ absurd (ground (arith, e))
    | inr (item, e) ↦
        let start =
          change_binding item.task_id (λ _. disposed_binding kind item) (submission_state s) in
        let settled = dispose_announcement kind owner item.task_id start item.announcement in
        let enter : ControlState → ControlState =
          with_event (event_kind kind) owner input.operation_key item.task_id
            (d.disposition_hash owner kind input) in
        let k0 : (require (str_eq item.owner owner) coordination_not_found
              >> (require (is_exact input item) coordination_binding_conflict
                  >> (require (is_bound item.state) coordination_binding_settled
                      >> (settled >>= λ next.
                          published p (disposed_binding kind item) (enter next)))))
            ≡ ok (b, t) =
          ground (arith, e) in
        let (is_owner, k1) = require-eq-ok (str_eq item.owner owner) coordination_not_found _ k0 in
        let (_, k2) = require-eq-ok (is_exact input item) coordination_binding_conflict _ k1 in
        let (bound, k3) = require-eq-ok (is_bound item.state) coordination_binding_settled _ k2 in
        let (next, run, k4) = >>=-eq-ok settled _ k3 in
        let (room, answer, same) = published-eq-ok p (disposed_binding kind item) (enter next) k4 in
        (
          item,
          next,
          e,
          eq_of_str_eq _ _ is_owner,
          bound,
          run,
          sym answer,
          subst (λ x. check_capacity p x ≡ ok tt) same room,
          sym same,
        )
  ]

  -- A binding takes a new state, and nothing but announcements changes besides.
  replaced_binding :
      (item after : SubmissionBinding) (next : ControlState)
      → next ≡ record (change_binding item.task_id (λ _. after) (submission_state s)) {
        announcements = next.announcements;
      }
      → (next ≡ record s {
        schema_version = next.schema_version;
        announcements = next.announcements;
        bindings = next.bindings;
      })
        × (next.bindings
            ≡ update_first
                (λ (b : SubmissionBinding). str_eq b.task_id item.task_id)
                (λ _. after)
                s.bindings)
  replaced_binding item after next only =
      subst
        (λ (x : ControlState).
          (x ≡ record s {
            schema_version = x.schema_version;
            announcements = x.announcements;
            bindings = x.bindings;
          })
          × (x.bindings
              ≡ update_first (λ (b : SubmissionBinding). str_eq b.task_id item.task_id) (λ _. after)
                  s.bindings))
        (sym only) (refl, refl)

  dispose_new-Published :
      (input : SubmissionDispositionInput) (kind : Disposition) (b : SubmissionBinding)
      (t : ControlState)
      → Unused s owner input.operation_key
      → dispose_new p d s owner input kind ≡ ok (b, t)
      → Published s t
  dispose_new-Published input kind b t fresh h =
      let (item, next, found, _, bound, run, _, _, same) = dispose_new-eq-ok input kind b t h in
      let (only, bindings) =
        replaced_binding item (disposed_binding kind item) next
          (dispose_announcement-only kind owner item.task_id _ item.announcement next run) in
      subst (Published s) (sym same) (
        event-Published s owner input.operation_key (d.disposition_hash owner kind input)
          (event_kind kind) item.task_id next only
          (BindingEdit.changed item (disposed_binding kind item) item.task_id
            (found_by_own_id s input.task_id found) (λ o k e. still_stands kind item o k bound e)
            bindings)
          fresh)
    where
      still_stands :
          (kind : Disposition) (item : SubmissionBinding) (o k : String)
          → is_bound item.state ≡ true
          → stands_for o k (disposed_binding kind item) ≡ true
          → stands_for o k item ≡ true
      still_stands kind item o k bound e = ground arith

  pub dispose_submission-Served :
      (input : SubmissionDispositionInput) (kind : Disposition) (b : SubmissionBinding)
      (t : ControlState)
      → dispose_submission p d s owner input kind ≡ ok (b, t)
      → Served s t
  unfolding dispose_submission
  dispose_submission-Served input kind b t h =
      keyed-Served s owner input.operation_key (d.disposition_hash owner kind input)
        (event_kind kind) _ _ (λ a u. dispose_new-Published input kind a u) b t h

  terminate_new-Published :
      (input : SubmissionTerminalInput) (b : SubmissionBinding) (t : ControlState)
      → Unused s owner input.disposition.operation_key
      → terminate_new p d s owner input ≡ ok (b, t)
      → Published s t
  unfolding terminate_new
  terminate_new-Published input b t fresh h =
      elim (Option-cases (binding_of s input.disposition.task_id)) [
        | inl e ↦ absurd (ground (arith, e))
        | inr (item, e) ↦
            let after = terminal_binding input.terminal item in
            let next = change_binding item.task_id (λ _. after) (submission_state s) in
            let entered =
              with_event EventKind.terminal owner input.disposition.operation_key item.task_id
                (d.terminal_hash owner input) next in
            let settled : is_settled_binding item.state ≡ true = ground (arith, e) in
            let k : published p after entered ≡ ok (b, t) = ground (arith, e) in
            let (_, _, same) = published-eq-ok p after entered k in
            subst (Published s) same (
              event-Published s owner input.disposition.operation_key (d.terminal_hash owner input)
                EventKind.terminal item.task_id next refl
                (BindingEdit.changed item after item.task_id
                  (found_by_own_id s input.disposition.task_id e)
                  (λ o k e. ended item settled o k e) refl)
                fresh)
      ]
    where
      ended :
          (item : SubmissionBinding)
          → is_settled_binding item.state ≡ true
          → (o k : String) → stands_for o k (terminal_binding input.terminal item) ≡ true
          → stands_for o k item ≡ true
      ended item settled o k e = ground arith

  pub terminal_submission_binding-Served :
      (input : SubmissionTerminalInput) (b : SubmissionBinding) (t : ControlState)
      → terminal_submission_binding p d s owner input ≡ ok (b, t)
      → Served s t
  unfolding terminal_submission_binding
  terminal_submission_binding-Served input b t h =
      keyed-Served s owner input.disposition.operation_key (d.terminal_hash owner input)
        EventKind.terminal _ _ (terminate_new-Published input) b t h
