-- ===== src/Coordination/Submissions/Announced.antt =====
-- src/coordination/control.ts: announcements and new bindings publish as the contract says.
use passeur.Base.{
  coordination_changed, sym, coordination_invalid, coordination_binding_conflict,
  coordination_announcement_exists, ok, ◌≡◌, ◌∷◌, ◌||◌, ◌++◌, throw_if-eq-ok, subst, some, refl,
  none, is_some, inr, inl, false, contains, arith, ap, any, [], String, Option-cases, Option, List,
  >>=-eq-ok,
}
use passeur.Coordination.Submissions.Decision.{
  submission_decision, announcement_of, SubmissionDigests, SubmissionBindInput,
  AnnouncementWithdrawalInput, AnnouncementInput,
}
use passeur.Coordination.State.Records.{
  SubmissionBinding, EventKind, AnnouncementReference, AnnouncementRecord,
}
use passeur.Coordination.Contract.Publication.{stands_for, Unused, Served, Published, BindingEdit}
use passeur.Coordination.State.Commands.{Platform, ControlState}
use passeur.Coordination.Submissions.Announce.{
  withdrawn_announcement, withdraw_new, withdraw_announcement, with_event, with_announcement,
  submission_state, published, change_announcement, binding_of, announced, announce_new, announce,
}
use passeur.Coordination.Submissions.Bind.{
  decision_differs, with_binding, is_taken, bound_to_task, binding_for, bind_submission, bind_new,
  bind_announcement,
}
use passeur.Coordination.Submissions.Submitted.{published-eq-ok, keyed-Served, event-Published}

module _ (p : Platform) (d : SubmissionDigests) (s : ControlState) (owner : String) where
  announce_new-Published :
      (input : AnnouncementInput) (a : AnnouncementRecord) (t : ControlState)
      → Unused s owner input.operation_key
      → announce_new p d s owner input ≡ ok (a, t)
      → Published s t
  unfolding announce_new
  announce_new-Published input a t fresh h =
      let (_, k) =
        throw_if-eq-ok (is_some (announcement_of s input.id) || is_some (binding_of s input.id))
          coordination_announcement_exists _ h in
      let (_, _, same) = published-eq-ok p (announced owner input) _ k in
      subst (Published s) same (
        event-Published s owner input.operation_key (d.announce_hash owner input) EventKind.announce
          input.id (with_announcement (announced owner input) (submission_state s)) refl
          (BindingEdit.kept refl) fresh)

  pub announce-Served :
      (input : AnnouncementInput) (a : AnnouncementRecord) (t : ControlState)
      → announce p d s owner input ≡ ok (a, t)
      → Served s t
  unfolding announce
  announce-Served input a t h =
      let (_, k) = throw_if-eq-ok (contains owner input.readers) coordination_invalid _ h in
      keyed-Served s owner input.operation_key (d.announce_hash owner input) EventKind.announce _ _
        (announce_new-Published input) a t k

  withdraw_new-Published :
      (input : AnnouncementWithdrawalInput) (a : AnnouncementRecord) (t : ControlState)
      → Unused s owner input.operation_key
      → withdraw_new p d s owner input ≡ ok (a, t)
      → Published s t
  unfolding withdraw_new
  withdraw_new-Published input a t fresh h = elim (Option-cases (announcement_of s input.id)) [
    | inl e ↦ absurd (ground (arith, e))
    | inr (item, e) ↦
        let next =
          change_announcement item.id (λ _. withdrawn_announcement item) (submission_state s) in
        let entered =
          with_event EventKind.withdraw owner input.operation_key item.id
            (d.withdraw_hash owner input) next in
        let k : published p (withdrawn_announcement item) entered ≡ ok (a, t) = ground (arith, e) in
        let (_, _, same) = published-eq-ok p (withdrawn_announcement item) entered k in
        subst (Published s) same (
          event-Published s owner input.operation_key (d.withdraw_hash owner input)
            EventKind.withdraw item.id next refl (BindingEdit.kept refl) fresh)
  ]

  pub withdraw_announcement-Served :
      (input : AnnouncementWithdrawalInput) (a : AnnouncementRecord) (t : ControlState)
      → withdraw_announcement p d s owner input ≡ ok (a, t)
      → Served s t
  unfolding withdraw_announcement
  withdraw_announcement-Served input a t h =
      keyed-Served s owner input.operation_key (d.withdraw_hash owner input) EventKind.withdraw _ _
        (withdraw_new-Published input) a t h

  -- A binding changes announcements only, besides the binding that it adds.
  pub bind_announcement-only :
      (input : SubmissionBindInput) (u : ControlState) (reference : Option AnnouncementReference)
      (t : ControlState)
      → bind_announcement p owner input u reference ≡ ok t
      → t ≡ record u { announcements = t.announcements }
  unfolding bind_announcement
  bind_announcement-only input u none t h =
      let same : u ≡ t = ground arith in
      subst (λ (x : ControlState). x ≡ record u { announcements = x.announcements }) same refl
  bind_announcement-only input u (some reference) t h =
      elim (Option-cases (announcement_of u reference.id)) [
        | inl e ↦ absurd (ground (arith, e))
        | inr (a, e) ↦
            let same : change_announcement reference.id (bound_to_task input.task_id) u ≡ t =
              ground (arith, e) in
            subst (λ (x : ControlState). x ≡ record u { announcements = x.announcements }) same refl
      ]

  not_taken :
      (input : SubmissionBindInput) (bs : List SubmissionBinding)
      → any (is_taken owner input) bs ≡ false
      → any (stands_for owner input.request_key) bs ≡ false
  not_taken input [] h = refl
  not_taken input (b ∷ bs) h = ground (arith, not_taken input bs)

  entered_binding :
      (item : SubmissionBinding) (next : ControlState)
      → next ≡ record (submission_state s) { announcements = next.announcements }
      → with_binding item next ≡ record s {
        schema_version = next.schema_version;
        announcements = next.announcements;
        bindings = next.bindings ++ item ∷ [];
      }
  entered_binding item next only =
      subst
        (λ (x : ControlState). with_binding item x ≡ record s {
          schema_version = x.schema_version;
          announcements = x.announcements;
          bindings = x.bindings ++ item ∷ [];
        })
        (sym only) refl

  bind_new-Published :
      (input : SubmissionBindInput) (b : SubmissionBinding) (t : ControlState)
      → Unused s owner input.operation_key
      → bind_new p d s owner input ≡ ok (b, t)
      → Published s t
  unfolding bind_new
  bind_new-Published input b t fresh h =
      let (free, k) =
        throw_if-eq-ok (any (is_taken owner input) s.bindings) coordination_binding_conflict _ h in
      let (decision, _, k2) = >>=-eq-ok (submission_decision p d s owner input.preflight) _ k in
      let (_, k3) =
        throw_if-eq-ok
          (decision_differs input.expected_decision_identity decision.decision_identity)
          coordination_changed _ k2 in
      let (next, bound, k4) =
        >>=-eq-ok
          (bind_announcement p owner input (submission_state s) input.preflight.announcement) _
          k3 in
      let item = binding_for d owner input decision.decision_identity in
      let (_, _, same) = published-eq-ok p item _ k4 in
      let only =
        bind_announcement-only input (submission_state s) input.preflight.announcement next bound in
      subst (Published s) same (
        event-Published s owner input.operation_key (d.bind_hash owner input) EventKind.bind
          input.task_id (with_binding item next) (entered_binding item next only)
          (BindingEdit.added item (not_taken input s.bindings free)
            (ap (λ (x : ControlState). x.bindings ++ item ∷ []) only))
          fresh)

  pub bind_submission-Served :
      (input : SubmissionBindInput) (b : SubmissionBinding) (t : ControlState)
      → bind_submission p d s owner input ≡ ok (b, t)
      → Served s t
  unfolding bind_submission
  bind_submission-Served input b t h =
      keyed-Served s owner input.operation_key (d.bind_hash owner input) EventKind.bind _ _
        (bind_new-Published input) b t h
