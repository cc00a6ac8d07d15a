-- ===== src/Coordination/Submissions/Release.antt =====
-- src/coordination/control.ts: a release after a binding gives the announcement back.
use passeur.Coordination.State.Records.{
  AnnouncementState, AnnouncementReference, AnnouncementRecord,
}
use passeur.Base.{
  ok, ◌≡◌, ◌∷◌, ◌∙◌, update_first, sym, suc, str_eq, some, refl, none, inr, inl, arith, ap, [],
  String, Option-cases, List, Bool-cases, Bool,
}
use passeur.Coordination.State.Commands.{Platform, ControlState}
use passeur.Coordination.Submissions.Decision.{announcement_of, SubmissionBindInput, Disposition}
use passeur.Coordination.Submissions.Bind.{bound_to_task, bind_announcement}
use passeur.Coordination.Submissions.Announce.{change_announcement}
use passeur.Coordination.Submissions.Settle.{disposed_announcement, dispose_announcement}

replaced_twice :
    (q : AnnouncementRecord → Bool) (f g : AnnouncementRecord → AnnouncementRecord)
    (xs : List AnnouncementRecord)
    → ((a : AnnouncementRecord) → q (f a) ≡ q a)
    → update_first q g (update_first q f xs) ≡ update_first q (λ a. g (f a)) xs
replaced_twice q f g [] same = refl
replaced_twice q f g (x ∷ xs) same = elim (Bool-cases (q x)) [
  | inl e ↦ rw (e, same x, e) refl
  | inr e ↦ rw (e, e, replaced_twice q f g xs same) refl
]

-- The announcement two revisions later, unresolved and with no task.
abbrev pub given_back : AnnouncementRecord → AnnouncementRecord
given_back a = record a {
  revision = suc (suc a.revision);
  state = AnnouncementState.unresolved;
  task_id = none;
}

-- Binding an announcement to a task and then releasing the binding leaves every announcement as it
-- was, but for the revision of that one, which counts both.
pub dispose_announcement-bound :
    (p : Platform) (owner : String) (input : SubmissionBindInput) (s t u : ControlState)
    (reference : AnnouncementReference)
    → bind_announcement p owner input s (some reference) ≡ ok t
    → dispose_announcement Disposition.release owner input.task_id t (some reference) ≡ ok u
    → u ≡ change_announcement reference.id given_back s
unfolding bind_announcement dispose_announcement
dispose_announcement-bound p owner input s t u reference bound released =
    elim (Option-cases (announcement_of s reference.id)) [
      | inl e ↦ absurd (ground (arith, e))
      | inr (a, e) ↦ elim (Option-cases (announcement_of t reference.id)) [
        | inl e' ↦ absurd (ground (arith, e'))
        | inr (b, e') ↦
            let at_t : change_announcement reference.id (bound_to_task input.task_id) s ≡ t =
              ground (arith, e) in
            let at_u : change_announcement reference.id (disposed_announcement Disposition.release)
                  t
                ≡ u =
              ground (arith, e') in
            sym at_u
            ∙ ap (change_announcement reference.id (disposed_announcement Disposition.release))
                (sym at_t)
            ∙ ap (λ (xs : List AnnouncementRecord). record s { announcements = xs })
                (replaced_twice (λ (x : AnnouncementRecord). str_eq x.id reference.id)
                  (bound_to_task input.task_id) (disposed_announcement Disposition.release)
                  s.announcements (λ _. refl))
      ]
    ]
