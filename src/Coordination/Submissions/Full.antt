-- ===== src/Coordination/Submissions/Full.antt =====
-- src/coordination/control.ts, `#disposeSubmission` at full capacity.
use passeur.Coordination.State.Records.{
  EventKind, SubmissionBinding, AnnouncementReference, AnnouncementRecord,
}
use passeur.Base.{
  ◌<◌, suc, length-append, ◌≤◌, ◌≢◌, ◌+◌, sym, sum_of-replace, sum_of, subst, str_eq, ap, ok, ◌≡◌,
  ◌∷◌, update_first, true, some, refl, none, is_some, inr, inl, find, arith, [], String,
  Option-cases, Option, List, Bool-cases, Bool,
}
use passeur.Coordination.State.Commands.{control_receipt_count, Platform, ControlState}
use passeur.Coordination.Submissions.Decision.{
  SubmissionDispositionInput, SubmissionDigests, announcement_of, Disposition,
}
use passeur.Coordination.Submissions.Announce.{
  with_event, change_announcement, submission_state, binding_of,
}
use passeur.Coordination.Submissions.Settle.{
  event_kind, disposed_announcement, dispose_new, disposed_binding, dispose_announcement,
  change_binding,
}
use passeur.Coordination.Parents.Capacity.{
  check_capacity, is_bound_announcement, binding_slots, announcement_slots, release_slots_required,
  is_bound,
}
use passeur.Coordination.Submissions.Disposed.{
  found_by_own_id, dispose_new-eq-ok, dispose_announcement-only,
}
use passeur.Coordination.Guarantees.Room.{capacity-bounds}

update_found :
    (q : AnnouncementRecord → Bool) (f : AnnouncementRecord → AnnouncementRecord)
    (xs : List AnnouncementRecord) (a : AnnouncementRecord)
    → find q xs ≡ some a
    → update_first q f xs ≡ update_first q (λ _. f a) xs
update_found q f [] a h = refl
update_found q f (x ∷ xs) a h = elim (Bool-cases (q x)) [
  | inl e ↦ let same : some x ≡ some a = rw e at h in let here : x ≡ a = cc in rw (e, here) refl
  | inr e ↦ rw (e, update_found q f xs a (rw e at h)) refl
]

-- What a disposition frees: nothing, if it settles or if it gives back an announcement.
abbrev pub frees_nothing : Disposition → Option AnnouncementReference → Bool
frees_nothing Disposition.settle _ = true
frees_nothing Disposition.release reference = is_some reference

lone_slots :
    (kind : Disposition) (item : SubmissionBinding)
    → item.announcement ≡ none
    → is_bound item.state ≡ true
    → frees_nothing kind none ≡ true
    → binding_slots (disposed_binding kind item) ≡ binding_slots item
lone_slots Disposition.settle item e bound less = rw (e, bound) (ground (arith, bound))
lone_slots Disposition.release item e bound less = cc

linked_slots :
    (kind : Disposition) (item : SubmissionBinding) (a : AnnouncementRecord)
    (reference : AnnouncementReference)
    → item.announcement ≡ some reference
    → is_bound item.state ≡ true
    → is_bound_announcement a.state ≡ true
    → binding_slots (disposed_binding kind item) + announcement_slots (disposed_announcement kind a)
      ≡ binding_slots item + announcement_slots a
linked_slots Disposition.settle item a reference e bound held = ground (arith, e, bound, held)
linked_slots Disposition.release item a reference e bound held = ground (arith, e, bound, held)

module _ (kind : Disposition) (owner : String) (s : ControlState) (item : SubmissionBinding)
    (found : binding_of s item.task_id ≡ some item) (bound : is_bound item.state ≡ true) where
  abbrev start : ControlState
  start = change_binding item.task_id (λ _. disposed_binding kind item) (submission_state s)

  disposed_slots :
      (reference : Option AnnouncementReference) (next : ControlState)
      → item.announcement ≡ reference
      → frees_nothing kind reference ≡ true
      → dispose_announcement kind owner item.task_id start reference ≡ ok next
      → release_slots_required next ≡ release_slots_required s
  unfolding dispose_announcement release_slots_required
  disposed_slots none next e less h =
      let same : start ≡ next = ground arith in
      rw (sym same) (
        omega (
          arith,
          sum_of-replace binding_slots (λ (b : SubmissionBinding). str_eq b.task_id item.task_id)
              s.bindings item (disposed_binding kind item) found,
          lone_slots kind item e bound less,
        ))
  disposed_slots (some reference) next e less h =
      elim (Option-cases (announcement_of s reference.id)) [
        | inl missing ↦ absurd (ground (arith, missing))
        | inr (a, held) ↦
            let state : is_bound_announcement a.state ≡ true = ground (arith, held) in
            let same : change_announcement reference.id (disposed_announcement kind) start ≡ next =
              ground (arith, held) in
            let at_a : update_first (λ (x : AnnouncementRecord). str_eq x.id reference.id)
                  (disposed_announcement kind) s.announcements
                ≡ update_first (λ (x : AnnouncementRecord). str_eq x.id reference.id)
                    (λ _. disposed_announcement kind a) s.announcements =
              update_found _ (disposed_announcement kind) s.announcements a held in
            rw (sym same) (
              omega (
                arith,
                sum_of-replace binding_slots
                    (λ (b : SubmissionBinding). str_eq b.task_id item.task_id) s.bindings item
                    (disposed_binding kind item) found,
                sum_of-replace announcement_slots
                    (λ (x : AnnouncementRecord). str_eq x.id reference.id) s.announcements a
                    (disposed_announcement kind a) held,
                ap (sum_of announcement_slots) at_a,
                linked_slots kind item a reference e bound state,
              ))
      ]

event_needs_room :
    (p : Platform) (kind : EventKind) (owner key item hash : String) (next : ControlState)
    → check_capacity p (with_event kind owner key item hash next) ≡ ok tt
    → control_receipt_count next + release_slots_required next < next.limits.receipts
unfolding release_slots_required
event_needs_room p kind owner key item hash next h =
    let (_, _, _, _, room, _) = capacity-bounds p (with_event kind owner key item hash next) h in
    omega (
      arith,
      room,
      length-append next.submission_events (
          record {
            kind = kind;
            owner = owner;
            key = key;
            item_id = item;
            request_hash = hash;
            revision = suc next.revision;
          }
          ∷ []),
    )

-- A bound submission is not owed a place: where the history and the reserve fill the limit, no
-- settlement of it returns, and no release of it if it has an announcement.
pub dispose_new-full :
    (p : Platform) (d : SubmissionDigests) (s : ControlState) (owner : String)
    (input : SubmissionDispositionInput) (kind : Disposition) (item : SubmissionBinding)
    → binding_of s input.task_id ≡ some item
    → frees_nothing kind item.announcement ≡ true
    → s.limits.receipts ≤ control_receipt_count s + release_slots_required s
    → (b : SubmissionBinding) (t : ControlState) → dispose_new p d s owner input kind ≢ ok (b, t)
dispose_new-full p d s owner input kind item found less full b t h =
    let (old, next, held, _, bound, run, _, room, same) =
      dispose_new-eq-ok p d s owner input kind b t h in
    let is_item : old ≡ item = ground (arith, held, found) in
    let own : binding_of s old.task_id ≡ some old = found_by_own_id s input.task_id held in
    let slots =
      disposed_slots kind owner s old own bound old.announcement next refl
        (subst (λ (x : SubmissionBinding). frees_nothing kind x.announcement ≡ true) (sym is_item)
          less)
        run in
    let only = dispose_announcement-only kind owner old.task_id _ old.announcement next run in
    let needs =
      event_needs_room p (event_kind kind) owner input.operation_key old.task_id
        (d.disposition_hash owner kind input) next
        (subst (λ x. check_capacity p x ≡ ok tt) same room) in
    let count_same : control_receipt_count next ≡ control_receipt_count s =
      ap control_receipt_count only in
    let limit_same : next.limits.receipts ≡ s.limits.receipts =
      ap (λ (x : ControlState). x.limits.receipts) only in
    omega (arith, needs, count_same, limit_same, slots, full)
