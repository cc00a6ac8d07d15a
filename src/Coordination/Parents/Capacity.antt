-- ===== src/Coordination/Parents/Capacity.antt =====
-- `releaseSlotsRequired` of src/contracts/coordination-control.ts and `checkCapacity` of
-- src/coordination/control.ts: receipts kept back for what ends a claim or withdraws a disclosure.
use passeur.Coordination.State.Access.{is_active}
use passeur.Coordination.State.Records.{
  Work, SubmissionBinding, Note, Case, BindingState, AnnouncementState, AnnouncementRecord,
}
use passeur.Base.{
  sum_of, coordination_capacity, ◌∷◌, ◌||◌, ◌+◌, ◌*◌, ◌&&◌, ℕ, true, throw_if, not, ltb, length,
  is_some, if◌then◌else◌, false, any, [], String, Result, List, Bool,
}
use passeur.Coordination.State.Commands.{
  control_release_bytes, control_receipt_count, control_max_bytes, Platform, ControlState,
}
use passeur.Coordination.Parents.Notes.{is_agreement}
use passeur.Coordination.Parents.Cases.{is_possible}

abbrev pub count_if : Bool → ℕ
count_if true = 1
count_if false = 0

abbrev pub is_nonempty : List String → Bool
is_nonempty [] = false
is_nonempty (_ ∷ _) = true

abbrev pub work_slots : Work → ℕ
work_slots work = count_if (is_active work.state) + count_if (is_nonempty work.readers)

abbrev pub case_slots : Case → ℕ
case_slots item =
    if is_active item.state then (if is_possible item.external_effect then 2 else 1) else 0

abbrev pub note_slots : Note → ℕ
note_slots note = count_if (not note.withdrawn && is_agreement note.kind)

abbrev pub is_unresolved_announcement : AnnouncementState → Bool
is_unresolved_announcement AnnouncementState.unresolved = true
is_unresolved_announcement _ = false

abbrev pub is_bound_announcement : AnnouncementState → Bool
is_bound_announcement AnnouncementState.bound = true
is_bound_announcement _ = false

abbrev pub announcement_slots : AnnouncementRecord → ℕ
announcement_slots a =
    count_if (is_unresolved_announcement a.state || is_bound_announcement a.state)

abbrev pub is_bound : BindingState → Bool
is_bound BindingState.bound = true
is_bound _ = false

abbrev pub is_settled_binding : BindingState → Bool
is_settled_binding BindingState.settled = true
is_settled_binding _ = false

abbrev pub binding_slots : SubmissionBinding → ℕ
binding_slots b =
    count_if (is_settled_binding b.state || is_bound b.state && not (is_some b.announcement))

unfoldable pub release_slots_required : ControlState → ℕ
release_slots_required state =
    sum_of work_slots state.works
    + sum_of case_slots state.cases
    + sum_of note_slots state.notes
    + sum_of announcement_slots state.announcements
    + sum_of binding_slots state.bindings

abbrev pub is_long : Platform → ControlState → Note → Bool
is_long p state note = ltb state.limits.note_bytes (p.text_bytes note.text)

abbrev pub exceeds : Platform → ControlState → Bool
exceeds p state =
    let reserved = release_slots_required state in
    ltb control_max_bytes (p.state_bytes state + reserved * control_release_bytes)
    || ltb state.limits.works (length state.works)
    || ltb state.limits.cases (length state.cases)
    || ltb state.limits.notes (length state.notes)
    || ltb state.limits.receipts (control_receipt_count state + reserved)
    || any (is_long p state) state.notes

unfoldable pub check_capacity : Platform → ControlState → Result (Unit {0})
check_capacity p state = throw_if (exceeds p state) coordination_capacity
