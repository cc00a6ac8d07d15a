-- ===== src/Coordination/Parents/Notes.antt =====
-- src/coordination/control.ts, `apply`: the commands on notes.
use passeur.Coordination.Parents.Works.{Applied}
use passeur.Base.{
  coordination_already_acknowledged, coordination_forbidden, ok, coordination_note_withdrawn, ◌∷◌,
  ◌>>◌, ◌>>=◌, ◌++◌, ◌&&◌, update_first, true, throw_if, str_eq, some, require, not, none, map,
  is_some, if◌then◌else◌, find, filter, false, contains, [], String, Result, Option, List, Bool,
}
use passeur.Coordination.State.Records.{Work, Subject, NoteKind, Note, Case}
use passeur.Coordination.State.Commands.{Platform, NoteStep, ControlState}
use passeur.Coordination.State.Access.{
  work_of, visible_case, unavailable, require_subject, require_note_access, is_work, case_of,
}

-- The elements in the order of their first occurrence, as `[...new Set(xs)]` has them.
abbrev pub to_set : List String → List String
to_set [] = []
to_set (x ∷ xs) = x ∷ filter (λ y. not (str_eq x y)) (to_set xs)

abbrev pub note_refs : Platform → ControlState → String → Subject → Result (List String)
note_refs p state parent subject =
    if is_work subject.kind
    then ok (subject.id ∷ [])
    else (visible_case p state parent subject.id >>= λ item. ok (map (λ i. i.work_id) item.inputs))

abbrev case_audience : Option Case → Option (List String)
case_audience none = none
case_audience (some item) = if is_some item.observed_origin then some item.members else none

-- `state.works.find(…)!`: the subject's access was checked, so the work is there.
abbrev work_audience : Option Work → Option (List String)
work_audience none = none
work_audience (some work) = some (to_set (work.owner ∷ work.readers))

abbrev pub note_audience : ControlState → Subject → Option (List String)
note_audience state subject =
    if is_work subject.kind
    then work_audience (work_of state subject.id)
    else case_audience (case_of state subject.id)

abbrev pub require_parties : Platform → ControlState → Subject → List String → Result (Unit {0})
require_parties p state subject [] = ok tt
require_parties p state subject (party ∷ parties) =
    require_subject p state party subject >>= λ _. require_parties p state subject parties

unfoldable pub post_note :
    Platform
    → (uuid : String) → Subject
    → NoteKind
    → (text : String) (parties : List String) → ControlState
    → (parent : String) → Result Applied
post_note p uuid subject kind text parties state parent = do
  require_subject p state parent subject
  require_parties p state subject parties
  note_refs p state parent subject >>= λ refs. ok (record {
    state = record state {
      notes =
          state.notes
          ++ record {
            id = uuid;
            subject = subject;
            author = parent;
            kind = kind;
            text = text;
            work_refs = refs;
            parties = parties;
            acknowledged = [];
            withdrawn = false;
            readers = note_audience state subject;
          }
            ∷ [];
    };
    entity = subject;
    item_id = uuid;
  })

abbrev pub is_agreement : NoteKind → Bool
is_agreement NoteKind.agreement_proposal = true
is_agreement _ = false

abbrev pub is_withdrawal : NoteStep → Bool
is_withdrawal NoteStep.withdraw_note = true
is_withdrawal NoteStep.ack_note = false

unfoldable pub step_note :
    Platform → ControlState → (parent : String) → NoteStep → Note → Result Note
step_note p state parent step note =
    if is_withdrawal step && str_eq note.author parent
    then (do
      throw_if note.withdrawn coordination_note_withdrawn
      ok (record note { withdrawn = true }))
    else (do
      require_note_access p state parent note
      throw_if (is_withdrawal step) coordination_forbidden
      throw_if note.withdrawn coordination_note_withdrawn
      require (is_agreement note.kind && contains parent note.parties) coordination_forbidden
      p.peer_consent state note
      throw_if (contains parent note.acknowledged) coordination_already_acknowledged
      ok (record note { acknowledged = note.acknowledged ++ parent ∷ [] }))

abbrev pub note_of : ControlState → String → Option Note
note_of state id = find (λ n. str_eq n.id id) state.notes

abbrev pub replaced_note : ControlState → Note → Note → Applied
replaced_note state note changed = record {
  state = record state {
    notes = update_first (λ n. str_eq n.id note.id) (λ _. changed) state.notes;
  };
  entity = note.subject;
  item_id = note.id;
}

unfoldable pub apply_note :
    Platform → ControlState → (parent id : String) → NoteStep → Result Applied
apply_note p state parent id step = elim (note_of state id) [
  | none ↦ unavailable
  | some note ↦
      step_note p state parent step note >>= λ changed. ok (replaced_note state note changed)
]
