-- ===== src/Coordination/Contract/NoteEdits.antt =====
-- src/coordination/control.ts, `apply`: a command on notes changes notes only, and every command
-- that is accepted is an edit of the contract.
use passeur.Base.{
  sym, subst, refl, Bool, >>-eq-ok, ok, ◌≡◌, ◌>>=◌, inr, inl, arith, String, Option-cases, List,
  >>=-eq-ok,
}
use passeur.Coordination.Parents.Works.{Applied}
use passeur.Coordination.State.Commands.{Request, Platform, NoteStep, ControlState}
use passeur.Coordination.State.Records.{Subject, NoteKind}
use passeur.Coordination.Parents.Notes.{
  require_parties, note_refs, step_note, replaced_note, post_note, note_of, apply_note,
}
use passeur.Coordination.State.Access.{require_subject}
use passeur.Coordination.Contract.Edits.{WorkEdit, CaseEdit, Edited}
use passeur.Coordination.Parents.Apply.{apply}
use passeur.Inputs.Broker.{intent}
use passeur.Coordination.Contract.WorkEdits.{
  register_untasked-edit, apply_work-edit, register_task-edit,
}
use passeur.Coordination.Contract.CaseEdits.{claim_target-edit, apply_case-edit}

module _ (p : Platform) (s : ControlState) (parent : String) where
  pub post_note-only :
      (uuid : String) (subject : Subject) (kind : NoteKind) (text : String) (parties : List String)
      (t : Applied)
      → post_note p uuid subject kind text parties s parent ≡ ok t
      → t.state ≡ record s { notes = t.state.notes }
  unfolding post_note
  post_note-only uuid subject kind text parties t h =
      let (_, k) = >>-eq-ok (require_subject p s parent subject) _ h in
      let (_, k') = >>-eq-ok (require_parties p s subject parties) _ k in
      let (refs, _, k'') = >>=-eq-ok (note_refs p s parent subject) _ k' in ground (arith, k'')

  apply_note-only :
      (id : String) (step : NoteStep) (t : Applied)
      → apply_note p s parent id step ≡ ok t
      → t.state ≡ record s { notes = t.state.notes }
  unfolding apply_note
  apply_note-only id step t h = elim (Option-cases (note_of s id)) [
    | inl e ↦ absurd (ground (arith, e))
    | inr (note, e) ↦
        let h' : (step_note p s parent step note >>= λ changed. ok (replaced_note s note changed))
            ≡ ok t =
          ground (arith, e) in
        let (after, _, k) = >>=-eq-ok (step_note p s parent step note) _ h' in ground (arith, k)
  ]

  works-Edited :
      (t : ControlState)
      → WorkEdit s.works t.works × (t ≡ record s { works = t.works })
      → Edited s t
  works-Edited t (edit, only) =
      subst (Edited s) (sym only) (record { only = refl; works = edit; cases = CaseEdit.kept refl })

  cases-Edited :
      (t : ControlState)
      → CaseEdit s.cases t.cases × (t ≡ record s { cases = t.cases })
      → Edited s t
  cases-Edited t (edit, only) =
      subst (Edited s) (sym only) (record { only = refl; works = WorkEdit.kept refl; cases = edit })

  notes-Edited : (t : ControlState) → t ≡ record s { notes = t.notes } → Edited s t
  notes-Edited t only =
      subst (Edited s) (sym only)
        (record { only = refl; works = WorkEdit.kept refl; cases = CaseEdit.kept refl })

  -- Every command that `apply` accepts, whatever its kind, is an edit of the contract: it changes
  -- works, cases and notes only, at most one work and one case, and each of those within its rules.
  pub apply-Edited :
      (uuid : String) (observed : Bool) (request : Request) (t : Applied)
      → apply p uuid observed s parent request ≡ ok t
      → Edited s t.state
  unfolding apply
  apply-Edited uuid observed (Request.register_task_work workspace oid format intent areas m) t h =
      works-Edited t.state (register_task-edit p s parent workspace oid format intent areas m t h)
  apply-Edited uuid observed (Request.register_work workspace oid format intent areas readers) t h =
      works-Edited t.state
        (register_untasked-edit p s parent uuid workspace oid format intent areas readers t h)
  apply-Edited uuid observed (Request.on_work id revision step) t h =
      works-Edited t.state (apply_work-edit p s parent id revision step t h)
  apply-Edited uuid observed (Request.post_note subject kind text parties) t h =
      notes-Edited t.state (post_note-only uuid subject kind text parties t h)
  apply-Edited uuid observed (Request.on_note id step) t h =
      notes-Edited t.state (apply_note-only id step t h)
  apply-Edited uuid observed (Request.claim_target target members) t h =
      cases-Edited t.state (claim_target-edit p observed s parent uuid target members t h)
  apply-Edited uuid observed (Request.on_case id revision generation step) t h =
      cases-Edited t.state (apply_case-edit p observed s parent id revision generation step t h)
