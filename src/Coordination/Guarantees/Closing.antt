-- ===== src/Coordination/Guarantees/Closing.antt =====
-- src/coordination/control.ts: what ends a claim, or withdraws an agreement, always has the room for
-- its receipt.
use passeur.Coordination.Parents.Works.{
  without_sources, step_work, replaced_work, next_work, change_work, apply_work, Applied,
}
use passeur.Base.{
  none, length-append, find-none-of_any, find-pass, eq_of_str_eq, eq_iff, Option, ok, ◌≡◌, ◌∷◌, ℕ,
  update_first, true, sym, sum_of-replace, suc, subst, str_eq, some, refl, length-update_first,
  length, inr, inl, find, false, arith, any, [], String, List, Bool-cases, Bool,
}
use passeur.Coordination.State.Records.{
  ExternalEffect, CoordinationReceipt, Work, Note, Lifetime, Case,
}
use passeur.Coordination.State.Commands.{
  Command, control_receipt_count, WorkStep, Request, Platform, NoteStep, ControlState, CaseStep,
}
use passeur.Coordination.Parents.Apply.{apply}
use passeur.Coordination.Parents.Cases.{
  replaced_case, next_case, step_case, change_case, apply_case,
}
use passeur.Coordination.Parents.Notes.{step_note, replaced_note, note_of, is_agreement, apply_note}
use passeur.Coordination.State.Access.{
  is_active, work_of, own_work, own_case, is_not_started, idle, case_of,
}
use passeur.Coordination.Parents.Capacity.{
  check_capacity, work_slots, release_slots_required, note_slots, is_long, case_slots,
}
use passeur.Coordination.Contract.WorkEdits.{work_of-id, own_work-eq-ok}
use passeur.Coordination.Parents.Execute.{
  is_of_key, with_schema, with_receipt, schema_after, record_command, receipt_of, guard_command,
  execute_command, admit_command, ResourceVersion, Controller, ConsentGuard,
}
use passeur.Coordination.Guarantees.Room.{release-fits, FitsRelease}
use passeur.Coordination.Contract.Publication.{Unused}
use passeur.Completion.Finality.{admitted}
use passeur.Coordination.Contract.CaseEdits.{own_case-eq-ok, case_of-id}

-- The commands that the reserve of `releaseSlotsRequired` is kept for.
pub data Owed (p : Platform) (s : ControlState) (owner : String) : Request → Type 0 where
  closing :
      (id : String) (revision : ℕ) (work : Work)
      → own_work p s owner id revision ≡ ok work
      → is_active work.state ≡ true
      → Owed p s owner (Request.on_work id revision WorkStep.close_work)
  settlement :
      (id : String) (revision generation : ℕ) (item : Case)
      → own_case s owner id revision generation ≡ ok item
      → is_not_started item.external_effect ≡ false
      → Owed p s owner (Request.on_case id revision generation CaseStep.record_external_settlement)
  release :
      (id : String) (revision generation : ℕ) (item : Case)
      → own_case s owner id revision generation ≡ ok item
      → is_not_started item.external_effect ≡ true
      → Owed p s owner (Request.on_case id revision generation CaseStep.release_case)
  withdrawal :
      (id : String) (note : Note)
      → note_of s id ≡ some note
      → note.author ≡ owner
      → is_agreement note.kind ≡ true
      → note.withdrawn ≡ false
      → Owed p s owner (Request.on_note id NoteStep.withdraw_note)

-- The change gives back a place, and takes none of another limit.
pub record GivesBack (p : Platform) (s t : ControlState) : Type 0 where
  pub limits : t.limits ≡ s.limits
  pub works : length t.works ≡ length s.works
  pub cases : length t.cases ≡ length s.cases
  pub notes : length t.notes ≡ length s.notes
  pub long : any (is_long p t) t.notes ≡ any (is_long p s) s.notes
  pub count : control_receipt_count t ≡ control_receipt_count s
  pub slots : suc (release_slots_required t) ≡ release_slots_required s

module _ (p : Platform) (s : ControlState) where
  work-GivesBack :
      (work next : Work)
      → work_of s work.id ≡ some work
      → work_slots work ≡ suc (work_slots next)
      → GivesBack p s (change_work work.id (λ _. next) s)
  unfolding release_slots_required
  work-GivesBack work next found fewer = record {
    limits = refl;
    works = length-update_first _ _ s.works;
    cases = refl;
    notes = refl;
    long = refl;
    count = refl;
    slots = omega (
      arith,
      sum_of-replace work_slots (λ (w : Work). str_eq w.id work.id) s.works work next found,
      fewer,
    );
  }

  case-GivesBack :
      (item next : Case)
      → case_of s item.id ≡ some item
      → case_slots item ≡ suc (case_slots next)
      → GivesBack p s (change_case item.id (λ _. next) s)
  unfolding release_slots_required
  case-GivesBack item next found fewer = record {
    limits = refl;
    works = refl;
    cases = length-update_first _ _ s.cases;
    notes = refl;
    long = refl;
    count = refl;
    slots = omega (
      arith,
      sum_of-replace case_slots (λ (c : Case). str_eq c.id item.id) s.cases item next found,
      fewer,
    );
  }

  long-replace :
      (q : Note → Bool) (ns : List Note) (note next : Note)
      → find q ns ≡ some note
      → next.text ≡ note.text
      → any (is_long p s) (update_first q (λ _. next) ns) ≡ any (is_long p s) ns
  long-replace q [] note next found same = refl
  long-replace q (n ∷ ns) note next found same = elim (Bool-cases (q n)) [
    | inl e ↦
        let here : some n ≡ some note = rw e at found in
        let is_note : n ≡ note = cc in rw (e, is_note, same) refl
    | inr e ↦ rw (e, long-replace q ns note next (rw e at found) same) refl
  ]

  note-GivesBack :
      (note next : Note)
      → note_of s note.id ≡ some note
      → next.text ≡ note.text
      → note_slots note ≡ suc (note_slots next)
      → GivesBack p s (replaced_note s note next).state
  unfolding release_slots_required
  note-GivesBack note next found same fewer = record {
    limits = refl;
    works = refl;
    cases = refl;
    notes = length-update_first _ _ s.notes;
    long = long-replace _ s.notes note next found same;
    count = refl;
    slots = omega (
      arith,
      sum_of-replace note_slots (λ (n : Note). str_eq n.id note.id) s.notes note next found,
      fewer,
    );
  }

  module _ (owner : String) (uuid : String) (observed : Bool) where
    Owed-applies :
        {request : Request}
        → Owed p s owner request
        → (applied : Applied) × (apply p uuid observed s owner request ≡ ok applied)
          × GivesBack p s applied.state
    unfolding apply apply_work step_work apply_case step_case idle apply_note step_note
    Owed-applies (Owed.closing id revision work owned a) =
        let (found, _, _) = own_work-eq-ok p s owner id revision owned in
        let next = next_work (record (without_sources work) { state = Lifetime.closed }) in
        (
          replaced_work s work (record (without_sources work) { state = Lifetime.closed }),
          ground (arith, owned, a),
          work-GivesBack work next
              (subst (λ k. work_of s k ≡ some work) (sym (work_of-id s id found)) found)
              (ground (arith, a)),
        )
    Owed-applies (Owed.settlement id revision generation item owned e) =
        let (found, _, _, _, a, _) = own_case-eq-ok s owner id revision generation owned in
        let quiet = record item { external_effect = ExternalEffect.not_started } in
        (
          replaced_case s item quiet,
          ground (arith, owned, e),
          case-GivesBack item (next_case quiet)
              (subst (λ k. case_of s k ≡ some item) (sym (case_of-id s id found)) found)
              (ground (arith, a, e)),
        )
    Owed-applies (Owed.release id revision generation item owned e) =
        let (found, _, _, _, a, _) = own_case-eq-ok s owner id revision generation owned in
        let shut = record item { state = Lifetime.closed } in
        (
          replaced_case s item shut,
          ground (arith, owned, e),
          case-GivesBack item (next_case shut)
              (subst (λ k. case_of s k ≡ some item) (sym (case_of-id s id found)) found)
              (ground (arith, a, e)),
        )
    Owed-applies (Owed.withdrawal id note found author agreement standing) =
        let gone = record note { withdrawn = true } in
        let own_id : note.id ≡ id =
          eq_of_str_eq _ _ (find-pass (λ (n : Note). str_eq n.id id) s.notes note found) in
        (
          replaced_note s note gone,
          ground (arith, found, eq_iff note.author owner, author, standing),
          note-GivesBack note gone (subst (λ k. note_of s k ≡ some note) (sym own_id) found) refl
              (ground (arith, agreement, standing)),
        )

    -- Where the change of the schema is none, as for what is owed.
    same_schema :
        {request : Request}
        → Owed p s owner request
        → with_schema (schema_after observed request s.schema_version) s ≡ s
    same_schema (Owed.closing id revision work owned a) = refl
    same_schema (Owed.settlement id revision generation item owned e) = refl
    same_schema (Owed.release id revision generation item owned e) = refl
    same_schema (Owed.withdrawal id note found author agreement standing) = refl

    with_receipt-fits :
        (r : CoordinationReceipt) (u : ControlState)
        → GivesBack p s u
        → check_capacity p s ≡ ok tt
        → FitsRelease p s (with_receipt r u)
        → check_capacity p (with_receipt r u) ≡ ok tt
    unfolding release_slots_required
    with_receipt-fits r u less room fits =
        release-fits p s (with_receipt r u) less.limits less.works less.cases less.notes less.long
          (omega (arith, length-append u.receipts (r ∷ []), less.count)) less.slots fits room

    record_command-runs :
        (command : Command) (applied : Applied)
        → with_schema (schema_after observed command.request s.schema_version) s ≡ s
        → apply p uuid observed s owner command.request ≡ ok applied
        → check_capacity p (with_receipt (receipt_of p owner command s applied) applied.state)
          ≡ ok tt
        → record_command p uuid observed s owner command
          ≡ ok (
            receipt_of p owner command s applied,
            with_receipt (receipt_of p owner command s applied) applied.state,
          )
    unfolding record_command
    record_command-runs command applied schema run fine =
        let at_schema : apply p uuid observed
              (with_schema (schema_after observed command.request s.schema_version) s) owner
              command.request
            ≡ ok applied =
          subst (λ x. apply p uuid observed x owner command.request ≡ ok applied) (sym schema)
            run in
        ground (arith, at_schema, fine)

    execute_command-runs :
        (c : Controller) (guard : Option ConsentGuard) (versions : List ResourceVersion)
        (command : Command) (r : CoordinationReceipt) (t : ControlState)
        → guard_command p c guard s command.request ≡ ok tt
        → admit_command p c guard versions s owner command.request ≡ ok tt
        → Unused s owner command.operation_key
        → record_command p uuid observed s owner command ≡ ok (r, t)
        → execute_command p c uuid observed guard versions s owner command ≡ ok (r, t)
    unfolding execute_command
    execute_command-runs c guard versions command r t guarded admitted
          (receipts, recoveries, events) run =
        let fresh : find (is_of_key owner command.operation_key) s.receipts ≡ none =
          find-none-of_any _ s.receipts receipts in
        ground (arith, guarded, admitted, recoveries, events, fresh, run)

    -- A state that was within its capacity has room for every command that ends a claim of its
    -- sender or withdraws the sender's agreement: given a key that is not used, and the other guards
    -- of the command met, the command returns its receipt.
    pub execute_command-Owed :
        (c : Controller) (guard : Option ConsentGuard) (versions : List ResourceVersion)
        (command : Command)
        → Owed p s owner command.request
        → guard_command p c guard s command.request ≡ ok tt
        → admit_command p c guard versions s owner command.request ≡ ok tt
        → Unused s owner command.operation_key
        → check_capacity p s ≡ ok tt
        → ((applied : Applied)
            → apply p uuid observed s owner command.request ≡ ok applied
            → FitsRelease p s (with_receipt (receipt_of p owner command s applied) applied.state))
        → (r : CoordinationReceipt) × (t : ControlState) × (execute_command p c uuid observed guard
              versions s owner command
            ≡ ok (r, t))
          × (r.key ≡ command.operation_key)
          × (check_capacity p t ≡ ok tt)
    execute_command-Owed c guard versions command owed guarded admitted unused room fits =
        let (applied, run, less) = Owed-applies owed in
        let r = receipt_of p owner command s applied in
        let t = with_receipt r applied.state in
        let fine : check_capacity p t ≡ ok tt =
          with_receipt-fits r applied.state less room (fits applied run) in
        (
          r,
          t,
          execute_command-runs c guard versions command r t guarded admitted unused
              (record_command-runs command applied (same_schema owed) run fine),
          refl,
          fine,
        )
