-- ===== src/Coordination/Parents/Apply.antt =====
-- `apply` of src/coordination/control.ts. The state is a copy of the stored one: what a command that
-- throws has changed is dropped with it.
use passeur.Coordination.Parents.Works.{register_untasked, register_task, apply_work, Applied}
use passeur.Base.{String, Result, Bool}
use passeur.Coordination.State.Commands.{Request, Platform, ControlState}
use passeur.Coordination.Parents.Cases.{claim_target, apply_case}
use passeur.Coordination.Parents.Notes.{post_note, apply_note}
use passeur.Inputs.Broker.{intent}

unfoldable pub apply :
    Platform
    → (uuid : String) (observed : Bool) → ControlState
    → (parent : String) → Request
    → Result Applied
apply p uuid observed state parent
      (Request.register_task_work workspace oid format intent areas m) =
    register_task workspace oid format intent areas m state parent
apply p uuid observed state parent
      (Request.register_work workspace oid format intent areas readers) =
    register_untasked uuid workspace oid format intent areas readers state parent
apply p uuid observed state parent (Request.on_work id revision step) =
    apply_work p state parent id revision step
apply p uuid observed state parent (Request.post_note subject kind text parties) =
    post_note p uuid subject kind text parties state parent
apply p uuid observed state parent (Request.on_note id step) = apply_note p state parent id step
apply p uuid observed state parent (Request.claim_target target members) =
    claim_target uuid target members observed state parent
apply p uuid observed state parent (Request.on_case id revision generation step) =
    apply_case p observed state parent id revision generation step
