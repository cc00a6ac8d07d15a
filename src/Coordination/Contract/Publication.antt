-- ===== src/Coordination/Contract/Publication.antt =====
-- What one publication of the coordination store adds: `assertControlTransition` of
-- src/contracts/coordination-control.ts, as a contract between the state before and the one after.
use passeur.Base.{
  ◌⊎◌, ◌≡◌, ◌∷◌, ◌++◌, ◌&&◌, update_first, true, suc, str_eq, some, not, find, false, any, [],
  String, List, Bool,
}
use passeur.Coordination.Contract.Edits.{WorkEdit, CaseEdit}
use passeur.Coordination.State.Commands.{RecoveryReceipt, ControlState}
use passeur.Coordination.State.Records.{SubmissionEvent, SubmissionBinding, CoordinationReceipt}
use passeur.Coordination.Parents.Execute.{is_recovery_key, is_of_key, is_event_key}
use passeur.Coordination.Submissions.Bind.{is_released_binding}

-- Whether a binding stands for this request of this owner.
abbrev pub stands_for : String → String → SubmissionBinding → Bool
stands_for owner key b =
    str_eq b.owner owner && str_eq b.request_key key && not (is_released_binding b.state)

pub data BindingEdit (before after : List SubmissionBinding) : Type 0 where
  kept : after ≡ before → BindingEdit before after
  added :
      (b : SubmissionBinding)
      → any (stands_for b.owner b.request_key) before ≡ false
      → after ≡ before ++ b ∷ []
      → BindingEdit before after
  changed :
      (item next : SubmissionBinding) (id : String)
      → find (λ b. str_eq b.task_id id) before ≡ some item
      → ((owner key : String) → stands_for owner key next ≡ true → stands_for owner key item ≡ true)
      → after ≡ update_first (λ b. str_eq b.task_id id) (λ _. next) before
      → BindingEdit before after

-- No retained entry of any kind has this key of this parent.
abbrev pub Unused : ControlState → String → String → Type 0
Unused s owner key =
    (any (is_of_key owner key) s.receipts ≡ false)
    × (any (is_recovery_key owner key) s.recoveries ≡ false)
    × (any (is_event_key owner key) s.submission_events ≡ false)

-- One entry is added to the history, under a key that was not used.
pub data Logged (s t : ControlState) : Type 0 where
  receipt :
      (r : CoordinationReceipt)
      → Unused s r.owner r.key
      → t.receipts ≡ s.receipts ++ r ∷ []
      → t.recoveries ≡ s.recoveries
      → t.submission_events ≡ s.submission_events
      → Logged s t
  recovery :
      (r : RecoveryReceipt)
      → Unused s r.operator r.command.operation_key
      → t.receipts ≡ s.receipts
      → t.recoveries ≡ s.recoveries ++ r ∷ []
      → t.submission_events ≡ s.submission_events
      → Logged s t
  event :
      (e : SubmissionEvent)
      → Unused s e.owner e.key
      → t.receipts ≡ s.receipts
      → t.recoveries ≡ s.recoveries
      → t.submission_events ≡ s.submission_events ++ e ∷ []
      → Logged s t

pub record Published (s t : ControlState) : Type 0 where
  pub revision : t.revision ≡ suc s.revision
  pub log : Logged s t
  pub works : WorkEdit s.works t.works
  pub cases : CaseEdit s.cases t.cases
  pub bindings : BindingEdit s.bindings t.bindings

-- An operation that returns has repeated an old answer, or published once.
abbrev pub Served : ControlState → ControlState → Type 0
Served s t = (t ≡ s) ⊎ Published s t
