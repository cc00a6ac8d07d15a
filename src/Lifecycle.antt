-- ===== src/Lifecycle.antt =====
-- One task's control record under `cancel`, `adopt`, `releaseClient` and `requestInput` of
-- src/core/task-control.ts and the operations of src/core/input-broker.ts, in any order: a step
-- relation, since sessions and the native runtime call them as they come, and a lock on the task
-- makes each of them one step.
pub mod Validity
pub mod Spent
pub mod Answers
use passeur.Base.{ok, ◌≡◌, str_eq, false, contains, String, List, ℕ}
use passeur.Control.Commit.{Actor}
use passeur.Inputs.Answer.{
  withdraw, settle_turn, record_answer, lose_answer, abandon_input, Answered,
}
use passeur.Contracts.Task.{is_terminal, TaskControl, PendingInput, InputData, ControlReceipt}
use passeur.Control.Digests.{Digests}
use passeur.Inputs.Broker.{request_input, dismiss, claim, Waiter}
use passeur.Control.Ownership.{release_client, adopt}
use passeur.Control.Cancel.{cancel}
use passeur.Contracts.Valid.{input_ids}

-- One call that returned. Ids are drawn at random, so a new input's id is one that the record does
-- not hold; the request schema refuses an empty operation key.
pub data Step (d : Digests) (max_receipts : ℕ) (s t : TaskControl) : Type 0 where
  cancels :
      (now : ℕ) (id : String) (actor : Actor) (generation : ℕ) (key reason : String)
      {r : ControlReceipt}
      → cancel d max_receipts now id actor generation key reason s ≡ ok (r, t)
      → Step d max_receipts s t
  adopts :
      (now : ℕ) (id : String) (actor : Actor) (key : String) {r : ControlReceipt}
      → adopt d max_receipts now id actor key s ≡ ok (r, t)
      → Step d max_receipts s t
  releases :
      (now : ℕ) (client : String)
      → release_client d now client s ≡ ok (tt, t)
      → Step d max_receipts s t
  asks :
      (now : ℕ) (content : InputData) (native_id id : String) {q : PendingInput}
      → contains id (input_ids s.inputs) ≡ false
      → request_input d now content native_id id s ≡ ok (q, t)
      → Step d max_receipts s t
  claims :
      (now : ℕ) (ws : List Waiter) (id claim_id : String) (actor : Actor) (generation : ℕ)
      {q : PendingInput}
      → claim d now ws id claim_id actor generation s ≡ ok (q, t)
      → Step d max_receipts s t
  dismisses :
      (now : ℕ) (id : String) (actor : Actor) (claim_id : String)
      → dismiss d now id actor claim_id s ≡ ok (tt, t)
      → Step d max_receipts s t
  answers :
      (now : ℕ) (ws : List Waiter) (task id : String) (actor : Actor) (generation : ℕ)
      (claim_id key text : String) {a : Answered}
      → str_eq key "" ≡ false
      → record_answer d max_receipts now ws task id actor generation claim_id key text s ≡ ok (a, t)
      → Step d max_receipts s t
  loses :
      (now : ℕ) (id : String)
      → is_terminal s.phase ≡ false
      → lose_answer d now id s ≡ ok (tt, t)
      → Step d max_receipts s t
  withdraws :
      (now : ℕ) (native_id : String) {ids : List String}
      → withdraw d now native_id s ≡ ok (ids, t)
      → Step d max_receipts s t
  settles :
      (now : ℕ) (turn : String) → settle_turn d now turn s ≡ ok (tt, t) → Step d max_receipts s t
  abandons :
      (now : ℕ) (id : String) → abandon_input d now id s ≡ ok (tt, t) → Step d max_receipts s t

pub data Reach (d : Digests) (max_receipts : ℕ) (s : TaskControl) : TaskControl → Type 0 where
  here : Reach d max_receipts s s
  next :
      {t u : TaskControl}
      → Reach d max_receipts s t
      → Step d max_receipts t u
      → Reach d max_receipts s u
