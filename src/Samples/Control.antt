-- ===== src/Samples/Control.antt =====
-- Cancellation, adoption, answers and completion at the sample records.
use passeur.Base.{
  task_control_conflict, err, Option, Bool, ◌⊎◌, ◌∷◌, true, none, is_some, false, any, [], some,
  find, ok, ◌≡◌, refl,
}
use passeur.Contracts.Task.{Phase, ReceiptOutcome, TaskControl, ControlReceipt}
use passeur.Control.Commit.Laws.{NoCollision}
use passeur.Samples.{queued_delivery, native_live, bob, asked_once, waiting, digests, alice}
use passeur.Control.Cancel.Laws.{cancel_immutable, cancel_retry}
use passeur.Control.Cancel.Stops.{IsStopped, cancel_stops, preflight-cancel}
use passeur.Control.Cancel.Validity.{first_draft}
use passeur.Control.Cancel.{preflight_cancel, cancel_draft, cancel, stop, new_receipt}
use passeur.Control.Commit.{owns, has_key}
use passeur.Control.Ownership.{adoption, adopt}
use passeur.Control.Ownership.Laws.{adopt_fences}
use passeur.Inputs.Broker.{claim}
use passeur.Inputs.Answer.{record_answer}

abbrev stopped_draft : TaskControl
stopped_draft = first_draft digests 16 10 "task" alice 1 "key" "enough" waiting

abbrev stopped_task : TaskControl
stopped_task = record stopped_draft { revision = 5; updated_at = 10 }

abbrev first_receipt : ControlReceipt
first_receipt = new_receipt digests 16 10 waiting "task" 1 "key" "enough"

stops :
    cancel digests 16 10 "task" alice 1 "key" "enough" waiting ≡ ok (first_receipt, stopped_task)
unfolding cancel stop
stops = refl

stop_apart : NoCollision digests waiting stopped_draft
unfolding stop
stop_apart e = absurd (cc)

cancel_retry_example :
    cancel digests 16 11 "task" alice 1 "key" "enough" stopped_task
    ≡ ok (first_receipt, stopped_task)
cancel_retry_example =
    cancel_retry digests 16 "task" alice 1 "key" "enough" 10 11 waiting stop_apart stops

cancel_stops_example :
    IsStopped digests 16 "task" alice 1 "key" "enough" 10 stopped_task
    × (first_receipt.outcome ≡ ReceiptOutcome.accepted)
    × (find (has_key "key") stopped_task.receipts ≡ some first_receipt)
cancel_stops_example =
    cancel_stops digests 16 "task" alice 1 "key" "enough" 10 waiting refl refl refl stop_apart stops

cancel_immutable_example : stopped_task ≡ stopped_task
unfolding stop cancel
cancel_immutable_example =
    cancel_immutable digests 16 "task" alice 1 "other" "again" 12 stopped_task
      (record { reason = "enough"; issued_at = 10; operation_key = "key" }) {r = first_receipt} refl
      again
  where
    again :
        cancel digests 16 12 "task" alice 1 "other" "again" stopped_task
        ≡ ok (first_receipt, stopped_task)
    again = refl

preflight-cancel_example :
    (r : ControlReceipt) × (t : TaskControl) × (cancel_draft digests 16 10 "task" alice 1 "key"
        "enough" waiting
      ≡ ok (r, t))
    × ((◌≡◌ {A = Option ControlReceipt} none (some r)) × (◌≡◌ {A = Bool} true false) × (t ≡ waiting)
        ⊎ (◌≡◌ {A = Option ControlReceipt} none none)
          × (waiting.cancellation ≡ none)
          × (◌≡◌ {A = Bool} true (is_some t.cancellation))
          × (r.outcome ≡ ReceiptOutcome.accepted))
unfolding preflight_cancel
preflight-cancel_example =
    preflight-cancel digests 16 "task" alice 1 "key" "enough" 10 waiting
      {p = record { transition = true; receipt = none }} refl

adopted_task : TaskControl
adopted_task = record {
  task_id = "task";
  revision = 5;
  owner_id = "bob";
  control_generation = 2;
  phase = Phase.awaiting_input;
  outcome = none;
  updated_at = 20;
  native = native_live;
  inputs = record asked_once { claim = none } ∷ [];
  receipts = adoption digests 20 waiting "task" "bob" "attach-1" ∷ [];
  peer_deliveries = queued_delivery ∷ [];
  cancellation = none;
  settled_outcome = none;
  attention = none;
  telemetry_omitted = false;
  peer_delivery_reservations = none;
}

-- Bob has the task, and Alice goes on with the generation that she had.
adopt_fences_example :
    (adopted_task.owner_id ≡ "bob")
    × (any (λ i. is_some i.claim) adopted_task.inputs ≡ false)
    × (owns adopted_task "bob" (some 2) ≡ ok tt)
    × (claim digests 21 [] "input" "claim" alice 1 adopted_task ≡ err task_control_conflict)
    × (record_answer digests 16 21 [] "task" "input" alice 1 "claim" "new" "yes" adopted_task
        ≡ err task_control_conflict)
    × (cancel digests 16 21 "task" alice 1 "new" "yes" adopted_task ≡ err task_control_conflict)
    × (preflight_cancel digests 16 "task" alice 1 "new" "yes" adopted_task
        ≡ err task_control_conflict)
unfolding adopt adopted_task
adopt_fences_example =
    adopt_fences digests 16 20 "task" bob "attach-1" waiting
      {r = adoption digests 20 waiting "task" "bob" "attach-1"} {t = adopted_task} refl
      (λ e. absurd (cc)) refl 21 [] alice "input" "claim" "new" "yes" refl
