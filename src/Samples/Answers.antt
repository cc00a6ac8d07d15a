-- ===== src/Samples/Answers.antt =====
-- One question answered, and what later calls find.
use passeur.Base.{none, ok, ◌≡◌, ◌∷◌, true, refl, false, [], List}
use passeur.Inputs.Answer.{record_answer, check_answer, answer_found, Answered}
use passeur.Contracts.Task.{clarification, Phase, PendingInput, TaskControl}
use passeur.Inputs.Broker.{request_input, question, with_intent, intent, Waiter}
use passeur.Samples.{waiting, digests, alice}
use passeur.Control.Commit.{initial_control}
use passeur.Lifecycle.{cancels, asks, next, here, Reach}
use passeur.Lifecycle.Answers.{answer_once}
use passeur.Control.Cancel.{stop, new_receipt, cancel}
use passeur.Control.Cancel.Validity.{first_draft}
use passeur.Contracts.Valid.{relations_hold}
use passeur.Lifecycle.Validity.{relations_hold-Reach}

one_waiter : List Waiter
one_waiter = record { input_id = "i1"; task_id = "task" } ∷ []

answered_task : TaskControl
answered_task = record (with_intent digests 40 "task" "i1" 1 "op" "main" waiting) {
  revision = 5;
  updated_at = 40;
}

first_answer : Answered
first_answer = record { receipt = intent digests 40 "task" "i1" 1 "op" "main"; dispatch = true }

answer_recorded :
    record_answer digests 16 40 one_waiter "task" "i1" alice 1 "claim" "op" "main" waiting
    ≡ ok (first_answer, answered_task)
unfolding record_answer answer_found check_answer one_waiter answered_task first_answer
answer_recorded = refl

-- The same call again.
replay : Answered
replay = record first_answer { dispatch = false }

answer_once_example : replay.dispatch ≡ false
unfolding record_answer answer_found check_answer one_waiter answered_task first_answer replay
answer_once_example =
    answer_once digests 16 "i1" 40 one_waiter "task" alice 1 "claim" "op" "main" waiting
      {a = first_answer} {t = answered_task} {u = answered_task} (λ e. absurd (cc)) answer_recorded
      refl here 41 one_waiter alice 1 "claim" "op" "main" {a' = replay} {v = answered_task} refl

-- A new task that is asked a question, is cancelled, and is then adopted.
fresh_task : TaskControl
fresh_task = initial_control "task" "alice" "run" 1

first_question : PendingInput
first_question = question digests fresh_task (clarification "go?" none false) "n1" "i1"

asked_task : TaskControl
asked_task = record fresh_task {
  inputs = first_question ∷ [];
  phase = Phase.awaiting_input;
  revision = 2;
  updated_at = 2;
}

ended_task : TaskControl
ended_task = record (first_draft digests 16 3 "task" alice 1 "key" "enough" asked_task) {
  revision = 3;
  updated_at = 3;
}

history : Reach digests 16 fresh_task ended_task
unfolding initial_control request_input cancel stop fresh_task first_question asked_task ended_task
history =
    next
      (next here (asks 2 (clarification "go?" none false) "n1" "i1" {q = first_question} refl refl))
      (cancels 3 "task" alice 1 "key" "enough"
        {r = new_receipt digests 16 3 asked_task "task" 1 "key" "enough"} refl)

relations_hold-Reach_example : relations_hold ended_task ≡ true
unfolding fresh_task
relations_hold-Reach_example = relations_hold-Reach digests 16 "task" "alice" "run" 1 history
