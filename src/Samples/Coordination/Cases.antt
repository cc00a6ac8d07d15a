-- ===== src/Samples/Coordination/Cases.antt =====
-- The theorems on commands at the sample case.
use passeur.Coordination.State.Records.{CoordinationReceipt, Case}
use passeur.Coordination.State.Commands.{Request, ControlState, Command, CaseStep}
use passeur.Coordination.Histories.History.{
  reached-KeysOnce, reached-IsCounted, Reaches, Operation-Served, Operation, KeysOnce, IsCounted,
}
use passeur.Coordination.Histories.Exclusive.{reached-IsExclusive, IsExclusive}
use passeur.Coordination.Histories.Sound.{reached-IsOrderly, latest_generation-rises, IsOrderly}
use passeur.Coordination.Guarantees.Closing.{execute_command-Owed, Owed}
use passeur.Coordination.Contract.Publication.{Served, Published}
use passeur.Base.{inl, ok, ◌⊎◌, ◌≤◌, ◌≢◌, ◌≡◌, ◌∷◌, ◌++◌, some, refl, none, find, false, arith, []}
use passeur.Coordination.Histories.Fence.{execute_command-fenced, case_of-Succeeds, Succeeds}
use passeur.Coordination.Parents.Execute.{
  record_command, is_of_key, guard_command, execute_command, admit_command,
}
use passeur.Coordination.Parents.Apply.{apply}
use passeur.Coordination.Parents.Cases.{step_case, latest_generation, claim_target, apply_case}
use passeur.Coordination.State.Access.{visible_case, own_case, idle, case_of, can_read_case}
use passeur.Coordination.Parents.Capacity.{release_slots_required, check_capacity}
use passeur.Samples.Coordination.{
  with_bob, transferring, transferred, transfer_receipt, submission_digests, platform, limits,
  empty, controller, claiming, claimed_main, claimed, claim_receipt,
}
use passeur.Coordination.Histories.Again.{execute_command-again}
use passeur.Coordination.Contract.Executed.{execute_command-Published}

claims :
    execute_command platform controller "case" false none [] empty "alice" claiming
    ≡ ok (claim_receipt, claimed)
unfolding execute_command guard_command admit_command record_command apply claim_target
    check_capacity release_slots_required
claims = refl

transfers :
    execute_command platform controller "" false none [] claimed "alice" transferring
    ≡ ok (transfer_receipt, transferred)
unfolding execute_command guard_command admit_command record_command apply apply_case own_case
    step_case idle visible_case can_read_case check_capacity release_slots_required
transfers = refl

claim_operation : Operation platform submission_digests empty claimed
claim_operation =
    Operation.executed controller "case" false none [] "alice" claiming claim_receipt claims

transfer_operation : Operation platform submission_digests claimed transferred
transfer_operation =
    Operation.executed controller "" false none [] "alice" transferring transfer_receipt transfers

from_claimed : Reaches platform submission_digests claimed transferred
from_claimed = Reaches.then Reaches.start transfer_operation

from_empty : Reaches platform submission_digests empty transferred
from_empty = Reaches.then (Reaches.then Reaches.start claim_operation) transfer_operation

Operation-Served_example : Served claimed transferred
Operation-Served_example = Operation-Served platform submission_digests transfer_operation

reached-IsCounted_example : IsCounted transferred
reached-IsCounted_example =
    reached-IsCounted platform submission_digests "repository" "epoch" limits from_empty

reached-KeysOnce_example : KeysOnce transferred
reached-KeysOnce_example =
    reached-KeysOnce platform submission_digests "repository" "epoch" limits from_empty

reached-IsExclusive_example : IsExclusive transferred
reached-IsExclusive_example =
    reached-IsExclusive platform submission_digests "repository" "epoch" limits from_empty

reached-IsOrderly_example : IsOrderly transferred
reached-IsOrderly_example =
    reached-IsOrderly platform submission_digests "repository" "epoch" limits from_empty

latest_generation-rises_example :
    latest_generation "refs/heads/main" claimed.cases
    ≤ latest_generation "refs/heads/main" transferred.cases
latest_generation-rises_example =
    latest_generation-rises platform submission_digests "refs/heads/main" from_claimed

case_of-Succeeds_example :
    (b : Case) × (case_of transferred "case" ≡ some b) × Succeeds claimed_main b
case_of-Succeeds_example =
    case_of-Succeeds platform submission_digests "case" claimed_main {s = claimed} refl from_claimed

-- Bob leads the case, and Alice sends a new request with the generation that she had.
abbrev late : Command
late = record { operation_key = "k3"; request = Request.on_case "case" 2 1 CaseStep.release_case }

execute_command-fenced_example :
    execute_command platform controller "late" false none [] transferred "alice" late
    ≢ ok (claim_receipt, transferred)
execute_command-fenced_example =
    execute_command-fenced platform submission_digests "case" claimed_main with_bob {s = claimed}
      refl from_claimed refl (λ e. absurd (cc)) controller "late" false none [] "alice" late 2 1
      CaseStep.release_case refl refl (inl refl) claim_receipt transferred

execute_command-Published_example :
    (find (is_of_key "alice" "k2") claimed.receipts ≡ some transfer_receipt)
      × (transfer_receipt.request_hash ≡ "alicek2")
      × (transferred ≡ claimed)
    ⊎ Published claimed transferred
      × (transfer_receipt.owner ≡ "alice")
      × (transfer_receipt.key ≡ "k2")
      × (transfer_receipt.request_hash ≡ "alicek2")
      × (transfer_receipt.revision ≡ transferred.revision)
      × (transferred.receipts ≡ claimed.receipts ++ transfer_receipt ∷ [])
execute_command-Published_example =
    execute_command-Published platform controller "" false none [] claimed "alice" transferring
      transfer_receipt transferred transfers

guarded : guard_command platform controller none transferred claiming.request ≡ ok tt
unfolding guard_command
guarded = refl

execute_command-again_example :
    execute_command platform controller "other" false none [] transferred "alice" claiming
    ≡ ok (claim_receipt, transferred)
execute_command-again_example =
    execute_command-again platform submission_digests controller "case" false none [] empty "alice"
      claiming claim_receipt claimed claims from_claimed controller "other" false none [] guarded

abbrev releasing : Command
releasing = record {
  operation_key = "k3";
  request = Request.on_case "case" 2 2 CaseStep.release_case;
}

owed : Owed platform transferred "bob" releasing.request
unfolding own_case
owed = Owed.release "case" 2 2 with_bob refl refl

may_release : guard_command platform controller none transferred releasing.request ≡ ok tt
unfolding guard_command
may_release = refl

admits_release :
    admit_command platform controller none [] transferred "bob" releasing.request ≡ ok tt
unfolding admit_command
admits_release = refl

has_room : check_capacity platform transferred ≡ ok tt
unfolding check_capacity release_slots_required
has_room = refl

execute_command-Owed_example :
    (r : CoordinationReceipt) × (t : ControlState) × (execute_command platform controller "" false
        none [] transferred "bob" releasing
      ≡ ok (r, t))
    × (r.key ≡ "k3")
    × (check_capacity platform t ≡ ok tt)
execute_command-Owed_example =
    execute_command-Owed platform transferred "bob" "" false controller none [] releasing owed
      may_release admits_release (refl, refl, refl) has_room (λ applied e. omega arith)
