-- ===== src/Lifecycle/Validity.antt =====
-- src/core/task-control.ts and src/core/input-broker.ts: the rules between fields along every history.
use passeur.Base.{◌≡◌, true, refl, String, ℕ}
use passeur.Control.Digests.{Digests}
use passeur.Contracts.Valid.Meaning.{relations_hold_iff, IsValid}
use passeur.Lifecycle.{
  here, next, abandons, settles, withdraws, loses, answers, dismisses, claims, asks, releases,
  adopts, next, cancels, Step, Reach,
}
use passeur.Contracts.Task.{TaskControl}
use passeur.Inputs.Keeps.{
  withdraw-IsValid, settle_turn-IsValid, request_input-IsValid, release_client-IsValid,
  lose_answer-IsValid, dismiss-IsValid, claim-IsValid, abandon_input-IsValid,
}
use passeur.Inputs.Recording.{record_answer-IsValid}
use passeur.Control.Ownership.Laws.{adopt-IsValid}
use passeur.Control.Cancel.Validity.{cancel-IsValid}
use passeur.Control.Commit.{initial_control}
use passeur.Contracts.Valid.{relations_hold}

module _ (d : Digests) (max_receipts : ℕ) where
  -- Every operation that returns stores a record that keeps the rules.
  pub Step-IsValid : {s t : TaskControl} → Step d max_receipts s t → IsValid s → IsValid t
  Step-IsValid {s} (cancels now id actor generation key reason h) v =
      cancel-IsValid d max_receipts now id actor generation key reason s v h
  Step-IsValid {s} (adopts now id actor key h) v =
      adopt-IsValid d max_receipts now id actor key s v h
  Step-IsValid {s} (releases now client h) v = release_client-IsValid d now s client v h
  Step-IsValid {s} (asks now content native_id id fresh h) v =
      request_input-IsValid d now s content native_id id fresh v h
  Step-IsValid {s} (claims now ws id claim_id actor generation h) v =
      claim-IsValid d now s ws id claim_id actor generation v h
  Step-IsValid {s} (dismisses now id actor claim_id h) v =
      dismiss-IsValid d now s id actor claim_id v h
  Step-IsValid {s} (answers now ws task id actor generation claim_id key text named h) v =
      record_answer-IsValid d max_receipts now ws task id actor generation claim_id key text s named
        v h
  Step-IsValid {s} (loses now id live h) v = lose_answer-IsValid d now s id live v h
  Step-IsValid {s} (withdraws now native_id h) v = withdraw-IsValid d now s native_id v h
  Step-IsValid {s} (settles now turn h) v = settle_turn-IsValid d now s turn v h
  Step-IsValid {s} (abandons now id h) v = abandon_input-IsValid d now s id v h

  Reach-IsValid : {s t : TaskControl} → IsValid s → Reach d max_receipts s t → IsValid t
  Reach-IsValid v here = v
  Reach-IsValid v (next r st) = Step-IsValid st (Reach-IsValid v r)

  initial-IsValid :
      (id owner run_id : String) (now : ℕ) → IsValid (initial_control id owner run_id now)
  unfolding initial_control
  initial-IsValid id owner run_id now = record {
    terminal_outcome = refl;
    not_both = refl;
    inputs_distinct = refl;
    receipts_distinct = refl;
    inputs_current = refl;
    deliveries_distinct = refl;
    deliveries_owned = refl;
    none_open = refl;
    inputs_shaped = refl;
    deliveries_shaped = refl;
    slots = tt;
  }

  -- Whatever cancellations, adoptions, releases of clients and operations of the input broker a new
  -- task sees, in whatever order, its record keeps the rules between fields that its schema checks:
  -- phase and outcome agree, identities and keys do not repeat, inputs, claims and answers fit the
  -- run, the revision and the generation, and a task that is terminal has no open input.
  pub relations_hold-Reach :
      (id owner run_id : String) (now : ℕ) {t : TaskControl}
      → Reach d max_receipts (initial_control id owner run_id now) t
      → relations_hold t ≡ true
  relations_hold-Reach id owner run_id now {t} r =
      (relations_hold_iff t).1 (Reach-IsValid (initial-IsValid id owner run_id now) r)
