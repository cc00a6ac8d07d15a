-- ===== src/Control/Ownership.antt =====
-- `TaskControls.adopt` and `TaskControls.releaseClient`.
pub mod Laws
use passeur.Base.{
  ok, ◌>>◌, ◌>>=◌, suc, str_eq, some, none, map, if◌then◌else◌, false, String, Result, Option, Bool,
  ℕ,
}
use passeur.Control.Commit.{receipt, change, Actor}
use passeur.Contracts.Task.{
  TaskControl, ReceiptOutcome, ReceiptKind, PendingInput, ControlReceipt, Claim,
}
use passeur.Control.Digests.{attach_contents, Digests}
use passeur.Control.Cancel.{push_receipt}

abbrev pub unclaim : PendingInput → PendingInput
unclaim i = record i { claim = none }

-- The record under its new owner, before the receipt is added.
unfoldable pub hand_over : String → TaskControl → TaskControl
hand_over owner s = record s {
  owner_id = owner;
  control_generation = suc s.control_generation;
  inputs = map unclaim s.inputs;
}

abbrev claimed_by : String → Option Claim → Bool
claimed_by client none = false
claimed_by client (some c) = str_eq c.client_id client

abbrev pub release_input : String → PendingInput → PendingInput
release_input client i = if claimed_by client i.claim then unclaim i else i

abbrev pub release_all : String → TaskControl → TaskControl
release_all client t = record t { inputs = map (release_input client) t.inputs }

module _ (d : Digests) where
  abbrev pub adoption : ℕ → TaskControl → String → String → String → ControlReceipt
  adoption now s id owner key = record {
    operation_key = key;
    hash = d.contents (attach_contents id owner);
    kind = ReceiptKind.attach;
    outcome = ReceiptOutcome.adopted;
    issued_at = now;
    input_id = none;
    generation = suc s.control_generation;
  }

  unfoldable pub adopt_draft :
      (max_receipts : ℕ) (now : ℕ) (id : String)
      → Actor
      → (key : String) → TaskControl
      → Result (ControlReceipt × TaskControl)
  unfolding receipt hand_over
  adopt_draft max_receipts now id actor key s = do
    old ← receipt d max_receipts s key ReceiptKind.attach (attach_contents id actor.owner_id)
    elim old [
      | some r ↦ ok (r, s)
      | none ↦
          let r = adoption now s id actor.owner_id key in
          ok (r, push_receipt r (hand_over actor.owner_id s))
    ]

  unfoldable pub adopt :
      (max_receipts : ℕ) (now : ℕ) (id : String)
      → Actor
      → (key : String) → TaskControl
      → Result (ControlReceipt × TaskControl)
  unfolding change adopt_draft
  adopt max_receipts now id actor key s = change d now (adopt_draft max_receipts now id actor key) s

  unfoldable pub release_client : ℕ → String → TaskControl → Result (Unit {0} × TaskControl)
  unfolding change
  release_client now client s = change d now (λ t. ok (tt, release_all client t)) s
