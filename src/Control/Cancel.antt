-- ===== src/Control/Cancel.antt =====
-- `TaskControls.cancel` and `TaskControls.preflightCancel`.
pub mod Validity
pub mod Laws
pub mod Stops
use passeur.Base.{
  ℕ, String, Bool, false, not, ◌||◌, Option, none, some, [], ◌∷◌, ◌++◌, map, if◌then◌else◌, is_some,
  find, Result, ok, err, ◌>>=◌, ◌>>◌, control_corrupt,
}
use passeur.Contracts.Peer.{Delivery, DeliveryState}
use passeur.Contracts.Task.{
  TaskControl, ControlReceipt, ReceiptKind, ReceiptOutcome, PendingInput, InputState, Cancellation,
  Phase, is_terminal,
}
use passeur.Control.Digests.{Digests, cancel_contents}
use passeur.Control.Commit.{Actor, owns, has_key, receipt, change}

abbrev stop_state : InputState → InputState
stop_state InputState.pending = InputState.withdrawn
stop_state s = s

abbrev pub withdraw_input : PendingInput → PendingInput
withdraw_input i = record i { claim = none; state = stop_state i.state }

-- A delivery that no adapter has is cancelled; of one that may have reached it nothing is known.
abbrev pub stop_delivery : ℕ → Delivery → Delivery
stop_delivery now r = elim r.state [
  | DeliveryState.queued ↦ record r { state = DeliveryState.cancelled; disposition_at = some now }
  | DeliveryState.dispatch_intent ↦ record r {
    state = DeliveryState.unknown;
    disposition_at = some now;
  }
  | DeliveryState.delivered ↦ record r { state = DeliveryState.unknown; disposition_at = some now }
  | _ ↦ r
]

-- `state.phase === "terminal" || state.settled_outcome`.
abbrev pub is_settled : TaskControl → Bool
is_settled s = is_terminal s.phase || is_some s.settled_outcome

abbrev pub reported : TaskControl → ReceiptOutcome
reported s = if is_settled s then ReceiptOutcome.already_terminal else ReceiptOutcome.accepted

abbrev pub push_receipt : ControlReceipt → TaskControl → TaskControl
push_receipt r s = record s { receipts = s.receipts ++ r ∷ [] }

-- The body of `if (!terminal && !state.cancel)`.
unfoldable pub stop : ℕ → String → String → TaskControl → TaskControl
stop now key reason s = record s {
  cancellation = some (record { reason = reason; issued_at = now; operation_key = key });
  phase = Phase.stopping;
  inputs = map withdraw_input s.inputs;
  peer_deliveries = map (stop_delivery now) s.peer_deliveries;
}

-- The receipt that the accepted cancellation left.
unfoldable pub standing_receipt : TaskControl → Cancellation → Result ControlReceipt
standing_receipt s c = elim (find (has_key c.operation_key) s.receipts) [
  | none ↦ err control_corrupt
  | some r ↦ ok (record r { outcome = reported s })
]

pub record Preflight : Type 0 where
  pub transition : Bool
  pub receipt : Option ControlReceipt

module _ (d : Digests) (max_receipts : ℕ) where
  abbrev pub new_receipt : ℕ → TaskControl → String → ℕ → String → String → ControlReceipt
  new_receipt now s id generation key reason = record {
    operation_key = key;
    hash = d.contents (cancel_contents id generation reason);
    kind = ReceiptKind.cancel;
    outcome = reported s;
    issued_at = now;
    input_id = none;
    generation = generation;
  }

  -- A task that is not cancelled yet.
  unfoldable pub first_cancel :
      ℕ → String → ℕ → String → String → TaskControl → Result (ControlReceipt × TaskControl)
  unfolding receipt stop
  first_cancel now id generation key reason s = do
    _ ← receipt d max_receipts s key ReceiptKind.cancel (cancel_contents id generation reason)
    let r = new_receipt now s id generation key reason
    let pushed = push_receipt r s
    ok (r, if is_settled s then pushed else stop now key reason pushed)

  unfoldable pub fresh_cancel :
      ℕ → String → Actor → ℕ → String → String → TaskControl → Result (ControlReceipt × TaskControl)
  unfolding owns first_cancel standing_receipt
  fresh_cancel now id actor generation key reason s = do
    owns s actor.owner_id (some generation)
    elim s.cancellation [
      | some c ↦ standing_receipt s c >>= λ r. ok (r, s)
      | none ↦ first_cancel now id generation key reason s
    ]

  -- The callback of `cancel`.
  unfoldable pub cancel_draft :
      ℕ → String → Actor → ℕ → String → String → TaskControl → Result (ControlReceipt × TaskControl)
  unfolding owns receipt fresh_cancel
  cancel_draft now id actor generation key reason s = do
    owns s actor.owner_id none
    elim (find (has_key key) s.receipts) [
      | some saved ↦
          receipt d max_receipts s key ReceiptKind.cancel (cancel_contents id generation reason)
          >>= λ _. ok (saved, s)
      | none ↦ fresh_cancel now id actor generation key reason s
    ]

  unfoldable pub cancel :
      ℕ → String → Actor → ℕ → String → String → TaskControl → Result (ControlReceipt × TaskControl)
  unfolding change cancel_draft
  cancel now id actor generation key reason s =
      change d now (cancel_draft now id actor generation key reason) s

  unfoldable pub preflight_cancel :
      String → Actor → ℕ → String → String → TaskControl → Result Preflight
  unfolding owns receipt standing_receipt
  preflight_cancel id actor generation key reason s = do
    owns s actor.owner_id (some generation)
    elim (find (has_key key) s.receipts) [
      | some saved ↦
          receipt d max_receipts s key ReceiptKind.cancel (cancel_contents id generation reason)
          >>= λ _. ok (record { transition = false; receipt = some saved })
      | none ↦ elim s.cancellation [
        | some c ↦
            standing_receipt s c >>= λ r. ok (record { transition = false; receipt = some r })
        | none ↦
            receipt d max_receipts s key ReceiptKind.cancel (cancel_contents id generation reason)
            >>= λ _. ok (record { transition = not (is_settled s); receipt = none })
      ]
    ]
