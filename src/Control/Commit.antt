-- ===== src/Control/Commit.antt =====
-- `initialControl`, `owns`, `TaskControls.change` and `TaskControls.receipt`.
pub mod Laws
use passeur.Base.{
  ℕ, suc, ◌+◌, String, Bool, false, not, ◌||◌, Option, none, some, [], leb, ◌==◌, str_eq,
  if◌then◌else◌, length, find, Result, ok, ◌>>=◌, ◌>>◌, throw_if, task_control_conflict,
  stale_control, operation_key_conflict, control_capacity_exceeded,
}
use passeur.Contracts.Task.{
  TaskControl, ControlReceipt, ReceiptKind, Phase, NativeState, Coverage, kind_eq, is_cancel,
}
use passeur.Control.Digests.{Digests, Contents}

pub record Actor : Type 0 where
  pub owner_id : String
  pub client_id : String

unfoldable pub initial_control : (id owner run_id : String) (now : ℕ) → TaskControl
initial_control id owner run_id now = record {
  task_id = id;
  revision = 1;
  owner_id = owner;
  control_generation = 1;
  phase = Phase.queued;
  outcome = none;
  updated_at = now;
  native = record {
    run_id = run_id;
    state = NativeState.not_started;
    turn_id = none;
    native_session_id = none;
    process = none;
    obligations = [];
    coverage = Coverage.unknown;
    last_observed_at = none;
    limitation = none;
  };
  inputs = [];
  receipts = [];
  peer_deliveries = [];
  cancellation = none;
  settled_outcome = none;
  attention = none;
  telemetry_omitted = false;
  peer_delivery_reservations = none;
}

abbrev other_generation : TaskControl → Option ℕ → Bool
other_generation s none = false
other_generation s (some generation) = not (generation == s.control_generation)

unfoldable pub owns : TaskControl → String → Option ℕ → Result (Unit {0})
owns s owner generation = do
  throw_if (not (str_eq s.owner_id owner)) task_control_conflict
  throw_if (other_generation s generation) stale_control

abbrev pub has_key : String → ControlReceipt → Bool
has_key key r = str_eq r.operation_key key

module _ (d : Digests) where
  -- The record as `change` leaves it: the old one if the digests agree, and otherwise the draft
  -- under the next revision.
  unfoldable pub commit : ℕ → TaskControl → TaskControl → TaskControl
  commit now old draft =
      if str_eq (d.control old) (d.control draft)
      then old
      else record draft { revision = suc old.revision; updated_at = now }

  -- `change`, where no publication holds the task.
  unfoldable pub change {ℓ} :
      {A : Type ℓ}
      → ℕ
      → (TaskControl → Result (A × TaskControl))
      → TaskControl
      → Result (A × TaskControl)
  unfolding commit
  change now f old = f old >>= λ r. ok (r.0, commit now old r.1)

  abbrev other_intent : Option ControlReceipt → ReceiptKind → Contents → Bool
  other_intent none kind contents = false
  other_intent (some r) kind contents =
      not (kind_eq r.kind kind) || not (str_eq r.hash (d.contents contents))

  -- One place is kept for a cancellation.
  abbrev is_full : ℕ → TaskControl → ReceiptKind → Option ControlReceipt → Bool
  is_full max_receipts s kind (some r) = false
  is_full max_receipts s kind none =
      leb max_receipts (length s.receipts + (if is_cancel kind then 0 else 1))

  unfoldable pub receipt :
      (max_receipts : ℕ)
      → TaskControl
      → String
      → ReceiptKind
      → Contents
      → Result (Option ControlReceipt)
  receipt max_receipts s key kind contents = do
    let existing = find (has_key key) s.receipts
    throw_if (other_intent existing kind contents) operation_key_conflict
    throw_if (is_full max_receipts s kind existing) control_capacity_exceeded
    ok existing
