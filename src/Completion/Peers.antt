-- ===== src/Completion/Peers.antt =====
-- `unresolvedPeerCompletion` of src/core/task-control.ts: what peer evidence is still owed.
use passeur.Base.{
  ◌∷◌, ◌||◌, ◌==◌, ◌-◌, ◌&&◌, zero, true, suc, str_eq, some, opt_str_eq, not, none, ltb, length,
  leb, if◌then◌else◌, find, false, any, [], String, Option, List, Bool, ℕ,
}
use passeur.Contracts.Task.{kind_eq, is_adopted, TaskControl, ReceiptKind, ControlReceipt}
use passeur.Contracts.Peer.{
  is_unsettled, is_queued, is_observed, SlotState, Slot, Envelope, Delivery,
}
use passeur.Control.Digests.{Group, Digests}

pub record Binding : Type 0 where
  pub workspace : String
  pub fingerprint : String

-- The messages of `unresolvedPeerCompletion`, with the ids that they name, and the one that
-- `admitCompletion` adds.
pub data PeerIssue : Type 0 where
  unobserved : (delivery_id : String) → PeerIssue
  foreign : (delivery_id : String) → PeerIssue
  still_reserved : (operation_key source_work_id : String) → PeerIssue
  lost_receipt : (operation_key source_work_id : String) → PeerIssue
  not_observed : (operation_key source_work_id : String) → PeerIssue
  no_binding : PeerIssue

abbrev pub group_of : Envelope → Group
group_of e = record {
  case_id = e.case_id;
  case_revision = e.case_revision;
  case_generation = e.case_generation;
  source_work_id = e.source_work_id;
  recipient_task_id = e.recipient_task_id;
  recipient_run_id = e.recipient_run_id;
  recipient_control_generation = e.recipient_control_generation;
  recipient_workspace = e.recipient_workspace;
  recipient_workspace_fingerprint = e.recipient_workspace_fingerprint;
}

-- An adoption to this generation, no earlier than the instant.
abbrev adopted_at : ℕ → ℕ → ControlReceipt → Bool
adopted_at since generation r =
    kind_eq r.kind ReceiptKind.attach
    && is_adopted r.outcome
    && r.generation == generation
    && leb since r.issued_at

-- Each of the `steps` generations after `generation` was reached by such an adoption.
unfoldable pub adopted_through : List ControlReceipt → (since generation steps : ℕ) → Bool
adopted_through receipts since generation zero = true
adopted_through receipts since generation (suc steps) =
    any (adopted_at since (suc generation)) receipts
    && adopted_through receipts since (suc generation) steps

abbrev observed_since : List ControlReceipt → ℕ → ℕ → Option ℕ → Bool
observed_since receipts generation steps none = false
observed_since receipts generation steps (some since) =
    ltb 0 steps && leb steps (length receipts) && adopted_through receipts since generation steps

-- `laterAdoptions`, which is asked for only where the run that completed is named.
unfoldable pub later_adoptions : TaskControl → Option String → Delivery → Bool
unfolding adopted_through
later_adoptions s none r = false
later_adoptions s (some run) r =
    not (str_eq run "")
    && observed_since s.receipts r.envelope.recipient_control_generation
        (s.control_generation - r.envelope.recipient_control_generation) r.observed_at

abbrev bound_to : Option Binding → Envelope → Bool
bound_to none e = true
bound_to (some b) e =
    str_eq e.recipient_workspace b.workspace
    && str_eq e.recipient_workspace_fingerprint b.fingerprint

abbrev completed_run : TaskControl → Option String → String
completed_run s none = s.native.run_id
completed_run s (some run) = run

-- `current`.
unfoldable pub is_current : TaskControl → Option Binding → Option String → Delivery → Bool
unfolding later_adoptions
is_current s binding run r =
    str_eq r.envelope.recipient_task_id s.task_id
    && str_eq r.envelope.recipient_run_id (completed_run s run)
    && (r.envelope.recipient_control_generation == s.control_generation || later_adoptions s run r)
    && bound_to binding r.envelope

abbrev pub advances : Delivery → Option Delivery → Bool
advances r none = false
advances r (some q) =
    is_observed q.state
    && (ltb r.envelope.source_work_revision q.envelope.source_work_revision
        || r.envelope.source_work_revision == q.envelope.source_work_revision
          && ltb r.envelope.evidence_revision q.envelope.evidence_revision)

abbrev pub fits_slot : Slot → Delivery → Bool
fits_slot slot r =
    str_eq r.envelope.case_id slot.case_id
    && r.envelope.case_revision == slot.case_revision
    && r.envelope.case_generation == slot.case_generation
    && str_eq r.envelope.source_work_id slot.source_work_id
    && r.envelope.source_work_revision == slot.source_work_revision
    && str_eq r.envelope.recipient_task_id slot.recipient_task_id
    && str_eq r.envelope.recipient_run_id slot.recipient_run_id
    && r.envelope.recipient_control_generation == slot.recipient_control_generation
    && str_eq r.envelope.recipient_workspace slot.recipient_workspace
    && str_eq r.envelope.recipient_workspace_fingerprint slot.recipient_workspace_fingerprint

-- The newest of the receipt's group was observed, is current, and is no older than the slot.
abbrev pub covers : TaskControl → Option Binding → Option String → Slot → Option Delivery → Bool
covers s binding run slot none = false
covers s binding run slot (some q) =
    is_observed q.state
    && is_current s binding run q
    && leb slot.source_work_revision q.envelope.source_work_revision

abbrev pub names : Slot → Delivery → Bool
names slot r = opt_str_eq (some r.envelope.delivery_id) slot.delivery_id

abbrev pub reservations : TaskControl → List Slot
reservations s = elim s.peer_delivery_reservations [ none ↦ [] | some slots ↦ slots ]

infixl 5 ◌or_else◌
abbrev ◌or_else◌ : Option PeerIssue → Option PeerIssue → Option PeerIssue
some i or_else k = some i
none or_else k = k

module _ (d : Digests) where
  abbrev pub same_group : Delivery → Delivery → Bool
  same_group r q = str_eq (d.group (group_of q.envelope)) (d.group (group_of r.envelope))

  -- The last delivery of the list that is in the group of `r`: what `latest` holds for it.
  unfoldable pub newest : Delivery → List Delivery → Option Delivery
  newest r [] = none
  newest r (q ∷ qs) = elim (newest r qs) [
    | some last ↦ some last
    | none ↦ if same_group r q then some q else none
  ]

  -- The first loop. What follows a record in the list holds the newer ones of its group.
  unfoldable pub first_unobserved : List Delivery → Option PeerIssue
  unfolding newest
  first_unobserved [] = none
  first_unobserved (r ∷ rs) =
      if is_unsettled r.state && not (is_queued r.state && advances r (newest r rs))
      then some (unobserved r.envelope.delivery_id)
      else first_unobserved rs

  -- What `latest` holds for the group of `r`, where `rs` follows it.
  abbrev latest_of : Delivery → List Delivery → Delivery
  latest_of r rs = elim (newest r rs) [ none ↦ r | some q ↦ q ]

  -- The second loop, over `latest.values()`: each group stands where its first record stood.
  unfoldable pub first_foreign :
      TaskControl
      → Option Binding
      → Option String
      → (seen : List Delivery) → List Delivery
      → Option PeerIssue
  unfolding newest is_current
  first_foreign s binding run seen [] = none
  first_foreign s binding run seen (r ∷ rs) =
      if not (any (same_group r) seen)
        && is_observed (latest_of r rs).state
        && not (is_current s binding run (latest_of r rs))
      then some (foreign (latest_of r rs).envelope.delivery_id)
      else first_foreign s binding run (r ∷ seen) rs

  abbrev pub receipt_issue :
      TaskControl
      → Option Binding
      → Option String
      → List Delivery
      → Slot
      → Option Delivery
      → Option PeerIssue
  receipt_issue s binding run ds slot none =
      some (lost_receipt slot.operation_key slot.source_work_id)
  receipt_issue s binding run ds slot (some r) =
      if not (fits_slot slot r)
      then some (lost_receipt slot.operation_key slot.source_work_id)
      else if covers s binding run slot (newest r ds)
      then none
      else some (not_observed slot.operation_key slot.source_work_id)

  unfoldable pub slot_issue :
      TaskControl → Option Binding → Option String → List Delivery → Slot → Option PeerIssue
  slot_issue s binding run ds slot = elim slot.state [
    | SlotState.released ↦ none
    | SlotState.reserved ↦ some (still_reserved slot.operation_key slot.source_work_id)
    | SlotState.consumed ↦ receipt_issue s binding run ds slot (find (names slot) ds)
  ]

  -- The third loop.
  unfoldable pub first_slot_issue :
      TaskControl → Option Binding → Option String → List Delivery → List Slot → Option PeerIssue
  unfolding slot_issue
  first_slot_issue s binding run ds [] = none
  first_slot_issue s binding run ds (slot ∷ slots) = elim (slot_issue s binding run ds slot) [
    | some issue ↦ some issue
    | none ↦ first_slot_issue s binding run ds slots
  ]

  unfoldable pub unresolved_peer_completion :
      TaskControl → Option Binding → Option String → Option PeerIssue
  unfolding first_unobserved first_foreign first_slot_issue
  unresolved_peer_completion s binding run =
      first_unobserved s.peer_deliveries
      or_else first_foreign s binding run [] s.peer_deliveries
      or_else first_slot_issue s binding run s.peer_deliveries (reservations s)
