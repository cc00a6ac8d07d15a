-- ===== src/Slots/Reserve.antt =====
-- `Coordinator.reservePeerDeliverySlots` of src/core/coordinator.ts.
use passeur.Slots.Recipient.{
  is_pending_resource, Entry, Resource, Gate, assert_mutation_allowed, fingerprint,
}
use passeur.Base.{
  peer_delivery_capacity, peer_delivery_reservation_released, peer_delivery_reservation_conflict,
  schema_invalid, peer_delivery_stale, peer_delivery_key_conflict, ok, ◌∷◌, ◌>>◌, ◌>>=◌, ◌==◌, ◌+◌,
  ◌++◌, ◌&&◌, ℕ, throw_if, str_eq, some, opt_str_eq, not, none, length, leb, is_some, find, false,
  any, [], String, Result, Option, List, Bool,
}
use passeur.Contracts.Peer.{max_peer_deliveries, is_released, SlotState, Slot, BundleSource, Bundle}
use passeur.Control.Digests.{Digests}
use passeur.Contracts.Task.{is_observed_live, is_active, TaskControl}
use passeur.Contracts.Valid.{reserved_count, bundle_ok}
use passeur.Control.Commit.{change}
use passeur.Completion.Peers.{reservations}

-- The slot that a source of a bundle asks for.
abbrev pub wanted_slot : Bundle → BundleSource → Slot
wanted_slot b source = record {
  identity = record {
    operation_key = b.operation_key;
    request_digest = b.request_digest;
    case_id = b.case_id;
    expected_case_revision = b.expected_case_revision;
    case_revision = b.case_revision;
    case_generation = b.case_generation;
    recipient_task_id = b.recipient_task_id;
    recipient_run_id = b.recipient_run_id;
    recipient_control_generation = b.recipient_control_generation;
    recipient_workspace = b.recipient_workspace;
    recipient_workspace_fingerprint = b.recipient_workspace_fingerprint;
    source_work_id = source.work_id;
    source_work_revision = source.work_revision;
  };
  state = SlotState.reserved;
  delivery_id = none;
}

abbrev pub is_slot : String → String → Slot → Bool
is_slot key work slot = str_eq slot.operation_key key && str_eq slot.source_work_id work

-- Another operation's slot for the same revision of the case.
abbrev pub rivals : Bundle → Slot → Bool
rivals b slot =
    not (is_released slot.state)
    && str_eq slot.case_id b.case_id
    && slot.case_revision == b.case_revision
    && slot.case_generation == b.case_generation
    && not (str_eq slot.operation_key b.operation_key)

module _ (d : Digests) where
  -- The recipient's workspace is the one that the bundle names.
  abbrev pub workspace_held : Bundle → Option Entry → Option Resource → Bool
  workspace_held b (some entry) (some resource) = elim entry.workspace [
    | none ↦ false
    | some workspace ↦
        not (str_eq workspace "")
        && entry.request_version == 5
        && is_pending_resource resource.state
        && opt_str_eq resource.worktree_path (some b.recipient_workspace)
        && str_eq workspace b.recipient_workspace
        && str_eq (fingerprint d b.recipient_task_id entry workspace resource)
            b.recipient_workspace_fingerprint
  ]
  workspace_held b _ _ = false

  abbrev pub accepts_slots : Bundle → Option Entry → Option Resource → TaskControl → Bool
  accepts_slots b entry resource s =
      workspace_held b entry resource
      && is_active s.phase
      && not (is_some s.cancellation)
      && not (is_some s.settled_outcome)
      && is_observed_live s.native.state
      && str_eq s.native.run_id b.recipient_run_id
      && s.control_generation == b.recipient_control_generation

  -- One turn of the loop over the sources.
  unfoldable pub reserve_one : ℕ → Bundle → List Slot → BundleSource → Result (List Slot)
  reserve_one held b slots source = elim (find (is_slot b.operation_key source.work_id) slots) [
    | some prior ↦ do
      throw_if (not (str_eq (d.slot prior.identity) (d.slot (wanted_slot b source).identity)))
          peer_delivery_key_conflict
      throw_if (is_released prior.state) peer_delivery_reservation_released
      ok slots
    | none ↦ do
      throw_if (leb max_peer_deliveries (held + reserved_count slots)) peer_delivery_capacity
      ok (slots ++ wanted_slot b source ∷ [])
  ]

  unfoldable pub reserve_each : ℕ → Bundle → List Slot → List BundleSource → Result (List Slot)
  reserve_each held b slots [] = ok slots
  reserve_each held b slots (source ∷ sources) =
      reserve_one held b slots source >>= λ more. reserve_each held b more sources

  unfoldable pub reserve_draft :
      Bundle → Option Entry → Option Resource → TaskControl → Result (Unit {0} × TaskControl)
  reserve_draft b entry resource s = do
    throw_if (not (accepts_slots b entry resource s)) peer_delivery_stale
    throw_if (any (rivals b) (reservations s)) peer_delivery_reservation_conflict
    reserve_each (length s.peer_deliveries) b (reservations s) b.sources >>= λ slots.
        ok (tt, record s { peer_delivery_reservations = some slots })

  unfoldable pub reserve_slots :
      ℕ
      → Gate
      → Bundle
      → Option Entry
      → Option Resource
      → TaskControl
      → Result (Unit {0} × TaskControl)
  unfolding change reserve_draft
  reserve_slots now gate b entry resource s = do
    throw_if (not (bundle_ok b)) schema_invalid
    assert_mutation_allowed gate
    change d now (reserve_draft b entry resource) s
