-- ===== src/Slots/Release.antt =====
-- `TaskControls.releasePeerDeliverySlotsInPublication` of src/core/task-control.ts.
use passeur.Slots.Reserve.{is_slot, wanted_slot}
use passeur.Base.{
  peer_delivery_reservation_consumed, peer_delivery_key_conflict, peer_delivery_stale,
  peer_delivery_reservation_manifest, peer_delivery_reservation_scope, ok, err, ◌∷◌, ◌||◌, ◌>>◌,
  ◌>>=◌, ◌==◌, ◌&&◌, ℕ, update_first, throw_if, str_eq, some, set_size, not, none, map, length,
  is_some, find, filter, false, contains, any, [], String, Result, Option, List, Bool,
}
use passeur.Contracts.Peer.{is_consumed, SlotState, Slot, BundleSource, Bundle}
use passeur.Control.Digests.{Digests}
use passeur.Contracts.Task.{is_terminal, is_finalizing, TaskControl}
use passeur.Control.Commit.{change}

-- The caller's publication still holds the task.
abbrev pub holds_fence : Option String → Option String → Bool
holds_fence (some token) (some holder) = not (str_eq token "") && str_eq holder token
holds_fence _ _ = false

abbrev pub give_back : Slot → Slot
give_back slot = record slot { state = SlotState.released }

abbrev pub of_operation : Bundle → Slot → Bool
of_operation b slot = str_eq slot.operation_key b.operation_key

-- The bundle names the sources of the operation's slots, each once and no other.
abbrev pub names_manifest : Bundle → List Slot → Bool
names_manifest b slots =
    let works = map (λ s. s.work_id) b.sources in
    set_size works == length b.sources
    && length slots == length b.sources
    && not (any (λ slot. not (contains slot.source_work_id works)) slots)

module _ (d : Digests) where
  unfoldable pub release_one : Bundle → List Slot → BundleSource → Result (List Slot)
  release_one b slots source = elim (find (is_slot b.operation_key source.work_id) slots) [
    | none ↦ err peer_delivery_reservation_manifest
    | some slot ↦ do
      throw_if (not (str_eq (d.slot slot.identity) (d.slot (wanted_slot b source).identity)))
          peer_delivery_key_conflict
      throw_if (is_consumed slot.state) peer_delivery_reservation_consumed
      ok (update_first (is_slot b.operation_key source.work_id) give_back slots)
  ]

  unfoldable pub release_each : Bundle → List Slot → List BundleSource → Result (List Slot)
  release_each b slots [] = ok slots
  release_each b slots (source ∷ sources) =
      release_one b slots source >>= λ less. release_each b less sources

  -- From the operation's slots on.
  abbrev pub release_owned :
      Bundle → TaskControl → List Slot → List Slot → Result (Unit {0} × TaskControl)
  release_owned b s slots [] = ok (tt, s)
  release_owned b s slots (slot ∷ owned) =
      throw_if (not (names_manifest b (slot ∷ owned))) peer_delivery_reservation_manifest
      >> (release_each b slots b.sources >>= λ less.
          ok (tt, record s { peer_delivery_reservations = some less }))

  -- From the list of slots on, which schema 2 has not.
  abbrev pub release_from :
      Bundle → TaskControl → Option (List Slot) → Result (Unit {0} × TaskControl)
  release_from b s none = ok (tt, s)
  release_from b s (some slots) =
      throw_if (is_finalizing s.phase || is_terminal s.phase || is_some s.settled_outcome)
        peer_delivery_stale
      >> release_owned b s slots (filter (of_operation b) slots)

  unfoldable pub release_draft : Bundle → TaskControl → Result (Unit {0} × TaskControl)
  release_draft b s = release_from b s s.peer_delivery_reservations

  -- Given who holds the task before its lock is taken, and under it.
  unfoldable pub release_slots :
      ℕ
      → (token before within : Option String) → Bundle
      → TaskControl
      → Result (Unit {0} × TaskControl)
  unfolding change release_draft
  release_slots now token before within b s = do
    throw_if (not (holds_fence token before)) peer_delivery_reservation_scope
    throw_if (not (holds_fence token within)) peer_delivery_reservation_scope
    change d now (release_draft b) s
