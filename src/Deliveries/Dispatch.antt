-- ===== src/Deliveries/Dispatch.antt =====
-- `next` of the worker's port, `#peerPort` of src/core/coordinator.ts.
use passeur.Base.{
  peer_delivery_turn_pending, ok, ◌||◌, ◌>>◌, ◌>>=◌, ◌==◌, ℕ, update_first, true, throw_if, str_eq,
  some, not, none, length, if◌then◌else◌, find, any, String, Result, Option, Bool,
}
use passeur.Contracts.Peer.{is_queued, is_dispatch_intent, Envelope, DeliveryState, Delivery}
use passeur.Control.Digests.{Digests}
use passeur.Contracts.Task.{is_unresolved, is_turn_scoped, TaskControl}
use passeur.Deliveries.Binding.{peer_validity, immutable_envelope, World, Validity}
use passeur.Control.Commit.{commit, change}

-- How an attempt ends.
pub data Turn : Type 0 where
  retry drain : Turn
  hand : Envelope → Turn

abbrev pub state_of : Validity → DeliveryState
state_of Validity.current = DeliveryState.queued
state_of Validity.stale = DeliveryState.stale
state_of Validity.revoked = DeliveryState.revoked
state_of Validity.cancelled = DeliveryState.cancelled
state_of Validity.replaced = DeliveryState.replaced

abbrev pub dispose : ℕ → DeliveryState → Delivery → Delivery
dispose now state r = record r { state = state; disposition_at = some now }

abbrev pub intend : ℕ → Delivery → Delivery
intend now r = record r { state = DeliveryState.dispatch_intent; dispatch_intent_at = some now }

abbrev pub queue_head : TaskControl → Option Delivery
queue_head s = find (λ r. is_queued r.state) s.peer_deliveries

abbrev pub turn_pending : TaskControl → Bool
turn_pending s =
    not (is_turn_scoped s.native.coverage)
    || not (length s.native.obligations == 0)
    || any (λ i. is_unresolved i.state) s.inputs

abbrev pub with_head : (Delivery → Delivery) → TaskControl → TaskControl
with_head f s = record s {
  peer_deliveries = update_first (λ r. is_queued r.state) f s.peer_deliveries;
}

abbrev pub has_delivery_id : String → Delivery → Bool
has_delivery_id id r = str_eq r.envelope.delivery_id id

-- Only an intent that is still one is withdrawn.
abbrev withdraw_intent : ℕ → DeliveryState → Delivery → Delivery
withdraw_intent now state r = if is_dispatch_intent r.state then dispose now state r else r

abbrev pub withheld : ℕ → String → Validity → TaskControl → TaskControl
withheld now delivery validity s = record s {
  peer_deliveries =
      update_first (has_delivery_id delivery) (withdraw_intent now (state_of validity))
        s.peer_deliveries;
}

module _ (d : Digests) where
  -- The callback of the attempt, for the head that was read and what was decided of it.
  abbrev pub dispatch_head : ℕ → Validity → Delivery → TaskControl → Result (Turn × TaskControl)
  dispatch_head now Validity.current r s = do
    throw_if (turn_pending s) peer_delivery_turn_pending
    immutable_envelope d r.envelope >>= λ e. ok (hand e, with_head (intend now) s)
  dispatch_head now v r s = ok (drain, with_head (dispose now (state_of v)) s)

  unfoldable pub dispatch_draft :
      ℕ → ℕ → Delivery → Validity → TaskControl → Result (Turn × TaskControl)
  dispatch_draft now revision head validity s =
      if not (s.revision == revision) then ok (retry, s) else elim (queue_head s) [
        | none ↦ ok (retry, s)
        | some r ↦
            if not (str_eq r.envelope.delivery_id head.envelope.delivery_id)
            then ok (retry, s)
            else dispatch_head now validity r s
      ]

  unfoldable pub dispatch : ℕ → ℕ → Delivery → Validity → TaskControl → Result (Turn × TaskControl)
  unfolding change dispatch_draft
  dispatch now revision head validity s = change d now (dispatch_draft now revision head validity) s

  -- The worker's authority is checked again on the record after the intent is stored.
  unfoldable pub withhold : ℕ → String → Validity → TaskControl → Result (Unit {0} × TaskControl)
  unfolding change
  withhold now delivery validity s = change d now (λ s. ok (tt, withheld now delivery validity s)) s

  -- `#peerEvent`: the loss of an event is noted on the record.
  unfoldable pub peer_event : ℕ → (appended : Bool) → TaskControl → TaskControl
  unfolding commit
  peer_event now appended s =
      if appended then s else commit d now s (record s { telemetry_omitted = true })

  -- The end of an attempt that stored an intent.
  abbrev pub recheck :
      ℕ → Bool → Envelope → Validity → TaskControl → Result (Option Envelope × TaskControl)
  recheck now appended e Validity.current s = ok (some e, s)
  recheck now appended e v s =
      withhold now e.delivery_id v s >>= λ r. ok (none, peer_event now appended r.1)

  abbrev pub after_turn :
      ℕ → String → World → Bool → Turn → TaskControl → Result (Option Envelope × TaskControl)
  after_turn now id w appended retry s = ok (none, s)
  after_turn now id w appended drain s = ok (none, peer_event now appended s)
  after_turn now id w appended (hand e) s =
      let noted = peer_event now appended s in
      peer_validity d id w noted e >>= λ v. recheck now appended e v noted

  -- One attempt of the loop where no other operation comes between: the envelope that it returns,
  -- or none where the loop goes on.
  unfoldable pub next_attempt :
      ℕ → String → World → Bool → Delivery → TaskControl → Result (Option Envelope × TaskControl)
  unfolding dispatch
  next_attempt now id w appended head s = peer_validity d id w s head.envelope >>= λ v.
      dispatch now s.revision head v s >>= λ r. after_turn now id w appended r.0 r.1
