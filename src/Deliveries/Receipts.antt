-- ===== src/Deliveries/Receipts.antt =====
-- `#acceptPeerReceipt` of src/core/coordinator.ts: the worker's receipts for a delivery.
use passeur.Base.{
  Option, ◌>>◌, peer_delivery_stale, throw_if, ok, ◌||◌, ◌==◌, ◌&&◌, ℕ, update_first, str_eq, some,
  opt_str_eq, not, none, length, leb, if◌then◌else◌, find, String, Result, Bool,
}
use passeur.Contracts.Peer.{is_observed, is_dispatch_intent, is_delivered, DeliveryState, Delivery}
use passeur.Control.Digests.{Digests}
use passeur.Contracts.Task.{is_turn_scoped, TaskControl}
use passeur.Deliveries.Binding.{Validity}
use passeur.Control.Commit.{change}
use passeur.Deliveries.Dispatch.{dispose}

pub data Target : Type 0 where
  delivered observed : Target

-- What the callback of an attempt returns.
pub data Receipt : Type 0 where
  retry unknown accepted : Receipt
  refused : Validity → Receipt

abbrev pub target_state : Target → DeliveryState
target_state Target.delivered = DeliveryState.delivered
target_state Target.observed = DeliveryState.observed

-- The state that a receipt finds.
abbrev pub awaits : Target → DeliveryState → Bool
awaits Target.delivered state = is_dispatch_intent state
awaits Target.observed state = is_delivered state

abbrev pub reached : Target → DeliveryState → Bool
reached Target.delivered state = is_delivered state
reached Target.observed state = is_observed state

-- The receipt names the native turn and session that the record has.
abbrev pub same_native : String → String → TaskControl → Bool
same_native turn session s =
    opt_str_eq s.native.turn_id (some turn) && opt_str_eq s.native.native_session_id (some session)

abbrev pub same_receipt : String → String → Delivery → Bool
same_receipt turn session r =
    opt_str_eq r.native_turn_id (some turn) && opt_str_eq r.native_session_id (some session)

abbrev pub fits_target : Target → String → String → TaskControl → Delivery → Bool
fits_target Target.delivered turn session s r = not (is_turn_scoped s.native.coverage)
fits_target Target.observed turn session s r =
    is_turn_scoped s.native.coverage
    && same_receipt turn session r
    && length s.native.obligations == 0

-- `nativeTurnId` is a text of 1 to 256 bytes without a zero byte.
abbrev pub bounded_text : (text : String) → (bytes : ℕ) → (has_zero : Bool) → Bool
bounded_text text bytes has_zero = not (str_eq text "") && leb bytes 256 && not has_zero

abbrev pub stamp : ℕ → Target → String → String → Delivery → Delivery
stamp now Target.delivered turn session r = record r {
  state = DeliveryState.delivered;
  native_turn_id = some turn;
  native_session_id = some session;
  delivered_at = some now;
}
stamp now Target.observed turn session r = record r {
  state = DeliveryState.observed;
  native_turn_id = some turn;
  native_session_id = some session;
  observed_at = some now;
}

abbrev pub has_idempotency_key : String → Delivery → Bool
has_idempotency_key key r = str_eq r.envelope.idempotency_key key

abbrev pub with_delivery : String → (Delivery → Delivery) → TaskControl → TaskControl
with_delivery key f s = record s {
  peer_deliveries = update_first (has_idempotency_key key) f s.peer_deliveries;
}

abbrev pub in_flight : Delivery → Bool
in_flight r = is_dispatch_intent r.state || is_delivered r.state

-- `Buffer.byteLength` and the search for a zero byte are parameters.
module _ (d : Digests) (byte_length : String → ℕ) (has_zero : String → Bool) where
  -- A receipt for a delivery that still is the task's.
  abbrev pub current_receipt :
      ℕ → String → String → String → Target → Delivery → TaskControl → Receipt × TaskControl
  current_receipt now key turn session target r s =
      if reached target r.state && same_receipt turn session r && same_native turn session s
      then (accepted, s)
      else if not (awaits target r.state)
      then (refused Validity.stale, s)
      else if not (bounded_text turn (byte_length turn) (has_zero turn))
          || not (same_native turn session s)
          || not (fits_target target turn session s r)
      then (refused Validity.stale, s)
      else (accepted, with_delivery key (stamp now target turn session) s)

  abbrev pub found_receipt :
      ℕ
      → String
      → String
      → String
      → Target
      → Validity
      → Delivery
      → TaskControl
      → Receipt × TaskControl
  found_receipt now key turn session target Validity.current r s =
      current_receipt now key turn session target r s
  found_receipt now key turn session target v r s = (
    refused v,
    (if in_flight r then with_delivery key (dispose now DeliveryState.unknown) s else s),
  )

  abbrev pub looked_up :
      ℕ
      → String
      → String
      → String
      → Target
      → Validity
      → Option Delivery
      → TaskControl
      → Receipt × TaskControl
  looked_up now key turn session target binding none s = (unknown, s)
  looked_up now key turn session target binding (some r) s =
      found_receipt now key turn session target binding r s

  unfoldable pub accept_draft :
      ℕ → ℕ → String → String → String → Target → Validity → TaskControl → Receipt × TaskControl
  accept_draft now revision key turn session target binding s =
      if not (s.revision == revision)
      then (retry, s)
      else looked_up now key turn session target binding
          (find (has_idempotency_key key) s.peer_deliveries) s

  unfoldable pub accept_receipt :
      ℕ
      → ℕ
      → String
      → String
      → String
      → Target
      → Validity
      → TaskControl
      → Result (Receipt × TaskControl)
  unfolding change accept_draft
  accept_receipt now revision key turn session target binding s =
      throw_if (not (bounded_text session (byte_length session) (has_zero session)))
        peer_delivery_stale
      >> change d now (λ s. ok (accept_draft now revision key turn session target binding s)) s
