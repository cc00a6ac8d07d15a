-- ===== src/Contracts/Valid/Meaning.antt =====
-- The schema's verdict as a predicate that proofs take apart.
use passeur.Base.{
  String, distinct, ◌+◌, ◌≤◌, ◌≡◌, refl, ◌↔◌, true, false, ◌&&◌, Option, none, some, List, map,
  arith, is_some, length, any, all,
}
use passeur.Contracts.Peer.{Delivery, Slot, max_peer_deliveries}
use passeur.Contracts.Task.{TaskControl, is_terminal, is_unresolved}
use passeur.Contracts.Valid.{
  slots_valid, input_ids, receipt_keys, delivery_keys, owned_by, input_current, pending_input_ok,
  delivery_ok, slot_ok, slot_key, slot_bound, digests_agree, reserved_count, is_some_completed,
  relations_hold, validate_task_control, validate_slots,
}

pub record SlotsValid (task : String) (ds : List Delivery) (slots : List Slot) : Type 0 where
  pub capacity : length ds + reserved_count slots ≤ max_peer_deliveries
  pub keys : distinct (map slot_key slots) ≡ true
  pub bound : all (slot_bound task ds) slots ≡ true
  pub digests : digests_agree slots ≡ true
  pub shaped : all slot_ok slots ≡ true

abbrev pub SlotsOk : String → List Delivery → Option (List Slot) → Type 0
SlotsOk task ds none = Unit
SlotsOk task ds (some slots) = SlotsValid task ds slots

pub record IsValid (v : TaskControl) : Type 0 where
  pub terminal_outcome : is_terminal v.phase ≡ is_some v.outcome
  pub not_both : (is_some_completed v.outcome && is_some v.cancellation) ≡ false
  pub inputs_distinct : distinct (input_ids v.inputs) ≡ true
  pub receipts_distinct : distinct (receipt_keys v) ≡ true
  pub inputs_current :
      all (input_current v.native.run_id v.revision v.control_generation) v.inputs ≡ true
  pub deliveries_distinct : distinct (delivery_keys v.peer_deliveries) ≡ true
  pub deliveries_owned : all (owned_by v.task_id) v.peer_deliveries ≡ true
  pub none_open : (is_terminal v.phase && any (λ i. is_unresolved i.state) v.inputs) ≡ false
  pub inputs_shaped : all pending_input_ok v.inputs ≡ true
  pub deliveries_shaped : all delivery_ok v.peer_deliveries ≡ true
  pub slots : SlotsOk v.task_id v.peer_deliveries v.peer_delivery_reservations

SlotsValid-of :
    (v : TaskControl) (slots : List Slot)
    → (validate_slots v slots && all slot_ok slots) ≡ true
    → SlotsValid v.task_id v.peer_deliveries slots
unfolding validate_slots
SlotsValid-of v slots h = record {
  capacity = ground arith;
  keys = ground arith;
  bound = ground arith;
  digests = ground arith;
  shaped = ground arith;
}

validate_slots_of :
    (v : TaskControl) (slots : List Slot)
    → SlotsValid v.task_id v.peer_deliveries slots
    → (validate_slots v slots && all slot_ok slots) ≡ true
unfolding validate_slots
validate_slots_of v slots s = ground arith

slots_of :
    (v : TaskControl) (r : Option (List Slot))
    → slots_valid v r ≡ true
    → SlotsOk v.task_id v.peer_deliveries r
slots_of v none h = tt
slots_of v (some slots) h = SlotsValid-of v slots h

of_slots :
    (v : TaskControl) (r : Option (List Slot))
    → SlotsOk v.task_id v.peer_deliveries r
    → slots_valid v r ≡ true
of_slots v none h = refl
of_slots v (some slots) h = validate_slots_of v slots h

-- The executable check of the rules accepts a control record exactly when the predicate holds.
pub relations_hold_iff : (v : TaskControl) → (relations_hold v ≡ true) ↔ IsValid v
unfolding relations_hold validate_task_control
relations_hold_iff v = (sound, complete)
  where
    sound : relations_hold v ≡ true → IsValid v
    sound h = record {
      terminal_outcome = ground arith;
      not_both = ground arith;
      inputs_distinct = ground arith;
      receipts_distinct = ground arith;
      inputs_current = ground arith;
      deliveries_distinct = ground arith;
      deliveries_owned = ground arith;
      none_open = ground arith;
      inputs_shaped = ground arith;
      deliveries_shaped = ground arith;
      slots = slots_of v v.peer_delivery_reservations (ground arith);
    }

    complete : IsValid v → relations_hold v ≡ true
    complete h = ground (arith, of_slots v v.peer_delivery_reservations h.slots)
