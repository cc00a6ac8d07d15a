-- ===== src/Contracts/Valid/Keeps.antt =====
-- How the schema's rules survive the updates that operations make on a record's lists.
use passeur.Base.{
  fun_ext, ap, sym, subst, ℕ, ◌≤◌, ◌≡◌, String, true, Option, none, some, List, map, arith, all,
  distinct, length-map, any-map, all-map, map-map_same, all_mono,
}
use passeur.Contracts.Peer.{Delivery, Envelope, Slot}
use passeur.Contracts.Task.{TaskControl, PendingInput}
use passeur.Contracts.Valid.{input_current, input_ids, delivery_keys, owned_by, binds, slot_bound}
use passeur.Contracts.Valid.Meaning.{IsValid, SlotsOk}

-- A later revision keeps every input current.
pub input_current_mono :
    (run : String) (r r' generation : ℕ)
    → r ≤ r'
    → (i : PendingInput) → input_current run r generation i ≡ true
    → input_current run r' generation i ≡ true
input_current_mono run r r' generation le i h = ground arith

pub bump-IsValid :
    (s : TaskControl) (r t : ℕ)
    → s.revision ≤ r
    → IsValid s
    → IsValid (record s { revision = r; updated_at = t })
bump-IsValid s r t le v = record {
  terminal_outcome = v.terminal_outcome;
  not_both = v.not_both;
  inputs_distinct = v.inputs_distinct;
  receipts_distinct = v.receipts_distinct;
  inputs_current =
      all_mono _ _ (input_current_mono s.native.run_id s.revision r s.control_generation le)
        s.inputs v.inputs_current;
  deliveries_distinct = v.deliveries_distinct;
  deliveries_owned = v.deliveries_owned;
  none_open = v.none_open;
  inputs_shaped = v.inputs_shaped;
  deliveries_shaped = v.deliveries_shaped;
  slots = v.slots;
}

-- An update of deliveries that leaves each envelope alone.
module _ (f : Delivery → Delivery) (same : (r : Delivery) → (f r).envelope ≡ r.envelope) where
  pub distinct-map_delivery :
      (ds : List Delivery)
      → distinct (delivery_keys ds) ≡ true
      → distinct (delivery_keys (map f ds)) ≡ true
  distinct-map_delivery ds h =
      subst (λ ks. distinct ks ≡ true)
        (sym (
          map-map_same (λ d. d.envelope.idempotency_key) f
            (λ r. ap (λ (e : Envelope). e.idempotency_key) (same r)) ds))
        h

  pub owned-map_delivery :
      (task : String) (ds : List Delivery)
      → all (owned_by task) ds ≡ true
      → all (owned_by task) (map f ds) ≡ true
  owned-map_delivery task ds h = all-map _ (owned_by task) f (λ r k. rw (same r) k) ds h

  binds-map : (s : Slot) (r : Delivery) → binds s (f r) ≡ binds s r
  binds-map s r = rw (same r)

  slot_bound-map :
      (task : String) (ds : List Delivery) (s : Slot)
      → slot_bound task ds s ≡ slot_bound task (map f ds) s
  slot_bound-map task ds s = rw (any-map (binds s) f ds, fun_ext (binds-map s))

  pub slots-map_delivery :
      (task : String) (ds : List Delivery) (r : Option (List Slot))
      → SlotsOk task ds r
      → SlotsOk task (map f ds) r
  slots-map_delivery task ds none h = tt
  slots-map_delivery task ds (some slots) h = record {
    capacity = omega (arith, length-map f ds, h.capacity);
    keys = h.keys;
    bound =
        all_mono (slot_bound task ds) (slot_bound task (map f ds))
          (λ s k. rw (← slot_bound-map task ds s) k) slots h.bound;
    digests = h.digests;
    shaped = h.shaped;
  }

-- An update of inputs that leaves their ids alone.
pub distinct-map_input :
    (f : PendingInput → PendingInput)
    → ((i : PendingInput) → (f i).input_id ≡ i.input_id)
    → (is : List PendingInput) → distinct (input_ids is) ≡ true
    → distinct (input_ids (map f is)) ≡ true
distinct-map_input f same is h =
    subst (λ ks. distinct ks ≡ true) (sym (map-map_same (λ i. i.input_id) f same is)) h
