-- ===== src/Control/Cancel/Validity.antt =====
-- Cancellation keeps the stored record within the rules of its schema.
use passeur.Base.{
  ◌||◌, is_some, suc, if_cases, inr, inl, if◌then◌else◌, ◌⊎◌, ℕ, ◌≡◌, refl, sym, subst, String,
  true, false, none, [], ◌∷◌, arith, find, ok, distinct, all-map, map-append, contains-map-find,
  distinct-append_fresh,
}
use passeur.Contracts.Peer.{Delivery}
use passeur.Contracts.Task.{TaskControl, ControlReceipt, PendingInput}
use passeur.Contracts.Valid.{input_current, pending_input_ok, delivery_ok, receipt_keys}
use passeur.Contracts.Valid.Meaning.{IsValid}
use passeur.Contracts.Valid.Keeps.{
  bump-IsValid, distinct-map_delivery, owned-map_delivery, slots-map_delivery, distinct-map_input,
}
use passeur.Control.Digests.{Digests}
use passeur.Control.Commit.{Actor, has_key}
use passeur.Control.Cancel.{
  cancel, new_receipt, withdraw_input, stop_delivery, push_receipt, stop, is_settled, cancel_draft,
}
use passeur.Control.Commit.Laws.{commit_cases, change-eq-ok}

withdraw_input-current :
    (run : String) (revision generation : ℕ) (i : PendingInput)
    → input_current run revision generation i ≡ true
    → input_current run revision generation (withdraw_input i) ≡ true
withdraw_input-current run revision generation i h = ground arith

withdraw_input-ok :
    (i : PendingInput) → pending_input_ok i ≡ true → pending_input_ok (withdraw_input i) ≡ true
withdraw_input-ok i h = ground arith

pub stop_delivery-envelope : (now : ℕ) (r : Delivery) → (stop_delivery now r).envelope ≡ r.envelope
stop_delivery-envelope now r = ground arith

pub stop_delivery-ok :
    (now : ℕ) (r : Delivery) → delivery_ok r ≡ true → delivery_ok (stop_delivery now r) ≡ true
stop_delivery-ok now r h = ground arith

pub push_receipt-IsValid :
    (s : TaskControl) (r : ControlReceipt)
    → find (has_key r.operation_key) s.receipts ≡ none
    → IsValid s
    → IsValid (push_receipt r s)
push_receipt-IsValid s r fresh v = record {
  terminal_outcome = v.terminal_outcome;
  not_both = v.not_both;
  inputs_distinct = v.inputs_distinct;
  receipts_distinct =
      subst (λ ks. distinct ks ≡ true)
        (sym (map-append (λ (q : ControlReceipt). q.operation_key) s.receipts (r ∷ [])))
        (distinct-append_fresh (receipt_keys s) r.operation_key
          (contains-map-find (λ (q : ControlReceipt). q.operation_key) r.operation_key s.receipts
            fresh)
          v.receipts_distinct);
  inputs_current = v.inputs_current;
  deliveries_distinct = v.deliveries_distinct;
  deliveries_owned = v.deliveries_owned;
  none_open = v.none_open;
  inputs_shaped = v.inputs_shaped;
  deliveries_shaped = v.deliveries_shaped;
  slots = v.slots;
}

stop-IsValid :
    (now : ℕ) (key reason : String) (s : TaskControl)
    → is_settled s ≡ false
    → IsValid s
    → IsValid (stop now key reason s)
unfolding stop
stop-IsValid now key reason s running v = record {
  terminal_outcome = ground (arith, v.terminal_outcome, running);
  not_both = ground (arith, v.terminal_outcome, running);
  inputs_distinct = distinct-map_input withdraw_input (λ i. refl) s.inputs v.inputs_distinct;
  receipts_distinct = v.receipts_distinct;
  inputs_current =
      all-map _ _ withdraw_input
        (withdraw_input-current s.native.run_id s.revision s.control_generation) s.inputs
        v.inputs_current;
  deliveries_distinct =
      distinct-map_delivery (stop_delivery now) (stop_delivery-envelope now) s.peer_deliveries
        v.deliveries_distinct;
  deliveries_owned =
      owned-map_delivery (stop_delivery now) (stop_delivery-envelope now) s.task_id
        s.peer_deliveries v.deliveries_owned;
  none_open = refl;
  inputs_shaped = all-map _ _ withdraw_input withdraw_input-ok s.inputs v.inputs_shaped;
  deliveries_shaped =
      all-map _ _ (stop_delivery now) (stop_delivery-ok now) s.peer_deliveries v.deliveries_shaped;
  slots =
      slots-map_delivery (stop_delivery now) (stop_delivery-envelope now) s.task_id
        s.peer_deliveries s.peer_delivery_reservations v.slots;
}

-- A draft that a callback may leave: well formed, and at the revision it was given.
abbrev pub KeepsValid : TaskControl → TaskControl → Type 0
KeepsValid s t = IsValid t × (t.revision ≡ s.revision)

module _ (d : Digests) (max_receipts : ℕ) (now : ℕ) (id : String) (actor : Actor) (generation : ℕ)
    (key reason : String) (s : TaskControl) where
  -- The draft of a first cancellation.
  abbrev pub first_draft : TaskControl
  first_draft =
      let pushed = push_receipt (new_receipt d max_receipts now s id generation key reason) s in
      if is_settled s then pushed else stop now key reason pushed

  -- A cancellation that returns changes nothing, or it is the first one, under a new key.
  pub cancel_draft-cases :
      {r : ControlReceipt} {t : TaskControl}
      → cancel_draft d max_receipts now id actor generation key reason s ≡ ok (r, t)
      → (t ≡ s) × ((is_some (find (has_key key) s.receipts) || is_some s.cancellation) ≡ true)
        ⊎ (find (has_key key) s.receipts ≡ none)
          × (s.cancellation ≡ none)
          × (r ≡ new_receipt d max_receipts now s id generation key reason)
          × (t ≡ first_draft)
  unfolding cancel_draft
  cancel_draft-cases h = ground arith

  first_draft-KeepsValid :
      find (has_key key) s.receipts ≡ none
      → IsValid s
      → IsValid first_draft × (first_draft.revision ≡ s.revision)
  unfolding stop
  first_draft-KeepsValid fresh v =
      let r' = new_receipt d max_receipts now s id generation key reason in
      let pushed = push_receipt-IsValid s r' fresh v in
      if_cases (λ t. IsValid t × (t.revision ≡ s.revision)) (is_settled s) (push_receipt r' s)
        (stop now key reason (push_receipt r' s)) (λ _. (pushed, refl))
        (λ e. (stop-IsValid now key reason (push_receipt r' s) e pushed, refl))

  -- A cancellation that returns, of a record that keeps the rules of its schema, stores one that keeps them.
  pub cancel-IsValid :
      {r : ControlReceipt} {t : TaskControl}
      → IsValid s
      → cancel d max_receipts now id actor generation key reason s ≡ ok (r, t)
      → IsValid t
  unfolding cancel
  cancel-IsValid {r} {t} v h =
      let (draft, e, k) =
        change-eq-ok d now (cancel_draft d max_receipts now id actor generation key reason) s h in
      rw k (
        commit_cases d now s draft IsValid v (elim (cancel_draft-cases e) [
          | inl (same, _) ↦ rw same (bump-IsValid s (suc s.revision) now (omega arith) v)
          | inr (fresh, _, _, first) ↦
              let (w, same) = first_draft-KeepsValid fresh v in
              rw first (bump-IsValid first_draft (suc s.revision) now (omega (arith, same)) w)
        ]))
