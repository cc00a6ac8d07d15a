-- ===== src/Completion/Evidence.antt =====
-- `unresolvedPeerCompletion` of src/core/task-control.ts: what it means that the peer evidence of a
-- task is settled, and that a reserved slot is honoured, without reference to its loops.
use passeur.Base.{
  sym, opt_str_eq, Bool-cases, ◌⊎◌, ◌≤◌, ◌∷◌, ◌||◌, ◌++◌, ◌&&◌, some, refl, none, inr, inl,
  find-pass, find, false, eq_of_str_eq, arith, ap, any-append, any, [], String, Option-cases,
  Option, List, Bool, All, ◌≡◌, true,
}
use passeur.Completion.Peers.{
  is_current, slot_issue, same_group, receipt_issue, newest, names, fits_slot, first_unobserved,
  first_slot_issue, advances, Binding,
}
use passeur.Contracts.Peer.{
  is_released, is_queued, is_observed, is_consumed, SlotState, Slot, DeliveryState, Delivery,
}
use passeur.Control.Digests.{Digests}
use passeur.Contracts.Task.{TaskControl}

-- The delivery awaits nothing from the worker or the coordinator.
abbrev pub is_concluded : DeliveryState → Bool
is_concluded DeliveryState.observed = true
is_concluded DeliveryState.stale = true
is_concluded DeliveryState.revoked = true
is_concluded DeliveryState.cancelled = true
is_concluded DeliveryState.replaced = true
is_concluded _ = false

-- The identity that the slot reserved: its source, its case and its recipient.
pub record IsReceiptOf (slot : Slot) (r : Delivery) : Type 0 where
  pub named : slot.delivery_id ≡ some r.envelope.delivery_id
  pub of_case : r.envelope.case_id ≡ slot.case_id
  pub of_revision : r.envelope.case_revision ≡ slot.case_revision
  pub of_generation : r.envelope.case_generation ≡ slot.case_generation
  pub of_source : r.envelope.source_work_id ≡ slot.source_work_id
  pub of_source_revision : r.envelope.source_work_revision ≡ slot.source_work_revision
  pub for_task : r.envelope.recipient_task_id ≡ slot.recipient_task_id
  pub for_run : r.envelope.recipient_run_id ≡ slot.recipient_run_id
  pub for_generation : r.envelope.recipient_control_generation ≡ slot.recipient_control_generation
  pub for_workspace : r.envelope.recipient_workspace ≡ slot.recipient_workspace
  pub for_fingerprint :
      r.envelope.recipient_workspace_fingerprint ≡ slot.recipient_workspace_fingerprint

named_by : (x : String) (o : Option String) → opt_str_eq (some x) o ≡ true → o ≡ some x
named_by x none h = absurd (cc)
named_by x (some y) h = ap some (sym (eq_of_str_eq x y h))

fits_slot-IsReceiptOf :
    (slot : Slot) (r : Delivery)
    → names slot r ≡ true
    → fits_slot slot r ≡ true
    → IsReceiptOf slot r
fits_slot-IsReceiptOf slot r n h = record {
  named = named_by r.envelope.delivery_id slot.delivery_id n;
  of_case = eq_of_str_eq _ _ (ground (arith, h));
  of_revision = ground (arith, h);
  of_generation = ground (arith, h);
  of_source = eq_of_str_eq _ _ (ground (arith, h));
  of_source_revision = ground (arith, h);
  for_task = eq_of_str_eq _ _ (ground (arith, h));
  for_run = eq_of_str_eq _ _ (ground (arith, h));
  for_generation = ground (arith, h);
  for_workspace = eq_of_str_eq _ _ (ground (arith, h));
  for_fingerprint = eq_of_str_eq _ _ (ground (arith, h));
}

slot_state_cases :
    (x : SlotState)
    → (x ≡ SlotState.released) ⊎ ((x ≡ SlotState.reserved) ⊎ (x ≡ SlotState.consumed))
slot_state_cases SlotState.released = inl refl
slot_state_cases SlotState.reserved = inr (inl refl)
slot_state_cases SlotState.consumed = inr (inr refl)

module _ (d : Digests) where
  -- A later revision of the same evidence, which the worker has observed.
  abbrev pub supersedes : Delivery → Delivery → Bool
  supersedes r q = same_group d r q && advances r (some q)

  -- Each delivery is concluded, or waits in the queue behind a newer one that was observed.
  abbrev pub settled : List Delivery → Bool
  settled [] = true
  settled (r ∷ rs) =
      (is_concluded r.state || is_queued r.state && any (supersedes r) rs) && settled rs

  -- The last delivery of the list that is in the group of `r`.
  abbrev pub IsNewest : Delivery → List Delivery → Delivery → Type 0
  IsNewest r ds q =
      (before : List Delivery) × (after : List Delivery) × (ds ≡ before ++ q ∷ after)
      × (same_group d r q ≡ true)
      × (any (same_group d r) after ≡ false)

  newest-none :
      (r : Delivery) (ds : List Delivery) → newest d r ds ≡ none → any (same_group d r) ds ≡ false
  unfolding newest
  newest-none r [] h = refl
  newest-none r (x ∷ xs) h = elim (Option-cases (newest d r xs)) [
    | inl e ↦ ground (arith, h, e, newest-none r xs e)
    | inr (q, e) ↦ absurd (ground (arith, h, e))
  ]

  pub newest-IsNewest :
      (r : Delivery) (ds : List Delivery) {q : Delivery} → newest d r ds ≡ some q → IsNewest r ds q
  unfolding newest
  newest-IsNewest r [] h = absurd (cc)
  newest-IsNewest r (x ∷ xs) {q} h = elim (Option-cases (newest d r xs)) [
    | inl e ↦
        let same : x ≡ q = ground (arith, h, e) in
        ([], xs, ap (λ y. y ∷ xs) same, ground (arith, h, e), newest-none r xs e)
    | inr (last, e) ↦
        let (before, after, split, grouped, rest) =
          newest-IsNewest r xs {q = q} (ground (arith, h, e)) in
        (x ∷ before, after, ap (λ ys. x ∷ ys) split, grouped, rest)
  ]

  settled_head :
      (r : Delivery) (rs : List Delivery)
      → advances r (newest d r rs) ≡ true
      → any (supersedes r) rs ≡ true
  settled_head r rs h = elim (Option-cases (newest d r rs)) [
    | inl e ↦ absurd (ground (arith, h, e))
    | inr (q, e) ↦
        let (before, after, split, grouped, _) = newest-IsNewest r rs e in
        rw (split, any-append (supersedes r) before (q ∷ after))
          (ground (arith, h, e, grouped, Bool-cases (any (supersedes r) before)))
  ]

  pub settled_of : (ds : List Delivery) → first_unobserved d ds ≡ none → settled ds ≡ true
  unfolding first_unobserved
  settled_of [] h = refl
  settled_of (r ∷ rs) h = ground (arith, settled_of rs, settled_head r rs)

  -- The stored receipt of the slot, and the newest delivery of its group, which the worker observed.
  pub record IsAnswered (s : TaskControl) (binding : Option Binding) (slot : Slot) : Type 0 where
    pub receipt : Delivery
    pub latest : Delivery
    pub is_stored : find (names slot) s.peer_deliveries ≡ some receipt
    pub is_receipt : IsReceiptOf slot receipt
    pub is_newest : IsNewest receipt s.peer_deliveries latest
    pub was_observed : is_observed latest.state ≡ true
    pub is_standing : is_current s binding none latest ≡ true
    pub not_older : slot.source_work_revision ≤ latest.envelope.source_work_revision

  -- A slot that is given back, or whose obligation the worker has observed.
  abbrev pub IsHonoured : TaskControl → Option Binding → Slot → Type 0
  IsHonoured s binding slot =
      (is_released slot.state ≡ true) ⊎ (is_consumed slot.state ≡ true) × IsAnswered s binding slot

  answered :
      (s : TaskControl) (binding : Option Binding) (slot : Slot) (r : Delivery)
      → find (names slot) s.peer_deliveries ≡ some r
      → receipt_issue d s binding none s.peer_deliveries slot (some r) ≡ none
      → IsAnswered s binding slot
  answered s binding slot r found h = elim (Option-cases (newest d r s.peer_deliveries)) [
    | inl e ↦ absurd (ground (arith, h, e))
    | inr (q, e) ↦ record {
      receipt = r;
      latest = q;
      is_stored = found;
      is_receipt =
          fits_slot-IsReceiptOf slot r (find-pass (names slot) s.peer_deliveries r found)
            (ground (arith, h));
      is_newest = newest-IsNewest r s.peer_deliveries e;
      was_observed = ground (arith, h, e);
      is_standing = ground (arith, h, e);
      not_older = ground (arith, h, e);
    }
  ]

  slot-IsHonoured_of :
      (s : TaskControl) (binding : Option Binding) (slot : Slot)
      → slot_issue d s binding none s.peer_deliveries slot ≡ none
      → IsHonoured s binding slot
  unfolding slot_issue
  slot-IsHonoured_of s binding slot h = elim (slot_state_cases slot.state) [
    | inl e ↦ inl (ground (arith, e))
    | inr (inl e) ↦ absurd (ground (arith, h, e))
    | inr (inr e) ↦ elim (Option-cases (find (names slot) s.peer_deliveries)) [
      | inl gone ↦ absurd (ground (arith, h, e, gone))
      | inr (r, found) ↦
          inr (ground (arith, e), answered s binding slot r found (ground (arith, h, e, found)))
    ]
  ]

  pub slots-IsHonoured_of :
      (s : TaskControl) (binding : Option Binding) (slots : List Slot)
      → first_slot_issue d s binding none s.peer_deliveries slots ≡ none
      → All (IsHonoured s binding) slots
  unfolding first_slot_issue
  slots-IsHonoured_of s binding [] h = tt
  slots-IsHonoured_of s binding (slot ∷ slots) h =
      elim (Option-cases (slot_issue d s binding none s.peer_deliveries slot)) [
        | inl e ↦ (
          slot-IsHonoured_of s binding slot e,
          slots-IsHonoured_of s binding slots (ground (arith, h, e)),
        )
        | inr (issue, e) ↦ absurd (ground (arith, e))
      ]
