-- ===== src/Deliveries/Capacity.antt =====
-- src/core/coordinator.ts, `queuePeerDelivery`: the recipient's capacity.
use passeur.Base.{
  peer_delivery_stale, peer_delivery_cancelled, ◌==◌, throw_if-eq-ok, str_eq, ok, ◌≤◌, ◌≡◌, ◌∷◌,
  ◌+◌, ◌&&◌, ℕ, update_first, suc, some, refl, not, none, length-append, length, leb, is_some, inr,
  inl, find, false, arith, [], String, Option-cases, Option, List, Bool-cases,
}
use passeur.Contracts.Peer.{Source, max_peer_deliveries, Slot, Envelope, Delivery}
use passeur.Control.Digests.{Digests}
use passeur.Deliveries.Queue.{
  validity_code, repeat_queue, queue_valued, queue_draft, queue, with_queued, is_reserved_for,
  fresh_delivery, consume, admit_new, Queued,
}
use passeur.Contracts.Task.{TaskControl}
use passeur.Deliveries.History.{admit_new-cases}
use passeur.Completion.Peers.{reservations}
use passeur.Contracts.Valid.{reserved_count}
use passeur.Deliveries.Binding.{is_done, is_current_validity, immutable_envelope, Validity}
use passeur.Control.Commit.Laws.{commit_cases, change-eq-ok}

module _ (e : Envelope) where
  -- A consumed slot frees the place that its delivery takes.
  consume-reserved_count :
      (slots : List Slot) (slot : Slot)
      → find (is_reserved_for e) slots ≡ some slot
      → suc (reserved_count (update_first (is_reserved_for e) (consume e.delivery_id) slots))
        ≡ reserved_count slots
  consume-reserved_count [] slot h = cc
  consume-reserved_count (x ∷ slots) slot h = elim (Bool-cases (is_reserved_for e x)) [
    | inl k ↦ ground (arith, k)
    | inr k ↦ ground (arith, k, consume-reserved_count slots slot)
  ]

  spare-reserved_count :
      (slots : List Slot)
      → find (is_reserved_for e) slots ≡ none
      → reserved_count (update_first (is_reserved_for e) (consume e.delivery_id) slots)
        ≡ reserved_count slots
  spare-reserved_count [] h = refl
  spare-reserved_count (x ∷ slots) h = elim (Bool-cases (is_reserved_for e x)) [
    | inl k ↦ absurd (ground (arith, k))
    | inr k ↦ ground (arith, k, spare-reserved_count slots)
  ]

-- Deliveries that are retained, and places that are reserved.
abbrev pub load : List Delivery → List Slot → ℕ
load ds slots = length ds + reserved_count slots

module _ (d : Digests) (now : ℕ) (s : TaskControl) where
  reservations-queued :
      (e : Envelope)
      → reservations (with_queued now e s)
        ≡ update_first (is_reserved_for e) (consume e.delivery_id) (reservations s)
  reservations-queued e = elim (Option-cases s.peer_delivery_reservations) [
    | inl none_yet ↦ rw none_yet refl
    | inr (slots, held) ↦ rw held refl
  ]

  admit_new-room :
      (key : Option String) (e : Envelope) {q : Queued} {t : TaskControl}
      → admit_new d now key e s ≡ ok (q, t)
      → (leb max_peer_deliveries (length s.peer_deliveries + reserved_count (reservations s))
          && not (is_some (find (is_reserved_for e) (reservations s))))
        ≡ false
  unfolding admit_new
  admit_new-room key e h = ground arith

  admit_new-fits :
      (key : Option String) (e : Envelope) {q : Queued} {t : TaskControl}
      → admit_new d now key e s ≡ ok (q, t)
      → load s.peer_deliveries (reservations s) ≤ max_peer_deliveries
      → load t.peer_deliveries (reservations t) ≤ max_peer_deliveries
  admit_new-fits key e {q} {t} h room =
      let grown = admit_new-cases d now s key e {q = q} {t = t} h in
      let longer = length-append s.peer_deliveries (fresh_delivery now e ∷ []) in
      let open_room = admit_new-room key e {q = q} {t = t} h in
      rw (grown, reservations-queued e, longer)
        (elim (Option-cases (find (is_reserved_for e) (reservations s))) [
          | inl spare ↦
              let same = spare-reserved_count e (reservations s) spare in
              rw same (ground (arith, open_room, spare))
          | inr (slot, found) ↦
              let fewer = consume-reserved_count e (reservations s) slot found in
              omega (arith, fewer, room)
        ])

  -- The recipient's capacity holds of a record.
  abbrev pub Fits : TaskControl → Type 0
  Fits t = load t.peer_deliveries (reservations t) ≤ max_peer_deliveries

  queue_valued-Fits :
      (source : Source) (key : Option String) (candidate : Option Envelope) (validity : Validity)
      {q : Queued} {t : TaskControl}
      → Fits s
      → queue_valued d now source key candidate validity s ≡ ok (q, t)
      → Fits t
  unfolding immutable_envelope
  queue_valued-Fits source key none validity room h = cc
  queue_valued-Fits source key (some e) validity {q} {t} room h =
      let (_, k) =
        throw_if-eq-ok (not (is_current_validity validity)) (validity_code validity) _ h in
      elim (Option-cases
        (find (λ r. str_eq r.envelope.idempotency_key source.idempotency_key) s.peer_deliveries)) [
          | inl fresh ↦ admit_new-fits key e {q = q} {t = t} (rw fresh at k) room
          | inr (prior, found) ↦
              let again : repeat_queue d source prior s ≡ ok (q, t) = rw found at k in
              let same : t ≡ s = ground (arith, again) in rw same room
        ]

  queue_draft-Fits :
      (revision : ℕ) (source : Source) (key : Option String) (candidate : Option Envelope)
      (validity : Validity) {q : Queued} {t : TaskControl}
      → Fits s
      → queue_draft d now revision source key candidate validity s ≡ ok (q, t)
      → Fits t
  unfolding queue_draft
  queue_draft-Fits revision source key candidate validity {q} {t} room h =
      elim (Bool-cases (s.revision == revision)) [
        | inr e ↦ let same : t ≡ s = ground (arith, e) in rw same room
        | inl e ↦
            let (_, k) =
              throw_if-eq-ok (is_some s.cancellation) peer_delivery_cancelled _ (rw e at h) in
            let (_, k') = throw_if-eq-ok (is_done s) peer_delivery_stale _ k in
            queue_valued-Fits source key candidate validity {q = q} {t = t} room k'
      ]

  -- An attempt to queue that returns keeps the deliveries that are retained and the slots that are
  -- reserved, together, within the recipient's capacity, whether it consumes a slot or not.
  pub queue-Fits :
      (revision : ℕ) (source : Source) (key : Option String) (candidate : Option Envelope)
      (validity : Validity) {q : Queued} {t : TaskControl}
      → Fits s
      → queue d now revision source key candidate validity s ≡ ok (q, t)
      → Fits t
  unfolding queue
  queue-Fits revision source key candidate validity room h =
      let (draft, e, k) =
        change-eq-ok d now (queue_draft d now revision source key candidate validity) s h in
      let kept = queue_draft-Fits revision source key candidate validity {t = draft} room e in
      rw k (commit_cases d now s draft Fits room kept)
