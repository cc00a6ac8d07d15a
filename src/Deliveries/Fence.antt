-- ===== src/Deliveries/Fence.antt =====
-- src/core/coordinator.ts, `next` of the worker's port: one delivery is handed to the worker once.
use passeur.Base.{
  peer_delivery_turn_pending, ◌==◌, throw_if-eq-ok, ok, update_first, Option-cases, ◌≢◌, ◌≡◌, ◌∷◌,
  ◌∙◌, ◌&&◌, ℕ, true, str_eq_refl, str_eq, some, refl, not, inr, inl, find, false, eq_of_str_eq,
  contains, arith, ap, any, [], String, List, Distinct, Bool-cases, Bool,
}
use passeur.Contracts.Peer.{Envelope, is_queued, Delivery}
use passeur.Deliveries.History.{DeliveryStep}
use passeur.Deliveries.Once.{DeliveryStep-Follows}
use passeur.Control.Digests.{Digests}
use passeur.Deliveries.Moves.{Follows-trans, Follows-refl, Follows}
use passeur.Contracts.Task.{TaskControl}
use passeur.Contracts.Valid.{delivery_keys}
use passeur.Deliveries.Receipts.{has_idempotency_key}
use passeur.Deliveries.Binding.{immutable_envelope, Validity}
use passeur.Deliveries.Dispatch.{
  dispatch_head, dispatch, hand, with_head, turn_pending, queue_head, intend, dispatch_draft,
}
use passeur.Control.Commit.Laws.{commit_of_draft, change-eq-ok, NoCollision}

pub data DeliveryReach (d : Digests) (max_receipts : ℕ) (byte_length : String → ℕ)
    (has_zero : String → Bool) (s : TaskControl) : TaskControl → Type 0 where
  start : DeliveryReach d max_receipts byte_length has_zero s s
  onward :
      {t u : TaskControl}
      → DeliveryReach d max_receipts byte_length has_zero s t
      → DeliveryStep d max_receipts byte_length has_zero t u
      → DeliveryReach d max_receipts byte_length has_zero s u

pub DeliveryReach-Follows :
    {d : Digests} {max_receipts : ℕ} {byte_length : String → ℕ} {has_zero : String → Bool}
    {s t : TaskControl}
    → DeliveryReach d max_receipts byte_length has_zero s t
    → Follows s.peer_deliveries t.peer_deliveries
DeliveryReach-Follows {s = s} start = Follows-refl s.peer_deliveries
DeliveryReach-Follows {d} {max_receipts} {byte_length} {has_zero} {s} {t} (onward {t = u} r st) =
    Follows-trans s.peer_deliveries u.peer_deliveries t.peer_deliveries (DeliveryReach-Follows r)
      (DeliveryStep-Follows d max_receipts byte_length has_zero st)

-- A delivery of this key has left the queue.
abbrev is_out : String → Delivery → Bool
is_out key r = has_idempotency_key key r && not (is_queued r.state)

any_of_found :
    (p q : Delivery → Bool) (rs : List Delivery) (r : Delivery)
    → find p rs ≡ some r
    → q r ≡ true
    → any q rs ≡ true
any_of_found p q [] r found h = cc
any_of_found p q (x ∷ rs) r found h = elim (Bool-cases (p x)) [
  | inl e ↦
      let x_is : x ≡ r = ground (arith, e, found) in
      let at_x : q x ≡ true = rw x_is h in rw at_x refl
  | inr e ↦ ground (arith, e, found, h, any_of_found p q rs r)
]

-- The first delivery that passes a test is out once it is made an intent.
intended-out :
    (now : ℕ) (p : Delivery → Bool) (rs : List Delivery) (r : Delivery)
    → find p rs ≡ some r
    → any (is_out r.envelope.idempotency_key) (update_first p (intend now) rs) ≡ true
intended-out now p [] r found = cc
intended-out now p (x ∷ rs) r found = elim (Bool-cases (p x)) [
  | inl e ↦
      let x_is : x ≡ r = ground (arith, e, found) in
      rw (e, x_is, str_eq_refl r.envelope.idempotency_key) refl
  | inr e ↦
      let rest : find p rs ≡ some r = ground (arith, e, found) in
      let later = intended-out now p rs r rest in ground (arith, e, later)
]

module _ (key : String) where
  out-Follows :
      (rs qs : List Delivery)
      → Follows rs qs
      → any (is_out key) rs ≡ true
      → any (is_out key) qs ≡ true
  out-Follows [] qs f h = cc
  out-Follows (r ∷ rs) [] f h = elim f [ ]
  out-Follows (r ∷ rs) (q ∷ qs) ((same, moved), f) h = elim (Bool-cases (is_out key r)) [
    | inl e ↦
        let kept : is_queued q.state ≡ false = ground (arith, moved, e) in
        rw (same, kept) (ground (arith, e))
    | inr e ↦ ground (arith, e, out-Follows rs qs f)
  ]

  contains_of_key :
      (p : Delivery → Bool) (rs : List Delivery)
      → ((r : Delivery) → p r ≡ true → r.envelope.idempotency_key ≡ key)
      → any p rs ≡ true
      → contains key (delivery_keys rs) ≡ true
  contains_of_key p [] at h = cc
  contains_of_key p (r ∷ rs) at h = elim (Bool-cases (p r)) [
    | inl e ↦ rw (at r e, str_eq_refl key) refl
    | inr e ↦ ground (arith, e, contains_of_key p rs at)
  ]

  -- No two deliveries of one key, so none of it is queued if one is out.
  no_clash :
      (rs : List Delivery) (r : Delivery)
      → Distinct (delivery_keys rs)
      → any (is_out key) rs ≡ true
      → find (λ q. is_queued q.state) rs ≡ some r
      → r.envelope.idempotency_key ≢ key
  no_clash [] r apart out found same = cc
  no_clash (x ∷ rs) r (fresh, apart) out found same = elim (Bool-cases (is_queued x.state)) [
    | inl e ↦
        let x_is : x ≡ r = ground (arith, e, found) in
        let later : any (is_out key) rs ≡ true = ground (arith, e, out) in
        let held =
          contains_of_key (is_out key) rs
            (λ q k. eq_of_str_eq q.envelope.idempotency_key key (ground (arith, k))) later in
        absurd (
          ground
            (arith, fresh, held, ap (λ (q : Delivery). q.envelope.idempotency_key) x_is ∙ same))
    | inr e ↦
        let rest : find (λ q. is_queued q.state) rs ≡ some r = ground (arith, e, found) in
        elim (Bool-cases (is_out key x)) [
          | inr k ↦ no_clash rs r apart (ground (arith, k, out)) rest same
          | inl k ↦
              let x_key : x.envelope.idempotency_key ≡ key = eq_of_str_eq _ _ (ground (arith, k)) in
              let held =
                contains_of_key (λ q. str_eq q.envelope.idempotency_key key) rs
                  (λ q k'. eq_of_str_eq _ _ k')
                  (any_of_found (λ q. is_queued q.state)
                    (λ q. str_eq q.envelope.idempotency_key key) rs r rest
                    (rw (same, str_eq_refl key) refl)) in
              absurd (ground (arith, fresh, held, x_key))
        ]
  ]

module _ (d : Digests) (s : TaskControl) where
  head_handed :
      (now : ℕ) (validity : Validity) (r : Delivery) {e : Envelope} {t : TaskControl}
      → dispatch_head d now validity r s ≡ ok (hand e, t)
      → (validity ≡ Validity.current)
        × (turn_pending s ≡ false)
        × (e ≡ r.envelope)
        × (t ≡ with_head (intend now) s)
  unfolding immutable_envelope
  head_handed now Validity.current r h =
      let (settled, k) = throw_if-eq-ok (turn_pending s) peer_delivery_turn_pending _ h in
      (refl, settled, ground (arith, k), ground (arith, k))
  head_handed now Validity.stale r h = cc
  head_handed now Validity.revoked r h = cc
  head_handed now Validity.cancelled r h = cc
  head_handed now Validity.replaced r h = cc

  -- An attempt that hands an envelope out found its delivery at the head of the queue.
  dispatch_draft-handed :
      (now revision : ℕ) (head : Delivery) (validity : Validity) {e : Envelope} {t : TaskControl}
      → dispatch_draft d now revision head validity s ≡ ok (hand e, t)
      → (validity ≡ Validity.current)
        × (turn_pending s ≡ false)
        × (r : Delivery) × (queue_head s ≡ some r)
        × (e ≡ r.envelope)
        × (t ≡ with_head (intend now) s)
  unfolding dispatch_draft
  dispatch_draft-handed now revision head validity {e} {t} h = elim (Option-cases (queue_head s)) [
    | inl empty ↦ absurd (ground (arith, empty))
    | inr (r, found) ↦ elim (Bool-cases (s.revision == revision)) [
      | inr stale ↦ absurd (ground (arith, stale))
      | inl at ↦ elim (Bool-cases (str_eq r.envelope.delivery_id head.envelope.delivery_id)) [
        | inr other ↦ absurd (ground (arith, at, found, other))
        | inl same ↦
            let (live, settled, handed, left) =
              head_handed now validity r {e = e} {t = t} (rw (at, found, same) at h) in
            (live, settled, r, found, handed, left)
      ]
    ]
  ]

module _ (d : Digests) (max_receipts : ℕ) (byte_length : String → ℕ)
    (has_zero : String → Bool) where
  -- After an attempt that hands a delivery's envelope to the worker's adapter, no later attempt
  -- hands out a delivery of that idempotency key, whatever attempts to queue, hand out, withhold and
  -- acknowledge deliveries, notes of lost events, cancellations, settlements of a result and
  -- reconciliations come between, if the later record has each key once and the digests around the
  -- first attempt do not collide. The first one was made with the validity `current`, and found the
  -- native turn settled.
  pub dispatch_once :
      (now revision : ℕ) (head : Delivery) (validity : Validity) (s : TaskControl) {e : Envelope}
      {t u : TaskControl}
      → NoCollision d s (with_head (intend now) s)
      → dispatch d now revision head validity s ≡ ok (hand e, t)
      → DeliveryReach d max_receipts byte_length has_zero t u
      → Distinct (delivery_keys u.peer_deliveries)
      → (later revision' : ℕ) (head' : Delivery) (validity' : Validity) {e' : Envelope}
        {v : TaskControl}
      → dispatch d later revision' head' validity' u ≡ ok (hand e', v)
      → (validity ≡ Validity.current)
        × (turn_pending s ≡ false)
        × (e'.idempotency_key ≢ e.idempotency_key)
  unfolding dispatch
  dispatch_once now revision head validity s {e} {t} {u} apart h r distinct_keys later revision'
        head' validity' {e'} {v} h' =
      let (draft, k, stored) =
        change-eq-ok d now (dispatch_draft d now revision head validity) s h in
      let (live, settled, x, found, handed, left) =
        dispatch_draft-handed d s now revision head validity {e = e} {t = draft} k in
      let key = x.envelope.idempotency_key in
      let at_once = intended-out now (λ q. is_queued q.state) s.peer_deliveries x found in
      let out : any (is_out key) t.peer_deliveries ≡ true =
        rw (stored, left)
          (commit_of_draft d now s (with_head (intend now) s)
            (λ w. any (is_out key) w.peer_deliveries ≡ true) (λ _ _. at_once) at_once apart) in
      let still =
        out-Follows key t.peer_deliveries u.peer_deliveries (DeliveryReach-Follows r) out in
      let (draft', k', _) =
        change-eq-ok d later (dispatch_draft d later revision' head' validity') u h' in
      let (_, _, y, found', handed', _) =
        dispatch_draft-handed d u later revision' head' validity' {e = e'} {t = draft'} k' in
      (
        live,
        settled,
        rw (handed, handed') (no_clash key u.peer_deliveries y distinct_keys still found'),
      )
