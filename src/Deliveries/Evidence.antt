-- ===== src/Deliveries/Evidence.antt =====
-- src/core/coordinator.ts, `#acceptPeerReceipt`: what an accepted receipt attests.
use passeur.Base.{
  sym, subst, Option, ◌⊎◌, ◌≡◌, ◌∷◌, ◌==◌, ◌&&◌, ℕ, update_first, true, str_eq_refl, some, refl,
  none, inr, inl, find, false, arith, [], String, Option-cases, List, Bool-cases, Bool,
}
use passeur.Contracts.Peer.{Delivery}
use passeur.Control.Digests.{Digests}
use passeur.Deliveries.Receipts.{
  Receipt, with_delivery, stamp, same_receipt, same_native, reached, has_idempotency_key,
  fits_target, current_receipt, awaits, accept_draft, Target,
}
use passeur.Contracts.Task.{TaskControl}
use passeur.Deliveries.Binding.{Validity}

module _ (d : Digests) (byte_length : String → ℕ) (has_zero : String → Bool) (now : ℕ)
    (key turn session : String) (s : TaskControl) where
  -- The delivery of this key has this receipt's state, turn and session.
  abbrev pub is_attested : Target → TaskControl → Bool
  is_attested target t = elim (find (has_idempotency_key key) t.peer_deliveries) [
    | none ↦ false
    | some r ↦ reached target r.state && same_receipt turn session r
  ]

  stamped-attested :
      (target : Target) (rs : List Delivery) (r : Delivery)
      → find (has_idempotency_key key) rs ≡ some r
      → find
          (has_idempotency_key key)
          (update_first (has_idempotency_key key) (stamp now target turn session) rs)
        ≡ some (stamp now target turn session r)
  stamped-attested target [] r h = cc
  stamped-attested Target.delivered (x ∷ rs) r h = elim (Bool-cases (has_idempotency_key key x)) [
    | inl e ↦ ground (arith, e)
    | inr e ↦ ground (arith, e, stamped-attested Target.delivered rs r)
  ]
  stamped-attested Target.observed (x ∷ rs) r h = elim (Bool-cases (has_idempotency_key key x)) [
    | inl e ↦ ground (arith, e)
    | inr e ↦ ground (arith, e, stamped-attested Target.observed rs r)
  ]

  attested_of :
      (target : Target) (rs : List Delivery) (r : Delivery)
      → find (has_idempotency_key key) rs ≡ some r
      → (reached target r.state && same_receipt turn session r) ≡ true
      → is_attested target (record s { peer_deliveries = rs }) ≡ true
  attested_of target rs r found h =
      subst
        (λ (o : Option Delivery).
          elim o [ none ↦ false | some q ↦ reached target q.state && same_receipt turn session q ]
          ≡ true)
        (sym found) h

  stamp-reached :
      (target : Target) (r : Delivery)
      → (reached target (stamp now target turn session r).state
          && same_receipt turn session (stamp now target turn session r))
        ≡ true
  stamp-reached Target.delivered r = rw (str_eq_refl turn, str_eq_refl session) refl
  stamp-reached Target.observed r = rw (str_eq_refl turn, str_eq_refl session) refl

  current_receipt-attested :
      (target : Target) (r : Delivery) {t : TaskControl}
      → find (has_idempotency_key key) s.peer_deliveries ≡ some r
      → current_receipt d byte_length has_zero now key turn session target r s
        ≡ (Receipt.accepted, t)
      → (same_native turn session s ≡ true)
        × (is_attested target t ≡ true)
        × ((t ≡ s)
            ⊎ ((awaits target r.state ≡ true) × (fits_target target turn session s r ≡ true)))
  current_receipt-attested target r {t} found h =
      elim (Bool-cases
        (reached target r.state && same_receipt turn session r && same_native turn session s)) [
          | inl e ↦
              let same : t ≡ s = ground (arith, e) in
              (
                ground (arith, e),
                rw same (attested_of target s.peer_deliveries r found (ground (arith, e))),
                inl same,
              )
          | inr e ↦
              let left : t ≡ with_delivery key (stamp now target turn session) s =
                ground (arith, e) in
              let here = stamped-attested target s.peer_deliveries r found in
              (
                ground (arith, e),
                rw left (
                    attested_of target
                      (update_first (has_idempotency_key key) (stamp now target turn session)
                        s.peer_deliveries)
                      (stamp now target turn session r) here (stamp-reached target r)),
                inr (ground (arith, e), ground (arith, e)),
              )
        ]

  -- An accepted receipt was for a delivery with a current binding, names the native turn and session
  -- that the record has, and leaves the delivery with the receipt's state, turn and session. A
  -- receipt that is not a repeated one found the delivery awaiting it: an observation, a delivered
  -- one of the same turn and session, once that turn had settled without obligations.
  pub accept_draft-attested :
      (revision : ℕ) (target : Target) (binding : Validity) {t : TaskControl}
      → accept_draft d byte_length has_zero now revision key turn session target binding s
        ≡ (Receipt.accepted, t)
      → (binding ≡ Validity.current)
        × (same_native turn session s ≡ true)
        × (is_attested target t ≡ true)
        × ((t ≡ s)
            ⊎ (r : Delivery) × (find (has_idempotency_key key) s.peer_deliveries ≡ some r)
              × (awaits target r.state ≡ true)
              × (fits_target target turn session s r ≡ true))
  unfolding accept_draft
  accept_draft-attested revision target Validity.current {t} h =
      elim (Bool-cases (s.revision == revision)) [
        | inr e ↦ absurd (ground (arith, e))
        | inl e ↦ elim (Option-cases (find (has_idempotency_key key) s.peer_deliveries)) [
          | inl missing ↦ absurd (ground (arith, e, missing))
          | inr (r, found) ↦
              let (native, attested, how) =
                current_receipt-attested target r {t = t} found (rw (e, found) at h) in
              (
                refl,
                native,
                attested,
                elim how [ inl same ↦ inl same | inr (due, fits) ↦ inr (r, found, due, fits) ],
              )
        ]
      ]
  accept_draft-attested revision target Validity.stale h = absurd (ground arith)
  accept_draft-attested revision target Validity.revoked h = absurd (ground arith)
  accept_draft-attested revision target Validity.cancelled h = absurd (ground arith)
  accept_draft-attested revision target Validity.replaced h = absurd (ground arith)
