-- ===== src/Slots/Claims.antt =====
-- src/core/coordinator.ts, `reservePeerDeliverySlots`: what a reservation claims.
use passeur.Slots.Reserve.{reserve_each, reserve_one, is_slot, wanted_slot}
use mathlib.Core.List.{append-nil, append_assoc}
use passeur.Base.{
  ap, all-append, >>=-eq-ok, ◌∙◌, sym, find-append_none, ok, ◌⊎◌, ◌≤◌, ◌≡◌, ◌∷◌, ◌<◌, ◌+◌, ◌++◌,
  ◌&&◌, ℕ, true, str_eq_refl, str_eq, some, refl, not, none, inr, inl, find-append_some, find,
  false, arith, all, [], Option-cases, List, Bool,
}
use passeur.Contracts.Peer.{
  max_peer_deliveries, is_reserved, is_released, Slot, BundleSource, Bundle,
}
use passeur.Control.Digests.{Digests}
use passeur.Contracts.Valid.{reserved_count}

module _ (d : Digests) (b : Bundle) where
  -- The slot that the lookup of this source finds is the one that the bundle asks for, and stands.
  abbrev pub is_claimed : List Slot → BundleSource → Bool
  is_claimed slots source = elim (find (is_slot b.operation_key source.work_id) slots) [
    | none ↦ false
    | some prior ↦
        str_eq (d.slot prior.identity) (d.slot (wanted_slot b source).identity)
        && not (is_released prior.state)
  ]

  abbrev pub is_new : Slot → Bool
  is_new slot = is_reserved slot.state && str_eq slot.operation_key b.operation_key

  claimed-append :
      (slots more : List Slot) (source : BundleSource)
      → is_claimed slots source ≡ true
      → is_claimed (slots ++ more) source ≡ true
  claimed-append slots more source h =
      elim (Option-cases (find (is_slot b.operation_key source.work_id) slots)) [
        | inl e ↦ absurd (ground (arith, e))
        | inr (prior, e) ↦
            ground (
              arith,
              e,
              find-append_some (is_slot b.operation_key source.work_id) slots more prior e,
            )
      ]

  reserve_one-cases :
      (held : ℕ) (slots : List Slot) (source : BundleSource) {more : List Slot}
      → reserve_one d held b slots source ≡ ok more
      → ((more ≡ slots) × (is_claimed slots source ≡ true))
        ⊎ ((find (is_slot b.operation_key source.work_id) slots ≡ none)
            × (more ≡ slots ++ wanted_slot b source ∷ [])
            × (held + reserved_count slots < max_peer_deliveries))
  unfolding reserve_one
  reserve_one-cases held slots source h =
      elim (Option-cases (find (is_slot b.operation_key source.work_id) slots)) [
        | inl e ↦ inr (e, ground (arith, e), ground (arith, e))
        | inr (prior, e) ↦ inl (ground (arith, e), ground (arith, e))
      ]

  reserved_count-append :
      (slots more : List Slot)
      → reserved_count (slots ++ more) ≡ reserved_count slots + reserved_count more
  reserved_count-append [] more = omega arith
  reserved_count-append (x ∷ slots) more = ground (arith, reserved_count-append slots more)

  claimed_anew :
      (slots : List Slot) (source : BundleSource)
      → find (is_slot b.operation_key source.work_id) slots ≡ none
      → is_claimed (slots ++ wanted_slot b source ∷ []) source ≡ true
  claimed_anew slots source fresh =
      let p = is_slot b.operation_key source.work_id in
      let wanted = wanted_slot b source in
      let found : find p (slots ++ wanted ∷ []) ≡ some wanted =
        find-append_none p slots (wanted ∷ []) fresh
        ∙ rw (str_eq_refl b.operation_key, str_eq_refl source.work_id) refl in
      ground (arith, found, str_eq_refl (d.slot wanted.identity))

  -- What a run over some sources adds.
  pub record Claims (held : ℕ) (slots : List Slot) (sources : List BundleSource) (more : List Slot)
      : Type 0 where
    pub added : List Slot
    pub extends : more ≡ slots ++ added
    pub all_new : all is_new added ≡ true
    pub all_claimed : all (is_claimed more) sources ≡ true
    pub fits :
        held + reserved_count slots ≤ max_peer_deliveries
        → held + reserved_count more ≤ max_peer_deliveries

  first-Claims :
      (held : ℕ) (slots : List Slot) (source : BundleSource) {more : List Slot}
      → reserve_one d held b slots source ≡ ok more
      → Claims held slots (source ∷ []) more
  first-Claims held slots source {more} h = elim (reserve_one-cases held slots source h) [
    | inl (same, claimed) ↦ record {
      added = [];
      extends = same ∙ sym (append-nil slots);
      all_new = refl;
      all_claimed = rw same (ground (arith, claimed));
      fits = rw same (λ k. k);
    }
    | inr (fresh, grown, room) ↦ record {
      added = wanted_slot b source ∷ [];
      extends = grown;
      all_new = ground (arith, str_eq_refl b.operation_key);
      all_claimed = rw grown (ground (arith, claimed_anew slots source fresh));
      fits =
          rw (grown, reserved_count-append slots (wanted_slot b source ∷ []))
            (λ k. omega (arith, room));
    }
  ]

  Claims-then :
      (held : ℕ) (slots : List Slot) (source : BundleSource) (sources : List BundleSource)
      {mid more : List Slot}
      → Claims held slots (source ∷ []) mid
      → Claims held mid sources more
      → Claims held slots (source ∷ sources) more
  Claims-then held slots source sources {mid} {more} c k = record {
    added = c.added ++ k.added;
    extends = k.extends ∙ ap (λ xs. xs ++ k.added) c.extends ∙ append_assoc slots c.added k.added;
    all_new = rw (all-append is_new c.added k.added, c.all_new) k.all_new;
    all_claimed =
        let now : is_claimed mid source ≡ true = ground (arith, c.all_claimed) in
        let still : is_claimed more source ≡ true =
          rw k.extends (claimed-append mid k.added source now) in
        rw still k.all_claimed;
    fits = λ room. k.fits (c.fits room);
  }

  pub reserve_each-Claims :
      (held : ℕ) (slots : List Slot) (sources : List BundleSource) {more : List Slot}
      → reserve_each d held b slots sources ≡ ok more
      → Claims held slots sources more
  unfolding reserve_each
  reserve_each-Claims held slots [] {more} h =
      let same : more ≡ slots = ground arith in
      record {
        added = [];
        extends = same ∙ sym (append-nil slots);
        all_new = refl;
        all_claimed = refl;
        fits = rw same (λ room. room);
      }
  reserve_each-Claims held slots (source ∷ sources) h =
      let (mid, e, k) = >>=-eq-ok (reserve_one d held b slots source) _ h in
      Claims-then held slots source sources (first-Claims held slots source e)
        (reserve_each-Claims held mid sources k)

  -- A run over sources that are claimed already changes nothing.
  pub reserve_again :
      (held : ℕ) (slots : List Slot) (sources : List BundleSource)
      → all (is_claimed slots) sources ≡ true
      → reserve_each d held b slots sources ≡ ok slots
  unfolding reserve_each reserve_one
  reserve_again held slots [] h = refl
  reserve_again held slots (source ∷ sources) h =
      elim (Option-cases (find (is_slot b.operation_key source.work_id) slots)) [
        | inl e ↦ absurd (ground (arith, e))
        | inr (prior, e) ↦ ground (arith, e, reserve_again held slots sources)
      ]
