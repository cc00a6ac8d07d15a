-- ===== src/Slots/Returns.antt =====
-- src/core/task-control.ts, `releasePeerDeliverySlotsInPublication`: what a release gives back.
use passeur.Slots.Release.{
  release_from, release_owned, release_each, release_draft, names_manifest, give_back, of_operation,
  release_one,
}
use passeur.Slots.Reserve.{is_slot, wanted_slot}
use passeur.Base.{
  peer_delivery_stale, peer_delivery_reservation_manifest, ok, ◌≢◌, ◌≡◌, ◌∷◌, ◌∙◌, ◌||◌, ◌&&◌,
  update_first, true, throw_if-eq-ok, subst, str_eq, some, refl, not, none, is_some, inr, inl, find,
  filter, false, arith, any, all, [], String, Option-cases, List, Bool-cases, Bool, >>=-eq-ok,
}
use passeur.Contracts.Peer.{is_released, Slot, BundleSource, Bundle}
use passeur.Control.Digests.{Digests}
use passeur.Contracts.Task.{is_terminal, is_finalizing, TaskControl}

filter_of_any : (p : Slot → Bool) (slots : List Slot) → any p slots ≡ true → filter p slots ≢ []
filter_of_any p [] h = cc
filter_of_any p (x ∷ slots) h = elim (Bool-cases (p x)) [
  | inl e ↦ ground (arith, e)
  | inr e ↦ ground (arith, e, filter_of_any p slots)
]

module _ (d : Digests) (b : Bundle) where
  -- The slot that the lookup of this source finds is the bundle's, and is released.
  abbrev pub is_given_back : List Slot → BundleSource → Bool
  is_given_back slots source = elim (find (is_slot b.operation_key source.work_id) slots) [
    | none ↦ false
    | some prior ↦
        str_eq (d.slot prior.identity) (d.slot (wanted_slot b source).identity)
        && is_released prior.state
  ]

  given_back-update :
      (p : Slot → Bool) (slots : List Slot) (source : BundleSource)
      → is_given_back slots source ≡ true
      → is_given_back (update_first p give_back slots) source ≡ true
  given_back-update p [] source h = h
  given_back-update p (x ∷ slots) source h =
      elim (Bool-cases (is_slot b.operation_key source.work_id x)) [
        | inl e ↦ ground (arith, e)
        | inr e ↦ ground (arith, e, given_back-update p slots source)
      ]

  given_back_anew :
      (slots : List Slot) (source : BundleSource) (prior : Slot)
      → find (is_slot b.operation_key source.work_id) slots ≡ some prior
      → str_eq (d.slot prior.identity) (d.slot (wanted_slot b source).identity) ≡ true
      → is_given_back (update_first (is_slot b.operation_key source.work_id) give_back slots) source
        ≡ true
  given_back_anew [] source prior found same = cc
  given_back_anew (x ∷ slots) source prior found same =
      elim (Bool-cases (is_slot b.operation_key source.work_id x)) [
        | inl e ↦ ground (arith, e)
        | inr e ↦ ground (arith, e, given_back_anew slots source prior)
      ]

  others-update :
      (work : String) (slots : List Slot)
      → filter
          (λ x. not (of_operation b x))
          (update_first (is_slot b.operation_key work) give_back slots)
        ≡ filter (λ x. not (of_operation b x)) slots
  others-update work [] = refl
  others-update work (x ∷ slots) = elim (Bool-cases (is_slot b.operation_key work x)) [
    | inl e ↦ ground (arith, e)
    | inr e ↦ ground (arith, e, others-update work slots)
  ]

  release_one-cases :
      (slots : List Slot) (source : BundleSource) {less : List Slot}
      → release_one d b slots source ≡ ok less
      → (less ≡ update_first (is_slot b.operation_key source.work_id) give_back slots)
        × (is_given_back less source ≡ true)
  unfolding release_one
  release_one-cases slots source {less} h =
      elim (Option-cases (find (is_slot b.operation_key source.work_id) slots)) [
        | inl e ↦ absurd (ground (arith, e))
        | inr (prior, e) ↦
            let updated : less
                ≡ update_first (is_slot b.operation_key source.work_id) give_back slots =
              ground (arith, e) in
            (updated, rw updated (given_back_anew slots source prior e (ground (arith, e))))
      ]

  given_back-later :
      (slots : List Slot) (sources : List BundleSource) (source : BundleSource) {less : List Slot}
      → is_given_back slots source ≡ true
      → release_each d b slots sources ≡ ok less
      → is_given_back less source ≡ true
  unfolding release_each
  given_back-later slots [] source h e = subst (λ u. is_given_back u source ≡ true) (ground arith) h
  given_back-later slots (x ∷ sources) source h e =
      let (mid, first, rest) = >>=-eq-ok (release_one d b slots x) _ e in
      given_back-later mid sources source
        (rw (release_one-cases slots x first).0
          (given_back-update (is_slot b.operation_key x.work_id) slots source h))
        rest

  release_each-given_back :
      (slots : List Slot) (sources : List BundleSource) {less : List Slot}
      → release_each d b slots sources ≡ ok less
      → (all (is_given_back less) sources ≡ true)
        × (filter (λ x. not (of_operation b x)) less ≡ filter (λ x. not (of_operation b x)) slots)
  unfolding release_each
  release_each-given_back slots [] {less} e =
      let same : slots ≡ less = ground arith in (refl, rw same refl)
  release_each-given_back slots (x ∷ sources) {less} e =
      let (mid, first, rest) = >>=-eq-ok (release_one d b slots x) _ e in
      let (updated, back) = release_one-cases slots x first in
      let (backs, others) = release_each-given_back mid sources rest in
      (
        rw (given_back-later mid sources x back rest) backs,
        others ∙ rw updated (others-update x.work_id slots),
      )

  owned_release :
      (s : TaskControl) (slots owned : List Slot) {t : TaskControl}
      → owned ≢ []
      → release_owned d b s slots owned ≡ ok (tt, t)
      → (less : List Slot) × (release_each d b slots b.sources ≡ ok less)
        × (t ≡ record s { peer_delivery_reservations = some less })
  owned_release s slots [] held h = absurd (held refl)
  owned_release s slots (slot ∷ owned) held h =
      let (_, k) =
        throw_if-eq-ok (not (names_manifest b (slot ∷ owned))) peer_delivery_reservation_manifest _
          h in
      let (less, e, k') = >>=-eq-ok (release_each d b slots b.sources) _ k in
      (less, e, ground (arith, k'))

  -- A release that returns, of an operation that holds a slot, gives back the slot of every source
  -- that the bundle names, and changes no slot of another operation and nothing else.
  pub release_draft-given_back :
      (s : TaskControl) (slots : List Slot) {t : TaskControl}
      → s.peer_delivery_reservations ≡ some slots
      → any (of_operation b) slots ≡ true
      → release_draft d b s ≡ ok (tt, t)
      → (less : List Slot) × (t ≡ record s { peer_delivery_reservations = some less })
        × (all (is_given_back less) b.sources ≡ true)
        × (filter (λ x. not (of_operation b x)) less ≡ filter (λ x. not (of_operation b x)) slots)
  unfolding release_draft
  release_draft-given_back s slots {t} held some_owned h =
      let (_, k) =
        throw_if-eq-ok (is_finalizing s.phase || is_terminal s.phase || is_some s.settled_outcome)
          peer_delivery_stale (release_owned d b s slots (filter (of_operation b) slots))
          (subst (λ u. release_from d b s u ≡ ok (tt, t)) held h) in
      let (less, e, same) =
        owned_release s slots (filter (of_operation b) slots)
          (filter_of_any (of_operation b) slots some_owned) k in
      let (backs, others) = release_each-given_back slots b.sources e in (less, same, backs, others)
