-- ===== src/Slots/Laws.antt =====
-- src/core/coordinator.ts, `reservePeerDeliverySlots`: all or nothing, within capacity, and once.
use passeur.Slots.Claims.{is_claimed, reserve_each-Claims, reserve_again, is_new}
use passeur.Base.{
  ok, ◌≤◌, ◌≡◌, ◌∷◌, ◌+◌, ◌++◌, true, throw_if-eq-ok, some, refl, not, length, false, arith,
  any-append, any, all, [], Option, List, >>=-eq-ok,
}
use passeur.Contracts.Peer.{max_peer_deliveries, Slot, Bundle}
use passeur.Control.Digests.{Digests}
use passeur.Slots.Recipient.{Resource, Entry}
use passeur.Contracts.Task.{TaskControl}
use passeur.Slots.Reserve.{rivals, reserve_each, reserve_draft, accepts_slots}
use passeur.Completion.Peers.{reservations}
use passeur.Contracts.Valid.{reserved_count}

module _ (d : Digests) (b : Bundle) (entry : Option Entry) (resource : Option Resource) where
  reserve_draft-cases :
      (s : TaskControl) {t : TaskControl}
      → reserve_draft d b entry resource s ≡ ok (tt, t)
      → (accepts_slots d b entry resource s ≡ true)
        × (any (rivals b) (reservations s) ≡ false)
        × (more : List Slot) × (reserve_each d
              (length s.peer_deliveries)
              b
              (reservations s)
              b.sources
            ≡ ok more)
        × (t ≡ record s { peer_delivery_reservations = some more })
  unfolding reserve_draft
  reserve_draft-cases s h =
      let (live, k) = throw_if-eq-ok (not (accepts_slots d b entry resource s)) _ _ h in
      let (alone, k') = throw_if-eq-ok (any (rivals b) (reservations s)) _ _ k in
      let (more, e, k'') =
        >>=-eq-ok (reserve_each d (length s.peer_deliveries) b (reservations s) b.sources) _ k' in
      (ground (arith, live), alone, more, e, ground (arith, k''))

  -- A reservation that returns claims a slot for every source that the bundle names, leaves the
  -- slots that stood before in place, and stays within the recipient's capacity if it was before.
  pub reserve_draft-claimed :
      (s : TaskControl) {t : TaskControl}
      → reserve_draft d b entry resource s ≡ ok (tt, t)
      → (all (is_claimed d b (reservations t)) b.sources ≡ true)
        × ((added : List Slot) × (reservations t ≡ reservations s ++ added)
            × (all (is_new d b) added ≡ true))
        × (length s.peer_deliveries + reserved_count (reservations s) ≤ max_peer_deliveries
            → length t.peer_deliveries + reserved_count (reservations t) ≤ max_peer_deliveries)
  reserve_draft-claimed s h =
      let (_, _, more, e, k) = reserve_draft-cases s h in
      let c = reserve_each-Claims d b (length s.peer_deliveries) (reservations s) b.sources e in
      rw k (c.all_claimed, (c.added, c.extends, c.all_new), c.fits)

  new_no_rival : (added : List Slot) → all (is_new d b) added ≡ true → any (rivals b) added ≡ false
  new_no_rival [] h = refl
  new_no_rival (slot ∷ added) h = ground (arith, new_no_rival added)

  -- A reservation that is repeated with the same bundle, while the recipient's entry and resource
  -- stand, returns and leaves the record as the first one did.
  pub reserve_draft-again :
      (s : TaskControl) {t : TaskControl}
      → reserve_draft d b entry resource s ≡ ok (tt, t)
      → reserve_draft d b entry resource t ≡ ok (tt, t)
  unfolding reserve_draft
  reserve_draft-again s {t} h =
      let (live, alone, more, e, k) = reserve_draft-cases s h in
      let c = reserve_each-Claims d b (length s.peer_deliveries) (reservations s) b.sources e in
      let lone : any (rivals b) more ≡ false =
        rw (c.extends, any-append (rivals b) (reservations s) c.added, alone)
          (new_no_rival c.added c.all_new) in
      rw k (
        rw (live, lone, reserve_again d b (length s.peer_deliveries) more b.sources c.all_claimed)
          refl)
