-- ===== src/Deliveries/Moves.antt =====
-- src/contracts/peer-delivery.ts, the states of a delivery: what each may become.
use passeur.Base.{
  ◌≡◌, ◌∷◌, ◌∙◌, ◌++◌, update_first, true, some, refl, map, inr, inl, find, false, arith, [], List,
  Bool-cases, Bool,
}
use passeur.Contracts.Peer.{DeliveryState, Delivery}

-- From dispatch on there is no way back to the queue, and from a settled state none at all.
abbrev pub may_become : DeliveryState → DeliveryState → Bool
may_become DeliveryState.queued t = true
may_become DeliveryState.dispatch_intent DeliveryState.queued = false
may_become DeliveryState.dispatch_intent t = true
may_become DeliveryState.delivered DeliveryState.delivered = true
may_become DeliveryState.delivered DeliveryState.observed = true
may_become DeliveryState.delivered DeliveryState.unknown = true
may_become DeliveryState.observed DeliveryState.observed = true
may_become DeliveryState.stale DeliveryState.stale = true
may_become DeliveryState.revoked DeliveryState.revoked = true
may_become DeliveryState.cancelled DeliveryState.cancelled = true
may_become DeliveryState.replaced DeliveryState.replaced = true
may_become DeliveryState.unknown DeliveryState.unknown = true
may_become _ _ = false

pub may_become_refl : (s : DeliveryState) → may_become s s ≡ true
may_become_refl s = ground arith

may_become_trans :
    (s t u : DeliveryState) → may_become s t ≡ true → may_become t u ≡ true → may_become s u ≡ true
may_become_trans s t u h k = ground arith

-- The same evidence, in a state that it may become.
abbrev pub Moves : Delivery → Delivery → Type 0
Moves r q = (q.envelope ≡ r.envelope) × (may_become r.state q.state ≡ true)

-- The deliveries later are those before, each in its place, and some more at the end.
abbrev pub Follows : List Delivery → List Delivery → Type 0
Follows [] qs = Unit {0}
Follows (r ∷ rs) [] = ⊥
Follows (r ∷ rs) (q ∷ qs) = Moves r q × Follows rs qs

pub Follows-refl : (rs : List Delivery) → Follows rs rs
Follows-refl [] = tt
Follows-refl (r ∷ rs) = ((refl, may_become_refl r.state), Follows-refl rs)

pub Follows-trans : (rs qs ps : List Delivery) → Follows rs qs → Follows qs ps → Follows rs ps
Follows-trans [] qs ps h k = tt
Follows-trans (r ∷ rs) [] ps h k = elim h [ ]
Follows-trans (r ∷ rs) (q ∷ qs) [] h k = elim k [ ]
Follows-trans (r ∷ rs) (q ∷ qs) (p ∷ ps) ((e, m), h) ((e', m'), k) =
    ((e' ∙ e, may_become_trans r.state q.state p.state m m'), Follows-trans rs qs ps h k)

pub Follows-map :
    (f : Delivery → Delivery)
    → ((r : Delivery) → Moves r (f r))
    → (rs : List Delivery) → Follows rs (map f rs)
Follows-map f moves [] = tt
Follows-map f moves (r ∷ rs) = (moves r, Follows-map f moves rs)

pub Follows-update_first :
    (p : Delivery → Bool) (f : Delivery → Delivery) (rs : List Delivery)
    → ((r : Delivery) → find p rs ≡ some r → Moves r (f r))
    → Follows rs (update_first p f rs)
Follows-update_first p f [] moves = tt
Follows-update_first p f (r ∷ rs) moves = elim (Bool-cases (p r)) [
  | inl e ↦ rw e (moves r (rw e refl), Follows-refl rs)
  | inr e ↦ rw e (
    (refl, may_become_refl r.state),
    Follows-update_first p f rs (λ q found. moves q (rw e found)),
  )
]

pub Follows-append : (rs more : List Delivery) → Follows rs (rs ++ more)
Follows-append [] more = tt
Follows-append (r ∷ rs) more = ((refl, may_become_refl r.state), Follows-append rs more)
