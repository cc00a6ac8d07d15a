-- ===== src/Service/Room.antt =====
-- src/service/request-capacity.ts: the lanes of a connection do not take each other's room.
use passeur.Service.Requests.{
  is_lane, ends_authority, coordination_request_lane, connection_ordinary_requests,
  connection_control_requests, bound_of, assert_request_capacity, RequestLane, CoordinationRequest,
}
use passeur.Base.{refl, filter, ok, ◌≤◌, ◌≡◌, ◌∷◌, ◌++◌, count-append, count, arith, [], List}
use passeur.Coordination.State.Commands.{Request}

-- The pending requests of one connection: one comes after it was asserted, any one may end.
pub data Pending : List RequestLane → Type 0 where
  none_pending : Pending []
  came :
      {pending : List RequestLane} (lane : RequestLane)
      → Pending pending
      → assert_request_capacity pending lane ≡ ok tt
      → Pending (lane ∷ pending)
  gone :
      (lane : RequestLane) (before after : List RequestLane)
      → Pending (before ++ lane ∷ after)
      → Pending (before ++ after)

within :
    (pending : List RequestLane)
    → Pending pending
    → (lane : RequestLane) → count (is_lane lane) pending ≤ bound_of lane
unfolding assert_request_capacity
within _ Pending.none_pending RequestLane.ordinary = omega arith
within _ Pending.none_pending RequestLane.control = omega arith
within _ (Pending.came {pending} RequestLane.ordinary h room) RequestLane.ordinary = ground arith
within _ (Pending.came {pending} RequestLane.control h room) RequestLane.ordinary =
    within pending h RequestLane.ordinary
within _ (Pending.came {pending} RequestLane.ordinary h room) RequestLane.control =
    within pending h RequestLane.control
within _ (Pending.came {pending} RequestLane.control h room) RequestLane.control = ground arith
within _ (Pending.gone gone_lane before after h) lane =
    let bound = within (before ++ gone_lane ∷ after) h lane in
    let whole = count-append (is_lane lane) before (gone_lane ∷ after) in
    let rest = count-append (is_lane lane) before after in ground (arith, bound, whole, rest)

count-filter :
    (lane : RequestLane) (pending : List RequestLane)
    → count (is_lane lane) (filter (is_lane lane) pending) ≡ count (is_lane lane) pending
count-filter lane [] = refl
count-filter lane (x ∷ xs) = ground (arith, count-filter lane xs)

-- However the requests of a connection come and end, each lane stays within its bound; and a request
-- that ends authority is admitted or refused as if no ordinary request were pending.
pub Pending-bounded :
    (pending : List RequestLane) (request : Request)
    → Pending pending
    → ends_authority request ≡ RequestLane.control
    → (count (is_lane RequestLane.ordinary) pending ≤ connection_ordinary_requests)
      × (count (is_lane RequestLane.control) pending ≤ connection_control_requests)
      × (assert_request_capacity pending
            (coordination_request_lane (CoordinationRequest.command request))
          ≡ assert_request_capacity
              (filter (is_lane RequestLane.control) pending)
              (coordination_request_lane (CoordinationRequest.command request)))
unfolding assert_request_capacity
Pending-bounded pending request h e = (
  within pending h RequestLane.ordinary,
  within pending h RequestLane.control,
  rw (e, count-filter RequestLane.control pending) refl,
)
