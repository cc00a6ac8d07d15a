-- ===== src/Deliveries/Settling.antt =====
-- The deliveries of a task whose run has ended: the settlement in src/core/coordinator.ts, and the
-- reconciliation in src/core/recovery.ts.
use passeur.Base.{
  ◌||◌, ◌&&◌, ℕ, suc, some, map, is_some, if◌then◌else◌, if_cases, false, arith, any, Result, Bool,
  ok,
}
use passeur.Contracts.Peer.{is_queued, DeliveryState, Delivery}
use passeur.Control.Digests.{Digests}
use passeur.Deliveries.Moves.{may_become_refl, Moves, Follows-refl, Follows-map, Follows}
use passeur.Contracts.Task.{is_completed, TaskControl, Phase, Outcome}
use passeur.Control.Commit.{change}
use passeur.Deliveries.Dispatch.{dispose}
use passeur.Deliveries.Receipts.{in_flight}

abbrev undelivered : Bool → DeliveryState
undelivered cancelled = if cancelled then DeliveryState.cancelled else DeliveryState.stale

-- The body of the loop. `open_issue` says that native or peer evidence stands against the completion.
abbrev pub settle_delivery : ℕ → (cancelled open_issue : Bool) → Delivery → Delivery
settle_delivery now cancelled open_issue r = elim r.state [
  | DeliveryState.queued ↦ if open_issue then r else dispose now (undelivered cancelled) r
  | DeliveryState.dispatch_intent ↦ if open_issue then r else dispose now DeliveryState.unknown r
  | DeliveryState.delivered ↦ if open_issue then r else dispose now DeliveryState.unknown r
  | _ ↦ r
]

-- The execution status that is settled. One that is `completed` is not kept over a dispatch without
-- a settled receipt.
abbrev pub settled_status : Outcome → TaskControl → Outcome
settled_status status s =
    if is_some s.cancellation
    then Outcome.cancelled
    else if is_completed status && any in_flight s.peer_deliveries
    then Outcome.interrupted
    else status

abbrev pub settled_record : ℕ → (open_issue : Bool) → Outcome → TaskControl → TaskControl
settled_record now open_issue status s = record s {
  peer_deliveries = map (settle_delivery now (is_some s.cancellation) open_issue) s.peer_deliveries;
  phase = Phase.finalizing;
  settled_outcome = some (settled_status status s);
}

-- What `recheckCompletion` made of the record, its issue and the status, is an argument.
unfoldable pub settle_result :
    Digests → ℕ → (open_issue : Bool) → Outcome → TaskControl → Result (Outcome × TaskControl)
unfolding change
settle_result d now open_issue status =
    change d now (λ s. ok (settled_status status s, settled_record now open_issue status s))

abbrev is_open : Delivery → Bool
is_open r = is_queued r.state || in_flight r

-- A bridge that starts again: no run of the task is left.
unfoldable pub reconcile_deliveries : ℕ → TaskControl → TaskControl
reconcile_deliveries now s =
    if any is_open s.peer_deliveries
    then record s {
      revision = suc s.revision;
      updated_at = now;
      peer_deliveries = map (settle_delivery now (is_some s.cancellation) false) s.peer_deliveries;
    }
    else s

pub settle-Moves :
    (now : ℕ) (cancelled open_issue : Bool) (r : Delivery)
    → Moves r (settle_delivery now cancelled open_issue r)
settle-Moves now cancelled open_issue r = (ground arith, ground (arith, may_become_refl r.state))

pub reconcile-Follows :
    (now : ℕ) (s : TaskControl)
    → Follows s.peer_deliveries (reconcile_deliveries now s).peer_deliveries
unfolding reconcile_deliveries
reconcile-Follows now s =
    if_cases (λ (u : TaskControl). Follows s.peer_deliveries u.peer_deliveries)
      (any is_open s.peer_deliveries) _ _
      (λ _. Follows-map _ (settle-Moves now (is_some s.cancellation) false) s.peer_deliveries)
      (λ _. Follows-refl s.peer_deliveries)
