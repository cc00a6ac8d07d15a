-- ===== src/Deliveries/Binding.antt =====
-- `#peerReceiptBinding` and `#peerValidity` of src/core/coordinator.ts, and the parser
-- `immutablePeerEnvelope` of src/contracts/peer-delivery.ts without the bounds on texts.
use passeur.Slots.Recipient.{Entry, Resource, is_pending_resource, fingerprint}
use passeur.Base.{
  peer_delivery_authority_invalid, err, peer_delivery_invalid, ok, ◌||◌, ◌>>◌, ◌==◌, ◌&&◌, true,
  throw_if, str_eq, some, opt_str_eq, not, none, is_some, if◌then◌else◌, false, String, Result,
  Option, Bool,
}
use passeur.Control.Digests.{Digests}
use passeur.Contracts.Peer.{Envelope}
use passeur.Contracts.Task.{
  is_terminal, is_stopping, is_observed_live, is_needs_attention, is_finalizing, TaskControl,
}

pub data Validity : Type 0 where
  current stale revoked cancelled replaced : Validity

abbrev pub is_current_validity : Validity → Bool
is_current_validity Validity.current = true
is_current_validity _ = false

-- What `onAuthorizePeerDelivery` may answer; a client's callback can answer anything.
pub data Grant : Type 0 where
  current stale revoked other : Grant

-- The workspace that the coordinator holds for the task is the envelope's.
abbrev pub envelope_held :
    Digests → String → Option Entry → Option Resource → TaskControl → Envelope → Bool
envelope_held d id (some entry) (some resource) s e = elim entry.workspace [
  | none ↦ false
  | some workspace ↦
      not (str_eq workspace "")
      && entry.request_version == 5
      && is_pending_resource resource.state
      && opt_str_eq resource.worktree_path (some workspace)
      && str_eq e.recipient_task_id id
      && str_eq e.recipient_run_id s.native.run_id
      && str_eq e.recipient_workspace workspace
      && str_eq e.recipient_workspace_fingerprint (fingerprint d id entry workspace resource)
]
envelope_held d id _ _ s e = false

abbrev pub is_done : TaskControl → Bool
is_done s = is_terminal s.phase || is_finalizing s.phase || is_some s.settled_outcome

unfoldable pub peer_receipt_binding :
    Digests → String → Option Entry → Option Resource → TaskControl → Envelope → Validity
peer_receipt_binding d id entry resource s e =
    if is_some s.cancellation || is_stopping s.phase
    then Validity.cancelled
    else if is_done s
    then Validity.stale
    else if is_needs_attention s.phase || not (is_observed_live s.native.state)
    then Validity.stale
    else if not (envelope_held d id entry resource s e)
    then Validity.replaced
    else if not (e.recipient_control_generation == s.control_generation)
    then Validity.stale
    else Validity.current

abbrev of_grant : Grant → Result Validity
of_grant Grant.current = ok Validity.current
of_grant Grant.stale = ok Validity.stale
of_grant Grant.revoked = ok Validity.revoked
of_grant Grant.other = err peer_delivery_authority_invalid

-- What the coordinator knows of the task, and the coordination owner's callback if it is set.
pub record World : Type 0 where
  pub entry : Option Entry
  pub resource : Option Resource
  pub authorize : Option (Envelope → Grant)

abbrev granted : Option (Envelope → Grant) → Envelope → Result Validity
granted none e = ok Validity.revoked
granted (some ask) e = of_grant (ask e)

abbrev pub if_current : Validity → Result Validity → Result Validity
if_current Validity.current next = next
if_current v next = ok v

unfoldable pub peer_validity : Digests → String → World → TaskControl → Envelope → Result Validity
peer_validity d id w s e =
    if_current (peer_receipt_binding d id w.entry w.resource s e) (granted w.authorize e)

unfoldable pub immutable_envelope : Digests → Envelope → Result Envelope
immutable_envelope d e = do
  throw_if (not (str_eq e.evidence_digest (d.content e.content))) peer_delivery_invalid
  ok e
