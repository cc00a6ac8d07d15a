-- ===== src/Service/Requests.antt =====
-- src/service/request-capacity.ts and `coordinationRequestLane` of
-- src/contracts/coordination-service.ts: the two lanes of the requests of one connection. The command
-- is the one of the coordination contract; registrations are all ordinary.
use passeur.Base.{
  service_request_limit, ℕ, true, throw_if, leb, false, count, [], Result, List, Bool,
}
use passeur.Coordination.State.Commands.{WorkStep, Request, NoteStep, CaseStep}

pub data RequestLane : Type 0 where
  ordinary control : RequestLane

abbrev pub connection_ordinary_requests : ℕ
connection_ordinary_requests = 32

abbrev pub connection_control_requests : ℕ
connection_control_requests = 4

pub data ReadSelector : Type 0 where
  receipt work note case overlaps : ReadSelector

pub data CoordinationRequest : Type 0 where
  identity status initialize recover_metadata recovery_read : CoordinationRequest
  read : ReadSelector → CoordinationRequest
  command : Request → CoordinationRequest

abbrev pub ends_authority : Request → RequestLane
ends_authority (Request.on_work _ _ WorkStep.close_work) = RequestLane.control
ends_authority (Request.on_work _ _ (WorkStep.share_work [])) = RequestLane.control
ends_authority (Request.on_work _ _ (WorkStep.grant_source [])) = RequestLane.control
ends_authority (Request.on_work _ _ (WorkStep.watch_source [])) = RequestLane.control
ends_authority (Request.on_case _ _ _ CaseStep.release_case) = RequestLane.control
ends_authority (Request.on_case _ _ _ CaseStep.record_external_settlement) = RequestLane.control
ends_authority (Request.on_note _ NoteStep.withdraw_note) = RequestLane.control
ends_authority _ = RequestLane.ordinary

abbrev pub coordination_request_lane : CoordinationRequest → RequestLane
coordination_request_lane CoordinationRequest.recovery_read = RequestLane.control
coordination_request_lane CoordinationRequest.recover_metadata = RequestLane.control
coordination_request_lane (CoordinationRequest.read ReadSelector.receipt) = RequestLane.control
coordination_request_lane (CoordinationRequest.command request) = ends_authority request
coordination_request_lane _ = RequestLane.ordinary

abbrev pub is_lane : RequestLane → RequestLane → Bool
is_lane RequestLane.ordinary RequestLane.ordinary = true
is_lane RequestLane.control RequestLane.control = true
is_lane _ _ = false

abbrev pub bound_of : RequestLane → ℕ
bound_of RequestLane.ordinary = connection_ordinary_requests
bound_of RequestLane.control = connection_control_requests

unfoldable pub assert_request_capacity :
    (pending : List RequestLane) → RequestLane → Result (Unit {0})
assert_request_capacity pending lane =
    throw_if (leb (bound_of lane) (count (is_lane lane) pending)) service_request_limit
