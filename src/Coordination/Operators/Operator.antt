-- ===== src/Coordination/Operators/Operator.antt =====
-- `recoverAuthorized` of src/coordination/control.ts: one recovery under the key of its operator,
-- given once.
use text.Mathlib.Text.{starts_with}
use passeur.Base.{
  peer_operation_stale, ok, coordination_forbidden, coordination_stale_epoch,
  coordination_key_conflict, coordination_closed, ◌∷◌, ◌>>◌, ◌>>=◌, ◌++◌, ℕ, throw_if, suc, str_eq,
  some, require, none, leb, if◌then◌else◌, find, contains, any, [], String, Result, Bool,
}
use passeur.Coordination.State.Commands.{
  RecoveryTarget, RecoveryReceipt, RecoveryCommand, Platform, ControlState,
}
use passeur.Coordination.Parents.Execute.{
  worker_peer_key_prefix, with_schema, is_recovery_key, is_of_key, is_event_key, feeds_application,
  Controller,
}
use passeur.Coordination.Operators.Recovery.{apply_recovery}
use passeur.Coordination.Parents.Capacity.{check_capacity}

abbrev pub names_application : Controller → ControlState → RecoveryTarget → Bool
names_application c state (RecoveryTarget.on_case id _ _) = contains id c.application_cases
names_application c state (RecoveryTarget.on_work id _) = any (feeds_application c id) state.cases

-- Version 4 and above keep theirs; 3 stays 3; below, recoveries need version 2.
abbrev pub recovery_schema : ℕ → ℕ
recovery_schema version = if leb 3 version then version else 2

abbrev pub recovery_receipt : Platform → String → RecoveryCommand → ControlState → RecoveryReceipt
recovery_receipt p operator command state = record {
  operator = operator;
  request_hash = p.recovery_hash operator command;
  revision = suc state.revision;
  command = command;
}

abbrev pub with_recovery : RecoveryReceipt → ControlState → ControlState
with_recovery r state = record state {
  revision = suc state.revision;
  recoveries = state.recoveries ++ r ∷ [];
}

unfoldable pub record_recovery :
    Platform
    → ControlState
    → (operator : String) → RecoveryCommand
    → Result (RecoveryReceipt × ControlState)
record_recovery p state operator command = do
  require (str_eq command.epoch state.epoch) coordination_stale_epoch
  apply_recovery p (with_schema (recovery_schema state.schema_version) state) command >>= λ next.
      let r = recovery_receipt p operator command state in
      check_capacity p (with_recovery r next) >>= λ _. ok (r, with_recovery r next)

abbrev repeated_recovery :
    Platform
    → String
    → RecoveryCommand
    → ControlState
    → RecoveryReceipt
    → Result (RecoveryReceipt × ControlState)
repeated_recovery p operator command state prior = do
  require (str_eq prior.request_hash (p.recovery_hash operator command)) coordination_key_conflict
  ok (prior, state)

unfoldable pub recover_authorized :
    Platform
    → Controller
    → ControlState
    → (operator : String) → RecoveryCommand
    → Result (RecoveryReceipt × ControlState)
recover_authorized p c state operator command = do
  throw_if c.closing coordination_closed
  throw_if (starts_with command.operation_key worker_peer_key_prefix) coordination_forbidden
  throw_if (names_application c state command.target) peer_operation_stale
  elim (find (is_recovery_key operator command.operation_key) state.recoveries) [
    | some prior ↦ repeated_recovery p operator command state prior
    | none ↦ (do
      throw_if (any (is_of_key operator command.operation_key) state.receipts)
          coordination_key_conflict
      throw_if (any (is_event_key operator command.operation_key) state.submission_events)
          coordination_key_conflict
      record_recovery p state operator command)
  ]
