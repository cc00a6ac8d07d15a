-- ===== src/Phases.antt =====
-- src/core/state.ts: the phases of a task of the older schema, and the transitions between them.
pub mod Laws
use passeur.Base.{
  ok, outcome_before_terminal, terminal_without_outcome, invalid_transition, ◌>>◌, ◌>>=◌, ◌&&◌, ℕ,
  true, throw_if, not, is_some, false, String, Result, Option, Bool,
}

pub data TaskPhase : Type 0 where
  accepted queued preparing running awaiting_input stopping finalizing terminal : TaskPhase

-- src/contracts/types.ts.
pub data ExecutionStatus : Type 0 where
  completed blocked failed cancelled timed_out interrupted : ExecutionStatus

pub record LegacyTaskState : Type 0 where
  pub phase : TaskPhase
  pub outcome : Option ExecutionStatus
  pub updated_at : ℕ
  pub reason : Option String

-- The table `allowed`.
abbrev pub allowed : TaskPhase → TaskPhase → Bool
allowed TaskPhase.accepted TaskPhase.queued = true
allowed TaskPhase.accepted TaskPhase.preparing = true
allowed TaskPhase.accepted TaskPhase.stopping = true
allowed TaskPhase.accepted TaskPhase.finalizing = true
allowed TaskPhase.queued TaskPhase.preparing = true
allowed TaskPhase.queued TaskPhase.stopping = true
allowed TaskPhase.queued TaskPhase.finalizing = true
allowed TaskPhase.preparing TaskPhase.running = true
allowed TaskPhase.preparing TaskPhase.stopping = true
allowed TaskPhase.preparing TaskPhase.finalizing = true
allowed TaskPhase.running TaskPhase.awaiting_input = true
allowed TaskPhase.running TaskPhase.stopping = true
allowed TaskPhase.running TaskPhase.finalizing = true
allowed TaskPhase.awaiting_input TaskPhase.running = true
allowed TaskPhase.awaiting_input TaskPhase.stopping = true
allowed TaskPhase.awaiting_input TaskPhase.finalizing = true
allowed TaskPhase.stopping TaskPhase.finalizing = true
allowed TaskPhase.finalizing TaskPhase.terminal = true
allowed _ _ = false

abbrev pub is_end : TaskPhase → Bool
is_end TaskPhase.terminal = true
is_end _ = false

unfoldable pub transition :
    ℕ
    → LegacyTaskState
    → TaskPhase
    → Option ExecutionStatus
    → Option String
    → Result LegacyTaskState
transition now s phase outcome reason = do
  throw_if (not (allowed s.phase phase)) invalid_transition
  throw_if (is_end phase && not (is_some outcome)) terminal_without_outcome
  throw_if (not (is_end phase) && is_some outcome) outcome_before_terminal
  ok (record { phase = phase; outcome = outcome; updated_at = now; reason = reason })
