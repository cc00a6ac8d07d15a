-- ===== src/Samples/Phases.antt =====
-- A task that runs and then stops.
use passeur.Phases.{transition, is_end, TaskPhase, LegacyTaskState}
use passeur.Phases.Laws.{here, moves, rank, Run-forward, Run}
use passeur.Base.{◌≤◌, ◌≡◌, some, refl, none, is_some}

abbrev accepted_task : LegacyTaskState
accepted_task = record { phase = TaskPhase.accepted; outcome = none; updated_at = 1; reason = none }

abbrev stopping_task : LegacyTaskState
stopping_task = record {
  phase = TaskPhase.stopping;
  outcome = none;
  updated_at = 2;
  reason = some "asked";
}

stopped-Run : Run accepted_task stopping_task
unfolding transition
stopped-Run = moves here 2 TaskPhase.stopping none (some "asked") refl

Run-forward_example :
    (rank accepted_task.phase ≤ rank stopping_task.phase)
    × (is_some stopping_task.outcome ≡ is_end stopping_task.phase)
Run-forward_example = Run-forward {s = accepted_task} {t = stopping_task} refl stopped-Run
