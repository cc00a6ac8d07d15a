-- ===== src/Phases/Laws.antt =====
-- src/core/state.ts: what holds along every run of transitions.
use passeur.Phases.{ExecutionStatus, transition, is_end, allowed, TaskPhase, LegacyTaskState}
use passeur.Base.{
  outcome_before_terminal, terminal_without_outcome, invalid_transition, ok, ◌≤◌, ◌≡◌, ◌∙◌, ◌&&◌, ℕ,
  true, throw_if-eq-ok, sym, subst, not, is_some, arith, ap, String, Option,
}
use passeur.Contracts.Task.{}

-- Transitions, one after the other.
pub data Run (s : LegacyTaskState) : LegacyTaskState → Type 0 where
  here : Run s s
  moves :
      {t u : LegacyTaskState}
      → Run s t
      → (now : ℕ) (phase : TaskPhase) (outcome : Option ExecutionStatus) (reason : Option String)
      → transition now t phase outcome reason ≡ ok u
      → Run s u

-- How far a task has come. Only the phases `running` and `awaiting_input` go back and forth.
abbrev pub rank : TaskPhase → ℕ
rank TaskPhase.accepted = 0
rank TaskPhase.queued = 1
rank TaskPhase.preparing = 2
rank TaskPhase.running = 3
rank TaskPhase.awaiting_input = 3
rank TaskPhase.stopping = 4
rank TaskPhase.finalizing = 5
rank TaskPhase.terminal = 6

allowed-rank : (p q : TaskPhase) → allowed p q ≡ true → rank p ≤ rank q
allowed-rank p q h = ground arith

-- What one transition that succeeds does.
transition-moves :
    (now : ℕ) (s : LegacyTaskState) (phase : TaskPhase) (outcome : Option ExecutionStatus)
    (reason : Option String) {t : LegacyTaskState}
    → transition now s phase outcome reason ≡ ok t
    → (allowed s.phase t.phase ≡ true) × (is_some t.outcome ≡ is_end t.phase)
unfolding transition
transition-moves now s phase outcome reason {t} h =
    let (legal, k) = throw_if-eq-ok (not (allowed s.phase phase)) invalid_transition _ h in
    let (named, k') =
      throw_if-eq-ok (is_end phase && not (is_some outcome)) terminal_without_outcome _ k in
    let (early, k'') =
      throw_if-eq-ok (not (is_end phase) && is_some outcome) outcome_before_terminal _ k' in
    let made : phase ≡ t.phase = ground (arith, k'') in
    let given : outcome ≡ t.outcome = ground (arith, k'') in
    let legal' : allowed s.phase phase ≡ true = ground (arith, legal) in
    let agrees : is_some outcome ≡ is_end phase = ground (arith, named, early) in
    (
      subst (λ p. allowed s.phase p ≡ true) made legal',
      sym (ap (λ (o : Option ExecutionStatus). is_some o) given) ∙ agrees ∙ ap is_end made,
    )

-- Along every run a task never falls back behind a phase that it has left for good, and has an
-- outcome exactly if it is terminal, if that held at the start.
pub Run-forward :
    {s t : LegacyTaskState}
    → is_some s.outcome ≡ is_end s.phase
    → Run s t
    → (rank s.phase ≤ rank t.phase) × (is_some t.outcome ≡ is_end t.phase)
Run-forward h here = (omega arith, h)
Run-forward {s} {t = u} h (moves {t = t} r now phase outcome reason e) =
    let (before, _) = Run-forward h r in
    let (legal, agrees) = transition-moves now t phase outcome reason e in
    (omega (arith, before, allowed-rank t.phase u.phase legal), agrees)
