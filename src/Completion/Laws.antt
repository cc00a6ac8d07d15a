-- ===== src/Completion/Laws.antt =====
-- src/core/task-control.ts, `admitCompletion`: what a task that is admitted as completed has behind it.
use passeur.Base.{
  All, ◌≡◌, true, some, refl, ok, none, false, eq_iff, arith, any, [], String, Option, ℕ,
}
use passeur.Completion.Admission.{peer_issue_of, admit_draft, Admission}
use passeur.Completion.Peers.{unresolved_peer_completion, reservations, Binding}
use passeur.Contracts.Task.{is_unresolved, TaskControl, Outcome, Coverage}
use passeur.Control.Digests.{Digests}
use passeur.Completion.Evidence.{slots-IsHonoured_of, settled_of, settled, IsHonoured}
use passeur.Completion.Standing.{standing_of, standing}

module _ (d : Digests) where
  pub record IsDischarged (run : String) (generation : ℕ) (binding : Option Binding)
      (s : TaskControl) : Type 0 where
    pub not_cancelled : s.cancellation ≡ none
    pub same_run : s.native.run_id ≡ run
    pub same_generation : s.control_generation ≡ generation
    pub turn_settled : s.native.coverage ≡ Coverage.turn_scoped
    pub no_obligation : s.native.obligations ≡ []
    pub no_input : any (λ i. is_unresolved i.state) s.inputs ≡ false
    pub no_doubt : settled d s.peer_deliveries ≡ true
    pub none_foreign : standing d s binding s.peer_deliveries ≡ true
    pub honoured : All (IsHonoured d s binding) (reservations s)

  discharged_peers :
      (s : TaskControl) (binding : Option Binding)
      → unresolved_peer_completion d s binding none ≡ none
      → (settled d s.peer_deliveries ≡ true)
        × (standing d s binding s.peer_deliveries ≡ true)
        × All (IsHonoured d s binding) (reservations s)
  unfolding unresolved_peer_completion
  discharged_peers s binding h = (
    settled_of d s.peer_deliveries (ground arith),
    standing_of d s binding (ground arith),
    slots-IsHonoured_of d s binding (reservations s) (ground arith),
  )

  peers_of_issue :
      (s : TaskControl) (binding : Option Binding)
      → peer_issue_of d s (some Outcome.completed) binding ≡ none
      → unresolved_peer_completion d s binding none ≡ none
  unfolding peer_issue_of
  peers_of_issue s binding h = ground arith

  -- A task that is admitted as completed asked for that, was not cancelled, kept its run and its
  -- control generation, and owes nothing: its native turn has settled without obligations, no input is
  -- open, every peer delivery is concluded or waits behind a newer observed one of its group, the last
  -- of each group is current if it was observed, and every reserved slot was given back, or names a
  -- stored delivery of exactly its source, case and recipient, the last of whose group was observed,
  -- is current and is no older than the slot.
  pub admit-completed :
      (run : String) (generation : ℕ) (requested : Option Outcome) (binding : Option Binding)
      (s : TaskControl) {a : Admission} {t : TaskControl}
      → s.settled_outcome ≡ none
      → admit_draft d run generation requested binding s ≡ ok (a, t)
      → a.outcome ≡ Outcome.completed
      → (requested ≡ some Outcome.completed) × IsDischarged run generation binding s
  unfolding admit_draft
  admit-completed run generation (some Outcome.completed) binding s first h done =
      let none_owed : peer_issue_of d s (some Outcome.completed) binding ≡ none = ground arith in
      let (no_doubt, none_foreign, honoured) =
        discharged_peers s binding (peers_of_issue s binding none_owed) in
      (
        refl,
        record {
          not_cancelled = ground arith;
          same_run = ground (arith, eq_iff s.native.run_id run);
          same_generation = ground arith;
          turn_settled = ground arith;
          no_obligation = ground arith;
          no_input = ground arith;
          no_doubt = no_doubt;
          none_foreign = none_foreign;
          honoured = honoured;
        },
      )
  admit-completed run generation _ binding s first h done = absurd (ground arith)
