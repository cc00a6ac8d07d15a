-- ===== src/Completion/Finality.antt =====
-- src/core/task-control.ts, `admitCompletion`: the decision how a task ends is made once.
use passeur.Base.{
  subst, ◌⊎◌, ◌≡◌, ◌∙◌, some, refl, ok, none, inr, inl, false, arith, ap, String, Option-cases,
  Option, ℕ,
}
use passeur.Completion.Admission.{
  peer_issue_of, decide, changed_identity, admit_draft, admit_completion, Admission,
}
use passeur.Completion.Peers.{Binding}
use passeur.Control.Digests.{Digests}
use passeur.Contracts.Valid.Meaning.{IsValid}
use passeur.Control.Commit.Laws.{commit_same, commit_of_draft, change-eq-ok, NoCollision}
use passeur.Contracts.Task.{is_terminal, TaskControl, Phase, Outcome}
use passeur.Inputs.Keeps.{change-IsValid}
use passeur.Control.Commit.{commit}
use passeur.Inputs.Validity.{settle-IsValid}

module _ (d : Digests) (run : String) (generation : ℕ) (requested : Option Outcome)
    (binding : Option Binding) where
  -- The record that the first admission leaves.
  abbrev pub admitted : TaskControl → TaskControl
  admitted s = record s {
    phase = Phase.finalizing;
    settled_outcome =
        some (decide s run generation requested (peer_issue_of d s requested binding));
  }

  admit_draft-settled :
      (s : TaskControl) (o : Outcome)
      → s.settled_outcome ≡ some o
      → admit_draft d run generation requested binding s
        ≡ ok (
          record {
            outcome = o;
            peer_issue = none;
            native_issue = false;
            identity_changed = changed_identity s run generation;
          },
          s,
        )
  unfolding admit_draft
  admit_draft-settled s o h = ground (arith, h)

  -- The draft has the outcome that is reported, and is the old record or the admitted one.
  pub admit_draft-cases :
      (s : TaskControl) {a : Admission} {t : TaskControl}
      → admit_draft d run generation requested binding s ≡ ok (a, t)
      → (t.settled_outcome ≡ some a.outcome) × ((t ≡ s) ⊎ (t ≡ admitted s))
  unfolding admit_draft
  admit_draft-cases s h = elim (Option-cases s.settled_outcome) [
    | inl e ↦ (ground (arith, e), inr (ground (arith, e)))
    | inr (o, e) ↦ (ground (arith, e), inl (ground (arith, e)))
  ]

  -- An admission of a task that is not terminal keeps the rules between fields of its schema.
  pub admit-IsValid :
      (now : ℕ) (s : TaskControl) {a : Admission} {t : TaskControl}
      → is_terminal s.phase ≡ false
      → IsValid s
      → admit_completion d now run generation requested binding s ≡ ok (a, t)
      → IsValid t
  unfolding admit_completion
  admit-IsValid now s live v h =
      change-IsValid d now s (admit_draft d run generation requested binding)
        (λ draft e. elim (admit_draft-cases s e).1 [
          | inl same ↦ (rw same v, rw same refl)
          | inr first ↦ (rw first (settle-IsValid s live v), rw first refl)
        ])
        v h

module _ (d : Digests) where
  -- After an admission, any other, of whatever run, generation, request and binding, reports the
  -- same outcome and leaves the record as it is, if the digests around the first do not collide.
  pub admit_final :
      (now later : ℕ) (run run' : String) (generation generation' : ℕ)
      (requested requested' : Option Outcome) (binding binding' : Option Binding) (s : TaskControl)
      {a a' : Admission} {t u : TaskControl}
      → NoCollision d s (admitted d run generation requested binding s)
      → admit_completion d now run generation requested binding s ≡ ok (a, t)
      → admit_completion d later run' generation' requested' binding' t ≡ ok (a', u)
      → (a'.outcome ≡ a.outcome) × (u ≡ t)
  unfolding admit_completion
  admit_final now later run run' generation generation' requested requested' binding binding' s {a}
        {a'} {t} {u} apart h h' =
      let (draft, e, k) = change-eq-ok d now (admit_draft d run generation requested binding) s h in
      let (decided, shape) = admit_draft-cases d run generation requested binding s e in
      let settled : t.settled_outcome ≡ some a.outcome = elim shape [
        | inl same ↦
            rw (k, same, commit_same d now s)
              (subst (λ (w : TaskControl). w.settled_outcome ≡ some a.outcome) same decided)
        | inr first ↦
            let at_first : (admitted d run generation requested binding s).settled_outcome
                ≡ some a.outcome =
              subst (λ (w : TaskControl). w.settled_outcome ≡ some a.outcome) first decided in
            rw (k, first)
              (commit_of_draft d now s _ (λ w. w.settled_outcome ≡ some a.outcome) (λ _ _. at_first)
                at_first apart)
      ] in
      let (draft', e', k') =
        change-eq-ok d later (admit_draft d run' generation' requested' binding') t h' in
      let again = admit_draft-settled d run' generation' requested' binding' t a.outcome settled in
      let stays : draft' ≡ t = cc (e', again) in
      (cc (e', again), k' ∙ ap (commit d later t) stays ∙ commit_same d later t)
