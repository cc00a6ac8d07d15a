-- ===== src/Lifecycle/Spent.antt =====
-- src/core/input-broker.ts and src/core/task-control.ts: inputs that have left the state `pending`.
use passeur.Base.{
  Option-cases, ok, ◌≡◌, ◌∷◌, ◌++◌, update_first, true, subst, some, refl, not, none, map, inr, inl,
  if_cases, find, false, arith, [], String, Result, List, Bool-cases, Bool, ℕ,
}
use passeur.Control.Commit.{change, Actor}
use passeur.Contracts.Task.{Claim, is_pending, TaskControl, PendingInput, ControlReceipt}
use passeur.Control.Digests.{Digests}
use passeur.Control.Ownership.{
  release_input, release_client, release_all, unclaim, hand_over, adopt_draft, adopt,
}
use passeur.Control.Ownership.Laws.{adopt_draft-cases}
use passeur.Inputs.Broker.{
  with_claim, Waiter, request_input_draft, request_input, question, dismissed, dismiss_input,
  dismiss, claim_draft, claim, is_input, answered,
}
use passeur.Control.Cancel.{withdraw_input, stop, is_settled, cancel_draft, cancel}
use passeur.Control.Cancel.Validity.{cancel_draft-cases}
use passeur.Control.Commit.Laws.{commit_cases, change-eq-ok}
use passeur.Lifecycle.{
  next, here, Reach, withdraws, settles, releases, loses, dismisses, claims, cancels, asks, answers,
  adopts, abandons, Step,
}
use passeur.Inputs.Answer.{
  withdrawn_ids, withdraw_asked, withdraw_all, withdraw, settle_turn, settle_input, settle_all,
  record_answer, lost, lose_delivery, lose_answer, answer_draft, abandoned, abandon_input, abandon,
}
use passeur.Inputs.Recording.{answer_draft-cases}

-- The input of this id stands in the record, and no longer waits for an answer.
abbrev pub is_spent : String → List PendingInput → Bool
is_spent id is = elim (find (is_input id) is) [ none ↦ false | some i ↦ not (is_pending i.state) ]

module _ (id : String) where
  spent-map :
      (f : PendingInput → PendingInput)
      → ((i : PendingInput) → (f i).input_id ≡ i.input_id)
      → ((i : PendingInput) → is_pending i.state ≡ false → is_pending (f i).state ≡ false)
      → (is : List PendingInput) → is_spent id is ≡ true
      → is_spent id (map f is) ≡ true
  spent-map f same keep [] h = h
  spent-map f same keep (i ∷ is) h = elim (Bool-cases (is_input id i)) [
    | inl e ↦ ground (arith, same i, keep i, e)
    | inr e ↦ ground (arith, same i, e, spent-map f same keep is)
  ]

  spent-update_first :
      (p : PendingInput → Bool) (f : PendingInput → PendingInput)
      → ((i : PendingInput) → (f i).input_id ≡ i.input_id)
      → ((i : PendingInput) → is_pending i.state ≡ false → is_pending (f i).state ≡ false)
      → (is : List PendingInput) → is_spent id is ≡ true
      → is_spent id (update_first p f is) ≡ true
  spent-update_first p f same keep [] h = h
  spent-update_first p f same keep (i ∷ is) h = elim (Bool-cases (is_input id i)) [
    | inl e ↦ ground (arith, same i, keep i, e)
    | inr e ↦ ground (arith, same i, e, spent-update_first p f same keep is)
  ]

  spent-append : (is js : List PendingInput) → is_spent id is ≡ true → is_spent id (is ++ js) ≡ true
  spent-append [] js h = cc
  spent-append (i ∷ is) js h = ground (arith, spent-append is js)

  -- The first input of the id takes the answer, which makes it spent.
  pub spent-answered :
      (key answer : String) (is : List PendingInput) (i : PendingInput)
      → find (is_input id) is ≡ some i
      → is_spent id (update_first (is_input id) (answered key answer) is) ≡ true
  spent-answered key answer [] i h = cc
  spent-answered key answer (j ∷ is) i h = elim (Bool-cases (is_input id j)) [
    | inl e ↦ ground (arith, e)
    | inr e ↦ ground (arith, e, spent-answered key answer is i)
  ]

  module _ (d : Digests) (max_receipts now : ℕ) (s : TaskControl) where
    -- A change keeps an input spent if its callback's draft does.
    change-spent {ℓ} :
        {A : Type ℓ} (f : TaskControl → Result (A × TaskControl)) {a : A} {t : TaskControl}
        → ((draft : TaskControl) → f s ≡ ok (a, draft) → is_spent id draft.inputs ≡ true)
        → is_spent id s.inputs ≡ true
        → change d now f s ≡ ok (a, t)
        → is_spent id t.inputs ≡ true
    change-spent f keep h e =
        let (draft, e', k) = change-eq-ok d now f s e in
        rw k (commit_cases d now s draft (λ u. is_spent id u.inputs ≡ true) h (keep draft e'))

    change-spent_total {ℓ} :
        {A : Type ℓ} (g : TaskControl → A) (f : TaskControl → TaskControl) {a : A} {t : TaskControl}
        → is_spent id (f s).inputs ≡ true
        → is_spent id s.inputs ≡ true
        → change d now (λ u. ok (g u, f u)) s ≡ ok (a, t)
        → is_spent id t.inputs ≡ true
    change-spent_total g f keep h e =
        change-spent (λ u. ok (g u, f u))
          (λ draft e'.
            let same : f s ≡ draft = cc in subst (λ u. is_spent id u.inputs ≡ true) same keep)
          h e

    cancel-spent :
        (task : String) (actor : Actor) (generation : ℕ) (key reason : String) {r : ControlReceipt}
        {t : TaskControl}
        → is_spent id s.inputs ≡ true
        → cancel d max_receipts now task actor generation key reason s ≡ ok (r, t)
        → is_spent id t.inputs ≡ true
    unfolding cancel stop
    cancel-spent task actor generation key reason h =
        change-spent (cancel_draft d max_receipts now task actor generation key reason)
          (λ draft e.
            elim (cancel_draft-cases d max_receipts now task actor generation key reason s e) [
              | inl (same, _) ↦ rw same h
              | inr (_, _, _, first) ↦ rw first (
                  if_cases (λ (u : TaskControl). is_spent id u.inputs ≡ true) (is_settled s) _ _
                    (λ _. h)
                    (λ _. spent-map withdraw_input (λ _. refl) (λ i k. ground arith) s.inputs h))
            ])
          h

    adopt-spent :
        (task : String) (actor : Actor) (key : String) {r : ControlReceipt} {t : TaskControl}
        → is_spent id s.inputs ≡ true
        → adopt d max_receipts now task actor key s ≡ ok (r, t)
        → is_spent id t.inputs ≡ true
    unfolding adopt hand_over
    adopt-spent task actor key h =
        change-spent (adopt_draft d max_receipts now task actor key)
          (λ draft e. elim (adopt_draft-cases d max_receipts now task actor key s e) [
            | inl (_, same) ↦ rw same h
            | inr (_, _, first) ↦ rw first (spent-map unclaim (λ _. refl) (λ i k. k) s.inputs h)
          ])
          h

  module _ (d : Digests) (max_receipts : ℕ) where
    claim_draft-spent :
        (s : TaskControl) (ws : List Waiter) (asked claim_id : String) (actor : Actor)
        (generation : ℕ) {q : PendingInput} {t : TaskControl}
        → is_spent id s.inputs ≡ true
        → claim_draft ws asked claim_id actor generation s ≡ ok (q, t)
        → is_spent id t.inputs ≡ true
    unfolding claim_draft
    claim_draft-spent s ws asked claim_id actor generation {q} {t} h e =
        let c : Claim = record {
          id = claim_id;
          client_id = actor.client_id;
          control_generation = generation;
        } in
        let kept =
          spent-update_first (is_input asked) (with_claim c) (λ _. refl) (λ i k. k) s.inputs h in
        elim (Option-cases (find (is_input asked) s.inputs)) [
          | inl missing ↦ absurd (ground arith)
          | inr (i, found) ↦ ground (arith, kept)
        ]

    -- No operation makes a spent input wait again.
    pub Step-spent :
        {s t : TaskControl}
        → Step d max_receipts s t
        → is_spent id s.inputs ≡ true
        → is_spent id t.inputs ≡ true
    unfolding claim request_input release_client dismiss record_answer lose_answer withdraw
        settle_turn abandon_input
    Step-spent {s} (cancels now task actor generation key reason e) h =
        cancel-spent d max_receipts now s task actor generation key reason h e
    Step-spent {s} (adopts now task actor key e) h =
        adopt-spent d max_receipts now s task actor key h e
    Step-spent {s} (releases now client e) h =
        change-spent_total d max_receipts now s (λ _. tt) (release_all client)
          (spent-map (release_input client) (λ i. ground arith) (λ i k. ground arith) s.inputs h) h
          e
    Step-spent {s} (asks now content native_id asked fresh e) h =
        change-spent d max_receipts now s (request_input_draft d content native_id asked)
          (λ draft e'.
            ground (arith, e', spent-append s.inputs (question d s content native_id asked ∷ []) h))
          h e
    Step-spent {s} (claims now ws asked claim_id actor generation e) h =
        change-spent d max_receipts now s (claim_draft ws asked claim_id actor generation)
          (λ draft e'. claim_draft-spent s ws asked claim_id actor generation h e') h e
    Step-spent {s} (dismisses now asked actor claim_id e) h =
        change-spent_total d max_receipts now s (λ _. tt) (dismissed asked claim_id actor.client_id)
          (spent-update_first (is_input asked) (dismiss_input claim_id actor.client_id)
            (λ i. ground arith) (λ i k. ground arith) s.inputs h)
          h e
    Step-spent {s} (answers now ws task asked actor generation claim_id key text named e) h =
        change-spent d max_receipts now s
          (answer_draft d max_receipts now ws task asked actor generation claim_id key text)
          (λ draft e'.
            elim (answer_draft-cases d max_receipts now ws task asked actor generation claim_id key
              text s e') [
                | inl (_, _, same) ↦ rw same h
                | inr (i, _, _, _, _, _, _, first) ↦ rw first (
                    spent-update_first (is_input asked) (answered key text) (λ _. refl)
                      (λ _ _. refl) s.inputs h)
              ])
          h e
    Step-spent {s} (loses now asked live e) h =
        change-spent_total d max_receipts now s (λ _. tt) (lost asked)
          (spent-update_first (is_input asked) lose_delivery (λ i. ground arith)
            (λ i k. ground arith) s.inputs h)
          h e
    Step-spent {s} (withdraws now native_id e) h =
        change-spent_total d max_receipts now s (withdrawn_ids native_id) (withdraw_all native_id)
          (spent-map (withdraw_asked native_id s.native.turn_id) (λ i. ground arith)
            (λ i k. ground arith) s.inputs h)
          h e
    Step-spent {s} (settles now turn e) h =
        change-spent_total d max_receipts now s (λ _. tt) (settle_all turn)
          (spent-map (settle_input turn) (λ i. ground arith) (λ i k. ground arith) s.inputs h) h e
    Step-spent {s} (abandons now asked e) h =
        change-spent_total d max_receipts now s (λ _. tt) (abandoned asked)
          (spent-update_first (is_input asked) abandon (λ i. ground arith) (λ i k. ground arith)
            s.inputs h)
          h e

    pub Reach-spent :
        {s t : TaskControl}
        → is_spent id s.inputs ≡ true
        → Reach d max_receipts s t
        → is_spent id t.inputs ≡ true
    Reach-spent h here = h
    Reach-spent h (next r st) = Step-spent st (Reach-spent h r)
