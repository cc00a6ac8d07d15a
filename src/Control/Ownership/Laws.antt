-- ===== src/Control/Ownership/Laws.antt =====
-- src/core/task-control.ts, `adopt`: what an adoption leaves.
use passeur.Base.{
  task_control_conflict, stale_control, Code, err, str_eq, if◌then◌else◌, ap, List, ◌∙◌,
  str_eq_refl, any-false, ok, ◌⊎◌, ℕ, true, suc, some, refl, none, is_some, inr, inl, find, false,
  arith, any-map, any, all-map, String, ◌≡◌,
}
use passeur.Control.Commit.{change, owns, has_key, Actor}
use passeur.Contracts.Task.{is_unresolved, TaskControl, PendingInput, ControlReceipt}
use passeur.Control.Digests.{Digests}
use passeur.Contracts.Valid.Meaning.{IsValid}
use passeur.Control.Commit.Laws.{commit_of_draft, commit_cases, change-eq-ok, NoCollision}
use passeur.Control.Ownership.{unclaim, hand_over, adoption, adopt_draft, adopt}
use passeur.Contracts.Valid.Keeps.{distinct-map_input, bump-IsValid}
use passeur.Contracts.Valid.{input_current}
use passeur.Control.Cancel.{preflight_cancel, fresh_cancel, cancel_draft, cancel, push_receipt}
use passeur.Control.Cancel.Validity.{push_receipt-IsValid}
use passeur.Inputs.Broker.{claim_draft, claim, Waiter}
use passeur.Inputs.Answer.{record_answer, answer_draft}

unclaim-current :
    (run : String) (revision generation generation' : ℕ) (i : PendingInput)
    → input_current run revision generation i ≡ true
    → input_current run revision generation' (unclaim i) ≡ true
unclaim-current run revision generation generation' i h = ground arith

hand_over-IsValid : (owner : String) (s : TaskControl) → IsValid s → IsValid (hand_over owner s)
unfolding hand_over
hand_over-IsValid owner s v = record {
  terminal_outcome = v.terminal_outcome;
  not_both = v.not_both;
  inputs_distinct = distinct-map_input unclaim (λ i. refl) s.inputs v.inputs_distinct;
  receipts_distinct = v.receipts_distinct;
  inputs_current =
      all-map _ _ unclaim
        (unclaim-current s.native.run_id s.revision s.control_generation (suc s.control_generation))
        s.inputs v.inputs_current;
  deliveries_distinct = v.deliveries_distinct;
  deliveries_owned = v.deliveries_owned;
  none_open =
      ground (
        arith,
        v.none_open,
        any-map (λ (i : PendingInput). is_unresolved i.state) unclaim s.inputs,
      );
  inputs_shaped = all-map _ _ unclaim (λ i h. ground arith) s.inputs v.inputs_shaped;
  deliveries_shaped = v.deliveries_shaped;
  slots = v.slots;
}

-- What the operations do where the fence of the record refuses the actor.
module _ (d : Digests) (max_receipts now : ℕ) (ws : List Waiter)
    (id input claim_id key text : String) (actor : Actor) (generation : ℕ) (t : TaskControl)
    {e : Code} (refused : owns t actor.owner_id (some generation) ≡ err e) where
  claim_refused : claim d now ws input claim_id actor generation t ≡ err e
  unfolding claim claim_draft change
  claim_refused = ground (arith, refused)

  answer_refused :
      record_answer d max_receipts now ws id input actor generation claim_id key text t ≡ err e
  unfolding record_answer answer_draft change
  answer_refused = ground (arith, refused)

  cancel_refused :
      find (has_key key) t.receipts ≡ none
      → cancel d max_receipts now id actor generation key text t ≡ err e
  unfolding cancel cancel_draft fresh_cancel change owns
  cancel_refused unused = ground (arith, refused, unused)

  preflight_refused : preflight_cancel d max_receipts id actor generation key text t ≡ err e
  unfolding preflight_cancel
  preflight_refused = ground (arith, refused)

module _ (d : Digests) (max_receipts : ℕ) (now : ℕ) (id : String) (actor : Actor) (key : String)
    (s : TaskControl) where
  -- The error that a request of the old generation meets once the actor has adopted the task.
  abbrev pub refusal : Actor → Code
  refusal other =
      if str_eq actor.owner_id other.owner_id then stale_control else task_control_conflict

  abbrev pub adopted_draft : TaskControl
  adopted_draft = push_receipt (adoption d now s id actor.owner_id key) (hand_over actor.owner_id s)

  -- An adoption that returns repeats an old one, or makes a new one under a new key.
  pub adopt_draft-cases :
      {r : ControlReceipt} {t : TaskControl}
      → adopt_draft d max_receipts now id actor key s ≡ ok (r, t)
      → (find (has_key key) s.receipts ≡ some r) × (t ≡ s)
        ⊎ (find (has_key key) s.receipts ≡ none)
          × (r ≡ adoption d now s id actor.owner_id key)
          × (t ≡ adopted_draft)
  unfolding adopt_draft
  adopt_draft-cases h = ground arith

  -- An adoption that returns, of a record that keeps the rules of its schema, stores one that keeps them.
  pub adopt-IsValid :
      {r : ControlReceipt} {t : TaskControl}
      → IsValid s
      → adopt d max_receipts now id actor key s ≡ ok (r, t)
      → IsValid t
  unfolding adopt
  adopt-IsValid v h =
      let (draft, e, k) = change-eq-ok d now (adopt_draft d max_receipts now id actor key) s h in
      rw k (
        commit_cases d now s draft IsValid v (elim (adopt_draft-cases e) [
          | inl (_, same) ↦ rw same (bump-IsValid s (suc s.revision) now (omega arith) v)
          | inr (fresh, _, first) ↦ rw first (
              bump-IsValid adopted_draft (suc s.revision) now (unfold hand_over in omega arith) (
                push_receipt-IsValid (hand_over actor.owner_id s) _ (unfold hand_over in fresh)
                  (hand_over-IsValid actor.owner_id s v)))
        ]))

  abbrev Handed : TaskControl → Type 0
  Handed t =
      (t.owner_id ≡ actor.owner_id)
      × (t.control_generation ≡ suc s.control_generation)
      × (any (λ i. is_some i.claim) t.inputs ≡ false)

  adopted_draft-Handed : Handed adopted_draft
  unfolding hand_over
  adopted_draft-Handed = (
    refl,
    refl,
    any-map (λ (i : PendingInput). is_some i.claim) unclaim s.inputs ∙ any-false s.inputs,
  )

  new_adoption :
      {r : ControlReceipt} {t : TaskControl}
      → find (has_key key) s.receipts ≡ none
      → NoCollision d s adopted_draft
      → adopt d max_receipts now id actor key s ≡ ok (r, t)
      → Handed t × (r.generation ≡ suc s.control_generation)
  unfolding adopt
  new_adoption {r} {t} fresh apart h =
      let (draft, e, k) = change-eq-ok d now (adopt_draft d max_receipts now id actor key) s h in
      elim (adopt_draft-cases e) [
        | inl (found, _) ↦ absurd (ground (arith, found, fresh))
        | inr (_, made, first) ↦ (
          rw (k, first)
              (commit_of_draft d now s adopted_draft Handed (λ _ _. adopted_draft-Handed)
                adopted_draft-Handed apart),
          ap (λ (x : ControlReceipt). x.generation) made,
        )
      ]

  -- A new adoption hands the task to the adopting owner, without claims. From then on whoever names
  -- the control generation before it, to claim an input, to record an answer, to cancel under a key
  -- of no receipt, or for the preflight of a cancellation, is refused: as stale if it has the adopting
  -- owner, as a conflict otherwise. The digests of the record before and after may not collide.
  pub adopt_fences :
      {r : ControlReceipt} {t : TaskControl}
      → find (has_key key) s.receipts ≡ none
      → NoCollision d s adopted_draft
      → adopt d max_receipts now id actor key s ≡ ok (r, t)
      → (later : ℕ) (ws : List Waiter) (other : Actor) (input claim_id later_key text : String)
      → find (has_key later_key) t.receipts ≡ none
      → (t.owner_id ≡ actor.owner_id)
        × (any (λ i. is_some i.claim) t.inputs ≡ false)
        × (owns t actor.owner_id (some r.generation) ≡ ok tt)
        × (claim d later ws input claim_id other s.control_generation t ≡ err (refusal other))
        × (record_answer d max_receipts later ws id input other s.control_generation claim_id
              later_key text t
            ≡ err (refusal other))
        × (cancel d max_receipts later id other s.control_generation later_key text t
            ≡ err (refusal other))
        × (preflight_cancel d max_receipts id other s.control_generation later_key text t
            ≡ err (refusal other))
  unfolding owns
  adopt_fences {r} {t} fresh apart h later ws other input claim_id later_key text unused =
      let ((owner, generation, unclaimed), made) = new_adoption fresh apart h in
      let refused : owns t other.owner_id (some s.control_generation) ≡ err (refusal other) =
        ground (arith, owner, generation) in
      (
        owner,
        unclaimed,
        ground (arith, made, generation, owner, str_eq_refl actor.owner_id),
        claim_refused d max_receipts later ws id input claim_id later_key text other
            s.control_generation t refused,
        answer_refused d max_receipts later ws id input claim_id later_key text other
            s.control_generation t refused,
        cancel_refused d max_receipts later ws id input claim_id later_key text other
            s.control_generation t refused unused,
        preflight_refused d max_receipts later ws id input claim_id later_key text other
            s.control_generation t refused,
      )
