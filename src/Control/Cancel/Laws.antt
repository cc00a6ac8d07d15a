-- ===== src/Control/Cancel/Laws.antt =====
-- src/core/task-control.ts, `cancel`: what a retry does, and what a second cancellation does.
use passeur.Base.{
  sym, subst, ap, ◌||◌, is_some, inr, inl, ◌∷◌, ◌∙◌, ◌++◌, find-append_none, [], true, some, refl,
  none, eq_iff, arith, str_eq, ok, str_eq_refl, find, String, ℕ, ◌≡◌,
}
use passeur.Control.Digests.{Digests}
use passeur.Control.Commit.{change, commit, Actor}
use passeur.Control.Cancel.{
  cancel_contents, new_receipt, has_key, ControlReceipt, TaskControl, stop, cancel_draft, cancel,
}
use passeur.Contracts.Task.{Cancellation, ReceiptKind}
use passeur.Control.Cancel.Validity.{cancel_draft-cases, first_draft}
use passeur.Control.Commit.Laws.{commit_same, commit_of_draft, change-eq-ok, NoCollision}

module _ (d : Digests) (max_receipts : ℕ) (id : String) (actor : Actor) (generation : ℕ)
    (key reason : String) where
  pub first_draft-receipts :
      (now : ℕ) (s : TaskControl)
      → (first_draft d max_receipts now id actor generation key reason s).receipts
        ≡ s.receipts ++ new_receipt d max_receipts now s id generation key reason ∷ []
  unfolding stop
  first_draft-receipts now s = ground arith

  pub first_draft-has_receipt :
      (now : ℕ) (s : TaskControl)
      → find (has_key key) s.receipts ≡ none
      → find
          (has_key key)
          (first_draft d max_receipts now id actor generation key reason s).receipts
        ≡ some (new_receipt d max_receipts now s id generation key reason)
  first_draft-has_receipt now s fresh =
      rw (first_draft-receipts now s)
        (find-append_none (has_key key) s.receipts _ fresh ∙ rw (str_eq_refl key) refl)

  -- A callback that returns the record as it is stores nothing.
  cancel_again :
      (now : ℕ) (s : TaskControl) (r : ControlReceipt)
      → cancel_draft d max_receipts now id actor generation key reason s ≡ ok (r, s)
      → cancel d max_receipts now id actor generation key reason s ≡ ok (r, s)
  unfolding cancel
  cancel_again now s r h = rw (h, change, commit_same d now s) refl

  saved_retry :
      (now : ℕ) (s : TaskControl) (r : ControlReceipt)
      → str_eq s.owner_id actor.owner_id ≡ true
      → find (has_key key) s.receipts ≡ some r
      → r.kind ≡ ReceiptKind.cancel
      → r.hash ≡ d.contents (cancel_contents id generation reason)
      → cancel_draft d max_receipts now id actor generation key reason s ≡ ok (r, s)
  unfolding cancel_draft
  saved_retry now s r owned found kind hash =
      ground (arith, eq_iff r.hash (d.contents (cancel_contents id generation reason)))

  -- The clock plays no part where nothing is written.
  cancel_draft-later :
      (now later : ℕ) (s : TaskControl)
      → (is_some (find (has_key key) s.receipts) || is_some s.cancellation) ≡ true
      → cancel_draft d max_receipts now id actor generation key reason s
        ≡ cancel_draft d max_receipts later id actor generation key reason s
  unfolding cancel_draft
  cancel_draft-later now later s h = ground arith

  cancel_draft-owned :
      (now : ℕ) (s : TaskControl) {r : ControlReceipt} {t : TaskControl}
      → cancel_draft d max_receipts now id actor generation key reason s ≡ ok (r, t)
      → str_eq s.owner_id actor.owner_id ≡ true
  unfolding cancel_draft
  cancel_draft-owned now s h = ground arith

  -- What a retry reads of the record that the first cancellation leaves.
  abbrev Retained : TaskControl → ControlReceipt → TaskControl → Type 0
  Retained s r t = (t.owner_id ≡ s.owner_id) × (find (has_key key) t.receipts ≡ some r)

  first_draft-Retained :
      (now : ℕ) (s : TaskControl)
      → find (has_key key) s.receipts ≡ none
      → Retained s
          (new_receipt d max_receipts now s id generation key reason)
          (first_draft d max_receipts now id actor generation key reason s)
  unfolding stop
  first_draft-Retained now s fresh = (ground arith, first_draft-has_receipt now s fresh)

  -- A retried cancellation, with the same arguments, returns the same receipt and stores nothing,
  -- whenever it is made, if the digests of the record before and after the first do not collide.
  pub cancel_retry :
      (now later : ℕ) (s : TaskControl) {r : ControlReceipt} {t : TaskControl}
      → NoCollision d s (first_draft d max_receipts now id actor generation key reason s)
      → cancel d max_receipts now id actor generation key reason s ≡ ok (r, t)
      → cancel d max_receipts later id actor generation key reason t ≡ ok (r, t)
  unfolding cancel
  cancel_retry now later s {r} {t} apart h =
      let (draft, e, k) =
        change-eq-ok d now (cancel_draft d max_receipts now id actor generation key reason) s h in
      elim (cancel_draft-cases d max_receipts now id actor generation key reason s e) [
        | inl (same, old) ↦
            let stays : t ≡ s = k ∙ ap (commit d now s) same ∙ commit_same d now s in
            let again : cancel_draft d max_receipts now id actor generation key reason s
                ≡ ok (r, s) =
              e ∙ ap (λ u. ok (r, u)) same in
            subst (λ u. cancel d max_receipts later id actor generation key reason u ≡ ok (r, u))
              (sym stays)
              (cancel_again later s r (sym (cancel_draft-later now later s old) ∙ again))
        | inr (fresh, _, made, first) ↦
            let r' = new_receipt d max_receipts now s id generation key reason in
            let (owner, found) : Retained s r' t =
              rw (k, first)
                (commit_of_draft d now s _ (Retained s r') (λ _ _. first_draft-Retained now s fresh)
                  (first_draft-Retained now s fresh) apart) in
            rw made (
              cancel_again later t r'
                (saved_retry later t r' (rw owner (cancel_draft-owned now s e)) found refl refl))
      ]

  -- Once a cancellation is accepted, no other one changes the record.
  pub cancel_immutable :
      (now : ℕ) (s : TaskControl) (c : Cancellation) {r : ControlReceipt} {t : TaskControl}
      → s.cancellation ≡ some c
      → cancel d max_receipts now id actor generation key reason s ≡ ok (r, t)
      → t ≡ s
  unfolding cancel
  cancel_immutable now s c {r} {t} stopped h =
      let (draft, e, k) =
        change-eq-ok d now (cancel_draft d max_receipts now id actor generation key reason) s h in
      elim (cancel_draft-cases d max_receipts now id actor generation key reason s e) [
        | inl (same, _) ↦ k ∙ ap (commit d now s) same ∙ commit_same d now s
        | inr (_, none_yet, _, _) ↦ absurd (cc)
      ]
