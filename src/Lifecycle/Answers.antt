-- ===== src/Lifecycle/Answers.antt =====
-- src/core/input-broker.ts, `answer`: at most one answer to a native question is released.
use passeur.Base.{ok, ◌≡◌, true, inr, inl, false, arith, String, List, ℕ}
use passeur.Control.Commit.{Actor}
use passeur.Contracts.Task.{TaskControl}
use passeur.Control.Digests.{Digests}
use passeur.Inputs.Broker.{with_intent, Waiter}
use passeur.Control.Commit.Laws.{commit_of_draft, NoCollision, change-eq-ok}
use passeur.Lifecycle.{Reach}
use passeur.Inputs.Answer.{Answered, record_answer, answer_draft}
use passeur.Inputs.Recording.{answer_draft-cases}
use passeur.Lifecycle.Spent.{is_spent, spent-answered, Reach-spent}

module _ (d : Digests) (max_receipts : ℕ) (id : String) where
  spent_of_dispatch :
      (now : ℕ) (ws : List Waiter) (task : String) (actor : Actor) (generation : ℕ)
      (claim_id key text : String) (s : TaskControl) {a : Answered} {t : TaskControl}
      → NoCollision d s (with_intent d now task id generation key text s)
      → record_answer d max_receipts now ws task id actor generation claim_id key text s ≡ ok (a, t)
      → a.dispatch ≡ true
      → is_spent id t.inputs ≡ true
  unfolding record_answer
  spent_of_dispatch now ws task actor generation claim_id key text s {a} {t} apart h sent =
      let (draft, e, k) =
        change-eq-ok d now
          (answer_draft d max_receipts now ws task id actor generation claim_id key text) s h in
      elim (answer_draft-cases d max_receipts now ws task id actor generation claim_id key text s
        e) [
          | inl (_, silent, _) ↦ absurd (ground (arith, silent, sent))
          | inr (i, found, _, _, _, _, _, first) ↦
              let once = spent-answered id key text s.inputs i found in
              rw (k, first)
                (commit_of_draft d now s _ (λ u. is_spent id u.inputs ≡ true) (λ _ _. once) once
                  apart)
        ]

  -- Once an answer has been recorded for release to the native runtime, no later call of `answer`
  -- for that input releases one, whoever makes it, under whatever key and with whatever text, and
  -- whatever cancellations, adoptions, releases of clients and operations of the input broker come
  -- between, if the digests around the first do not collide.
  pub answer_once :
      (now : ℕ) (ws : List Waiter) (task : String) (actor : Actor) (generation : ℕ)
      (claim_id key text : String) (s : TaskControl) {a : Answered} {t u : TaskControl}
      → NoCollision d s (with_intent d now task id generation key text s)
      → record_answer d max_receipts now ws task id actor generation claim_id key text s ≡ ok (a, t)
      → a.dispatch ≡ true
      → Reach d max_receipts t u
      → (later : ℕ) (ws' : List Waiter) (actor' : Actor) (generation' : ℕ)
        (claim_id' key' text' : String) {a' : Answered} {v : TaskControl}
      → record_answer d max_receipts later ws' task id actor' generation' claim_id' key' text' u
        ≡ ok (a', v)
      → a'.dispatch ≡ false
  unfolding record_answer
  answer_once now ws task actor generation claim_id key text s {u} apart h sent r later ws' actor'
        generation' claim_id' key' text' h' =
      let once =
        Reach-spent id d max_receipts
          (spent_of_dispatch now ws task actor generation claim_id key text s apart h sent) r in
      let (draft, e, _) =
        change-eq-ok d later
          (answer_draft d max_receipts later ws' task id actor' generation' claim_id' key' text') u
          h' in
      elim (answer_draft-cases d max_receipts later ws' task id actor' generation' claim_id' key'
        text' u e) [
          | inl (_, silent, _) ↦ silent
          | inr (i, found, _, asked, _, _, _, _) ↦ absurd (ground (arith, once, found, asked))
        ]
