-- ===== src/Inputs/Recording.antt =====
-- src/core/input-broker.ts, `answer`: what it records, and that the record keeps to its schema.
use passeur.Base.{
  Result-cases, Bool-cases, update_first, str_eq, ◌⊎◌, none, false, inr, inl, Option-cases, ok, ◌≡◌,
  true, some, refl, find, arith, String, List, ℕ,
}
use passeur.Control.Commit.{has_key, Actor}
use passeur.Contracts.Task.{is_pending, TaskControl, PendingInput}
use passeur.Control.Digests.{Digests}
use passeur.Contracts.Valid.Meaning.{IsValid}
use passeur.Inputs.Broker.{
  still_asked, answered, with_intent, is_closed, intent, admits, is_input, Waiter,
}
use passeur.Inputs.Validity.{with_phase-IsValid, update_input-IsValid}
use passeur.Inputs.Answer.{record_answer, check_answer, answer_found, answer_draft, Answered}
use passeur.Control.Cancel.{push_receipt}
use passeur.Control.Cancel.Validity.{push_receipt-IsValid}
use passeur.Inputs.Keeps.{change-IsValid}

module _ (d : Digests) (max_receipts now : ℕ) (ws : List Waiter) (task id : String) (actor : Actor)
    (generation : ℕ) (claim_id key answer : String) (s : TaskControl) where
  check_answer-admits :
      (i : PendingInput) {u : Unit {0}}
      → check_answer d ws id answer i s ≡ ok u
      → admits i.content answer ≡ true
  unfolding check_answer
  check_answer-admits i h = elim (Bool-cases (admits i.content answer)) [
    | inl e ↦ e
    | inr e ↦ absurd (ground arith)
  ]

  answer_found-cases :
      (i : PendingInput) {a : Answered} {t : TaskControl}
      → answer_found d now ws task id actor generation claim_id key answer i s ≡ ok (a, t)
      → (is_pending i.state ≡ true)
        × (admits i.content answer ≡ true)
        × (is_closed s ≡ false)
        × (a ≡ record { receipt = intent d now task id generation key answer; dispatch = true })
        × (t ≡ with_intent d now task id generation key answer s)
  unfolding answer_found
  answer_found-cases i {a} {t} h = elim (Result-cases (check_answer d ws id answer i s)) [
    | inl (u, e) ↦ (ground arith, check_answer-admits i e, ground arith, ground arith, ground arith)
    | inr (c, e) ↦ absurd (ground arith)
  ]

  -- An answer that is recorded is new, under a new key, to a question that stands under the
  -- claim; or it repeats one that is recorded already.
  pub answer_draft-cases :
      {a : Answered} {t : TaskControl}
      → answer_draft d max_receipts now ws task id actor generation claim_id key answer s
        ≡ ok (a, t)
      → (find (has_key key) s.receipts ≡ some a.receipt) × (a.dispatch ≡ false) × (t ≡ s)
        ⊎ (i : PendingInput) × (find (is_input id) s.inputs ≡ some i)
          × (find (has_key key) s.receipts ≡ none)
          × (is_pending i.state ≡ true)
          × (admits i.content answer ≡ true)
          × (is_closed s ≡ false)
          × (a ≡ record { receipt = intent d now task id generation key answer; dispatch = true })
          × (t ≡ with_intent d now task id generation key answer s)
  unfolding answer_draft
  answer_draft-cases {a} {t} h = elim (Option-cases (find (has_key key) s.receipts)) [
    | inr (r, found) ↦ inl (ground arith, ground arith, ground arith)
    | inl fresh ↦ elim (Option-cases (find (is_input id) s.inputs)) [
      | inl missing ↦ absurd (ground arith)
      | inr (i, found) ↦
          let (asked, admitted, running, made, first) =
            answer_found-cases i {a = a} {t = t} (ground arith) in
          inr (i, found, fresh, asked, admitted, running, made, first)
    ]
  ]

  with_intent-IsValid :
      (i : PendingInput)
      → find (is_input id) s.inputs ≡ some i
      → is_pending i.state ≡ true
      → find (has_key key) s.receipts ≡ none
      → is_closed s ≡ false
      → str_eq key "" ≡ false
      → IsValid s
      → IsValid (with_intent d now task id generation key answer s)
  with_intent-IsValid i found pending fresh running named v =
      let r = intent d now task id generation key answer in
      let pushed : TaskControl = push_receipt r s in
      let answers = update_first (is_input id) (answered key answer) s.inputs in
      let w =
        update_input-IsValid pushed (is_input id) (answered key answer) (λ _. refl)
          (λ j at.
            let same : i ≡ j = cc in (ground arith, ground (arith, named), ground (arith, same)))
          (push_receipt-IsValid s r fresh v) in
      with_phase-IsValid (record pushed { inputs = answers }) (still_asked answers s.phase)
        (ground (arith, running)) (ground (arith, running)) w

  -- An answer that is recorded, under a key that is not empty, keeps the record within the rules of its schema.
  pub record_answer-IsValid :
      {a : Answered} {t : TaskControl}
      → str_eq key "" ≡ false
      → IsValid s
      → record_answer d max_receipts now ws task id actor generation claim_id key answer s
        ≡ ok (a, t)
      → IsValid t
  unfolding record_answer
  record_answer-IsValid named v h =
      change-IsValid d now s
        (answer_draft d max_receipts now ws task id actor generation claim_id key answer)
        (λ draft e. elim (answer_draft-cases e) [
          | inl (_, _, same) ↦ (rw same v, rw same refl)
          | inr (i, found, fresh, asked, _, running, _, first) ↦
              (rw first (with_intent-IsValid i found asked fresh running named v), rw first refl)
        ])
        v h
