-- ===== src/Inputs/Answer.antt =====
-- `InputBroker.answer`, `withdraw` and `settleTurn`, and the end of `request`.
use Prim.Native.String.{len}
use passeur.Base.{
  input_delivery_unknown, input_answer_invalid, stale_input, err, ok, input_runtime_unavailable,
  ◌||◌, ◌>>◌, ◌>>=◌, ◌==◌, ◌&&◌, update_first, true, throw_if, str_eq, some, opt_str_eq, not, none,
  map, leb, is_some, if◌then◌else◌, find, filter, false, String, Result, Option, List, Bool, ℕ,
}
use passeur.Control.Commit.{receipt, owns, change, Actor}
use passeur.Contracts.Task.{
  is_pending, is_answer_intent, TaskControl, ReceiptKind, Phase, PendingInput, InputState,
  ControlReceipt,
}
use passeur.Control.Digests.{input_contents, Digests}
use passeur.Inputs.Broker.{
  holds_claim, with_intent, is_input, is_closed, intent, has_waiter, admits, Waiter,
}

-- What `answer` hands to the step that releases the native callback.
pub record Answered : Type 0 where
  pub receipt : ControlReceipt
  pub dispatch : Bool

abbrev pub max_answer_bytes : ℕ
max_answer_bytes = 16384

abbrev pub lose_delivery : PendingInput → PendingInput
lose_delivery i =
    if is_answer_intent i.state then record i { state = InputState.delivery_unknown } else i

-- What `answer` ends with: the receipt, or the failure that tells of an unknown delivery, the
-- record, and the text that the native callback receives, if it is released.
pub record Reply : Type 0 where
  pub reply : Result ControlReceipt
  pub stored : TaskControl
  pub released : Option String

abbrev pub asked_natively : (native_id : String) → Option String → PendingInput → Bool
asked_natively native_id turn i =
    str_eq i.native_id native_id && opt_str_eq (some i.turn_id) turn && is_pending i.state

abbrev pub withdraw_asked : (native_id : String) → Option String → PendingInput → PendingInput
withdraw_asked native_id turn i =
    if asked_natively native_id turn i
    then record i { state = InputState.withdrawn; claim = none }
    else i

abbrev pub settle_input : String → PendingInput → PendingInput
settle_input turn i =
    if str_eq i.turn_id turn && is_answer_intent i.state
    then record i { state = InputState.settled }
    else i

abbrev pub abandon : PendingInput → PendingInput
abandon i =
    if is_pending i.state then record i { state = InputState.withdrawn; claim = none } else i

abbrev pub lost : String → TaskControl → TaskControl
lost id t = record t {
  inputs = update_first (is_input id) lose_delivery t.inputs;
  phase = Phase.needs_attention;
}

abbrev pub withdrawn_ids : String → TaskControl → List String
withdrawn_ids native_id t =
    map (λ (i : PendingInput). i.input_id)
      (filter (asked_natively native_id t.native.turn_id) t.inputs)

abbrev pub withdraw_all : String → TaskControl → TaskControl
withdraw_all native_id t = record t {
  inputs = map (withdraw_asked native_id t.native.turn_id) t.inputs;
}

abbrev pub settle_all : String → TaskControl → TaskControl
settle_all turn t = record t { inputs = map (settle_input turn) t.inputs }

abbrev pub abandoned : String → TaskControl → TaskControl
abandoned id t = record t { inputs = update_first (is_input id) abandon t.inputs }

module _ (d : Digests) where
  -- The tests on an input that is asked, once its claim is right.
  unfoldable pub check_answer :
      List Waiter → (id answer : String) → PendingInput → TaskControl → Result (Unit {0})
  check_answer ws id answer i s = do
    throw_if (not (has_waiter ws id)) input_runtime_unavailable
    throw_if
        (not (str_eq i.digest (d.input i.content))
          || not (str_eq i.run_id s.native.run_id)
          || not (opt_str_eq (some i.turn_id) s.native.turn_id))
        stale_input
    throw_if (not (admits i.content answer)) input_answer_invalid
    throw_if (len answer == 0 || not (leb (len answer) max_answer_bytes)) input_answer_invalid

  unfoldable pub answer_found :
      ℕ
      → List Waiter
      → (task id : String) → Actor
      → ℕ
      → (claim_id key answer : String) → PendingInput
      → TaskControl
      → Result (Answered × TaskControl)
  answer_found now ws task id actor generation claim_id key answer i s = do
    throw_if
        (not (is_pending i.state)
          || not (holds_claim i.claim claim_id actor.client_id)
          || is_some s.cancellation
          || is_closed s)
        stale_input
    check_answer ws id answer i s
    ok (
      record { receipt = intent d now task id generation key answer; dispatch = true },
      with_intent d now task id generation key answer s,
    )

  -- The callback of the first change.
  unfoldable pub answer_draft :
      (max_receipts now : ℕ)
      → List Waiter
      → (task id : String) → Actor
      → ℕ
      → (claim_id key answer : String) → TaskControl
      → Result (Answered × TaskControl)
  unfolding owns receipt
  answer_draft max_receipts now ws task id actor generation claim_id key answer s = do
    owns s actor.owner_id (some generation)
    old ← receipt d max_receipts s key ReceiptKind.input (input_contents task id generation answer)
    elim old [
      | some r ↦ ok (record { receipt = r; dispatch = false }, s)
      | none ↦ elim (find (is_input id) s.inputs) [
        | none ↦ err stale_input
        | some i ↦ answer_found now ws task id actor generation claim_id key answer i s
      ]
    ]

  unfoldable pub record_answer :
      (max_receipts now : ℕ)
      → List Waiter
      → (task id : String) → Actor
      → ℕ
      → (claim_id key answer : String) → TaskControl
      → Result (Answered × TaskControl)
  unfolding change answer_draft
  record_answer max_receipts now ws task id actor generation claim_id key answer s =
      change d now (answer_draft max_receipts now ws task id actor generation claim_id key answer) s

  -- The second change, where the native waiter is gone.
  unfoldable pub lose_answer : ℕ → String → TaskControl → Result (Unit {0} × TaskControl)
  unfolding change
  lose_answer now id s = change d now (λ t. ok (tt, lost id t)) s

  -- `answer`. The waiters are read again after the first change, when other calls may have run.
  unfoldable pub dispatch_answer :
      (now : ℕ) (later : List Waiter) (id answer : String) → Answered → TaskControl → Result Reply
  unfolding lose_answer
  dispatch_answer now later id answer a t =
      if a.dispatch
      then (if has_waiter later id
          then ok (record { reply = ok a.receipt; stored = t; released = some answer })
          else (lose_answer now id t >>= λ u.
              ok (record { reply = err input_delivery_unknown; stored = u.1; released = none })))
      else ok (record { reply = ok a.receipt; stored = t; released = none })

  unfoldable pub answer :
      (max_receipts now : ℕ) (ws later : List Waiter) (task id : String)
      → Actor
      → ℕ
      → (claim_id key text : String) → TaskControl
      → Result Reply
  unfolding record_answer dispatch_answer
  answer max_receipts now ws later task id actor generation claim_id key text s =
      record_answer max_receipts now ws task id actor generation claim_id key text s >>= λ r.
      dispatch_answer now later id text r.0 r.1

  -- `withdraw` up to the waiters that it rejects, which are those of the returned ids.
  unfoldable pub withdraw :
      ℕ → (native_id : String) → TaskControl → Result (List String × TaskControl)
  unfolding change
  withdraw now native_id s =
      change d now (λ t. ok (withdrawn_ids native_id t, withdraw_all native_id t)) s

  unfoldable pub settle_turn : ℕ → (turn : String) → TaskControl → Result (Unit {0} × TaskControl)
  unfolding change
  settle_turn now turn s = change d now (λ t. ok (tt, settle_all turn t)) s

  -- The `finally` of `request`, where the question was published and its caller has gone.
  unfoldable pub abandon_input : ℕ → (id : String) → TaskControl → Result (Unit {0} × TaskControl)
  unfolding change
  abandon_input now id s = change d now (λ t. ok (tt, abandoned id t)) s
