-- ===== src/Inputs/Broker.antt =====
-- The operations of `InputBroker`, and `TaskControls.requestInput`.
use text.Mathlib.Text.{starts_with}
use passeur.Base.{
  input_already_presented, input_runtime_unavailable, duplicate_native_input, stale_input, ok,
  input_capacity_exceeded, err, ◌∷◌, ◌||◌, ◌>>◌, ◌++◌, ◌&&◌, update_first, true, throw_if, suc,
  str_eq, some, not, none, length, leb, is_some, if◌then◌else◌, find, filter, false, contains, any,
  [], String, Result, Option, List, Bool, ℕ,
}
use passeur.Control.Commit.{owns, change, Actor}
use passeur.Contracts.Task.{
  clarification, permission, is_terminal, is_pending, is_finalizing, TaskControl, ReceiptOutcome,
  ReceiptKind, Phase, PendingInput, NativeEvidence, InputState, InputData, ControlReceipt, Claim,
  Choice,
}
use passeur.Control.Digests.{input_contents, Digests}

pub record Waiter : Type 0 where
  pub input_id : String
  pub task_id : String

-- `this.#pending.has(id)`.
abbrev pub has_waiter : List Waiter → String → Bool
has_waiter ws id = any (λ w. str_eq w.input_id id) ws

-- `[...this.#pending.values()].filter((p) => p.task_id === taskId).length`.
abbrev pub waiting_for : List Waiter → String → ℕ
waiting_for ws task = length (filter (λ w. str_eq w.task_id task) ws)

-- The admission of `InputBroker.request`: the waiter stands before the question is published.
unfoldable pub reserve_waiter :
    (max_pending : ℕ) → List Waiter → (task id : String) → Result (List Waiter)
reserve_waiter max_pending ws task id = do
  throw_if (leb max_pending (waiting_for ws task)) input_capacity_exceeded
  ok (ws ++ record { input_id = id; task_id = task } ∷ [])

-- `this.#pending.delete(id)`.
unfoldable pub drop_waiter : List Waiter → String → List Waiter
drop_waiter ws id = filter (λ w. not (str_eq w.input_id id)) ws

abbrev pub is_input : String → PendingInput → Bool
is_input id i = str_eq i.input_id id

abbrev get_or_run : NativeEvidence → String
get_or_run n = elim n.turn_id [ none ↦ n.run_id | some turn ↦ turn ]

abbrev pub wants_attention : InputData → Phase
wants_attention (permission approval) = Phase.awaiting_input
wants_attention (clarification question choices attention) =
    if attention then Phase.needs_attention else Phase.awaiting_input

-- `state.phase === "terminal" || state.phase === "finalizing" || state.settled_outcome !== undefined`.
abbrev pub is_closed : TaskControl → Bool
is_closed s = is_terminal s.phase || is_finalizing s.phase || is_some s.settled_outcome

abbrev pub same_question : PendingInput → PendingInput → Bool
same_question q i =
    str_eq i.native_id q.native_id && str_eq i.turn_id q.turn_id && is_pending i.state

abbrev pub claimed_by_other : Option Claim → String → Bool
claimed_by_other none client = false
claimed_by_other (some c) client = not (str_eq c.client_id client)

-- `input.claim ??= …`.
abbrev first_claim : Option Claim → Claim → Claim
first_claim none c = c
first_claim (some old) c = old

abbrev pub with_claim : Claim → PendingInput → PendingInput
with_claim c i = record i { claim = some (first_claim i.claim c) }

unfoldable pub claim_found :
    List Waiter
    → (id claim_id : String) → Actor
    → ℕ
    → PendingInput
    → TaskControl
    → Result (PendingInput × TaskControl)
claim_found ws id claim_id actor generation i s = do
  throw_if (not (is_pending i.state) || is_some s.cancellation || is_closed s) stale_input
  throw_if (not (has_waiter ws id)) input_runtime_unavailable
  throw_if (claimed_by_other i.claim actor.client_id) input_already_presented
  let c : Claim = record {
    id = claim_id;
    client_id = actor.client_id;
    control_generation = generation;
  }
  ok (with_claim c i, record s { inputs = update_first (is_input id) (with_claim c) s.inputs })

unfoldable pub claim_draft :
    List Waiter
    → (id claim_id : String) → Actor
    → ℕ
    → TaskControl
    → Result (PendingInput × TaskControl)
unfolding owns claim_found
claim_draft ws id claim_id actor generation s = do
  owns s actor.owner_id (some generation)
  elim (find (is_input id) s.inputs) [
    | none ↦ err stale_input
    | some i ↦ claim_found ws id claim_id actor generation i s
  ]

abbrev pub holds_claim : Option Claim → (claim_id client : String) → Bool
holds_claim none claim_id client = false
holds_claim (some c) claim_id client = str_eq c.id claim_id && str_eq c.client_id client

abbrev pub dismiss_input : (claim_id client : String) → PendingInput → PendingInput
dismiss_input claim_id client i =
    if holds_claim i.claim claim_id client then record i { claim = none } else i

-- A choice that may be given for this one operation, or that denies it.
abbrev offers : String → Choice → Bool
offers answer c = str_eq c.id answer && (str_eq c.scope "once" || starts_with c.decision "denied")

abbrev choice_offered : Option (List String) → String → Bool
choice_offered none answer = true
choice_offered (some choices) answer = contains answer choices

-- The answer is one that the question admits.
abbrev pub admits : InputData → String → Bool
admits (permission approval) answer = any (offers answer) approval.choices
admits (clarification question choices attention) answer = choice_offered choices answer

abbrev pub answered : (key answer : String) → PendingInput → PendingInput
answered key answer i = record i {
  answer = some answer;
  operation_key = some key;
  state = InputState.answer_intent;
  claim = none;
}

abbrev pub still_asked : List PendingInput → Phase → Phase
still_asked inputs phase = if any (λ i. is_pending i.state) inputs then phase else Phase.active

abbrev pub dismissed : (id claim_id client : String) → TaskControl → TaskControl
dismissed id claim_id client t = record t {
  inputs = update_first (is_input id) (dismiss_input claim_id client) t.inputs;
}

module _ (d : Digests) where
  abbrev pub question : TaskControl → InputData → (native_id id : String) → PendingInput
  question s content native_id id = record {
    input_id = id;
    native_id = native_id;
    run_id = s.native.run_id;
    turn_id = get_or_run s.native;
    content = content;
    digest = d.input content;
    revision = suc s.revision;
    state = InputState.pending;
    claim = none;
    answer = none;
    operation_key = none;
  }

  unfoldable pub request_input_draft :
      InputData → (native_id id : String) → TaskControl → Result (PendingInput × TaskControl)
  request_input_draft content native_id id s = do
    throw_if (is_some s.cancellation || is_terminal s.phase || is_finalizing s.phase) stale_input
    let q = question s content native_id id
    throw_if (any (same_question q) s.inputs) duplicate_native_input
    ok (q, record s { inputs = s.inputs ++ q ∷ []; phase = wants_attention content })

  unfoldable pub request_input :
      ℕ → InputData → (native_id id : String) → TaskControl → Result (PendingInput × TaskControl)
  unfolding change request_input_draft
  request_input now content native_id id s =
      change d now (request_input_draft content native_id id) s

  unfoldable pub claim :
      ℕ
      → List Waiter
      → (id claim_id : String) → Actor
      → ℕ
      → TaskControl
      → Result (PendingInput × TaskControl)
  unfolding change claim_draft
  claim now ws id claim_id actor generation s =
      change d now (claim_draft ws id claim_id actor generation) s

  unfoldable pub dismiss :
      ℕ
      → (id : String) → Actor
      → (claim_id : String) → TaskControl
      → Result (Unit {0} × TaskControl)
  unfolding change
  dismiss now id actor claim_id s =
      change d now (λ t. ok (tt, dismissed id claim_id actor.client_id t)) s

  abbrev pub intent : ℕ → (task id : String) → ℕ → (key answer : String) → ControlReceipt
  intent now task id generation key answer = record {
    operation_key = key;
    hash = d.contents (input_contents task id generation answer);
    kind = ReceiptKind.input;
    outcome = ReceiptOutcome.answer_intent;
    issued_at = now;
    input_id = some id;
    generation = generation;
  }

  -- The record with the answer's intent in it.
  abbrev pub with_intent :
      ℕ → (task id : String) → ℕ → (key answer : String) → TaskControl → TaskControl
  with_intent now task id generation key answer s =
      let inputs = update_first (is_input id) (answered key answer) s.inputs in
      record s {
        inputs = inputs;
        receipts = s.receipts ++ intent now task id generation key answer ∷ [];
        phase = still_asked inputs s.phase;
      }
