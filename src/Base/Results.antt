-- ===== src/Base/Results.antt =====
-- Failure. `BridgeError` is its code; messages are left out.
use mathlib.Core.Path.{◌≡◌, refl}
use mathlib.Core.Bool.{Bool, true, false}
use mathlib.Core.Logic.{◌⊎◌, inl, inr}

-- The codes that the modelled code throws, each spelled as in the source, in lower case.
pub data Code : Type 0 where
  task_control_conflict stale_control : Code
  operation_key_conflict control_capacity_exceeded control_corrupt : Code
  stale_input duplicate_native_input input_capacity_exceeded input_runtime_unavailable : Code
  input_already_presented input_answer_invalid input_delivery_unknown native_input_withdrawn : Code
  peer_delivery_stale peer_delivery_reservation_scope peer_delivery_reservation_manifest : Code
  peer_delivery_key_conflict peer_delivery_reservation_consumed : Code
  peer_delivery_reservation_conflict peer_delivery_reservation_released : Code
  peer_delivery_capacity peer_delivery_cancelled peer_delivery_unavailable : Code
  peer_delivery_revoked peer_delivery_replaced peer_delivery_reservation_required : Code
  peer_delivery_reservation_stale peer_delivery_capacity_pending peer_delivery_turn_pending : Code
  peer_delivery_unknown : Code
  stale_native_event native_event_after_completion native_correlation_invalid : Code
  native_obligations_pending native_obligation_invalid : Code
  project_needs_reconciliation bridge_closing schema_invalid : Code
  peer_delivery_invalid peer_delivery_authority_invalid : Code
  invalid_transition terminal_without_outcome outcome_before_terminal : Code
  coordination_not_found coordination_forbidden coordination_invalid coordination_closed : Code
  coordination_stale_revision coordination_stale_generation coordination_stale_epoch : Code
  coordination_case_closed coordination_work_closed coordination_workspace_held : Code
  coordination_external_effect_unresolved coordination_no_external_effect : Code
  coordination_task_registered coordination_target_held coordination_inputs_required : Code
  coordination_observed_origin_unavailable coordination_note_withdrawn : Code
  coordination_already_acknowledged coordination_key_conflict coordination_changed : Code
  coordination_binding_conflict coordination_binding_settled coordination_capacity : Code
  coordination_announcement_held coordination_announcement_exists : Code
  coordination_resource_changed coordination_retirement_active coordination_result_selected : Code
  peer_operation_stale coordination_observed_duplicate : Code
  coordination_observed_scope_unsupported : Code
  structural_capture_too_large structural_detail_unavailable service_request_limit : Code

-- What an operation that can throw returns: the code that it throws, or its value.
pub data Result {ℓ} (A : Type ℓ) : Type ℓ where
  err : (code : Code) → Result A
  ok : (value : A) → Result A

-- `if (test) throw new BridgeError(code)`.
abbrev pub throw_if : Bool → Code → Result (Unit {0})
throw_if false _ = ok tt
throw_if true code = err code

-- `if (!test) throw new BridgeError(code)`.
abbrev pub require : Bool → Code → Result (Unit {0})
require false code = err code
require true _ = ok tt

infixl 5 ◌>>◌
-- A statement before the rest, which is not run if it throws.
abbrev pub ◌>>◌ {ℓ} : {B : Type ℓ} → Result (Unit {0}) → Result B → Result B
err code >> rest = err code
ok _ >> rest = rest

module _ {ℓ κ} {A : Type ℓ} {B : Type κ} where
  infixl 5 ◌>>=◌
  abbrev pub ◌>>=◌ : Result A → (A → Result B) → Result B
  err code >>= rest = err code
  ok value >>= rest = rest value

  -- A chain that returns ran to its end.
  pub >>=-eq-ok :
      (m : Result A) (rest : A → Result B) {b : B}
      → (m >>= rest) ≡ ok b
      → (a : A) × (m ≡ ok a) × (rest a ≡ ok b)
  >>=-eq-ok (err code) rest h = cc
  >>=-eq-ok (ok value) rest h = (value, refl, h)

module _ {ℓ} {B : Type ℓ} where
  pub throw_if-eq-ok :
      (t : Bool) (e : Code) (k : Result B) {b : B}
      → (throw_if t e >> k) ≡ ok b
      → (t ≡ false) × (k ≡ ok b)
  throw_if-eq-ok true e k h = cc
  throw_if-eq-ok false e k h = (refl, h)

  pub require-eq-ok :
      (t : Bool) (e : Code) (k : Result B) {b : B}
      → (require t e >> k) ≡ ok b
      → (t ≡ true) × (k ≡ ok b)
  require-eq-ok true e k h = (refl, h)
  require-eq-ok false e k h = cc

pub >>-eq-ok {ℓ} :
    {B : Type ℓ} (m : Result (Unit {0})) (k : Result B) {b : B}
    → (m >> k) ≡ ok b
    → (m ≡ ok tt) × (k ≡ ok b)
>>-eq-ok (err code) k h = cc
>>-eq-ok (ok value) k h = (refl, h)

pub Result-cases {ℓ} :
    {A : Type ℓ} (r : Result A) → ((a : A) × (r ≡ ok a)) ⊎ ((e : Code) × (r ≡ err e))
Result-cases (ok a) = inl (a, refl)
Result-cases (err e) = inr (e, refl)
