-- ===== src/Inputs/Keeps.antt =====
-- src/core/input-broker.ts: each operation on inputs keeps the stored record within the rules of its schema.
use passeur.Base.{
  ◌∷◌, ◌++◌, sym, str_eq_refl, map-append, false, distinct-append_fresh, distinct, contains,
  all-append, [], inr, inl, Option-cases, ok, ◌≡◌, ◌==◌, true, suc, subst, some, refl, find, arith,
  String, Result, List, ℕ,
}
use passeur.Control.Commit.{change, Actor}
use passeur.Contracts.Task.{is_terminal, Phase, InputData, TaskControl, PendingInput, Claim}
use passeur.Control.Digests.{Digests}
use passeur.Contracts.Valid.Meaning.{IsValid}
use passeur.Inputs.Broker.{
  wants_attention, request_input_draft, request_input, question, dismissed, dismiss_input, dismiss,
  claim_draft, claim, with_claim, is_input, claim_found, Waiter,
}
use passeur.Contracts.Valid.Keeps.{bump-IsValid}
use passeur.Control.Commit.Laws.{commit_cases, change-eq-ok}
use passeur.Inputs.Validity.{
  with_phase-IsValid, with_inputs-IsValid, is_current, map_inputs-IsValid, update_input-IsValid,
}
use passeur.Inputs.Answer.{
  lost, lose_delivery, lose_answer, withdrawn_ids, withdraw_all, settle_all, abandoned,
  withdraw_asked, withdraw, settle_turn, settle_input, abandon_input, abandon,
}
use passeur.Control.Ownership.{release_all, release_input, release_client}
use passeur.Contracts.Valid.{pending_input_ok, input_ids}

module _ (d : Digests) (now : ℕ) (s : TaskControl) where
  -- A change whose callback leaves a well-formed draft, at the revision that it was given.
  pub change-IsValid {ℓ} :
      {A : Type ℓ} (f : TaskControl → Result (A × TaskControl)) {a : A} {t : TaskControl}
      → ((draft : TaskControl)
          → f s ≡ ok (a, draft)
          → IsValid draft × (draft.revision ≡ s.revision))
      → IsValid s
      → change d now f s ≡ ok (a, t)
      → IsValid t
  change-IsValid f keep v h =
      let (draft, e, k) = change-eq-ok d now f s h in
      let (w, same) = keep draft e in
      rw k (
        commit_cases d now s draft IsValid v
          (bump-IsValid draft (suc s.revision) now (omega (arith, same)) w))

  -- The same for a callback that cannot fail.
  pub change-IsValid_total {ℓ} :
      {A : Type ℓ} (g : TaskControl → A) (f : TaskControl → TaskControl) {a : A} {t : TaskControl}
      → IsValid (f s)
      → (f s).revision ≡ s.revision
      → IsValid s
      → change d now (λ u. ok (g u, f u)) s ≡ ok (a, t)
      → IsValid t
  change-IsValid_total g f w same v h =
      change-IsValid (λ u. ok (g u, f u))
        (λ draft e. let e' : f s ≡ draft = cc in (subst IsValid e' w, rw (← e') same)) v h

  claim_found-KeepsValid :
      (ws : List Waiter) (id claim_id : String) (actor : Actor) (generation : ℕ) (i : PendingInput)
      {q : PendingInput} {t : TaskControl}
      → find (is_input id) s.inputs ≡ some i
      → (generation == s.control_generation) ≡ true
      → IsValid s
      → claim_found ws id claim_id actor generation i s ≡ ok (q, t)
      → IsValid t × (t.revision ≡ s.revision)
  unfolding claim_found
  claim_found-KeepsValid ws id claim_id actor generation i {q} {t} found named v h =
      let c : Claim = record {
        id = claim_id;
        client_id = actor.client_id;
        control_generation = generation;
      } in
      let w =
        update_input-IsValid s (is_input id) (with_claim c) (λ _. refl)
          (λ j at. let same : i ≡ j = cc in (ground arith, ground (arith, same), ground arith)) v in
      (subst IsValid (ground arith) w, ground arith)

  claim_draft-KeepsValid :
      (ws : List Waiter) (id claim_id : String) (actor : Actor) (generation : ℕ) {q : PendingInput}
      {t : TaskControl}
      → IsValid s
      → claim_draft ws id claim_id actor generation s ≡ ok (q, t)
      → IsValid t × (t.revision ≡ s.revision)
  unfolding claim_draft
  claim_draft-KeepsValid ws id claim_id actor generation {q} {t} v h =
      elim (Option-cases (find (is_input id) s.inputs)) [
        | inl missing ↦ absurd (ground arith)
        | inr (i, found) ↦
            claim_found-KeepsValid ws id claim_id actor generation i {q = q} {t = t} found
              (ground arith) v (ground arith)
      ]

  -- A claim that succeeds keeps the record within the rules of its schema.
  pub claim-IsValid :
      (ws : List Waiter) (id claim_id : String) (actor : Actor) (generation : ℕ) {q : PendingInput}
      {t : TaskControl}
      → IsValid s
      → claim d now ws id claim_id actor generation s ≡ ok (q, t)
      → IsValid t
  unfolding claim
  claim-IsValid ws id claim_id actor generation v h =
      change-IsValid (claim_draft ws id claim_id actor generation)
        (λ draft e. claim_draft-KeepsValid ws id claim_id actor generation v e) v h

  pub dismiss-IsValid :
      (id : String) (actor : Actor) (claim_id : String) {t : TaskControl}
      → IsValid s
      → dismiss d now id actor claim_id s ≡ ok (tt, t)
      → IsValid t
  unfolding dismiss
  dismiss-IsValid id actor claim_id v h =
      change-IsValid_total (λ _. tt) (dismissed id claim_id actor.client_id)
        (update_input-IsValid s (is_input id) (dismiss_input claim_id actor.client_id)
          (λ i. ground arith) (λ i _. (ground arith, ground arith, ground arith)) v)
        refl v h

  pub release_client-IsValid :
      (client : String) {t : TaskControl}
      → IsValid s
      → release_client d now client s ≡ ok (tt, t)
      → IsValid t
  unfolding release_client
  release_client-IsValid client v h =
      change-IsValid_total (λ _. tt) (release_all client)
        (map_inputs-IsValid s (release_input client) (λ i. ground arith)
          (λ i. (ground arith, ground arith, ground arith)) v)
        refl v h

  pub settle_turn-IsValid :
      (turn : String) {t : TaskControl}
      → IsValid s
      → settle_turn d now turn s ≡ ok (tt, t)
      → IsValid t
  unfolding settle_turn
  settle_turn-IsValid turn v h =
      change-IsValid_total (λ _. tt) (settle_all turn)
        (map_inputs-IsValid s (settle_input turn) (λ i. ground arith)
          (λ i. (ground arith, ground arith, ground arith)) v)
        refl v h

  pub withdraw-IsValid :
      (native_id : String) {ids : List String} {t : TaskControl}
      → IsValid s
      → withdraw d now native_id s ≡ ok (ids, t)
      → IsValid t
  unfolding withdraw
  withdraw-IsValid native_id v h =
      change-IsValid_total (withdrawn_ids native_id) (withdraw_all native_id)
        (map_inputs-IsValid s (withdraw_asked native_id s.native.turn_id) (λ i. ground arith)
          (λ i. (ground arith, ground arith, ground arith)) v)
        refl v h

  pub abandon_input-IsValid :
      (id : String) {t : TaskControl}
      → IsValid s
      → abandon_input d now id s ≡ ok (tt, t)
      → IsValid t
  unfolding abandon_input
  abandon_input-IsValid id v h =
      change-IsValid_total (λ _. tt) (abandoned id)
        (update_input-IsValid s (is_input id) abandon (λ i. ground arith)
          (λ i _. (ground arith, ground arith, ground arith)) v)
        refl v h

  -- Losing the delivery of an answer keeps a record that is not terminal within the rules of its schema.
  pub lose_answer-IsValid :
      (id : String) {t : TaskControl}
      → is_terminal s.phase ≡ false
      → IsValid s
      → lose_answer d now id s ≡ ok (tt, t)
      → IsValid t
  unfolding lose_answer
  lose_answer-IsValid id live v h =
      change-IsValid_total (λ _. tt) (lost id)
        (with_phase-IsValid _ Phase.needs_attention live refl (
          update_input-IsValid s (is_input id) lose_delivery (λ i. ground arith)
            (λ i _. (ground arith, ground arith, ground arith)) v))
        refl v h

  abbrev asked : InputData → (native_id id : String) → TaskControl
  asked content native_id id = record s {
    inputs = s.inputs ++ question d s content native_id id ∷ [];
    phase = wants_attention content;
    revision = suc s.revision;
    updated_at = now;
  }

  asked-IsValid :
      (content : InputData) (native_id id : String)
      → contains id (input_ids s.inputs) ≡ false
      → is_terminal s.phase ≡ false
      → IsValid s
      → IsValid (asked content native_id id)
  asked-IsValid content native_id id fresh live v =
      let later : TaskControl = record s { revision = suc s.revision; updated_at = now } in
      let w = bump-IsValid s (suc s.revision) now (omega arith) v in
      let u = with_phase-IsValid later (wants_attention content) live (ground arith) w in
      let q = question d s content native_id id in
      with_inputs-IsValid (record later { phase = wants_attention content }) (s.inputs ++ q ∷ [])
        (subst (λ ks. distinct ks ≡ true)
          (sym (map-append (λ (i : PendingInput). i.input_id) s.inputs (q ∷ [])))
          (distinct-append_fresh (input_ids s.inputs) id fresh v.inputs_distinct))
        (ground (
          arith,
          all-append (is_current later) s.inputs (q ∷ []),
          w.inputs_current,
          str_eq_refl s.native.run_id,
        ))
        (ground (arith, all-append pending_input_ok s.inputs (q ∷ []), v.inputs_shaped))
        (ground arith) u

  -- A question under an id that the record does not hold yet.
  pub request_input-IsValid :
      (content : InputData) (native_id id : String) {q : PendingInput} {t : TaskControl}
      → contains id (input_ids s.inputs) ≡ false
      → IsValid s
      → request_input d now content native_id id s ≡ ok (q, t)
      → IsValid t
  unfolding request_input
  request_input-IsValid content native_id id {q} {t} fresh v h =
      let (draft, e, k) = change-eq-ok d now (request_input_draft d content native_id id) s h in
      let live : is_terminal s.phase ≡ false = ground (arith, e) in
      let shape : draft ≡ record s {
        inputs = s.inputs ++ question d s content native_id id ∷ [];
        phase = wants_attention content;
      } =
        ground (arith, e) in
      rw (k, shape)
        (commit_cases d now s _ IsValid v (asked-IsValid content native_id id fresh live v))
