-- ===== src/Inputs/Validity.antt =====
-- src/core/input-broker.ts: the changes of inputs that keep the record within the rules of its schema.
use passeur.Base.{
  refl, Option, ◌≡◌, ◌&&◌, update_first, true, sym, subst, some, map-update_first_same, map, find,
  false, distinct, arith, any-update_first, any-map_keep, any, all-update_first, all-map, all, List,
  Bool,
}
use passeur.Contracts.Valid.Meaning.{IsValid}
use passeur.Contracts.Task.{Outcome, is_unresolved, is_terminal, TaskControl, Phase, PendingInput}
use passeur.Contracts.Valid.Keeps.{distinct-map_input}
use passeur.Contracts.Valid.{pending_input_ok, input_ids, input_current}

module _ (s : TaskControl) where
  abbrev pub is_current : PendingInput → Bool
  is_current = input_current s.native.run_id s.revision s.control_generation

  -- What an update may make of an input.
  abbrev pub Mild : PendingInput → PendingInput → Type 0
  Mild i j =
      (is_current i ≡ true → is_current j ≡ true)
      × (pending_input_ok i ≡ true → pending_input_ok j ≡ true)
      × (is_unresolved i.state ≡ false → is_unresolved j.state ≡ false)

  pub with_inputs-IsValid :
      (inputs : List PendingInput)
      → distinct (input_ids inputs) ≡ true
      → all is_current inputs ≡ true
      → all pending_input_ok inputs ≡ true
      → (is_terminal s.phase && any (λ i. is_unresolved i.state) inputs) ≡ false
      → IsValid s
      → IsValid (record s { inputs = inputs })
  with_inputs-IsValid inputs ids current shaped none_open v = record {
    terminal_outcome = v.terminal_outcome;
    not_both = v.not_both;
    inputs_distinct = ids;
    receipts_distinct = v.receipts_distinct;
    inputs_current = current;
    deliveries_distinct = v.deliveries_distinct;
    deliveries_owned = v.deliveries_owned;
    none_open = none_open;
    inputs_shaped = shaped;
    deliveries_shaped = v.deliveries_shaped;
    slots = v.slots;
  }

  pub map_inputs-IsValid :
      (f : PendingInput → PendingInput)
      → ((i : PendingInput) → (f i).input_id ≡ i.input_id)
      → ((i : PendingInput) → Mild i (f i))
      → IsValid s
      → IsValid (record s { inputs = map f s.inputs })
  map_inputs-IsValid f same mild v =
      with_inputs-IsValid (map f s.inputs) (distinct-map_input f same s.inputs v.inputs_distinct)
        (all-map is_current is_current f (λ i. (mild i).0) s.inputs v.inputs_current)
        (all-map pending_input_ok pending_input_ok f (λ i. (mild i).1) s.inputs v.inputs_shaped)
        (ground (
          arith,
          v.none_open,
          any-map_keep (λ (i : PendingInput). is_unresolved i.state) f (λ i. (mild i).2) s.inputs,
        ))
        v

  pub update_input-IsValid :
      (p : PendingInput → Bool) (f : PendingInput → PendingInput)
      → ((i : PendingInput) → (f i).input_id ≡ i.input_id)
      → ((i : PendingInput) → find p s.inputs ≡ some i → Mild i (f i))
      → IsValid s
      → IsValid (record s { inputs = update_first p f s.inputs })
  update_input-IsValid p f same mild v =
      with_inputs-IsValid (update_first p f s.inputs)
        (subst (λ ks. distinct ks ≡ true)
          (sym (map-update_first_same (λ (i : PendingInput). i.input_id) p f same s.inputs))
          v.inputs_distinct)
        (all-update_first is_current p f s.inputs (λ i found. (mild i found).0) v.inputs_current)
        (all-update_first pending_input_ok p f s.inputs (λ i found. (mild i found).1)
          v.inputs_shaped)
        (ground (
          arith,
          v.none_open,
          any-update_first (λ (i : PendingInput). is_unresolved i.state) p f s.inputs
              (λ i found. (mild i found).2),
        ))
        v

  -- A change of phase between two that are not terminal.
  pub with_phase-IsValid :
      (phase : Phase)
      → is_terminal s.phase ≡ false
      → is_terminal phase ≡ false
      → IsValid s
      → IsValid (record s { phase = phase })
  with_phase-IsValid phase old new v = record {
    terminal_outcome = ground (arith, v.terminal_outcome);
    not_both = v.not_both;
    inputs_distinct = v.inputs_distinct;
    receipts_distinct = v.receipts_distinct;
    inputs_current = v.inputs_current;
    deliveries_distinct = v.deliveries_distinct;
    deliveries_owned = v.deliveries_owned;
    none_open = ground arith;
    inputs_shaped = v.inputs_shaped;
    deliveries_shaped = v.deliveries_shaped;
    slots = v.slots;
  }

  -- The completion fence falls on a record that is not terminal.
  pub settle-IsValid :
      {o : Option Outcome}
      → is_terminal s.phase ≡ false
      → IsValid s
      → IsValid (record s { phase = Phase.finalizing; settled_outcome = o })
  settle-IsValid {o} live v =
      let w = with_phase-IsValid Phase.finalizing live refl v in
      record {
        terminal_outcome = w.terminal_outcome;
        not_both = w.not_both;
        inputs_distinct = w.inputs_distinct;
        receipts_distinct = w.receipts_distinct;
        inputs_current = w.inputs_current;
        deliveries_distinct = w.deliveries_distinct;
        deliveries_owned = w.deliveries_owned;
        none_open = w.none_open;
        inputs_shaped = w.inputs_shaped;
        deliveries_shaped = w.deliveries_shaped;
        slots = w.slots;
      }
