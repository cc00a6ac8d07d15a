-- ===== src/Coordination/Contract/Executed.antt =====
-- src/coordination/control.ts: commands and recoveries publish as the contract says.
use text.Mathlib.Text.{starts_with}
use passeur.Base.{
  coordination_stale_epoch, peer_operation_stale, coordination_forbidden, ◌∙◌, ◌>>◌,
  coordination_key_conflict, coordination_closed, ◌⊎◌, throw_if-eq-ok, throw_if, str_eq, some,
  require-eq-ok, none, inr, inl, find, false, eq_of_str_eq, any_of_find-none, any, Option-cases,
  >>-eq-ok, ok, ◌≡◌, ◌∷◌, ◌++◌, ℕ, sym, suc, subst, refl, arith, ap, [], String, Option, List, Bool,
  >>=-eq-ok,
}
use passeur.Coordination.Contract.Publication.{Served, Unused, Published, Logged, BindingEdit}
use passeur.Coordination.State.Commands.{
  RecoveryCommand, RecoveryReceipt, Platform, ControlState, Command,
}
use passeur.Coordination.Parents.Execute.{
  worker_peer_key_prefix, repeated, is_recovery_key, is_of_key, is_event_key, guard_command,
  execute_command, admit_command, with_schema, with_receipt, schema_after, record_command,
  receipt_of, ResourceVersion, Controller, ConsentGuard,
}
use passeur.Coordination.State.Records.{CoordinationReceipt}
use passeur.Coordination.Contract.Edits.{Edited}
use passeur.Coordination.Parents.Apply.{apply}
use passeur.Coordination.Contract.NoteEdits.{apply-Edited}
use passeur.Coordination.Parents.Capacity.{check_capacity}
use passeur.Coordination.Operators.Operator.{
  recovery_schema, recovery_receipt, recover_authorized, record_recovery, names_application,
  with_recovery,
}
use passeur.Completion.Finality.{admitted}
use passeur.Coordination.Operators.Recovery.{apply_recovery}
use passeur.Coordination.Operators.OperatorEdits.{apply_recovery-Edited}
use passeur.Coordination.Submissions.Announce.{published}
use passeur.Deliveries.Receipts.{}

module _ (s u : ControlState) (version : ℕ) (edited : Edited (with_schema version s) u) where
  pub receipt-Published :
      (r : CoordinationReceipt) → Unused s r.owner r.key → Published s (with_receipt r u)
  receipt-Published r unused = record {
    revision = ap (λ (x : ControlState). suc x.revision) edited.only;
    log =
        Logged.receipt r unused (ap (λ (x : ControlState). x.receipts ++ r ∷ []) edited.only)
          (ap (λ (x : ControlState). x.recoveries) edited.only)
          (ap (λ (x : ControlState). x.submission_events) edited.only);
    works = edited.works;
    cases = edited.cases;
    bindings = BindingEdit.kept (ap (λ (x : ControlState). x.bindings) edited.only);
  }

  pub recovery-Published :
      (r : RecoveryReceipt)
      → Unused s r.operator r.command.operation_key
      → Published s (with_recovery r u)
  recovery-Published r unused = record {
    revision = ap (λ (x : ControlState). suc x.revision) edited.only;
    log =
        Logged.recovery r unused (ap (λ (x : ControlState). x.receipts) edited.only)
          (ap (λ (x : ControlState). x.recoveries ++ r ∷ []) edited.only)
          (ap (λ (x : ControlState). x.submission_events) edited.only);
    works = edited.works;
    cases = edited.cases;
    bindings = BindingEdit.kept (ap (λ (x : ControlState). x.bindings) edited.only);
  }

module _ (p : Platform) (c : Controller) (uuid : String) (observed : Bool)
    (guard : Option ConsentGuard) (versions : List ResourceVersion) (s : ControlState)
    (owner : String) (command : Command) where
  pub record_command-Published :
      (r : CoordinationReceipt) (t : ControlState)
      → Unused s owner command.operation_key
      → record_command p uuid observed s owner command ≡ ok (r, t)
      → Published s t
        × (r.owner ≡ owner)
        × (r.key ≡ command.operation_key)
        × (r.request_hash ≡ p.command_hash owner command)
        × (r.revision ≡ t.revision)
        × (t.receipts ≡ s.receipts ++ r ∷ [])
  unfolding record_command
  record_command-Published r t unused h =
      let v = schema_after observed command.request s.schema_version in
      let (applied, run, k) =
        >>=-eq-ok (apply p uuid observed (with_schema v s) owner command.request) _ h in
      let made = receipt_of p owner command s applied in
      let (_, _, k') = >>=-eq-ok (check_capacity p (with_receipt made applied.state)) _ k in
      let same_receipt : made ≡ r = ground (arith, k') in
      let same_state : with_receipt made applied.state ≡ t = ground (arith, k') in
      let edited =
        apply-Edited p (with_schema v s) owner uuid observed command.request applied run in
      let published = receipt-Published s applied.state v edited made unused in
      (
        subst (Published s) same_state published,
        rw (sym same_receipt) refl,
        rw (sym same_receipt) refl,
        rw (sym same_receipt) refl,
        sym (ap (λ (x : CoordinationReceipt). x.revision) same_receipt)
            ∙ sym published.revision
            ∙ ap (λ (x : ControlState). x.revision) same_state,
        subst (λ (x : CoordinationReceipt). t.receipts ≡ s.receipts ++ x ∷ []) same_receipt
            (sym (ap (λ (x : ControlState). x.receipts) same_state)
              ∙ ap (λ (x : ControlState). x.receipts ++ made ∷ []) edited.only),
      )

  pub record_command-others :
      (r : CoordinationReceipt) (t : ControlState)
      → record_command p uuid observed s owner command ≡ ok (r, t)
      → (t.recoveries ≡ s.recoveries) × (t.submission_events ≡ s.submission_events)
  unfolding record_command
  record_command-others r t h =
      let v = schema_after observed command.request s.schema_version in
      let (applied, run, k) =
        >>=-eq-ok (apply p uuid observed (with_schema v s) owner command.request) _ h in
      let made = receipt_of p owner command s applied in
      let (_, _, k') = >>=-eq-ok (check_capacity p (with_receipt made applied.state)) _ k in
      let same_state : with_receipt made applied.state ≡ t = ground (arith, k') in
      let edited =
        apply-Edited p (with_schema v s) owner uuid observed command.request applied run in
      (
        sym (ap (λ (x : ControlState). x.recoveries) same_state)
            ∙ ap (λ (x : ControlState). x.recoveries) edited.only,
        sym (ap (λ (x : ControlState). x.submission_events) same_state)
            ∙ ap (λ (x : ControlState). x.submission_events) edited.only,
      )

  -- No recovery and no submission has the key of a command that returns.
  pub execute_command-only_key :
      (r : CoordinationReceipt) (t : ControlState)
      → execute_command p c uuid observed guard versions s owner command ≡ ok (r, t)
      → (any (is_recovery_key owner command.operation_key) s.recoveries ≡ false)
        × (any (is_event_key owner command.operation_key) s.submission_events ≡ false)
  unfolding execute_command
  execute_command-only_key r t h =
      let (_, k) = >>-eq-ok (guard_command p c guard s command.request) _ h in
      let (recoveries, k') =
        throw_if-eq-ok (any (is_recovery_key owner command.operation_key) s.recoveries)
          coordination_key_conflict _ k in
      let (events, _) =
        throw_if-eq-ok (any (is_event_key owner command.operation_key) s.submission_events)
          coordination_key_conflict _ k' in
      (recoveries, events)

  Unused-key :
      any (is_recovery_key owner command.operation_key) s.recoveries ≡ false
      → any (is_event_key owner command.operation_key) s.submission_events ≡ false
      → find (is_of_key owner command.operation_key) s.receipts ≡ none
      → Unused s owner command.operation_key
  Unused-key recoveries events receipts =
      (any_of_find-none _ s.receipts receipts, recoveries, events)

  pub execute_command-cases :
      (r : CoordinationReceipt) (t : ControlState)
      → execute_command p c uuid observed guard versions s owner command ≡ ok (r, t)
      → (find (is_of_key owner command.operation_key) s.receipts ≡ some r)
          × (r.request_hash ≡ p.command_hash owner command)
          × (t ≡ s)
        ⊎ Unused s owner command.operation_key
          × (admit_command p c guard versions s owner command.request ≡ ok tt)
          × (record_command p uuid observed s owner command ≡ ok (r, t))
  unfolding execute_command
  execute_command-cases r t h =
      let (_, k) = >>-eq-ok (guard_command p c guard s command.request) _ h in
      let (recoveries, k') =
        throw_if-eq-ok (any (is_recovery_key owner command.operation_key) s.recoveries)
          coordination_key_conflict _ k in
      let (events, k'') =
        throw_if-eq-ok (any (is_event_key owner command.operation_key) s.submission_events)
          coordination_key_conflict _ k' in
      elim (Option-cases (find (is_of_key owner command.operation_key) s.receipts)) [
        | inl fresh ↦
            let run : (admit_command p c guard versions s owner command.request
                  >> record_command p uuid observed s owner command)
                ≡ ok (r, t) =
              ground (arith, fresh) in
            let (admitted, recorded) =
              >>-eq-ok (admit_command p c guard versions s owner command.request) _ run in
            inr (Unused-key recoveries events fresh, admitted, recorded)
        | inr (prior, found) ↦
            let run : repeated p owner command s prior ≡ ok (r, t) = ground (arith, found) in
            let (same, done) =
              require-eq-ok (str_eq prior.request_hash (p.command_hash owner command))
                coordination_key_conflict _ run in
            let answer : prior ≡ r = ground (arith, done) in
            inl
              (rw (sym answer) found, rw (sym answer) (eq_of_str_eq _ _ same), ground (arith, done))
      ]

  -- A command that returns has either repeated the receipt of its key, which is of the same request,
  -- and changed nothing; or its key was used by nothing, and it published one change within the rules
  -- of works and cases, with a receipt at the end of the history that names it.
  pub execute_command-Published :
      (r : CoordinationReceipt) (t : ControlState)
      → execute_command p c uuid observed guard versions s owner command ≡ ok (r, t)
      → (find (is_of_key owner command.operation_key) s.receipts ≡ some r)
          × (r.request_hash ≡ p.command_hash owner command)
          × (t ≡ s)
        ⊎ Published s t
          × (r.owner ≡ owner)
          × (r.key ≡ command.operation_key)
          × (r.request_hash ≡ p.command_hash owner command)
          × (r.revision ≡ t.revision)
          × (t.receipts ≡ s.receipts ++ r ∷ [])
  execute_command-Published r t h = elim (execute_command-cases r t h) [
    | inl old ↦ inl old
    | inr (unused, _, run) ↦ inr (record_command-Published r t unused run)
  ]

  pub execute_command-Served :
      (r : CoordinationReceipt) (t : ControlState)
      → execute_command p c uuid observed guard versions s owner command ≡ ok (r, t)
      → Served s t
  execute_command-Served r t h = elim (execute_command-Published r t h) [
    | inl (_, _, same) ↦ inl same
    | inr published ↦ inr published.0
  ]

module _ (p : Platform) (c : Controller) (s : ControlState) (operator : String)
    (command : RecoveryCommand) where
  -- A recovery that returns has repeated its receipt, or published one change.
  pub recover_authorized-Served :
      (r : RecoveryReceipt) (t : ControlState)
      → recover_authorized p c s operator command ≡ ok (r, t)
      → Served s t
  unfolding recover_authorized record_recovery
  recover_authorized-Served r t h =
      let (_, k1) = throw_if-eq-ok c.closing coordination_closed _ h in
      let (_, k2) =
        throw_if-eq-ok (starts_with command.operation_key worker_peer_key_prefix)
          coordination_forbidden _ k1 in
      let (_, k3) =
        throw_if-eq-ok (names_application c s command.target) peer_operation_stale _ k2 in
      elim (Option-cases (find (is_recovery_key operator command.operation_key) s.recoveries)) [
        | inr (prior, found) ↦ inl (ground (arith, found))
        | inl fresh ↦
            let key = command.operation_key in
            let run : (throw_if (any (is_of_key operator key) s.receipts) coordination_key_conflict
                  >> (throw_if (any (is_event_key operator key) s.submission_events)
                        coordination_key_conflict
                      >> record_recovery p s operator command))
                ≡ ok (r, t) =
              ground (arith, fresh) in
            let (receipts, k4) =
              throw_if-eq-ok (any (is_of_key operator key) s.receipts) coordination_key_conflict _
                run in
            let (events, k5) =
              throw_if-eq-ok (any (is_event_key operator key) s.submission_events)
                coordination_key_conflict _ k4 in
            let (_, k6) =
              require-eq-ok (str_eq command.epoch s.epoch) coordination_stale_epoch _ k5 in
            let v = recovery_schema s.schema_version in
            let (u, applied, k7) = >>=-eq-ok (apply_recovery p (with_schema v s) command) _ k6 in
            let made = recovery_receipt p operator command s in
            let (_, _, k8) = >>=-eq-ok (check_capacity p (with_recovery made u)) _ k7 in
            let same : with_recovery made u ≡ t = ground (arith, k8) in
            inr (
              subst (Published s) same (
                recovery-Published s u v
                  (apply_recovery-Edited p (with_schema v s) command u applied) made
                  (receipts, any_of_find-none _ s.recoveries fresh, events)))
      ]
