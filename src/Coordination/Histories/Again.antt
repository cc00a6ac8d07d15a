-- ===== src/Coordination/Histories/Again.antt =====
-- src/coordination/control.ts: a command that has its receipt is answered with it for good.
use passeur.Base.{
  sym, find-none-of_any, ok, ◌≡◌, ◌∷◌, ◌∙◌, ◌++◌, ◌&&◌, true, subst, str_eq_refl, str_eq, some,
  none, inr, inl, find-append_some, find-append_none, find-any, find, false, eq_of_str_eq, eq_iff,
  arith, any-append, any, [], String, Option, List, Bool-cases, Bool,
}
use passeur.Coordination.State.Commands.{Platform, ControlState, Command}
use passeur.Coordination.Parents.Execute.{
  is_recovery_key, is_of_key, is_event_key, guard_command, execute_command, ResourceVersion,
  Controller, ConsentGuard,
}
use passeur.Coordination.State.Records.{CoordinationReceipt}
use passeur.Coordination.Contract.Publication.{Logged}
use passeur.Coordination.Histories.History.{Reaches-invariant, Reaches}
use passeur.Coordination.Submissions.Decision.{SubmissionDigests}
use passeur.Inputs.Broker.{answered}
use passeur.Coordination.Contract.Executed.{
  record_command-others, record_command-Published, execute_command-only_key, execute_command-cases,
}

module _ (p : Platform) (d : SubmissionDigests) (owner key : String) (r : CoordinationReceipt) where
  -- The key has this receipt, and no entry of another kind.
  abbrev pub Answered : ControlState → Type 0
  Answered s =
      (find (is_of_key owner key) s.receipts ≡ some r)
      × (any (is_recovery_key owner key) s.recoveries ≡ false)
      × (any (is_event_key owner key) s.submission_events ≡ false)

  other_key :
      (s : ControlState) (owner' key' : String)
      → Answered s
      → any (is_of_key owner' key') s.receipts ≡ false
      → (str_eq owner' owner && str_eq key' key) ≡ false
  other_key s owner' key' (found, _, _) unused =
      elim (Bool-cases (str_eq owner' owner && str_eq key' key)) [
        | inr e ↦ e
        | inl e ↦
            let used : any (is_of_key owner key) s.receipts ≡ true =
              find-any (is_of_key owner key) s.receipts r found in
            let free : any (is_of_key owner key) s.receipts ≡ false =
              subst (λ k. any (is_of_key owner k) s.receipts ≡ false)
                (eq_of_str_eq key' key (ground (arith, e)))
                (subst (λ o. any (is_of_key o key') s.receipts ≡ false)
                  (eq_of_str_eq owner' owner (ground (arith, e))) unused) in
            absurd (ground (arith, used, free))
      ]

  answered_logged : (s t : ControlState) → Logged s t → Answered s → Answered t
  answered_logged s t (Logged.receipt r' _ receipts recoveries events) (found, a, b) = (
    rw receipts (find-append_some (is_of_key owner key) s.receipts (r' ∷ []) r found),
    rw recoveries a,
    rw events b,
  )
  answered_logged s t (Logged.recovery r' (unused, _, _) receipts recoveries events) (found, a, b) =
      (
        rw receipts found,
        rw recoveries (
            ground (
              arith,
              any-append (is_recovery_key owner key) s.recoveries (r' ∷ []),
              a,
              other_key s r'.operator r'.command.operation_key (found, a, b) unused,
            )),
        rw events b,
      )
  answered_logged s t (Logged.event e (unused, _, _) receipts recoveries events) (found, a, b) = (
    rw receipts found,
    rw recoveries a,
    rw events (
        ground (
          arith,
          any-append (is_event_key owner key) s.submission_events (e ∷ []),
          b,
          other_key s e.owner e.key (found, a, b) unused,
        )),
  )

  stays_answered : {s t : ControlState} → Reaches p d s t → Answered s → Answered t
  stays_answered =
      Reaches-invariant p d Answered (λ s t published h. answered_logged s t published.log h)

find-append_last :
    (owner key : String) (rs : List CoordinationReceipt) (r : CoordinationReceipt)
    → find (is_of_key owner key) rs ≡ none
    → r.owner ≡ owner
    → r.key ≡ key
    → find (is_of_key owner key) (rs ++ r ∷ []) ≡ some r
find-append_last owner key rs r h o k =
    find-append_none (is_of_key owner key) rs (r ∷ []) h
    ∙ ground (arith, eq_iff r.owner owner, eq_iff r.key key, o, k)

module _ (p : Platform) (d : SubmissionDigests) (c : Controller) (uuid : String) (observed : Bool)
    (guard : Option ConsentGuard) (versions : List ResourceVersion) (s : ControlState)
    (owner : String) (command : Command) (r : CoordinationReceipt) (t : ControlState)
    (ran : execute_command p c uuid observed guard versions s owner command ≡ ok (r, t)) where
  executed_answered :
      (Answered p d owner command.operation_key r t)
      × (r.request_hash ≡ p.command_hash owner command)
  executed_answered =
      let (recoveries, events) =
        execute_command-only_key p c uuid observed guard versions s owner command r t ran in
      elim (execute_command-cases p c uuid observed guard versions s owner command r t ran) [
        | inl (found, same, kept) ↦ (
          (
            subst
                (λ (x : ControlState).
                  find (is_of_key owner command.operation_key) x.receipts ≡ some r)
                (sym kept) found,
            subst
                (λ (x : ControlState).
                  any (is_recovery_key owner command.operation_key) x.recoveries ≡ false)
                (sym kept) recoveries,
            subst
                (λ (x : ControlState).
                  any (is_event_key owner command.operation_key) x.submission_events ≡ false)
                (sym kept) events,
          ),
          same,
        )
        | inr (unused, _, run) ↦
            let (_, o, k, same, _, receipts) =
              record_command-Published p c uuid observed guard versions s owner command r t unused
                run in
            let (recoveries', events') =
              record_command-others p c uuid observed guard versions s owner command r t run in
            (
              (
                rw receipts (
                    find-append_last owner command.operation_key s.receipts r
                      (find-none-of_any _ s.receipts unused.0) o k),
                rw recoveries' recoveries,
                rw events' events,
              ),
              same,
            )
      ]

  -- A command that has returned a receipt returns the same receipt whenever it is sent again, after
  -- any history, and changes nothing, as long as what is looked at before the key lets it pass.
  pub execute_command-again :
      {u : ControlState}
      → Reaches p d t u
      → (c' : Controller) (uuid' : String) (observed' : Bool) (guard' : Option ConsentGuard)
        (versions' : List ResourceVersion)
      → guard_command p c' guard' u command.request ≡ ok tt
      → execute_command p c' uuid' observed' guard' versions' u owner command ≡ ok (r, u)
  unfolding execute_command
  execute_command-again {u} later c' uuid' observed' guard' versions' guarded =
      let (answered, same) = executed_answered in
      let (found, recoveries, events) =
        stays_answered p d owner command.operation_key r later answered in
      ground (
        arith,
        guarded,
        found,
        recoveries,
        events,
        same,
        str_eq_refl (p.command_hash owner command),
      )
