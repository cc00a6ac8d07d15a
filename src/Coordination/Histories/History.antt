-- ===== src/Coordination/Histories/History.antt =====
-- Every history of the coordination state, from the empty one: src/coordination/control.ts under
-- its lock, one operation after another.
use passeur.Coordination.Submissions.Decision.{
  SubmissionTerminalInput, SubmissionDispositionInput, SubmissionDigests, SubmissionBindInput,
  Disposition, AnnouncementWithdrawalInput, AnnouncementInput,
}
use passeur.Coordination.State.Records.{
  SubmissionBinding, Limits, CoordinationReceipt, AnnouncementRecord,
}
use passeur.Base.{
  ◌&&◌, str_eq, if◌then◌else◌, eq_of_str_eq, count_none, count-append, Bool-cases, ok, ◌≤◌, ◌≡◌,
  ◌∷◌, ◌+◌, ℕ, sym, suc, subst, refl, length-append, inr, inl, count, arith, [], String, Option,
  List, Bool,
}
use passeur.Coordination.State.Commands.{
  control_receipt_count, RecoveryReceipt, RecoveryCommand, Platform, ObservationInput,
  ExtensionInput, ControlState, Command,
}
use passeur.Coordination.Parents.Execute.{
  is_recovery_key, is_of_key, is_event_key, execute_command, ResourceVersion, Controller,
  ConsentGuard,
}
use passeur.Coordination.Observation.Extended.{
  observe_case_delivery-Served, extend_observed_case-Served,
}
use passeur.Coordination.Contract.Publication.{Unused, Served, Published, Logged}
use passeur.Coordination.Submissions.Announce.{withdraw_announcement, published, announce}
use passeur.Coordination.Submissions.Announced.{
  withdraw_announcement-Served, bind_submission-Served, announce-Served,
}
use passeur.Coordination.Submissions.Bind.{bind_submission}
use passeur.Coordination.Submissions.Settle.{terminal_submission_binding, dispose_submission}
use passeur.Coordination.Submissions.Disposed.{
  terminal_submission_binding-Served, dispose_submission-Served,
}
use passeur.Coordination.Contract.Executed.{recover_authorized-Served, execute_command-Served}
use passeur.Coordination.Observation.Observed.{observe_case_delivery, extend_observed_case}
use passeur.Coordination.Operators.Operator.{recover_authorized}
use passeur.Coordination.State.Stored.{through_store}

module _ (p : Platform) (d : SubmissionDigests) where
  -- One operation that returned: `execute`, `recover`, the announcements and the bindings of
  -- submissions, and the two of observed cases. What a worker's peer operation and its application
  -- publish is not among them. Of the store's checks only those that an observation relies on are
  -- asked for; the others make fewer operations return.
  pub data Operation (s t : ControlState) : Type 0 where
    executed :
        (c : Controller) (uuid : String) (observed : Bool) (guard : Option ConsentGuard)
        (versions : List ResourceVersion) (owner : String) (command : Command)
        (r : CoordinationReceipt)
        → execute_command p c uuid observed guard versions s owner command ≡ ok (r, t)
        → Operation s t
    recovered :
        (c : Controller) (operator : String) (command : RecoveryCommand) (r : RecoveryReceipt)
        → recover_authorized p c s operator command ≡ ok (r, t)
        → Operation s t
    announced :
        (owner : String) (input : AnnouncementInput) (a : AnnouncementRecord)
        → announce p d s owner input ≡ ok (a, t)
        → Operation s t
    withdrawn :
        (owner : String) (input : AnnouncementWithdrawalInput) (a : AnnouncementRecord)
        → withdraw_announcement p d s owner input ≡ ok (a, t)
        → Operation s t
    bound :
        (owner : String) (input : SubmissionBindInput) (b : SubmissionBinding)
        → bind_submission p d s owner input ≡ ok (b, t)
        → Operation s t
    disposed :
        (owner : String) (input : SubmissionDispositionInput) (kind : Disposition)
        (b : SubmissionBinding)
        → dispose_submission p d s owner input kind ≡ ok (b, t)
        → Operation s t
    ended :
        (owner : String) (input : SubmissionTerminalInput) (b : SubmissionBinding)
        → terminal_submission_binding p d s owner input ≡ ok (b, t)
        → Operation s t
    extended :
        (c : Controller) (owner : String) (input : ExtensionInput) (r : CoordinationReceipt)
        → extend_observed_case p c s owner input ≡ ok (r, t)
        → Operation s t
    observation :
        (owner : String) (input : ObservationInput) (epoch : String) (revision : ℕ)
        (r : CoordinationReceipt)
        → through_store s (observe_case_delivery p s owner input epoch revision) ≡ ok (r, t)
        → Operation s t

  -- Each of the nine modelled operations (a command, a recovery, an announcement, its withdrawal, a
  -- binding, its release, its end, an extension of an observed case and an observation of a delivery;
  -- not what workers' peer operations publish) that returns has repeated an old answer and changed
  -- nothing, or has published once: the next revision, one entry under a key of its parent that no
  -- entry had, and at most one edit each of the works, the cases and the bindings, within their rules.
  pub Operation-Served : {s t : ControlState} → Operation s t → Served s t
  Operation-Served {s} {t} (Operation.executed c uuid observed guard versions owner command r h) =
      execute_command-Served p c uuid observed guard versions s owner command r t h
  Operation-Served {s} {t} (Operation.recovered c operator command r h) =
      recover_authorized-Served p c s operator command r t h
  Operation-Served {s} {t} (Operation.announced owner input a h) =
      announce-Served p d s owner input a t h
  Operation-Served {s} {t} (Operation.withdrawn owner input a h) =
      withdraw_announcement-Served p d s owner input a t h
  Operation-Served {s} {t} (Operation.bound owner input b h) =
      bind_submission-Served p d s owner input b t h
  Operation-Served {s} {t} (Operation.disposed owner input kind b h) =
      dispose_submission-Served p d s owner input kind b t h
  Operation-Served {s} {t} (Operation.ended owner input b h) =
      terminal_submission_binding-Served p d s owner input b t h
  Operation-Served {s} {t} (Operation.extended c owner input r h) =
      extend_observed_case-Served p s owner c input r t h
  Operation-Served {s} {t} (Operation.observation owner input epoch revision r h) =
      observe_case_delivery-Served p s owner input epoch revision r t h

  pub data Reaches (s : ControlState) : ControlState → Type 0 where
    start : Reaches s s
    then : {t u : ControlState} → Reaches s t → Operation t u → Reaches s u

  -- A property that every publication keeps holds along every history.
  pub Reaches-invariant {ℓ} :
      (P : ControlState → Type ℓ)
      → ((s t : ControlState) → Published s t → P s → P t)
      → {s t : ControlState} → Reaches s t
      → P s
      → P t
  Reaches-invariant P keep Reaches.start h = h
  Reaches-invariant P keep (Reaches.then {t = t} {u = u} before op) h = elim (Operation-Served op) [
    | inl same ↦ subst P (sym same) (Reaches-invariant P keep before h)
    | inr published ↦ keep t u published (Reaches-invariant P keep before h)
  ]

-- `emptyControl`.
abbrev pub empty_control : (repository epoch : String) → Limits → ControlState
empty_control repository epoch limits = record {
  schema_version = 1;
  repository_id = repository;
  epoch = epoch;
  revision = 0;
  limits = limits;
  works = [];
  cases = [];
  notes = [];
  receipts = [];
  recoveries = [];
  announcements = [];
  bindings = [];
  submission_events = [];
}

-- The revision counts the retained history.
abbrev pub IsCounted : ControlState → Type 0
IsCounted s = s.revision ≡ control_receipt_count s

logged_count :
    (s t : ControlState) → Logged s t → control_receipt_count t ≡ suc (control_receipt_count s)
logged_count s t (Logged.receipt r _ receipts recoveries events) =
    rw (receipts, recoveries, events) (ground (arith, length-append s.receipts (r ∷ [])))
logged_count s t (Logged.recovery r _ receipts recoveries events) =
    rw (receipts, recoveries, events) (ground (arith, length-append s.recoveries (r ∷ [])))
logged_count s t (Logged.event e _ receipts recoveries events) =
    rw (receipts, recoveries, events) (ground (arith, length-append s.submission_events (e ∷ [])))

Published-IsCounted : (s t : ControlState) → Published s t → IsCounted s → IsCounted t
Published-IsCounted s t published h =
    omega (arith, published.revision, logged_count s t published.log, h)

-- In every state that a history from an empty store reaches, the revision is the number of retained
-- receipts, recoveries and submission events.
pub reached-IsCounted :
    (p : Platform) (d : SubmissionDigests) (repository epoch : String) (limits : Limits)
    {t : ControlState}
    → Reaches p d (empty_control repository epoch limits) t
    → IsCounted t
reached-IsCounted p d repository epoch limits h =
    Reaches-invariant p d IsCounted Published-IsCounted h refl

-- How many retained entries of any kind have this key of this parent.
abbrev pub uses : String → String → ControlState → ℕ
uses owner key s =
    count (is_of_key owner key) s.receipts
    + count (is_recovery_key owner key) s.recoveries
    + count (is_event_key owner key) s.submission_events

abbrev pub KeysOnce : ControlState → Type 0
KeysOnce s = (owner key : String) → uses owner key s ≤ 1

uses-Unused : (s : ControlState) (owner key : String) → Unused s owner key → uses owner key s ≡ 0
uses-Unused s owner key (receipts, recoveries, events) = omega (
  arith,
  count_none (is_of_key owner key) s.receipts receipts,
  count_none (is_recovery_key owner key) s.recoveries recoveries,
  count_none (is_event_key owner key) s.submission_events events,
)

-- An entry under the key `made` is the only one of its key, and adds to no other.
use_added :
    (s : ControlState) (made_owner made_key owner key : String) (n : ℕ)
    → Unused s made_owner made_key
    → n ≡ uses owner key s + (if str_eq made_owner owner && str_eq made_key key then 1 else 0)
    → uses owner key s ≤ 1
    → n ≤ 1
use_added s made_owner made_key owner key n fresh e h =
    elim (Bool-cases (str_eq made_owner owner && str_eq made_key key)) [
      | inl same ↦
          let none_yet : uses owner key s ≡ 0 =
            subst (λ o. uses o key s ≡ 0) (eq_of_str_eq made_owner owner (ground (arith, same)))
              (subst (λ k. uses made_owner k s ≡ 0)
                (eq_of_str_eq made_key key (ground (arith, same)))
                (uses-Unused s made_owner made_key fresh)) in
          let bound : n ≡ uses owner key s + 1 = rw same at e in omega (arith, none_yet, bound)
      | inr other ↦ let bound : n ≡ uses owner key s + 0 = rw other at e in omega (arith, bound, h)
    ]

keys_once :
    (s t : ControlState)
    → Logged s t
    → (owner key : String) → uses owner key s ≤ 1
    → uses owner key t ≤ 1
keys_once s t (Logged.receipt r fresh receipts recoveries events) owner key h =
    use_added s r.owner r.key owner key (uses owner key t) fresh
      (rw (receipts, recoveries, events)
        (ground (arith, count-append (is_of_key owner key) s.receipts (r ∷ []))))
      h
keys_once s t (Logged.recovery r fresh receipts recoveries events) owner key h =
    use_added s r.operator r.command.operation_key owner key (uses owner key t) fresh
      (rw (receipts, recoveries, events)
        (ground (arith, count-append (is_recovery_key owner key) s.recoveries (r ∷ []))))
      h
keys_once s t (Logged.event e fresh receipts recoveries events) owner key h =
    use_added s e.owner e.key owner key (uses owner key t) fresh
      (rw (receipts, recoveries, events)
        (ground (arith, count-append (is_event_key owner key) s.submission_events (e ∷ []))))
      h

-- In every state that a history of the nine modelled operations from an empty store reaches, no two
-- retained entries, of whatever kinds, have one key of one parent.
pub reached-KeysOnce :
    (p : Platform) (d : SubmissionDigests) (repository epoch : String) (limits : Limits)
    {t : ControlState}
    → Reaches p d (empty_control repository epoch limits) t
    → KeysOnce t
reached-KeysOnce p d repository epoch limits h =
    Reaches-invariant p d KeysOnce
      (λ s t published k owner key. keys_once s t published.log owner key (k owner key)) h
      (λ owner key. omega arith)
