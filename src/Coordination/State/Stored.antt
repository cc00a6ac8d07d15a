-- ===== src/Coordination/State/Stored.antt =====
-- src/store/coordination-store.ts, `snapshot` and `publish`: what is read, and what is stored, is
-- decoded, of which the checks that identities of cases and operation keys are unique are modelled.
use Prim.Native.String.{◌++◌ as append}
use passeur.Base.{
  map-append, eq_of_str_eq, contains-append, coordination_invalid, ◌≡◌, ◌∷◌, ◌∙◌, ◌>>◌, ◌>>=◌, ◌++◌,
  ◌&&◌, subst, require-eq-ok, require, refl, map, inr, inl, false, eq_iff, distinct, contains,
  arith, ap, any, [], String, Result, List, Distinct-iff, Distinct, Bool-cases, Bool, >>=-eq-ok, ok,
  true,
}
use passeur.Coordination.State.Records.{SubmissionEvent, CoordinationReceipt, Case}
use passeur.Coordination.State.Commands.{RecoveryReceipt, ControlState}
use passeur.Coordination.Parents.Execute.{is_recovery_key, is_event_key}

-- `owner:key`, under which `decodeControl` compares the entries of all kinds.
abbrev pub entry_key : String → String → String
entry_key owner key = append owner (append ":" key)

abbrev pub receipt_key : CoordinationReceipt → String
receipt_key r = entry_key r.owner r.key

abbrev pub recovery_key : RecoveryReceipt → String
recovery_key r = entry_key r.operator r.command.operation_key

abbrev pub event_key : SubmissionEvent → String
event_key e = entry_key e.owner e.key

abbrev pub entry_keys : ControlState → List String
entry_keys s =
    map receipt_key s.receipts
    ++ (map recovery_key s.recoveries ++ map event_key s.submission_events)

-- `unique`, of the cases and of all the entries.
unfoldable pub is_unique : ControlState → Bool
is_unique s = distinct (map (λ (c : Case). c.id) s.cases) && distinct (entry_keys s)

-- An operation on the stored state: `snapshot` decodes what it starts from, and `publish` what it
-- leaves. An operation that repeats an old answer publishes nothing, and leaves what it read.
unfoldable pub through_store {ℓ} :
    {A : Type ℓ} → ControlState → Result (A × ControlState) → Result (A × ControlState)
unfolding is_unique
through_store s run = do
  require (is_unique s) coordination_invalid
  r ← run
  require (is_unique r.1) coordination_invalid
  ok r

pub through_store-eq-ok {ℓ} :
    {A : Type ℓ} (s : ControlState) (run : Result (A × ControlState)) {a : A} {t : ControlState}
    → through_store s run ≡ ok (a, t)
    → (run ≡ ok (a, t)) × (is_unique s ≡ true) × (is_unique t ≡ true)
unfolding through_store
through_store-eq-ok {A = A} s run {a} {t} h =
    let (before, k) = require-eq-ok (is_unique s) coordination_invalid _ h in
    let (r, made, k') = >>=-eq-ok run _ k in
    let (after, k'') = require-eq-ok (is_unique r.1) coordination_invalid _ k' in
    let same : r ≡ (a, t) = ground (arith, k'') in
    (made ∙ ap ok same, before, subst (λ (x : A × ControlState). is_unique x.1 ≡ true) same after)

pub is_unique-cases :
    (s : ControlState) → is_unique s ≡ true → Distinct (map (λ (c : Case). c.id) s.cases)
unfolding is_unique
is_unique-cases s h = (Distinct-iff _).0 (ground (arith, h))

-- In a list without repetition a key does not come again.
fresh_last :
    (xs : List String) (x : String) (ys : List String)
    → Distinct ((xs ++ x ∷ []) ++ ys)
    → contains x ys ≡ false
fresh_last [] x ys (fresh, h) = fresh
fresh_last (y ∷ xs) x ys (_, h) = fresh_last xs x ys h

contained_key {ℓ} :
    {A : Type ℓ} (f : A → String) (p : A → Bool) (key : String)
    → ((a : A) → p a ≡ true → f a ≡ key)
    → (items : List A) → contains key (map f items) ≡ false
    → any p items ≡ false
contained_key f p key agree [] h = refl
contained_key f p key agree (a ∷ items) h = elim (Bool-cases (p a)) [
  | inl e ↦ absurd (ground (arith, h, eq_iff (f a) key, eq_iff key (f a), agree a e))
  | inr e ↦ rw e (contained_key f p key agree items (ground (arith, h)))
]

-- What is decoded with a new receipt at its end has its key in no recovery and in no submission.
pub is_unique-key :
    (s t : ControlState) (r : CoordinationReceipt)
    → t.receipts ≡ s.receipts ++ r ∷ []
    → t.recoveries ≡ s.recoveries
    → t.submission_events ≡ s.submission_events
    → is_unique t ≡ true
    → (any (is_recovery_key r.owner r.key) s.recoveries ≡ false)
      × (any (is_event_key r.owner r.key) s.submission_events ≡ false)
unfolding is_unique
is_unique-key s t r receipts recoveries events h =
    let keys : entry_keys t
        ≡ (map receipt_key s.receipts ++ receipt_key r ∷ [])
          ++ (map recovery_key s.recoveries ++ map event_key s.submission_events) =
      rw (receipts, recoveries, events, map-append receipt_key s.receipts (r ∷ [])) refl in
    let apart : Distinct (entry_keys t) = (Distinct-iff (entry_keys t)).0 (ground (arith, h)) in
    let fresh : contains (receipt_key r)
          (map recovery_key s.recoveries ++ map event_key s.submission_events)
        ≡ false =
      fresh_last (map receipt_key s.receipts) (receipt_key r) _ (subst Distinct keys apart) in
    let split =
      contains-append (receipt_key r) (map recovery_key s.recoveries)
        (map event_key s.submission_events) in
    (
      contained_key recovery_key (is_recovery_key r.owner r.key) (receipt_key r)
          (λ x e. cc (
            eq_of_str_eq x.operator r.owner (ground (arith, e)),
            eq_of_str_eq x.command.operation_key r.key (ground (arith, e)),
          ))
          s.recoveries (ground (arith, split, fresh)),
      contained_key event_key (is_event_key r.owner r.key) (receipt_key r)
          (λ x e. cc (
            eq_of_str_eq x.owner r.owner (ground (arith, e)),
            eq_of_str_eq x.key r.key (ground (arith, e)),
          ))
          s.submission_events (ground (arith, split, fresh)),
    )
