-- ===== src/Coordination/Histories/Fence.antt =====
-- src/coordination/control.ts: the generation of a case fences its leads.
use passeur.Base.{
  none, Option, Bool, >>=-eq-ok, ok, ◌⊎◌, ◌≢◌, ◌≡◌, ◌∷◌, ◌∙◌, ◌<◌, ℕ, update_first, true, sym,
  subst, str_eq, some, refl, inr, inl, find-replace_other, find-replace, find-pass,
  find-append_some, find, false, eq_of_str_eq, arith, [], String, List, Bool-cases,
}
use passeur.Coordination.State.Records.{CoordinationReceipt, Case}
use passeur.Coordination.Contract.Edits.{Fenced, CaseEdit, CaseChange}
use passeur.Coordination.State.Commands.{Request, Command, CaseStep, Platform, ControlState}
use passeur.Coordination.Histories.History.{Reaches-invariant, Reaches}
use passeur.Coordination.Submissions.Decision.{SubmissionDigests}
use passeur.Coordination.State.Access.{is_active, own_case, case_of}
use passeur.Control.Commit.{change}
use passeur.Coordination.Contract.CaseEdits.{own_case-eq-ok}
use passeur.Coordination.Parents.Works.{Applied}
use passeur.Coordination.Parents.Execute.{
  with_schema, schema_after, record_command, is_of_key, execute_command, ResourceVersion,
  Controller, ConsentGuard,
}
use passeur.Coordination.Parents.Apply.{apply}
use passeur.Coordination.Parents.Cases.{apply_case}
use passeur.Coordination.Contract.Executed.{execute_command-cases}

-- The later form of a case: its target stays, a closed case stays as it is closed, and the lead is
-- the same unless the generation has grown.
pub record Succeeds (before after : Case) : Type 0 where
  pub same_id : after.id ≡ before.id
  pub same_target : after.target ≡ before.target
  pub stays_closed : is_active after.state ≡ true → is_active before.state ≡ true
  pub lead :
      (after.lead ≡ before.lead) × (after.generation ≡ before.generation)
      ⊎ (before.generation < after.generation)

Succeeds-itself : (c : Case) → Succeeds c c
Succeeds-itself c = record {
  same_id = refl;
  same_target = refl;
  stays_closed = λ h. h;
  lead = inl (refl, refl);
}

later :
    (a b c : Case)
    → (b.lead ≡ a.lead) × (b.generation ≡ a.generation) ⊎ (a.generation < b.generation)
    → Fenced b c
    → (c.lead ≡ a.lead) × (c.generation ≡ a.generation) ⊎ (a.generation < c.generation)
later a b c (inl (lead, generation)) (inl (lead', generation')) =
    inl (lead' ∙ lead, generation' ∙ generation)
later a b c (inl (lead, generation)) (inr next) = inr (omega (arith, generation, next))
later a b c (inr grown) (inl (lead', generation')) = inr (omega (arith, grown, generation'))
later a b c (inr grown) (inr next) = inr (omega (arith, grown, next))

Succeeds-change : (a b c : Case) → Succeeds a b → CaseChange b c → Succeeds a c
Succeeds-change a b c before change = record {
  same_id = change.same_id ∙ before.same_id;
  same_target = change.same_target ∙ before.same_target;
  stays_closed = λ _. before.stays_closed change.was_active;
  lead = later a b c before.lead change.fenced;
}

abbrev Holds : String → Case → List Case → Type 0
Holds id a cs = (b : Case) × (find (λ (c : Case). str_eq c.id id) cs ≡ some b) × Succeeds a b

edit_succeeds :
    (id : String) (a : Case) (before after : List Case)
    → CaseEdit before after
    → Holds id a before
    → Holds id a after
edit_succeeds id a before after (CaseEdit.kept same) h = subst (Holds id a) (sym same) h
edit_succeeds id a before after (CaseEdit.claimed c _ _ _ same) (b, found, s) =
    subst (Holds id a) (sym same)
      (b, find-append_some (λ (c : Case). str_eq c.id id) before (c ∷ []) b found, s)
edit_succeeds id a before after (CaseEdit.changed item next key at_key change same) (b, found, s) =
    subst (Holds id a) (sym same) (elim (Bool-cases (str_eq item.id id)) [
      | inl here ↦
          let id_key : item.id ≡ key =
            eq_of_str_eq item.id key
              (find-pass (λ (c : Case). str_eq c.id key) before item at_key) in
          let id_id : item.id ≡ id = eq_of_str_eq item.id id here in
          let key_id : key ≡ id = sym id_key ∙ id_id in
          let found_item : find (λ (c : Case). str_eq c.id id) before ≡ some item =
            subst (λ k. find (λ (c : Case). str_eq c.id k) before ≡ some item) key_id at_key in
          let same_b : b ≡ item = ground (arith, found, found_item) in
          (
            next,
            subst
                (λ k.
                  find (λ (c : Case). str_eq c.id id)
                    (update_first (λ (c : Case). str_eq c.id k) (λ _. next) before)
                  ≡ some next)
                (sym key_id)
                (find-replace (λ (c : Case). str_eq c.id id) before item next found_item
                  (subst (λ k. str_eq k id ≡ true) (sym change.same_id) here)),
            Succeeds-change a item next (subst (Succeeds a) same_b s) change,
          )
      | inr there ↦ (
        b,
        find-replace_other (λ (c : Case). str_eq c.id id) (λ (c : Case). str_eq c.id key) before
              item next at_key there (subst (λ k. str_eq k id ≡ false) (sym change.same_id) there)
            ∙ found,
        s,
      )
    ])

-- Along every history a case stays: its target is the same, it never opens again, and either its
-- lead and its generation are the same or its generation has grown.
pub case_of-Succeeds :
    (p : Platform) (d : SubmissionDigests) (id : String) (a : Case) {s t : ControlState}
    → case_of s id ≡ some a
    → Reaches p d s t
    → (b : Case) × (case_of t id ≡ some b) × Succeeds a b
case_of-Succeeds p d id a {s} found h =
    Reaches-invariant p d (λ u. Holds id a u.cases)
      (λ u t published held. edit_succeeds id a u.cases t.cases published.cases held) h
      (a, found, Succeeds-itself a)

own_case-fenced :
    (p : Platform) (d : SubmissionDigests) (id : String) (a b : Case) {s t : ControlState}
    → case_of s id ≡ some a
    → Reaches p d s t
    → case_of t id ≡ some b
    → b.lead ≢ a.lead
    → (revision generation : ℕ)
    → ((item : Case) → own_case t a.lead id revision generation ≢ ok item)
      × ((parent : String) (item : Case) → own_case t parent id revision a.generation ≢ ok item)
own_case-fenced p d id a b {s} {t} found h now other revision generation =
    let (c, there, after) = case_of-Succeeds p d id a found h in
    let same : c ≡ b = ground (arith, there, now) in
    (
      λ item k.
          let (at_item, lead, _, _, _, _) = own_case-eq-ok t a.lead id revision generation k in
          let here : item ≡ b = ground (arith, at_item, now) in
          other (subst (λ (x : Case). x.lead ≡ a.lead) here lead),
      λ parent item k.
          let (at_item, _, kept, _, _, _) = own_case-eq-ok t parent id revision a.generation k in
          let here : item ≡ b = ground (arith, at_item, now) in
          let kept_b : b.generation ≡ a.generation =
            subst (λ (x : Case). x.generation ≡ a.generation) here kept in
          elim after.lead [
            | inl (lead, _) ↦ other (subst (λ (x : Case). x.lead ≡ a.lead) same lead)
            | inr grown ↦
                let grown_b : a.generation < b.generation =
                  subst (λ (x : Case). a.generation < x.generation) same grown in
                omega (arith, grown_b, kept_b)
          ],
    )

apply-own_case :
    (p : Platform) (uuid : String) (observed : Bool) (s : ControlState) (owner id : String)
    (revision generation : ℕ) (step : CaseStep) {applied : Applied}
    → apply p uuid observed s owner (Request.on_case id revision generation step) ≡ ok applied
    → (item : Case) × (own_case s owner id revision generation ≡ ok item)
unfolding apply apply_case
apply-own_case p uuid observed s owner id revision generation step h =
    let (item, owned, _) = >>=-eq-ok (own_case s owner id revision generation) _ h in (item, owned)

-- A command on a case that returns under a new key has passed the fence of the case.
execute_command-own_case :
    (p : Platform) (c : Controller) (uuid : String) (observed : Bool) (guard : Option ConsentGuard)
    (versions : List ResourceVersion) (s : ControlState) (owner : String) (command : Command)
    (id : String) (revision generation : ℕ) (step : CaseStep) {r : CoordinationReceipt}
    {t : ControlState}
    → command.request ≡ Request.on_case id revision generation step
    → find (is_of_key owner command.operation_key) s.receipts ≡ none
    → execute_command p c uuid observed guard versions s owner command ≡ ok (r, t)
    → (item : Case) × (own_case s owner id revision generation ≡ ok item)
unfolding record_command own_case
execute_command-own_case p c uuid observed guard versions s owner command id revision generation
      step {r} {t} asked fresh h =
    elim (execute_command-cases p c uuid observed guard versions s owner command r t h) [
      | inl (found, _, _) ↦ absurd (ground (arith, found, fresh))
      | inr (_, _, run) ↦
          let v = schema_after observed command.request s.schema_version in
          let (applied, done, _) =
            >>=-eq-ok (apply p uuid observed (with_schema v s) owner command.request) _ run in
          apply-own_case p uuid observed (with_schema v s) owner id revision generation step
            (subst (λ q. apply p uuid observed (with_schema v s) owner q ≡ ok applied) asked done)
    ]

-- After any history of the modelled operations at whose end another parent leads a case, no command on
-- that case, with whatever step and revision, returns under a key that its sender has no receipt of, if
-- the former lead sends it, or if it names the generation of the former lead, whoever sends it.
pub execute_command-fenced :
    (p : Platform) (d : SubmissionDigests) (id : String) (a b : Case) {s t : ControlState}
    → case_of s id ≡ some a
    → Reaches p d s t
    → case_of t id ≡ some b
    → b.lead ≢ a.lead
    → (c : Controller) (uuid : String) (observed : Bool) (guard : Option ConsentGuard)
      (versions : List ResourceVersion) (owner : String) (command : Command)
      (revision generation : ℕ) (step : CaseStep)
    → command.request ≡ Request.on_case id revision generation step
    → find (is_of_key owner command.operation_key) t.receipts ≡ none
    → (owner ≡ a.lead) ⊎ (generation ≡ a.generation)
    → (r : CoordinationReceipt) (u : ControlState)
    → execute_command p c uuid observed guard versions t owner command ≢ ok (r, u)
execute_command-fenced p d id a b {s} {t} found h now other c uuid observed guard versions owner
      command revision generation step asked fresh stale r u k =
    let (item, owned) =
      execute_command-own_case p c uuid observed guard versions t owner command id revision
        generation step asked fresh k in
    elim stale [
      | inl former ↦
          (own_case-fenced p d id a b found h now other revision generation).0 item
            (subst (λ o. own_case t o id revision generation ≡ ok item) former owned)
      | inr old ↦
          (own_case-fenced p d id a b found h now other revision generation).1 owner item
            (subst (λ g. own_case t owner id revision g ≡ ok item) old owned)
    ]
