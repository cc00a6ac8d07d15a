-- ===== src/Coordination/Histories/Sound.antt =====
-- Leads, readers and generations along every history of src/coordination/control.ts.
use passeur.Base.{
  inr, inl, Bool-cases, ◌≤◌, ◌≡◌, ◌∷◌, ◌++◌, update_first, sym, subst, str_eq, some, find-All, find,
  arith, [], String, List, Bool, All-update_first, All-append, All,
}
use passeur.Coordination.State.Records.{Work, Limits, Case}
use passeur.Coordination.Contract.Edits.{WorkEdit, IsSound, IsSeparate, CaseEdit}
use passeur.Coordination.State.Commands.{Platform, ControlState}
use passeur.Coordination.Histories.History.{empty_control, Reaches-invariant, Reaches}
use passeur.Coordination.Submissions.Decision.{SubmissionDigests}
use passeur.Control.Commit.{change}
use passeur.Coordination.Parents.Cases.{latest_generation}
use passeur.Coordination.Submissions.Announce.{}

case-IsSound :
    (before after : List Case) → CaseEdit before after → All IsSound before → All IsSound after
case-IsSound before after (CaseEdit.kept same) h = subst (All IsSound) (sym same) h
case-IsSound before after (CaseEdit.claimed c sound _ _ same) h =
    subst (All IsSound) (sym same) (All-append IsSound before (c ∷ []) h (sound, tt))
case-IsSound before after (CaseEdit.changed item next id found change same) h =
    subst (All IsSound) (sym same) (
      All-update_first IsSound (λ (c : Case). str_eq c.id id) (λ _. next)
        (λ _ _ _.
          change.sound (find-All IsSound (λ (c : Case). str_eq c.id id) before item h found))
        before h)

work-IsSeparate :
    (before after : List Work)
    → WorkEdit before after
    → All IsSeparate before
    → All IsSeparate after
work-IsSeparate before after (WorkEdit.kept same) h = subst (All IsSeparate) (sym same) h
work-IsSeparate before after (WorkEdit.registered w apart _ same) h =
    subst (All IsSeparate) (sym same) (All-append IsSeparate before (w ∷ []) h (apart, tt))
work-IsSeparate before after (WorkEdit.changed item next id found change same) h =
    subst (All IsSeparate) (sym same) (
      All-update_first IsSeparate (λ (w : Work). str_eq w.id id) (λ _. next)
        (λ _ _ _.
          change.separate (find-All IsSeparate (λ (w : Work). str_eq w.id id) before item h found))
        before h)

-- Every lead is a participant of its case, no closed case has an open external effect, and no owner
-- is a reader of its own work.
abbrev pub IsOrderly : ControlState → Type 0
IsOrderly s = All IsSound s.cases × All IsSeparate s.works

-- In every state that a history from an empty store reaches, every lead is a participant of its
-- case, no closed case has an external effect left open, and no owner is among its work's readers.
pub reached-IsOrderly :
    (p : Platform) (d : SubmissionDigests) (repository epoch : String) (limits : Limits)
    {t : ControlState}
    → Reaches p d (empty_control repository epoch limits) t
    → IsOrderly t
reached-IsOrderly p d repository epoch limits h =
    Reaches-invariant p d IsOrderly
      (λ s t published (cases, works). (
        case-IsSound s.cases t.cases published.cases cases,
        work-IsSeparate s.works t.works published.works works,
      ))
      h (tt, tt)

latest-append :
    (target : String) (cs : List Case) (c : Case)
    → latest_generation target cs ≤ latest_generation target (cs ++ c ∷ [])
latest-append target [] c = omega arith
latest-append target (x ∷ cs) c =
    ground (arith, Bool-cases (str_eq x.target target), latest-append target cs c)

latest-replace :
    (target : String) (q : Case → Bool) (cs : List Case) (item next : Case)
    → find q cs ≡ some item
    → next.target ≡ item.target
    → item.generation ≤ next.generation
    → latest_generation target cs ≤ latest_generation target (update_first q (λ _. next) cs)
latest-replace target q [] item next h e k = absurd (cc)
latest-replace target q (x ∷ cs) item next h e k = elim (Bool-cases (q x)) [
  | inl here ↦
      let same : some x ≡ some item = rw here at h in
      let is_item : x ≡ item = cc in
      rw (here, is_item)
        (elim (Bool-cases (str_eq item.target target)) [
          | inl t ↦ rw (e, t) (ground arith)
          | inr t ↦ rw (e, t) (omega arith)
        ])
  | inr there ↦ rw there (
      ground (
        arith,
        Bool-cases (str_eq x.target target),
        latest-replace target q cs item next (rw there at h) e k,
      ))
]

generation_kept :
    (target : String) (before after : List Case)
    → CaseEdit before after
    → latest_generation target before ≤ latest_generation target after
generation_kept target before after (CaseEdit.kept same) = rw same (omega arith)
generation_kept target before after (CaseEdit.claimed c _ _ _ same) =
    rw same (latest-append target before c)
generation_kept target before after (CaseEdit.changed item next id found change same) = rw same (
    latest-replace target (λ (c : Case). str_eq c.id id) before item next found change.same_target
      (ground (arith, change.fenced)))

-- Along every history the highest generation of a target never falls.
pub latest_generation-rises :
    (p : Platform) (d : SubmissionDigests) (target : String) {s t : ControlState}
    → Reaches p d s t
    → latest_generation target s.cases ≤ latest_generation target t.cases
latest_generation-rises p d target {s} h =
    Reaches-invariant p d (λ u. latest_generation target s.cases ≤ latest_generation target u.cases)
      (λ u t published k. omega (arith, generation_kept target u.cases t.cases published.cases, k))
      h (omega arith)
