-- ===== src/Coordination/Submissions/Decision.antt =====
-- src/coordination/control.ts, `submissionDecision`: what a submission is told of work that overlaps
-- its own, and the identity of that answer. The inputs are the decoded ones of
-- src/contracts/coordination-control.ts.
use text.Mathlib.Text.{starts_with}
use Prim.Native.String.{◌++◌ as append}
use passeur.Coordination.State.Records.{
  Work, TerminalEvidence, SubmissionBinding, RegionKind, Region, AnnouncementReference,
  AnnouncementRecord,
}
use passeur.Base.{
  coordination_changed, coordination_not_found, ok, ◌∷◌, ◌||◌, ◌>>◌, ◌==◌, ◌++◌, ◌&&◌, ℕ, true,
  throw_if, str_eq, some, require, opt_str_eq, not, none, map, find, filter, false, contains, any,
  [], String, Result, Option, List, Bool,
}
use passeur.Coordination.State.Commands.{Platform, ControlState}
use passeur.Coordination.State.Access.{is_active, unavailable, can_read_selected_work}
use passeur.Coordination.Parents.Capacity.{is_unresolved_announcement, is_settled_binding, is_bound}
use passeur.Coordination.Parents.Execute.{task_of}

pub record AnnouncementInput : Type 0 where
  pub operation_key : String
  pub id : String
  pub payload_digest : String
  pub source_view : String
  pub assignment_hash : String
  pub areas : List Region
  pub readers : List String

pub record SubmissionPreflightInput : Type 0 where
  pub source_view : String
  pub input_oid : String
  pub intent_hash : String
  pub areas : List Region
  pub announcement : Option AnnouncementReference

pub record SubmissionBindInput : Type 0 where
  pub preflight : SubmissionPreflightInput
  pub operation_key : String
  pub task_id : String
  pub request_key : String
  pub expected_decision_identity : Option String
  pub payload_digest : Option String
  pub assignment_hash : Option String

pub record SubmissionDispositionInput : Type 0 where
  pub operation_key : String
  pub task_id : String
  pub request_key : String
  pub link_hash : String

pub record SubmissionTerminalInput : Type 0 where
  pub disposition : SubmissionDispositionInput
  pub terminal : TerminalEvidence

pub record AnnouncementWithdrawalInput : Type 0 where
  pub operation_key : String
  pub id : String
  pub expected_revision : ℕ

pub data OverlapKind : Type 0 where
  work announcement binding : OverlapKind

pub record Overlap : Type 0 where
  pub kind : OverlapKind
  pub id : String
  pub revision : ℕ
  pub areas : List Region

pub data Disposition : Type 0 where
  settle release : Disposition

-- The digests of submissions, and the sort by kind and identity, whose comparison is the
-- platform's.
pub record SubmissionDigests : Type 0 where
  pub announce_hash : String → AnnouncementInput → String
  pub withdraw_hash : String → AnnouncementWithdrawalInput → String
  pub bind_hash : String → SubmissionBindInput → String
  pub disposition_hash : String → Disposition → SubmissionDispositionInput → String
  pub terminal_hash : String → SubmissionTerminalInput → String
  pub link_hash : String → SubmissionBindInput → String → String
  pub decision_hash : String → SubmissionPreflightInput → List Overlap → String
  pub sorted : List Overlap → List Overlap

abbrev pub is_subtree : RegionKind → Bool
is_subtree RegionKind.subtree = true
is_subtree RegionKind.file = false

unfoldable pub overlap : Region → Region → Bool
overlap a b =
    str_eq a.path b.path
    || is_subtree a.kind && starts_with b.path (append a.path "/")
    || is_subtree b.kind && starts_with a.path (append b.path "/")

abbrev pub shared_areas : List Region → List Region → List Region
shared_areas areas others = filter (λ area. any (overlap area) others) areas

abbrev has_areas : Overlap → Bool
has_areas o = elim o.areas [ [] ↦ false | _ ∷ _ ↦ true ]

abbrev overlap_work : List Region → Work → Overlap
overlap_work areas w = record {
  kind = OverlapKind.work;
  id = w.id;
  revision = w.revision;
  areas = shared_areas w.areas areas;
}

abbrev overlap_announcement : List Region → AnnouncementRecord → Overlap
overlap_announcement areas a = record {
  kind = OverlapKind.announcement;
  id = a.id;
  revision = a.revision;
  areas = shared_areas a.areas areas;
}

abbrev bound_revision : Option AnnouncementReference → ℕ
bound_revision none = 0
bound_revision (some reference) = reference.revision

abbrev overlap_binding : List Region → SubmissionBinding → Overlap
overlap_binding areas b = record {
  kind = OverlapKind.binding;
  id = b.task_id;
  revision = bound_revision b.announcement;
  areas = shared_areas b.areas areas;
}

abbrev pub announcement_of : ControlState → String → Option AnnouncementRecord
announcement_of state id = find (λ a. str_eq a.id id) state.announcements

abbrev is_reference : Option AnnouncementReference → String → Bool
is_reference none id = false
is_reference (some reference) id = str_eq id reference.id

module _ (p : Platform) where
  abbrev readable_work : ControlState → String → Work → Bool
  readable_work state owner w = is_active w.state && can_read_selected_work p state owner w

  abbrev readable_announcement : String → Option AnnouncementReference → AnnouncementRecord → Bool
  readable_announcement owner reference a =
      is_unresolved_announcement a.state
      && not (is_reference reference a.id)
      && (str_eq a.owner owner || contains owner a.readers)

  abbrev discloses_binding : ControlState → String → Option AnnouncementReference → Bool
  discloses_binding state owner none = false
  discloses_binding state owner (some reference) =
      any (λ a. str_eq a.id reference.id && contains owner a.readers) state.announcements

  abbrev is_work_of : ControlState → String → String → Work → Bool
  is_work_of state owner task w =
      opt_str_eq (task_of (some w)) (some task) && can_read_selected_work p state owner w

  abbrev readable_binding : ControlState → String → SubmissionBinding → Bool
  readable_binding state owner b =
      (is_bound b.state || is_settled_binding b.state)
      && (str_eq b.owner owner || discloses_binding state owner b.announcement)
      && not (any (is_work_of state owner b.task_id) state.works)

  -- The overlaps with each kind of record, in the order of the source, before they are sorted.
  abbrev pub found_overlaps : ControlState → String → SubmissionPreflightInput → List Overlap
  found_overlaps state owner input =
      filter has_areas
        (map (overlap_work input.areas) (filter (readable_work state owner) state.works))
      ++ filter has_areas (
          map (overlap_announcement input.areas)
            (filter (readable_announcement owner input.announcement) state.announcements))
      ++ filter has_areas
          (map (overlap_binding input.areas) (filter (readable_binding state owner) state.bindings))

  abbrev pub announcement_changed :
      SubmissionPreflightInput → AnnouncementReference → AnnouncementRecord → Bool
  announcement_changed input reference a =
      not (a.revision == reference.revision)
      || not (is_unresolved_announcement a.state)
      || not (str_eq a.source_view input.source_view)
      || not (str_eq (p.areas_hash a.areas) (p.areas_hash input.areas))

  abbrev check_reference :
      ControlState
      → String
      → SubmissionPreflightInput
      → Option AnnouncementReference
      → Result (Unit {0})
  check_reference state owner input none = ok tt
  check_reference state owner input (some reference) = elim (announcement_of state reference.id) [
    | none ↦ unavailable
    | some a ↦ (do
      require (str_eq a.owner owner) coordination_not_found
      throw_if (announcement_changed input reference a) coordination_changed)
  ]

  pub record SubmissionDecision : Type 0 where
    pub decision_identity : String
    pub overlaps : List Overlap

  -- `preflight` returns it without the revisions of the overlaps.
  unfoldable pub submission_decision :
      SubmissionDigests
      → ControlState
      → (owner : String) → SubmissionPreflightInput
      → Result SubmissionDecision
  submission_decision d state owner input = do
    check_reference state owner input input.announcement
    ok (
        let overlaps = d.sorted (found_overlaps state owner input) in
        record { decision_identity = d.decision_hash owner input overlaps; overlaps = overlaps })
