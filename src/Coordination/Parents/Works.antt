-- ===== src/Coordination/Parents/Works.antt =====
-- src/coordination/control.ts, `apply`: the commands on works.
use passeur.Base.{
  coordination_forbidden, coordination_work_closed, ok, coordination_workspace_held,
  coordination_task_registered, coordination_invalid, ◌∷◌, ◌>>◌, ◌>>=◌, ◌==◌, ◌+◌, ◌++◌, ◌&&◌, ℕ,
  update_first, throw_if, suc, str_eq, some, require, not, none, map, ltb, length, false, contains,
  any, [], String, Result, Option, List, Bool,
}
use passeur.Coordination.State.Commands.{
  max_regions, WorkStep, Watcher, Recipient, Platform, ControlState,
}
use passeur.Coordination.State.Records.{
  Work, SubjectKind, Subject, SourceWatch, SourceGrant, Region, ObjectFormat, ManagedWork, Lifetime,
}
use passeur.Coordination.State.Access.{is_active, own_work}

abbrev pub holds_workspace : String → Work → Bool
holds_workspace workspace work = is_active work.state && str_eq work.workspace_id workspace

abbrev pub change_work : String → (Work → Work) → ControlState → ControlState
change_work id f state = record state { works = update_first (λ w. str_eq w.id id) f state.works }

-- An empty list where there is one, nothing where there is none.
abbrev pub cleared {ℓ} : {A : Type ℓ} → Option (List A) → Option (List A)
cleared none = none
cleared (some _) = some []

abbrev pub work_subject : String → Subject
work_subject id = record { kind = SubjectKind.work; id = id }

-- What `apply` returns, with the state that it leaves.
pub record Applied : Type 0 where
  pub state : ControlState
  pub entity : Subject
  pub item_id : String

abbrev pub registered : ControlState → Work → Applied
registered state work = record {
  state = record state { works = state.works ++ work ∷ [] };
  entity = work_subject work.id;
  item_id = work.id;
}

abbrev pub new_work :
    (id owner workspace input_oid : String)
    → ObjectFormat
    → (intent : String) → List Region
    → (readers : List String) → Option ManagedWork
    → Work
new_work id owner workspace input_oid format intent areas readers managed = record {
  id = id;
  owner = owner;
  workspace_id = workspace;
  revision = 1;
  state = Lifetime.active;
  input_oid = input_oid;
  object_format = format;
  intent = intent;
  areas = areas;
  readers = readers;
  managed = managed;
  source_grants = none;
  source_watches = none;
}

unfoldable pub register_task :
    (workspace input_oid : String)
    → ObjectFormat
    → (intent : String) → List Region
    → ManagedWork
    → ControlState
    → (parent : String) → Result Applied
register_task workspace input_oid format intent areas managed state parent = do
  throw_if (any (λ w. str_eq w.id managed.task_id) state.works) coordination_task_registered
  throw_if (any (holds_workspace workspace) state.works) coordination_workspace_held
  ok (
      registered state
        (new_work managed.task_id parent workspace input_oid format intent areas [] (some managed)))

-- `uuid` is what `randomUUID` returns.
unfoldable pub register_untasked :
    (uuid workspace input_oid : String)
    → ObjectFormat
    → (intent : String) → List Region
    → (readers : List String) → ControlState
    → (parent : String) → Result Applied
register_untasked uuid workspace input_oid format intent areas readers state parent = do
  throw_if (any (holds_workspace workspace) state.works) coordination_workspace_held
  throw_if (contains parent readers) coordination_invalid
  ok (registered state (new_work uuid parent workspace input_oid format intent areas readers none))

abbrev pub without_sources : Work → Work
without_sources work = record work {
  source_grants = cleared work.source_grants;
  source_watches = cleared work.source_watches;
}

abbrev pub granted_at : ℕ → Recipient → SourceGrant
granted_at revision r = record {
  recipient = r.recipient;
  scope = r.scope;
  work_revision = revision;
}

abbrev pub watched_at : ℕ → Watcher → SourceWatch
watched_at revision w = record {
  recipient = w.recipient;
  regions = w.regions;
  dialect_overrides = w.dialect_overrides;
  work_revision = revision;
}

abbrev regrant : ℕ → SourceGrant → SourceGrant
regrant revision g = record g { work_revision = revision }

abbrev pub regranted_at : ℕ → Option (List SourceGrant) → Option (List SourceGrant)
regranted_at revision none = none
regranted_at revision (some grants) = some (map (regrant revision) grants)

abbrev pub is_granted : String → ℕ → Option (List SourceGrant) → Bool
is_granted recipient revision none = false
is_granted recipient revision (some grants) =
    any (λ g. str_eq g.recipient recipient && g.work_revision == revision) grants

abbrev watches_without_grant : String → Work → Watcher → Bool
watches_without_grant parent work watcher =
    not (str_eq watcher.recipient parent)
    && not (is_granted watcher.recipient work.revision work.source_grants)

abbrev pub region_count : List Watcher → ℕ
region_count [] = 0
region_count (w ∷ watchers) = length w.regions + region_count watchers

-- The work after the step, before its revision is counted up.
unfoldable pub step_work : (parent : String) → WorkStep → Work → Result Work
step_work parent (WorkStep.share_work readers) work = do
  throw_if (contains parent readers) coordination_invalid
  ok (record (without_sources work) { readers = readers })
step_work parent (WorkStep.grant_source recipients) work = do
  require (is_active work.state) coordination_work_closed
  throw_if (any (λ r. str_eq r.recipient parent) recipients) coordination_invalid
  ok (record work {
    source_grants = some (map (granted_at (suc work.revision)) recipients);
    source_watches = cleared work.source_watches;
  })
step_work parent (WorkStep.watch_source watchers) work = do
  require (is_active work.state) coordination_work_closed
  throw_if (any (watches_without_grant parent work) watchers) coordination_forbidden
  throw_if (ltb max_regions (region_count watchers)) coordination_invalid
  ok (record work {
    source_watches = some (map (watched_at (suc work.revision)) watchers);
    source_grants = regranted_at (suc work.revision) work.source_grants;
  })
step_work parent WorkStep.close_work work = do
  require (is_active work.state) coordination_work_closed
  ok (record (without_sources work) { state = Lifetime.closed })

abbrev pub next_work : Work → Work
next_work work = record work { revision = suc work.revision }

-- The object that the search found is the one that is changed.
abbrev pub replaced_work : ControlState → Work → Work → Applied
replaced_work state work changed = record {
  state = change_work work.id (λ _. next_work changed) state;
  entity = work_subject work.id;
  item_id = work.id;
}

unfoldable pub apply_work :
    Platform → ControlState → (parent id : String) (revision : ℕ) → WorkStep → Result Applied
apply_work p state parent id revision step = own_work p state parent id revision >>= λ work.
    step_work parent step work >>= λ changed. ok (replaced_work state work changed)
