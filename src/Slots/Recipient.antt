-- ===== src/Slots/Recipient.antt =====
-- src/core/coordinator.ts: what the coordinator knows of a task that is running, beside its record.
use passeur.Base.{
  true, false, ℕ, String, Bool, Option, none, some, Result, ◌>>◌, throw_if,
  project_needs_reconciliation, bridge_closing,
}
use passeur.Contracts.Valid.{nonempty}
use passeur.Control.Digests.{Digests}

-- An entry of `#entries`: the retained request's schema version and source view, and the workspace.
pub record Entry : Type 0 where
  pub request_version : ℕ
  pub source_view : String
  pub workspace : Option String

pub data ResourceState : Type 0 where
  creating pending retained cleanup_pending retired not_applicable legacy_unclassified :
      ResourceState

abbrev pub is_pending_resource : ResourceState → Bool
is_pending_resource ResourceState.pending = true
is_pending_resource _ = false

-- What is read of the task's `OwnedResourceRecord`.
pub record Resource : Type 0 where
  pub state : ResourceState
  pub worktree_path : Option String
  pub base_commit : Option String
  pub branch_ref : Option String
  pub target_ref : Option String

-- What `assertMutationAllowed` consults: the authority, the reasons to be frozen, and `#closing`.
pub record Gate : Type 0 where
  pub authority : Result (Unit {0})
  pub frozen : Option String
  pub stored_frozen : Option String
  pub closing : Bool

abbrev frozen_reason : Gate → Option String
frozen_reason g = elim g.frozen [ some reason ↦ some reason | none ↦ g.stored_frozen ]

abbrev pub assert_mutation_allowed : Gate → Result (Unit {0})
assert_mutation_allowed g = do
  g.authority
  throw_if (nonempty (frozen_reason g)) project_needs_reconciliation
  throw_if g.closing bridge_closing

-- The fingerprint of the workspace that the coordinator holds for a task.
abbrev pub fingerprint : Digests → String → Entry → String → Resource → String
fingerprint d id entry workspace resource = d.workspace (record {
  task_id = id;
  source_view = entry.source_view;
  workspace = workspace;
  base_commit = resource.base_commit;
  branch_ref = resource.branch_ref;
  target_ref = resource.target_ref;
})
