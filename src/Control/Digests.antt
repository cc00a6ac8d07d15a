-- ===== src/Control/Digests.antt =====
-- `canonicalHash`, on the values to which the modelled code applies it, as a parameter: the SHA-256
-- of a canonical JSON text.
use passeur.Base.{ℕ, String, Option}
use passeur.Contracts.Peer.{SlotIdentity, Source}
use passeur.Contracts.Task.{InputData, TaskControl}

-- What identifies the intent of a control operation.
pub data Contents : Type 0 where
  cancel_contents : (id : String) (generation : ℕ) (reason : String) → Contents
  attach_contents : (id owner_id : String) → Contents
  input_contents : (task_id id : String) (generation : ℕ) (answer : String) → Contents

-- The part of a delivery's envelope that `unresolvedPeerCompletion` groups by.
pub record Group : Type 0 where
  pub case_id : String
  pub case_revision : ℕ
  pub case_generation : ℕ
  pub source_work_id : String
  pub recipient_task_id : String
  pub recipient_run_id : String
  pub recipient_control_generation : ℕ
  pub recipient_workspace : String
  pub recipient_workspace_fingerprint : String

-- What the fingerprint of a task's workspace covers.
pub record WorkspaceIdentity : Type 0 where
  pub task_id : String
  pub source_view : String
  pub workspace : String
  pub base_commit : Option String
  pub branch_ref : Option String
  pub target_ref : Option String

pub record Digests : Type 0 where
  pub contents : Contents → String
  pub input : InputData → String
  pub control : TaskControl → String
  pub group : Group → String
  pub slot : SlotIdentity → String
  pub source : Source → String
  -- `peerDeliveryContentDigest`.
  pub content : String → String
  pub workspace : WorkspaceIdentity → String
