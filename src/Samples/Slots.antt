-- ===== src/Samples/Slots.antt =====
-- A bundle of two sources, reserved and given back.
use passeur.Slots.Recipient.{Entry, Resource, ResourceState}
use passeur.Contracts.Peer.{max_peer_deliveries, Slot, Bundle}
use passeur.Base.{
  ok, ◌≤◌, ◌≡◌, ◌∷◌, ◌+◌, ◌++◌, true, some, refl, not, none, map, length, filter, all, [], List,
}
use passeur.Contracts.Task.{TaskControl}
use passeur.Samples.{finished, digests}
use passeur.Slots.Release.{release_one, release_each, release_draft, of_operation, give_back}
use passeur.Slots.Claims.{is_new, is_claimed}
use passeur.Slots.Returns.{release_draft-given_back, is_given_back}
use passeur.Completion.Peers.{reservations}
use passeur.Slots.Reserve.{wanted_slot, reserve_one, reserve_each, reserve_draft}
use passeur.Slots.Laws.{reserve_draft-claimed, reserve_draft-again}
use passeur.Contracts.Valid.{reserved_count}

abbrev bundle : Bundle
bundle = record {
  operation_key = "op";
  request_digest = "rd";
  case_id = "case";
  expected_case_revision = 1;
  case_revision = 2;
  case_generation = 1;
  recipient_task_id = "task";
  recipient_run_id = "run";
  recipient_control_generation = 1;
  recipient_workspace = "/w";
  recipient_workspace_fingerprint = "task/w";
  sources =
      record { work_id = "w1"; work_revision = 1 }
      ∷ record { work_id = "w2"; work_revision = 3 }
      ∷ [];
}

abbrev entry : Entry
entry = record { request_version = 5; source_view = "/src"; workspace = some "/w" }

abbrev resource : Resource
resource = record {
  state = ResourceState.pending;
  worktree_path = some "/w";
  base_commit = some "b0";
  branch_ref = none;
  target_ref = none;
}

abbrev two_slots : List Slot
two_slots = map (wanted_slot bundle) bundle.sources

abbrev with_slots : TaskControl
with_slots = record finished { peer_delivery_reservations = some two_slots }

reserved_two :
    reserve_draft digests bundle (some entry) (some resource) finished ≡ ok (tt, with_slots)
unfolding reserve_draft reserve_each reserve_one
reserved_two = refl

reserve_draft-claimed_example :
    (all (is_claimed digests bundle (reservations with_slots)) bundle.sources ≡ true)
    × ((added : List Slot) × (reservations with_slots ≡ reservations finished ++ added)
        × (all (is_new digests bundle) added ≡ true))
    × (length finished.peer_deliveries + reserved_count (reservations finished)
          ≤ max_peer_deliveries
        → length with_slots.peer_deliveries + reserved_count (reservations with_slots)
          ≤ max_peer_deliveries)
reserve_draft-claimed_example =
    reserve_draft-claimed digests bundle (some entry) (some resource) finished {t = with_slots}
      reserved_two

reserve_draft-again_example :
    reserve_draft digests bundle (some entry) (some resource) with_slots ≡ ok (tt, with_slots)
reserve_draft-again_example =
    reserve_draft-again digests bundle (some entry) (some resource) finished {t = with_slots}
      reserved_two

abbrev gone_slots : List Slot
gone_slots = map give_back two_slots

abbrev gone : TaskControl
gone = record finished { peer_delivery_reservations = some gone_slots }

released_two : release_draft digests bundle with_slots ≡ ok (tt, gone)
unfolding release_draft release_each release_one
released_two = refl

release_draft-given_back_example :
    (less : List Slot) × (gone ≡ record with_slots { peer_delivery_reservations = some less })
    × (all (is_given_back digests bundle less) bundle.sources ≡ true)
    × (filter (λ x. not (of_operation bundle x)) less
        ≡ filter (λ x. not (of_operation bundle x)) two_slots)
release_draft-given_back_example =
    release_draft-given_back digests bundle with_slots two_slots {t = gone} refl refl released_two
