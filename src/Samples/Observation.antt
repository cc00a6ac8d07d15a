-- ===== src/Samples/Observation.antt =====
-- The cache of captured pairs and the lanes of a connection at sample values.
use passeur.Observation.Cache.{
  put, pair_bytes, max_capture_bytes, get, evict, SourceIdentity, SourceFile, GitSource,
  Consistency, CapturedPairCache, CachedPair,
}
use passeur.Service.Requests.{
  is_lane, coordination_request_lane, connection_ordinary_requests, connection_control_requests,
  assert_request_capacity, RequestLane, CoordinationRequest,
}
use passeur.Observation.Evictions.{put-IsBounded, evict-ends, IsMeasured, IsBounded, Evicted}
use passeur.Coordination.State.Records.{ObjectFormat}
use passeur.Service.Room.{Pending-bounded, Pending}
use passeur.Coordination.State.Commands.{WorkStep, Request}
use passeur.Base.{filter, ok, ◌≤◌, ◌≡◌, ◌∷◌, refl, none, count, arith, []}

abbrev head : GitSource
head = record {
  repository_id = "repository";
  object_format = ObjectFormat.sha1;
  commit_oid = "oid";
  tree_oid = "tree";
  path = "src/a.ts";
}

abbrev file : SourceFile
file =
    SourceFile.present (SourceIdentity.commit head) "100644" "digest" 7 "let a=1"
      Consistency.immutable_git_blob none

abbrev pair : CachedPair
pair = record {
  work_id = "task";
  work_revision = 1;
  input = file;
  observed = SourceFile.absent_in_commit head;
}

abbrev one_pair : CapturedPairCache
one_pair = record { entries = record { id = "e1"; pair = pair } ∷ []; bytes = 7 }

measured : IsMeasured one_pair
unfolding pair_bytes
measured = refl

within : pair_bytes pair ≤ max_capture_bytes
unfolding pair_bytes
within = omega arith

evict-ends_example : Evicted 7 one_pair (evict 2 7 one_pair)
evict-ends_example = evict-ends 2 7 one_pair (omega arith) (omega arith) measured

put-IsBounded_example :
    (after : CapturedPairCache) × (put "e2" pair one_pair ≡ ok ("e2", after))
    × IsBounded after
    × (get "e2" after ≡ ok pair)
put-IsBounded_example =
    put-IsBounded "e2" pair one_pair (measured, omega arith, omega arith) within refl

abbrev closing : Request
closing = Request.on_work "task" 1 WorkStep.close_work

admits : assert_request_capacity [] RequestLane.ordinary ≡ ok tt
unfolding assert_request_capacity
admits = refl

Pending-bounded_example :
    (count (is_lane RequestLane.ordinary) (RequestLane.ordinary ∷ [])
      ≤ connection_ordinary_requests)
    × (count (is_lane RequestLane.control) (RequestLane.ordinary ∷ [])
        ≤ connection_control_requests)
    × (assert_request_capacity
          (RequestLane.ordinary ∷ [])
          (coordination_request_lane (CoordinationRequest.command closing))
        ≡ assert_request_capacity
            (filter (is_lane RequestLane.control) (RequestLane.ordinary ∷ []))
            (coordination_request_lane (CoordinationRequest.command closing)))
Pending-bounded_example =
    Pending-bounded (RequestLane.ordinary ∷ []) closing
      (Pending.came RequestLane.ordinary Pending.none_pending admits) refl
