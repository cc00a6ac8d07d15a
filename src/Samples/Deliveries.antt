-- ===== src/Samples/Deliveries.antt =====
-- A queue of two deliveries, handed out one after the other.
use Prim.Native.String.{◌++◌ as append}
use passeur.Deliveries.History.{dispatches}
use passeur.Samples.{native_live, digests, finished, envelope, queued_delivery}
use passeur.Contracts.Peer.{max_peer_deliveries, is_queued, Envelope, Delivery}
use passeur.Deliveries.Once.{DeliveryStep-Follows}
use passeur.Control.Digests.{Digests}
use passeur.Deliveries.Moves.{Follows}
use passeur.Base.{
  ◌⊎◌, ◌≤◌, true, some, none, find, arith, ok, ◌≢◌, ◌≡◌, ◌∷◌, refl, if◌then◌else◌, false, [],
  String, List,
}
use passeur.Control.Commit.Laws.{NoCollision}
use passeur.Contracts.Task.{Coverage, TaskControl}
use passeur.Deliveries.Binding.{immutable_envelope, Validity}
use passeur.Deliveries.Dispatch.{hand, with_head, turn_pending, intend, dispatch_draft, dispatch}
use passeur.Deliveries.Fence.{start, dispatch_once}
use passeur.Deliveries.Receipts.{
  with_delivery, stamp, same_native, has_idempotency_key, fits_target, awaits, accept_draft, Target,
  Receipt,
}
use passeur.Deliveries.Evidence.{is_attested, accept_draft-attested}
use passeur.Deliveries.Queue.{value, source_of, queue_draft, queue, fresh_delivery, admit_new}
use passeur.Deliveries.Capacity.{queue-Fits, load}
use passeur.Completion.Peers.{reservations}

abbrev second : Envelope
second = record envelope { delivery_id = "d2"; idempotency_key = "k2" }

abbrev later_delivery : Delivery
later_delivery = record queued_delivery { envelope = second }

abbrev states_text : List Delivery → String
states_text [] = ""
states_text (r ∷ rs) = append (if is_queued r.state then "" else "d") (states_text rs)

-- Digests that tell the states of the deliveries apart.
abbrev by_deliveries : Digests
by_deliveries = record digests { control = λ s. states_text s.peer_deliveries }

abbrev two_queued : TaskControl
two_queued = record finished { peer_deliveries = queued_delivery ∷ later_delivery ∷ [] }

abbrev one_out : TaskControl
one_out = record two_queued {
  revision = 5;
  updated_at = 10;
  peer_deliveries = intend 10 queued_delivery ∷ later_delivery ∷ [];
}

abbrev both_out : TaskControl
both_out = record one_out {
  revision = 6;
  updated_at = 11;
  peer_deliveries = intend 10 queued_delivery ∷ intend 11 later_delivery ∷ [];
}

first_out :
    dispatch by_deliveries 10 4 queued_delivery Validity.current two_queued
    ≡ ok (hand envelope, one_out)
unfolding dispatch dispatch_draft immutable_envelope
first_out = refl

second_out :
    dispatch by_deliveries 11 5 later_delivery Validity.current one_out ≡ ok (hand second, both_out)
unfolding dispatch dispatch_draft immutable_envelope
second_out = refl

out_apart : NoCollision by_deliveries two_queued (with_head (intend 10) two_queued)
out_apart e = absurd (cc)

dispatch_once_example :
    (Validity.current ≡ Validity.current)
    × (turn_pending two_queued ≡ false)
    × (second.idempotency_key ≢ envelope.idempotency_key)
dispatch_once_example =
    dispatch_once by_deliveries 16 (λ t. 7) (λ t. false) 10 4 queued_delivery Validity.current
      two_queued {e = envelope} {t = one_out} {u = one_out} out_apart first_out start
      (refl, (refl, tt)) 11 5 later_delivery Validity.current {e' = second} {v = both_out}
      second_out

DeliveryStep-Follows_example : Follows two_queued.peer_deliveries one_out.peer_deliveries
DeliveryStep-Follows_example =
    DeliveryStep-Follows by_deliveries 16 (λ t. 7) (λ t. false) {s = two_queued} {t = one_out}
      (dispatches 10 4 queued_delivery Validity.current first_out)

abbrev third : Envelope
third = record envelope { delivery_id = "d3"; idempotency_key = "k3" }

abbrev three_queued : TaskControl
three_queued = record two_queued {
  revision = 5;
  updated_at = 12;
  peer_deliveries = queued_delivery ∷ later_delivery ∷ fresh_delivery 12 third ∷ [];
}

-- Digests that count the deliveries.
abbrev count_text : List Delivery → String
count_text [] = ""
count_text (r ∷ rs) = append "d" (count_text rs)

abbrev by_count : Digests
by_count = record digests { control = λ s. count_text s.peer_deliveries }

third_queued :
    queue by_count 12 4 (source_of third) none (some third) Validity.current two_queued
    ≡ ok (value third, three_queued)
unfolding queue queue_draft admit_new
third_queued = refl

queue-Fits_example :
    load three_queued.peer_deliveries (reservations three_queued) ≤ max_peer_deliveries
queue-Fits_example =
    queue-Fits by_count 12 two_queued 4 (source_of third) none (some third) Validity.current
      {t = three_queued} (omega arith) third_queued

-- The first delivery is in flight in a turn that runs.
abbrev turn_runs : TaskControl
turn_runs = record one_out { native = record native_live { coverage = Coverage.unknown } }

abbrev received : TaskControl
received = with_delivery "k1" (stamp 13 Target.delivered "turn" "session") turn_runs

receipt_taken :
    accept_draft digests
      (λ t. 7)
      (λ t. false)
      13
      5
      "k1"
      "turn"
      "session"
      Target.delivered
      Validity.current
      turn_runs
    ≡ (Receipt.accepted, received)
unfolding accept_draft
receipt_taken = refl

accept_draft-attested_example :
    (Validity.current ≡ Validity.current)
    × (same_native "turn" "session" turn_runs ≡ true)
    × (is_attested digests
          (λ t. 7)
          (λ t. false)
          13
          "k1"
          "turn"
          "session"
          turn_runs
          Target.delivered
          received
        ≡ true)
    × ((received ≡ turn_runs)
        ⊎ (r : Delivery) × (find (has_idempotency_key "k1") turn_runs.peer_deliveries ≡ some r)
          × (awaits Target.delivered r.state ≡ true)
          × (fits_target Target.delivered "turn" "session" turn_runs r ≡ true))
accept_draft-attested_example =
    accept_draft-attested digests (λ t. 7) (λ t. false) 13 "k1" "turn" "session" turn_runs 5
      Target.delivered Validity.current {t = received} receipt_taken
