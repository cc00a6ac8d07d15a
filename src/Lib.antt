-- ===== src/Lib.antt =====
-- Passeur delegates work to native coding agents. This library models the part of it that keeps one
-- delegated task's control record, and shows what callers of that record rely on.
--
-- A task has one control record, which the service stores whole. Clients, the native runtime and the
-- coordinator change it through `TaskControls.change`: under a lock on the task it reads the record,
-- lets a callback change a copy, and writes the copy back under the next revision if it differs. On
-- top of it stand cancellation, adoption by another client, questions that the native runtime asks
-- (the input broker), and the fence that decides once how the task ends, which reads the evidence
-- that peers of the task have delivered. Beside the tasks stands the coordination of the parents that
-- delegate them: works that parents register, cases that a lead reconciles for one target, notes,
-- and submissions that are announced and bound to tasks, in one control state that is stored whole.
--
-- Base.antt: names of the libraries, tests, lists as arrays, and failure. A BridgeError is its code.
-- Contracts.antt: src/contracts/tasks.ts and src/contracts/peer-delivery.ts. The record, deliveries and
--   slots; Valid has the rules of the schemas that relate fields, and Valid/Meaning says what they mean.
--   Schema version 3 is version 2 with a list of slots, here an option. An absent list of deliveries
--   is an empty one. Bounds of texts and of the other lists are left out, and so is what the data of
--   an input has to meet by itself, as that its choices are distinct.
-- Control.antt: src/core/task-control.ts, with `change` and `receipt` (Commit), `cancel` and
--   `preflightCancel` (Cancel), `adopt` and `releaseClient` (Ownership).
-- Inputs.antt: src/core/input-broker.ts. The map of native waiters is a list of ids.
-- Completion.antt: `admitCompletion` and `unresolvedPeerCompletion` of src/core/task-control.ts.
-- Lifecycle.antt: the operations of Control and Inputs as a step relation, and what holds along its
--   histories.
-- Slots.antt: places for evidence that an extension of a case reserves with its recipient, by
--   `reservePeerDeliverySlots` of src/core/coordinator.ts, and gives back, by
--   `releasePeerDeliverySlotsInPublication` of src/core/task-control.ts. What the coordinator knows of
--   a task beside its record (Recipient) is an argument.
-- Deliveries.antt: the queue of evidence, by `queuePeerDelivery`, `#peerPort` and
--   `#acceptPeerReceipt` of src/core/coordinator.ts. One attempt of each loop is an operation, and the
--   step relation of History interleaves the attempts with each other, with cancellation, with the
--   settlement of the result (Settling, of `#execute`) and with the reconciliation of stored tasks in
--   src/core/recovery.ts. What the settlement's last check decided of the record is an argument.
-- Coordination.antt: src/coordination/control.ts over the records of
--   src/contracts/coordination-control.ts. State holds the control state, its commands and access to
--   it, with the lookups and two rules of `decodeControl` (Disclosure, and Stored, the unique keys, as
--   `snapshot` and `publish` of src/store/coordination-store.ts apply them). Parents is `apply`, command by
--   command, `checkCapacity` (Capacity) and `execute`; Operators is `recoverAuthorized`; Submissions has
--   announcements and bindings; Observation the operations on observed cases; Retirements
--   `reserveRetirement`. Contract says what one stored change may do and shows it of the commands, and
--   Histories puts all modelled operations together, one after another.
--   An operation takes the snapshot of the store and returns the state that it hands to `publish`; the lock
--   makes operations follow one another. A list that the stored version lacks is an empty one.
-- Observation.antt: src/observation/cache.ts, the cache of captured pairs of sources. The loop that
--   evicts runs on fuel: each round drops an entry, so one round for each and one more are enough.
-- Service.antt: src/service/request-capacity.ts and `coordinationRequestLane` of
--   src/contracts/coordination-service.ts, the lanes of the requests of a connection.
-- Phases.antt: src/core/state.ts, the phases of tasks of the older schema.
-- Samples.antt: concrete records, and the theorems at them.
--
-- `canonicalHash` is a parameter, the record `Digests`: no property of it is assumed, except by the
-- theorems that say that the digests of two given records do not collide. An instant is a natural
-- number, in milliseconds; an operation reads the clock once. Ids that the code draws at random are
-- arguments. But for that of Observation no definition needs fuel: the loops run over lists, and `TaskControls.change`, which
-- waits for a publication to end, is modelled where none holds the task, and the loops over
-- attempts to deliver are the histories of their attempts.
--
-- In Coordination the digests, the byte sizes of a state and of a text, the sort of overlaps and what
-- is asked of a peer-resolution record in a note are arguments too (`Platform`, `SubmissionDigests`);
-- no property of them is assumed, except that the room kept back for one receipt holds it, where
-- a theorem says so (`FitsRelease`).
--
-- Not modelled: the coordinator's queue of runs and its native events, the operations of workers on
-- cases and the peer-resolution records that they exchange, the decoders of commands and of stored
-- states but for two rules, `assertControlTransition`, structural observation but for its cache, the stores, the transports and the native
-- adapters.
pub mod Base
pub mod Contracts
pub mod Control
pub mod Inputs
pub mod Lifecycle
pub mod Completion
pub mod Coordination
pub mod Slots
pub mod Deliveries
pub mod Observation
pub mod Service
pub mod Phases
pub mod Samples
