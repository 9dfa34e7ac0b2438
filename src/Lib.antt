-- ===== src/Lib.antt =====
-- ZepGPU, a serverless GPU framework: a model of its coordination logic and what it guarantees.
--
-- Ledger models deepiri_zepgpu/compute_ledger, the permissioned ledger of GPU seconds:
--   Ledger/Merkle       merkle.py: merkle_root, merkle_proof, verify_merkle_proof
--   Ledger/Transaction  transaction.py: fields, signing_payload, compute_hash (tx_hash)
--   Ledger/Json         the payload values that transactions carry, and Python's reading of them
--   Ledger/Replay       replay.py: apply_transaction, replay_transactions
--   Ledger/Block        block.py: fields, header_for_hash, ensure_proposer_approval
--   Ledger/Dictionary   to_dict and from_dict of transactions, approvals, blocks and proofs
--   Ledger/Poa          poa.py: validate_transaction, validate_approvals, validate_block,
--                       add_approval
--   Ledger/LightClient  light_client.py: verify_header_signatures, verify_header_chain,
--                       verify_tx_inclusion; LightClient/Wire is to_dict and from_dict of a header
--   Ledger/Store        database/repositories/ledger_repository.py: the rows of a chain
--   Ledger/Service      service.py: Setup (settings and keys), Session (statements and get_db),
--                       Propose, Persist, Handlers, Approve and Verify (the operations);
--                       Service/Books has the proofs that requests keep the balances right
-- A block holds transactions; its Merkle root and hash bind them; validators approve the hash; the
-- transactions of finalized blocks are replayed into balances; light clients see headers alone. The
-- service takes requests: it stores pending transactions, seals them into a block under the
-- approvals of a quorum, and replaces the stored balances when a block is finalized.
--
-- Scheduling models the task queue and the GPUs that it hands out:
--   Scheduling/Device     core/gpu_manager.py: GPUDevice
--   Scheduling/Manager    core/gpu_manager.py: GPUManager, the local devices
--   Scheduling/Lock       vpn/remote_gpu_lock.py: RemoteGpuLock, over a Redis server
--   Scheduling/Pool       vpn/gpu_pool.py: RemoteGPUDevice, GpuPoolAggregator; Pool/Refresh is its
--                         refresh_remote_gpus, Pool/Queries its queries
--   Scheduling/Task       core/task.py: the fields; Task/Dictionary has to_dict and from_dict
--   Scheduling/Queue      core/scheduler.py: PriorityTaskItem and the heap
--   Scheduling/Scheduler  core/scheduler.py: the state, quotas, submit_task, callbacks
--   Scheduling/Steps      core/scheduler.py: _schedule_pending_tasks, cancel_task, mark_task_*
-- The scheduler takes the first waiting task, asks the pool, or the manager if there is no pool, for
-- a device and allocates it; a remote device is allocated under a lock in Redis, since the relays of
-- several processes hand out the same shares. The pool holds the manager that the scheduler uses.
-- Scheduling/Reach has the calls as steps, in any order.
--
-- Pipeline models core/pipeline_manager.py, which runs stages that depend on one another:
--   Pipeline/Stage     PipelineStage, _resolve_args, _execute_stage
--   Pipeline/Rounds    _get_ready_stages, _execute_stages, run_pipeline
--   Pipeline/Registry  create_pipeline, run_pipeline by id, cancel_pipeline
--   Pipeline/Listing   list_pipelines
-- The code of a stage is a function of the call's number. A round of the loop takes the tasks that
-- asyncio.wait reports as an input, so a theorem for all inputs is one for all interleavings.
--
-- Access models security/access_control.py, the quotas of users:
--   Access/Control  Quota, ResourceUsage, AccessControl and its operations
--
-- Leases models the assignments under which providers run tasks:
--   Leases/TaskRow     database/models/task.py: the columns that assignments write
--   Leases/Rows        the tables (database/models/node_task_assignment.py, vpn_models.py) and the
--                      queries of database/repositories/node_task_repository.py
--   Leases/Lifecycle   create_assignment, mark_terminal and what it calls
--   Leases/Operations  mark_claimed, mark_running, mark_completed, mark_failed, request_cancel,
--                      mark_cancelled, update_status
--   Leases/Sweep       the lists of late assignments and rooms/assignment_sweep.py
--   Leases/Reconcile   reconcile_for_peer
--   Leases/Serve       calls in any order, each at a time of its own
-- Calls read and write the tables. Times are whole units, read once for each call; the clock may go
-- either way between calls. The payloads of events and the notifications are left out.
--
-- Training models the updates that workers of a training run send:
--   Training/Integrity  training/integrity.py: sign_update, accept_outer_update, ReplayGuard
--   Training/Live       training/integrity.py: sign_live_outer_extensions, accept_live_outer_envelope
--   Training/FileGuard  training/integrity.py: FileReplayGuard
--
-- Node models the agent of a provider:
--   Node/Inflight  node_agent/inflight.py: upsert_inflight, remove_inflight, clear_inflight,
--                  list_inflight_ids
--
-- Parameters. hashlib's digest (sha256_hex), json.dumps (canonical_json) and the Ed25519 check of
-- keys.py (verify_signature) are functions that the definitions take. Where a theorem uses that a
-- digest has 64 characters it says so. Python's text of a non-text value and its parsing of a
-- number from a text are the record Conversions. The Redis server is a record of commands with
-- the laws that Redis documents; a lock that expires is a change of the server between two calls.
-- Python's hash of a text is a function in the record Scheduling.Setup. The ledger service takes a
-- record Service.Setup: signing, key derivation, uuid4 and the clock by the number of the call, the
-- texts that the columns of ids and times print, and the settings. The rows of one chain stand for
-- the tables, since every query selects by the chain or by a unique id or hash. The paths above are
-- from deepiri_zepgpu/. The leases take the durations of `settings.vpn` as the record
-- Leases.Lifecycle.Durations; the updates take digests, the MAC and the text of an update as
-- Training.Integrity.Digests, and Python's texts of numbers and of ASCII bytes as Live.Codecs and
-- FileGuard.RoundTexts; the texts of times are Scheduling.Task.Dictionary.IsoFormat. Pool.Refresh
-- and Ledger.Dictionary take Python's `int` of a text, and Store.Listings the order of texts in
-- the database.
--
-- Numbers. Seconds, which Python holds as floats, are integers, and so are times, GPU time and
-- utilization. Ledger/Replay/Exact bounds the credits by 2 ^ 53, up to which floats hold every whole
-- number. Python's integers are unbounded and so are these. A dict is the list of its entries in
-- insertion order (Base/Dict); a set of which only membership and size matter is a list of distinct
-- entries. The heap of heapq is a list kept in order, so heapify has no counterpart, and nothing is
-- claimed of the order in which items leave it. The available memory of a device is a natural
-- number, though metrics can make the source's negative.
--
-- Errors. Commands of Redis do not raise: a lost connection between the pop of a task and its return
-- to the heap is outside. hmac.compare_digest raises on a MAC with characters beyond ASCII, which
-- here is a mismatch. Pool.Refresh raises `unread` for a value of another type than the endpoint
-- declares, which the source stores as it is; Scheduling/Pool/Typed says which are typed. With
-- retries disabled the raise of a stage drops the errors noted before it.
--
-- Loops. A loop over a collection is a recursion on the list. The `while` loops of merkle.py recur
-- on a bound for the length of the level that comes with a proof, the length of the leaves at the
-- start; each round at least halves a longer level rounded up, so no run is cut short.
--
-- The retries of a stage recur on the retries left, the rounds of a pipeline on the list of reports,
-- and the loop of _schedule_pending_tasks on the count of its range.
--
-- Not modelled. State machines of their own around the parts above: the bridge between ledgers and
-- its chain ids, rooms and the dispatch to their peers, the worker loop of the node agent, VPN peers
-- and their tunnels, the placement of training workers, the Redis queue, reservations and alert
-- rules. I/O: the database session and the ORM, HTTP routes and web sockets, Docker and subprocess
-- execution, cloud providers, storage, tensor code of the training runtimes, logging and metrics.
-- The status report of a pipeline, which shows what its concurrent stages write.
pub mod Base
pub mod Ledger
pub mod Scheduling
pub mod Pipeline
pub mod Access
pub mod Node
pub mod Leases
pub mod Training
