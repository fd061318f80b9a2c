-- ===== src/Lib.antt =====
-- Portable batch execution: planning, completeness, the local store of runs, its garbage
-- collection, and the broker that registers, dispatches and answers requests.
--
-- A run is a job cut into shards. The kernel plans the shards and the waves in which they run,
-- workers append attempt records to a store, and the run controller, the only writer of
-- manifests, decides from the records which shards are complete, and finalizes the run when all
-- are. The store keeps payloads by digest, attempt records by identifier, and every revision of
-- the manifest; a new revision is published by compare and swap.
--
-- Parts, with the code each is about:
--   Contracts   src/portable_batch_execution/contracts/models.py: the records and their
--               validators, with the jobs of JobSpec in Job, and Python's datetime as far as
--               these use it (Datetime)
--   Names       safe_file_component of controller/closed_wave_registry.py
--   Registry    ClosedWaveRegistry of controller/closed_wave_registry.py
--   Kernel      src/portable_batch_execution/kernel/core.py: Ranges (expanded_range), Shards
--               (plan_shards), Waves (plan_waves), Completeness (completeness, can_finalize),
--               Retry (retryable_shards, exhausted_shards), Pipeline (the two plans, one after
--               the other), Controller (RunController, over the protocol RunStateStore of
--               data_plane/base.py)
--   DataPlane   src/portable_batch_execution/data_plane/local.py: Artifacts (write, read,
--               verify, exists, the reference checks), Attempts (append_attempt,
--               read_attempts), Manifests (read_manifest, write_next_manifest), Store (these as
--               the controller's store)
--   Lifecycle   src/portable_batch_execution/lifecycle: Records and Deletion (deletion.py, with
--               the records of delivery.py, holds.py, policy.py and broker/state.py), Root (the
--               files under a state root), Index, Reachability (reachability.py, with Requests,
--               Runs and Waves for its parts), References (external_references.py), Sweep, Plan,
--               Apply and Collect (gc.py: eligibility, plan_gc, the loops of apply_gc, apply_gc),
--               Holds (HoldStore of holds.py)
--   A1Controller  src/portable_batch_execution/controller/a1_controller.py: History (the dispatch
--               histories of waves and their JSON), the files of the dispatch directory,
--               dispatch_private_wave and reconcile_run; Python (what the code takes from the
--               language)
--   Broker      src/portable_batch_execution/broker: Planning, StaticInputs, Register and
--               Register.Call (planning.py), Requests and Root (state.py), Config (config.py),
--               Attempts, Responses, Serializer, Drive, Service, Handle and Deliveries (service.py,
--               with the messages of protocol.py and save_new of lifecycle/delivery.py)
--   Base        lists, order, sorting, sets, dictionaries, integers and outcomes
--   Tests       sample data, and the theorems at it
--
-- How the code is rendered. A function that may raise returns an Outcome, and one that changes
-- the store returns the new store beside it, also when it raises. A pydantic model is a record,
-- and its validators are one function into Outcome, run where the code constructs the model;
-- model_copy does not validate, and is a record update. The validator of a shard size sees a
-- float through timedelta(seconds=x) alone, so a float is what that returns. A finite float
-- boundary is m / 2 ^ k. A text boundary carries what datetime.fromisoformat reads from it;
-- isoformat is written out. sorted is a stable insertion sort, a set is a list without
-- repetitions, a dictionary an association list. Writing a model as JSON and reading it back is
-- taken to give the model. An absent directory is an empty one. The store's operations run one
-- after another, as its locks make them; Manifests also has the state in which the process
-- stops between the two files of a manifest write.
--
-- The lifecycle. Payloads are deleted by apply_gc, a mark and sweep: an index of what is
-- protected is built from deliveries, broker requests, holds, runs, closed waves and external
-- files; the plan judges every payload by it, and the deletion decides again by a new index under
-- a lock, writing an intent before and a receipt after each deletion. A record file is what its
-- reading gives (Stored); a record written is taken to be read back. An error in writing a file
-- is not modelled. Sets are walked in the order in which their members came in, and messages end
-- before the text of an exception. Floats in JSON are compared by their texts. A turn of a loop
-- of apply_gc is a decision that only reads, and then its writes. apply_report is what follows
-- the plan, for any report, so that other processes may have changed the state since the plan;
-- apply_gc has nothing in between. The times that the code takes from the clock are arguments.
--
-- The broker. A step of the broker or the controller is a function from the state under its root to
-- what it returns or raises and the new state (Base.Exec). A request state that the code mutates and
-- saves is passed on. register_broker_private_run looks, waits for the lock, and looks again: what
-- other processes do to the state while it waits is a function, and so is how the wait ends
-- (Surroundings). The while loop of _drive_to_terminal goes over a list of turns, as long as one
-- likes: a turn is what others did to the controller's state while the loop slept, and what the
-- backend answers then; where the list is over before the loop is, the drive returns none. Others
-- are at work between turns and not within one. The handlers of one identifier run one after
-- another, as the service's serializer makes them. The serializer itself is Serializer: its threads are
-- interleaved in any order, a block under its guard is one step of a thread, and so is taking or
-- leaving the lock of a request; an identifier's lock is the number of its creation. A message is
-- parsed already, or its parsing has failed.
--
-- Parameters. Runtime has what the broker takes from Python: str, the UTF-8 bytes of a text,
-- json.dumps, int, base64, and the JSON and the equality of a job. IsRuntime states what is
-- documented of str and int. PackModels has the validation of the tabular operations' parameters.
-- A Backend is what GitHub answers. The equality of two jobs in the registry is pydantic's, a
-- function. The digest of a payload, the URI of a file, and where a URI leads depend on the host, and
-- are fields of the record Host. IsHost states what is documented of them: digests are 64 hexadecimal
-- digits, and the URI made for a file of the artifact directory leads back to it. The files outside
-- the state root that a policy names are the record Outside.
--
-- Fuel. The loop of plan_shards over a time range takes as fuel the distance of its ends in
-- microseconds and one more; each round goes at least a microsecond ahead. Decimal numerals take
-- the number itself and one more.
--
-- Not modelled: input manifests, the validators of a model delivery, of the lifecycle its lock, the
-- JSON forms of its records and the review form of its report; of the broker the parsing of messages
-- and of its configuration, sockets and peer credentials; of the A1 controller the preparation of the
-- synthetic run, inspect_run and the command line; of the local data plane the cache of
-- validate_static_ref and the streaming of open_content. Of the packs and the worker only two checks
-- of parameters are here. The replay reduction packs sort, merge and window event rows that they read
-- from Parquet with polars and spill to temporary files; the other packs are calls of numerical,
-- tabular, media and network libraries; and execute_wave, which stages the inputs of a shard, calls
-- its pack and records the attempt, is left with them: this library follows a payload by its digest,
-- and not what a pack makes of its content. The transports and clients (the data plane over HTTP, the
-- backends) are network and process glue; a backend is a parameter.
pub mod Base
pub mod Contracts
pub mod Kernel
pub mod Names
pub mod DataPlane
pub mod Tests
pub mod Registry
pub mod Lifecycle
pub mod A1Controller
pub mod Broker
