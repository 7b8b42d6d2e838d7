-- ===== src/Lib.antt =====
-- A model of the core of OpenClaw Bot Neo, a chat assistant that owns durable conversations and runs
-- tools under approval.
--
-- The parts and how they interact. A transport event becomes a turn in the durable ledger, which
-- authenticates it, accepts it into a bounded queue of its conversation, moves it through the
-- states of a turn and records what is known of its outcome; a dispatcher runs the turns of a
-- conversation one at a time, in the order of their numbers. Before a turn reaches the model its
-- kill-switch snapshot is evaluated. What the conversation knows is checkpointed in a second port
-- of the same database, where a barrier stops further checkpoints until an operator reconciles it,
-- and what it answers waits in an outbox, with what became of its delivery. After a restart
-- recovery lists the unfinished turns and asks the ledger to end each, with a barrier where an
-- outcome is unknown. Tools are called under a policy that allows, denies or asks for approval, and
-- an approval is granted by the owner and used once; the orchestrator bounds and validates the
-- input, asks the policy and the approvals, audits each step and gives the connector the request. A
-- value that is not yet known to be JSON is a reference into a heap, so that it may hold itself.
--
-- The files and the code they are about:
--   Communication/Turn          src/core/communication/domain/communication-turn.ts (the states, the
--                               statuses, the table of legal transitions, in Config the queue's
--                               configuration) and llm-completion.ts, whose dispositions Outcomes has
--   Communication/Transaction   runImmediate and the try and catch of the port methods, after
--                               src/host/storage/sqlite/communication/sqlite-communication-errors.ts
--   Communication/Ledger        sqlite-communication-turn-ledger-port.ts of the same folder: Rows has
--                               the tables and statements, Admission observeTransportEvent and
--                               recordAuthenticationResult, Acceptance acceptConversationTurn, Facts
--                               transition and recordFactualOutcome; Step is the relation that every
--                               method refines, Runs the histories of calls
--   Communication/Conversation  sqlite-conversation-state-port.ts: Serialization the snapshot part of
--                               sqlite-communication-serialization.ts, Tables the statements, and
--                               Checkpoint, Barrier and Reconcile the methods load and checkpoint,
--                               recordCheckpointBarrier, and reconcileCheckpoint
--   Communication/Dispatcher    src/core/communication/application/per-conversation-turn-dispatcher.ts:
--                               Reachable has its histories, Order the job that follows another
--   Communication/Outbox        sqlite-communication-delivery-outbox-port.ts: Put has put and loadPending,
--                               Outcomes the outcomes of deliveries and their reconciliation
--   Communication/Recovery      src/core/communication/application/recover-communication-turns.service.ts,
--                               with phase-outcomes.ts and the barrier of unknown-terminalization.ts from
--                               its folder phases: Recover has the recovery of a turn, Pages that of all
--                               turns, Course what a turn goes through in it, Stuck is about recovery over
--                               the ledger's port
--   Communication/KillSwitch    src/core/communication/policy/communication-kill-switch-policy.ts
--   Connector/Capabilities, Connector/Policy
--                               src/core/domain/connector/capabilities.ts and
--                               src/core/application/connector/default-deny-tool-policy-engine.ts
--   Connector/Approval          src/core/application/connector/in-memory-tool-approval-port.ts
--   Connector/Json              src/core/domain/connector/json.ts, and in Bounds json-bounds.ts of the
--                               same folder: Copies says what a copy of a value is
--   Connector/Schema            schema.ts and json-schema-validator.ts of the same folder: Conforms says
--                               what it is to conform to a schema, Enums which part of a schema is not read,
--                               Raw and Definition have validateJsonSchemaDefinition
--   Connector/Invocation        src/core/application/connector/tool-invocation-orchestrator.ts: Rules has
--                               its mappings, Stages what comes before an execution, Invoke the rest and
--                               the whole call, over the approvals, the policy and the schemas
--
-- State and operations. A table is a list of rows, a statement a function on it; a method takes its
-- environment (whether the port is open, what the database raises, the clock) and the tables, and
-- returns its reply with the tables. A transaction that throws leaves the tables as they were. The
-- methods hold the database for the whole of a transaction, so an interleaving of callers is a list
-- of calls, each with its own environment. Functions keep the names of the source in the case of
-- this language.
--
-- Recovery is a client of interfaces: each port answers by all that was asked before, and the list of
-- what was asked is part of a result.
--
-- Numbers. Revisions, sequence numbers and times are natural numbers, and Number.isSafeInteger is
-- the bound 2^53 - 1, which the methods test where the source does. No loop needs fuel: the retry
-- of colliding identifiers has the source's eight attempts, that of a barrier its three, recovery
-- its 10,000 pages, and the walks of JSON values and schemas count the source's 16 levels down,
-- with the level that is too deep as zero. A number of JSON is a numerator over a power of 2 with a
-- sign, an infinity or no number.
--
-- Given from outside, as arguments: the clock, Date.parse, randomUUID, the scanner's answers,
-- JSON.stringify and JSON.parse, the order of texts in the database, the length of a text in UTF-8,
-- the SHA-256 digest, the reading of a principal's claims, the promise of a turn that runs, and, of
-- a tool's call, the registries, the audit port's answers, the secret provider, the digest of the
-- input and the race of the execution with its signal; of recovery, its ports.
--
-- Not modelled: the phases of turn processing and the orchestrator, which build on these parts, and
-- with them the texts of prompts and outputs and the audit's tables; the canonical digest and the
-- registries that a tool's call reads; the memory services, the connectors of infrastructure and the
-- classification of content, which are parts of their own; process and file handling, the parsing of
-- other configuration, adapters and test doubles, which are input and output or data.
mod Prelude
pub mod Communication
pub mod Connector
