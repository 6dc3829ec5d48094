-- ===== src/Lib.antt =====
-- The verification library of the AVO plugin (hermes-agentic-variation): a bounded search for
-- improvements that runs one candidate at a time under a frozen RunSpec, keeps a ledger of what
-- happened, and ends in a terminal state.
--
-- The parts and their files
--   contracts.py is Contracts: Checks, Freeze and Paths hold the shared checks; RunSpec, Candidate,
--     Evaluation, Advice, Memory, MutationReceipt, SandboxReceipt and TerminalReceipt one contract
--     each, with `new` for `__post_init__`, `to_dict` and `identity`. RunSpec.Stored and Memory also
--     read their stored documents (`_spec_from_json`, `_memory_from_json` of storage.py).
--   state_machine.py is StateMachine: `apply_transition` with `dispatch` for its chain of events and
--     `next_after_attempt`. Its children hold the proofs.
--   evaluator.py is Evaluator: `evaluate`, with `result_of` for the result of the checked scores.
--   storage.py is Storage: Tables are the tables and the statements with their keys, Monad the
--     transactions, State the JSON column of a run's state, Reads and Runs the methods on runs and
--     events, Evidence those on candidates, evaluations, advice and receipts, Memories those on the
--     continuation memory. Calls makes one type of all the calls that write.
--   phase4_patch.py is Patch: Parse for `ValidatedPatch.parse`, Apply for `apply`, Lines for the text
--     functions of Python that they call.
--   controller.py is Controller: Payload for `_parse_child_payload`, Fixture for the fixture's data,
--     Steps for `create_run`, `step` and `cancel`. Child is its interface `ChildLifecycle`, and
--     Verdict the transitions behind an evaluation and their replay, which later controllers share.
--   phase2.py is Phase2: Payload for `_parse_supervisor_payload`, Refresh for `_refresh_memory`,
--     Supervise for `supervise`, Methods for the other methods.
--   phase3_workspace.py is Workspace: Files for the file system, the processes and the digests that it
--     uses, Methods for `Phase3Workspace`. phase3.py is Phase3: Data for the RunSpec, the request and
--     the observations, Ledger for what it does to the ledger, Mutate for `mutate`, Methods for the
--     other methods. Effect passes a ledger and a disk along.
--   runtime.py is Child.Adapter. __init__.py is Plugin: the controllers and their commands;
--     Plugin.Config is the configuration that `register` reads, and the factories, which open the
--     ledger and make a controller when it is first asked for. A command is run on controllers that
--     are made.
--   Base holds what they share: numbers, texts, floats, exceptions as results, JSON values.
--   Tests holds runs on concrete data, like those of the directory tests.
--
-- How the parts interact: the store loads a RunSpec and a state, makes a step of the state machine
-- and writes the new state and its event in one transaction; the state machine and the evaluator
-- read the RunSpec's budgets and keys and compare its identity. The controller of Phase 1 runs a
-- child, has the evaluator judge its candidate and records all of it in the store; that of Phase 2
-- is the same class with a memory, one supervisor and a recovery added, over the same ledger. That
-- of Phase 3 writes the chosen template into its repository and runs the tests there, between the
-- calls of the store; the disk is not rolled back.
--
-- How it is modelled
--   A method of the store takes the database and gives a result and a database; an exception rolls
--   back to the database before. A raised exception is an error value, its message kept without the
--   values that are formatted into it. A mapping is a list of entries in its order. A JSON text is
--   the document that it encodes; two texts are compared as documents in order.
--   A float is exact: a count of 2 ^ -1074, with rounding to nearest, ties to even. To round, a
--   magnitude is halved until it has 53 digits; 2100 halvings are allowed, more than the digits of
--   the sum of any two finite floats.
--
-- Parameters: SHA-256 over a JSON text or a text (Contracts.Identity.Hashing), of which only the form
-- of a digest is used, with nothing assumed about collisions; the JSON texts of Python (`loads` and
-- `dumps` of a controller); what a child answers, and what others call on the store while it runs
-- (Child.Lifecycle) or to the disk; what the subagent service does with a request
-- (Child.Adapter.Service); what git and the tests come to and do to the disk
-- (Workspace.Files.Processes). Of these nothing is assumed. The file system is
-- Workspace.Files.FileSystem; what is assumed of it are the laws of Workspace.Files.IsLawful: which
-- bytes a path leads to behind the creation of a file with one hard link and behind the replacement of
-- a file by such a one, and that the workspace's own file names are entries of their own. Tests.Disk has
-- them for a disk in memory.
-- The plugin's directory and what SQLite does to the disk when a store is opened are parameters too
-- (Plugin.Config.Host).
--
-- Not modelled: the sign of a float zero; a status outside the twelve in a stored state, and other
-- documents that the store does not write; "\r\n" in the `splitlines` of Patch.Lines, as the patch
-- code refuses a carriage return and the controller's text is rid of it first; decimal digits newer
-- than Unicode 14; what the opening of a store does to its tables (their creation, the schema
-- migration, WAL mode), the timeouts and triggers of SQLite (no method updates or deletes what the
-- triggers guard); the read-only `status` and `lineage` of the controller, and `git_facts` of the
-- workspace, which the plugin does not call; the controller of Phase 4, the sandbox, the tools and
-- the desktop companion, which are files of their own: phase4.py, phase4_sandbox.py,
-- phase4_runner.py, tools.py, schemas.py, the routing of __init__.py and its settings of Phase 4,
-- and desktop/plugin.js.
pub mod Base
pub mod Child
pub mod Contracts
pub mod Controller
pub mod Effect
pub mod Evaluator
pub mod Patch
pub mod Phase2
pub mod Phase3
pub mod Plugin
pub mod StateMachine
pub mod Storage
pub mod Tests
pub mod Verdict
pub mod Workspace
