-- ===== src/Lib.antt =====
-- A model of Minion, a service that runs a software engineering agent on tasks, and the theorems
-- about it. Paths are from the repository's root.
--
-- The parts and how they interact. A client calls the HTTP API, which calls the orchestrator. The
-- orchestrator authorizes a request, writes the task and its session through the repositories,
-- records what happens in the event store, which publishes to the subscribers of the event stream,
-- and puts the task into the work queue. A worker takes the item, executes the task in a workspace
-- and acknowledges it. The lifecycle table says which status may follow which, and `transition`
-- checks it and writes only over the version that it read.
--
--   Domain: the enums and records of src/minion/domain.py; Effects: results with the exceptions of
--   src/minion/errors.py, and the actions on a state that may raise one.
--   Lifecycle: src/minion/state_machine.py, with the graph that it describes as a step relation,
--   and beside it the diagram of docs/LLD.md.
--   Models: the rows of src/minion/models.py and the state of the process, `World`: the tables, the
--   clock, the source of identifiers, the bus, the queue, the running set and the counters.
--   Repositories: src/minion/repositories.py, a module for each class. `transition` is composed of
--   `claim_transition`, which reads, and `commit_transition`, the guarded UPDATE statement.
--   Events: src/minion/events.py, `append`, `list_after` and `publish_live`.
--   Security: src/minion/auth.py, src/minion/git_auth.py and src/minion/security.py.
--   Queue: the in-memory queue of src/minion/queue.py.
--   Orchestrator: src/minion/orchestrator.py; Execute is `_execute`, Worker the worker loop.
--   Api: the endpoints of src/minion/api.py and the event stream.
--   Runtime: src/minion/runtime. Context is context.py: the control tools, with the gate of
--   `finish_task`, the activation of skills, compaction and the prompt; Agent is agent.py; Policy is
--   policy.py; Skills is the names and the rendering of skills.py; Workspace is workspace.py, with
--   Local and Docker for its providers and Host for the machine; Tools is tools.py, with Registry
--   for the table of the tools and `execute`; CodeIndex is code_index.py, with Build for
--   `ensure_index` and Impact for the analysis of reverse dependencies; Mcp is mcp_tools.py; Values
--   is what they do with JSON values.
--   Prelude and Table: helpers on lists, texts and tables. Examples: tests and concrete inputs.
--
-- How code becomes definitions. A coroutine that reads and writes the state is an action: a function
-- from the state to a result and the next state, where an exception keeps what was written before
-- it. An await is no step of its own: the theorems about several clients take requests as a list,
-- and those about a race take the two halves of `transition` in any order. Numbers are natural
-- numbers, or integers where a model may give a negative one, and no loop needs fuel: each runs over
-- a list, or over the steps or rounds that are left.
-- The calls of a parallel batch are run in the order in which they end, and an exception ends the
-- batch.
--
-- Parameters stand for code that is not here: the parsing of URLs and lower-casing (`UrlLibrary`),
-- Base64, the random identifiers (`uuid4`), the workspace provider, the code index, the agent and
-- the publisher as the orchestrator calls them (`Services`, whose laws are `IsTame`), the model and
-- the tools as the agent calls them (`CodingAgent`), JSON printing and regular expressions
-- (`PythonText`), the processes of Git and Docker, the file locks and what the file system refuses
-- (`Machine`, `FileLock`), and what the tools use: the shell, the MCP servers, the resolution of links
-- in paths and the writes that fail (`Toolbox`), and the payloads of the queries (`Index`).
--
-- The providers work on a table of directories with the names in each, and the tools on a table of
-- the texts of files. A provider's caller that waits for a slot is a call that has no slot yet. The
-- workspace that a tool is given is that of a provider; the two states are not one. The cache of the
-- index lies beside the files that the tools work on, and a query writes it through `ensure_index`.
--
-- The context asks the skill manager of src/minion/runtime/skills.py through the record `Skills`.
-- The scan of the file system for skills is a parameter too.
--
-- Not modelled: the Redis queue, the start and stop of the worker coroutines, the wire format of the
-- API, configuration, logging, migrations, the model client, the parts of src/minion/runtime that no
-- module above names, the choice of a workspace provider by its name, and the ranks of the index
-- with the order by them: they are floating-point numbers.
pub mod Api
pub mod Domain
pub mod Effects
pub mod Events
pub mod Examples
pub mod Lifecycle
pub mod Models
pub mod Orchestrator
pub mod Prelude
pub mod Queue
pub mod Repositories
pub mod Runtime
pub mod Security
pub mod Table
