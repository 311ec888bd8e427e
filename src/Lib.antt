-- ===== src/Lib.antt =====
-- OpsSentry: the ledger of operations, the cluster around it, and the agents that act on it.
--
-- The program. Agents and cron jobs run commands through a tool registry, which audits each command and
-- writes it down in a ledger, an SQLite table of entries that go from pending over running to completed
-- or failed. A shipper copies the ledger to a Redis stream, a shield gives out leases on shared
-- resources, a manager keeps the agents' directories and takes over the tasks of dead nodes, and an
-- aggregator sends alerts. src/ here is the directory of that name in the repository.
--
-- The parts, and the files that model them:
--   * Ledger: src/ledger_entry.py (Ledger/Entry: LedgerEntry, from_record, to_record), the SQL statements
--     and the retry decorator of src/sqlite_ledger_storage.py (Ledger/Storage: append, update, get,
--     list_all, delete, get_incremental; Ledger/Retry: with_retry) and OpsLedger of src/ops_ledger.py
--     (Ledger/Operations: create_entry, transition, update_checkpoint, mark_*, delete_entry). The table is
--     the list of its rows; an operation is a function from a table to a result and a table. Spec says what a
--     transition means without the UPDATE, Refinement and Creation relate the operations to it, History and
--     Lifecycle follow them over any sequence of calls, Queries and Cursor are about what is read,
--     Journal about an entry that one caller makes, starts and ends.
--   * Shipper: src/cluster/shipper.py over Ledger.Storage.get_incremental. Redis and the checkpoint file may
--     fail at each batch (Delivery, and a Bool for the file).
--   * Shield: the lock files of src/config_shield.py: Files has the operations, each carried out as a whole,
--     Leases what they protect, Race the file operations of two attempts in any order. Redis
--     has the branch that keeps the leases in Redis, Expiry what its keys protect.
--     Waiting has the loop of acquire with its heartbeat threads, Patience when it ends.
--   * Sandbox: src/sandbox.py. Runners has the direct runner, nsjail and bwrap, Factory the choice among them,
--     Pool the semaphore around them, by calls that come and end; Isolation, Limits and Turns are about these.
--   * Sync: the buffer of src/global_sync.py, over the acquire and the release of the shield.
--   * Tools: src/tool_registry.py over the ledger. Patterns has the regular expressions, Lexer Python's
--     shlex.split, Policy the layers L1 and L3, Dispatch the registry; Guarding follows what reaches the sandbox,
--     as Vm/Guarding and Cron/Payloads do for their parts.
--   * Cron: src/cron_engine.py over the ledger: jobs, triggers, and the wrapper of a run. Payloads
--     runs a job over Tools, Agents and Vm.
--   * Alerts: src/cluster/alert_engine.py with its buffer in memory; Buffer has the one in Redis.
--   * Agents: src/agent_manager.py. Validation, Profiles and Manager model the directories and what is done
--     to them, Failover the tasks of a dead node.
--   * Access: src/auth.py (tokens, roles, ownership) and src/agent_key_vault.py (the keys of an agent).
--   * Sessions: src/session_manager.py (the histories, by session) and the ConnectionManager of
--     src/routers/sessions.py (who listens, and what was sent).
--   * Vm: the loop of src/agent_vm.py over the tool registry.
--   * Skills: src/skill_loader.py (the skills of an account and an agent, and their text in the prompt).
--   * Knowledge: src/knowledge_core.py. Chunks cuts the markdown files, Index counts their words, Searching
--     scores the chunks for a query.
--   * Evolution: src/evolution_manager.py over the entries of the ledger and the search of Knowledge.
--   * Channels: src/channels/ (base.py, feishu.py, dingtalk.py): settings, signatures and parsing; Sending has `send`.
--   * Routing: src/message_router.py over the ledger, the sessions, the listeners and the agents.
--   * Webhooks: src/routers/webhooks.py over Channels and Routing.
--   * Routers: Agents has src/routers/agents.py and skills.py over the parts of these names, Jobs has
--     src/routers/cron.py with verify_user_id of src/dependencies.py; Ownership and Takeover say whom they protect.
--   * Prelude: the shared names, Python's dict, text and list operations, results, stable sorting, and the
--     cutting of a text at a marker.
--
-- Conventions. An exception is an `err` beside the state that was reached, so what was written before it
-- stays written. The clock's values and the uuids are arguments. Numbers are natural numbers of any size,
-- as Python's are; times are milliseconds. Texts are sequences of characters; blanks and letter case are
-- those of ASCII, except in the regular expressions, which have Python's full `\s` and its four letters
-- beyond ASCII under IGNORECASE. A uid is the name of a directory.
--
-- Fuel. `with_retry` runs on max_attempts, which bounds its loop in the source too, and the loop of a chat
-- on its max_loops. The decimal digits of n are computed with n + 1 as fuel, more than it has digits. The
-- acquiring of a key in Redis calls itself, on fuel: one round is enough where the key is held. The loop
-- of acquire on lock files goes over the rounds that are given: by the first one that fails after the
-- deadline it has ended. The emptying of the alerts in Redis has one round more than there are alerts, and
-- each round but the last takes one. All other loops go through a list.
--
-- Paths. The manager puts a uid into a path as it is. What its calls and the requests to its routes do under a uid
-- that is no plain name (is_plain_name), which may reach any directory, is a parameter: `outside` of perform,
-- OtherPaths of serve. Under plain names an account is the directory of its uid.
--
-- Parameters. What is not the program's own code is an argument: Redis and file errors, the sandbox (but
-- for the part of this name), the language model, Path.resolve, jwt.decode, the files of secrets, the JSON
-- text of a result, whether APScheduler takes a cron expression, how a process runs and ends and what its
-- bytes decode to, what YAML makes of a text, HMAC and encodings, the operations on floats, str and
-- json.dumps of a value, and the listing of a directory. The leases in Redis are about any client with the
-- laws IsRedis.
--
-- Not modelled: threads and their timing (but for Shield/Race, each operation is carried out without
-- interruption), starting processes, the routes of the ledger, the cluster and the chat, the heartbeat of
-- a node, the web client, and the migration of an old ledger file.
pub mod Prelude
pub mod Access
pub mod Agents
pub mod Alerts
pub mod Channels
pub mod Cron
pub mod Evolution
pub mod Knowledge
pub mod Ledger
pub mod Routers
pub mod Routing
pub mod Sandbox
pub mod Sessions
pub mod Shield
pub mod Shipper
pub mod Skills
pub mod Sync
pub mod Tools
pub mod Vm
pub mod Webhooks
