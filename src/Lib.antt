-- ===== src/Lib.antt =====
-- Five parts of Gooru: the durable background work queue (internal/database/durable_work*.go over the
-- tables of internal/database/migrations), the runner above it (internal/background/runner.go), the
-- encrypted file format (internal/encryptedfile), the dry run of a relink (internal/relink) and the
-- expansion of saved searches in a query (internal/query).
--
-- The queue. Producers create logical operations and enqueue tasks beneath
-- them; workers claim tasks under a lease, renew it, and complete or fail them; a supervisor
-- recovers the tasks whose lease has expired; a user cancels a task or a whole operation. The rows
-- of the tables are the only state that these parties share, and each exported method is one
-- transaction on them. The runner is such a worker: it claims a task, renews its lease beside the
-- handler, writes one outcome, and recovers expired leases when it loses its own.
--
-- Encrypted files. Encrypt and EncryptStream write a header and a sequence of sealed chunks; Open
-- checks the header, and the File it returns decrypts the chunks that a read needs through a cache of
-- four. Relinking. Plan compares the locations of the database with those of a scan, and proposes
-- moves, additions and deletes. Queries. ExpandSavedSearches replaces each tag @saved:name of a parsed
-- query by the parsed text that is stored under the name, and so on within it.
--
-- Prelude          the tables of a relational store as lists of rows (SELECT, UPDATE, DELETE and
--                  their row counts), Go's int, Boolean tests
-- Work.Schema      the rows of background_operations, background_tasks, background_task_attempts
--                  and background_operation_associations, and the conversion of times
--                  (durable_work.go, migrations 023, 024, 031, 034, 040)
-- Work.Result      the errors, and the transactions that may fail
-- Work.Operations  the start, the progress counters and the end of an operation
--                  (durable_work_operation_lifecycle.go, trigger of 040)
-- Work.Admission   creation, the pending limit and the claim of a producer (durable_work.go,
--                  durable_work_admission.go, durable_work_producer_claim.go)
-- Work.Tasks       EnqueueBackgroundTask and PostponePendingBackgroundTask (durable_work.go,
--                  durable_work_pending.go, triggers of 024 and 034)
-- Work.Claim       ClaimNextBackgroundTask and RenewBackgroundTaskLease (durable_work_lifecycle.go,
--                  durable_work_lease.go)
-- Work.Finish      completion, failure and terminal cleanup (durable_work_lifecycle.go)
-- Work.Recover     recovery of leases, cancellation of a task (durable_work_lifecycle.go,
--                  durable_work_cancellation.go)
-- Work.Stops       cancellation and failure of a whole operation (durable_work_cancellation.go,
--                  durable_work_operation_failure.go)
-- Work.Attach      checkpoints, results of tasks, visibility, attachment of the first task
--                  (durable_work_checkpoint.go, durable_work_task_state.go, durable_work_attachment.go)
-- Work.History     ClearTerminalBackgroundOperations (durable_work_clear.go)
-- Work.Associations  auxiliary operations (durable_work_association.go)
-- Work.Reconcile   cancellation of operations without tasks at startup (durable_work_recovery.go),
--                  with strings.TrimSpace as a parameter
-- Work.Requests    one request for each modelled method that changes the tables, but for the
--                  clearing of history and reconciliation at startup, and a server of them
-- Work.Progress    the invariant of the tables, and that each method keeps it
-- Work.Keeps       what a property of the list of tasks has to survive to survive every method
-- Work.Queue       keys, priorities, leases, history, deduplication, limits, recovery, cleanups
-- Work.Examples    runs at concrete requests
-- Runner.System    TaskStore, clock, context, handlers and schedule of internal/background/runner.go
-- Runner.Config    NewRunner
-- Runner.Claimed   runClaimed, renewLease, completeClaimed, failClaimed, recoverLeaseLoss
-- Runner.Loop      Run
-- Runner.Rules     the rule for the retry loops
-- Runner.Logged, Runner.Outcomes, Runner.Fencing  a log of the runner's calls, and what stands in it
-- Runner.Calm, Runner.Steady  the errors that the retries leave, and those that may end Run
-- Runner.Ends      the end of the retry loops
-- Encrypted.Bytes  slices, encoding/binary
-- Encrypted.Format layout, nonces, the interface of cipher.AEAD (encryptedfile.go)
-- Encrypted.Encrypt, Encrypted.Stream  Encrypt (encryptedfile.go), EncryptStream (stream.go)
-- Encrypted.Open, Encrypted.Read  Open, IsEncryptedFile (inspect.go), readAt, cachedChunk, Seek
-- Encrypted.Requests  sequences of reads and seeks on a File, and on a plaintext in memory
-- Encrypted.Cache, Encrypted.Reading, Encrypted.Memory  a File against a plaintext
-- Encrypted.Layout, Encrypted.Writing, Encrypted.Chunks, Encrypted.Opening, Encrypted.RoundTrip
--                  the bytes that Encrypt writes, and what Open makes of them
-- Encrypted.Streaming, Encrypted.Resealing, Encrypted.Finalizing  the passes of EncryptStream
-- Encrypted.Nonces, Encrypted.Inspecting, Encrypted.Authentic, Encrypted.Tampering
--                  nonces, recognition, and the only bytes that open
-- Relink.Plan      Plan (internal/relink/planner.go), over types/types.go
-- Relink.Maps, Relink.Records, Relink.Targets, Relink.Untouched  sorts and maps, the proposals
-- Query.Ast        Expression, AndTerm, Factor (internal/query/parser.go), and what they select
-- Query.Saved      ParseMetaTag (metatags.go), expandSavedSearches (saved.go)
-- Query.Expansion, Query.Nesting  the meaning of an expanded query, the depth of an expansion
--
-- A table is the list of its rows in the order of insertion. A method is a function from the tables
-- to a result: the next tables, or an error alone, since a method that fails rolls its transaction
-- back. Every statement of the source is one list operation: a WHERE clause is a Boolean test, an
-- UPDATE by primary key with RETURNING changes the first row that the test selects, any other UPDATE
-- changes each of them, and the triggers of the migrations run where SQLite runs them: a BEFORE
-- trigger ahead of the conflict clause of an INSERT, an AFTER trigger behind each changed row, and
-- no trigger inside another's statement (recursive_triggers is off). The primary keys, the unique
-- index of the active dedupe keys and the foreign key of operation_id are tested by the INSERTs.
--
-- A time is a natural number of nanoseconds, the zero time is `none`, and a column holds
-- milliseconds. The clock is an argument. Counters do not wrap: an int64 counter needs 2 ^ 63 tasks.
-- Lease durations are natural numbers, since the source refuses a negative one as it refuses 0. The
-- descriptor of a terminal cleanup is kept as a record in place of its JSON text, and "%d background
-- task(s) failed" as its number. Whether a payload is JSON is a parameter (`valid`, for
-- encoding/json's Valid), and a payload's length is the number of its characters, each standing for a
-- byte.
--
-- The loop of EnqueueBackgroundTask is recursion on its eight rounds; what other connections do
-- between two of its statements is a function argument, the identity inside a transaction. All other
-- loops are structural.
--
-- The runner's world is a type parameter: tables, clock, context, and all that other processes do. A
-- call of the store answers a value, a lost lease, contention or another error, which is all that the
-- runner tells apart. The goroutine of the renewal is a machine that takes the events of a schedule
-- (an act of the handler, the ticker, the retry timer, the end of the context) while the handler
-- runs; every schedule is allowed, and the handler's result is read from the world that it leaves.
-- The endless loops take a bound on their calls and have an error of their own at its end; a loop whose
-- store is contended for fewer calls than the bound does not meet it.
--
-- A byte slice is a list of numbers, an io.Reader its bytes and whether an error of its own follows
-- them, a destination of Encrypt takes every byte, and a file that EncryptStream rewrites is its bytes
-- and a position. The chunk size is the source's, 1 << 20. The cipher is a parameter with three laws:
-- it opens what it sealed, it opens nothing else (the sealed text of a nonce, a plaintext and
-- associated data is unique, since XChaCha20-Poly1305 is deterministic), and a sealed text is 16
-- bytes longer. crypto/rand is the list of the prefixes that it will return. An int64 offset of Seek
-- is a ℤ, and its sums wrap around. The loops take a bound that is the number of bytes they have to
-- go (one more for EncryptStream), which is enough since each iteration moves one byte at least; a
-- loop cut off would answer endless_loop. The locks of a File make each of its calls one step.
--
-- A Go map is the list of its entries; the planner sorts what it iterates over, so that their order
-- does not matter. strings.Split is a parameter.
--
-- An expression is rewritten as a value: the source rewrites it in place, and gives it up on an error.
-- The resolver, Parse and the functions of strings that depend on Unicode are parameters. The recursion
-- through stored searches takes a bound. One more than the number of resolvable names is enough, since a
-- name in use twice is an error. Only the names of the definitions of meta-tags and whether they take
-- a value stand in the model, for the rest of a definition is shown to users.
--
-- Not modelled: nil stores and queriers and I/O failures of the database, which change no row; the
-- scanning of rows, the read API, and the methods that set the result of an operation, attach a further
-- task to an operation, or create a tag mutation with its task; logging and
-- the registration for wake-ups of the runner; operating system errors other than those of opening,
-- Close and the migration of older files of the encrypted format (migration.go, renames and syncs);
-- the scan that relinking starts from and the application of its result; and the rest of the program:
-- the parser, validation, formatting and SQL translation of queries, the database of files and tags,
-- the HTTP server, the command line, the mounted file system, the frontend.
pub mod Encrypted
pub mod Prelude
pub mod Query
pub mod Relink
pub mod Runner
pub mod Work
